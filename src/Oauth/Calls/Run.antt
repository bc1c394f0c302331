-- ===== src/Oauth/Calls/Run.antt =====
-- Every call keeps the store safe.
use chatgpt_web_oauth_mcp.Prelude.{
  ℕ, refl, inl, inr, Bool, Option, none, some, List, [], ◌∷◌, Text, codes, text_eq, if-cases, ltb,
  Bool-cases, Result-cases,
}
use chatgpt_web_oauth_mcp.Prelude.Dict.{get}
use chatgpt_web_oauth_mcp.Oauth.Store.{
  CodeRecord, TokenRecord, RefreshRecord, Store, StoreFile, written, read_store,
  prune_refresh_tokens,
}
use chatgpt_web_oauth_mcp.Oauth.Params.{
  is_text, requested_scopes, is_empty, resource_url, Config, TokenRequest, or_empty,
}
use chatgpt_web_oauth_mcp.Oauth.Runtime.{Runtime, Fresh, token_hash}
use chatgpt_web_oauth_mcp.Oauth.Register.{register_client}
use chatgpt_web_oauth_mcp.Oauth.Refresh.{
  find_record, use_record, grant_refresh, check_refresh, revoke_family, exceeds, is_reused,
  refresh_access_token, issue_refresh_token, issue_access_token, other_resource,
}
use chatgpt_web_oauth_mcp.Oauth.Exchange.{
  exchange_code, use_code, grant_code, check_code, check_verifier,
}
use chatgpt_web_oauth_mcp.Oauth.Refresh.Rotation.{granted}
use chatgpt_web_oauth_mcp.Oauth.Verify.{verify_access_token, verify_record}
use chatgpt_web_oauth_mcp.Oauth.Calls.{
  Call, registering, authorizing, exchanging, verifying, after, run,
}
use chatgpt_web_oauth_mcp.Oauth.Calls.Safe.{
  IsSafe, Leaves, IsSafe-same, without_code, checked_uris-IsSafe, authorize-IsSafe,
}

module _ (rt : Runtime) where
  grant_refresh-IsSafe :
      (config : Config) (fresh : Fresh) (base_url : Text) (payload : TokenRequest) (hash : Text)
      (r : RefreshRecord) (s : Store) (f : StoreFile)
      → IsSafe rt s
      → IsSafe rt (read_store f)
      → Leaves rt (grant_refresh config rt fresh base_url payload hash r s f)
  unfolding read_store grant_refresh prune_refresh_tokens issue_refresh_token issue_access_token
  grant_refresh-IsSafe config fresh base_url payload hash r s f h g =
      elim (Bool-cases (exceeds (granted config r) (requested_scopes payload.scope))) [
        | inl y ↦ rw (grant_refresh, y) g
        | inr n ↦ rw (grant_refresh, n) (IsSafe-same rt s _ h refl refl)
      ]

  use_record-IsSafe :
      (config : Config) (fresh : Fresh) (base_url : Text) (payload : TokenRequest) (hash : Text)
      (r : RefreshRecord) (s : Store) (f : StoreFile)
      → IsSafe rt s
      → IsSafe rt (read_store f)
      → Leaves rt (use_record config rt fresh base_url payload hash r s f)
  unfolding read_store use_record revoke_family
  use_record-IsSafe config fresh base_url payload hash r s f h g =
      elim (Result-cases (check_refresh config base_url payload s r)) [
        | inr (e, q) ↦ rw (q, use_record) g
        | inl (u, q) ↦ elim (Bool-cases (is_reused fresh.now r.rotated_at)) [
          | inl y ↦ rw (q, use_record, y) (IsSafe-same rt s _ h refl refl)
          | inr n ↦
              rw (q, use_record, n)
                (grant_refresh-IsSafe config fresh base_url payload hash r s f h g)
        ]
      ]

  find_record-IsSafe :
      (config : Config) (fresh : Fresh) (base_url : Text) (payload : TokenRequest) (hash : Text)
      (o : Option RefreshRecord) (pruned : Store × Bool) (f : StoreFile)
      → IsSafe rt pruned.0
      → IsSafe rt (read_store f)
      → Leaves rt (find_record config rt fresh base_url payload hash o pruned f)
  unfolding read_store find_record
  find_record-IsSafe config fresh base_url payload hash none (s, b) f h g =
      if-cases {u = written s} {v = f} (λ m. IsSafe rt (read_store m)) b h g
  find_record-IsSafe config fresh base_url payload hash (some r) (s, b) f h g =
      use_record-IsSafe config fresh base_url payload hash r s f h g

  refresh-IsSafe :
      (config : Config) (fresh : Fresh) (base_url : Text) (payload : TokenRequest) (f : StoreFile)
      → IsSafe rt (read_store f)
      → IsSafe rt (read_store (refresh_access_token config rt fresh base_url payload f).1)
  unfolding read_store refresh_access_token find_record use_record grant_refresh revoke_family
      prune_refresh_tokens issue_refresh_token issue_access_token
  refresh-IsSafe config fresh base_url payload f h =
      let hash = token_hash rt (or_empty payload.refresh_token) in
      let pruned = prune_refresh_tokens fresh.now (read_store f) in
      let found =
        find_record-IsSafe config fresh base_url payload hash (get hash pruned.0.refresh_tokens)
          pruned f (IsSafe-same rt (read_store f) pruned.0 h refl refl) h in
      elim (Bool-cases (is_empty (or_empty payload.refresh_token))) [
        | inl y ↦ rw (refresh_access_token, y) h
        | inr n ↦
            elim (Bool-cases (other_resource payload.resource (resource_url config base_url))) [
              | inl y ↦ rw (refresh_access_token, n, y) h
              | inr m ↦ rw (refresh_access_token, n, m) found
            ]
      ]

  use_code-IsSafe :
      (config : Config) (fresh : Fresh) (payload : TokenRequest) (o : Option CodeRecord) (s : Store)
      (f : StoreFile)
      → IsSafe rt s
      → IsSafe rt (read_store f)
      → IsSafe rt (read_store (use_code config rt fresh payload o s f).1)
  unfolding read_store use_code grant_code prune_refresh_tokens issue_refresh_token
      issue_access_token
  use_code-IsSafe config fresh payload none s f h g = h
  use_code-IsSafe config fresh payload (some r) s f h g =
      elim (Result-cases (check_code fresh.now payload r)) [
        | inr (e, q) ↦ rw (q, use_code) h
        | inl (u, q) ↦ elim (Result-cases (check_verifier rt payload r)) [
          | inr (e, k) ↦ rw (q, use_code, k) g
          | inl (same, k) ↦ elim (Bool-cases same) [
            | inl y ↦ rw (q, use_code, k, y) (IsSafe-same rt s _ h refl refl)
            | inr n ↦ rw (q, use_code, k, n) h
          ]
        ]
      ]

  exchange-IsSafe :
      (config : Config) (fresh : Fresh) (base_url : Text) (payload : TokenRequest) (f : StoreFile)
      → IsSafe rt (read_store f)
      → IsSafe rt (read_store (exchange_code config rt fresh base_url payload f).1)
  unfolding exchange_code
  exchange-IsSafe config fresh base_url payload f h =
      elim (Bool-cases (is_text payload.grant_type (codes "refresh_token"))) [
        | inl y ↦ rw (exchange_code, y) (refresh-IsSafe config fresh base_url payload f h)
        | inr n ↦ elim (Bool-cases (is_text payload.grant_type (codes "authorization_code"))) [
          | inr m ↦ rw (exchange_code, n, m) h
          | inl y ↦ elim (Bool-cases (is_text payload.resource (resource_url config base_url))) [
            | inr m ↦ rw (exchange_code, n, y, m) h
            | inl z ↦
                rw (exchange_code, n, y, z)
                  (use_code-IsSafe config fresh payload _ _ f
                    (without_code rt (or_empty payload.code) (read_store f) h) h)
          ]
        ]
      ]

  verify_record-IsSafe :
      (config : Config) (now : ℕ) (base_url token : Text) (o : Option TokenRecord) (f : StoreFile)
      → IsSafe rt (read_store f)
      → IsSafe rt (read_store (verify_record config now base_url token o (read_store f) f).1)
  unfolding verify_record read_store
  verify_record-IsSafe config now base_url token none f h = h
  verify_record-IsSafe config now base_url token (some r) f h =
      elim (Bool-cases (ltb r.expires_at now)) [
        | inl y ↦ rw (verify_record, y) (IsSafe-same rt (read_store f) _ h refl refl)
        | inr n ↦ elim (Bool-cases (text_eq r.resource (resource_url config base_url))) [
          | inl y ↦ rw (verify_record, n, y) h
          | inr m ↦ rw (verify_record, n, m) h
        ]
      ]

  verify-IsSafe :
      (config : Config) (now : ℕ) (base_url token : Text) (f : StoreFile)
      → IsSafe rt (read_store f)
      → IsSafe rt (read_store (verify_access_token config now base_url token f).1)
  unfolding verify_access_token
  verify-IsSafe config now base_url token f h = elim (Bool-cases (is_empty token)) [
    | inl y ↦ rw (verify_access_token, y) h
    | inr n ↦ rw (verify_access_token, n) (verify_record-IsSafe config now base_url token _ f h)
  ]

  after-IsSafe :
      (config : Config) (call : Call) (f : StoreFile)
      → IsSafe rt (read_store f)
      → IsSafe rt (read_store (after config rt call f))
  unfolding after register_client
  after-IsSafe config (registering fresh payload) f h =
      checked_uris-IsSafe rt fresh payload.client_name payload.redirect_uris f h
  after-IsSafe config (authorizing fresh base_url payload) f h =
      authorize-IsSafe rt config fresh base_url payload f h
  after-IsSafe config (exchanging fresh base_url payload) f h =
      exchange-IsSafe config fresh base_url payload f h
  after-IsSafe config (verifying now base_url token) f h =
      verify-IsSafe config now base_url token f h

  -- Whatever calls reach the server in whatever order, at most fifty clients are registered, and
  -- every URI of a client and of a code is one that may be redirected to, if this holds at the start.
  pub run-IsSafe :
      (config : Config) (calls : List Call) (f : StoreFile)
      → IsSafe rt (read_store f)
      → IsSafe rt (read_store (run config rt calls f))
  unfolding run
  run-IsSafe config [] f h = h
  run-IsSafe config (call ∷ calls) f h =
      run-IsSafe config calls (after config rt call f) (after-IsSafe config call f h)
