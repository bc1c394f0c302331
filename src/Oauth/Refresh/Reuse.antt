-- ===== src/Oauth/Refresh/Reuse.antt =====
-- A refresh token that comes back after its first use.
use chatgpt_web_oauth_mcp.Prelude.{
  ◌≤◌, ◌⊎◌, ◌<◌, text_eq-differs, ℕ, ◌+◌, ◌≡◌, ◌≢◌, refl, inl, inr, true, false, none, some, arith,
  Text, text_eq_refl, ok, err, Bool-cases,
}
use chatgpt_web_oauth_mcp.Prelude.Dict.{Dict, get, keep, get-keep}
use chatgpt_web_oauth_mcp.Oauth.Store.{RefreshRecord, Store, StoreFile, read_store}
use chatgpt_web_oauth_mcp.Oauth.Params.{
  is_text, Config, TokenRequest, or_text, scope_string, resource_url, requested_scopes,
}
use chatgpt_web_oauth_mcp.Oauth.Runtime.{Runtime, Fresh, reuse_detected}
use chatgpt_web_oauth_mcp.Oauth.Refresh.{
  ltb, Handled, Client, TokenResponse, is_reused, other_family, revoke_family, check_refresh,
  grant_refresh, use_record, refresh_access_token, exceeds, token_response,
}
use chatgpt_web_oauth_mcp.Oauth.Refresh.Rotation.{
  live_tokens, pruned_store, IsRefreshRequest, hash, refresh-use,
}

-- What is left of the refresh token of a key: none of the grant, and those of another grant as
-- they were.
abbrev pub Revoked : Text → Text → Dict RefreshRecord → Dict RefreshRecord → Type 0
Revoked family k before left =
    (get k before ≡ none → get k left ≡ none)
    × ((v : RefreshRecord) → get k before ≡ some v → v.family_id ≡ family → get k left ≡ none)
    × ((v : RefreshRecord) → get k before ≡ some v → v.family_id ≢ family → get k left ≡ some v)

module _ (config : Config) (rt : Runtime) (fresh : Fresh) (base_url : Text) (payload : TokenRequest)
    (f : StoreFile) where
  check_refresh-passes :
      (s : Store) (r : RefreshRecord) (client : Client)
      → payload.client_id ≡ some r.client_id
      → r.resource ≡ resource_url config base_url
      → get r.client_id s.clients ≡ some client
      → check_refresh config base_url payload s r ≡ ok tt
  unfolding check_refresh is_text
  check_refresh-passes s r client own here known =
      rw
        (
          check_refresh,
          own,
          here,
          known,
          text_eq_refl r.client_id,
          text_eq_refl (resource_url config base_url),
        )
        refl

  grant_refresh-keeps :
      (k : Text) (r : RefreshRecord) (s : Store)
      → (grant_refresh config rt fresh base_url payload k r s f).0 ≢ err reuse_detected
  unfolding grant_refresh token_response
  grant_refresh-keeps k r s h =
      elim (Bool-cases
        (exceeds (or_text r.scope (scope_string config)) (requested_scopes payload.scope))) [
          | inl y ↦ cc (rw (grant_refresh, y) at h)
          | inr n ↦ cc (rw (grant_refresh, n) at h)
        ]

  -- The refusal of a reused token, with what it leaves under a key.
  pub record IsRevoked (r : RefreshRecord) (k : Text) (outcome : Handled TokenResponse)
      : Type 0 where
    pub refused : outcome.0 ≡ err reuse_detected
    pub grant :
        Revoked r.family_id k (live_tokens fresh.now f) (read_store outcome.1).refresh_tokens
    pub access : (read_store outcome.1).tokens ≡ (read_store f).tokens

  -- A stored refresh token that has not expired, was used before, and is presented for this server
  -- by the client that it was issued to, for the resource that it was issued for, while that client
  -- is registered: if its first use is more than 60 seconds ago it is refused as reused, and of the
  -- refresh tokens that have not expired exactly those of another grant are left, and no access
  -- token is removed; else it is not refused as reused.
  pub refresh_access_token-reuse :
      (r : RefreshRecord) (client : Client) (used : ℕ) (k : Text)
      → IsRefreshRequest config base_url payload
      → get (hash config rt fresh base_url payload f) (live_tokens fresh.now f) ≡ some r
      → payload.client_id ≡ some r.client_id
      → r.resource ≡ resource_url config base_url
      → get r.client_id (read_store f).clients ≡ some client
      → r.rotated_at ≡ some used
      → ((used + 60 < fresh.now)
          × IsRevoked r k (refresh_access_token config rt fresh base_url payload f))
        ⊎ ((fresh.now ≤ used + 60)
            × ((refresh_access_token config rt fresh base_url payload f).0 ≢ err reuse_detected))
  unfolding use_record read_store revoke_family is_reused
  refresh_access_token-reuse r client used k q h own here known rotated =
      let c : check_refresh config base_url payload (pruned_store fresh.now f) r ≡ ok tt =
        check_refresh-passes (pruned_store fresh.now f) r client own here known in
      elim (Bool-cases (ltb (used + 60) fresh.now)) [
        | inl late ↦
            let reused : is_reused fresh.now r.rotated_at ≡ true = rw (rotated, late) refl in
            inl (
              ground (arith, late),
              rw (refresh-use config rt fresh base_url payload f r q h, use_record, c, reused)
                  (record {
                    refused = refl;
                    grant = revoked r.family_id k (live_tokens fresh.now f);
                    access = refl;
                  }),
            )
        | inr early ↦
            let fine : is_reused fresh.now r.rotated_at ≡ false = rw (rotated, early) refl in
            inr (
              ground (arith, early),
              rw (refresh-use config rt fresh base_url payload f r q h, use_record, c, fine)
                  (grant_refresh-keeps (hash config rt fresh base_url payload f) r
                    (pruned_store fresh.now f)),
            )
      ]
    where
      revoked :
          (family key : Text) (d : Dict RefreshRecord)
          → Revoked family key d (keep (other_family family) d)
      revoked family key d = (
        λ e. rw (get-keep (other_family family) key d, e) refl,
        λ v e same. rw (get-keep (other_family family) key d, e, same, text_eq_refl) refl,
        λ v e other. rw (get-keep (other_family family) key d, e, text_eq-differs other) refl,
      )
