-- ===== src/Oauth/Refresh/Rotation.antt =====
-- Rotation of refresh tokens.
use chatgpt_web_oauth_mcp.Prelude.{
  ◌<◌, text_eq-differs, ℕ, ◌+◌, ◌≡◌, ◌≢◌, refl, sym, ◌∙◌, inl, inr, true, false, Option, none, some,
  arith, Text, text_eq_refl, max, ok, Bool-cases, Option-cases, Result-cases,
}
use chatgpt_web_oauth_mcp.Prelude.Dict.{Dict, get, put, keep, filter_option, get-put, get-keep}
use chatgpt_web_oauth_mcp.Oauth.Store.{
  RefreshRecord, Store, StoreFile, written, read_store, is_live, prune_refresh_tokens,
}
use chatgpt_web_oauth_mcp.Oauth.Params.{
  Config, TokenRequest, or_text, or_empty, is_empty, scope_string, resource_url, requested_scopes,
}
use chatgpt_web_oauth_mcp.Oauth.Runtime.{Runtime, Fresh, token_hash}
use chatgpt_web_oauth_mcp.Oauth.Refresh.{
  rotated_retention_seconds, or_now, min, TokenResponse, other_resource, is_reused, rotate,
  check_refresh, grant_refresh, use_record, find_record, refresh_access_token, issue_refresh_token,
  issue_access_token, narrowed_scope, exceeds, token_response,
}

-- The refresh tokens that have not expired, before the call.
abbrev pub live_tokens : ℕ → StoreFile → Dict RefreshRecord
live_tokens now f = keep (is_live now) (read_store f).refresh_tokens

abbrev pub pruned_store : ℕ → StoreFile → Store
pruned_store now f = record (read_store f) { refresh_tokens = live_tokens now f }

-- A request that presents a refresh token to this server.
abbrev pub IsRefreshRequest : Config → Text → TokenRequest → Type 0
IsRefreshRequest config base_url payload =
    (is_empty (or_empty payload.refresh_token) ≡ false)
    × (other_resource payload.resource (resource_url config base_url) ≡ false)

module _ (config : Config) (rt : Runtime) (fresh : Fresh) (base_url : Text) (payload : TokenRequest)
    (f : StoreFile) where
  abbrev pub hash : Text
  hash = token_hash rt (or_empty payload.refresh_token)

  pub refresh-use :
      (r : RefreshRecord)
      → IsRefreshRequest config base_url payload
      → get hash (live_tokens fresh.now f) ≡ some r
      → refresh_access_token config rt fresh base_url payload f
        ≡ use_record config rt fresh base_url payload hash r (pruned_store fresh.now f) f
  unfolding refresh_access_token prune_refresh_tokens
  refresh-use r (a, b) h = rw (a, b, h)

  refresh-found :
      {answer : TokenResponse}
      → IsRefreshRequest config base_url payload
      → (refresh_access_token config rt fresh base_url payload f).0 ≡ ok answer
      → (r : RefreshRecord) × (get hash (live_tokens fresh.now f) ≡ some r)
  unfolding refresh_access_token prune_refresh_tokens find_record
  refresh-found (a, b) h = elim (Option-cases (get hash (live_tokens fresh.now f))) [
    | inl n ↦ cc (rw (a, b, n) at h)
    | inr (r, e) ↦ (r, e)
  ]

  pub use_record-granted :
      (r : RefreshRecord) (s : Store) {answer : TokenResponse}
      → (use_record config rt fresh base_url payload hash r s f).0 ≡ ok answer
      → (check_refresh config base_url payload s r ≡ ok tt)
        × (is_reused fresh.now r.rotated_at ≡ false)
        × (use_record config rt fresh base_url payload hash r s f
            ≡ grant_refresh config rt fresh base_url payload hash r s f)
  unfolding use_record
  use_record-granted r s h = elim (Result-cases (check_refresh config base_url payload s r)) [
    | inr (e, g) ↦ cc (rw (g, use_record) at h)
    | inl (u, g) ↦ elim (Bool-cases (is_reused fresh.now r.rotated_at)) [
      | inl y ↦ cc (rw (g, use_record, y) at h)
      | inr n ↦ (g, n, rw (g, use_record, n))
    ]
  ]

live-keep :
    (now : ℕ) (k : Text) (d : Dict RefreshRecord) {r : RefreshRecord}
    → get k (keep (is_live now) d) ≡ some r
    → is_live now r ≡ true
live-keep now k d {r} h = passed (get k d) (sym (get-keep (is_live now) k d) ∙ h)
  where
    passed :
        (o : Option RefreshRecord) → filter_option (is_live now) o ≡ some r → is_live now r ≡ true
    passed none e = cc
    passed (some v) e = elim (Bool-cases (is_live now v)) [
      | inl y ↦ let same : v ≡ r = cc (rw y at e) in rw (← same) y
      | inr n ↦ cc (rw n at e)
    ]

-- A record that was presented: marked with the time of its first use, from which on it is kept for
-- seven days at most, and otherwise as it was.
pub record Marked (now : ℕ) (r after : RefreshRecord) : Type 0 where
  pub client_id : after.client_id ≡ r.client_id
  pub scope : after.scope ≡ r.scope
  pub resource : after.resource ≡ r.resource
  pub family_id : after.family_id ≡ r.family_id
  pub created_at : after.created_at ≡ r.created_at
  pub first_use :
      r.rotated_at ≡ none
      → (after.rotated_at ≡ some now) × (after.expires_at ≡ min r.expires_at (now + 604800))
  pub later_use : (t : ℕ) → r.rotated_at ≡ some t → after ≡ r

rotate-Marked :
    (now : ℕ) (r : RefreshRecord) → 0 < now → is_live now r ≡ true → Marked now r (rotate now r)
unfolding rotate
rotate-Marked now r started h = marked r.rotated_at refl
  where
    marked :
        (o : Option ℕ)
        → r.rotated_at ≡ o
        → Marked now r (elim o [
          | some t ↦ r
          | none ↦ record r {
            rotated_at = some now;
            expires_at = min (or_now now r.expires_at) (now + rotated_retention_seconds);
          }
        ])
    marked (some t) e = record {
      client_id = refl;
      scope = refl;
      resource = refl;
      family_id = refl;
      created_at = refl;
      first_use = λ n. cc;
      later_use = λ u q. refl;
    }
    marked none e = record {
      client_id = refl;
      scope = refl;
      resource = refl;
      family_id = refl;
      created_at = refl;
      first_use = λ n. (refl, ground (arith, started, h));
      later_use = λ u q. cc;
    }

live-rotate :
    (now : ℕ) (r : RefreshRecord) → is_live now r ≡ true → is_live now (rotate now r) ≡ true
unfolding rotate
live-rotate now r h = elim (Option-cases r.rotated_at) [
  | inr (t, e) ↦ rw e h
  | inl e ↦ rw e (ground arith)
]

tokens-issue :
    (config : Config) (rt : Runtime) (fresh : Fresh) (k client_id scope resource family : Text)
    (s : Store)
    → token_hash rt fresh.refresh_token ≢ k
    → get k (issue_refresh_token config rt fresh client_id scope resource family s).refresh_tokens
      ≡ filter_option (is_live fresh.now) (get k s.refresh_tokens)
unfolding issue_refresh_token prune_refresh_tokens
tokens-issue config rt fresh k client_id scope resource family s h =
    rw (get-put, text_eq-differs h, get-keep) refl

-- The record of the refresh token that a call hands out.
abbrev pub issued_record : Config → Fresh → (client_id scope resource family : Text) → RefreshRecord
issued_record config fresh client_id scope resource family = record {
  client_id = client_id;
  scope = scope;
  resource = resource;
  family_id = or_text family fresh.family_id;
  created_at = fresh.now;
  expires_at = fresh.now + max config.oauth_refresh_token_ttl_seconds 60;
  rotated_at = none;
}

issued-issue :
    (config : Config) (rt : Runtime) (fresh : Fresh) (client_id scope resource family : Text)
    (s : Store)
    → get
        (token_hash rt fresh.refresh_token)
        (issue_refresh_token config rt fresh client_id scope resource family s).refresh_tokens
      ≡ some (issued_record config fresh client_id scope resource family)
unfolding issue_refresh_token
issued-issue config rt fresh client_id scope resource family s = rw (get-put, text_eq_refl) refl

-- The granted scope of a record.
abbrev pub granted : Config → RefreshRecord → Text
granted config r = or_text r.scope (scope_string config)

module _ (config : Config) (rt : Runtime) (fresh : Fresh) (base_url : Text) (payload : TokenRequest)
    (f : StoreFile) where
  pub grant_refresh-ok :
      (k : Text) (r : RefreshRecord) (s : Store) {answer : TokenResponse}
      → (grant_refresh config rt fresh base_url payload k r s f).0 ≡ ok answer
      → (exceeds (granted config r) (requested_scopes payload.scope) ≡ false)
        × (token_response config fresh
              (narrowed_scope (granted config r) (requested_scopes payload.scope))
            ≡ answer)
        × ((grant_refresh config rt fresh base_url payload k r s f).1
            ≡ written (
                issue_refresh_token config rt fresh r.client_id
                  (granted config r)
                  (resource_url config base_url)
                  r.family_id
                  (issue_access_token config fresh r.client_id
                    (narrowed_scope (granted config r) (requested_scopes payload.scope))
                    (resource_url config base_url)
                    (record s { refresh_tokens = put k (rotate fresh.now r) s.refresh_tokens }))))
  unfolding grant_refresh token_response
  grant_refresh-ok k r s {answer} h =
      elim (Bool-cases (exceeds (granted config r) (requested_scopes payload.scope))) [
        | inl y ↦ cc (rw (grant_refresh, y) at h)
        | inr n ↦ (n, cc (rw (grant_refresh, n) at h), rw (grant_refresh, n) refl)
      ]

  -- At a time after 0, a refresh with a stored token that has not expired and that grants a token
  -- leaves the presented refresh token in the store: as it was if it had been used before, and else
  -- marked as used at this time, with a life of seven days at most and all else as it was. It stores
  -- the new token for the same client, scope and grant, if the new token has not the hash of the old
  -- one.
  pub refresh_access_token-rotates :
      (r : RefreshRecord) {answer : TokenResponse}
      → 0 < fresh.now
      → IsRefreshRequest config base_url payload
      → get (hash config rt fresh base_url payload f) (live_tokens fresh.now f) ≡ some r
      → token_hash rt fresh.refresh_token ≢ hash config rt fresh base_url payload f
      → (refresh_access_token config rt fresh base_url payload f).0 ≡ ok answer
      → ((after : RefreshRecord) × Marked fresh.now r after
          × (get
                (hash config rt fresh base_url payload f)
                (read_store
                  (refresh_access_token config rt fresh base_url payload f).1).refresh_tokens
              ≡ some after))
        × (get
              (token_hash rt answer.refresh_token)
              (read_store
                (refresh_access_token config rt fresh base_url payload f).1).refresh_tokens
            ≡ some (
                issued_record config fresh r.client_id
                  (granted config r)
                  (resource_url config base_url)
                  r.family_id))
  unfolding read_store issue_access_token token_response
  refresh_access_token-rotates r started q h new g =
      let k = hash config rt fresh base_url payload f in
      let s = pruned_store fresh.now f in
      let step = refresh-use config rt fresh base_url payload f r q h in
      let (_, _, grant) =
        use_record-granted config rt fresh base_url payload f r s (rw step at g) in
      let (_, same, after) = grant_refresh-ok k r s (rw (step, grant) at g) in
      rw (step, grant, ← same, after)
        (
          (
            rotate fresh.now r,
            rotate-Marked fresh.now r started (live-keep fresh.now k _ h),
            rw
                (
                  tokens-issue,
                  get-put,
                  text_eq_refl,
                  live-rotate fresh.now r (live-keep fresh.now k _ h),
                )
                refl,
          ),
          issued-issue config rt fresh r.client_id (granted config r) (resource_url config base_url)
              r.family_id _,
        )
