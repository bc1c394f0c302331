-- ===== src/Oauth/Verify/Issued.antt =====
-- The access token of a refresh, when it is presented.
use chatgpt_web_oauth_mcp.Prelude.{
  ℕ, ◌+◌, ◌≡◌, refl, inl, inr, true, false, ◌&&◌, not, some, Text, text_eq, text_eq_refl, subset,
  ltb, ok, Bool-cases, max,
}
use chatgpt_web_oauth_mcp.Prelude.Dict.{get, get-put}
use chatgpt_web_oauth_mcp.Oauth.Store.{
  TokenRecord, RefreshRecord, Store, StoreFile, read_store, prune_refresh_tokens,
}
use chatgpt_web_oauth_mcp.Oauth.Params.{
  Config, TokenRequest, is_empty, scopes, scope_set, resource_url, requested_scopes,
}
use chatgpt_web_oauth_mcp.Oauth.Runtime.{Runtime, Fresh}
use chatgpt_web_oauth_mcp.Oauth.Refresh.{
  TokenResponse, issue_access_token, issue_refresh_token, narrowed_scope, token_response,
  refresh_access_token,
}
use chatgpt_web_oauth_mcp.Oauth.Refresh.Rotation.{
  IsRefreshRequest, hash, live_tokens, pruned_store, granted, refresh-use, use_record-granted,
  grant_refresh-ok,
}
use chatgpt_web_oauth_mcp.Oauth.Verify.{verify_record, verify_access_token}

-- The record of an access token that a call hands out.
abbrev pub issued_token : Config → Fresh → (client_id scope resource : Text) → TokenRecord
issued_token config fresh client_id scope resource = record {
  client_id = client_id;
  scope = scope;
  resource = resource;
  expires_at = fresh.now + max config.oauth_token_ttl_seconds 60;
}

get-issued :
    (config : Config) (rt : Runtime) (fresh : Fresh)
    (client_id scope narrowed resource family : Text) (s : Store)
    → get fresh.access_token
        (issue_refresh_token config rt fresh client_id scope resource family
          (issue_access_token config fresh client_id narrowed resource s)).tokens
      ≡ some (issued_token config fresh client_id narrowed resource)
unfolding issue_refresh_token prune_refresh_tokens issue_access_token
get-issued config rt fresh client_id scope narrowed resource family s =
    rw (get-put, text_eq_refl) refl

module _ (config : Config) (later : ℕ) (base_url token : Text) (f : StoreFile) where
  verify-stored :
      (r : TokenRecord)
      → is_empty token ≡ false
      → get token (read_store f).tokens ≡ some r
      → text_eq r.resource (resource_url config base_url) ≡ true
      → (verify_access_token config later base_url token f).0
        ≡ (not (ltb r.expires_at later) && subset (scopes config) (scope_set r.scope))
  unfolding verify_access_token verify_record
  verify-stored r e g same = elim (Bool-cases (ltb r.expires_at later)) [
    | inl y ↦ rw (e, g, y) refl
    | inr n ↦ rw (e, g, n, same) refl
  ]

-- If a refresh with a stored token grants an access token that is not empty, then this token opens
-- the server, on the file that the refresh left, exactly until its lifetime is over and if its scope
-- covers what the server asks for.
pub verify_access_token-refreshed :
    (config : Config) (rt : Runtime) (fresh : Fresh) (base_url : Text) (payload : TokenRequest)
    (f : StoreFile) (later : ℕ) (r : RefreshRecord) {answer : TokenResponse}
    → is_empty fresh.access_token ≡ false
    → IsRefreshRequest config base_url payload
    → get (hash config rt fresh base_url payload f) (live_tokens fresh.now f) ≡ some r
    → (refresh_access_token config rt fresh base_url payload f).0 ≡ ok answer
    → (verify_access_token config later base_url answer.access_token
        (refresh_access_token config rt fresh base_url payload f).1).0
      ≡ (not (ltb (fresh.now + answer.expires_in) later)
          && subset (scopes config) (scope_set answer.scope))
unfolding read_store token_response
verify_access_token-refreshed config rt fresh base_url payload f later r e q h g =
    let k = hash config rt fresh base_url payload f in
    let s = pruned_store fresh.now f in
    let step = refresh-use config rt fresh base_url payload f r q h in
    let (_, _, grant) = use_record-granted config rt fresh base_url payload f r s (rw step at g) in
    let (_, same, after) =
      grant_refresh-ok config rt fresh base_url payload f k r s (rw (step, grant) at g) in
    rw (step, grant, after, ← same)
      (verify-stored config later base_url fresh.access_token _
        (issued_token config fresh r.client_id
          (narrowed_scope (granted config r) (requested_scopes payload.scope))
          (resource_url config base_url))
        e (get-issued config rt fresh r.client_id _ _ _ r.family_id _) (text_eq_refl _))
