-- ===== src/Oauth/Exchange.antt =====
-- `OAuthManager.exchange_code`.
pub mod SingleUse
use chatgpt_web_oauth_mcp.Prelude.{
  ℕ, Bool, true, false, not, Option, none, some, List, [], ◌∷◌, Text, codes, text_eq, ltb,
  if◌then◌else◌, Result, ok, err, ◌>>=◌, ◌>>◌, guard,
}
use chatgpt_web_oauth_mcp.Prelude.Dict.{get, put, remove}
use chatgpt_web_oauth_mcp.Oauth.Store.{CodeRecord, Store, StoreFile, written, read_store}
use chatgpt_web_oauth_mcp.Oauth.Params.{
  Config, TokenRequest, or_text, or_empty, is_text, scope_string, resource_url,
}
use chatgpt_web_oauth_mcp.Oauth.Runtime.{
  Runtime, Fresh, OauthError, Handled, compare_digest, pkce_s256, bad_grant_type, wrong_resource,
  invalid_code, code_expired, client_mismatch, redirect_uri_mismatch, invalid_verifier,
}
use chatgpt_web_oauth_mcp.Oauth.Refresh.{
  TokenResponse, issue_access_token, issue_refresh_token, token_response, refresh_access_token,
}

-- The checks of a code that writes the store before it raises.
unfoldable pub check_code : ℕ → TokenRequest → CodeRecord → Result OauthError (Unit {0})
check_code now payload r = do
  guard (not (ltb r.expires_at now)) code_expired
  guard (is_text payload.client_id r.client_id) client_mismatch
  guard (is_text payload.redirect_uri r.redirect_uri) redirect_uri_mismatch

-- Whether the verifier fits the challenge; an exception of Python's libraries leaves the handler
-- before it writes.
unfoldable pub check_verifier : Runtime → TokenRequest → CodeRecord → Result OauthError Bool
check_verifier rt payload r = do
  expected ← pkce_s256 rt (or_empty payload.code_verifier)
  compare_digest expected r.code_challenge

-- Behind the checks; `s` is the store without the code.
unfoldable pub grant_code :
    Config → Runtime → Fresh → TokenRequest → CodeRecord → Store → Handled TokenResponse
grant_code config rt fresh payload r s =
    let scope = or_text r.scope (scope_string config) in
    let client_id = or_empty payload.client_id in
    (
      ok (token_response config fresh scope),
      written (
          issue_refresh_token config rt fresh client_id scope r.resource []
            (issue_access_token config fresh client_id scope r.resource s)),
    )

unfoldable pub use_code :
    Config
    → Runtime
    → Fresh
    → TokenRequest
    → Option CodeRecord
    → Store
    → StoreFile
    → Handled TokenResponse
use_code config rt fresh payload none s f = (err invalid_code, written s)
use_code config rt fresh payload (some r) s f = elim (check_code fresh.now payload r) [
  | err e ↦ (err e, written s)
  | ok _ ↦ elim (check_verifier rt payload r) [
    | err e ↦ (err e, f)
    | ok same ↦
        if same then grant_code config rt fresh payload r s else (err invalid_verifier, written s)
  ]
]

unfoldable pub exchange_code :
    Config → Runtime → Fresh → Text → TokenRequest → StoreFile → Handled TokenResponse
unfolding use_code
exchange_code config rt fresh base_url payload f =
    let s = read_store f in
    let code = or_empty payload.code in
    if is_text payload.grant_type (codes "refresh_token")
    then refresh_access_token config rt fresh base_url payload f
    else if not (is_text payload.grant_type (codes "authorization_code"))
    then (err bad_grant_type, f)
    else if not (is_text payload.resource (resource_url config base_url))
    then (err wrong_resource, f)
    else use_code config rt fresh payload (get code s.codes)
        (record s { codes = remove code s.codes }) f
