-- ===== src/Oauth/Verify.antt =====
-- `OAuthManager.verify_access_token`.
pub mod Access
pub mod Issued
use chatgpt_web_oauth_mcp.Prelude.{
  ℕ, Bool, true, false, ◌&&◌, not, Option, none, some, List, Text, text_eq, subset, ltb,
  if◌then◌else◌,
}
use chatgpt_web_oauth_mcp.Prelude.Dict.{get, remove}
use chatgpt_web_oauth_mcp.Oauth.Store.{TokenRecord, Store, StoreFile, written, read_store}
use chatgpt_web_oauth_mcp.Oauth.Params.{Config, is_empty, scopes, scope_set, resource_url}

unfoldable pub verify_record :
    Config → ℕ → Text → Text → Option TokenRecord → Store → StoreFile → Bool × StoreFile
verify_record config now base_url token none s f = (false, f)
verify_record config now base_url token (some r) s f =
    if ltb r.expires_at now
    then (false, written (record s { tokens = remove token s.tokens }))
    else if not (text_eq r.resource (resource_url config base_url))
    then (false, f)
    else (subset (scopes config) (scope_set r.scope), f)

-- Whether the token opens the server, and the file: an expired token is dropped.
unfoldable pub verify_access_token : Config → ℕ → Text → Text → StoreFile → Bool × StoreFile
unfolding verify_record
verify_access_token config now base_url token f =
    let s = read_store f in
    if is_empty token
    then (false, f)
    else verify_record config now base_url token (get token s.tokens) s f
