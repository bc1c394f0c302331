-- ===== src/Oauth/Authorize.antt =====
-- `OAuthManager.authorize`.
use chatgpt_web_oauth_mcp.Prelude.{
  ◌+◌, Bool, true, false, ◌&&◌, ◌||◌, not, Option, none, some, List, [], ◌∷◌, ◌++◌, Text, codes,
  elem, subset, if◌then◌else◌, Result, ok, err, ◌>>=◌, ◌>>◌, guard,
}
use chatgpt_web_oauth_mcp.Prelude.Dict.{get, put}
use chatgpt_web_oauth_mcp.Oauth.Store.{Client, CodeRecord, Store, StoreFile, written, read_store}
use chatgpt_web_oauth_mcp.Oauth.Params.{
  Config, AuthorizeRequest, or_text, or_empty, is_empty, is_text, login_token, scopes, scope_string,
  resource_url, requested_scopes, without_offline_access,
}
use chatgpt_web_oauth_mcp.Oauth.Runtime.{
  Runtime, Fresh, OauthError, Handled, compare_digest, login_not_configured, invalid_login,
  bad_response_type, pkce_required, wrong_resource, unknown_client, redirect_uri_not_registered,
  unsupported_scope,
}
use chatgpt_web_oauth_mcp.Oauth.Urls.{has_char}

abbrev is_nil : List Text → Bool
is_nil [] = true
is_nil (x ∷ xs) = false

unfoldable pub find_client : Option Client → Result OauthError Client
find_client none = err unknown_client
find_client (some client) = ok client

-- Every check of `authorize`, in its order.
unfoldable pub check_authorize :
    Config → Text → AuthorizeRequest → Store → Result OauthError (Unit {0})
unfolding find_client
check_authorize config base_url payload s = do
  guard (not (is_empty (login_token config))) login_not_configured
  same ← compare_digest (or_empty payload.login_token) (login_token config)
  guard same invalid_login
  guard (is_text payload.response_type (codes "code")) bad_response_type
  guard
      (is_text payload.code_challenge_method (codes "S256")
        && not (is_empty (or_empty payload.code_challenge)))
      pkce_required
  guard (is_text payload.resource (resource_url config base_url)) wrong_resource
  client ← find_client (get (or_empty payload.client_id) s.clients)
  guard (elem (or_empty payload.redirect_uri) client.redirect_uris) redirect_uri_not_registered
  let requested = requested_scopes payload.scope
  guard (is_nil requested || subset requested (scopes config)) unsupported_scope

unfoldable pub new_code : Config → Fresh → AuthorizeRequest → CodeRecord
new_code config fresh payload = record {
  client_id = or_empty payload.client_id;
  redirect_uri = or_empty payload.redirect_uri;
  code_challenge = or_empty payload.code_challenge;
  scope = or_text (without_offline_access (or_empty payload.scope)) (scope_string config);
  resource = or_empty payload.resource;
  expires_at = fresh.now + 300;
}

abbrev state_query : Text → List (Text × Text)
state_query [] = []
state_query (c ∷ state) = (codes "state", c ∷ state) ∷ []

-- The URL that the browser is sent to.
unfoldable pub redirect_url : Runtime → Fresh → AuthorizeRequest → Text
redirect_url rt fresh payload =
    let uri = or_empty payload.redirect_uri in
    uri
    ++ ((if has_char b'?' uri then codes "&" else codes "?")
        ++ rt.urlencode ((codes "code", fresh.code) ∷ state_query (or_empty payload.state)))

unfoldable pub authorize :
    Config → Runtime → Fresh → Text → AuthorizeRequest → StoreFile → Handled Text
authorize config rt fresh base_url payload f =
    let s = read_store f in
    elim (check_authorize config base_url payload s) [
      | err e ↦ (err e, f)
      | ok _ ↦ (
        ok (redirect_url rt fresh payload),
        written (record s { codes = put fresh.code (new_code config fresh payload) s.codes }),
      )
    ]
