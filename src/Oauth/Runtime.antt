-- ===== src/Oauth/Runtime.antt =====
-- What the manager takes from Python's libraries, and how a handler ends.
use chatgpt_web_oauth_mcp.Prelude.{
  ℕ, Bool, true, ◌&&◌, Option, List, [], ◌∷◌, Text, text_eq, ltb, if◌then◌else◌, Result, ok, err,
}
use chatgpt_web_oauth_mcp.Oauth.Store.{StoreFile}

-- `urlparse(uri)`, with whether reading its `port` raises.
pub record ParsedUrl : Type 0 where
  pub scheme : Text
  pub hostname : Option Text
  pub username : Option Text
  pub password : Option Text
  pub path : Text
  pub query : Text
  pub fragment : Text
  pub port_is_valid : Bool

-- hashlib, base64 and urllib: a digest of an ASCII text in hexadecimal and in base 64, the query
-- of a URL, the parse of a URL (none where it raises), and `lower`.
pub record Runtime : Type 0 where
  pub sha256_hex : Text → Text
  pub sha256_base64url : Text → Text
  pub urlencode : List (Text × Text) → Text
  pub urlparse : Text → Option ParsedUrl
  pub lower : Text → Text

-- The random tokens that a call draws from `secrets`, with their prefixes, and the clock.
pub record Fresh : Type 0 where
  pub client_id : Text
  pub code : Text
  pub access_token : Text
  pub refresh_token : Text
  pub family_id : Text
  pub now : ℕ

-- The exceptions of the handlers: `PermissionError`, `TypeError` of `compare_digest`, and the
-- messages of `ValueError`, with the `UnicodeEncodeError` of a verifier among them.
pub data OauthError : Type 0 where
  login_not_configured invalid_login not_ascii : OauthError
  redirect_uris_missing redirect_uri_refused too_many_clients : OauthError
  bad_response_type pkce_required wrong_resource unknown_client redirect_uri_not_registered :
      OauthError
  unsupported_scope bad_grant_type invalid_code code_expired client_mismatch redirect_uri_mismatch :
      OauthError
  verifier_not_ascii invalid_verifier refresh_token_required invalid_refresh_token : OauthError
  refresh_wrong_resource reuse_detected scope_exceeds_grant : OauthError

-- What a handler returns or raises, and the file that it leaves.
abbrev pub Handled : Type 0 → Type 0
Handled A = Result OauthError A × StoreFile

unfoldable pub is_ascii : Text → Bool
is_ascii [] = true
is_ascii (c ∷ s) = ltb c 128 && is_ascii s

-- `hmac.compare_digest(a, b)`: a `TypeError` unless both are ASCII.
unfoldable pub compare_digest : Text → Text → Result OauthError Bool
unfolding is_ascii
compare_digest a b = if is_ascii a && is_ascii b then ok (text_eq a b) else err not_ascii

-- `_pkce_s256(verifier)`
unfoldable pub pkce_s256 : Runtime → Text → Result OauthError Text
unfolding is_ascii
pkce_s256 rt verifier =
    if is_ascii verifier then ok (rt.sha256_base64url verifier) else err verifier_not_ascii

-- `_token_hash(token)`
unfoldable pub token_hash : Runtime → Text → Text
token_hash rt token = rt.sha256_hex token
