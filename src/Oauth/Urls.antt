-- ===== src/Oauth/Urls.antt =====
-- `_is_allowed_redirect_uri` and `_validated_public_base_url`.
use chatgpt_web_oauth_mcp.Prelude.{
  ℕ, Bool, true, false, ◌&&◌, ◌||◌, not, Option, none, some, List, [], ◌∷◌, Text, codes, text_eq,
  elem, ltb, ◌==◌, if◌then◌else◌, Result, ok, err, ◌>>◌, guard,
}
use chatgpt_web_oauth_mcp.Prelude.Split.{is_space}
use chatgpt_web_oauth_mcp.Oauth.Params.{is_empty, or_empty, rstrip_slash}
use chatgpt_web_oauth_mcp.Oauth.Runtime.{ParsedUrl, Runtime}

-- `s == s.strip()`: neither the first nor the last character is whitespace.
unfoldable pub ends_plain : Text → Bool
ends_plain [] = true
ends_plain (c ∷ []) = not (is_space c)
ends_plain (c ∷ d ∷ s) = ends_plain (d ∷ s)

abbrev starts_plain : Text → Bool
starts_plain [] = true
starts_plain (c ∷ s) = not (is_space c)

unfoldable pub is_stripped : Text → Bool
unfolding ends_plain
is_stripped s = starts_plain s && ends_plain s

-- `character in s`
unfoldable pub has_char : ℕ → Text → Bool
has_char c [] = false
has_char c (d ∷ s) = (c == d) || has_char c s

-- `any(ord(character) < 0x20 or ord(character) == 0x7F for character in s)`
unfoldable pub has_control : Text → Bool
has_control [] = false
has_control (c ∷ s) = ltb c 0x20 || (c == 0x7F) || has_control s

abbrev is_some : Option Text → Bool
is_some none = false
is_some (some t) = true

abbrev pub loopback_hosts : List Text
loopback_hosts = codes "127.0.0.1" ∷ codes "::1" ∷ codes "localhost" ∷ []

-- The last lines of both functions: https anywhere, http on a loopback host.
unfoldable pub is_secure : Runtime → ParsedUrl → Bool
is_secure rt u =
    text_eq u.scheme (codes "https")
    || (text_eq u.scheme (codes "http") && elem (rt.lower (or_empty u.hostname)) loopback_hosts)

parsed_is_allowed : Runtime → Option ParsedUrl → Bool
parsed_is_allowed rt none = false
parsed_is_allowed rt (some u) =
    if not (is_empty u.fragment) || is_some u.username || is_some u.password
    then false
    else if is_empty (or_empty u.hostname)
    then false
    else if not u.port_is_valid
    then false
    else is_secure rt u

unfoldable pub is_allowed_redirect_uri : Runtime → Text → Bool
unfolding is_stripped has_char has_control parsed_is_allowed is_secure
is_allowed_redirect_uri rt uri =
    if is_empty uri || not (is_stripped uri)
    then false
    else if has_char b'\\' uri || has_char b'#' uri
    then false
    else if has_control uri
    then false
    else parsed_is_allowed rt (rt.urlparse uri)

-- The messages of `_validated_public_base_url`.
pub data BaseUrlError : Type 0 where
  base_url_required not_canonical not_a_url must_be_https : BaseUrlError

parsed_base_url : Runtime → Text → Option ParsedUrl → Result BaseUrlError Text
parsed_base_url rt url none = err not_a_url
parsed_base_url rt url (some u) = do
  guard u.port_is_valid not_a_url
  guard
      (not (
        is_empty (or_empty u.hostname)
        || is_some u.username
        || is_some u.password
        || not (is_empty u.query)
        || not (is_empty u.fragment)
        || not (is_empty u.path || text_eq u.path (codes "/"))))
      not_canonical
  guard (is_secure rt u) must_be_https
  ok (rstrip_slash url)

abbrev is_blank : Text → Bool
is_blank [] = true
is_blank (c ∷ s) = is_space c && is_blank s

unfoldable pub validated_public_base_url : Runtime → Text → Result BaseUrlError Text
unfolding is_stripped has_char has_control parsed_base_url is_secure
validated_public_base_url rt raw = do
  guard (not (is_blank raw)) base_url_required
  guard
      (not (not (is_stripped raw) || has_char b'\\' raw || has_char b'#' raw || has_char b'?' raw))
      not_canonical
  guard (not (has_control raw)) not_canonical
  parsed_base_url rt raw (rt.urlparse raw)
