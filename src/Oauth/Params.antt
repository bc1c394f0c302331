-- ===== src/Oauth/Params.antt =====
-- `OAuthRuntimeConfig`, the parameters of a request, and the helpers on scopes and URLs.
use chatgpt_web_oauth_mcp.Prelude.{
  text_lt, ℕ, Bool, true, false, ◌&&◌, Option, none, some, List, [], ◌∷◌, ◌++◌, Text, codes,
  text_eq, ◌==◌, if◌then◌else◌,
}
use chatgpt_web_oauth_mcp.Prelude.Split.{words, join}

-- What the handlers read of `OAuthRuntimeConfig` and of the manager; `mcp_path` and the
-- properties `login_token` and `scopes` are evaluated.
pub record Config : Type 0 where
  pub auth_token : Text
  pub oauth_login_token : Text
  pub oauth_scopes : List Text
  pub oauth_token_ttl_seconds : ℕ
  pub oauth_refresh_token_ttl_seconds : ℕ
  pub mcp_path : Text

abbrev pub default_scope : Text
default_scope = codes "local-ops"

abbrev pub offline_access_scope : Text
offline_access_scope = codes "offline_access"

-- `a or b` on texts.
abbrev pub or_text : Text → Text → Text
or_text [] b = b
or_text (c ∷ a) b = c ∷ a

abbrev pub is_empty : Text → Bool
is_empty [] = true
is_empty (c ∷ a) = false

-- `payload.get(key, "")`
abbrev pub or_empty : Option Text → Text
or_empty none = []
or_empty (some t) = t

unfoldable pub login_token : Config → Text
login_token c = or_text c.oauth_login_token c.auth_token

abbrev default_scopes : List Text → List Text
default_scopes [] = default_scope ∷ []
default_scopes (s ∷ ss) = s ∷ ss

unfoldable pub scopes : Config → List Text
scopes c = default_scopes c.oauth_scopes

unfoldable pub scope_string : Config → Text
unfolding scopes
scope_string c = join (32 ∷ []) (scopes c)

-- `url.rstrip("/")`
unfoldable pub rstrip_slash : Text → Text
rstrip_slash [] = []
rstrip_slash (c ∷ s) =
    let rest = rstrip_slash s in if is_empty rest && (c == b'/') then [] else c ∷ rest

unfoldable pub resource_url : Config → Text → Text
resource_url c base_url = rstrip_slash base_url ++ c.mcp_path

-- The parameters of the authorization form and of the token endpoint.
pub record AuthorizeRequest : Type 0 where
  pub login_token : Option Text
  pub client_id : Option Text
  pub redirect_uri : Option Text
  pub code_challenge : Option Text
  pub response_type : Option Text
  pub code_challenge_method : Option Text
  pub resource : Option Text
  pub scope : Option Text
  pub state : Option Text

pub record TokenRequest : Type 0 where
  pub grant_type : Option Text
  pub resource : Option Text
  pub code : Option Text
  pub client_id : Option Text
  pub redirect_uri : Option Text
  pub code_verifier : Option Text
  pub refresh_token : Option Text
  pub scope : Option Text

-- `payload.get(key) == text`
unfoldable pub is_text : Option Text → Text → Bool
is_text none t = false
is_text (some s) t = text_eq s t

-- A set of texts, as the list of its members in the order of `sorted`.
unfoldable pub insert : Text → List Text → List Text
insert k [] = k ∷ []
insert k (x ∷ xs) =
    if text_eq k x then x ∷ xs else if text_lt k x then k ∷ x ∷ xs else x ∷ insert k xs

unfoldable pub sorted_set : List Text → List Text
unfolding insert
sorted_set [] = []
sorted_set (x ∷ xs) = insert x (sorted_set xs)

-- `_scope_set(scope)`
unfoldable pub scope_set : Text → List Text
unfolding sorted_set
scope_set scope = sorted_set (words scope)

-- The list without a text: `xs - {k}` for a set.
unfoldable pub without : Text → List Text → List Text
without k [] = []
without k (x ∷ xs) = let rest = without k xs in if text_eq x k then rest else x ∷ rest

-- `_without_offline_access(scope)`
unfoldable pub without_offline_access : Text → Text
unfolding without
without_offline_access scope = join (32 ∷ []) (without offline_access_scope (words scope))

-- `_scope_set(payload.get("scope", "")) - {OFFLINE_ACCESS_SCOPE}`
unfoldable pub requested_scopes : Option Text → List Text
unfolding scope_set without
requested_scopes scope = without offline_access_scope (scope_set (or_empty scope))
