-- ===== src/Oauth/Refresh.antt =====
-- `_issue_refresh_token` and `OAuthManager.refresh_access_token`.
pub mod Rotation
pub mod Reuse
pub mod Scopes
use chatgpt_web_oauth_mcp.Prelude.{
  ℕ, ◌+◌, Bool, true, false, ◌&&◌, ◌||◌, not, Option, none, some, List, [], ◌∷◌, Text, text_eq,
  subset, ltb, ◌==◌, min, max, if◌then◌else◌, Result, ok, err, ◌>>=◌, ◌>>◌, guard,
}
use chatgpt_web_oauth_mcp.Prelude.Split.{join}
use chatgpt_web_oauth_mcp.Prelude.Dict.{Dict, get, put, keep}
use chatgpt_web_oauth_mcp.Oauth.Store.{
  Client, RefreshRecord, Store, StoreFile, written, read_store, prune_refresh_tokens,
  reuse_grace_seconds, rotated_retention_seconds,
}
use chatgpt_web_oauth_mcp.Oauth.Params.{
  Config, TokenRequest, or_text, or_empty, is_empty, is_text, scope_string, resource_url, scope_set,
  requested_scopes,
}
use chatgpt_web_oauth_mcp.Oauth.Runtime.{
  Runtime, Fresh, OauthError, Handled, token_hash, refresh_token_required, wrong_resource,
  invalid_refresh_token, client_mismatch, refresh_wrong_resource, unknown_client, reuse_detected,
  scope_exceeds_grant,
}

pub record TokenResponse : Type 0 where
  pub access_token : Text
  pub expires_in : ℕ
  pub scope : Text
  pub refresh_token : Text

-- `max(int(ttl), 60)`
abbrev pub at_least_minute : ℕ → ℕ
at_least_minute ttl = max ttl 60

-- `_issue_refresh_token`: the store with the new record; the caller knows the token. An empty
-- `family` stands for none.
unfoldable pub issue_refresh_token :
    Config → Runtime → Fresh → (client_id scope resource family : Text) → Store → Store
unfolding prune_refresh_tokens token_hash
issue_refresh_token config rt fresh client_id scope resource family s =
    let pruned = (prune_refresh_tokens fresh.now s).0 in
    record pruned {
      refresh_tokens =
          put (token_hash rt fresh.refresh_token)
            (record {
              client_id = client_id;
              scope = scope;
              resource = resource;
              family_id = or_text family fresh.family_id;
              created_at = fresh.now;
              expires_at = fresh.now + at_least_minute config.oauth_refresh_token_ttl_seconds;
              rotated_at = none;
            })
            pruned.refresh_tokens;
    }

-- `store["tokens"][access_token] = …`
unfoldable pub issue_access_token :
    Config → Fresh → (client_id scope resource : Text) → Store → Store
issue_access_token config fresh client_id scope resource s = record s {
  tokens =
      put fresh.access_token
        (record {
          client_id = client_id;
          scope = scope;
          resource = resource;
          expires_at = fresh.now + at_least_minute config.oauth_token_ttl_seconds;
        })
        s.tokens;
}

unfoldable pub token_response : Config → Fresh → Text → TokenResponse
token_response config fresh scope = record {
  access_token = fresh.access_token;
  expires_in = at_least_minute config.oauth_token_ttl_seconds;
  scope = scope;
  refresh_token = fresh.refresh_token;
}

abbrev pub is_nil : List Text → Bool
is_nil [] = true
is_nil (x ∷ xs) = false

-- `payload.get("resource") and payload.get("resource") != resource`
abbrev pub other_resource : Option Text → Text → Bool
other_resource none resource = false
other_resource (some t) resource = not (is_empty t) && not (text_eq t resource)

-- A rotated token that comes back after the grace.
unfoldable pub is_reused : ℕ → Option ℕ → Bool
is_reused now none = false
is_reused now (some rotated_at) = ltb (rotated_at + reuse_grace_seconds) now

abbrev pub other_family : Text → RefreshRecord → Bool
other_family family r = not (text_eq r.family_id family)

-- The store without the refresh tokens of a family.
unfoldable pub revoke_family : Text → Store → Store
revoke_family family s = record s { refresh_tokens = keep (other_family family) s.refresh_tokens }

-- `int(record.get("expires_at") or now)`
abbrev or_now : ℕ → ℕ → ℕ
or_now now e = if e == 0 then now else e

-- The presented record: marked and shortened at its first use.
unfoldable pub rotate : ℕ → RefreshRecord → RefreshRecord
rotate now r = elim r.rotated_at [
  | some t ↦ r
  | none ↦ record r {
    rotated_at = some now;
    expires_at = min (or_now now r.expires_at) (now + rotated_retention_seconds);
  }
]

abbrev has_client : Option Client → Bool
has_client none = false
has_client (some c) = true

-- The scope of the new access token.
unfoldable pub narrowed_scope : Text → List Text → Text
narrowed_scope granted requested = if is_nil requested then granted else join (32 ∷ []) requested

-- `requested and not requested.issubset(_scope_set(granted_scope))`
unfoldable pub exceeds : Text → List Text → Bool
exceeds granted requested = not (is_nil requested) && not (subset requested (scope_set granted))

-- The checks of the record that come before the reuse test.
unfoldable pub check_refresh :
    Config → Text → TokenRequest → Store → RefreshRecord → Result OauthError (Unit {0})
check_refresh config base_url payload s r = do
  guard (is_text payload.client_id r.client_id) client_mismatch
  guard (text_eq r.resource (resource_url config base_url)) refresh_wrong_resource
  guard (has_client (get r.client_id s.clients)) unknown_client

-- Behind the reuse test: `s` is the pruned store and `hash` the key of the record in it.
unfoldable pub grant_refresh :
    Config
    → Runtime
    → Fresh
    → Text
    → TokenRequest
    → Text
    → RefreshRecord
    → Store
    → StoreFile
    → Handled TokenResponse
unfolding rotate narrowed_scope exceeds
grant_refresh config rt fresh base_url payload hash r s f =
    let granted = or_text r.scope (scope_string config) in
    let requested = requested_scopes payload.scope in
    let resource = resource_url config base_url in
    let scope = narrowed_scope granted requested in
    if exceeds granted requested then (err scope_exceeds_grant, f) else (
      ok (token_response config fresh scope),
      written (
          issue_refresh_token config rt fresh r.client_id granted resource r.family_id (
            issue_access_token config fresh r.client_id scope resource
              (record s { refresh_tokens = put hash (rotate fresh.now r) s.refresh_tokens }))),
    )

-- With the record that was found.
unfoldable pub use_record :
    Config
    → Runtime
    → Fresh
    → Text
    → TokenRequest
    → Text
    → RefreshRecord
    → Store
    → StoreFile
    → Handled TokenResponse
use_record config rt fresh base_url payload hash r s f =
    elim (check_refresh config base_url payload s r) [
      | err e ↦ (err e, f)
      | ok _ ↦
          if is_reused fresh.now r.rotated_at
          then (err reuse_detected, written (revoke_family r.family_id s))
          else grant_refresh config rt fresh base_url payload hash r s f
    ]

unfoldable pub find_record :
    Config
    → Runtime
    → Fresh
    → Text
    → TokenRequest
    → Text
    → Option RefreshRecord
    → Store × Bool
    → StoreFile
    → Handled TokenResponse
find_record config rt fresh base_url payload hash none (s, pruned) f =
    (err invalid_refresh_token, if pruned then written s else f)
find_record config rt fresh base_url payload hash (some r) (s, pruned) f =
    use_record config rt fresh base_url payload hash r s f

unfoldable pub refresh_access_token :
    Config → Runtime → Fresh → Text → TokenRequest → StoreFile → Handled TokenResponse
unfolding find_record
refresh_access_token config rt fresh base_url payload f =
    let raw_token = or_empty payload.refresh_token in
    let hash = token_hash rt raw_token in
    let pruned = prune_refresh_tokens fresh.now (read_store f) in
    if is_empty raw_token
    then (err refresh_token_required, f)
    else if other_resource payload.resource (resource_url config base_url)
    then (err wrong_resource, f)
    else find_record config rt fresh base_url payload hash (get hash pruned.0.refresh_tokens) pruned
        f
