-- ===== src/Oauth/Refresh/Scopes.antt =====
-- The scope of a refreshed access token.
use chatgpt_web_oauth_mcp.Prelude.{
  subset-elem, All, ◌≡◌, refl, true, false, ◌||◌, Option, some, List, [], ◌∷◌, arith, Text, text_eq,
  text_eq_iff, elem, ok,
}
use chatgpt_web_oauth_mcp.Prelude.Split.{words}
use chatgpt_web_oauth_mcp.Prelude.Split.Words.{IsWord, words-join, words-IsWord}
use chatgpt_web_oauth_mcp.Prelude.Dict.{get}
use chatgpt_web_oauth_mcp.Oauth.Store.{RefreshRecord, StoreFile}
use chatgpt_web_oauth_mcp.Oauth.Params.{
  Config, TokenRequest, or_empty, insert, sorted_set, scope_set, without, requested_scopes,
  offline_access_scope,
}
use chatgpt_web_oauth_mcp.Oauth.Runtime.{Runtime, Fresh}
use chatgpt_web_oauth_mcp.Oauth.Refresh.{
  TokenResponse, exceeds, narrowed_scope, token_response, refresh_access_token,
}
use chatgpt_web_oauth_mcp.Oauth.Refresh.Rotation.{
  IsRefreshRequest, hash, live_tokens, pruned_store, granted, refresh-use, use_record-granted,
  grant_refresh-ok,
}

elem-insert : (k x : Text) (xs : List Text) → elem k (insert x xs) ≡ (text_eq k x || elem k xs)
unfolding insert elem
elem-insert k x [] = refl
elem-insert k x (y ∷ ys) =
    ground (arith, text_eq_iff x y, text_eq_iff k x, text_eq_iff k y, elem-insert k x ys)

elem-sorted_set : (k : Text) (xs : List Text) → elem k (sorted_set xs) ≡ elem k xs
unfolding sorted_set elem
elem-sorted_set k [] = refl
elem-sorted_set k (x ∷ xs) = rw (elem-insert, elem-sorted_set k xs) refl

module _ (P : Text → Type 0) where
  insert-All : (x : Text) (xs : List Text) → P x → All P xs → All P (insert x xs)
  unfolding insert
  insert-All x [] p h = (p, tt)
  insert-All x (y ∷ ys) p h = ground (arith, insert-All x ys)

  sorted_set-All : (xs : List Text) → All P xs → All P (sorted_set xs)
  unfolding sorted_set
  sorted_set-All [] h = tt
  sorted_set-All (x ∷ xs) h = insert-All x (sorted_set xs) h.0 (sorted_set-All xs h.1)

  without-All : (k : Text) (xs : List Text) → All P xs → All P (without k xs)
  unfolding without
  without-All k [] h = tt
  without-All k (x ∷ xs) h = ground (arith, without-All k xs h.1)

requested-IsWord : (o : Option Text) → All IsWord (requested_scopes o)
unfolding requested_scopes scope_set
requested-IsWord o =
    without-All IsWord offline_access_scope (scope_set (or_empty o))
      (sorted_set-All IsWord (words (or_empty o)) (words-IsWord (or_empty o)))

narrowed-elem :
    (granted_scope k : Text) (requested : List Text)
    → All IsWord requested
    → exceeds granted_scope requested ≡ false
    → elem k (scope_set (narrowed_scope granted_scope requested)) ≡ true
    → elem k (scope_set granted_scope) ≡ true
unfolding narrowed_scope exceeds scope_set
narrowed-elem granted_scope k [] w h m = m
narrowed-elem granted_scope k (x ∷ xs) w h m =
    subset-elem (x ∷ xs) (scope_set granted_scope) k (ground arith)
      (rw (words-join (x ∷ xs) w, elem-sorted_set k (x ∷ xs)) at m)

module _ (config : Config) (rt : Runtime) (fresh : Fresh) (base_url : Text) (payload : TokenRequest)
    (f : StoreFile) where
  -- If a refresh with a stored token grants a token, each scope of the new access token is among the
  -- scopes that the presented refresh token was granted.
  pub refresh_access_token-narrows :
      (r : RefreshRecord) (k : Text) {answer : TokenResponse}
      → IsRefreshRequest config base_url payload
      → get (hash config rt fresh base_url payload f) (live_tokens fresh.now f) ≡ some r
      → (refresh_access_token config rt fresh base_url payload f).0 ≡ ok answer
      → elem k (scope_set answer.scope) ≡ true
      → elem k (scope_set (granted config r)) ≡ true
  unfolding token_response
  refresh_access_token-narrows r k q h g m =
      let s = pruned_store fresh.now f in
      let step = refresh-use config rt fresh base_url payload f r q h in
      let (_, _, grant) =
        use_record-granted config rt fresh base_url payload f r s (rw step at g) in
      let (within, same, _) =
        grant_refresh-ok config rt fresh base_url payload f
          (hash config rt fresh base_url payload f) r s (rw (step, grant) at g) in
      narrowed-elem _ k (requested_scopes payload.scope) (requested-IsWord payload.scope) within
        (rw (← same) at m)
