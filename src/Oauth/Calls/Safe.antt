-- ===== src/Oauth/Calls/Safe.antt =====
-- What no call breaks: few clients, and no redirect to a URI that may not be redirected to.
use chatgpt_web_oauth_mcp.Prelude.{
  All, ◌≡◌, ◌≤◌, inl, inr, true, Option, none, some, List, [], ◌∷◌, arith, Text, text_eq,
  text_eq_iff, elem, leb, ok, length, Bool-cases, Option-cases, Result-cases,
}
use chatgpt_web_oauth_mcp.Prelude.Dict.{get, remove, length-put-le}
use chatgpt_web_oauth_mcp.Prelude.Dict.Every.{Every, get-Every, put-Every, remove-Every}
use chatgpt_web_oauth_mcp.Oauth.Store.{Client, Store, StoreFile, read_store, max_registered_clients}
use chatgpt_web_oauth_mcp.Oauth.Params.{Config, AuthorizeRequest, or_empty}
use chatgpt_web_oauth_mcp.Oauth.Runtime.{Runtime, Fresh, Handled}
use chatgpt_web_oauth_mcp.Oauth.Urls.{is_allowed_redirect_uri}
use chatgpt_web_oauth_mcp.Oauth.Register.{
  allowed_uris, add_client, new_client, with_uris, checked_uris,
}
use chatgpt_web_oauth_mcp.Oauth.Authorize.{authorize, check_authorize, new_code, find_client}

module _ (rt : Runtime) where
  abbrev pub IsAllowed : Text → Type 0
  IsAllowed uri = is_allowed_redirect_uri rt uri ≡ true

  -- At most as many clients as may register, and no URI that may not be redirected to.
  pub record IsSafe (s : Store) : Type 0 where
    pub few : length s.clients ≤ max_registered_clients
    pub clients : Every (λ c. All IsAllowed c.redirect_uris) s.clients
    pub codes : Every (λ r. IsAllowed r.redirect_uri) s.codes

  allowed_uris-All :
      (uris : List (Option Text)) {us : List Text}
      → allowed_uris rt uris ≡ some us
      → All IsAllowed us
  unfolding allowed_uris
  allowed_uris-All [] {us} h = let same : [] ≡ us = cc in rw (← same) tt
  allowed_uris-All (none ∷ uris) h = cc
  allowed_uris-All (some uri ∷ uris) {us} h = elim (Bool-cases (is_allowed_redirect_uri rt uri)) [
    | inr n ↦ cc (rw n at h)
    | inl y ↦ elim (Option-cases (allowed_uris rt uris)) [
      | inl e ↦ cc (rw (y, e) at h)
      | inr (rest, e) ↦
          let same : uri ∷ rest ≡ us = cc (rw (y, e) at h) in
          rw (← same) (y, allowed_uris-All uris e)
    ]
  ]

  add_client-IsSafe :
      (fresh : Fresh) (name : Option Text) (uris : List Text) (f : StoreFile)
      → All IsAllowed uris
      → IsSafe (read_store f)
      → IsSafe (read_store (add_client fresh name uris (read_store f) f).1)
  unfolding read_store new_client add_client
  add_client-IsSafe fresh name uris f a h =
      elim (Bool-cases (leb max_registered_clients (length (read_store f).clients))) [
        | inl y ↦ rw (add_client, y) h
        | inr n ↦
            rw (add_client, n)
              (record {
                few =
                    let bound =
                      length-put-le fresh.client_id (new_client fresh name uris)
                        (read_store f).clients in
                    ground arith;
                clients =
                    put-Every (λ c. All IsAllowed c.redirect_uris) fresh.client_id
                      (new_client fresh name uris) (read_store f).clients a h.clients;
                codes = h.codes;
              })
      ]

  pub checked_uris-IsSafe :
      (fresh : Fresh) (name : Option Text) (o : Option (List (Option Text))) (f : StoreFile)
      → IsSafe (read_store f)
      → IsSafe (read_store (checked_uris rt fresh name o f).1)
  unfolding checked_uris with_uris
  checked_uris-IsSafe fresh name none f h = h
  checked_uris-IsSafe fresh name (some []) f h = h
  checked_uris-IsSafe fresh name (some (u ∷ us)) f h =
      elim (Option-cases (allowed_uris rt (u ∷ us))) [
        | inl e ↦ rw (checked_uris, e, with_uris) h
        | inr (uris, e) ↦
            rw (checked_uris, e, with_uris)
              (add_client-IsSafe fresh name uris f (allowed_uris-All (u ∷ us) e) h)
      ]

  elem-IsAllowed : (k : Text) (xs : List Text) → All IsAllowed xs → elem k xs ≡ true → IsAllowed k
  unfolding elem
  elem-IsAllowed k [] h e = cc
  elem-IsAllowed k (x ∷ xs) h e = elim (Bool-cases (text_eq k x)) [
    | inl y ↦ rw ((text_eq_iff k x).0 y) h.0
    | inr n ↦ elem-IsAllowed k xs h.1 (rw n at e)
  ]

  check_authorize-client :
      (config : Config) (base_url : Text) (payload : AuthorizeRequest) (s : Store) {u : Unit {0}}
      → check_authorize config base_url payload s ≡ ok u
      → (c : Client) × (get (or_empty payload.client_id) s.clients ≡ some c)
        × (elem (or_empty payload.redirect_uri) c.redirect_uris ≡ true)
  unfolding check_authorize find_client
  check_authorize-client config base_url payload s h =
      elim (Option-cases (get (or_empty payload.client_id) s.clients)) [
        | inl n ↦ ground arith
        | inr (c, e) ↦ elim (Bool-cases (elem (or_empty payload.redirect_uri) c.redirect_uris)) [
          | inl y ↦ (c, e, y)
          | inr n ↦ ground arith
        ]
      ]

  pub authorize-IsSafe :
      (config : Config) (fresh : Fresh) (base_url : Text) (payload : AuthorizeRequest)
      (f : StoreFile)
      → IsSafe (read_store f)
      → IsSafe (read_store (authorize config rt fresh base_url payload f).1)
  unfolding authorize read_store new_code
  authorize-IsSafe config fresh base_url payload f h =
      elim (Result-cases (check_authorize config base_url payload (read_store f))) [
        | inr (e, g) ↦ rw (authorize, g) h
        | inl (u, g) ↦
            let (c, found, listed) =
              check_authorize-client config base_url payload (read_store f) g in
            let allowed =
              elem-IsAllowed (or_empty payload.redirect_uri) c.redirect_uris
                (get-Every (λ c. All IsAllowed c.redirect_uris) _ _ h.clients found) listed in
            rw (authorize, g)
              (record {
                few = h.few;
                clients = h.clients;
                codes =
                    put-Every (λ r. IsAllowed r.redirect_uri) fresh.code
                      (new_code config fresh payload) (read_store f).codes allowed h.codes;
              })
      ]

  -- The file that a handler leaves is safe.
  abbrev pub Leaves : {A : Type 0} → Handled A → Type 0
  Leaves m = IsSafe (read_store m.1)

  pub without_code :
      (k : Text) (s : Store) → IsSafe s → IsSafe (record s { codes = remove k s.codes })
  without_code k s h = record {
    few = h.few;
    clients = h.clients;
    codes = remove-Every (λ r. IsAllowed r.redirect_uri) k s.codes h.codes;
  }

  -- The part of a store that is safe or not.
  pub IsSafe-same : (s t : Store) → IsSafe s → t.clients ≡ s.clients → t.codes ≡ s.codes → IsSafe t
  IsSafe-same s t h a b = record {
    few = rw a h.few;
    clients = rw a h.clients;
    codes = rw b h.codes;
  }
