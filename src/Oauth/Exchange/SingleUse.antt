-- ===== src/Oauth/Exchange/SingleUse.antt =====
-- What an authorization code is good for: one exchange, by the client that it was made for.
use chatgpt_web_oauth_mcp.Prelude.{
  ◌⊎◌, ◌≡◌, ◌≢◌, ◌≤◌, refl, ap, ◌∙◌, inl, inr, true, false, Option, none, some, arith, Text, codes,
  text_eq, text_eq_refl, text_eq_iff, ltb, ok, err, Bool-cases, Result-cases,
}
use chatgpt_web_oauth_mcp.Prelude.Dict.{get, remove, get-remove}
use chatgpt_web_oauth_mcp.Oauth.Store.{CodeRecord, Store, StoreFile, read_store}
use chatgpt_web_oauth_mcp.Oauth.Params.{Config, TokenRequest, or_empty, is_text, resource_url}
use chatgpt_web_oauth_mcp.Oauth.Runtime.{
  Runtime, Fresh, OauthError, is_ascii, compare_digest, pkce_s256, invalid_code, verifier_not_ascii,
  not_ascii,
}
use chatgpt_web_oauth_mcp.Oauth.Refresh.{TokenResponse, issue_access_token, issue_refresh_token}
use chatgpt_web_oauth_mcp.Oauth.Exchange.{
  check_code, check_verifier, grant_code, use_code, exchange_code,
}

-- A request for the authorization-code grant at this server.
abbrev pub IsCodeRequest : Config → Text → TokenRequest → Type 0
IsCodeRequest config base_url payload =
    (is_text payload.grant_type (codes "refresh_token") ≡ false)
    × (is_text payload.grant_type (codes "authorization_code") ≡ true)
    × (is_text payload.resource (resource_url config base_url) ≡ true)

is_text_sound : (o : Option Text) (t : Text) → is_text o t ≡ true → o ≡ some t
unfolding is_text
is_text_sound none t h = cc
is_text_sound (some s) t h = ap some ((text_eq_iff s t).0 h)

module _ (config : Config) (rt : Runtime) (fresh : Fresh) (base_url : Text) (payload : TokenRequest)
    (f : StoreFile) where
  abbrev code : Text
  code = or_empty payload.code

  abbrev left : Store
  left = record (read_store f) { codes = remove code (read_store f).codes }

  exchange-use :
      IsCodeRequest config base_url payload
      → exchange_code config rt fresh base_url payload f
        ≡ use_code config rt fresh payload (get code (read_store f).codes) left f
  unfolding exchange_code
  exchange-use (a, b, c) = rw (a, b, c)

  codes-issue :
      (client_id scope resource family : Text) (s : Store)
      → (issue_refresh_token config rt fresh client_id scope resource family s).codes ≡ s.codes
  unfolding issue_refresh_token
  codes-issue client_id scope resource family s = refl

  check_verifier-errors :
      (r : CodeRecord) {e : OauthError}
      → check_verifier rt payload r ≡ err e
      → (e ≡ verifier_not_ascii) ⊎ (e ≡ not_ascii)
  unfolding check_verifier pkce_s256 compare_digest
  check_verifier-errors r h = ground arith

  use_code-consumed :
      (r : Option CodeRecord) (s : Store)
      → get code s.codes ≡ none
      → (use_code config rt fresh payload r s f).0 ≢ err verifier_not_ascii
      → (use_code config rt fresh payload r s f).0 ≢ err not_ascii
      → get code (read_store (use_code config rt fresh payload r s f).1).codes ≡ none
  unfolding use_code read_store grant_code issue_access_token
  use_code-consumed none s h a b = h
  use_code-consumed (some r) s h a b = elim (Result-cases (check_code fresh.now payload r)) [
    | inr (e, g) ↦ rw (g, use_code) h
    | inl (u, g) ↦ elim (Result-cases (check_verifier rt payload r)) [
      | inr (e, k) ↦ elim (check_verifier-errors r k) [
        | inl x ↦ absurd ((rw (g, use_code, k) at a) (ap err x))
        | inr y ↦ absurd ((rw (g, use_code, k) at b) (ap err y))
      ]
      | inl (same, k) ↦ elim (Bool-cases same) [
        | inl y ↦ rw (g, use_code, k, y, codes-issue) h
        | inr n ↦ rw (g, use_code, k, n) h
      ]
    ]
  ]

  removed_code : get code left.codes ≡ none
  removed_code = get-remove code code (read_store f).codes ∙ rw text_eq_refl

  -- A request for the authorization-code grant at this server uses its code up, however it ends,
  -- unless it ends with the error that the verifier, or the stored challenge, is no ASCII text.
  pub exchange_code-consumed :
      IsCodeRequest config base_url payload
      → (exchange_code config rt fresh base_url payload f).0 ≢ err verifier_not_ascii
      → (exchange_code config rt fresh base_url payload f).0 ≢ err not_ascii
      → get code (read_store (exchange_code config rt fresh base_url payload f).1).codes ≡ none
  exchange_code-consumed q a b = rw (exchange-use q) (
      use_code-consumed (get code (read_store f).codes) left removed_code (rw (exchange-use q) at a)
        (rw (exchange-use q) at b))

  -- The code, the client, the redirect URI and the verifier of an exchange that granted a token.
  pub record IsGranted (r : CodeRecord) : Type 0 where
    pub unexpired : fresh.now ≤ r.expires_at
    pub client : payload.client_id ≡ some r.client_id
    pub redirect : payload.redirect_uri ≡ some r.redirect_uri
    pub ascii : is_ascii (or_empty payload.code_verifier) ≡ true
    pub verifier : rt.sha256_base64url (or_empty payload.code_verifier) ≡ r.code_challenge

  check_code-ok :
      (r : CodeRecord) {u : Unit {0}}
      → check_code fresh.now payload r ≡ ok u
      → (ltb r.expires_at fresh.now ≡ false)
        × (is_text payload.client_id r.client_id ≡ true)
        × (is_text payload.redirect_uri r.redirect_uri ≡ true)
  unfolding check_code
  check_code-ok r h = ground arith

  check_verifier-ok :
      (r : CodeRecord)
      → check_verifier rt payload r ≡ ok true
      → (is_ascii (or_empty payload.code_verifier) ≡ true)
        × (text_eq (rt.sha256_base64url (or_empty payload.code_verifier)) r.code_challenge ≡ true)
  unfolding check_verifier pkce_s256 compare_digest
  check_verifier-ok r h = ground arith

  check-IsGranted :
      (r : CodeRecord) {u : Unit {0}}
      → check_code fresh.now payload r ≡ ok u
      → check_verifier rt payload r ≡ ok true
      → IsGranted r
  check-IsGranted r g k =
      let (a, b, c) = check_code-ok r g in
      let (d, e) = check_verifier-ok r k in
      record {
        unexpired = ground arith;
        client = is_text_sound payload.client_id r.client_id b;
        redirect = is_text_sound payload.redirect_uri r.redirect_uri c;
        ascii = d;
        verifier = (text_eq_iff _ _).0 e;
      }

  use_code-IsGranted :
      (o : Option CodeRecord) (s : Store) {answer : TokenResponse}
      → (use_code config rt fresh payload o s f).0 ≡ ok answer
      → (r : CodeRecord) × (o ≡ some r) × IsGranted r
  unfolding use_code
  use_code-IsGranted none s h = cc
  use_code-IsGranted (some r) s h = elim (Result-cases (check_code fresh.now payload r)) [
    | inr (e, g) ↦ cc (rw (g, use_code) at h)
    | inl (u, g) ↦ elim (Result-cases (check_verifier rt payload r)) [
      | inr (e, k) ↦ cc (rw (g, use_code, k) at h)
      | inl (same, k) ↦ elim (Bool-cases same) [
        | inl y ↦ (r, refl, check-IsGranted r g (rw y at k))
        | inr n ↦ cc (rw (g, use_code, k, n) at h)
      ]
    ]
  ]

  -- A request for the authorization-code grant at this server is granted a token only while the
  -- store holds its code, before the code has expired, to the client and the redirect URI that it
  -- was made for, and with the verifier of its challenge.
  pub exchange_code-IsGranted :
      {answer : TokenResponse}
      → IsCodeRequest config base_url payload
      → (exchange_code config rt fresh base_url payload f).0 ≡ ok answer
      → (r : CodeRecord) × (get code (read_store f).codes ≡ some r) × IsGranted r
  exchange_code-IsGranted q h =
      use_code-IsGranted (get code (read_store f).codes) left (rw (exchange-use q) at h)

-- A code for which a request at this server was granted a token is refused as invalid when a second
-- request at this server presents it to the file that the first one left.
pub exchange_code-replay :
    (config : Config) (rt : Runtime) (first second : Fresh) (base_url : Text)
    (payload again : TokenRequest) (f : StoreFile) {answer : TokenResponse}
    → IsCodeRequest config base_url payload
    → IsCodeRequest config base_url again
    → again.code ≡ payload.code
    → (exchange_code config rt first base_url payload f).0 ≡ ok answer
    → (exchange_code config rt second base_url again
        (exchange_code config rt first base_url payload f).1).0
      ≡ err invalid_code
unfolding use_code
exchange_code-replay config rt first second base_url payload again f p q same h =
    let f' = (exchange_code config rt first base_url payload f).1 in
    let gone : get (or_empty payload.code) (read_store f').codes ≡ none =
      exchange_code-consumed config rt first base_url payload f p (λ x. cc) (λ x. cc) in
    rw (exchange-use config rt second base_url again f' q, same, gone)
