-- ===== src/Oauth/Verify/Access.antt =====
-- What opens the server: a stored token, until it expires.
use chatgpt_web_oauth_mcp.Prelude.{
  ℕ, ◌≡◌, ◌≤◌, refl, inl, inr, true, Option, none, some, arith, Text, text_eq, text_eq_iff, subset,
  ltb, Bool-cases,
}
use chatgpt_web_oauth_mcp.Prelude.Dict.{get}
use chatgpt_web_oauth_mcp.Oauth.Store.{TokenRecord, StoreFile, read_store}
use chatgpt_web_oauth_mcp.Oauth.Params.{Config, is_empty, scopes, scope_set, resource_url}
use chatgpt_web_oauth_mcp.Oauth.Verify.{verify_record, verify_access_token}

-- A record that opens the server at a moment.
pub record Opens (config : Config) (now : ℕ) (base_url : Text) (r : TokenRecord) : Type 0 where
  pub unexpired : now ≤ r.expires_at
  pub resource : r.resource ≡ resource_url config base_url
  pub scope : subset (scopes config) (scope_set r.scope) ≡ true

module _ (config : Config) (now : ℕ) (base_url token : Text) (f : StoreFile) where
  record-Opens :
      (o : Option TokenRecord)
      → (verify_record config now base_url token o (read_store f) f).0 ≡ true
      → (r : TokenRecord) × (o ≡ some r) × Opens config now base_url r
  unfolding verify_record
  record-Opens none h = cc
  record-Opens (some r) h = elim (Bool-cases (ltb r.expires_at now)) [
    | inl y ↦ cc (rw (verify_record, y) at h)
    | inr n ↦ elim (Bool-cases (text_eq r.resource (resource_url config base_url))) [
      | inr g ↦ cc (rw (verify_record, n, g) at h)
      | inl g ↦ (
        r,
        refl,
        record {
          unexpired = ground arith;
          resource = (text_eq_iff _ _).0 g;
          scope = rw (verify_record, n, g) at h;
        },
      )
    ]
  ]

  -- A token opens the server only while the store holds it, before it has expired, for this
  -- server and with every scope that the server asks for.
  pub verify_access_token_sound :
      (verify_access_token config now base_url token f).0 ≡ true
      → (r : TokenRecord) × (get token (read_store f).tokens ≡ some r) × Opens config now base_url r
  unfolding verify_access_token
  verify_access_token_sound h = elim (Bool-cases (is_empty token)) [
    | inl y ↦ cc (rw (verify_access_token, y) at h)
    | inr n ↦ record-Opens (get token (read_store f).tokens) (rw (verify_access_token, n) at h)
  ]
