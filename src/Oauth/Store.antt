-- ===== src/Oauth/Store.antt =====
-- The store of `OAuthManager`, its limits, and `_prune_refresh_tokens`.
use chatgpt_web_oauth_mcp.Prelude.{ℕ, ◌*◌, Bool, true, false, not, Option, List, [], ◌∷◌, Text, ltb}
use chatgpt_web_oauth_mcp.Prelude.Dict.{Dict, keep}

pub record Client : Type 0 where
  pub client_name : Text
  pub redirect_uris : List Text
  pub created_at : ℕ

pub record CodeRecord : Type 0 where
  pub client_id : Text
  pub redirect_uri : Text
  pub code_challenge : Text
  pub scope : Text
  pub resource : Text
  pub expires_at : ℕ

pub record TokenRecord : Type 0 where
  pub client_id : Text
  pub scope : Text
  pub resource : Text
  pub expires_at : ℕ

pub record RefreshRecord : Type 0 where
  pub client_id : Text
  pub scope : Text
  pub resource : Text
  pub family_id : Text
  pub created_at : ℕ
  pub expires_at : ℕ
  pub rotated_at : Option ℕ

pub record Store : Type 0 where
  pub clients : Dict Client
  pub codes : Dict CodeRecord
  pub tokens : Dict TokenRecord
  pub refresh_tokens : Dict RefreshRecord

-- What stands in the place of `oauth.json`: nothing, something that is no JSON object, or a store.
pub data StoreFile : Type 0 where
  missing unreadable : StoreFile
  written : Store → StoreFile

abbrev pub empty_store : Store
empty_store = record { clients = []; codes = []; tokens = []; refresh_tokens = [] }

unfoldable pub read_store : StoreFile → Store
read_store missing = empty_store
read_store unreadable = empty_store
read_store (written s) = s

abbrev pub max_registered_clients : ℕ
max_registered_clients = 50

abbrev pub reuse_grace_seconds : ℕ
reuse_grace_seconds = 60

abbrev pub rotated_retention_seconds : ℕ
rotated_retention_seconds = 7 * 24 * 60 * 60

abbrev pub is_live : ℕ → RefreshRecord → Bool
is_live now r = not (ltb r.expires_at now)

abbrev is_same_length : Dict RefreshRecord → Dict RefreshRecord → Bool
is_same_length [] [] = true
is_same_length (x ∷ xs) (y ∷ ys) = is_same_length xs ys
is_same_length _ _ = false

-- The store without the expired refresh tokens, and whether one was dropped.
unfoldable pub prune_refresh_tokens : ℕ → Store → Store × Bool
prune_refresh_tokens now s =
    let kept = keep (is_live now) s.refresh_tokens in
    (record s { refresh_tokens = kept }, not (is_same_length s.refresh_tokens kept))
