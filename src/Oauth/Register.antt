-- ===== src/Oauth/Register.antt =====
-- `OAuthManager.register_client`.
use chatgpt_web_oauth_mcp.Prelude.{
  ℕ, Option, none, some, List, [], ◌∷◌, Text, codes, leb, length, if◌then◌else◌, ok, err,
}
use chatgpt_web_oauth_mcp.Prelude.Dict.{put}
use chatgpt_web_oauth_mcp.Oauth.Store.{
  Client, Store, StoreFile, written, read_store, max_registered_clients,
}
use chatgpt_web_oauth_mcp.Oauth.Params.{or_text, or_empty}
use chatgpt_web_oauth_mcp.Oauth.Runtime.{
  Runtime, Fresh, Handled, redirect_uris_missing, redirect_uri_refused, too_many_clients,
}
use chatgpt_web_oauth_mcp.Oauth.Urls.{is_allowed_redirect_uri}

-- The members of the JSON body: `redirect_uris` if it is a list, with none for an element that is
-- no string.
pub record Registration : Type 0 where
  pub redirect_uris : Option (List (Option Text))
  pub client_name : Option Text

pub record Registered : Type 0 where
  pub client_id : Text
  pub client_name : Text
  pub redirect_uris : List Text
  pub issued_at : ℕ

-- The list of texts, if each element is a text that may be redirected to.
unfoldable pub allowed_uris : Runtime → List (Option Text) → Option (List Text)
allowed_uris rt [] = some []
allowed_uris rt (none ∷ uris) = none
allowed_uris rt (some uri ∷ uris) =
    let rest = allowed_uris rt uris in
    if is_allowed_redirect_uri rt uri
    then elim rest [ none ↦ none | some us ↦ some (uri ∷ us) ]
    else none

unfoldable pub new_client : Fresh → Option Text → List Text → Client
new_client fresh name uris = record {
  client_name = or_text (or_empty name) (codes "ChatGPT");
  redirect_uris = uris;
  created_at = fresh.now;
}

-- Behind the checks of the redirect URIs.
unfoldable pub add_client : Fresh → Option Text → List Text → Store → StoreFile → Handled Registered
unfolding new_client
add_client fresh name uris s f =
    if leb max_registered_clients (length s.clients) then (err too_many_clients, f) else (
      ok (record {
        client_id = fresh.client_id;
        client_name = or_text (or_empty name) (codes "ChatGPT");
        redirect_uris = uris;
        issued_at = fresh.now;
      }),
      written (record s { clients = put fresh.client_id (new_client fresh name uris) s.clients }),
    )

unfoldable pub with_uris : Fresh → Option Text → Option (List Text) → StoreFile → Handled Registered
unfolding add_client
with_uris fresh name none f = (err redirect_uri_refused, f)
with_uris fresh name (some uris) f = add_client fresh name uris (read_store f) f

unfoldable pub checked_uris :
    Runtime → Fresh → Option Text → Option (List (Option Text)) → StoreFile → Handled Registered
unfolding with_uris
checked_uris rt fresh name none f = (err redirect_uris_missing, f)
checked_uris rt fresh name (some []) f = (err redirect_uris_missing, f)
checked_uris rt fresh name (some (u ∷ us)) f = with_uris fresh name (allowed_uris rt (u ∷ us)) f

unfoldable pub register_client : Runtime → Fresh → Registration → StoreFile → Handled Registered
unfolding checked_uris
register_client rt fresh payload f =
    checked_uris rt fresh payload.client_name payload.redirect_uris f
