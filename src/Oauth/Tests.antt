-- ===== src/Oauth/Tests.antt =====
-- Runs of oauth.py: a client registers, is granted a code and exchanges it, and refreshes.
use chatgpt_web_oauth_mcp.Prelude.{
  ◌≢◌, ◌≤◌, ◌⊎◌, ◌<◌, ◌+◌, ◌≡◌, refl, true, ◌&&◌, none, some, List, [], ◌∷◌, arith, Text, codes,
  text_eq, subset, elem, err,
}
use chatgpt_web_oauth_mcp.Prelude.Split.{words, join}
use chatgpt_web_oauth_mcp.Prelude.Dict.{get, put, remove, keep}
use chatgpt_web_oauth_mcp.Oauth.Store.{
  Client, CodeRecord, TokenRecord, RefreshRecord, Store, StoreFile, written, read_store,
  prune_refresh_tokens,
}
use chatgpt_web_oauth_mcp.Oauth.Params.{
  Config, TokenRequest, scopes, scope_string, resource_url, rstrip_slash, scope_set, sorted_set,
  insert, requested_scopes, without, is_text,
}
use chatgpt_web_oauth_mcp.Oauth.Runtime.{
  Runtime, Fresh, invalid_code, reuse_detected, compare_digest, pkce_s256, token_hash, is_ascii,
}
use chatgpt_web_oauth_mcp.Oauth.Urls.{is_allowed_redirect_uri}
use chatgpt_web_oauth_mcp.Oauth.Refresh.{
  TokenResponse, refresh_access_token, use_record, grant_refresh, check_refresh, rotate, is_reused,
  exceeds, narrowed_scope, issue_refresh_token, issue_access_token, token_response, revoke_family,
  find_record,
}
use chatgpt_web_oauth_mcp.Oauth.Refresh.Rotation.{
  refresh_access_token-rotates, issued_record, Marked,
}
use chatgpt_web_oauth_mcp.Oauth.Refresh.Reuse.{IsRevoked, refresh_access_token-reuse}
use chatgpt_web_oauth_mcp.Oauth.Refresh.Scopes.{refresh_access_token-narrows}
use chatgpt_web_oauth_mcp.Oauth.Exchange.{
  exchange_code, use_code, grant_code, check_code, check_verifier,
}
use chatgpt_web_oauth_mcp.Oauth.Exchange.SingleUse.{
  exchange_code-consumed, exchange_code-IsGranted, exchange_code-replay, IsGranted,
}
use chatgpt_web_oauth_mcp.Oauth.Verify.{verify_access_token}
use chatgpt_web_oauth_mcp.Oauth.Verify.Access.{verify_access_token_sound, Opens}
use chatgpt_web_oauth_mcp.Oauth.Verify.Issued.{verify_access_token-refreshed}
use chatgpt_web_oauth_mcp.Oauth.Calls.{Call, registering, exchanging, run}
use chatgpt_web_oauth_mcp.Oauth.Calls.Safe.{IsSafe}
use chatgpt_web_oauth_mcp.Oauth.Calls.Run.{run-IsSafe}

abbrev plain_runtime : Runtime
plain_runtime = record {
  sha256_hex = λ t. t;
  sha256_base64url = λ t. t;
  urlencode = λ pairs. [];
  urlparse = λ t. some (record {
    scheme = codes "https";
    hostname = some t;
    username = none;
    password = none;
    path = [];
    query = [];
    fragment = [];
    port_is_valid = true;
  });
  lower = λ t. t;
}

abbrev config : Config
config = record {
  auth_token = codes "s";
  oauth_login_token = [];
  oauth_scopes = codes "r" ∷ [];
  oauth_token_ttl_seconds = 60;
  oauth_refresh_token_ttl_seconds = 100;
  mcp_path = codes "/m";
}

abbrev base : Text
base = codes "u"

abbrev fresh : Fresh
fresh = record {
  client_id = codes "c";
  code = codes "k";
  access_token = codes "A";
  refresh_token = codes "OR";
  family_id = codes "F";
  now = 10;
}

abbrev code_record : CodeRecord
code_record = record {
  client_id = codes "c";
  redirect_uri = codes "h";
  code_challenge = codes "v";
  scope = codes "r";
  resource = codes "u/m";
  expires_at = 20;
}

abbrev refresh_record : RefreshRecord
refresh_record = record {
  client_id = codes "c";
  scope = codes "r w";
  resource = codes "u/m";
  family_id = codes "F";
  created_at = 1;
  expires_at = 90;
  rotated_at = none;
}

abbrev used_record : RefreshRecord
used_record = record refresh_record { rotated_at = some 1 }

abbrev client : Client
client = record { client_name = codes "n"; redirect_uris = codes "h" ∷ []; created_at = 1 }

abbrev token_record : TokenRecord
token_record = record {
  client_id = codes "c";
  scope = codes "r";
  resource = codes "u/m";
  expires_at = 20;
}

abbrev store : Store
store = record {
  clients = (codes "c", client) ∷ [];
  codes = (codes "k", code_record) ∷ [];
  tokens = (codes "T", token_record) ∷ [];
  refresh_tokens = (codes "O", refresh_record) ∷ [];
}

abbrev start : StoreFile
start = written store

abbrev code_request : TokenRequest
code_request = record {
  grant_type = some (codes "authorization_code");
  resource = some (codes "u/m");
  code = some (codes "k");
  client_id = some (codes "c");
  redirect_uri = some (codes "h");
  code_verifier = some (codes "v");
  refresh_token = none;
  scope = none;
}

abbrev refresh_request : TokenRequest
refresh_request = record code_request {
  grant_type = some (codes "refresh_token");
  refresh_token = some (codes "O");
  scope = some (codes "r");
}

abbrev answer : TokenResponse
answer = record {
  access_token = codes "A";
  expires_in = 60;
  scope = codes "r";
  refresh_token = codes "OR";
}

exchange_code-IsGranted_example :
    (r : CodeRecord) × (get (codes "k") (read_store start).codes ≡ some r)
    × IsGranted config plain_runtime fresh base code_request start r
unfolding scope_set text_eq resource_url rstrip_slash get keep read_store token_hash
    refresh_access_token prune_refresh_tokens use_record check_refresh is_text is_reused
    grant_refresh requested_scopes words subset insert scope_string scopes sorted_set without
    exceeds find_record issue_access_token issue_refresh_token narrowed_scope revoke_family rotate
    token_response put remove join elem exchange_code use_code grant_code check_code check_verifier
    compare_digest pkce_s256 is_ascii
exchange_code-IsGranted_example =
    exchange_code-IsGranted config plain_runtime fresh base code_request start {answer = answer}
      (refl, refl, refl) refl

exchange_code-consumed_example :
    get
      (codes "k")
      (read_store (exchange_code config plain_runtime fresh base code_request start).1).codes
    ≡ none
unfolding scope_set text_eq resource_url rstrip_slash get keep read_store token_hash
    refresh_access_token prune_refresh_tokens use_record check_refresh is_text is_reused
    grant_refresh requested_scopes words subset insert scope_string scopes sorted_set without
    exceeds find_record issue_access_token issue_refresh_token narrowed_scope revoke_family rotate
    token_response put remove join elem exchange_code use_code grant_code check_code check_verifier
    compare_digest pkce_s256 is_ascii
exchange_code-consumed_example =
    exchange_code-consumed config plain_runtime fresh base code_request start (refl, refl, refl)
      (λ e. cc) (λ e. cc)

exchange_code-replay_example :
    (exchange_code config plain_runtime fresh base code_request
      (exchange_code config plain_runtime fresh base code_request start).1).0
    ≡ err invalid_code
unfolding scope_set text_eq resource_url rstrip_slash get keep read_store token_hash
    refresh_access_token prune_refresh_tokens use_record check_refresh is_text is_reused
    grant_refresh requested_scopes words subset insert scope_string scopes sorted_set without
    exceeds find_record issue_access_token issue_refresh_token narrowed_scope revoke_family rotate
    token_response put remove join elem exchange_code use_code grant_code check_code check_verifier
    compare_digest pkce_s256 is_ascii
exchange_code-replay_example =
    exchange_code-replay config plain_runtime fresh fresh base code_request code_request start
      {answer = answer} (refl, refl, refl) (refl, refl, refl) refl refl

abbrev reused : StoreFile
reused = written (record store { refresh_tokens = (codes "O", used_record) ∷ [] })

refresh_access_token-reuse_example :
    ((1 + 60 < 70)
      × IsRevoked config plain_runtime
          (record fresh { now = 70 })
          base
          refresh_request
          reused
          used_record
          (codes "O")
          (refresh_access_token config plain_runtime
            (record fresh { now = 70 })
            base
            refresh_request
            reused))
    ⊎ ((70 ≤ 1 + 60)
        × ((refresh_access_token config plain_runtime
              (record fresh { now = 70 })
              base
              refresh_request
              reused).0
            ≢ err reuse_detected))
unfolding scope_set text_eq resource_url rstrip_slash get keep read_store token_hash
    refresh_access_token prune_refresh_tokens use_record check_refresh is_text is_reused
    grant_refresh requested_scopes words subset insert scope_string scopes sorted_set without
    exceeds find_record issue_access_token issue_refresh_token narrowed_scope revoke_family rotate
    token_response put remove join elem
refresh_access_token-reuse_example =
    refresh_access_token-reuse config plain_runtime (record fresh { now = 70 }) base refresh_request
      reused used_record client 1 (codes "O") (refl, refl) refl refl refl refl refl

refresh_access_token-rotates_example :
    ((after : RefreshRecord) × Marked 10 refresh_record after
      × (get
            (codes "O")
            (read_store
              (refresh_access_token config plain_runtime fresh base refresh_request
                start).1).refresh_tokens
          ≡ some after))
    × (get
          (codes "OR")
          (read_store
            (refresh_access_token config plain_runtime fresh base refresh_request
              start).1).refresh_tokens
        ≡ some (issued_record config fresh (codes "c") (codes "r w") (codes "u/m") (codes "F")))
unfolding scope_set text_eq resource_url rstrip_slash get keep read_store token_hash
    refresh_access_token prune_refresh_tokens use_record check_refresh is_text is_reused
    grant_refresh requested_scopes words subset insert scope_string scopes sorted_set without
    exceeds find_record issue_access_token issue_refresh_token narrowed_scope revoke_family rotate
    token_response put remove join elem
refresh_access_token-rotates_example =
    refresh_access_token-rotates config plain_runtime fresh base refresh_request start
      refresh_record {answer = answer} (omega arith) (refl, refl) refl (λ e. cc) refl

refresh_access_token-narrows_example : elem (codes "r") (scope_set (codes "r w")) ≡ true
unfolding scope_set text_eq resource_url rstrip_slash get keep read_store token_hash
    refresh_access_token prune_refresh_tokens use_record check_refresh is_text is_reused
    grant_refresh requested_scopes words subset insert scope_string scopes sorted_set without
    exceeds find_record issue_access_token issue_refresh_token narrowed_scope revoke_family rotate
    token_response put remove join elem
refresh_access_token-narrows_example =
    refresh_access_token-narrows config plain_runtime fresh base refresh_request start
      refresh_record (codes "r") {answer = answer} (refl, refl) refl refl refl

verify_access_token_sound_example :
    (r : TokenRecord) × (get (codes "T") (read_store start).tokens ≡ some r)
    × Opens config 10 base r
unfolding verify_access_token get read_store text_eq resource_url rstrip_slash subset scopes elem
    scope_set words
verify_access_token_sound_example = verify_access_token_sound config 10 base (codes "T") start refl

verify_access_token-refreshed_example :
    (verify_access_token config 70 base
      (codes "A")
      (refresh_access_token config plain_runtime fresh base refresh_request start).1).0
    ≡ (true && subset (scopes config) (scope_set (codes "r")))
unfolding scope_set text_eq resource_url rstrip_slash get keep read_store token_hash
    refresh_access_token prune_refresh_tokens use_record check_refresh is_text is_reused
    grant_refresh requested_scopes words subset insert scope_string scopes sorted_set without
    exceeds find_record issue_access_token issue_refresh_token narrowed_scope revoke_family rotate
    token_response put remove join elem
verify_access_token-refreshed_example =
    verify_access_token-refreshed config plain_runtime fresh base refresh_request start 70
      refresh_record {answer = answer} refl (refl, refl) refl refl

abbrev calls : List Call
calls =
    registering fresh (record { redirect_uris = some (some (codes "h") ∷ []); client_name = none })
    ∷ exchanging fresh base code_request
    ∷ []

run-IsSafe_example : IsSafe plain_runtime (read_store (run config plain_runtime calls start))
unfolding read_store is_allowed_redirect_uri text_eq
run-IsSafe_example =
    run-IsSafe plain_runtime config calls start
      (record { few = omega arith; clients = ((refl, tt), tt); codes = (refl, tt) })
