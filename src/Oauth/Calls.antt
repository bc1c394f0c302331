-- ===== src/Oauth/Calls.antt =====
-- The calls of the HTTP routes on `OAuthManager`, one after the other on one file.
pub mod Safe
pub mod Run
use chatgpt_web_oauth_mcp.Prelude.{ℕ, List, [], ◌∷◌, Text}
use chatgpt_web_oauth_mcp.Oauth.Store.{StoreFile}
use chatgpt_web_oauth_mcp.Oauth.Params.{Config, AuthorizeRequest, TokenRequest}
use chatgpt_web_oauth_mcp.Oauth.Runtime.{Runtime, Fresh}
use chatgpt_web_oauth_mcp.Oauth.Register.{Registration, register_client}
use chatgpt_web_oauth_mcp.Oauth.Authorize.{authorize}
use chatgpt_web_oauth_mcp.Oauth.Exchange.{exchange_code}
use chatgpt_web_oauth_mcp.Oauth.Verify.{verify_access_token}

-- A call with what it draws, the base URL and its parameters.
pub data Call : Type 0 where
  registering : Fresh → Registration → Call
  authorizing : Fresh → Text → AuthorizeRequest → Call
  exchanging : Fresh → Text → TokenRequest → Call
  verifying : ℕ → Text → Text → Call

-- The file that a call leaves.
unfoldable pub after : Config → Runtime → Call → StoreFile → StoreFile
after config rt (registering fresh payload) f = (register_client rt fresh payload f).1
after config rt (authorizing fresh base_url payload) f =
    (authorize config rt fresh base_url payload f).1
after config rt (exchanging fresh base_url payload) f =
    (exchange_code config rt fresh base_url payload f).1
after config rt (verifying now base_url token) f =
    (verify_access_token config now base_url token f).1

-- The file after all calls.
unfoldable pub run : Config → Runtime → List Call → StoreFile → StoreFile
unfolding after
run config rt [] f = f
run config rt (call ∷ calls) f = run config rt calls (after config rt call f)
