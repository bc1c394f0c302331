-- ===== src/Oauth.antt =====
-- oauth.py: the OAuth server that guards the tools. Its state is the store that `oauth.json` holds.
pub mod Store
pub mod Params
pub mod Runtime
pub mod Urls
pub mod Register
pub mod Authorize
pub mod Refresh
pub mod Exchange
pub mod Verify
pub mod Calls
mod Tests
