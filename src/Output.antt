-- ===== src/Output.antt =====
-- shell.py: what becomes of the output of a command, from the bytes of its streams to the text
-- of the response.
pub mod Capture
pub mod Units
pub mod JobText
pub mod Shares
pub mod Truncate
pub mod Render
mod Tests
