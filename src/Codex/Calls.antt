-- ===== src/Codex/Calls.antt =====
-- Any sequence of calls of one manager.
mod Tests
pub mod Run
use chatgpt_web_oauth_mcp.Prelude.{ℕ, Bool, Option, List, [], ◌∷◌, Text, none}
use chatgpt_web_oauth_mcp.FileSystem.{FilePath}
use chatgpt_web_oauth_mcp.Codex.{Sandbox, Binding, World, Settings, Manager, Ending}
use chatgpt_web_oauth_mcp.Codex.Runtimes.{
  touch, begin_request, end_request, open_runtime, close_runtime, collect_expired_idle,
}
use chatgpt_web_oauth_mcp.Codex.Resume.{resume_runtime, acquire_runtime}

-- The calls that need no allocation lock, with their clock; a request is two steps, between which
-- other calls may come.
pub data Other : Type 0 where
  close : (now : ℕ) (runtime_id : Text) (release_resources : Bool) → Other
  collect_idle : (now : ℕ) (suppress_errors : Bool) → Other
  begin_ : (runtime_id thread_id : Text) → Other
  end_ : (now : ℕ) (runtime_id : Text) → Other
  touched : (now : ℕ) (runtime_id : Text) (mcp_server_count : Option ℕ) → Other

-- A call with its clock, its new identifier, and its arguments; `during` is what other threads call
-- while the app server starts the thread.
pub data Call : Type 0 where
  open_ :
      (during : List Other) (now : ℕ) (fresh : Text) (cwd : FilePath) (sandbox : Sandbox)
      (name : Option Text)
      → Call
  acquire :
      (during : List Other) (now : ℕ) (fresh : Text) (cwd : FilePath) (sandbox : Sandbox)
      (name : Option Text)
      → Call
  resume :
      (now : ℕ) (fresh : Text) (runtime_id thread_id : Option Text) (cwd : Option FilePath)
      (sandbox : Option Sandbox)
      → Call
  other : Other → Call

module _ {W : Type 0} (env : World W) (settings : Settings) where
  -- The manager after a call, whatever it ends with.
  unfoldable pub other_step : Other → Manager W → Manager W
  unfolding close_runtime collect_expired_idle begin_request end_request touch
  other_step (close now runtime_id release_resources) s =
      (close_runtime env settings now runtime_id release_resources s).1
  other_step (collect_idle now suppress_errors) s =
      (collect_expired_idle env settings now suppress_errors s).1
  other_step (begin_ runtime_id thread_id) s = (begin_request env settings runtime_id thread_id s).1
  other_step (end_ now runtime_id) s = end_request env settings now runtime_id s
  other_step (touched now runtime_id mcp_server_count) s =
      touch env settings now runtime_id mcp_server_count s

  unfoldable pub other_steps : List Other → Manager W → Manager W
  unfolding other_step
  other_steps [] s = s
  other_steps (call ∷ calls) s = other_steps calls (other_step call s)

  unfoldable pub step : Call → Manager W → Manager W
  unfolding open_runtime acquire_runtime resume_runtime other_step other_steps
  step (open_ during now fresh cwd sandbox name) s =
      (open_runtime env settings (other_steps during) now fresh cwd sandbox name s).1
  step (acquire during now fresh cwd sandbox name) s =
      (acquire_runtime env settings (other_steps during) now fresh cwd sandbox name s).1
  step (resume now fresh runtime_id thread_id cwd sandbox) s =
      (resume_runtime env settings now fresh runtime_id thread_id cwd sandbox s).1
  step (other call) s = other_step call s

  unfoldable pub run : List Call → Manager W → Manager W
  unfolding step
  run [] s = s
  run (call ∷ calls) s = run calls (step call s)
