-- ===== src/Codex/Calls/Run.antt =====
-- The bindings after any calls.
use chatgpt_web_oauth_mcp.Prelude.{List, [], ◌∷◌, ok, err}
use chatgpt_web_oauth_mcp.Codex.{World, Settings, Manager, Ending}
use chatgpt_web_oauth_mcp.Codex.Capacity.Limit.{Sound}
use chatgpt_web_oauth_mcp.Codex.Runtimes.Sounds.{
  Stays, touch-Sound, open_runtime-Stays, close_runtime-Stays, begin_request-Stays,
  end_request-Sound, collect_expired_idle-Stays,
}
use chatgpt_web_oauth_mcp.Codex.Resume.Sounds.{resume_runtime-Stays, acquire_runtime-Stays}
use chatgpt_web_oauth_mcp.Codex.Calls.{
  Other, close, collect_idle, begin_, end_, touched, Call, open_, acquire, resume, other,
  other_step, other_steps, step, run,
}

module _ {W : Type 0} (env : World W) (settings : Settings) where
  open settings use {max_runtimes}

  left-Sound : (A : Type 0) (m : Ending W A) → Stays env settings m → Sound max_runtimes m.1
  left-Sound A (ok v, s) h = h
  left-Sound A (err e, s) h = h

  other_step-Sound :
      (call : Other) (s : Manager W)
      → Sound max_runtimes s
      → Sound max_runtimes (other_step env settings call s)
  unfolding other_step
  other_step-Sound (close now id release_resources) s h =
      left-Sound _ _ (close_runtime-Stays env settings now id release_resources s h)
  other_step-Sound (collect_idle now suppress_errors) s h =
      left-Sound _ _ (collect_expired_idle-Stays env settings now suppress_errors s h)
  other_step-Sound (begin_ id thread) s h =
      left-Sound _ _ (begin_request-Stays env settings id thread s h)
  other_step-Sound (end_ now id) s h = end_request-Sound env settings now id s h
  other_step-Sound (touched now id count) s h = touch-Sound env settings now id count s h

  other_steps-Sound :
      (calls : List Other) (s : Manager W)
      → Sound max_runtimes s
      → Sound max_runtimes (other_steps env settings calls s)
  unfolding other_steps
  other_steps-Sound [] s h = h
  other_steps-Sound (call ∷ calls) s h =
      other_steps-Sound calls (other_step env settings call s) (other_step-Sound call s h)

  step-Sound :
      (call : Call) (s : Manager W)
      → Sound max_runtimes s
      → Sound max_runtimes (step env settings call s)
  unfolding step
  step-Sound (open_ during now fresh cwd sandbox name) s h = left-Sound _ _ (
      open_runtime-Stays env settings (other_steps env settings during) (other_steps-Sound during)
        now fresh cwd sandbox name s h)
  step-Sound (acquire during now fresh cwd sandbox name) s h = left-Sound _ _ (
      acquire_runtime-Stays env settings (other_steps env settings during)
        (other_steps-Sound during) now fresh cwd sandbox name s h)
  step-Sound (resume now fresh id thread cwd sandbox) s h =
      left-Sound _ _ (resume_runtime-Stays env settings now fresh id thread cwd sandbox s h)
  step-Sound (other call) s h = other_step-Sound call s h

  -- Whatever calls a manager with sound bindings receives, in whatever order, and whatever the app
  -- server and the store answer, also where requests begin and end, runtimes are closed and collected
  -- and bindings are touched while the server starts a thread for `open` or `acquire`: no runtime has two bindings, each stands under its identifier, there
  -- are at most as many as the limit, and every runtime with a request in progress has its binding.
  pub run-Sound :
      (calls : List Call) (s : Manager W)
      → Sound max_runtimes s
      → Sound max_runtimes (run env settings calls s)
  unfolding run
  run-Sound [] s h = h
  run-Sound (call ∷ calls) s h = run-Sound calls (step env settings call s) (step-Sound call s h)
