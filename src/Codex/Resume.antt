-- ===== src/Codex/Resume.antt =====
-- `_resume_runtime` and `_acquire_runtime`.
pub mod Targets
pub mod Sounds
use chatgpt_web_oauth_mcp.Prelude.{
  ℕ, Bool, true, false, ◌&&◌, ◌||◌, not, Option, none, some, List, [], ◌∷◌, Text, text_eq, elem,
  if◌then◌else◌, Result, ok, err, ◌>>=◌,
}
use chatgpt_web_oauth_mcp.Prelude.Dict.{Dict, get, put}
use chatgpt_web_oauth_mcp.FileSystem.{FilePath}
use chatgpt_web_oauth_mcp.Codex.{
  Sandbox, ready, Binding, Code, invalid_arguments, runtime_not_found, runtime_metadata_mismatch,
  resume_metadata_required, RuntimeError, raised, Thread, World, Settings, Manager, Ending, after,
  lifted, checked, same_sandbox, strip,
}
use chatgpt_web_oauth_mcp.Codex.Release.{
  add_member, sync_connection_generation, release_thread_locked,
}
use chatgpt_web_oauth_mcp.Codex.Capacity.{
  older, bindings_where, sort_by_age, save_bindings, ensure_capacity_locked,
}
use chatgpt_web_oauth_mcp.Codex.Threads.{normalize_name, verify_thread_metadata, unless_code}
use chatgpt_web_oauth_mcp.Codex.Runtimes.{
  on_error, ensure_store, compensate_allocation, open_runtime, collect_expired_idle,
}

-- What is to be resumed: the binding, if there is one, the thread, its directory and its sandbox.
pub record Target : Type 0 where
  pub existing : Option Binding
  pub thread_id : Text
  pub cwd : FilePath
  pub sandbox : Sandbox

-- A thread that was resumed, whether on the same connection, and the thread that it replaces.
pub record Resumed : Type 0 where
  pub thread_id : Text
  pub cwd : FilePath
  pub reused_connection : Bool
  pub previous_thread_id : Option Text

pub data ResumeMode : Type 0 where
  opened reattached resumed recreated : ResumeMode

-- `bool(value and value.strip())`
abbrev pub is_given : Option Text → Bool
is_given none = false
is_given (some value) = elim (strip value) [ [] ↦ false | c ∷ text ↦ true ]

-- The first binding of a thread.
unfoldable pub find_thread : Text → Dict Binding → Option Binding
find_thread thread_id [] = none
find_thread thread_id ((key, binding) ∷ bindings) =
    let rest = find_thread thread_id bindings in
    if text_eq binding.thread_id thread_id then some binding else rest

abbrev pub sandbox_or : Sandbox → Option Sandbox → Sandbox
sandbox_or own none = own
sandbox_or own (some given) = given

abbrev first_of : List Binding → Option Binding
first_of [] = none
first_of (b ∷ bs) = some b

-- The last of a list in order of age.
unfoldable pub newest : List Binding → Option Binding
newest [] = none
newest (b ∷ []) = some b
newest (b ∷ c ∷ bs) = newest (c ∷ bs)

abbrev mode_of : Resumed → ResumeMode
mode_of r = elim r.previous_thread_id [
  | some previous ↦ recreated
  | none ↦ if r.reused_connection then reattached else resumed
]

module _ {W : Type 0} (env : World W) where
  open env use {
    is_running, thread_start, thread_resume, is_no_rollout, resolve, path_eq, validate_cwd,
  }

  -- `self._validate_cwd(cwd) if cwd is not None else Path(existing.cwd)`
  abbrev pub cwd_or : W → FilePath → Option FilePath → Result Code FilePath
  cwd_or w own none = ok own
  cwd_or w own (some given) = validate_cwd given w

  -- The checks of the metadata that a caller supplies against those of a binding.
  unfoldable pub bound_target : W → Binding → Option FilePath → Option Sandbox → Result Code Target
  bound_target w existing cwd sandbox = do
    expected_cwd ← cwd_or w existing.cwd cwd
    same_cwd ← unless_code (path_eq expected_cwd (resolve existing.cwd)) runtime_metadata_mismatch
    same_mode ←
        unless_code (same_sandbox (sandbox_or existing.sandbox sandbox) existing.sandbox)
          runtime_metadata_mismatch
    ok (record {
      existing = some existing;
      thread_id = existing.thread_id;
      cwd = expected_cwd;
      sandbox = existing.sandbox;
    })

  unfoldable pub unbound_target : W → Text → Option FilePath → Option Sandbox → Result Code Target
  unbound_target w thread_id (some cwd) (some sandbox) = do
    expected_cwd ← validate_cwd cwd w
    ok (record { existing = none; thread_id = thread_id; cwd = expected_cwd; sandbox = sandbox })
  unbound_target w thread_id _ _ = err resume_metadata_required

  abbrev pub target_of :
      W → Code → Option Binding → Option FilePath → Option Sandbox → Result Code Target
  target_of w missing none cwd sandbox = err missing
  target_of w missing (some existing) cwd sandbox = bound_target w existing cwd sandbox

  abbrev pub thread_target :
      W → Text → Option Binding → Option FilePath → Option Sandbox → Result Code Target
  thread_target w thread_id none cwd sandbox = unbound_target w thread_id cwd sandbox
  thread_target w thread_id (some existing) cwd sandbox = bound_target w existing cwd sandbox

  abbrev pub text_or_empty : Option Text → Text
  text_or_empty none = []
  text_or_empty (some text) = text

  -- Exactly one of the two identifiers names the target.
  unfoldable pub resume_target :
      Option Text → Option Text → Option FilePath → Option Sandbox → Manager W → Result Code Target
  unfolding get find_thread bound_target unbound_target
  resume_target runtime_id thread_id cwd sandbox s =
      let by_thread = strip (text_or_empty thread_id) in
      if (is_given runtime_id && is_given thread_id)
        || (not (is_given runtime_id) && not (is_given thread_id))
      then err invalid_arguments
      else if is_given runtime_id
      then target_of s.world runtime_not_found (get (text_or_empty runtime_id) s.bindings) cwd
          sandbox
      else thread_target s.world by_thread (find_thread by_thread s.bindings) cwd sandbox

  abbrev pub is_bound : Option Binding → Bool
  is_bound none = false
  is_bound (some existing) = true

  -- The thread of a resume that was answered.
  abbrev pub resumed_as : Target → Option Text → Manager W → Thread → Ending W Resumed
  resumed_as target previous s result =
      after (checked s (verify_thread_metadata env result target.cwd target.sandbox)) (λ thread t. (
        ok (record {
          thread_id = thread.0;
          cwd = thread.1;
          reused_connection = false;
          previous_thread_id = previous;
        }),
        t,
      ))

  -- Resuming asks for the thread itself, unless the server has nothing of it and starts another.
  abbrev pub same_thread : Target → Ending W Resumed → Ending W Resumed
  same_thread target (err e, s) = (err e, s)
  same_thread target (ok r, s) =
      if text_eq r.thread_id target.thread_id
      then (ok r, s)
      else (err (raised runtime_metadata_mismatch), s)

  abbrev pub resume_answered : Target → Manager W → Result Code Thread × W → Ending W Resumed
  resume_answered target s (ok result, w) =
      same_thread target (resumed_as target none (record s { world = w }) result)
  resume_answered target s (err code, w) =
      let t : Manager W = record s { world = w } in
      let restarted : Ending W Resumed =
        after (lifted t (thread_start target.cwd target.sandbox w))
          (λ result r. resumed_as target (some target.thread_id) r result) in
      if is_no_rollout code then restarted else (err (raised code), t)

  unfoldable pub reattach_or_resume : Target → Manager W → Ending W Resumed
  unfolding verify_thread_metadata elem
  reattach_or_resume target s =
      let reused =
        is_bound target.existing && is_running s.world && elem target.thread_id s.live_thread_ids in
      let asked =
        resume_answered target s
          (thread_resume target.thread_id target.cwd target.sandbox s.world) in
      if reused
      then (
        ok (record {
          thread_id = target.thread_id;
          cwd = target.cwd;
          reused_connection = true;
          previous_thread_id = none;
        }),
        s,
      )
      else asked

  -- The binding of a resumed thread.
  abbrev pub resumed_binding : ℕ → Text → Target → Resumed → Binding
  resumed_binding now fresh target r = elim target.existing [
    | none ↦ record {
      runtime_id = fresh;
      thread_id = r.thread_id;
      cwd = r.cwd;
      sandbox = target.sandbox;
      name = none;
      created_at = now;
      last_used_at = now;
      status = ready;
      mcp_server_count = none;
    }
    | some existing ↦ record existing {
      thread_id = r.thread_id;
      cwd = r.cwd;
      last_used_at = now;
      status = ready;
    }
  ]

  -- `if target_thread_id in self._pending_release: self._release_thread_locked(...)`
  abbrev pub finish_release : Text → Manager W → Ending W (Unit {0})
  finish_release thread_id s =
      let more = release_thread_locked env thread_id s in
      if elem thread_id s.pending_release then more else (ok tt, s)

  abbrev pub release_previous : Option Text → Manager W → Ending W (Unit {0})
  release_previous none s = (ok tt, s)
  release_previous (some thread_id) s = release_thread_locked env thread_id s

module _ {W : Type 0} (env : World W) (settings : Settings) where
  abbrev pub room_for : ℕ → Option Binding → Manager W → Ending W (List Text)
  room_for now none s = ensure_capacity_locked env settings now 1 s
  room_for now (some existing) s = (ok [], s)

  abbrev pub after_failure : Resumed → RuntimeError → Manager W → Ending W Binding
  after_failure r e s =
      let released = compensate_allocation env settings r.thread_id e s in
      if r.reused_connection then (err (record e { thread_id = some r.thread_id }), s) else released

  -- The save of the binding, and what an error of it brings about.
  unfoldable pub save_resumed :
      ℕ → Option Binding → Binding → Resumed → Manager W → Ending W Binding
  unfolding ensure_capacity_locked add_member save_bindings put compensate_allocation
  save_resumed now existing binding r s =
      on_error
        (after (room_for now existing s) (λ evicted t.
          after
            (save_bindings env (put binding.runtime_id binding t.bindings)
              (record t { live_thread_ids = add_member r.thread_id t.live_thread_ids }))
            (λ u q. (ok binding, q))))
        (after_failure r)

  unfoldable pub resume_runtime :
      (now : ℕ) (fresh : Text) (runtime_id thread_id : Option Text) (cwd : Option FilePath)
      (sandbox : Option Sandbox)
      → Manager W
      → Ending W (Binding × ResumeMode)
  unfolding resume_target sync_connection_generation release_thread_locked reattach_or_resume
      save_resumed elem
  resume_runtime now fresh runtime_id thread_id cwd sandbox before =
      after (ensure_store env settings before) (λ u s.
        after (checked s (resume_target env runtime_id thread_id cwd sandbox s)) (λ target s1.
          after (finish_release env target.thread_id (sync_connection_generation env s1))
            (λ released s2. after (reattach_or_resume env target s2) (λ r s3.
              after
                (save_resumed now target.existing (resumed_binding env now fresh target r) r
                  (sync_connection_generation env s3))
                (λ binding s4.
                  after (release_previous env r.previous_thread_id s4)
                    (λ freed s5. (ok (binding, mode_of r), s5)))))))

  -- The binding of a logical runtime: the same name, directory and sandbox.
  unfoldable pub is_match : Text → FilePath → Sandbox → Binding → Bool
  is_match name cwd sandbox binding =
      elim binding.name [ none ↦ false | some own ↦ text_eq own name ]
      && env.path_eq (env.resolve binding.cwd) cwd
      && same_sandbox binding.sandbox sandbox

  abbrev pub opened_as : Ending W Binding → Ending W (Binding × ResumeMode)
  opened_as (ok binding, s) = (ok (binding, opened), s)
  opened_as (err e, s) = (err e, s)

  abbrev pub open_or_resume :
      (during : Manager W → Manager W) (now : ℕ) (fresh : Text) (cwd : FilePath) (sandbox : Sandbox)
      (name : Text)
      → Option Binding
      → Manager W
      → Ending W (Binding × ResumeMode)
  open_or_resume during now fresh cwd sandbox name none s =
      opened_as (open_runtime env settings during now fresh cwd sandbox (some name) s)
  open_or_resume during now fresh cwd sandbox name (some existing) s =
      resume_runtime now fresh (some existing.runtime_id) none (some cwd) (some sandbox) s

  -- A name is required.
  abbrev pub required_name : Result Code (Option Text) → Result Code Text
  required_name (ok none) = err invalid_arguments
  required_name (ok (some name)) = ok name
  required_name (err code) = err code

  unfoldable pub acquire_runtime :
      (during : Manager W → Manager W) (now : ℕ) (fresh : Text) (cwd : FilePath) (sandbox : Sandbox)
      (name : Option Text)
      → Manager W
      → Ending W (Binding × ResumeMode)
  unfolding normalize_name collect_expired_idle is_match newest sort_by_age bindings_where
      open_runtime resume_runtime
  acquire_runtime during now fresh cwd sandbox name before =
      after (ensure_store env settings before) (λ u s.
        after (checked s (env.validate_cwd cwd s.world)) (λ target s1.
          after (checked s1 (required_name (normalize_name name))) (λ normalized s2.
            after (collect_expired_idle env settings now false s2) (λ expired s3.
              open_or_resume during now fresh target sandbox normalized
                (newest
                  (sort_by_age (bindings_where (is_match normalized target sandbox) s3.bindings)))
                s3))))
