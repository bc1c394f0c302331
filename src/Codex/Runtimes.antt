-- ===== src/Codex/Runtimes.antt =====
-- The calls of the manager: opening, resuming and closing a runtime, its requests, and collection.
pub mod Preserves
pub mod Sounds
use chatgpt_web_oauth_mcp.Prelude.{
  ℕ, zero, suc, ◌+◌, ◌-◌, Bool, true, false, ◌&&◌, ◌||◌, not, Option, none, some, List, [], ◌∷◌,
  Text, text_eq, elem, if◌then◌else◌, Result, ok, err,
}
use chatgpt_web_oauth_mcp.Prelude.Dict.{Dict, get, put, remove}
use chatgpt_web_oauth_mcp.FileSystem.{FilePath}
use chatgpt_web_oauth_mcp.Codex.{
  Sandbox, Status, ready, detached, Binding, Code, runtime_not_found, runtime_busy,
  runtime_not_active, runtime_changed, runtime_metadata_mismatch, resume_metadata_required,
  RuntimeError, raised, Thread, World, Settings, Manager, Ending, after, lifted, checked,
  same_sandbox, is_ready,
}
use chatgpt_web_oauth_mcp.Codex.Release.{
  add_member, requests_of, sync_connection_generation, thread_in_use, release_thread_locked,
}
use chatgpt_web_oauth_mcp.Codex.Capacity.{
  unbound, union, save_bindings, collect_expired_idle_locked, ensure_capacity_locked,
}
use chatgpt_web_oauth_mcp.Codex.Threads.{normalize_name, verify_thread_metadata, unless_code}

-- The binding of an identifier, or the error.
abbrev pub found : {W A : Type 0} → Option Binding → Manager W → (Binding → Ending W A) → Ending W A
found none s next = (err (raised runtime_not_found), s)
found (some binding) s next = next binding

abbrev pub detached_binding : ℕ → Binding → Binding
detached_binding now binding = record binding { status = detached; last_used_at = now }

-- `remaining` requests of a runtime.
abbrev pub put_remaining : Text → ℕ → Dict ℕ → Dict ℕ
put_remaining runtime_id zero active = remove runtime_id active
put_remaining runtime_id (suc n) active = put runtime_id (suc n) active

-- The side effects of an error after a thread was allocated.
abbrev pub compensated : {W A : Type 0} → Text → RuntimeError → Ending W (Unit {0}) → Ending W A
compensated thread_id e (ok u, s) =
    (err (record e { thread_id = some thread_id; resources_released = some true }), s)
compensated thread_id e (err x, s) =
    (err (record e { thread_id = some thread_id; resources_released = some false }), s)

-- `self._load_error` is raised where there is one.
abbrev pub store_answer : {W : Type 0} → Option Code → Manager W → Ending W (Unit {0})
store_answer none s = (ok tt, s)
store_answer (some code) s = (err (raised code), s)

-- A collection does nothing where the store could not be read.
abbrev pub if_loaded :
    {W : Type 0} → Option Code → Bool → Manager W → Ending W (List Text) → Ending W (List Text)
if_loaded none suppress_errors s m = m
if_loaded (some code) true s m = (ok [], s)
if_loaded (some code) false s m = (err (raised code), s)

-- An error that passes on, after what is done about it.
abbrev pub on_error :
    {W A : Type 0} → Ending W A → (RuntimeError → Manager W → Ending W A) → Ending W A
on_error (ok value, s) handle = (ok value, s)
on_error (err e, s) handle = handle e s

-- The end of a call during which other threads used the manager.
abbrev pub meanwhile : {W A : Type 0} → (Manager W → Manager W) → Ending W A → Ending W A
meanwhile during (answer, s) = (answer, during s)

module _ {W : Type 0} (env : World W) (settings : Settings) where
  open env use {is_running, thread_start, cleanup_abandoned_threads, save, validate_cwd}

  abbrev pub ensure_store : Manager W → Ending W (Unit {0})
  ensure_store s = store_answer s.load_error s

  -- `_compensate_allocation`
  unfoldable pub compensate_allocation : {A : Type 0} → Text → RuntimeError → Manager W → Ending W A
  unfolding release_thread_locked
  compensate_allocation thread_id e s =
      compensated thread_id e (release_thread_locked env thread_id s)

  -- `_touch`: a failed save leaves a warning.
  unfoldable pub touch : ℕ → Text → Option ℕ → Manager W → Manager W
  unfolding get put
  touch now runtime_id mcp_server_count s = elim (get runtime_id s.bindings) [
    | none ↦ s
    | some binding ↦
        let updated =
          put runtime_id
            (record binding {
              last_used_at = now;
              status = ready;
              mcp_server_count = elim mcp_server_count [
                | none ↦ binding.mcp_server_count
                | some n ↦ some n
              ];
            })
            s.bindings in
        let (answer, w) = save updated s.world in
        record s {
          bindings = updated;
          world = w;
          persistence_warning = elim answer [ ok u ↦ none | err code ↦ some code ];
        }
  ]

  -- `_active_binding`
  unfoldable pub active_binding : Text → Manager W → Ending W Binding
  unfolding get put
  active_binding runtime_id before = after (ensure_store before) (λ u s.
      found (get runtime_id s.bindings) s (λ binding.
        (if not (is_running s.world)
          then (
            err (raised runtime_not_active),
            record s {
              bindings = put runtime_id (record binding { status = detached }) s.bindings;
            },
          )
          else if is_ready binding.status
          then (ok binding, s)
          else (err (raised runtime_not_active), s))))

  -- `_request_slot` of a runtime, up to its `yield`; the semaphore has a free slot.
  unfoldable pub begin_request : Text → Text → Manager W → Ending W (Unit {0})
  unfolding active_binding requests_of put
  begin_request runtime_id thread_id before = after (active_binding runtime_id before) (λ current s.
      (if text_eq current.thread_id thread_id
        then (
          ok tt,
          record s {
            active_requests =
                put runtime_id (requests_of s.active_requests runtime_id + 1) s.active_requests;
          },
        )
        else (err (raised runtime_changed), s)))

  -- Its `finally`, where the request was registered.
  unfoldable pub end_request : ℕ → Text → Manager W → Manager W
  unfolding touch requests_of put remove
  end_request now runtime_id before =
      let s = touch now runtime_id none before in
      record s {
        active_requests =
            put_remaining runtime_id (requests_of s.active_requests runtime_id - 1)
              s.active_requests;
      }

  -- `_open_runtime`, where the name is checked and the identifier is new.
  unfoldable pub bind_thread : ℕ → Text → Binding → Manager W → Ending W Binding
  unfolding ensure_capacity_locked add_member save_bindings compensate_allocation put
  bind_thread now runtime_id binding s =
      on_error
        (after (ensure_capacity_locked env settings now 1 s) (λ evicted t.
          after
            (save_bindings env (put runtime_id binding t.bindings)
              (record t { live_thread_ids = add_member binding.thread_id t.live_thread_ids }))
            (λ u r. (ok binding, r))))
        (compensate_allocation binding.thread_id)

  -- `during` is what other threads do to the manager while the app server starts the thread: the
  -- manager does not hold its lock there.
  unfoldable pub open_runtime :
      (during : Manager W → Manager W) (now : ℕ) (fresh : Text) (cwd : FilePath) (sandbox : Sandbox)
      (name : Option Text)
      → Manager W
      → Ending W Binding
  unfolding normalize_name ensure_capacity_locked verify_thread_metadata sync_connection_generation
      bind_thread
  open_runtime during now fresh cwd sandbox name before = after (ensure_store before) (λ u s.
      after (checked s (validate_cwd cwd s.world)) (λ target s1.
        after (checked s1 (normalize_name name)) (λ normalized s2.
          after (ensure_capacity_locked env settings now 1 s2) (λ evicted s3.
            after (meanwhile during (lifted s3 (thread_start target sandbox s3.world)))
              (λ result s4.
                after (checked s4 (verify_thread_metadata env result target sandbox)) (λ thread s5.
                  bind_thread now fresh
                    (record {
                      runtime_id = fresh;
                      thread_id = thread.0;
                      cwd = thread.1;
                      sandbox = sandbox;
                      name = normalized;
                      created_at = now;
                      last_used_at = now;
                      status = ready;
                      mcp_server_count = none;
                    })
                    (sync_connection_generation env s5)))))))

  -- `close_runtime`
  unfoldable pub close_runtime : ℕ → Text → Bool → Manager W → Ending W Binding
  unfolding get put thread_in_use release_thread_locked save_bindings
  close_runtime now runtime_id release_resources before = after (ensure_store before) (λ u s.
      found (get runtime_id s.bindings) s (λ binding.
        (if thread_in_use env binding.thread_id s
          then (err (raised runtime_busy), s)
          else after
              (if release_resources
                then release_thread_locked env binding.thread_id s
                else (ok tt, s))
              (λ released t.
                after
                  (save_bindings env (put runtime_id (detached_binding now binding) t.bindings) t)
                  (λ saved r. (ok (detached_binding now binding), r))))))

  -- The loop that releases the threads without a binding.
  unfoldable pub release_threads : List Text → Manager W → Ending W (Unit {0})
  unfolding release_thread_locked
  release_threads [] s = (ok tt, s)
  release_threads (thread ∷ threads) s =
      after (release_thread_locked env thread s) (λ u t. release_threads threads t)

  -- `_collect_expired_idle`; the orphans are those of the state after the cleanup.
  unfoldable pub release_orphans : Manager W → Ending W (Unit {0})
  unfolding unbound union release_threads
  release_orphans s =
      after (lifted s (cleanup_abandoned_threads s.world))
        (λ u t. release_threads (unbound t.bindings (union t.live_thread_ids t.pending_release)) t)

  abbrev pub noted : Bool → Ending W (Unit {0}) → Ending W (Unit {0})
  noted suppress_errors (ok u, s) = (ok tt, s)
  noted true (err e, s) = (ok tt, record s { cleanup_error = some e.code })
  noted false (err e, s) = (err e, record s { cleanup_error = some e.code })

  unfoldable pub collect_expired_idle : ℕ → Bool → Manager W → Ending W (List Text)
  unfolding sync_connection_generation release_orphans collect_expired_idle_locked
  collect_expired_idle now suppress_errors s = if_loaded s.load_error suppress_errors s (
      after (noted suppress_errors (release_orphans (sync_connection_generation env s)))
        (λ u t. collect_expired_idle_locked env settings now suppress_errors t))
