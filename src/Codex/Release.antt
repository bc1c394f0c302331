-- ===== src/Codex/Release.antt =====
-- `_sync_connection_generation`, `_thread_in_use_locked` and `_release_thread_locked`.
pub mod Spares
use chatgpt_web_oauth_mcp.Prelude.{
  ℕ, Bool, true, false, ◌&&◌, ◌||◌, not, Option, none, some, List, [], ◌∷◌, Text, text_eq, elem,
  ltb, ◌==◌, if◌then◌else◌, Result, ok, err,
}
use chatgpt_web_oauth_mcp.Prelude.Dict.{Dict, get}
use chatgpt_web_oauth_mcp.Output.Shares.{value_or_zero}
use chatgpt_web_oauth_mcp.Codex.{
  Binding, detached, Code, runtime_busy, runtime_cleanup_incomplete, raised, World, Manager, Ending,
}

abbrev pub same_generation : ℕ → Option ℕ → Bool
same_generation n none = false
same_generation n (some m) = n == m

-- `set.add` and `set.discard`
unfoldable pub add_member : Text → List Text → List Text
unfolding elem
add_member k xs = if elem k xs then xs else k ∷ xs

unfoldable pub discard : Text → List Text → List Text
discard k [] = []
discard k (x ∷ xs) = let rest = discard k xs in if text_eq k x then rest else x ∷ rest

unfoldable pub requests_of : Dict ℕ → Text → ℕ
unfolding get value_or_zero
requests_of active_requests runtime_id = value_or_zero (get runtime_id active_requests)

-- A runtime of the thread with an unfinished request.
unfoldable pub has_active : Text → Dict ℕ → Dict Binding → Bool
unfolding requests_of
has_active thread_id active_requests [] = false
has_active thread_id active_requests ((key, binding) ∷ bindings) =
    (text_eq binding.thread_id thread_id && ltb 0 (requests_of active_requests binding.runtime_id))
    || has_active thread_id active_requests bindings

abbrev pub detach : Text → Binding → Binding
detach thread_id binding =
    if text_eq binding.thread_id thread_id then record binding { status = detached } else binding

-- The loop that detaches the runtimes of a thread.
unfoldable pub detach_thread : Text → Dict Binding → Dict Binding
detach_thread thread_id [] = []
detach_thread thread_id ((key, binding) ∷ bindings) =
    (key, detach thread_id binding) ∷ detach_thread thread_id bindings

-- `if not self._pending_release: self._cleanup_error = None`
abbrev pub error_left : List Text → Option Code → Option Code
error_left [] e = none
error_left (x ∷ xs) e = e

module _ {W : Type 0} (env : World W) where
  open env use {connection_generation, has_pending_operations, owns_thread, release_thread}

  unfoldable pub sync_connection_generation : Manager W → Manager W
  sync_connection_generation s = elim (connection_generation s.world) [
    | none ↦ s
    | some generation ↦ if same_generation generation s.observed_generation then s else record s {
      live_thread_ids = [];
      pending_release = [];
      observed_generation = some generation;
    }
  ]

  unfoldable pub thread_in_use : Text → Manager W → Bool
  unfolding has_active
  thread_in_use thread_id s =
      has_active thread_id s.active_requests s.bindings || has_pending_operations thread_id s.world

  -- After the adapter was asked.
  unfoldable pub confirm_release : Text → Manager W → Result Code Bool → Ending W (Unit {0})
  unfolding discard
  confirm_release thread_id s (err code) =
      (err (raised code), record s { cleanup_error = some code })
  confirm_release thread_id s (ok false) = (
    err (raised runtime_cleanup_incomplete),
    record s { cleanup_error = some runtime_cleanup_incomplete },
  )
  confirm_release thread_id s (ok true) =
      let pending = discard thread_id s.pending_release in
      (
        ok tt,
        record s { pending_release = pending; cleanup_error = error_left pending s.cleanup_error },
      )

  -- The thread is ours, and no request uses it.
  unfoldable pub release_owned : Text → Manager W → Ending W (Unit {0})
  unfolding confirm_release add_member discard detach_thread
  release_owned thread_id s =
      let (answer, w) = release_thread thread_id s.world in
      confirm_release thread_id
        (record s {
          pending_release = add_member thread_id s.pending_release;
          live_thread_ids = discard thread_id s.live_thread_ids;
          bindings = detach_thread thread_id s.bindings;
          world = w;
        })
        answer

  unfoldable pub release_thread_locked : Text → Manager W → Ending W (Unit {0})
  unfolding sync_connection_generation thread_in_use release_owned elem
  release_thread_locked thread_id before =
      let s = sync_connection_generation before in
      if not (elem thread_id s.live_thread_ids)
        && not (elem thread_id s.pending_release)
        && not (owns_thread thread_id s.world)
      then (ok tt, s)
      else if thread_in_use thread_id s
      then (err (raised runtime_busy), s)
      else release_owned thread_id s
