-- ===== src/Codex/Capacity.antt =====
-- `_collect_expired_idle_locked`, `_collect_expired_idle`, `_ensure_capacity_locked` and `_save_bindings`.
pub mod Limit
pub mod Room
pub mod Eviction
use chatgpt_web_oauth_mcp.Prelude.{
  ℕ, zero, suc, ◌+◌, ◌-◌, Bool, true, false, ◌&&◌, ◌||◌, not, Option, none, some, List, [], ◌∷◌,
  ◌++◌, map, Text, text_eq, text_lt, elem, length, take, ltb, leb, ◌==◌, if◌then◌else◌, Result, ok,
  err,
}
use chatgpt_web_oauth_mcp.Prelude.Dict.{Dict, remove}
use chatgpt_web_oauth_mcp.Output.Shares.{sorted}
use chatgpt_web_oauth_mcp.Codex.{
  Binding, is_detached, Code, runtime_limit_reached, raised, World, Settings, Manager, Ending,
  after, lifted,
}
use chatgpt_web_oauth_mcp.Codex.Release.{
  add_member, discard, sync_connection_generation, thread_in_use, release_thread_locked,
}

-- The bindings of a dictionary that pass a test.
unfoldable pub bindings_where : (Binding → Bool) → Dict Binding → List Binding
bindings_where test [] = []
bindings_where test ((key, binding) ∷ bindings) =
    let rest = bindings_where test bindings in if test binding then binding ∷ rest else rest

abbrev pub ids_of : List Binding → List Text
ids_of [] = []
ids_of (binding ∷ bindings) = binding.runtime_id ∷ ids_of bindings

-- The dictionary without the entries of some keys.
unfoldable pub without_ids : List Text → Dict Binding → Dict Binding
unfolding remove
without_ids [] bindings = bindings
without_ids (id ∷ ids) bindings = without_ids ids (remove id bindings)

-- The loop over `self._live_thread_ids.discard(binding.thread_id)`.
unfoldable pub discard_threads : List Binding → List Text → List Text
unfolding discard
discard_threads [] threads = threads
discard_threads (binding ∷ bindings) threads =
    discard_threads bindings (discard binding.thread_id threads)

-- The threads that are held without a binding.
unfoldable pub unbound : Dict Binding → List Text → List Text
unbound bindings [] = []
unbound bindings (thread ∷ threads) =
    let rest = unbound bindings threads in if is_bound thread bindings then rest else thread ∷ rest
  where
    is_bound : Text → Dict Binding → Bool
    is_bound thread [] = false
    is_bound thread ((key, binding) ∷ bs) = text_eq binding.thread_id thread || is_bound thread bs

-- `self._live_thread_ids | self._pending_release`
unfoldable pub union : List Text → List Text → List Text
unfolding add_member
union [] ys = ys
union (x ∷ xs) ys = add_member x (union xs ys)

-- `(last_used_at, created_at, runtime_id)` of one binding before that of another.
unfoldable pub older : Binding → Binding → Bool
older a b =
    ltb a.last_used_at b.last_used_at
    || ((a.last_used_at == b.last_used_at)
        && (ltb a.created_at b.created_at
            || ((a.created_at == b.created_at) && text_lt a.runtime_id b.runtime_id)))

unfoldable pub insert_by_age : Binding → List Binding → List Binding
unfolding older
insert_by_age b [] = b ∷ []
insert_by_age b (c ∷ cs) = if older c b then c ∷ insert_by_age b cs else b ∷ c ∷ cs

unfoldable pub sort_by_age : List Binding → List Binding
unfolding insert_by_age
sort_by_age [] = []
sort_by_age (b ∷ bs) = insert_by_age b (sort_by_age bs)

abbrev pub is_empty : List Binding → Bool
is_empty [] = true
is_empty (b ∷ bs) = false

module _ {W : Type 0} (env : World W) where
  open env use {save, cleanup_abandoned_threads}

  unfoldable pub save_bindings : Dict Binding → Manager W → Ending W (Unit {0})
  save_bindings bindings s =
      after (lifted s (save bindings s.world))
        (λ saved t. (ok tt, record t { bindings = bindings; persistence_warning = none }))

  -- What the loop over the expired bindings does with a release that ended.
  abbrev pub released_or_kept :
      Binding
      → Ending W (Unit {0})
      → (Manager W → List Binding × Manager W)
      → List Binding × Manager W
  released_or_kept binding (ok u, s) next = let (released, t) = next s in (binding ∷ released, t)
  released_or_kept binding (err e, s) next = next s

  unfoldable pub release_expired : List Binding → Manager W → List Binding × Manager W
  unfolding release_thread_locked
  release_expired [] s = ([], s)
  release_expired (binding ∷ expired) s =
      let more =
        released_or_kept binding (release_thread_locked env binding.thread_id s)
          (release_expired expired) in
      if s.gc_stop then ([], s) else more

  -- The store has answered.
  unfoldable pub finish_collection :
      Bool
      → List Binding
      → Dict Binding
      → Manager W
      → Result Code (Unit {0}) × W
      → Ending W (List Text)
  unfolding sorted discard_threads
  finish_collection suppress_errors expired updated s (err code, w) =
      let t = record s { world = w; persistence_warning = some code } in
      if suppress_errors then (ok [], t) else (err (raised code), t)
  finish_collection suppress_errors expired updated s (ok saved, w) = (
    ok (sorted (ids_of expired)),
    record s {
      world = w;
      bindings = updated;
      persistence_warning = none;
      gc_collected_total = s.gc_collected_total + length expired;
      live_thread_ids = discard_threads expired s.live_thread_ids;
    },
  )

  module _ (settings : Settings) where
    open settings use {max_runtimes, idle_ttl_seconds}

    -- `now - binding.last_used_at >= self.idle_ttl_seconds`, and no request uses the thread.
    unfoldable pub is_expired : ℕ → Manager W → Binding → Bool
    unfolding thread_in_use
    is_expired now s binding =
        leb (binding.last_used_at + idle_ttl_seconds) now
        && not (thread_in_use env binding.thread_id s)

    unfoldable pub collect_expired_idle_locked : ℕ → Bool → Manager W → Ending W (List Text)
    unfolding is_expired bindings_where release_expired without_ids finish_collection
    collect_expired_idle_locked now suppress_errors before =
        let s = record before { last_gc_at = some now } in
        let (expired, t) = release_expired (bindings_where (is_expired now s) s.bindings) s in
        let updated = without_ids (ids_of expired) t.bindings in
        if is_empty expired
        then (ok [], t)
        else finish_collection suppress_errors expired updated t (save updated t.world)

    -- The loop that releases the threads to evict, which an error leaves.
    unfoldable pub release_all : List Binding → Manager W → Ending W (Unit {0})
    unfolding release_thread_locked
    release_all [] s = (ok tt, s)
    release_all (binding ∷ evicted) s =
        after (release_thread_locked env binding.thread_id s) (λ u t. release_all evicted t)

    unfoldable pub is_evictable : Manager W → Binding → Bool
    unfolding thread_in_use
    is_evictable s binding =
        is_detached binding.status && not (thread_in_use env binding.thread_id s)

    abbrev pub evict : List Binding → Manager W → Ending W (List Text)
    evict evicted s = after (release_all evicted s) (λ u t.
        after (save_bindings (without_ids (ids_of evicted) t.bindings) t) (λ saved r. (
          ok (ids_of evicted),
          record r {
            lru_evicted_total = r.lru_evicted_total + length evicted;
            live_thread_ids = discard_threads evicted r.live_thread_ids;
          },
        )))

    abbrev pub used_slots : Manager W → ℕ
    used_slots s =
        length s.bindings + length (unbound s.bindings (union s.live_thread_ids s.pending_release))

    -- What is done where the expired bindings do not make room.
    unfoldable pub evict_oldest : ℕ → Manager W → Ending W (List Text)
    unfolding unbound union sort_by_age bindings_where is_evictable release_all save_bindings
        without_ids discard_threads
    evict_oldest required s =
        let overflow = used_slots s + required - max_runtimes in
        let candidates = sort_by_age (bindings_where (is_evictable s) s.bindings) in
        if leb (used_slots s + required) max_runtimes
        then (ok [], s)
        else if ltb (length candidates) overflow
        then (err (raised runtime_limit_reached), s)
        else evict (take overflow candidates) s

    unfoldable pub ensure_capacity_locked : ℕ → ℕ → Manager W → Ending W (List Text)
    unfolding collect_expired_idle_locked evict_oldest
    ensure_capacity_locked now zero s = (ok [], s)
    ensure_capacity_locked now (suc required) s =
        after (collect_expired_idle_locked now false s) (λ expired t. evict_oldest (suc required) t)
