-- ===== src/Codex/Release/Spares.antt =====
-- A thread that is in use is not released.
use chatgpt_web_oauth_mcp.Prelude.{
  ℕ, ◌<◌, ◌≡◌, ◌⊎◌, refl, sym, inl, inr, true, ◌&&◌, not, some, [], ◌∷◌, arith, Text, text_eq,
  text_eq_refl, elem, Bool-cases, Option-cases, err,
}
use chatgpt_web_oauth_mcp.Prelude.Dict.{Dict, get}
use chatgpt_web_oauth_mcp.Codex.{Binding, runtime_busy, raised, World, Manager, Ending}
use chatgpt_web_oauth_mcp.Codex.Release.{
  same_generation, requests_of, has_active, sync_connection_generation, thread_in_use,
  release_thread_locked,
}

has_active-get :
    (id : Text) (active : Dict ℕ) (d : Dict Binding) {b : Binding}
    → get id d ≡ some b
    → 0 < requests_of active b.runtime_id
    → has_active b.thread_id active d ≡ true
unfolding has_active get
has_active-get id active [] h busy = cc
has_active-get id active ((k, c) ∷ d) {b} h busy = elim (Bool-cases (text_eq k id)) [
  | inl y ↦
      let same : c ≡ b = cc (rw y at h) in
      let c_busy : 0 < requests_of active c.runtime_id = rw same busy in
      rw (sym same) (ground (arith, text_eq_refl c.thread_id))
  | inr n ↦ let rest = has_active-get id active d {b = b} (rw n at h) busy in ground arith
]

module _ {W : Type 0} (env : World W) where
  sync-keeps :
      (s : Manager W)
      → ((sync_connection_generation env s).bindings ≡ s.bindings)
        × ((sync_connection_generation env s).active_requests ≡ s.active_requests)
  unfolding sync_connection_generation
  sync-keeps s = elim (Option-cases (env.connection_generation s.world)) [
    | inl e ↦ rw (sync_connection_generation, e) (refl, refl)
    | inr (n, e) ↦ elim (Bool-cases (same_generation n s.observed_generation)) [
      | inl y ↦ rw (sync_connection_generation, e, y) (refl, refl)
      | inr y ↦ rw (sync_connection_generation, e, y) (refl, refl)
    ]
  ]

  -- A release that did nothing, and that says so of a thread of this server.
  pub record Spared (thread : Text) (s : Manager W) (outcome : Ending W (Unit {0})) : Type 0 where
    pub nothing_done : outcome.1 ≡ sync_connection_generation env s
    pub refused :
        (elem thread outcome.1.live_thread_ids ≡ true)
          ⊎ (elem thread outcome.1.pending_release ≡ true)
        → outcome.0 ≡ err (raised runtime_busy)

  -- The thread of a runtime with a request in progress is not released: the call does nothing but
  -- note the generation of the connection, so that the app server is asked for nothing and no
  -- binding is detached, and it ends with an error if the thread is held by this manager.
  pub release_thread_locked-Spared :
      (id : Text) (s : Manager W) {b : Binding}
      → get id s.bindings ≡ some b
      → 0 < requests_of s.active_requests b.runtime_id
      → Spared b.thread_id s (release_thread_locked env b.thread_id s)
  unfolding release_thread_locked thread_in_use
  release_thread_locked-Spared id s {b} there busy =
      let t = sync_connection_generation env s in
      let k = sync-keeps s in
      let used : has_active b.thread_id t.active_requests t.bindings ≡ true =
        rw (k.0, k.1) (has_active-get id s.active_requests s.bindings {b = b} there busy) in
      let foreign =
        not (elem b.thread_id t.live_thread_ids)
        && not (elem b.thread_id t.pending_release)
        && not (env.owns_thread b.thread_id t.world) in
      elim (Bool-cases foreign) [
        | inl y ↦
            rw y
              (record { nothing_done = refl; refused = λ held. absurd (ground (arith, y, held)) })
        | inr n ↦ rw (n, used) (record { nothing_done = refl; refused = λ held. refl })
      ]
