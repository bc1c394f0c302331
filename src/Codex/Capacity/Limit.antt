-- ===== src/Codex/Capacity/Limit.antt =====
-- The limit on the number of bindings, and what a request in progress protects.
use chatgpt_web_oauth_mcp.Prelude.{
  ℕ, ◌≤◌, ◌<◌, ◌≡◌, refl, sym, ap, ◌∙◌, inl, inr, Bool, true, false, ◌&&◌, not, In, arith, Text,
  elem, length, Bool-cases, Option-cases, Result, ok, err,
}
use chatgpt_web_oauth_mcp.Codex.{Code, World, Manager, Ending, after}
use chatgpt_web_oauth_mcp.Codex.Release.{
  same_generation, requests_of, sync_connection_generation, thread_in_use, confirm_release,
  release_owned, release_thread_locked,
}
use chatgpt_web_oauth_mcp.Codex.Capacity.{ids_of}
use chatgpt_web_oauth_mcp.Codex.Keys.{
  keys_of, values_of, Keyed, detach_thread-keys, detach_thread-ids, length-keys_of,
}

module _ {W A : Type 0} where
  -- What holds of a value and the manager, or of the manager that an error leaves.
  abbrev pub Holds : (A → Manager W → Type 0) → (Manager W → Type 0) → Ending W A → Type 0
  Holds P Q (ok value, s) = P value s
  Holds P Q (err e, s) = Q s

module _ {W A B : Type 0} where
  pub after-Holds :
      (P : A → Manager W → Type 0) (P' : B → Manager W → Type 0) (Q : Manager W → Type 0)
      (m : Ending W A) (next : A → Manager W → Ending W B)
      → Holds P Q m
      → ((value : A) (s : Manager W) → P value s → Holds P' Q (next value s))
      → Holds P' Q (after m next)
  after-Holds P P' Q (ok value, s) next h step = step value s h
  after-Holds P P' Q (err e, s) next h step = h

module _ {W : Type 0} where
  -- The same bindings, but for their status, and the same requests.
  pub record Same (s t : Manager W) : Type 0 where
    pub keys : keys_of t.bindings ≡ keys_of s.bindings
    pub ids : ids_of (values_of t.bindings) ≡ ids_of (values_of s.bindings)
    pub active : t.active_requests ≡ s.active_requests

  pub Same-refl : (s : Manager W) → Same s s
  Same-refl s = record { keys = refl; ids = refl; active = refl }

  pub Same-trans : (r s t : Manager W) → Same r s → Same s t → Same r t
  Same-trans r s t a b = record {
    keys = b.keys ∙ a.keys;
    ids = b.ids ∙ a.ids;
    active = b.active ∙ a.active;
  }

  -- One entry for each runtime, no more than the limit, and one for each request in progress.
  pub record Sound (limit : ℕ) (s : Manager W) : Type 0 where
    pub keyed : Keyed s.bindings
    pub bounded : length s.bindings ≤ limit
    pub active : (k : Text) → 0 < requests_of s.active_requests k → In k (keys_of s.bindings)

  pub Same-length : (s t : Manager W) → Same s t → length t.bindings ≡ length s.bindings
  Same-length s t e = sym (length-keys_of t.bindings) ∙ ap length e.keys ∙ length-keys_of s.bindings

  pub Same-Sound : (limit : ℕ) (s t : Manager W) → Same s t → Sound limit s → Sound limit t
  Same-Sound limit s t e h = record {
    keyed = record {
      own = e.ids ∙ h.keyed.own ∙ sym e.keys;
      distinct = rw (e.keys) h.keyed.distinct;
    };
    bounded = omega (arith, Same-length s t e, h.bounded);
    active = λ k busy. rw (e.keys) (h.active k (rw (e.active) at busy));
  }

module _ {W : Type 0} where
  pub widen :
      (r s : Manager W)
      → Same r s
      → (m : Ending W (Unit {0})) → Holds (λ u t. Same s t) (Same s) m
      → Holds (λ u t. Same r t) (Same r) m
  widen r s e (ok u, t) h = Same-trans r s t e h
  widen r s e (err x, t) h = Same-trans r s t e h

module _ {W : Type 0} (env : World W) where
  pub sync-Same : (s : Manager W) → Same s (sync_connection_generation env s)
  unfolding sync_connection_generation
  sync-Same s = elim (Option-cases (env.connection_generation s.world)) [
    | inl e ↦ rw (sync_connection_generation, e) (Same-refl s)
    | inr (n, e) ↦ elim (Bool-cases (same_generation n s.observed_generation)) [
      | inl y ↦ rw (sync_connection_generation, e, y) (Same-refl s)
      | inr y ↦
          rw (sync_connection_generation, e, y) (record { keys = refl; ids = refl; active = refl })
    ]
  ]

  confirm_release-Same :
      (thread : Text) (s t : Manager W) (answer : Result Code Bool)
      → Same s t
      → Holds (λ u r. Same s r) (Same s) (confirm_release env thread t answer)
  unfolding confirm_release
  confirm_release-Same thread s t (err code) h = record {
    keys = h.keys;
    ids = h.ids;
    active = h.active;
  }
  confirm_release-Same thread s t (ok false) h = record {
    keys = h.keys;
    ids = h.ids;
    active = h.active;
  }
  confirm_release-Same thread s t (ok true) h = record {
    keys = h.keys;
    ids = h.ids;
    active = h.active;
  }

  release_owned-Same :
      (thread : Text) (s : Manager W)
      → Holds (λ u r. Same s r) (Same s) (release_owned env thread s)
  unfolding release_owned
  release_owned-Same thread s =
      confirm_release-Same thread s _ (env.release_thread thread s.world).0 (record {
        keys = detach_thread-keys thread s.bindings;
        ids = detach_thread-ids thread s.bindings;
        active = refl;
      })

  -- Releasing a thread changes no binding but for its status, however it ends.
  pub release-Same :
      (thread : Text) (s : Manager W)
      → Holds (λ u r. Same s r) (Same s) (release_thread_locked env thread s)
  unfolding release_thread_locked
  release-Same thread before =
      let s = sync_connection_generation env before in
      let e = sync-Same before in
      let foreign =
        not (elem thread s.live_thread_ids)
        && not (elem thread s.pending_release)
        && not (env.owns_thread thread s.world) in
      elim (Bool-cases foreign) [
        | inl y ↦ rw y e
        | inr n ↦ elim (Bool-cases (thread_in_use env thread s)) [
          | inl u ↦ rw (n, u) e
          | inr u ↦
              rw (n, u)
                (widen before s e (release_owned env thread s) (release_owned-Same thread s))
        ]
      ]
