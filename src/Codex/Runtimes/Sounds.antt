-- ===== src/Codex/Runtimes/Sounds.antt =====
-- Every call keeps the bindings sound.
use chatgpt_web_oauth_mcp.Prelude.{
  if-cases, ℕ, ◌+◌, ◌-◌, ◌≡◌, refl, inl, inr, Bool, true, false, not, Option, none, some, List, [],
  ◌∷◌, In, Text, text_eq, if◌then◌else◌, Bool-cases, Option-cases, ok, err,
}
use chatgpt_web_oauth_mcp.Prelude.Dict.{get, put}
use chatgpt_web_oauth_mcp.FileSystem.{FilePath}
use chatgpt_web_oauth_mcp.Codex.{
  Sandbox, detached, Binding, Code, World, Settings, Manager, Ending, after, lifted, checked,
  is_ready,
}
use chatgpt_web_oauth_mcp.Codex.Release.{
  add_member, requests_of, sync_connection_generation, thread_in_use, release_thread_locked,
}
use chatgpt_web_oauth_mcp.Codex.Capacity.{unbound, union, save_bindings, ensure_capacity_locked}
use chatgpt_web_oauth_mcp.Codex.Keys.{keys_of}
use chatgpt_web_oauth_mcp.Codex.Updates.{
  get-In, get-own, requests_of-put, requests_of-put_remaining,
}
use chatgpt_web_oauth_mcp.Codex.Capacity.Limit.{
  widen, Holds, after-Holds, Same, Same-refl, Same-Sound, Sound, release-Same, sync-Same,
}
use chatgpt_web_oauth_mcp.Codex.Capacity.Room.{collect-Sound}
use chatgpt_web_oauth_mcp.Codex.Capacity.Eviction.{
  save_bindings-Holds, HasRoom, ensure_capacity_locked-HasRoom,
}
use chatgpt_web_oauth_mcp.Codex.Threads.{normalize_name, verify_thread_metadata}
use chatgpt_web_oauth_mcp.Codex.Runtimes.{
  if_loaded, store_answer, found, meanwhile, detached_binding, ensure_store, compensate_allocation,
  touch, active_binding, begin_request, end_request, bind_thread, open_runtime, close_runtime,
  release_threads, release_orphans, noted, collect_expired_idle,
}
use chatgpt_web_oauth_mcp.Codex.Runtimes.Preserves.{
  replaced-Sound, added-Sound, copied-Sound, lifted-Sound, checked-Sound, Same-Holds,
  compensated-Sound, on_error-Sound,
}

module _ {W : Type 0} (env : World W) (settings : Settings) where
  open settings use {max_runtimes}

  -- Sound whatever the call ends with.
  abbrev pub Stays : {A : Type 0} → Ending W A → Type 0
  Stays m = Holds (λ value t. Sound max_runtimes t) (Sound max_runtimes) m

  pub ensure_store-Stays :
      (s : Manager W) → Sound max_runtimes s → Stays (ensure_store env settings s)
  ensure_store-Stays s h = answer-Stays s.load_error
    where
      answer-Stays : (o : Option Code) → Stays (store_answer o s)
      answer-Stays none = h
      answer-Stays (some code) = h

  pub sync-Sound :
      (s : Manager W) → Sound max_runtimes s → Sound max_runtimes (sync_connection_generation env s)
  sync-Sound s h = Same-Sound max_runtimes s (sync_connection_generation env s) (sync-Same env s) h

  pub touch-Sound :
      (now : ℕ) (id : Text) (count : Option ℕ) (s : Manager W)
      → Sound max_runtimes s
      → Sound max_runtimes (touch env settings now id count s)
  unfolding touch
  touch-Sound now id count s h = elim (Option-cases (get id s.bindings)) [
    | inl e ↦ rw (touch, e) h
    | inr (b, e) ↦
        rw (touch, e)
          (replaced-Sound max_runtimes id _ s _ h (get-own id s.bindings h.keyed.own e)
            (get-In id s.bindings e) refl refl)
  ]

  bind_thread-Stays :
      (now : ℕ) (id : Text) (b : Binding) (s : Manager W)
      → b.runtime_id ≡ id
      → Sound max_runtimes s
      → Stays (bind_thread env settings now id b s)
  unfolding bind_thread compensate_allocation
  bind_thread-Stays now id b s own h =
      on_error-Sound max_runtimes _ (compensate_allocation env settings b.thread_id)
        (after-Holds (λ ids t. HasRoom env settings max_runtimes 1 t)
          (λ value t. Sound max_runtimes t) (Sound max_runtimes)
          (ensure_capacity_locked env settings now 1 s) _
          (ensure_capacity_locked-HasRoom env settings now 1 s h)
          (λ ids t room.
            after-Holds (λ u r. Sound max_runtimes r) (λ value r. Sound max_runtimes r)
              (Sound max_runtimes)
              (save_bindings env (put id b t.bindings)
                (record t { live_thread_ids = add_member b.thread_id t.live_thread_ids }))
              _
              (save_bindings-Holds env (Sound max_runtimes) (Sound max_runtimes)
                (put id b t.bindings)
                (record t { live_thread_ids = add_member b.thread_id t.live_thread_ids })
                (λ r put_is active.
                  added-Sound max_runtimes id b t r room.sound room.room own put_is active)
                (λ r same active. copied-Sound max_runtimes t r room.sound same active))
              (λ u r sound. sound)))
        (λ e t sound.
          compensated-Sound Binding max_runtimes b.thread_id e
            (release_thread_locked env b.thread_id t)
            (Same-Holds max_runtimes t (release_thread_locked env b.thread_id t) sound
              (release-Same env b.thread_id t)))

  pub chain :
      {A B : Type 0} (m : Ending W A) (next : A → Manager W → Ending W B)
      → Stays m
      → ((value : A) (t : Manager W) → Sound max_runtimes t → Stays (next value t))
      → Stays (after m next)
  chain m next h step =
      after-Holds (λ value t. Sound max_runtimes t) (λ value t. Sound max_runtimes t)
        (Sound max_runtimes) m next h step

  room-Stays :
      (now : ℕ) (s : Manager W)
      → Sound max_runtimes s
      → Stays (ensure_capacity_locked env settings now 1 s)
  room-Stays now s h =
      forget-room (ensure_capacity_locked env settings now 1 s)
        (ensure_capacity_locked-HasRoom env settings now 1 s h)
    where
      forget-room :
          (m : Ending W (List Text))
          → Holds (λ ids t. HasRoom env settings max_runtimes 1 t) (Sound max_runtimes) m
          → Stays m
      forget-room (ok ids, t) r = r.sound
      forget-room (err e, t) r = r

  meanwhile-Stays :
      {A : Type 0} (during : Manager W → Manager W)
      → ((s : Manager W) → Sound max_runtimes s → Sound max_runtimes (during s))
      → (m : Ending W A) → Stays m
      → Stays (meanwhile during m)
  meanwhile-Stays during keeps (ok v, s) h = keeps s h
  meanwhile-Stays during keeps (err e, s) h = keeps s h

  pub open_runtime-Stays :
      (during : Manager W → Manager W)
      → ((s : Manager W) → Sound max_runtimes s → Sound max_runtimes (during s))
      → (now : ℕ) (fresh : Text) (cwd : FilePath) (sandbox : Sandbox) (name : Option Text)
        (s : Manager W)
      → Sound max_runtimes s
      → Stays (open_runtime env settings during now fresh cwd sandbox name s)
  unfolding open_runtime
  open_runtime-Stays during keeps now fresh cwd sandbox name s h =
      chain (ensure_store env settings s) _ (ensure_store-Stays s h) (λ u s0 h0.
        chain (checked s0 (env.validate_cwd cwd s0.world)) _
          (checked-Sound max_runtimes s0 (env.validate_cwd cwd s0.world) h0)
          (λ target s1 h1.
            chain (checked s1 (normalize_name name)) _
              (checked-Sound max_runtimes s1 (normalize_name name) h1)
              (λ normalized s2 h2.
                chain (ensure_capacity_locked env settings now 1 s2) _ (room-Stays now s2 h2)
                  (λ ids s3 h3.
                    chain (meanwhile during (lifted s3 (env.thread_start target sandbox s3.world)))
                      _
                      (meanwhile-Stays during keeps
                        (lifted s3 (env.thread_start target sandbox s3.world))
                        (lifted-Sound max_runtimes s3 (env.thread_start target sandbox s3.world)
                          h3))
                      (λ result s4 h4.
                        chain (checked s4 (verify_thread_metadata env result target sandbox)) _
                          (checked-Sound max_runtimes s4
                            (verify_thread_metadata env result target sandbox) h4)
                          (λ thread s5 h5.
                            bind_thread-Stays now fresh _ (sync_connection_generation env s5) refl
                              (sync-Sound s5 h5)))))))

  -- The binding that a call finds is that of the runtime.
  abbrev Finds : Text → Binding → Manager W → Type 0
  Finds id b s = Sound max_runtimes s × (b.runtime_id ≡ id) × In id (keys_of s.bindings)

  found-Stays :
      {A : Type 0} (id : Text) (s : Manager W) (next : Binding → Ending W A)
      (P : A → Manager W → Type 0)
      → Sound max_runtimes s
      → ((b : Binding) → Finds id b s → Holds P (Sound max_runtimes) (next b))
      → Holds P (Sound max_runtimes) (found (get id s.bindings) s next)
  found-Stays id s next P h f = elim (Option-cases (get id s.bindings)) [
    | inl e ↦ rw e h
    | inr (b, e) ↦ rw e (f b (h, get-own id s.bindings h.keyed.own e, get-In id s.bindings e))
  ]

  active_binding-Finds :
      (id : Text) (s : Manager W)
      → Sound max_runtimes s
      → Holds (λ b t. Finds id b t) (Sound max_runtimes) (active_binding env settings id s)
  unfolding active_binding
  active_binding-Finds id before h =
      after-Holds (λ u t. Sound max_runtimes t) (λ b t. Finds id b t) (Sound max_runtimes)
        (ensure_store env settings before) _ (ensure_store-Stays before h)
        (λ u s sound.
          found-Stays id s _ (λ b t. Finds id b t) sound
            (λ b finds. elim (Bool-cases (not (env.is_running s.world))) [
              | inl y ↦ rw y (
                  replaced-Sound max_runtimes id (record b { status = detached }) s _ sound finds.1
                    finds.2 refl refl)
              | inr n ↦ elim (Bool-cases (is_ready b.status)) [
                | inl y ↦ rw (n, y) finds
                | inr y ↦ rw (n, y) sound
              ]
            ]))

  pub begin_request-Stays :
      (id thread : Text) (s : Manager W)
      → Sound max_runtimes s
      → Stays (begin_request env settings id thread s)
  unfolding begin_request
  begin_request-Stays id thread before h =
      after-Holds (λ b t. Finds id b t) (λ u t. Sound max_runtimes t) (Sound max_runtimes)
        (active_binding env settings id before) _ (active_binding-Finds id before h)
        (λ b s finds. elim (Bool-cases (text_eq b.thread_id thread)) [
          | inl y ↦ rw y (record {
            keyed = finds.0.keyed;
            bounded = finds.0.bounded;
            active = λ k busy.
                elim (requests_of-put id k (requests_of s.active_requests id + 1) s.active_requests
                  busy) [ inl same ↦ rw same finds.2 | inr other ↦ finds.0.active k other ];
          })
          | inr n ↦ rw n (finds.0)
        ])

  pub end_request-Sound :
      (now : ℕ) (id : Text) (s : Manager W)
      → Sound max_runtimes s
      → Sound max_runtimes (end_request env settings now id s)
  unfolding end_request
  end_request-Sound now id before h =
      let s = touch env settings now id none before in
      let t = touch-Sound now id none before h in
      record {
        keyed = t.keyed;
        bounded = t.bounded;
        active = λ k busy. t.active k (
            requests_of-put_remaining id k (requests_of s.active_requests id - 1) s.active_requests
              refl busy);
      }

  pub close_runtime-Stays :
      (now : ℕ) (id : Text) (release_resources : Bool) (s : Manager W)
      → Sound max_runtimes s
      → Stays (close_runtime env settings now id release_resources s)
  unfolding close_runtime
  close_runtime-Stays now id release_resources before h =
      chain (ensure_store env settings before) _ (ensure_store-Stays before h) (λ u s sound.
        found-Stays id s _ (λ b t. Sound max_runtimes t) sound
          (λ b finds. elim (Bool-cases (thread_in_use env b.thread_id s)) [
            | inl y ↦ rw y sound
            | inr n ↦
                let m : Ending W (Unit {0}) =
                  if release_resources
                  then release_thread_locked env b.thread_id s
                  else (ok tt, s) in
                rw n (
                  after-Holds (λ u t. Finds id b t) (λ d t. Sound max_runtimes t)
                    (Sound max_runtimes) m _
                    (released s id b finds m (
                      if-cases (Holds (λ u t. Same s t) (Same s)) release_resources
                        (release-Same env b.thread_id s) (Same-refl s)))
                    (λ u t kept.
                      chain (save_bindings env (put id (detached_binding now b) t.bindings) t) _
                        (save_bindings-Holds env (Sound max_runtimes) (Sound max_runtimes)
                          (put id (detached_binding now b) t.bindings) t
                          (λ r put_is active.
                            replaced-Sound max_runtimes id (detached_binding now b) t r kept.0
                              kept.1 kept.2 put_is active)
                          (λ r same active. copied-Sound max_runtimes t r kept.0 same active))
                        (λ saved r x. x)))
          ]))
    where
      released :
          (s : Manager W) (id : Text) (b : Binding)
          → Finds id b s
          → (m : Ending W (Unit {0})) → Holds (λ u t. Same s t) (Same s) m
          → Holds (λ u t. Finds id b t) (Sound max_runtimes) m
      released s id b finds (ok u, t) e =
          (Same-Sound max_runtimes s t e finds.0, finds.1, rw (e.keys) (finds.2))
      released s id b finds (err x, t) e = Same-Sound max_runtimes s t e finds.0

  release_threads-Same :
      (threads : List Text) (s : Manager W)
      → Holds (λ u t. Same s t) (Same s) (release_threads env settings threads s)
  unfolding release_threads
  release_threads-Same [] s = Same-refl s
  release_threads-Same (thread ∷ threads) s =
      after-Holds (λ u t. Same s t) (λ u t. Same s t) (Same s) (release_thread_locked env thread s)
        _ (release-Same env thread s)
        (λ u t e.
          widen s t e (release_threads env settings threads t) (release_threads-Same threads t))

  release_orphans-Stays :
      (s : Manager W) → Sound max_runtimes s → Stays (release_orphans env settings s)
  unfolding release_orphans
  release_orphans-Stays s h =
      chain (lifted s (env.cleanup_abandoned_threads s.world)) _
        (lifted-Sound max_runtimes s (env.cleanup_abandoned_threads s.world) h)
        (λ u t sound.
          let orphans = unbound t.bindings (union t.live_thread_ids t.pending_release) in
          Same-Holds max_runtimes t (release_threads env settings orphans t) sound
            (release_threads-Same orphans t))

  pub collect_expired_idle-Stays :
      (now : ℕ) (suppress_errors : Bool) (s : Manager W)
      → Sound max_runtimes s
      → Stays (collect_expired_idle env settings now suppress_errors s)
  unfolding collect_expired_idle
  collect_expired_idle-Stays now suppress_errors s h = loaded s.load_error suppress_errors _ (
      chain
        (noted env settings suppress_errors
          (release_orphans env settings (sync_connection_generation env s)))
        _
        (noted-Stays suppress_errors
          (release_orphans env settings (sync_connection_generation env s))
          (release_orphans-Stays (sync_connection_generation env s) (sync-Sound s h)))
        (λ u t sound. collect-Sound env settings max_runtimes now suppress_errors t sound))
    where
      loaded :
          (o : Option Code) (suppress : Bool) (m : Ending W (List Text))
          → Stays m
          → Stays (if_loaded o suppress s m)
      loaded none suppress m x = x
      loaded (some code) true m x = h
      loaded (some code) false m x = h

      noted-Stays :
          (suppress : Bool) (m : Ending W (Unit {0}))
          → Stays m
          → Stays (noted env settings suppress m)
      noted-Stays suppress (ok u, t) x = x
      noted-Stays true (err e, t) x = copied-Sound max_runtimes t _ x refl refl
      noted-Stays false (err e, t) x = copied-Sound max_runtimes t _ x refl refl
