-- ===== src/Codex/Resume/Sounds.antt =====
-- Resuming and acquiring keep the bindings sound.
use chatgpt_web_oauth_mcp.Prelude.{
  ℕ, ◌≡◌, refl, false, Option, none, some, Text, if-cases, Result, ok, err,
}
use chatgpt_web_oauth_mcp.Prelude.Dict.{put}
use chatgpt_web_oauth_mcp.FileSystem.{FilePath}
use chatgpt_web_oauth_mcp.Codex.{
  Sandbox, Binding, Code, RuntimeError, World, Settings, Manager, Ending, checked,
}
use chatgpt_web_oauth_mcp.Codex.Release.{
  add_member, sync_connection_generation, release_thread_locked,
}
use chatgpt_web_oauth_mcp.Codex.Capacity.{save_bindings, ensure_capacity_locked}
use chatgpt_web_oauth_mcp.Codex.Capacity.Limit.{
  Holds, after-Holds, Same, Same-Sound, Sound, release-Same, sync-Same,
}
use chatgpt_web_oauth_mcp.Codex.Capacity.Eviction.{
  save_bindings-Holds, HasRoom, ensure_capacity_locked-HasRoom,
}
use chatgpt_web_oauth_mcp.Codex.Runtimes.{ensure_store, compensate_allocation}
use chatgpt_web_oauth_mcp.Codex.Runtimes.Preserves.{
  replaced-Sound, added-Sound, copied-Sound, checked-Sound, Same-Holds, compensated-Sound,
  on_error-Sound,
}
use chatgpt_web_oauth_mcp.Codex.Runtimes.Sounds.{
  collect_expired_idle-Stays, open_runtime-Stays, sync-Sound, Stays, ensure_store-Stays, chain,
}
use chatgpt_web_oauth_mcp.Codex.Resume.{
  collect_expired_idle, open_runtime, normalize_name, required_name, opened_as, open_or_resume,
  acquire_runtime, Target, Resumed, resume_target, reattach_or_resume, resumed_binding,
  finish_release, release_previous, after_failure, save_resumed, resume_runtime,
}
use chatgpt_web_oauth_mcp.Codex.Resume.Targets.{
  Same-Known, OkHolds, resume_target-Known, reattach_or_resume-Same, finish_release-Same, Known,
}

module _ {W : Type 0} (env : World W) (settings : Settings) where
  open settings use {max_runtimes}

  -- Sound, and with the binding of the target.
  abbrev Ready : Option Binding → Manager W → Type 0
  Ready o s = Sound max_runtimes s × Known o s

  Same-Ready :
      (A : Type 0) (o : Option Binding) (s : Manager W) (m : Ending W A)
      → Ready o s
      → Holds (λ (v : A) t. Same s t) (Same s) m
      → Holds (λ (v : A) t. Ready o t) (Sound max_runtimes) m
  Same-Ready A o s (ok v, t) h e = (Same-Sound max_runtimes s t e h.0, Same-Known o s t e h.1)
  Same-Ready A o s (err x, t) h e = Same-Sound max_runtimes s t e h.0

  checked-Ready :
      (s : Manager W) (answer : Result Code Target)
      → Sound max_runtimes s
      → OkHolds (λ (t : Target). Known t.existing s) answer
      → Holds
          (λ (target : Target) t. Ready target.existing t)
          (Sound max_runtimes)
          (checked s answer)
  checked-Ready s (ok target) h k = (h, k)
  checked-Ready s (err code) h k = h

  after_failure-Stays :
      (r : Resumed) (e : RuntimeError) (s : Manager W)
      → Sound max_runtimes s
      → Stays env settings (after_failure env settings r e s)
  unfolding compensate_allocation
  after_failure-Stays r e s h = if-cases (Stays env settings) r.reused_connection h (
      compensated-Sound Binding max_runtimes r.thread_id e (release_thread_locked env r.thread_id s)
        (Same-Holds max_runtimes s (release_thread_locked env r.thread_id s) h
          (release-Same env r.thread_id s)))

  -- The binding that is saved is that of the target, or a new one.
  abbrev Replaces : Option Binding → Binding → Type 0
  Replaces none b = Unit
  Replaces (some existing) b = b.runtime_id ≡ existing.runtime_id

  save_resumed-Stays :
      (now : ℕ) (o : Option Binding) (b : Binding) (r : Resumed) (s : Manager W)
      → Ready o s
      → Replaces o b
      → Stays env settings (save_resumed env settings now o b r s)
  unfolding save_resumed
  save_resumed-Stays now none b r s h own =
      on_error-Sound max_runtimes _ (after_failure env settings r)
        (after-Holds (λ ids t. HasRoom env settings max_runtimes 1 t) (λ v t. Sound max_runtimes t)
          (Sound max_runtimes) (ensure_capacity_locked env settings now 1 s) _
          (ensure_capacity_locked-HasRoom env settings now 1 s h.0)
          (λ ids t room.
            chain env settings
              (save_bindings env (put b.runtime_id b t.bindings)
                (record t { live_thread_ids = add_member r.thread_id t.live_thread_ids }))
              _
              (save_bindings-Holds env (Sound max_runtimes) (Sound max_runtimes)
                (put b.runtime_id b t.bindings)
                (record t { live_thread_ids = add_member r.thread_id t.live_thread_ids })
                (λ q put_is active.
                  added-Sound max_runtimes b.runtime_id b t q room.sound room.room refl put_is
                    active)
                (λ q same active. copied-Sound max_runtimes t q room.sound same active))
              (λ u q sound. sound)))
        (after_failure-Stays r)
  save_resumed-Stays now (some existing) b r s h own =
      on_error-Sound max_runtimes _ (after_failure env settings r)
        (chain env settings
          (save_bindings env (put b.runtime_id b s.bindings)
            (record s { live_thread_ids = add_member r.thread_id s.live_thread_ids }))
          _
          (save_bindings-Holds env (Sound max_runtimes) (Sound max_runtimes)
            (put b.runtime_id b s.bindings)
            (record s { live_thread_ids = add_member r.thread_id s.live_thread_ids })
            (λ q put_is active.
              replaced-Sound max_runtimes b.runtime_id b s q h.0 refl (rw own (h.1)) put_is active)
            (λ q same active. copied-Sound max_runtimes s q h.0 same active))
          (λ u q sound. sound))
        (after_failure-Stays r)

  replaces :
      (now : ℕ) (fresh : Text) (existing : Option Binding) (thread : Text) (cwd : FilePath)
      (sandbox : Sandbox) (r : Resumed)
      → Replaces existing (
          resumed_binding env now fresh
            (record { existing = existing; thread_id = thread; cwd = cwd; sandbox = sandbox })
            r)
  replaces now fresh none thread cwd sandbox r = tt
  replaces now fresh (some b) thread cwd sandbox r = refl

  release_previous-Stays :
      (o : Option Text) (s : Manager W)
      → Sound max_runtimes s
      → Stays env settings (release_previous env o s)
  release_previous-Stays none s h = h
  release_previous-Stays (some thread) s h =
      Same-Holds max_runtimes s (release_thread_locked env thread s) h (release-Same env thread s)

  synced-Ready :
      (o : Option Binding) (s : Manager W) → Ready o s → Ready o (sync_connection_generation env s)
  synced-Ready o s h = (
    sync-Sound env settings s h.0,
    Same-Known o s (sync_connection_generation env s) (sync-Same env s) h.1,
  )

  pub resume_runtime-Stays :
      (now : ℕ) (fresh : Text) (id thread : Option Text) (cwd : Option FilePath)
      (sandbox : Option Sandbox) (s : Manager W)
      → Sound max_runtimes s
      → Stays env settings (resume_runtime env settings now fresh id thread cwd sandbox s)
  unfolding resume_runtime
  resume_runtime-Stays now fresh id thread cwd sandbox before h =
      chain env settings (ensure_store env settings before) _
        (ensure_store-Stays env settings before h)
        (λ u s h0.
          after-Holds (λ target t. Ready target.existing t) (λ v t. Sound max_runtimes t)
            (Sound max_runtimes) (checked s (resume_target env id thread cwd sandbox s)) _
            (checked-Ready s (resume_target env id thread cwd sandbox s) h0
              (resume_target-Known env max_runtimes id thread cwd sandbox s h0))
            (λ target s1 h1.
              let o = target.existing in
              let s1' = sync_connection_generation env s1 in
              after-Holds (λ v t. Ready o t) (λ v t. Sound max_runtimes t) (Sound max_runtimes)
                (finish_release env target.thread_id s1') _
                (Same-Ready (Unit {0}) o s1' (finish_release env target.thread_id s1')
                  (synced-Ready o s1 h1) (finish_release-Same env target.thread_id s1'))
                (λ released s2 h2.
                  after-Holds (λ v t. Ready o t) (λ v t. Sound max_runtimes t) (Sound max_runtimes)
                    (reattach_or_resume env target s2) _
                    (Same-Ready Resumed o s2 (reattach_or_resume env target s2) h2
                      (reattach_or_resume-Same env target s2))
                    (λ r s3 h3.
                      chain env settings
                        (save_resumed env settings now o (resumed_binding env now fresh target r) r
                          (sync_connection_generation env s3))
                        _
                        (save_resumed-Stays now o (resumed_binding env now fresh target r) r
                          (sync_connection_generation env s3) (synced-Ready o s3 h3)
                          (replaces now fresh target.existing target.thread_id target.cwd
                            target.sandbox r))
                        (λ binding s4 h4.
                          chain env settings (release_previous env r.previous_thread_id s4) _
                            (release_previous-Stays r.previous_thread_id s4 h4)
                            (λ freed s5 h5. h5))))))

  open_or_resume-Stays :
      (during : Manager W → Manager W)
      → ((s : Manager W) → Sound max_runtimes s → Sound max_runtimes (during s))
      → (now : ℕ) (fresh : Text) (cwd : FilePath) (sandbox : Sandbox) (name : Text)
        (o : Option Binding) (s : Manager W)
      → Sound max_runtimes s
      → Stays env settings (open_or_resume env settings during now fresh cwd sandbox name o s)
  open_or_resume-Stays during keeps now fresh cwd sandbox name none s h =
      relabelled (open_runtime env settings during now fresh cwd sandbox (some name) s)
        (open_runtime-Stays env settings during keeps now fresh cwd sandbox (some name) s h)
    where
      relabelled :
          (m : Ending W Binding)
          → Stays env settings m
          → Stays env settings (opened_as env settings m)
      relabelled (ok b, t) x = x
      relabelled (err e, t) x = x
  open_or_resume-Stays during keeps now fresh cwd sandbox name (some b) s h =
      resume_runtime-Stays now fresh (some b.runtime_id) none (some cwd) (some sandbox) s h

  pub acquire_runtime-Stays :
      (during : Manager W → Manager W)
      → ((s : Manager W) → Sound max_runtimes s → Sound max_runtimes (during s))
      → (now : ℕ) (fresh : Text) (cwd : FilePath) (sandbox : Sandbox) (name : Option Text)
        (s : Manager W)
      → Sound max_runtimes s
      → Stays env settings (acquire_runtime env settings during now fresh cwd sandbox name s)
  unfolding acquire_runtime
  acquire_runtime-Stays during keeps now fresh cwd sandbox name before h =
      chain env settings (ensure_store env settings before) _
        (ensure_store-Stays env settings before h)
        (λ u s h0.
          chain env settings (checked s (env.validate_cwd cwd s.world)) _
            (checked-Sound max_runtimes s (env.validate_cwd cwd s.world) h0)
            (λ target s1 h1.
              chain env settings (checked s1 (required_name env settings (normalize_name name))) _
                (checked-Sound max_runtimes s1 (required_name env settings (normalize_name name))
                  h1)
                (λ normalized s2 h2.
                  chain env settings (collect_expired_idle env settings now false s2) _
                    (collect_expired_idle-Stays env settings now false s2 h2)
                    (λ expired s3 h3.
                      open_or_resume-Stays during keeps now fresh target sandbox normalized _ s3
                        h3))))
