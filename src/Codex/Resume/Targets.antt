-- ===== src/Codex/Resume/Targets.antt =====
-- What is to be resumed is a binding that is there, and asking for it changes no binding.
use chatgpt_web_oauth_mcp.Prelude.{
  ℕ, ◌≡◌, refl, sym, ap, inl, inr, ◌&&◌, ◌||◌, not, Option, none, some, [], ◌∷◌, In, Text, text_eq,
  elem, if-cases, Bool-cases, Result, ok, err, ◌>>=◌,
}
use chatgpt_web_oauth_mcp.Prelude.Dict.{Dict, get}
use chatgpt_web_oauth_mcp.FileSystem.{FilePath}
use chatgpt_web_oauth_mcp.Codex.{
  runtime_metadata_mismatch, runtime_not_found, same_sandbox, Sandbox, Binding, Code, Thread, World,
  Manager, Ending, lifted, checked, strip,
}
use chatgpt_web_oauth_mcp.Codex.Capacity.{ids_of}
use chatgpt_web_oauth_mcp.Codex.Keys.{keys_of, values_of}
use chatgpt_web_oauth_mcp.Codex.Updates.{get-In, get-own}
use chatgpt_web_oauth_mcp.Codex.Capacity.Limit.{
  Holds, after-Holds, Same, Same-refl, Same-trans, Sound, release-Same,
}
use chatgpt_web_oauth_mcp.Codex.Threads.{unless_code, verify_thread_metadata}
use chatgpt_web_oauth_mcp.Codex.Resume.{
  cwd_or, is_given, is_bound, sandbox_or, text_or_empty, Target, Resumed, find_thread, bound_target,
  unbound_target, target_of, thread_target, resume_target, resumed_as, same_thread, resume_answered,
  reattach_or_resume, finish_release,
}

pub find_thread-In :
    (thread : Text) (d : Dict Binding) {b : Binding}
    → find_thread thread d ≡ some b
    → In b.runtime_id (ids_of (values_of d))
unfolding find_thread
find_thread-In thread [] h = cc
find_thread-In thread ((k, c) ∷ d) {b} h = elim (Bool-cases (text_eq c.thread_id thread)) [
  | inl y ↦ let same : c ≡ b = cc (rw y at h) in inl (ap (λ (x : Binding). x.runtime_id) (sym same))
  | inr n ↦ inr (find_thread-In thread d {b = b} (rw n at h))
]

module _ {W : Type 0} where
  -- The binding of a target is one of those that are there.
  abbrev pub Known : Option Binding → Manager W → Type 0
  Known none s = Unit
  Known (some b) s = In b.runtime_id (keys_of s.bindings)

  pub Same-Known : (o : Option Binding) (s t : Manager W) → Same s t → Known o s → Known o t
  Same-Known none s t e h = tt
  Same-Known (some b) s t e h = rw (e.keys) h

  pub checked-Same :
      {A : Type 0} (s : Manager W) (answer : Result Code A)
      → Holds (λ (value : A) t. Same s t) (Same s) (checked s answer)
  checked-Same s (ok value) = Same-refl s
  checked-Same s (err code) = Same-refl s

  pub world-Same : (s : Manager W) (w : W) → Same s (record s { world = w })
  world-Same s w = record { keys = refl; ids = refl; active = refl }

-- What holds of a value that is returned.
abbrev pub OkHolds : {A : Type 0} → (A → Type 0) → Result Code A → Type 0
OkHolds P (ok value) = P value
OkHolds P (err code) = Unit

pub bind-OkHolds :
    {A B : Type 0} (P : B → Type 0) (m : Result Code A) (next : A → Result Code B)
    → ((value : A) → OkHolds P (next value))
    → OkHolds P (m >>= next)
bind-OkHolds P (ok value) next f = f value
bind-OkHolds P (err code) next f = tt

module _ {W : Type 0} (env : World W) where
  pub bound_target-Known :
      (w : W) (b : Binding) (cwd : Option FilePath) (sandbox : Option Sandbox) (s : Manager W)
      → In b.runtime_id (keys_of s.bindings)
      → OkHolds (λ (t : Target). Known t.existing s) (bound_target env w b cwd sandbox)
  unfolding bound_target
  bound_target-Known w b cwd sandbox s h =
      let own = sandbox_or b.sandbox sandbox in
      bind-OkHolds (λ (t : Target). Known t.existing s) (cwd_or env w b.cwd cwd) _
        (λ (c : FilePath).
          bind-OkHolds (λ (t : Target). Known t.existing s)
            (unless_code (env.path_eq c (env.resolve b.cwd)) runtime_metadata_mismatch) _
            (λ (u : Unit {0}).
              bind-OkHolds (λ (t : Target). Known t.existing s)
                (unless_code (same_sandbox own b.sandbox) runtime_metadata_mismatch) _
                (λ (v : Unit {0}). h)))

  pub unbound_target-Known :
      (w : W) (thread : Text) (cwd : Option FilePath) (sandbox : Option Sandbox) (s : Manager W)
      → OkHolds (λ (t : Target). Known t.existing s) (unbound_target env w thread cwd sandbox)
  unfolding unbound_target
  unbound_target-Known w thread (some cwd) (some sandbox) s =
      bind-OkHolds (λ (t : Target). Known t.existing s) (env.validate_cwd cwd w) _ (λ c. tt)
  unbound_target-Known w thread (some cwd) none s = tt
  unbound_target-Known w thread none sandbox s = tt

  pub target_of-Known :
      (w : W) (missing : Code) (o : Option Binding) (cwd : Option FilePath)
      (sandbox : Option Sandbox) (s : Manager W)
      → Known o s
      → OkHolds (λ (t : Target). Known t.existing s) (target_of env w missing o cwd sandbox)
  target_of-Known w missing none cwd sandbox s h = tt
  target_of-Known w missing (some b) cwd sandbox s h = bound_target-Known w b cwd sandbox s h

  pub thread_target-Known :
      (w : W) (thread : Text) (o : Option Binding) (cwd : Option FilePath)
      (sandbox : Option Sandbox) (s : Manager W)
      → Known o s
      → OkHolds (λ (t : Target). Known t.existing s) (thread_target env w thread o cwd sandbox)
  thread_target-Known w thread none cwd sandbox s h = unbound_target-Known w thread cwd sandbox s
  thread_target-Known w thread (some b) cwd sandbox s h = bound_target-Known w b cwd sandbox s h

  pub resume_target-Known :
      (limit : ℕ) (id thread : Option Text) (cwd : Option FilePath) (sandbox : Option Sandbox)
      (s : Manager W)
      → Sound limit s
      → OkHolds (λ (t : Target). Known t.existing s) (resume_target env id thread cwd sandbox s)
  unfolding resume_target
  resume_target-Known limit id thread cwd sandbox s h =
      if-cases (OkHolds (λ (t : Target). Known t.existing s))
        ((is_given id && is_given thread) || (not (is_given id) && not (is_given thread))) tt
        (if-cases (OkHolds (λ (t : Target). Known t.existing s)) (is_given id)
          (target_of-Known s.world runtime_not_found (get (text_or_empty env id) s.bindings) cwd
            sandbox s (by_id (get (text_or_empty env id) s.bindings) refl))
          (thread_target-Known s.world (strip (text_or_empty env thread))
            (find_thread (strip (text_or_empty env thread)) s.bindings) cwd sandbox s
            (by_thread (find_thread (strip (text_or_empty env thread)) s.bindings) refl)))
    where
      by_id : (o : Option Binding) → get (text_or_empty env id) s.bindings ≡ o → Known o s
      by_id none e = tt
      by_id (some b) e =
          rw (get-own (text_or_empty env id) s.bindings h.keyed.own e)
            (get-In (text_or_empty env id) s.bindings e)

      by_thread :
          (o : Option Binding)
          → find_thread (strip (text_or_empty env thread)) s.bindings ≡ o
          → Known o s
      by_thread none e = tt
      by_thread (some b) e =
          rw (h.keyed.own) at (find_thread-In (strip (text_or_empty env thread)) s.bindings e)

  -- Asking for the thread changes the world only.
  pub resumed_as-Same :
      (target : Target) (previous : Option Text) (s : Manager W) (result : Thread)
      → Holds (λ r t. Same s t) (Same s) (resumed_as env target previous s result)
  resumed_as-Same target previous s result =
      after-Holds (λ v t. Same s t) (λ r t. Same s t) (Same s)
        (checked s (verify_thread_metadata env result target.cwd target.sandbox)) _
        (checked-Same s (verify_thread_metadata env result target.cwd target.sandbox)) (λ v t e. e)

  pub lifted-Same :
      {A : Type 0} (s : Manager W) (answer : Result Code A × W)
      → Holds (λ (value : A) t. Same s t) (Same s) (lifted s answer)
  lifted-Same s (ok value, w) = world-Same s w
  lifted-Same s (err code, w) = world-Same s w

  pub same_thread-Same :
      (target : Target) (s : Manager W) (m : Ending W Resumed)
      → Holds (λ r t. Same s t) (Same s) m
      → Holds (λ r t. Same s t) (Same s) (same_thread env target m)
  same_thread-Same target s (err e, t) h = h
  same_thread-Same target s (ok r, t) h =
      if-cases (Holds (λ q u. Same s u) (Same s)) (text_eq r.thread_id target.thread_id) h h

  pub widen_any :
      {A : Type 0} (r s : Manager W)
      → Same r s
      → (m : Ending W A) → Holds (λ (v : A) t. Same s t) (Same s) m
      → Holds (λ (v : A) t. Same r t) (Same r) m
  widen_any r s e (ok v, t) h = Same-trans r s t e h
  widen_any r s e (err x, t) h = Same-trans r s t e h

  pub resume_answered-Same :
      (target : Target) (s : Manager W) (answer : Result Code Thread × W)
      → Holds (λ r t. Same s t) (Same s) (resume_answered env target s answer)
  resume_answered-Same target s (ok result, w) = same_thread-Same target s _ (
      widen_any s (record s { world = w }) (world-Same s w) _
        (resumed_as-Same target none (record s { world = w }) result))
  resume_answered-Same target s (err code, w) =
      let t : Manager W = record s { world = w } in
      if-cases (Holds (λ r u. Same s u) (Same s)) (env.is_no_rollout code)
        (widen_any s t (world-Same s w) _ (
          after-Holds (λ result r. Same t r) (λ r u. Same t u) (Same t)
            (lifted t (env.thread_start target.cwd target.sandbox w)) _
            (lifted-Same t (env.thread_start target.cwd target.sandbox w))
            (λ result r e.
              widen_any t r e _ (resumed_as-Same target (some target.thread_id) r result))))
        (world-Same s w)

  pub reattach_or_resume-Same :
      (target : Target) (s : Manager W)
      → Holds (λ r t. Same s t) (Same s) (reattach_or_resume env target s)
  unfolding reattach_or_resume
  reattach_or_resume-Same target s =
      if-cases (Holds (λ r t. Same s t) (Same s))
        (is_bound env target.existing
          && env.is_running s.world
          && elem target.thread_id s.live_thread_ids)
        (Same-refl s)
        (resume_answered-Same target s
          (env.thread_resume target.thread_id target.cwd target.sandbox s.world))

  pub finish_release-Same :
      (thread : Text) (s : Manager W)
      → Holds (λ u t. Same s t) (Same s) (finish_release env thread s)
  finish_release-Same thread s =
      if-cases (Holds (λ u t. Same s t) (Same s)) (elem thread s.pending_release)
        (release-Same env thread s) (Same-refl s)
