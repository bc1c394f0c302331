-- ===== src/Codex/Runtimes/Preserves.antt =====
-- What keeps the bindings sound: a binding replaced or added, a call of the world, a check.
use chatgpt_web_oauth_mcp.Prelude.{
  ℕ, ◌+◌, ◌≤◌, ◌≡◌, refl, ap, In, arith, Text, length, Result, ok, err,
}
use chatgpt_web_oauth_mcp.Prelude.Dict.{put, length-put-le}
use chatgpt_web_oauth_mcp.Codex.{Binding, Code, RuntimeError, Manager, Ending, lifted, checked}
use chatgpt_web_oauth_mcp.Codex.Capacity.{ids_of}
use chatgpt_web_oauth_mcp.Codex.Keys.{keys_of, values_of}
use chatgpt_web_oauth_mcp.Codex.Updates.{put-Keyed, In-put, length-put}
use chatgpt_web_oauth_mcp.Codex.Capacity.Limit.{Holds, Same, Same-Sound, Sound}
use chatgpt_web_oauth_mcp.Codex.Runtimes.{compensated, on_error}

module _ {W : Type 0} where
  -- The binding of a runtime that is there is replaced by another of the same runtime.
  pub replaced-Sound :
      (limit : ℕ) (k : Text) (b : Binding) (s t : Manager W)
      → Sound limit s
      → b.runtime_id ≡ k
      → In k (keys_of s.bindings)
      → t.bindings ≡ put k b s.bindings
      → t.active_requests ≡ s.active_requests
      → Sound limit t
  replaced-Sound limit k b s t h own there put_is active = record {
    keyed = rw put_is (put-Keyed k b s.bindings own h.keyed);
    bounded = rw put_is (omega (arith, length-put k b s.bindings there, h.bounded));
    active = λ j busy. rw put_is (In-put k j b s.bindings (h.active j (rw active at busy)));
  }

  -- A new binding, where there is room for it.
  pub added-Sound :
      (limit : ℕ) (k : Text) (b : Binding) (s t : Manager W)
      → Sound limit s
      → length s.bindings + 1 ≤ limit
      → b.runtime_id ≡ k
      → t.bindings ≡ put k b s.bindings
      → t.active_requests ≡ s.active_requests
      → Sound limit t
  added-Sound limit k b s t h room own put_is active = record {
    keyed = rw put_is (put-Keyed k b s.bindings own h.keyed);
    bounded = rw put_is (omega (arith, length-put-le k b s.bindings, room));
    active = λ j busy. rw put_is (In-put k j b s.bindings (h.active j (rw active at busy)));
  }

  -- The same bindings and requests are as sound.
  pub copied-Sound :
      (limit : ℕ) (s t : Manager W)
      → Sound limit s
      → t.bindings ≡ s.bindings
      → t.active_requests ≡ s.active_requests
      → Sound limit t
  copied-Sound limit s t h b a =
      Same-Sound limit s t
        (record { keys = ap keys_of b; ids = ap (λ d. ids_of (values_of d)) b; active = a }) h

  pub lifted-Sound :
      {A : Type 0} (limit : ℕ) (s : Manager W) (answer : Result Code A × W)
      → Sound limit s
      → Holds (λ (value : A) t. Sound limit t) (Sound limit) (lifted s answer)
  lifted-Sound limit s (ok value, w) h = copied-Sound limit s _ h refl refl
  lifted-Sound limit s (err code, w) h = copied-Sound limit s _ h refl refl

  pub checked-Sound :
      {A : Type 0} (limit : ℕ) (s : Manager W) (answer : Result Code A)
      → Sound limit s
      → Holds (λ (value : A) t. Sound limit t) (Sound limit) (checked s answer)
  checked-Sound limit s (ok value) h = h
  checked-Sound limit s (err code) h = h

  pub Same-Holds :
      (limit : ℕ) (s : Manager W) (m : Ending W (Unit {0}))
      → Sound limit s
      → Holds (λ u t. Same s t) (Same s) m
      → Holds (λ u t. Sound limit t) (Sound limit) m
  Same-Holds limit s (ok u, t) h e = Same-Sound limit s t e h
  Same-Holds limit s (err x, t) h e = Same-Sound limit s t e h

  pub compensated-Sound :
      (A : Type 0) (limit : ℕ) (thread : Text) (e : RuntimeError) (m : Ending W (Unit {0}))
      → Holds (λ u t. Sound limit t) (Sound limit) m
      → Holds (λ (value : A) t. Sound limit t) (Sound limit) (compensated thread e m)
  compensated-Sound A limit thread e (ok u, t) h = h
  compensated-Sound A limit thread e (err x, t) h = h

  pub on_error-Sound :
      {A : Type 0} (limit : ℕ) (m : Ending W A) (handle : RuntimeError → Manager W → Ending W A)
      → Holds (λ (value : A) t. Sound limit t) (Sound limit) m
      → ((e : RuntimeError) (t : Manager W)
          → Sound limit t
          → Holds (λ (value : A) r. Sound limit r) (Sound limit) (handle e t))
      → Holds (λ (value : A) t. Sound limit t) (Sound limit) (on_error m handle)
  on_error-Sound limit (ok value, t) handle h f = h
  on_error-Sound limit (err e, t) handle h f = f e t h
