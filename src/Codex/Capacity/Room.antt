-- ===== src/Codex/Capacity/Room.antt =====
-- Making room for a binding.
use chatgpt_web_oauth_mcp.Prelude.{
  ℕ, suc, ◌<◌, ◌≡◌, refl, ap, inl, inr, Bool, true, false, some, List, [], ◌∷◌, All, In, arith,
  Text, length, Bool-cases, if-cases, Result, ok, err,
}
use chatgpt_web_oauth_mcp.Prelude.Dict.{Dict}
use chatgpt_web_oauth_mcp.Codex.{Binding, Code, World, Settings, Manager, Ending}
use chatgpt_web_oauth_mcp.Codex.Release.{
  requests_of, has_active, thread_in_use, release_thread_locked,
}
use chatgpt_web_oauth_mcp.Codex.Capacity.{
  without_ids, without_ids, without_ids, without_ids, without_ids, without_ids, bindings_where,
  ids_of, without_ids, is_empty, released_or_kept, release_expired, finish_collection, is_expired,
  collect_expired_idle_locked,
}
use chatgpt_web_oauth_mcp.Codex.Keys.{keys_of, without_ids-TakenOut}
use chatgpt_web_oauth_mcp.Codex.Selection.{
  Some, stop, keep, skip, Some-nil, Some-All, bindings_where-Some, bindings_where-All,
  has_active_idle,
}
use chatgpt_web_oauth_mcp.Codex.Capacity.Limit.{
  Holds, Same, Same-refl, Same-trans, Same-Sound, Sound, release-Same,
}

-- Runtimes without a request in progress.
abbrev pub Idle : Dict ℕ → Binding → Type 0
Idle active b = requests_of active b.runtime_id ≡ 0

Idle-In :
    (active : Dict ℕ) (bs : List Binding) (k : Text)
    → All (Idle active) bs
    → In k (ids_of bs)
    → requests_of active k ≡ 0
Idle-In active [] k h i = absurd i
Idle-In active (b ∷ bs) k h (inl e) = rw e (h.0)
Idle-In active (b ∷ bs) k h (inr r) = Idle-In active bs k h.1 r

module _ {W : Type 0} where
  -- Bindings of idle runtimes can be taken out.
  pub without_ids-Sound :
      (limit : ℕ) (bs : List Binding) (s : Manager W)
      → Sound limit s
      → All (Idle s.active_requests) bs
      → (t : Manager W) → t.bindings ≡ without_ids (ids_of bs) s.bindings
      → t.active_requests ≡ s.active_requests
      → Sound limit t
  without_ids-Sound limit bs s h idle t left same =
      let w = without_ids-TakenOut (ids_of bs) s.bindings h.keyed in
      record {
        keyed = rw left (w.keyed);
        bounded = rw left (omega (arith, w.fewer, h.bounded));
        active = λ k busy.
            let b : 0 < requests_of s.active_requests k = rw same at busy in
            rw left (
              w.stays k (λ i. let z = Idle-In s.active_requests bs k idle i in absurd (omega arith))
                (h.active k b));
      }

All-both :
    (P Q R : Binding → Type 0) (bs : List Binding)
    → ((b : Binding) → P b → Q b → R b)
    → All P bs
    → All Q bs
    → All R bs
All-both P Q R [] f h k = tt
All-both P Q R (b ∷ bs) f h k = (f b h.0 k.0, All-both P Q R bs f h.1 k.1)

pub All-ids :
    (d : Dict Binding) (bs : List Binding)
    → ((k : Text) → In k (ids_of bs) → In k (keys_of d))
    → All (λ k. In k (keys_of d)) (ids_of bs)
All-ids d [] f = tt
All-ids d (b ∷ bs) f = (f b.runtime_id (inl refl), All-ids d bs (λ k r. f k (inr r)))

pub length-ids_of : (bs : List Binding) → length (ids_of bs) ≡ length bs
length-ids_of [] = refl
length-ids_of (b ∷ bs) = ap suc (length-ids_of bs)

module _ {W : Type 0} (env : World W) where
  -- Bindings whose test says that no request uses the thread are idle.
  pub where-Idle :
      (test : Binding → Bool) (s : Manager W)
      → ((b : Binding)
          → test b ≡ true
          → has_active b.thread_id s.active_requests s.bindings ≡ false)
      → All (Idle s.active_requests) (bindings_where test s.bindings)
  where-Idle test s unused =
      All-both (λ b. test b ≡ true)
        (λ b.
          has_active b.thread_id s.active_requests s.bindings ≡ false
          → requests_of s.active_requests b.runtime_id ≡ 0)
        (Idle s.active_requests) (bindings_where test s.bindings) (λ b h f. f (unused b h))
        (bindings_where-All test s.bindings)
        (Some-All
          (λ b.
            has_active b.thread_id s.active_requests s.bindings ≡ false
            → requests_of s.active_requests b.runtime_id ≡ 0)
          (bindings_where-Some test s.bindings) (has_active_idle s.active_requests s.bindings))

  -- The loop over the expired bindings releases some of them.
  record Picked (expired : List Binding) (s : Manager W) (r : List Binding × Manager W)
      : Type 0 where
    pub some_of : Some r.0 expired
    pub same : Same s r.1

  released_or_kept-Picked :
      (b : Binding) (expired : List Binding) (s : Manager W) (m : Ending W (Unit {0}))
      (next : Manager W → List Binding × Manager W)
      → Holds (λ u t. Same s t) (Same s) m
      → ((t : Manager W) → Picked expired t (next t))
      → Picked (b ∷ expired) s (released_or_kept env b m next)
  released_or_kept-Picked b expired s (ok u, t) next h step = record {
    some_of = keep (step t).some_of;
    same = Same-trans s t (next t).1 h (step t).same;
  }
  released_or_kept-Picked b expired s (err e, t) next h step = record {
    some_of = skip (step t).some_of;
    same = Same-trans s t (next t).1 h (step t).same;
  }

  release_expired-Picked :
      (expired : List Binding) (s : Manager W) → Picked expired s (release_expired env expired s)
  unfolding release_expired
  release_expired-Picked [] s = record { some_of = stop; same = Same-refl s }
  release_expired-Picked (b ∷ expired) s =
      if-cases (Picked (b ∷ expired) s) s.gc_stop
        (record { some_of = Some-nil (b ∷ expired); same = Same-refl s })
        (released_or_kept-Picked b expired s (release_thread_locked env b.thread_id s)
          (release_expired env expired) (release-Same env b.thread_id s)
          (release_expired-Picked expired))

  finish_collection-Sound :
      (limit : ℕ) (suppress_errors : Bool) (expired : List Binding) (s : Manager W)
      (answer : Result Code (Unit {0}) × W)
      → Sound limit s
      → All (Idle s.active_requests) expired
      → Holds
          (λ ids t. Sound limit t)
          (Sound limit)
          (finish_collection env suppress_errors expired
            (without_ids (ids_of expired) s.bindings)
            s
            answer)
  unfolding finish_collection
  finish_collection-Sound limit true expired s (err code, w) h idle = record {
    keyed = h.keyed;
    bounded = h.bounded;
    active = h.active;
  }
  finish_collection-Sound limit false expired s (err code, w) h idle = record {
    keyed = h.keyed;
    bounded = h.bounded;
    active = h.active;
  }
  finish_collection-Sound limit suppress_errors expired s (ok u, w) h idle =
      without_ids-Sound limit expired s h idle _ refl refl

  module _ (settings : Settings) where
    -- A collection takes out idle bindings only.
    pub collect-Sound :
        (limit now : ℕ) (suppress_errors : Bool) (s : Manager W)
        → Sound limit s
        → Holds
            (λ ids t. Sound limit t)
            (Sound limit)
            (collect_expired_idle_locked env settings now suppress_errors s)
    unfolding collect_expired_idle_locked is_expired thread_in_use
    collect-Sound limit now suppress_errors before h =
        let s : Manager W = record before { last_gc_at = some now } in
        let test = is_expired env settings now s in
        let candidates = bindings_where test s.bindings in
        let r = release_expired env candidates s in
        let p = release_expired-Picked candidates s in
        let begun : Sound limit s = record {
          keyed = h.keyed;
          bounded = h.bounded;
          active = h.active;
        } in
        let sound : Sound limit r.1 = Same-Sound limit s r.1 p.same begun in
        let idle : All (Idle s.active_requests) r.0 =
          Some-All (Idle s.active_requests) p.some_of
            (where-Idle test s (λ b y. ground (arith, y))) in
        elim (Bool-cases (is_empty r.0)) [
          | inl y ↦ rw y sound
          | inr n ↦ rw n (
              finish_collection-Sound limit suppress_errors r.0 r.1
                (env.save (without_ids (ids_of r.0) r.1.bindings) r.1.world) sound
                (rw (p.same.active) idle))
        ]
