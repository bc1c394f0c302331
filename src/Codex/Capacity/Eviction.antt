-- ===== src/Codex/Capacity/Eviction.antt =====
-- Room for new bindings, at the cost of idle detached ones.
use chatgpt_web_oauth_mcp.Prelude.{
  ℕ, zero, suc, ◌+◌, ◌-◌, ◌≤◌, ◌<◌, ◌≡◌, refl, ap, ◌∙◌, inl, inr, false, List, [], ◌∷◌, All, In,
  arith, Text, length, length-take, take, ltb, leb, Bool-cases, Result, ok, err,
}
use chatgpt_web_oauth_mcp.Prelude.Dict.{Dict}
use chatgpt_web_oauth_mcp.Codex.{
  none, Binding, Code, World, Settings, Manager, Ending, after, lifted,
}
use chatgpt_web_oauth_mcp.Codex.Release.{thread_in_use, release_thread_locked}
use chatgpt_web_oauth_mcp.Codex.Capacity.{
  without_ids, without_ids, without_ids, without_ids, without_ids, without_ids, bindings_where,
  ids_of, without_ids, save_bindings, collect_expired_idle_locked, release_all, is_evictable, evict,
  used_slots, evict_oldest, ensure_capacity_locked, sort_by_age,
}
use chatgpt_web_oauth_mcp.Codex.Keys.{keys_of, values_of, Distinct, without_ids-TakenOut}
use chatgpt_web_oauth_mcp.Codex.Selection.{
  Some-In, Some-Distinct, Some-All, take-Some, bindings_where-Some, sort_by_age-All,
  sort_by_age-Distinct, sort_by_age-In,
}
use chatgpt_web_oauth_mcp.Codex.Capacity.Limit.{
  widen, Holds, after-Holds, Same, Same-refl, Same-length, Same-Sound, Sound, release-Same,
}
use chatgpt_web_oauth_mcp.Codex.Capacity.Room.{
  Idle, All-ids, length-ids_of, where-Idle, without_ids-Sound, collect-Sound,
}

module _ {W : Type 0} (env : World W) where
  -- A save puts the bindings in place, or leaves those that are there.
  pub save_bindings-Holds :
      (P : Manager W → Type 0) (Q : Manager W → Type 0) (bindings : Dict Binding) (s : Manager W)
      → ((t : Manager W) → t.bindings ≡ bindings → t.active_requests ≡ s.active_requests → P t)
      → ((t : Manager W) → t.bindings ≡ s.bindings → t.active_requests ≡ s.active_requests → Q t)
      → Holds (λ u t. P t) Q (save_bindings env bindings s)
  unfolding save_bindings
  save_bindings-Holds P Q bindings s good bad = answered (env.save bindings s.world)
    where
      answered :
          (answer : Result Code (Unit {0}) × W)
          → Holds
              (λ u t. P t)
              Q
              (after
                (lifted s answer)
                (λ saved t. (ok tt, record t { bindings = bindings; persistence_warning = none })))
      answered (ok u, w) = good _ refl refl
      answered (err code, w) = bad _ refl refl

  module _ (settings : Settings) where
    release_all-Same :
        (evicted : List Binding) (s : Manager W)
        → Holds (λ u t. Same s t) (Same s) (release_all env settings evicted s)
    unfolding release_all
    release_all-Same [] s = Same-refl s
    release_all-Same (b ∷ evicted) s =
        after-Holds (λ u t. Same s t) (λ u t. Same s t) (Same s)
          (release_thread_locked env b.thread_id s) (λ u t. release_all env settings evicted t)
          (release-Same env b.thread_id s)
          (λ u t e. widen s t e (release_all env settings evicted t) (release_all-Same evicted t))

    -- Sound, and with room for as many bindings more.
    pub record HasRoom (limit required : ℕ) (s : Manager W) : Type 0 where
      pub sound : Sound limit s
      pub room : length s.bindings + required ≤ limit

    -- What can be evicted: idle runtimes, each once.
    record Evictable (s : Manager W) (bs : List Binding) : Type 0 where
      pub idle : All (Idle s.active_requests) bs
      pub distinct : Distinct (ids_of bs)
      pub present : (k : Text) → In k (ids_of bs) → In k (keys_of s.bindings)

    candidates-Evictable :
        (limit : ℕ) (s : Manager W) (n : ℕ)
        → Sound limit s
        → Evictable s
            (take n (sort_by_age (bindings_where (is_evictable env settings s) s.bindings)))
    unfolding is_evictable thread_in_use
    candidates-Evictable limit s n h =
        let chosen = bindings_where (is_evictable env settings s) s.bindings in
        let picked = bindings_where-Some (is_evictable env settings s) s.bindings in
        let front = take-Some n (sort_by_age chosen) in
        record {
          idle = Some-All (Idle s.active_requests) front (
              sort_by_age-All (Idle s.active_requests) chosen
                (where-Idle env (is_evictable env settings s) s (λ b y. ground (arith, y))));
          distinct = Some-Distinct front (
              sort_by_age-Distinct chosen
                (Some-Distinct picked (rw (h.keyed.own) h.keyed.distinct)));
          present = λ k i.
              rw (h.keyed.own) at (Some-In picked k (sort_by_age-In k chosen (Some-In front k i)));
        }

    evict-HasRoom :
        (limit required : ℕ) (bs : List Binding) (s : Manager W)
        → Sound limit s
        → Evictable s bs
        → length s.bindings + required ≤ limit + length bs
        → Holds (λ ids t. HasRoom limit required t) (Sound limit) (evict env settings bs s)
    evict-HasRoom limit required bs s h e enough =
        after-Holds (λ u t. Same s t) (λ ids t. HasRoom limit required t) (Sound limit)
          (release_all env settings bs s) _
          (sound_after (release_all env settings bs s) (release_all-Same bs s))
          (λ u t same.
            let sound = Same-Sound limit s t same h in
            let w = without_ids-TakenOut (ids_of bs) t.bindings sound.keyed in
            let count =
              w.count e.distinct (All-ids t.bindings bs (λ k i. rw (same.keys) (e.present k i))) in
            let fewer : length (without_ids (ids_of bs) t.bindings) + required ≤ limit =
              omega (arith, count, length-ids_of bs, Same-length s t same, enough) in
            let idle : All (Idle t.active_requests) bs = rw (same.active) e.idle in
            after-Holds (λ saved r. HasRoom limit required r) (λ ids r. HasRoom limit required r)
              (Sound limit) (save_bindings env (without_ids (ids_of bs) t.bindings) t) _
              (save_bindings-Holds (HasRoom limit required) (Sound limit)
                (without_ids (ids_of bs) t.bindings) t
                (λ r left active. record {
                  sound = without_ids-Sound limit bs t sound idle r left active;
                  room = rw left fewer;
                })
                (λ r left active.
                  Same-Sound limit t r
                    (record {
                      keys = ap keys_of left;
                      ids = ap (λ d. ids_of (values_of d)) left;
                      active = active;
                    })
                    sound))
              (λ saved r room. record {
                sound = record {
                  keyed = room.sound.keyed;
                  bounded = room.sound.bounded;
                  active = room.sound.active;
                };
                room = room.room;
              }))
      where
        sound_after :
            (m : Ending W (Unit {0}))
            → Holds (λ u t. Same s t) (Same s) m
            → Holds (λ u t. Same s t) (Sound limit) m
        sound_after (ok u, t) x = x
        sound_after (err code, t) x = Same-Sound limit s t x h

    evict_oldest-HasRoom :
        (required : ℕ) (s : Manager W)
        → Sound settings.max_runtimes s
        → Holds
            (λ ids t. HasRoom settings.max_runtimes required t)
            (Sound settings.max_runtimes)
            (evict_oldest env settings required s)
    unfolding evict_oldest
    evict_oldest-HasRoom required s h =
        let limit = settings.max_runtimes in
        let used = used_slots env settings s in
        let overflow = used + required - limit in
        let candidates = sort_by_age (bindings_where (is_evictable env settings s) s.bindings) in
        elim (Bool-cases (leb (used + required) limit)) [
          | inl y ↦
              let fits : used + required ≤ limit = ground (arith, y) in
              rw y (record { sound = h; room = omega (arith, fits) })
          | inr n ↦
              let more : limit < used + required = ground (arith, n) in
              elim (Bool-cases (ltb (length candidates) overflow)) [
                | inl y ↦ rw (n, y) h
                | inr enough ↦
                    let many : overflow ≤ length candidates = ground (arith, enough) in
                    let size : length (take overflow candidates) ≡ overflow =
                      length-take overflow candidates ∙ omega arith in
                    rw (n, enough)
                      (evict-HasRoom limit required (take overflow candidates) s h
                        (candidates-Evictable limit s overflow h) (omega (arith, size, more)))
              ]
        ]

    -- Where the bindings are sound and within the limit, making room for new ones either leaves room
    -- for all of them within the limit, or ends with an error. In both cases they stay sound: none
    -- stands twice or under a foreign identifier, they are within the limit, and every runtime with a
    -- request in progress keeps its binding.
    pub ensure_capacity_locked-HasRoom :
        (now required : ℕ) (s : Manager W)
        → Sound settings.max_runtimes s
        → Holds
            (λ ids t. HasRoom settings.max_runtimes required t)
            (Sound settings.max_runtimes)
            (ensure_capacity_locked env settings now required s)
    unfolding ensure_capacity_locked
    ensure_capacity_locked-HasRoom now zero s h = record {
      sound = h;
      room = omega (arith, h.bounded);
    }
    ensure_capacity_locked-HasRoom now (suc required) s h =
        after-Holds (λ ids t. Sound settings.max_runtimes t)
          (λ ids t. HasRoom settings.max_runtimes (suc required) t) (Sound settings.max_runtimes)
          (collect_expired_idle_locked env settings now false s) _
          (collect-Sound env settings settings.max_runtimes now false s h)
          (λ expired t sound. evict_oldest-HasRoom (suc required) t sound)
