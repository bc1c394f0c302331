-- ===== src/Search/Pages.antt =====
-- A page is a window on the results, and the next one starts behind it.
use std.Path.{subst}
use chatgpt_web_oauth_mcp.Prelude.{
  zero, Option, none, some, if-cases, ok, ◌>>=◌, ℕ, suc, ◌+◌, ◌-◌, ◌≤◌, ◌<◌, ◌≡◌, refl, sym, ap,
  ◌∙◌, Bool, true, false, ◌&&◌, not, List, [], ◌∷◌, ◌++◌, append-nil, append_assoc, arith, Text,
  codes, length, length-append, take, drop, ltb, leb, if◌then◌else◌,
}
use chatgpt_web_oauth_mcp.Prelude.Slices.{drop_all}
use chatgpt_web_oauth_mcp.Budget.{
  ResponseBudget, BudgetMeasurement, fits, Response, Rendering, with_budget_metadata,
}
use chatgpt_web_oauth_mcp.Budget.Ends.{Ends, >>=-Ends, Ends-widen, if-Ends}
use chatgpt_web_oauth_mcp.Budget.Honest.{Says, Says-payload, with_budget_metadata-honest}
use chatgpt_web_oauth_mcp.Search.{
  PagePayload, PageCollector, new_collector, force_stop, candidate_measurement, add_open, add_item,
  add_items, add_measured, next_from, page_payload,
}

if_false : {A : Type 0} {b : Bool} (u v : A) → b ≡ false → (if b then u else v) ≡ v
if_false u v h = rw h

module _ {Base Item : Type 0} (rendering : Rendering (PagePayload Base Item)) (base : Base)
    (budget : ResponseBudget) where
  open rendering use {counting}

  -- What the results that follow add to a collector.
  pub record Grown (xs : List Item) (s t : PageCollector Item) : Type 0 where
    pub more_items : List Item
    pub items : t.items ≡ s.items ++ more_items
    pub offset_ : t.offset ≡ s.offset
    pub window : more_items ≡ take (length more_items) (drop (s.offset - s.seen) xs)
    pub complete : t.truncated ≡ false → more_items ≡ drop (s.offset - s.seen) xs
    pub more : t.truncated ≡ true → s.offset - s.seen + length more_items < length xs
    pub limit : 0 < s.limit → length s.items ≤ s.limit → length t.items ≤ s.limit

  add_items-stopped :
      (xs : List Item) (s : PageCollector Item)
      → s.should_stop ≡ true
      → add_items rendering base budget xs s ≡ ok s
  unfolding add_items add_item
  add_items-stopped [] s h = refl
  add_items-stopped (x ∷ xs) s h =
      ap
        (λ b.
          (if b then ok s else add_open rendering base budget x s)
          >>= (λ t. add_items rendering base budget xs t))
        h
      ∙ add_items-stopped xs s h

  -- A collector that stops at a result has taken none of it.
  stopped-Grown :
      (x : Item) (xs : List Item) (reason : Text) (s : PageCollector Item)
      → s.offset - s.seen ≡ 0
      → Grown (x ∷ xs) s (force_stop reason (record s { seen = s.seen + 1 }))
  stopped-Grown x xs reason s none_left = record {
    more_items = [];
    items = sym (append-nil s.items);
    offset_ = refl;
    window = refl;
    complete = λ h. cc;
    more = λ h. omega (arith, none_left);
    limit = λ positive h. h;
  }

  skipped-Grown :
      (x : Item) (xs : List Item) (s t : PageCollector Item)
      → s.seen < s.offset
      → Grown xs (record s { seen = s.seen + 1 }) t
      → Grown (x ∷ xs) s t
  skipped-Grown x xs s t before g =
      let e : s.offset - s.seen ≡ suc (s.offset - (s.seen + 1)) = omega arith in
      record {
        more_items = g.more_items;
        items = g.items;
        offset_ = g.offset_;
        window = rw e g.window;
        complete = λ h. rw e (g.complete h);
        more = λ h. omega (arith, g.more h);
        limit = g.limit;
      }

  kept-Grown :
      (x : Item) (xs : List Item) (s t : PageCollector Item)
      → s.offset - s.seen ≡ 0
      → (0 < s.limit → length s.items < s.limit)
      → Grown xs (record s { seen = s.seen + 1; items = s.items ++ x ∷ [] }) t
      → Grown (x ∷ xs) s t
  kept-Grown x xs s t none_left below g =
      let e : s.offset - (s.seen + 1) ≡ 0 = omega arith in
      record {
        more_items = x ∷ g.more_items;
        items = g.items ∙ append_assoc s.items (x ∷ []) g.more_items;
        offset_ = g.offset_;
        window = rw none_left (ap (◌∷◌ x) (rw e at g.window));
        complete = λ h. rw none_left (ap (◌∷◌ x) (rw e at (g.complete h)));
        more = λ h. omega (arith, g.more h);
        limit = λ positive h.
            g.limit positive (omega (arith, length-append s.items (x ∷ []), below positive));
      }

  add_item-open :
      (x : Item) (s : PageCollector Item)
      → s.should_stop ≡ false
      → add_item rendering base budget x s ≡ add_open rendering base budget x s
  unfolding add_item
  add_item-open x s h = if_false (ok s) (add_open rendering base budget x s) h

  -- The ways in which a result is taken.
  pub data Stepped (x : Item) (s : PageCollector Item) : PageCollector Item → Type 0 where
    skipped : s.seen < s.offset → Stepped x s (record s { seen = s.seen + 1 })
    stopped :
        (reason : Text)
        → s.offset - s.seen ≡ 0
        → Stepped x s (force_stop reason (record s { seen = s.seen + 1 }))
    kept :
        s.offset - s.seen ≡ 0
        → (0 < s.limit → length s.items < s.limit)
        → Stepped x s (record s { seen = s.seen + 1; items = s.items ++ x ∷ [] })

  candidate_measurement-Ends :
      (x : Item) (s : PageCollector Item)
      → Ends counting (λ m. Unit {0}) (candidate_measurement rendering base budget x s)
  unfolding candidate_measurement
  candidate_measurement-Ends x s =
      >>=-Ends counting (Says rendering _ budget true (codes "token_budget")) (λ m. Unit {0})
        (with_budget_metadata rendering _ budget true (codes "token_budget")) _
        (with_budget_metadata-honest rendering _ budget true (codes "token_budget")) (λ r says. tt)

  add_measured-Stepped :
      (x : Item) (s : PageCollector Item) (m : BudgetMeasurement)
      → s.offset - s.seen ≡ 0
      → (0 < s.limit → length s.items < s.limit)
      → Stepped x s (add_measured rendering base budget x s m)
  unfolding add_measured
  add_measured-Stepped x s m none_left below =
      if-cases (Stepped x s) (not (fits m)) (stopped _ none_left) (kept none_left below)

  add_open-Stepped :
      (x : Item) (s : PageCollector Item)
      → Ends counting (Stepped x s) (add_open rendering base budget x s)
  unfolding add_open
  add_open-Stepped x s =
      if-Ends counting (Stepped x s) (ltb s.seen s.offset) _ _
        (λ skip. skipped (ground (arith, skip)))
        (λ reached.
          let none_left : s.offset - s.seen ≡ 0 = ground (arith, reached) in
          if-Ends counting (Stepped x s) (ltb 0 s.limit && leb s.limit (length s.items)) _ _
            (λ full. stopped (codes "limit") none_left)
            (λ room.
              >>=-Ends counting (λ m. Unit {0}) (Stepped x s)
                (candidate_measurement rendering base budget x s) _ (candidate_measurement-Ends x s)
                (λ m u.
                  add_measured-Stepped x s m none_left
                    (λ positive. ground (arith, room, positive)))))

  -- From one result on, where the others are collected as stated.
  after-Stepped :
      (x : Item) (xs : List Item) (s t : PageCollector Item)
      → ((u : PageCollector Item)
          → u.should_stop ≡ false
          → u.truncated ≡ false
          → Ends counting (Grown xs u) (add_items rendering base budget xs u))
      → s.should_stop ≡ false
      → s.truncated ≡ false
      → Stepped x s t
      → Ends counting (Grown (x ∷ xs) s) (add_items rendering base budget xs t)
  after-Stepped x xs s _ others going fresh (skipped before) =
      let u = record s { seen = s.seen + 1 } in
      Ends-widen counting (Grown xs u) (Grown (x ∷ xs) s) _ (others u going fresh)
        (λ t g. skipped-Grown x xs s t before g)
  after-Stepped x xs s _ others going fresh (stopped reason none_left) =
      let u = force_stop reason (record s { seen = s.seen + 1 }) in
      rw (add_items-stopped xs u refl) (stopped-Grown x xs reason s none_left)
  after-Stepped x xs s _ others going fresh (kept none_left below) =
      let u = record s { seen = s.seen + 1; items = s.items ++ x ∷ [] } in
      Ends-widen counting (Grown xs u) (Grown (x ∷ xs) s) _ (others u going fresh)
        (λ t g. kept-Grown x xs s t none_left below g)

  add_items-Grown :
      (xs : List Item) (s : PageCollector Item)
      → s.should_stop ≡ false
      → s.truncated ≡ false
      → Ends counting (Grown xs s) (add_items rendering base budget xs s)
  unfolding add_items
  add_items-Grown [] s going fresh = record {
    more_items = [];
    items = sym (append-nil s.items);
    offset_ = refl;
    window = refl;
    complete = λ h. sym (drop_all (s.offset - s.seen) [] (omega arith));
    more = λ h. cc (fresh, h);
    limit = λ positive h. h;
  }
  add_items-Grown (x ∷ xs) s going fresh = rw (add_item-open x s going) (
      >>=-Ends counting (Stepped x s) (Grown (x ∷ xs) s) (add_open rendering base budget x s)
        (λ t. add_items rendering base budget xs t) (add_open-Stepped x s)
        (λ t step. after-Stepped x xs s t (λ u. add_items-Grown xs u) going fresh step))

-- What a page has of the results: a window without a gap, and where the next one starts.
pub record IsPage (Item : Type 0) (offset limit : ℕ) (results items : List Item)
    (next_offset : Option ℕ) : Type 0 where
  pub window : items ≡ take (length items) (drop offset results)
  pub last : next_offset ≡ none → items ≡ drop offset results
  pub more : (k : ℕ) → next_offset ≡ some k → (k ≡ offset + length items) × (k < length results)
  pub goes_on : (k : ℕ) → next_offset ≡ some k → items ++ drop k results ≡ drop offset results
  pub within_limit : 0 < limit → length items ≤ limit

take-drop : {A : Type 0} (m : ℕ) (xs : List A) → take m xs ++ drop m xs ≡ xs
take-drop zero xs = refl
take-drop (suc m) [] = refl
take-drop (suc m) (x ∷ xs) = ap (◌∷◌ x) (take-drop m xs)

dropped_twice : {A : Type 0} (n m : ℕ) (xs : List A) → drop m (drop n xs) ≡ drop (n + m) xs
dropped_twice zero m xs = let e : 0 + m ≡ m = omega arith in rw e refl
dropped_twice (suc n) zero [] = let e : suc n + 0 ≡ suc n = omega arith in rw e refl
dropped_twice (suc n) (suc m) [] =
    let e : suc n + suc m ≡ suc (n + suc m) = omega arith in rw e refl
dropped_twice (suc n) m (x ∷ xs) =
    let e : suc n + m ≡ suc (n + m) = omega arith in rw e (dropped_twice n m xs)

from_next :
    (b : Bool) (n : ℕ)
    → (next_from b n ≡ none → b ≡ false) × ((k : ℕ) → next_from b n ≡ some k → (b ≡ true) × (k ≡ n))
from_next true n = (λ h. cc, λ k h. (refl, cc))
from_next false n = (λ h. refl, λ k h. cc)

module _ {Base Item : Type 0} (rendering : Rendering (PagePayload Base Item)) (base : Base)
    (budget : ResponseBudget) (offset limit : ℕ) (results : List Item) where
  open rendering use {counting}

  abbrev pub PageOf : Response (PagePayload Base Item) → Type 0
  PageOf r = IsPage Item offset limit results r.payload.items r.payload.next_offset

  Grown-IsPage :
      (s : PageCollector Item)
      → Grown rendering base budget results (new_collector offset limit) s
      → IsPage Item offset limit results s.items (next_from s.truncated (s.offset + length s.items))
  unfolding new_collector
  Grown-IsPage s g =
      let e : offset - 0 ≡ offset = omega arith in
      let size : length s.items ≡ length g.more_items = ap length g.items in
      let window : s.items ≡ take (length s.items) (drop offset results) =
        g.items ∙ (rw e at g.window) ∙ ap (λ n. take n (drop offset results)) (sym size) in
      let next = from_next s.truncated (s.offset + length s.items) in
      record {
        window = window;
        last = λ h. g.items ∙ (rw e at (g.complete (next.0 h)));
        more = λ k h.
            let (cut, same) = next.1 k h in
            (
              same ∙ ap (λ n. n + length s.items) g.offset_,
              omega (arith, g.more cut, size, same, g.offset_),
            );
        goes_on = λ k h.
            let (cut, same) = next.1 k h in
            let there : k ≡ offset + length s.items =
              same ∙ ap (λ n. n + length s.items) g.offset_ in
            ap (λ n. s.items ++ drop n results) there
            ∙ ap (λ ys. s.items ++ ys) (sym (dropped_twice offset (length s.items) results))
            ∙ ap (λ ys. ys ++ drop (length s.items) (drop offset results)) window
            ∙ take-drop (length s.items) (drop offset results);
        within_limit = λ positive. g.limit positive (omega arith);
      }

  page_payload-PageOf :
      (s : PageCollector Item)
      → Grown rendering base budget results (new_collector offset limit) s
      → Ends counting PageOf (page_payload rendering base budget s)
  unfolding page_payload
  page_payload-PageOf s g =
      let contents : PagePayload Base Item = record {
        base = base;
        items = s.items;
        next_offset = next_from s.truncated (s.offset + length s.items);
      } in
      >>=-Ends counting (Says rendering contents budget s.truncated s.stop_reason) PageOf
        (with_budget_metadata rendering contents budget s.truncated s.stop_reason) _
        (with_budget_metadata-honest rendering contents budget s.truncated s.stop_reason)
        (λ r says.
          let e : contents ≡ r.0.payload =
            sym (Says-payload rendering contents budget s.truncated s.stop_reason r says) in
          subst
            (λ (p : PagePayload Base Item). IsPage Item offset limit results p.items p.next_offset)
            e (Grown-IsPage s g))

  -- The response of a page of results, unless the encoding refuses a text, holds, without a gap, the
  -- results from its offset on, at most as many as a positive limit. Where it names no next offset
  -- it holds all that are left. A next offset is where its items end, there is a result there, and the
  -- results from there on are what follows its items.
  pub page_payload-IsPage : Ends counting PageOf (
      add_items rendering base budget results (new_collector offset limit)
      >>= page_payload rendering base budget)
  unfolding new_collector
  page_payload-IsPage =
      >>=-Ends counting (Grown rendering base budget results (new_collector offset limit)) PageOf
        (add_items rendering base budget results (new_collector offset limit))
        (page_payload rendering base budget)
        (add_items-Grown rendering base budget results (new_collector offset limit) refl refl)
        page_payload-PageOf
