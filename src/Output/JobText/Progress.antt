-- ===== src/Output/JobText/Progress.antt =====
-- A reader that goes on where a response ended.
use chatgpt_web_oauth_mcp.Prelude.{
  ◌+◌, ◌≤◌, ◌<◌, ◌≡◌, ◌⊎◌, refl, sym, ap, ◌∙◌, inl, inr, Bool, true, false, List, [], ◌∷◌, ◌++◌,
  arith, Text, length, take, append-nil, append_assoc, length-append,
}
use chatgpt_web_oauth_mcp.FileSystem.{Bytes, Codec}
use chatgpt_web_oauth_mcp.Budget.{Counting, ResponseBudget, fits, measure}
use chatgpt_web_oauth_mcp.Budget.Ends.{
  Ends, >>=-Ends, Ends-widen, if-Ends, IsMeasured, measure-Ends, WithinLimits, fits-WithinLimits,
}
use chatgpt_web_oauth_mcp.Output.Units.{DecodedUnit, decode_utf8_units}
use chatgpt_web_oauth_mcp.Output.Units.Partition.{decode_utf8_units-Covers, raw_bytes}
use chatgpt_web_oauth_mcp.Output.JobText.{
  RenderState, RenderedOutput, concat, is_nil, accept, render_units, no_progress, render_job_output,
}

-- The texts of units.
abbrev pub texts : List DecodedUnit → List Text
texts [] = []
texts (unit ∷ units) = unit.text ∷ texts units

texts-append : (us vs : List DecodedUnit) → texts (us ++ vs) ≡ texts us ++ texts vs
texts-append [] vs = refl
texts-append (u ∷ us) vs = ap (◌∷◌ u.text) (texts-append us vs)

raw_bytes-append : (us vs : List DecodedUnit) → raw_bytes (us ++ vs) ≡ raw_bytes us ++ raw_bytes vs
raw_bytes-append [] vs = refl
raw_bytes-append (u ∷ us) vs =
    ap (λ s. u.raw ++ s) (raw_bytes-append us vs)
    ∙ sym (append_assoc u.raw (raw_bytes us) (raw_bytes vs))

module _ (counting : Counting) (budget : ResponseBudget) where
  -- The response shows the first units, and fits unless it is a single unit.
  pub record Shows (units : List DecodedUnit) (s : RenderState) : Type 0 where
    pub shown : List DecodedUnit
    pub later : List DecodedUnit
    pub parts : units ≡ shown ++ later
    pub content : s.rendered ≡ texts shown
    pub bytes : s.bytes_returned ≡ length (raw_bytes shown)
    pub progress : (units ≡ []) ⊎ (0 < length shown)
    pub size : WithinLimits counting budget (concat s.rendered) ⊎ (length shown ≤ 1)

-- Where the response is empty no unit is in it.
is_nil-texts : (us : List DecodedUnit) → is_nil (texts us) ≡ true → us ≡ []
is_nil-texts [] h = refl
is_nil-texts (u ∷ us) h = cc

is_nil-texts_false : (us : List DecodedUnit) → is_nil (texts us) ≡ false → 0 < length us
is_nil-texts_false [] h = cc
is_nil-texts_false (u ∷ us) h = omega arith

take-front : (xs ys : Bytes) → take (length xs) (xs ++ ys) ≡ xs
take-front [] ys = refl
take-front (x ∷ xs) ys = ap (◌∷◌ x) (take-front xs ys)

some_or_none : (us : List DecodedUnit) → (us ≡ []) ⊎ (0 < length us)
some_or_none [] = inl refl
some_or_none (u ∷ us) = inr (omega arith)

length-raw_bytes_snoc :
    (us : List DecodedUnit) (u : DecodedUnit)
    → length (raw_bytes (us ++ u ∷ [])) ≡ length (raw_bytes us) + length u.raw
length-raw_bytes_snoc us u =
    ap length (raw_bytes-append us (u ∷ []))
    ∙ length-append (raw_bytes us) (u.raw ++ [])
    ∙ ap (λ r. length (raw_bytes us) + length r) (append-nil u.raw)

module _ (counting : Counting) (budget : ResponseBudget) where
  render_units-Shows :
      (done units : List DecodedUnit) (s : RenderState)
      → s.rendered ≡ texts done
      → s.bytes_returned ≡ length (raw_bytes done)
      → WithinLimits counting budget (concat s.rendered) ⊎ (length done ≤ 1)
      → Ends counting (Shows counting budget (done ++ units)) (render_units counting budget units s)
  unfolding render_units accept
  render_units-Shows done [] s texts_are bytes_are fit = record {
    shown = done;
    later = [];
    parts = refl;
    content = texts_are;
    bytes = bytes_are;
    progress = rw (append-nil done) (some_or_none done);
    size = fit;
  }
  render_units-Shows done (unit ∷ units) s texts_are bytes_are fit =
      let content = concat (s.rendered ++ unit.text ∷ []) in
      let longer : s.rendered ++ unit.text ∷ [] ≡ texts (done ++ unit ∷ []) =
        ap (λ r. r ++ unit.text ∷ []) texts_are ∙ sym (texts-append done (unit ∷ [])) in
      let more : s.bytes_returned + length unit.raw ≡ length (raw_bytes (done ++ unit ∷ [])) =
        ap (λ n. n + length unit.raw) bytes_are ∙ sym (length-raw_bytes_snoc done unit) in
      let moved : (done ++ unit ∷ []) ++ units ≡ done ++ unit ∷ units =
        append_assoc done (unit ∷ []) units in
      let P = Shows counting budget (done ++ unit ∷ units) in
      >>=-Ends counting (IsMeasured counting budget content) P (measure counting budget content) _
        (measure-Ends counting budget content)
        (λ candidate own.
          if-Ends counting P (fits candidate) _ _
            (λ e.
              Ends-widen counting (Shows counting budget ((done ++ unit ∷ []) ++ units)) P _
                (render_units-Shows (done ++ unit ∷ []) units (accept unit candidate s) longer more
                  (inl (fits-WithinLimits counting budget content candidate own e)))
                (λ t shows. rw (sym moved) shows))
            (λ e.
              if-Ends counting P (is_nil s.rendered) _ _
                (λ nil.
                  let empty : done ≡ [] = is_nil-texts done (rw (sym texts_are) nil) in
                  record {
                    shown = done ++ unit ∷ [];
                    later = units;
                    parts = sym moved;
                    content = longer;
                    bytes = more;
                    progress = inr (rw empty (omega arith));
                    size = inr (rw empty (omega arith));
                  })
                (λ filled. record {
                  shown = done;
                  later = unit ∷ units;
                  parts = refl;
                  content = texts_are;
                  bytes = bytes_are;
                  progress = inr (is_nil-texts_false done (rw (sym texts_are) filled));
                  size = fit;
                })))

  -- What a caller of the renderer sees of the bytes it read, and of their units.
  pub record Resumes (raw : Bytes) (units : List DecodedUnit) (r : RenderedOutput) : Type 0 where
    pub shown : List DecodedUnit
    pub later : List DecodedUnit
    pub parts : units ≡ shown ++ later
    pub content : r.content ≡ concat (texts shown)
    pub bytes : r.bytes_returned ≡ length (raw_bytes shown)
    pub read : take r.bytes_returned raw ≡ raw_bytes shown
    pub progress : (units ≡ []) ⊎ (0 < length shown)
    pub size : WithinLimits counting budget r.content ⊎ (length shown ≤ 1)

-- The rendering fails only where the encoding refuses a text. Else the content of a response is the
-- text of the first units of the bytes, and the bytes it is said to return are exactly the bytes of
-- those units, which stand at the front of what was read, so that the next read goes on behind them.
-- Where there is a unit at least one is shown, and the content is within the budget unless it is a
-- single unit.
pub render_job_output-Resumes :
    (codec : Codec) (counting : Counting) (budget : ResponseBudget) (final : Bool) (raw : Bytes)
    → Ends counting
        (Resumes counting budget raw (decode_utf8_units codec final raw).0)
        (render_job_output codec counting budget final raw)
unfolding render_job_output no_progress
render_job_output-Resumes codec counting budget final raw =
    let units = (decode_utf8_units codec final raw).0 in
    let incomplete = (decode_utf8_units codec final raw).1 in
    let P = Resumes counting budget raw units in
    let c = decode_utf8_units-Covers codec final raw in
    >>=-Ends counting (IsMeasured counting budget []) P (measure counting budget []) _
      (measure-Ends counting budget [])
      (λ measurement own.
        >>=-Ends counting (Shows counting budget units) P
          (render_units counting budget units (no_progress counting budget measurement)) _
          (render_units-Shows counting budget [] units (no_progress counting budget measurement)
            refl refl (inr (omega arith)))
          (λ (t : RenderState) (s : Shows counting budget units t).
            let front : raw ≡ raw_bytes s.shown ++ (raw_bytes s.later ++ c.rest) =
              c.parts
              ∙ ap (λ us. raw_bytes us ++ c.rest) s.parts
              ∙ ap (λ r. r ++ c.rest) (raw_bytes-append s.shown s.later)
              ∙ append_assoc (raw_bytes s.shown) (raw_bytes s.later) c.rest in
            let taken : take (length (raw_bytes s.shown)) raw ≡ raw_bytes s.shown =
              ap (take (length (raw_bytes s.shown))) front
              ∙ take-front (raw_bytes s.shown) (raw_bytes s.later ++ c.rest) in
            record {
              shown = s.shown;
              later = s.later;
              parts = s.parts;
              content = ap concat s.content;
              bytes = s.bytes;
              read = ap (λ n. take n raw) s.bytes ∙ taken;
              progress = s.progress;
              size = s.size;
            }))
