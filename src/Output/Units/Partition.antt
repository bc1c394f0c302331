-- ===== src/Output/Units/Partition.antt =====
-- The units of a text are its bytes in order, and few bytes are left.
use chatgpt_web_oauth_mcp.Prelude.{
  ℕ, zero, suc, ◌≤◌, ◌≡◌, refl, sym, ap, ◌∙◌, inl, inr, Bool, true, false, ◌&&◌, not, some, List,
  [], ◌∷◌, ◌++◌, arith, length, take, drop, take-append-drop, length-drop, append_assoc, ltb,
  if◌then◌else◌, Bool-cases, Option-cases,
}
use chatgpt_web_oauth_mcp.FileSystem.{Bytes, Codec}
use chatgpt_web_oauth_mcp.Output.Units.{
  DecodedUnit, replaced, and_before, utf8_expected_length, utf8_prefix_is_valid, decode_from,
  decode_utf8_units,
}

-- The bytes of units.
abbrev pub raw_bytes : List DecodedUnit → Bytes
raw_bytes [] = []
raw_bytes (unit ∷ units) = unit.raw ++ raw_bytes units

abbrev limit : Bool → ℕ
limit true = 0
limit false = 3

-- The units cover the bytes but for the rest, which is short.
pub record Covers (final : Bool) (raw : Bytes) (r : List DecodedUnit × ℕ) : Type 0 where
  pub rest : Bytes
  pub parts : raw ≡ raw_bytes r.0 ++ rest
  pub size : length rest ≡ r.1
  pub short : r.1 ≤ limit final

expected_bounds : (b : ℕ) {n : ℕ} → utf8_expected_length b ≡ some n → (1 ≤ n) × (n ≤ 4)
unfolding utf8_expected_length
expected_bounds b h = ground arith

and_before-Covers :
    (final : Bool) (unit : DecodedUnit) (raw : Bytes) (r : List DecodedUnit × ℕ)
    → Covers final raw r
    → Covers final (unit.raw ++ raw) (and_before unit r)
and_before-Covers final unit raw (units, left) c = record {
  rest = c.rest;
  parts = ap (λ s. unit.raw ++ s) c.parts ∙ sym (append_assoc unit.raw (raw_bytes units) c.rest);
  size = c.size;
  short = c.short;
}

-- Bytes that a later read may complete.
waiting-Covers :
    (final : Bool) (raw : Bytes) (r : List DecodedUnit × ℕ)
    → length raw ≤ 3
    → Covers final raw r
    → Covers final raw (if true && not final then ([], length raw) else r)
waiting-Covers true raw r h c = c
waiting-Covers false raw r h c = record { rest = raw; parts = refl; size = refl; short = h }

module _ (codec : Codec) where
  decode_from-Covers :
      (rounds : ℕ) (final : Bool) (raw : Bytes)
      → length raw ≤ rounds
      → Covers final raw (decode_from codec rounds final raw)
  unfolding decode_from
  decode_from-Covers zero final [] h = record {
    rest = [];
    parts = refl;
    size = refl;
    short = omega arith;
  }
  decode_from-Covers zero final (b ∷ raw) h = absurd (omega arith)
  decode_from-Covers (suc rounds) final [] h = record {
    rest = [];
    parts = refl;
    size = refl;
    short = omega arith;
  }
  decode_from-Covers (suc rounds) final (b ∷ raw) h =
      let skip =
        and_before-Covers final (replaced b) raw (decode_from codec rounds final raw)
          (decode_from-Covers rounds final raw (omega arith)) in
      elim (Option-cases (utf8_expected_length b)) [
        | inl e ↦ rw (decode_from, e) skip
        | inr (n, e) ↦
            let (low, high) = expected_bounds b e in
            elim (Bool-cases (ltb (length (b ∷ raw)) n)) [
              | inl short ↦ elim (Bool-cases (utf8_prefix_is_valid (b ∷ raw) n)) [
                | inr bad ↦ rw (decode_from, e, short, bad) skip
                | inl good ↦
                    rw (decode_from, e, short, good)
                      (waiting-Covers final (b ∷ raw)
                        (and_before (replaced b) (decode_from codec rounds final raw))
                        (ground arith) skip)
              ]
              | inr enough ↦ elim (Bool-cases (utf8_prefix_is_valid (b ∷ raw) n)) [
                | inr bad ↦ rw (decode_from, e, enough, bad) skip
                | inl good ↦
                    let shorter : length (drop n (b ∷ raw)) ≤ rounds =
                      omega (arith, length-drop n (b ∷ raw)) in
                    let unit : DecodedUnit = record {
                      raw = take n (b ∷ raw);
                      text = codec.decode (take n (b ∷ raw));
                      replacement = false;
                    } in
                    rw (decode_from, e, enough, good)
                      (rw (take-append-drop n (b ∷ raw)) at (
                        and_before-Covers final unit (drop n (b ∷ raw))
                          (decode_from codec rounds final (drop n (b ∷ raw)))
                          (decode_from-Covers rounds final (drop n (b ∷ raw)) shorter)))
              ]
            ]
      ]

  -- The units of a text are its bytes in order, but for at most three bytes at the end, which a
  -- later read may complete, and of which there are none at the end of the stream.
  pub decode_utf8_units-Covers :
      (final : Bool) (raw : Bytes) → Covers final raw (decode_utf8_units codec final raw)
  unfolding decode_utf8_units
  decode_utf8_units-Covers final raw = decode_from-Covers (length raw) final raw (omega arith)
