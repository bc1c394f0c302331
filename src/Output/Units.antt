-- ===== src/Output/Units.antt =====
-- `_utf8_expected_length`, `_utf8_prefix_is_valid` and `_decode_utf8_units`.
pub mod Partition
use chatgpt_web_oauth_mcp.Prelude.{
  ℕ, zero, suc, ◌+◌, ◌-◌, min, Bool, true, false, ◌&&◌, ◌||◌, not, Option, none, some, List, [],
  ◌∷◌, Text, length, take, drop, ltb, leb, ◌==◌, if◌then◌else◌,
}
use chatgpt_web_oauth_mcp.FileSystem.{Bytes, Codec}

-- `low <= n <= high`
abbrev pub within : ℕ → ℕ → ℕ → Bool
within low high n = leb low n && leb n high

unfoldable pub utf8_expected_length : ℕ → Option ℕ
utf8_expected_length first =
    if leb first 0x7F
    then some 1
    else if within 0xC2 0xDF first
    then some 2
    else if within 0xE0 0xEF first
    then some 3
    else if within 0xF0 0xF4 first
    then some 4
    else none

abbrev second_is_valid : ℕ → ℕ → Bool
second_is_valid first second =
    if first == 0xE0
    then within 0xA0 0xBF second
    else if first == 0xED
    then within 0x80 0x9F second
    else if first == 0xF0
    then within 0x90 0xBF second
    else if first == 0xF4
    then within 0x80 0x8F second
    else within 0x80 0xBF second

abbrev continuations : Bytes → Bool
continuations [] = true
continuations (b ∷ raw) = within 0x80 0xBF b && continuations raw

-- For the bytes from `start` on.
unfoldable pub utf8_prefix_is_valid : Bytes → ℕ → Bool
utf8_prefix_is_valid (first ∷ second ∷ rest) expected =
    let available = min expected (length (first ∷ second ∷ rest)) in
    if leb available 1
    then true
    else second_is_valid first second && continuations (take (available - 2) rest)
utf8_prefix_is_valid _ expected = true

-- The bytes of a unit, its text, and whether it is a replacement.
pub record DecodedUnit : Type 0 where
  pub raw : Bytes
  pub text : Text
  pub replacement : Bool

abbrev pub replaced : ℕ → DecodedUnit
replaced b = record { raw = b ∷ []; text = 0xFFFD ∷ []; replacement = true }

abbrev and_before : DecodedUnit → List DecodedUnit × ℕ → List DecodedUnit × ℕ
and_before unit (units, left) = (unit ∷ units, left)

module _ (codec : Codec) where
  open codec use {decode}

  -- The loop, on a bound on rounds: the units, and how many bytes are left.
  pub decode_from : ℕ → Bool → Bytes → List DecodedUnit × ℕ
  unfolding utf8_expected_length utf8_prefix_is_valid
  decode_from zero final raw = ([], length raw)
  decode_from (suc rounds) final [] = ([], 0)
  decode_from (suc rounds) final (b ∷ raw) = elim (utf8_expected_length b) [
    | none ↦ and_before (replaced b) (decode_from rounds final raw)
    | some expected ↦
        let data_ = b ∷ raw in
        let skip = and_before (replaced b) (decode_from rounds final raw) in
        let unit : DecodedUnit = record {
          raw = take expected data_;
          text = decode (take expected data_);
          replacement = false;
        } in
        let jump = and_before unit (decode_from rounds final (drop expected data_)) in
        if ltb (length data_) expected
        then (if utf8_prefix_is_valid data_ expected && not final then ([], length data_) else skip)
        else if not (utf8_prefix_is_valid data_ expected)
        then skip
        else jump
  ]

  unfoldable pub decode_utf8_units : Bool → Bytes → List DecodedUnit × ℕ
  unfolding decode_from
  decode_utf8_units final raw = decode_from (length raw) final raw
