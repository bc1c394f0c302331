-- ===== src/Output/Capture/Windows.antt =====
-- What a capture holds of the stream that it has seen.
use chatgpt_web_oauth_mcp.Prelude.{
  ℕ, zero, suc, ◌+◌, ◌-◌, ◌/◌, min, ◌≤◌, ◌≡◌, refl, sym, ap, ◌∙◌, inl, inr, false, Option, none,
  some, List, [], ◌∷◌, ◌++◌, arith, length, take, drop, length-append, length-take, length-drop,
  append-nil, append_assoc, ltb, ◌==◌, if◌then◌else◌, Bool-cases,
}
use chatgpt_web_oauth_mcp.Prelude.Slices.{
  take_all, take-append, drop-append, drop_all, last_n, last_n-append,
}
use chatgpt_web_oauth_mcp.FileSystem.{Bytes}
use chatgpt_web_oauth_mcp.Output.Capture.{
  min, Capture, new_capture, count_byte, count_crlf, count_breaks, first_byte, last_of, straddles,
  count_chunk, beyond_head, fill_head, fill_tail, add, add_all, retained_bytes, dropped_bytes,
  total_lines, count_lines,
}

count_byte-append :
    (b : ℕ) (xs ys : Bytes) → count_byte b (xs ++ ys) ≡ count_byte b xs + count_byte b ys
unfolding count_byte
count_byte-append b [] ys = omega arith
count_byte-append b (x ∷ xs) ys = omega (arith, count_byte-append b xs ys)

last_of-append : (o : Option ℕ) (xs ys : Bytes) → last_of o (xs ++ ys) ≡ last_of (last_of o xs) ys
unfolding last_of
last_of-append o [] ys = refl
last_of-append o (x ∷ xs) ys = last_of-append (some x) xs ys

count_crlf-append :
    (xs ys : Bytes)
    → count_crlf (xs ++ ys)
      ≡ count_crlf xs + straddles (last_of none xs) (first_byte ys) + count_crlf ys
unfolding count_crlf last_of
count_crlf-append [] ys = omega arith
count_crlf-append (x ∷ []) [] = ground arith
count_crlf-append (x ∷ []) (y ∷ ys) = ground arith
count_crlf-append (x ∷ x' ∷ xs) ys = let ih = count_crlf-append (x' ∷ xs) ys in omega (arith, ih)

-- A pair has its line feed and its carriage return.
count_crlf-le :
    (xs : Bytes) → count_crlf xs + straddles (some 13) (first_byte xs) ≤ count_byte 10 xs
unfolding count_crlf count_byte
count_crlf-le [] = omega arith
count_crlf-le (x ∷ xs) = ground (arith, count_crlf-le xs)

straddles-le : (a b : Option ℕ) → straddles a b ≤ straddles (some 13) b
straddles-le a b = ground arith

count_breaks-append :
    (xs ys : Bytes)
    → count_breaks (xs ++ ys)
      ≡ count_breaks xs + count_breaks ys - straddles (last_of none xs) (first_byte ys)
unfolding count_breaks
count_breaks-append xs ys = omega (
  arith,
  count_byte-append 10 xs ys,
  count_byte-append 13 xs ys,
  count_crlf-append xs ys,
  count_crlf-le xs,
  count_crlf-le ys,
  straddles-le (last_of none xs) (first_byte ys),
)

-- The head holds the first bytes, the tail the last ones of the rest, and the counters are those of
-- the whole stream.
pub record IsWindow (s : Capture) (raw : Bytes) : Type 0 where
  pub head : s.head ≡ take s.head_limit raw
  pub tail : s.tail ≡ last_n s.tail_limit (drop s.head_limit raw)
  pub total : s.total_bytes ≡ length raw
  pub breaks : s.line_breaks ≡ count_breaks raw
  pub last : s.last_byte ≡ last_of none raw

-- Where the head is not full it holds the whole stream.
beyond_head-eq :
    (s : Capture) (raw chunk : Bytes)
    → s.head ≡ take s.head_limit raw
    → beyond_head s chunk ≡ drop (s.head_limit - length raw) chunk
beyond_head-eq s raw chunk h =
    let size : length s.head ≡ min s.head_limit (length raw) =
      ap length h ∙ length-take s.head_limit raw in
    elim (Bool-cases (ltb (length s.head) s.head_limit)) [
      | inl y ↦
          let e : length s.head ≡ length raw = ground arith in
          rw y (ap (λ n. drop (s.head_limit - n) chunk) e)
      | inr n ↦ let e : s.head_limit - length raw ≡ 0 = ground arith in rw (n, e) refl
    ]

fill_head-eq :
    (s : Capture) (raw chunk : Bytes)
    → s.head ≡ take s.head_limit raw
    → (fill_head chunk s).head ≡ take s.head_limit (raw ++ chunk)
unfolding fill_head
fill_head-eq s raw chunk h =
    let size : length s.head ≡ min s.head_limit (length raw) =
      ap length h ∙ length-take s.head_limit raw in
    elim (Bool-cases (ltb (length s.head) s.head_limit)) [
      | inl y ↦
          let e : length s.head ≡ length raw = ground arith in
          rw (fill_head, y, take-append s.head_limit raw chunk, e, h) refl
      | inr n ↦
          let e : s.head_limit - length raw ≡ 0 = ground arith in
          rw (fill_head, n, take-append s.head_limit raw chunk, e, append-nil) h
    ]

last_n_zero : (n : ℕ) (xs : Bytes) → n ≡ 0 → last_n n xs ≡ []
last_n_zero n xs h = drop_all (length xs - n) xs (omega arith)

drop_if : (n : ℕ) (xs : Bytes) → (if ltb 0 n then drop n xs else xs) ≡ drop n xs
drop_if zero xs = refl
drop_if (suc n) xs = ground arith

-- The tail after bytes beyond the head.
fill_tail-eq :
    (s : Capture) (past chunk : Bytes)
    → s.tail ≡ last_n s.tail_limit past
    → (fill_tail chunk s).tail ≡ last_n s.tail_limit (past ++ chunk)
unfolding fill_tail
fill_tail-eq s past [] h = rw (fill_tail, append-nil) h
fill_tail-eq s past (c ∷ chunk) h = elim (Bool-cases (s.tail_limit == 0)) [
  | inl y ↦
      let none_kept : s.tail_limit ≡ 0 = ground arith in
      rw (fill_tail, y)
        (h ∙ last_n_zero _ past none_kept ∙ sym (last_n_zero _ (past ++ c ∷ chunk) none_kept))
  | inr n ↦
      rw (fill_tail, n)
        (drop_if (length (s.tail ++ c ∷ chunk) - s.tail_limit) (s.tail ++ c ∷ chunk)
          ∙ ap (λ xs. last_n s.tail_limit (xs ++ c ∷ chunk)) h
          ∙ last_n-append s.tail_limit past (c ∷ chunk))
]

fill_tail-rest :
    (s : Capture) (chunk : Bytes)
    → ((fill_tail chunk s).head ≡ s.head)
      × ((fill_tail chunk s).head_limit ≡ s.head_limit)
      × ((fill_tail chunk s).tail_limit ≡ s.tail_limit)
      × ((fill_tail chunk s).total_bytes ≡ s.total_bytes)
      × ((fill_tail chunk s).line_breaks ≡ s.line_breaks)
      × ((fill_tail chunk s).last_byte ≡ s.last_byte)
unfolding fill_tail
fill_tail-rest s [] = (refl, refl, refl, refl, refl, refl)
fill_tail-rest s (c ∷ chunk) = elim (Bool-cases (s.tail_limit == 0)) [
  | inl y ↦ rw (fill_tail, y) (refl, refl, refl, refl, refl, refl)
  | inr n ↦ rw (fill_tail, n) (refl, refl, refl, refl, refl, refl)
]

fill_head-rest :
    (s : Capture) (chunk : Bytes)
    → ((fill_head chunk s).tail ≡ s.tail)
      × ((fill_head chunk s).head_limit ≡ s.head_limit)
      × ((fill_head chunk s).tail_limit ≡ s.tail_limit)
      × ((fill_head chunk s).total_bytes ≡ s.total_bytes)
      × ((fill_head chunk s).line_breaks ≡ s.line_breaks)
      × ((fill_head chunk s).last_byte ≡ s.last_byte)
unfolding fill_head
fill_head-rest s chunk = elim (Bool-cases (ltb (length s.head) s.head_limit)) [
  | inl y ↦ rw (fill_head, y) (refl, refl, refl, refl, refl, refl)
  | inr n ↦ rw (fill_head, n) (refl, refl, refl, refl, refl, refl)
]

add-limits :
    (chunk : Bytes) (s : Capture)
    → ((add chunk s).head_limit ≡ s.head_limit) × ((add chunk s).tail_limit ≡ s.tail_limit)
unfolding add
add-limits [] s = (refl, refl)
add-limits (c ∷ chunk) s =
    let counted = count_chunk (c ∷ chunk) s in
    let filled = fill_head (c ∷ chunk) counted in
    let (_, h, t, _, _, _) = fill_tail-rest filled (beyond_head s (c ∷ chunk)) in
    let (_, h', t', _, _, _) = fill_head-rest counted (c ∷ chunk) in
    unfold count_chunk in (h ∙ h', t ∙ t')

add-IsWindow :
    (chunk : Bytes) (s : Capture) (raw : Bytes)
    → IsWindow s raw
    → IsWindow (add chunk s) (raw ++ chunk)
unfolding add count_chunk
add-IsWindow [] s raw w = rw append-nil w
add-IsWindow (c ∷ chunk) s raw w =
    let counted = count_chunk (c ∷ chunk) s in
    let filled = fill_head (c ∷ chunk) counted in
    let beyond = beyond_head s (c ∷ chunk) in
    let (h, hl, tl, total, breaks, last) = fill_tail-rest filled beyond in
    let (t', hl', tl', total', breaks', last') = fill_head-rest counted (c ∷ chunk) in
    record {
      head =
          h
          ∙ fill_head-eq counted raw (c ∷ chunk) w.head
          ∙ ap (λ n. take n (raw ++ c ∷ chunk)) (sym (hl ∙ hl'));
      tail =
          fill_tail-eq filled (drop s.head_limit raw) beyond
            (t' ∙ w.tail ∙ ap (λ n. last_n n (drop s.head_limit raw)) (sym tl'))
          ∙ ap (λ n. last_n n (drop s.head_limit raw ++ beyond)) (sym tl)
          ∙ ap (last_n (fill_tail beyond filled).tail_limit) (
              ap (λ b. drop s.head_limit raw ++ b) (beyond_head-eq s raw (c ∷ chunk) w.head)
              ∙ sym (drop-append s.head_limit raw (c ∷ chunk))
              ∙ ap (λ n. drop n (raw ++ c ∷ chunk)) (sym (hl ∙ hl')));
      total = total ∙ total' ∙ omega (arith, w.total, length-append raw (c ∷ chunk));
      breaks =
          breaks
          ∙ breaks'
          ∙ ap (λ n. n + count_breaks (c ∷ chunk) - straddles s.last_byte (some c)) w.breaks
          ∙ ap (λ o. count_breaks raw + count_breaks (c ∷ chunk) - straddles o (some c)) w.last
          ∙ sym (count_breaks-append raw (c ∷ chunk));
      last =
          last
          ∙ last'
          ∙ ap (λ o. last_of o (c ∷ chunk)) w.last
          ∙ sym (last_of-append none raw (c ∷ chunk));
    }

drop_nil : (n : ℕ) → ◌≡◌ {A = Bytes} (drop n []) []
drop_nil n = drop_all n [] (omega arith)

take_nil : (n : ℕ) → ◌≡◌ {A = Bytes} (take n []) []
take_nil n = take_all n [] (omega arith)

-- The bytes of chunks.
abbrev pub joined : List Bytes → Bytes
joined [] = []
joined (chunk ∷ chunks) = chunk ++ joined chunks

add_all-IsWindow :
    (chunks : List Bytes) (s : Capture) (raw : Bytes)
    → IsWindow s raw
    → IsWindow (add_all chunks s) (raw ++ joined chunks)
unfolding add_all
add_all-IsWindow [] s raw w = rw append-nil w
add_all-IsWindow (chunk ∷ chunks) s raw w =
    rw (← append_assoc raw chunk (joined chunks))
      (add_all-IsWindow chunks (add chunk s) (raw ++ chunk) (add-IsWindow chunk s raw w))

add_all-limits :
    (chunks : List Bytes) (s : Capture)
    → ((add_all chunks s).head_limit ≡ s.head_limit)
      × ((add_all chunks s).tail_limit ≡ s.tail_limit)
unfolding add_all
add_all-limits [] s = (refl, refl)
add_all-limits (chunk ∷ chunks) s =
    let (h, t) = add_all-limits chunks (add chunk s) in
    let (h', t') = add-limits chunk s in (h ∙ h', t ∙ t')

new_capture-IsWindow : (max_bytes : ℕ) → IsWindow (new_capture max_bytes) []
unfolding new_capture count_breaks count_byte count_crlf last_of
new_capture-IsWindow max_bytes = record {
  head = sym (take_nil ((max_bytes + 1) / 2));
  tail =
      sym (
        ap (last_n (max_bytes - (max_bytes + 1) / 2)) (drop_nil ((max_bytes + 1) / 2))
        ∙ drop_nil _);
  total = refl;
  breaks = omega arith;
  last = refl;
}

total_lines-window : (s : Capture) (raw : Bytes) → IsWindow s raw → total_lines s ≡ count_lines raw
unfolding total_lines count_lines
total_lines-window s [] w = rw w.total refl
total_lines-window s (c ∷ raw) w =
    let some_bytes : (s.total_bytes == 0) ≡ false = ground (arith, w.total) in
    rw (some_bytes, w.breaks, w.last) refl

-- A capture of at most `max_bytes` bytes holds of a stream, however it comes in chunks, the first
-- half of this number and as many of the last bytes of the rest as there is room for; it drops
-- bytes only if there are more, and counts all bytes and all lines.
pub add_all-retains :
    (max_bytes : ℕ) (chunks : List Bytes)
    → let s = add_all chunks (new_capture max_bytes) in
      let raw = joined chunks in
      (s.head ≡ take ((max_bytes + 1) / 2) raw)
      × (s.tail ≡ last_n (max_bytes - (max_bytes + 1) / 2) (drop ((max_bytes + 1) / 2) raw))
      × (retained_bytes s ≡ min max_bytes (length raw))
      × (dropped_bytes s ≡ length raw - max_bytes)
      × (total_lines s ≡ count_lines raw)
unfolding dropped_bytes retained_bytes new_capture
add_all-retains max_bytes chunks =
    let s = add_all chunks (new_capture max_bytes) in
    let raw = joined chunks in
    let half = (max_bytes + 1) / 2 in
    let w = add_all-IsWindow chunks (new_capture max_bytes) [] (new_capture-IsWindow max_bytes) in
    let (h, t) = add_all-limits chunks (new_capture max_bytes) in
    let at_head : s.head ≡ take half raw = w.head ∙ ap (λ n. take n raw) h in
    let at_tail : s.tail ≡ last_n (max_bytes - half) (drop half raw) =
      w.tail
      ∙ ap (λ n. last_n n (drop s.head_limit raw)) t
      ∙ ap (λ n. last_n (max_bytes - half) (drop n raw)) h in
    let size : length s.head ≡ min half (length raw) = ap length at_head ∙ length-take half raw in
    let rest : length (drop half raw) ≡ length raw - half = length-drop half raw in
    let size' : length s.tail
        ≡ length (drop half raw) - (length (drop half raw) - (max_bytes - half)) =
      ap length at_tail ∙ length-drop _ (drop half raw) in
    (at_head, at_tail, omega arith, omega (arith, w.total), total_lines-window s raw w)
