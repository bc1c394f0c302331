-- ===== src/Command/Batch/Order.antt =====
-- The results of a parallel batch do not depend on the order in which its commands are done.
use chatgpt_web_oauth_mcp.Prelude.{
  ℕ, zero, suc, ◌+◌, ◌<◌, ◌≡◌, ◌⊎◌, refl, sym, ap, ◌∙◌, inl, inr, Option, none, some, List, [], ◌∷◌,
  In, Text, length, get_elem?, set, replicate, length-set, length-replicate, get_elem?-set_self,
  get_elem?-set_ne, Result, ok, arith, Option-cases, ℕ_discrete,
}
use chatgpt_web_oauth_mcp.Command.{CommandResult, RunError}
use chatgpt_web_oauth_mcp.Command.Batch.{
  Indexed, present, run_in_sequence, run_in_parallel, collect, future_result,
}

get_elem?-lt {ℓ} :
    {A : Type ℓ} (xs : List A) (i : ℕ) {a : A} → get_elem? xs i ≡ some a → i < length xs
get_elem?-lt [] i h = cc
get_elem?-lt (x ∷ xs) zero h = omega arith
get_elem?-lt (x ∷ xs) (suc i) h = omega (arith, get_elem?-lt xs i h)

-- The results in the order of the commands.
module _ (result_of : Text → CommandResult) where
  abbrev pub item_of : ℕ → Text → Indexed
  item_of index command = record { index = index; result = result_of command }

  abbrev pub expected_of : ℕ → List Text → List Indexed
  expected_of index [] = []
  expected_of index (command ∷ commands) = item_of index command ∷ expected_of (index + 1) commands

  pub length-expected_of :
      (index : ℕ) (commands : List Text) → length (expected_of index commands) ≡ length commands
  length-expected_of index [] = refl
  length-expected_of index (command ∷ commands) = ap suc (length-expected_of (index + 1) commands)

-- The result of each command, whatever the others do.
module _ (run : Text → Result RunError CommandResult) (result_of : Text → CommandResult)
    (runs : (command : Text) → run command ≡ ok (result_of command)) where
  abbrev item : ℕ → Text → Indexed
  item index command = item_of result_of index command

  abbrev expected : ℕ → List Text → List Indexed
  expected index commands = expected_of result_of index commands

  pub run_in_sequence-expected :
      (index : ℕ) (commands : List Text)
      → run_in_sequence run index commands ≡ ok (expected index commands)
  unfolding run_in_sequence
  run_in_sequence-expected index [] = refl
  run_in_sequence-expected index (command ∷ commands) =
      rw (runs command, run_in_sequence-expected (index + 1) commands)

  -- The slots after the commands of `completed` are done.
  record Filled (commands : List Text) (completed : List ℕ) (slots : List (Option Indexed))
      (outcome : Result RunError (List (Option Indexed))) : Type 0 where
    pub final : List (Option Indexed)
    pub returned : outcome ≡ ok final
    pub size : length final ≡ length slots
    pub filled :
        (i : ℕ) (command : Text)
        → get_elem? commands i ≡ some command
        → In i completed ⊎ (get_elem? slots i ≡ some (some (item i command)))
        → get_elem? final i ≡ some (some (item i command))

  future_result-some :
      (commands : List Text) (i : ℕ) {command : Text}
      → get_elem? commands i ≡ some command
      → future_result run commands i ≡ ok (some (item i command))
  unfolding future_result
  future_result-some commands i {command} h = rw (future_result, h, runs command)

  future_result-ok :
      (commands : List Text) (i : ℕ) → (v : Option Indexed) × (future_result run commands i ≡ ok v)
  unfolding future_result
  future_result-ok commands i = elim (Option-cases (get_elem? commands i)) [
    | inl e ↦ (none, rw (future_result, e))
    | inr (command, e) ↦ (some (item i command), future_result-some commands i e)
  ]

  -- A slot after one more command is done.
  set-slot :
      (commands : List Text) (slots : List (Option Indexed)) (index i : ℕ) (command : Text)
      {v : Option Indexed}
      → length slots ≡ length commands
      → future_result run commands index ≡ ok v
      → get_elem? commands i ≡ some command
      → (i ≡ index) ⊎ (get_elem? slots i ≡ some (some (item i command)))
      → get_elem? (set slots index v) i ≡ some (some (item i command))
  set-slot commands slots index i command {v} size e there old = elim (ℕ_discrete i index) [
    | yes same ↦
        let value : v ≡ some (item i command) = cc (e, future_result-some commands i there, same) in
        let inside : index < length slots = omega (arith, get_elem?-lt commands i there) in
        rw same (get_elem?-set_self slots index v inside) ∙ ap some value
    | no other ↦ elim old [
      | inl same ↦ absurd (other same)
      | inr h ↦ get_elem?-set_ne slots v (λ eq. other (sym eq)) ∙ h
    ]
  ]

  collect-Filled :
      (commands : List Text) (completed : List ℕ) (slots : List (Option Indexed))
      → length slots ≡ length commands
      → Filled commands completed slots (collect run commands completed slots)
  unfolding collect
  collect-Filled commands [] slots size = record {
    final = slots;
    returned = refl;
    size = refl;
    filled = λ i command there old. elim old [ inl h ↦ absurd h | inr h ↦ h ];
  }
  collect-Filled commands (index ∷ completed) slots size =
      let (v, e) = future_result-ok commands index in
      let rest =
        collect-Filled commands completed (set slots index v) (length-set slots index v ∙ size) in
      rw (collect, e)
        (record {
          final = rest.final;
          returned = rest.returned;
          size = rest.size ∙ length-set slots index v;
          filled = λ i command there old. rest.filled i command there (elim old [
            | inl (inl here) ↦ inr (set-slot commands slots index i command size e there (inl here))
            | inl (inr later) ↦ inl later
            | inr h ↦ inr (set-slot commands slots index i command size e there (inr h))
          ]);
        })

  present-expected :
      (commands : List Text) (slots : List (Option Indexed)) (k : ℕ)
      → length slots ≡ length commands
      → ((i : ℕ) (command : Text)
          → get_elem? commands i ≡ some command
          → get_elem? slots i ≡ some (some (item (k + i) command)))
      → present slots ≡ expected k commands
  unfolding present
  present-expected [] [] k size h = refl
  present-expected [] (slot ∷ slots) k size h = absurd (omega arith)
  present-expected (command ∷ commands) [] k size h = absurd (omega arith)
  present-expected (command ∷ commands) (slot ∷ slots) k size h =
      let first : slot ≡ some (item (k + 0) command) = cc (h 0 command refl) in
      let here : k + 0 ≡ k = omega arith in
      let rest = present-expected commands slots (k + 1) (omega arith) (λ i c there.
        let move : k + 1 + i ≡ k + suc i = omega arith in rw move (h (suc i) c there)) in
      rw (first, here, rest)

  -- Where every command returns a result, which does not depend on the others, a parallel batch
  -- has the results of the batch in sequence, in the order of the commands, in whatever order its
  -- commands are done, if each of them is.
  pub run_in_parallel-run_in_sequence :
      (commands : List Text) (completed : List ℕ)
      → ((i : ℕ) → i < length commands → In i completed)
      → run_in_parallel run commands completed ≡ run_in_sequence run 0 commands
  unfolding run_in_parallel
  run_in_parallel-run_in_sequence commands completed all =
      let slots : List (Option Indexed) = replicate (length commands) none in
      let c = collect-Filled commands completed slots (length-replicate (length commands) none) in
      let results =
        present-expected commands c.final 0 (c.size ∙ length-replicate (length commands) none)
          (λ i command there.
            let here : 0 + i ≡ i = omega arith in
            rw here (c.filled i command there (inl (all i (get_elem?-lt commands i there))))) in
      rw (c.returned, results, run_in_sequence-expected 0 commands)
