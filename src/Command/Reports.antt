-- ===== src/Command/Reports.antt =====
-- What the result of a started command tells.
use chatgpt_web_oauth_mcp.Prelude.{
  ℕ, zero, suc, ◌&&◌, not, ◌≡◌, ◌⊎◌, ◌↔◌, refl, inl, inr, Bool, true, false, ◌||◌, Option, none,
  some, [], Text, Result, ok, err, ◌>>=◌, arith, Bool-cases,
}
use chatgpt_web_oauth_mcp.FileSystem.{FilePath, Codec}
use chatgpt_web_oauth_mcp.Budget.{response_budget, ℤ, pos, negsuc, Counting, Measuring}
use chatgpt_web_oauth_mcp.Budget.Ends.{Excused, Ends}
use chatgpt_web_oauth_mcp.Output.Render.{Rendered, initial_texts, render_captured_output}
use chatgpt_web_oauth_mcp.Output.Render.Presents.{Presented, render_captured_output-Presented}
use chatgpt_web_oauth_mcp.Command.{
  System, Ran, CommandResult, RunError, is_above, max_command_timeout_seconds, is_zero,
  not_measured, uncaught, exit_code_of, captured, finished, start_command, run_command,
}

zero_exit : (o : Option ℤ) → (is_zero (exit_code_of o) ≡ true) ↔ (o ≡ some (pos 0))
zero_exit none = (λ h. cc, λ h. cc)
zero_exit (some (pos zero)) = (λ h. refl, λ h. refl)
zero_exit (some (pos (suc n))) = (λ h. cc, λ h. cc)
zero_exit (some (negsuc n)) = (λ h. cc, λ h. cc)

-- The result of a command that ran: what it says of success, and that its output is the rendering
-- of what was captured, which keeps to the budget.
pub record ReportsRun (codec : Codec) (counting : Counting) (max_tokens limit : ℕ) (ran : Ran)
    (result : CommandResult) : Type 0 where
  pub rendering : Rendered
  pub output :
      Presented counting max_tokens
        (captured limit ran)
        (initial_texts counting max_tokens codec (captured limit ran))
        rendering
  pub texts : (result.stdout ≡ rendering.texts.out) × (result.stderr ≡ rendering.texts.error)
  pub succeeds :
      (result.success ≡ true)
      ↔ ((ran.wait_expired || ran.readers_alive) ≡ false) × (ran.returncode ≡ some (pos 0))
  pub times_out : result.timed_out_ ≡ (ran.wait_expired || ran.readers_alive)

-- The two members that tell how a command ended.
finished-ends :
    (command : Text) (cwd : FilePath) (timeout : ℤ) (force : Bool) (ran : Ran) (output : Rendered)
    → let result = finished command cwd timeout force ran output in
      ((result.success ≡ true)
        ↔ ((ran.wait_expired || ran.readers_alive) ≡ false) × (ran.returncode ≡ some (pos 0)))
      × (result.timed_out_ ≡ (ran.wait_expired || ran.readers_alive))
      × (result.stdout ≡ output.texts.out)
      × (result.stderr ≡ output.texts.error)
finished-ends command cwd timeout force ran output =
    elim (Bool-cases (ran.wait_expired || ran.readers_alive)) [
      | inl e ↦ rw e ((λ h. cc, λ (h, k). cc), refl, refl, refl)
      | inr e ↦ rw e (
        (λ h. (refl, (zero_exit ran.returncode).0 h), λ (h, k). (zero_exit ran.returncode).1 k),
        refl,
        refl,
        refl,
      )
    ]

-- A result of which P holds, or the exception of a text that the encoding refuses.
abbrev pub Concludes : {A : Type 0} → Counting → (A → Type 0) → Result RunError A → Type 0
Concludes counting P (ok a) = P a
Concludes counting P (err (not_measured e)) = Excused counting e
Concludes counting P (err _) = ⊥

pub uncaught-Concludes :
    {A B : Type 0} (counting : Counting) (P : A → Type 0) (Q : B → Type 0) (m : Measuring A)
    (next : A → Result RunError B)
    → Ends counting P m
    → ((a : A) → P a → Concludes counting Q (next a))
    → Concludes counting Q (uncaught m >>= next)
uncaught-Concludes counting P Q (ok a) next h f = f a h
uncaught-Concludes counting P Q (err e) next h f = h

-- Where the encoding counts no tokens for an empty text, the directory exists, both limits are
-- positive and the timeout is allowed or forced, a command that starts has a result, or the encoding
-- refuses a text and that exception is raised. The result succeeds exactly if its deadline did not
-- pass and its return code is 0, it is called timed out exactly if the deadline passed, and its texts
-- are the rendering of its captured streams in the budget.
pub run_command-ReportsRun :
    (system : System) (codec : Codec) (counting : Counting) (encoding_name command : Text)
    (cwd : FilePath) (timeout : ℤ) (force : Bool) (tokens limit : ℕ) (ran : Ran)
    → counting.encoded_length [] ≡ some 0
    → (is_above timeout max_command_timeout_seconds ≡ false) ⊎ (force ≡ true)
    → system.exists cwd ≡ true
    → system.is_dir cwd ≡ true
    → system.popen command cwd ≡ some ran
    → Concludes counting (ReportsRun codec counting (suc tokens) (suc limit) ran) (
        run_command system codec counting encoding_name command cwd timeout force
          (pos (suc tokens))
          (pos (suc limit)))
unfolding run_command start_command response_budget
run_command-ReportsRun system codec counting encoding_name command cwd timeout force tokens limit
      ran empty allowed there dir started =
    let guard : (is_above timeout max_command_timeout_seconds && not force) ≡ false =
      ground (arith, allowed) in
    let streams = captured (suc limit) ran in
    let P =
      Presented counting (suc tokens) streams (initial_texts counting (suc tokens) codec streams) in
    rw (guard, there, dir, start_command, started)
      (uncaught-Concludes counting P (ReportsRun codec counting (suc tokens) (suc limit) ran)
        (render_captured_output counting (suc tokens) codec encoding_name streams (suc limit)) _
        (render_captured_output-Presented counting (suc tokens) codec encoding_name streams
          (suc limit) empty)
        (λ output presented.
          let (succeeds, times_out, out, error) =
            finished-ends command cwd timeout force ran output in
          record {
            rendering = output;
            output = presented;
            texts = (out, error);
            succeeds = succeeds;
            times_out = times_out;
          }))
