-- ===== src/Budget/Honest.antt =====
-- What a response says about the budget.
use chatgpt_web_oauth_mcp.Prelude.{
  ap, ◌&&◌, ◌||◌, ltb, ◌>>=◌, ℕ, zero, suc, ◌<◌, ◌≡◌, refl, inl, inr, Bool, true, false, not,
  Option, none, some, arith, Text, ◌==◌, ok, Result-cases,
}
use chatgpt_web_oauth_mcp.Budget.Ends.{
  Ends, >>=-Ends, Ends-widen, if-Ends, IsMeasured, measure-Ends, WithinLimits, fits-WithinLimits,
}
use chatgpt_web_oauth_mcp.Budget.{
  estimating, exceeds_limit, ℤ, pos, negsuc, positive, own_or, validate_token_budget,
  resolve_token_budget, ResponseBudget, BudgetMeasurement, fits, Response, Rendering,
  measure_json_payload, settle, resettle, first_response, refused_response, finish,
  with_budget_metadata,
}

module _ {Value : Type 0} (int : Value → Option ℤ) where
  validated_positive :
      (value : Value) (name : Text) {n : ℕ} → validate_token_budget int value name ≡ ok n → 0 < n
  unfolding validate_token_budget
  validated_positive value name h = go (int value) h
    where
      go : (o : Option ℤ) {n : ℕ} → positive name o ≡ ok n → 0 < n
      go none e = unfold positive in cc
      go (some (negsuc n)) e = unfold positive in cc
      go (some (pos zero)) e = unfold positive in cc
      go (some (pos (suc n))) e = unfold positive in ground arith

  own_positive :
      (inherited : ℕ) (o : Option Value) (name : Text) {n : ℕ}
      → 0 < inherited
      → own_or int inherited o name ≡ ok n
      → 0 < n
  unfolding own_or
  own_positive inherited none name {n} h e = let same : inherited ≡ n = cc in rw (← same) h
  own_positive inherited (some value) name h e = validated_positive value name e

  -- A budget that resolves is positive, whether the tool has its own or inherits the global one,
  -- and the global one is valid even where the tool's own is used.
  pub resolve_token_budget_positive :
      (global_budget : Value) (tool_budget : Option Value) (global_name tool_name : Text) {n : ℕ}
      → resolve_token_budget int global_budget tool_budget global_name tool_name ≡ ok n
      → (0 < n) × (g : ℕ) × (validate_token_budget int global_budget global_name ≡ ok g)
  unfolding resolve_token_budget
  resolve_token_budget_positive global_budget tool_budget global_name tool_name h =
      elim (Result-cases (validate_token_budget int global_budget global_name)) [
        | inr (e, k) ↦ cc (rw (resolve_token_budget, k) at h)
        | inl (g, k) ↦ (
          own_positive g tool_budget tool_name (validated_positive global_budget global_name k)
              (rw (resolve_token_budget, k) at h),
          g,
          k,
        )
      ]

module _ {Payload : Type 0} (rendering : Rendering Payload) where
  open rendering use {render_json_payload, counting}

  -- The measurement is that of the response.
  abbrev Own : ResponseBudget → Response Payload → BudgetMeasurement → Type 0
  Own budget result = IsMeasured counting budget (render_json_payload result)

  measure_json_payload-Own :
      (budget : ResponseBudget) (result : Response Payload)
      → Ends counting (Own budget result) (measure_json_payload rendering result budget)
  unfolding measure_json_payload
  measure_json_payload-Own budget result = measure-Ends counting budget (render_json_payload result)

  -- A response that claims to be as complete as its content.
  pub record Plain (payload : Payload) (truncated : Bool) (stop_reason : Text)
      (result : Response Payload) : Type 0 where
    pub payload_ : result.payload ≡ payload
    pub complete : result.complete ≡ not truncated
    pub partial : result.partial ≡ truncated
    pub truncated_ : result.truncated ≡ truncated
    pub stop_reason_ : result.stop_reason ≡ stop_reason
    pub budget_exceeded : result.budget_exceeded ≡ none

  -- A response that says that it is cut, and which of the limits on tokens and bytes is exceeded.
  pub record Refusing (payload : Payload) (limits : Bool × Bool) (result : Response Payload)
      : Type 0 where
    pub payload_ : result.payload ≡ payload
    pub incomplete : result.complete ≡ false
    pub partial : result.partial ≡ true
    pub truncated : result.truncated ≡ true
    pub budget_exceeded : result.budget_exceeded ≡ some limits

  -- A text over a limit, with the limits that it exceeds.
  pub record Exceeds (budget : ResponseBudget) (text : Text) (limits : Bool × Bool) : Type 0 where
    pub tokens : ℕ
    pub counted : counting.encoded_length text ≡ some tokens
    pub over_tokens : limits.0 ≡ ltb budget.max_tokens tokens
    pub over_bytes : limits.1 ≡ exceeds_limit budget.max_bytes (counting.byte_count text)
    pub some_limit : (limits.0 || limits.1) ≡ true

  module _ (payload : Payload) (budget : ResponseBudget) (truncated : Bool)
      (stop_reason : Text) where
    -- A response that claims to be as complete as its content, which fits; or one that says that it
    -- is cut, where the response that claims it does not fit.
    pub data Says (r : Response Payload × BudgetMeasurement) : Type 0 where
      fitting :
          Plain payload truncated stop_reason r.0
          → WithinLimits counting budget (render_json_payload r.0)
          → fits r.1 ≡ true
          → Says r
      refusing :
          (limits : Bool × Bool) (claim : Response Payload)
          → Plain payload truncated stop_reason claim
          → Exceeds budget (render_json_payload claim) limits
          → Refusing payload limits r.0
          → Says r

    pub Says-payload : (r : Response Payload × BudgetMeasurement) → Says r → r.0.payload ≡ payload
    Says-payload r (fitting p w f) = p.payload_
    Says-payload r (refusing limits claim p x q) = q.payload_

    abbrev Claims : Response Payload × BudgetMeasurement → Type 0
    Claims r = Plain payload truncated stop_reason r.0 × Own budget r.0 r.1

    settle-Claims :
        (rounds : ℕ) (result : Response Payload) (measurement : BudgetMeasurement)
        → Plain payload truncated stop_reason result
        → Own budget result measurement
        → Ends counting Claims (settle rendering rounds budget result measurement)
    unfolding settle
    settle-Claims zero result measurement p m = (p, m)
    settle-Claims (suc rounds) result measurement p m =
        let next = estimating rendering measurement.estimated_tokens result in
        if-Ends counting Claims (result.estimated_tokens == measurement.estimated_tokens) _ _
          (λ h. (p, m))
          (λ h.
            >>=-Ends counting (Own budget next) Claims (measure_json_payload rendering next budget)
              (settle rendering rounds budget next) (measure_json_payload-Own budget next)
              (λ again own. settle-Claims rounds next again (same_claim next p) own))
      where
        same_claim :
            (next : Response Payload)
            → Plain payload truncated stop_reason result
            → Plain payload truncated stop_reason
                (estimating rendering next.estimated_tokens result)
        same_claim next q = record {
          payload_ = q.payload_;
          complete = q.complete;
          partial = q.partial;
          truncated_ = q.truncated_;
          stop_reason_ = q.stop_reason_;
          budget_exceeded = q.budget_exceeded;
        }

    resettle-Refusing :
        (limits : Bool × Bool) (rounds : ℕ) (result : Response Payload)
        (measurement : BudgetMeasurement)
        → Refusing payload limits result
        → Ends counting
            (λ r. Refusing payload limits r.0)
            (resettle rendering rounds budget result measurement)
    unfolding resettle
    resettle-Refusing limits zero result measurement p = p
    resettle-Refusing limits (suc rounds) result measurement p =
        >>=-Ends counting (Own budget result) (λ r. Refusing payload limits r.0)
          (measure_json_payload rendering result budget) _ (measure_json_payload-Own budget result)
          (λ again own.
            if-Ends counting (λ r. Refusing payload limits r.0)
              (result.estimated_tokens == again.estimated_tokens) _ _ (λ h. p)
              (λ h. resettle-Refusing limits rounds _ again (record {
                payload_ = p.payload_;
                incomplete = p.incomplete;
                partial = p.partial;
                truncated = p.truncated;
                budget_exceeded = p.budget_exceeded;
              })))

    finish-Says :
        (r : Response Payload × BudgetMeasurement)
        → Claims r
        → Ends counting Says (finish rendering truncated budget r)
    unfolding finish refused_response fits
    finish-Says (result, measurement) (p, (tokens, counted, same)) =
        let limits : Bool × Bool =
          (measurement.exceeds_token_budget, measurement.exceeds_byte_budget) in
        if-Ends counting Says (not (fits measurement)) _ _
          (λ h.
            Ends-widen counting (λ r. Refusing payload limits r.0) Says _
              (resettle-Refusing limits 5 (refused_response rendering truncated result measurement)
                measurement
                (record {
                  payload_ = p.payload_;
                  incomplete = refl;
                  partial = refl;
                  truncated = refl;
                  budget_exceeded = refl;
                }))
              (λ r refused.
                refusing limits result p
                  (record {
                    tokens = tokens;
                    counted = counted;
                    over_tokens = ap (λ (m : BudgetMeasurement). m.exceeds_token_budget) same;
                    over_bytes = ap (λ (m : BudgetMeasurement). m.exceeds_byte_budget) same;
                    some_limit =
                        either_limit measurement.exceeds_byte_budget
                          measurement.exceeds_token_budget h;
                  })
                  refused))
          (λ h.
            let fit = both_fit measurement.exceeds_byte_budget measurement.exceeds_token_budget h in
            fitting p
              (fits-WithinLimits counting budget (render_json_payload result) measurement
                (tokens, counted, same) fit)
              fit)
      where
        either_limit : (b t : Bool) → not (not b && not t) ≡ true → (t || b) ≡ true
        either_limit true true h = refl
        either_limit true false h = refl
        either_limit false true h = refl
        either_limit false false h = cc

        both_fit : (b t : Bool) → not (not b && not t) ≡ false → (not b && not t) ≡ true
        both_fit true true h = cc
        both_fit true false h = cc
        both_fit false true h = cc
        both_fit false false h = refl

    -- The call raises only where the encoding refuses a text. Else the response has the payload, and
    -- either it is within both limits, as complete as its content, with the given stop reason and no
    -- exceeded limit; or the response that claims that much exceeds a limit, and the one that is
    -- returned says instead that it is cut, and which of the two limits that one exceeds.
    pub with_budget_metadata-honest :
        Ends counting Says (with_budget_metadata rendering payload budget truncated stop_reason)
    unfolding with_budget_metadata first_response
    with_budget_metadata-honest =
        let start = first_response rendering payload budget truncated stop_reason in
        let measuring = measure_json_payload rendering start budget in
        >>=-Ends counting Claims Says (measuring >>= settle rendering 5 budget start)
          (finish rendering truncated budget)
          (>>=-Ends counting (Own budget start) Claims measuring (settle rendering 5 budget start)
            (measure_json_payload-Own budget start)
            (λ m own.
              settle-Claims 5 start m
                (record {
                  payload_ = refl;
                  complete = refl;
                  partial = refl;
                  truncated_ = refl;
                  stop_reason_ = refl;
                  budget_exceeded = refl;
                })
                own))
          finish-Says
