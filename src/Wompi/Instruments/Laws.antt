-- ===== src/Wompi/Instruments/Laws.antt =====
-- The guard's loop against a recursive reading of the value.
use taller_mecario_b.Base.{
  ℕ, zero, suc, ◌+◌, ◌≤◌, Bool, true, false, ◌&&◌, not, List, [], ◌∷◌, Option, none, some, ◌≡◌,
  refl, ◌∙◌, ap, arith, ◌⊎◌, inl, inr, Bool-cases,
}
use taller_mecario_b.Wompi.Instruments.{
  Value, scalar, has_to_json, array, object, Values, no_values, value, Entries, no_entries, entry,
  is_forbidden, push_values, push_entries, Verdict, accepted, raw_payment_instrument_forbidden,
  scan, size, size_values, size_entries, assert_no_raw_payment_instrument,
}

-- No object in the value has a forbidden key or a function `toJSON`.
abbrev mutual
  pub is_clean : Value → Bool
  is_clean scalar = true
  is_clean has_to_json = false
  is_clean (array vs) = are_clean vs
  is_clean (object es) = entries_clean es

  pub are_clean : Values → Bool
  are_clean no_values = true
  are_clean (value v vs) = is_clean v && are_clean vs

  pub entries_clean : Entries → Bool
  entries_clean no_entries = true
  entries_clean (entry key v es) = not (is_forbidden key) && (is_clean v && entries_clean es)

abbrev pub verdict : Bool → Verdict
verdict true = accepted
verdict false = raw_payment_instrument_forbidden

abbrev total : List Value → ℕ
total [] = 0
total (v ∷ pending) = size v + total pending

abbrev stack_clean : List Value → Bool
stack_clean [] = true
stack_clean (v ∷ pending) = is_clean v && stack_clean pending

and_swap : (a b c : Bool) → b && (a && c) ≡ a && b && c
and_swap a b c = ground arith

push_values-total :
    (vs : Values) (pending : List Value)
    → total (push_values vs pending) ≡ size_values vs + total pending
push_values-total no_values pending = omega arith
push_values-total (value v vs) pending = omega (arith, push_values-total vs (v ∷ pending))

push_values-clean :
    (vs : Values) (pending : List Value)
    → stack_clean (push_values vs pending) ≡ are_clean vs && stack_clean pending
push_values-clean no_values pending = refl
push_values-clean (value v vs) pending =
    push_values-clean vs (v ∷ pending) ∙ and_swap (is_clean v) (are_clean vs) (stack_clean pending)

-- What the loop over an object's entries gives.
Pushed : Entries → List Value → Option (List Value) → Type 0
Pushed es pending o =
    ((o ≡ none) × (entries_clean es ≡ false))
    ⊎ ((rest : List Value) × (o ≡ some rest)
        × (total rest ≡ size_entries es + total pending)
        × (stack_clean rest ≡ entries_clean es && stack_clean pending))

push_entries-Pushed :
    (es : Entries) (pending : List Value) → Pushed es pending (push_entries es pending)
unfolding Pushed
push_entries-Pushed no_entries pending = inr (pending, refl, omega arith, refl)
push_entries-Pushed (entry key v es) pending = elim (Bool-cases (is_forbidden key)) [
  | inl bad ↦ rw bad (inl (refl, refl))
  | inr fine ↦ rw fine (elim (push_entries-Pushed es (v ∷ pending)) [
    | inl (stopped, dirty) ↦ inl (stopped, clean_false (is_clean v) dirty)
    | inr (rest, pushed, measured, clean) ↦ inr (
      rest,
      pushed,
      omega (arith, measured),
      clean ∙ and_swap (is_clean v) (entries_clean es) (stack_clean pending),
    )
  ])
]
  where
    clean_false : (a : Bool) {b : Bool} → b ≡ false → a && b ≡ false
    clean_false a {b} h = ground arith

size_positive : (v : Value) → 1 ≤ size v
size_positive scalar = omega arith
size_positive has_to_json = omega arith
size_positive (array vs) = omega arith
size_positive (object es) = omega arith

scan-verdict :
    (rounds : ℕ) (pending : List Value)
    → total pending ≤ rounds
    → scan rounds pending ≡ verdict (stack_clean pending)
unfolding scan Pushed
scan-verdict rounds [] h = refl
scan-verdict zero (v ∷ pending) h = absurd (omega (arith, h, size_positive v))
scan-verdict (suc rounds) (scalar ∷ pending) h = scan-verdict rounds pending (omega (arith, h))
scan-verdict (suc rounds) (has_to_json ∷ pending) h = refl
scan-verdict (suc rounds) (array vs ∷ pending) h =
    scan-verdict rounds (push_values vs pending) (omega (arith, h, push_values-total vs pending))
    ∙ ap verdict (push_values-clean vs pending)
scan-verdict (suc rounds) (object es ∷ pending) h =
    by_stack (λ rest fits. scan-verdict rounds rest fits) (push_entries es pending)
      (push_entries-Pushed es pending)
  where
    by_stack :
        ((rest : List Value) → total rest ≤ rounds → scan rounds rest ≡ verdict (stack_clean rest))
        → (o : Option (List Value)) → Pushed es pending o
        → elim o [ none ↦ raw_payment_instrument_forbidden | some rest ↦ scan rounds rest ]
          ≡ verdict (entries_clean es && stack_clean pending)
    by_stack again none (inl (stopped, dirty)) = rw dirty refl
    by_stack again none (inr (rest, pushed, measured, clean)) = cc
    by_stack again (some rest) (inl (stopped, dirty)) = cc
    by_stack again (some stack) (inr (rest, pushed, measured, clean)) =
        let it : stack ≡ rest = cc in
        rw it (again rest (omega (arith, h, measured)) ∙ ap verdict clean)

-- The loop of the guard needs as many rounds as the value has values in it: it then accepts the value
-- exactly when no object in it, at whatever depth, has a key that is forbidden once it is in lower case
-- and without other characters than letters and digits, or a function `toJSON`.
pub assert_no_raw_payment_instrument-is_clean :
    (v : Value) → assert_no_raw_payment_instrument v ≡ verdict (is_clean v)
unfolding assert_no_raw_payment_instrument
assert_no_raw_payment_instrument-is_clean v =
    scan-verdict (size v) (v ∷ []) (omega arith) ∙ ap verdict (and_true_right (is_clean v))
  where
    and_true_right : (b : Bool) → b && true ≡ b
    and_true_right true = refl
    and_true_right false = refl
