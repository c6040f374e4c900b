-- ===== src/Wompi/Adapter/Retries.antt =====
-- The loop of requests against what it promises: which attempt's outcome it gives, and what it does.
use taller_mecario_b.Base.{
  ℕ, zero, suc, ◌+◌, ◌≤◌, min, Bool, true, false, ◌&&◌, ◌||◌, not, List, [], ◌∷◌, ◌++◌, Result, ok,
  err, leb, ◌==◌, nat_key, all, if◌then◌else◌, ◌≡◌, refl, sym, ◌∙◌, ap, subst, arith, ◌⊎◌, inl, inr,
  both_true,
}
use mathlib.Core.List.{append_assoc}
use taller_mecario_b.Base.Steps.{◌>>=◌, return, throw, modify}
use taller_mecario_b.Wompi.Adapter.{
  AdapterError, Config, Parsers, Fetched, Action, called, slept, Run, delay, outcome, continue_with,
  attempts, request,
}

module _ {T : Type 0} (config : Config) (call : ℕ → Result AdapterError T) where
  abbrev pub is_retryable : Result AdapterError T → Bool
  is_retryable (ok value) = false
  is_retryable (err e) = e.retryable

  abbrev pub delay_after : ℕ → Result AdapterError T → ℕ
  delay_after attempt (ok value) = 0
  delay_after attempt (err e) = delay config attempt e

  -- The actions of an attempt and of so many retries.
  abbrev pub trail : ℕ → ℕ → List Action
  trail attempt zero = called attempt ∷ []
  trail attempt (suc retries) =
      called attempt ∷ slept (delay_after attempt (call attempt)) ∷ trail (suc attempt) retries

  -- Each of these attempts ended with an error that is worth a retry.
  abbrev pub all_retryable : ℕ → ℕ → Bool
  all_retryable attempt zero = true
  all_retryable attempt (suc retries) =
      is_retryable (call attempt) && all_retryable (suc attempt) retries

  -- What the loop promises, with so many attempts left after this one.
  pub record Tried (attempt left : ℕ) (before : List Action)
      (run : Result AdapterError T × List Action) : Type 0 where
    pub retries : ℕ
    pub bounded : retries ≤ left
    pub all_failed : all_retryable attempt retries ≡ true
    pub ended : (retries ≡ left) ⊎ (is_retryable (call (attempt + retries)) ≡ false)
    pub replied : run.0 ≡ call (attempt + retries)
    pub acted : run.1 ≡ before ++ trail attempt retries

  abbrev Ran : Type 0
  Ran = Result AdapterError T × List Action

  -- An attempt that ends the loop.
  stops :
      (attempt left : ℕ) (before : List Action) (r : Result AdapterError T)
      → call attempt ≡ r
      → (0 ≡ left) ⊎ (is_retryable r ≡ false)
      → Tried attempt left before (r, before ++ called attempt ∷ [])
  stops attempt left before r ran ended = record {
    retries = 0;
    bounded = omega arith;
    all_failed = refl;
    ended = elim ended [ inl last ↦ inl last | inr final ↦ inr (rw (add_zero attempt, ran) final) ];
    replied = sym (ap call (add_zero attempt) ∙ ran);
    acted = refl;
  }
    where
      add_zero : (n : ℕ) → n + 0 ≡ n
      add_zero n = omega arith

  -- An attempt that the loop retries.
  goes_on :
      (attempt left : ℕ) (before : List Action) {rest : Ran} (e : AdapterError)
      → call attempt ≡ err e
      → e.retryable ≡ true
      → Tried
          (suc attempt)
          left
          ((before ++ called attempt ∷ []) ++ slept (delay config attempt e) ∷ [])
          rest
      → Tried attempt (suc left) before rest
  goes_on attempt left before {rest} e ran again tried = record {
    retries = suc tried.retries;
    bounded = omega (arith, tried.bounded);
    all_failed = rw (ran, again) tried.all_failed;
    ended = elim tried.ended [
      | inl last ↦ inl (ap suc last)
      | inr final ↦ inr (rw (shift attempt tried.retries) final)
    ];
    replied = tried.replied ∙ ap call (sym (shift attempt tried.retries));
    acted =
        tried.acted
        ∙ append_assoc (before ++ called attempt ∷ []) (slept (delay config attempt e) ∷ []) _
        ∙ append_assoc before (called attempt ∷ []) _
        ∙ rw ran refl;
  }
    where
      shift : (n m : ℕ) → n + suc m ≡ suc n + m
      shift n m = omega arith

  by_test :
      (b : Bool) {attempt left : ℕ} {before s : List Action} (x y : Run T)
      → (b ≡ true → Tried attempt left before (x s))
      → (b ≡ false → Tried attempt left before (y s))
      → Tried attempt left before ((if b then x else y) s)
  by_test true x y f g = f refl
  by_test false x y f g = g refl

  last_attempt :
      (attempt : ℕ) (before : List Action) (again : Run T)
      → attempt ≡ config.max_attempts
      → (r : Result AdapterError T) → call attempt ≡ r
      → Tried attempt 0 before
          (continue_with config attempt again r (before ++ called attempt ∷ []))
  unfolding ◌>>=◌ throw return
  last_attempt attempt before again h (ok value) ran =
      stops attempt 0 before (ok value) ran (inr refl)
  last_attempt attempt before again h (err e) ran =
      by_test (not e.retryable || attempt == config.max_attempts) _ _
        (λ end. stops attempt 0 before (err e) ran (inl refl))
        (λ more. absurd (not_last e.retryable (attempt == config.max_attempts) more is_last))
    where
      is_last : attempt == config.max_attempts ≡ true
      is_last = ground (arith, h)

      not_last : (b last : Bool) → not b || last ≡ false → last ≡ true → ⊥
      not_last b last h h' = ground arith

  early_attempt :
      (attempt left : ℕ) (before : List Action) (again : Run T)
      → attempt + suc left ≡ config.max_attempts
      → ((s : List Action) → Tried (suc attempt) left s (again s))
      → (r : Result AdapterError T) → call attempt ≡ r
      → Tried attempt
          (suc left)
          before
          (continue_with config attempt again r (before ++ called attempt ∷ []))
  unfolding ◌>>=◌ throw return modify
  early_attempt attempt left before again h rest (ok value) ran =
      stops attempt (suc left) before (ok value) ran (inr refl)
  early_attempt attempt left before again h rest (err e) ran =
      by_test (not e.retryable || attempt == config.max_attempts) _ _
        (λ end.
          stops attempt (suc left) before (err e) ran
            (inr (final e.retryable (attempt == config.max_attempts) end is_not_last)))
        (λ more.
          goes_on attempt left before e ran
            (retried e.retryable (attempt == config.max_attempts) more)
            (rest ((before ++ called attempt ∷ []) ++ slept (delay config attempt e) ∷ [])))
    where
      is_not_last : attempt == config.max_attempts ≡ false
      is_not_last = ground (arith, h)

      final : (b last : Bool) → not b || last ≡ true → last ≡ false → b ≡ false
      final b last h h' = ground arith

      retried : (b last : Bool) → not b || last ≡ false → b ≡ true
      retried b last h = ground arith

  attempts-Tried :
      (left attempt : ℕ) (before : List Action)
      → attempt + left ≡ config.max_attempts
      → Tried attempt left before (attempts config call attempt (suc left) before)
  unfolding attempts ◌>>=◌ modify
  attempts-Tried zero attempt before h =
      last_attempt attempt before (attempts config call (suc attempt) zero) (omega (arith, h))
        (call attempt) refl
  attempts-Tried (suc left) attempt before h =
      early_attempt attempt left before (attempts config call (suc attempt) (suc left)) h
        (λ s. attempts-Tried left (suc attempt) s (omega (arith, h))) (call attempt) refl

-- A request makes at least one attempt and at most as many as are configured, and gives the outcome of
-- its last one: the first that succeeds or fails for good, and the last configured one where every
-- earlier one failed for a reason worth a retry. Between two attempts it sleeps once, as long as the
-- failure of the former says.
pub request-Tried :
    {T : Type 0} (config : Config) (parsers : Parsers) (clock : ℕ → ℕ) (fetch : ℕ → Fetched T)
    (left : ℕ)
    → config.max_attempts ≡ suc left
    → Tried config
        (λ n. outcome parsers (clock n) (fetch n))
        1
        left
        []
        (request config parsers clock fetch [])
unfolding request
request-Tried config parsers clock fetch left h =
    subst
      (λ n.
        Tried config (λ m. outcome parsers (clock m) (fetch m)) 1 left []
          (attempts config (λ m. outcome parsers (clock m) (fetch m)) 1 n []))
      (sym h)
      (attempts-Tried config (λ n. outcome parsers (clock n) (fetch n)) left 1 []
        (omega (arith, h)))

-- How many calls there are among the actions.
abbrev pub calls : List Action → ℕ
calls [] = 0
calls (called n ∷ actions) = suc (calls actions)
calls (slept n ∷ actions) = calls actions

-- An action that does not sleep longer than is configured.
abbrev pub is_short : Config → Action → Bool
is_short config (called n) = true
is_short config (slept n) = leb n config.max_retry_delay

module _ {T : Type 0} (config : Config) (call : ℕ → Result AdapterError T) where
  trail-calls : (attempt retries : ℕ) → calls (trail config call attempt retries) ≡ suc retries
  trail-calls attempt zero = refl
  trail-calls attempt (suc retries) = ap suc (trail-calls (suc attempt) retries)

  delay_after-short :
      (attempt : ℕ) (r : Result AdapterError T)
      → leb (delay_after config call attempt r) config.max_retry_delay ≡ true
  delay_after-short attempt (ok value) = ground arith
  delay_after-short attempt (err e) = least _ config.max_retry_delay
    where
      least : (a b : ℕ) → leb (min a b) b ≡ true
      least a b = ground arith

  trail-short :
      (attempt retries : ℕ) → all (is_short config) (trail config call attempt retries) ≡ true
  trail-short attempt zero = refl
  trail-short attempt (suc retries) =
      both_true (delay_after-short attempt (call attempt)) (trail-short (suc attempt) retries)

-- Whatever the provider answers, a request ends after at least one call and at most as many as are
-- configured, and no sleep between them is longer than the configured delay.
pub request-bounded :
    {T : Type 0} (config : Config) (parsers : Parsers) (clock : ℕ → ℕ) (fetch : ℕ → Fetched T)
    (left : ℕ)
    → config.max_attempts ≡ suc left
    → (1 ≤ calls (request config parsers clock fetch []).1)
      × (calls (request config parsers clock fetch []).1 ≤ config.max_attempts)
      × (all (is_short config) (request config parsers clock fetch []).1 ≡ true)
request-bounded config parsers clock fetch left h =
    let tried = request-Tried config parsers clock fetch left h in
    let call = λ (n : ℕ). outcome parsers (clock n) (fetch n) in
    let counted : calls (request config parsers clock fetch []).1 ≡ suc tried.retries =
      ap calls tried.acted ∙ trail-calls config call 1 tried.retries in
    (
      omega (arith, counted),
      omega (arith, counted, tried.bounded, h),
      ap (all (is_short config)) tried.acted ∙ trail-short config call 1 tried.retries,
    )
