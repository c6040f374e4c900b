-- ===== src/Wompi/Instruments.antt =====
-- The guard against raw payment instruments: assertNoRawPaymentInstrument of
-- src/integrations/wompi/contracts.ts. A value is what its own enumerable properties show; a key is
-- compared as the list of its code points.
pub mod Laws
use taller_mecario_b.Base.{
  ℕ, zero, suc, ◌+◌, String, Bool, true, false, ◌&&◌, ◌||◌, not, List, [], ◌∷◌, ◌++◌, Option, none,
  some, Result, ok, err, any, keep, leb, ◌==◌, nat_key, map, code_points, if◌then◌else◌,
}

mutual
  -- A value that is no object, an object with a function `toJSON`, an array, or another object.
  pub data Value : Type 0 where
    scalar has_to_json : Value
    array : Values → Value
    object : Entries → Value

  pub data Values : Type 0 where
    no_values : Values
    value : Value → Values → Values

  pub data Entries : Type 0 where
    no_entries : Entries
    entry : String → Value → Entries → Entries

-- The letters that lower case brings to a letter from a to z.
abbrev lower : ℕ → ℕ
lower c =
    if leb 65 c && leb c 90 then c + 32 else if c == 8490 then 107 else if c == 304 then 105 else c

abbrev is_alphanumeric : ℕ → Bool
is_alphanumeric c = (leb 97 c && leb c 122) || (leb 48 c && leb c 57)

-- `normalizePaymentKey`.
unfoldable pub normalize_payment_key : String → List ℕ
normalize_payment_key key = keep is_alphanumeric (map lower (code_points key))

abbrev same_codes : List ℕ → List ℕ → Bool
same_codes [] [] = true
same_codes (a ∷ rest) (b ∷ others) = a == b && same_codes rest others
same_codes _ _ = false

-- `forbiddenPaymentKeys`.
abbrev pub forbidden_payment_keys : List String
forbidden_payment_keys =
    "pan" ∷ "cardnumber" ∷ "cvv" ∷ "cvc" ∷ "securitycode" ∷ "expmonth" ∷ "expyear" ∷ "expirymonth"
    ∷ "expiryyear" ∷ "expirydate" ∷ "expirationmonth" ∷ "expirationyear" ∷ "expirationdate" ∷ []

unfoldable pub is_forbidden : String → Bool
unfolding normalize_payment_key
is_forbidden key =
    any (λ name. same_codes (normalize_payment_key key) (code_points name)) forbidden_payment_keys

-- The stack `pending`, its top first: `push` puts each value on top of the ones before it.
abbrev pub push_values : Values → List Value → List Value
push_values no_values pending = pending
push_values (value v vs) pending = push_values vs (v ∷ pending)

-- The loop over an object's entries: none where a key is forbidden.
abbrev pub push_entries : Entries → List Value → Option (List Value)
push_entries no_entries pending = some pending
push_entries (entry key v es) pending =
    if is_forbidden key then none else push_entries es (v ∷ pending)

-- One round of the loop, on the value that was popped: the stack after it, or the error.
abbrev pub visit : Value → List Value → Option (List Value)
visit scalar pending = some pending
visit has_to_json pending = none
visit (array vs) pending = some (push_values vs pending)
visit (object es) pending = push_entries es pending

pub data Verdict : Type 0 where
  accepted raw_payment_instrument_forbidden out_of_fuel : Verdict

-- The loop, with a bound on its rounds.
unfoldable pub scan : ℕ → List Value → Verdict
scan rounds [] = accepted
scan zero (v ∷ pending) = out_of_fuel
scan (suc rounds) (v ∷ pending) = elim (visit v pending) [
  | none ↦ raw_payment_instrument_forbidden
  | some rest ↦ scan rounds rest
]

-- How many values there are in a value, itself included: the rounds that the loop takes at most.
abbrev mutual
  pub size : Value → ℕ
  size scalar = 1
  size has_to_json = 1
  size (array vs) = suc (size_values vs)
  size (object es) = suc (size_entries es)

  pub size_values : Values → ℕ
  size_values no_values = 0
  size_values (value v vs) = size v + size_values vs

  pub size_entries : Entries → ℕ
  size_entries no_entries = 0
  size_entries (entry key v es) = size v + size_entries es

-- `assertNoRawPaymentInstrument`.
unfoldable pub assert_no_raw_payment_instrument : Value → Verdict
unfolding scan
assert_no_raw_payment_instrument v = scan (size v) (v ∷ [])
