-- ===== src/Tenancy/Uuid.antt =====
-- `parseCanonicalUuid` of src/tenancy/tenant-selection.ts. The test of zod's uuid schema is a parameter;
-- it passes only texts of hexadecimal digits and dashes, so lower case is that of the letters A to F, and
-- a text's length is the number of its characters.
use Prim.Native.Char.{Char, code}
use taller_mecario_b.Base.{
  String, Bool, true, ◌||◌, not, Option, none, some, length, code_points, ◌==◌, string_key, nat_key,
  if◌then◌else◌, ◌≡◌, refl, sym, ◌∙◌, ap, arith, Bool-cases, inl, inr, subst,
}
use taller_mecario_b.Authz.Authorize.{Dynamic, text, other}

-- The texts that the schema accepts.
pub record UuidSchema : Type 0 where
  pub accepts : String → Bool

abbrev pub lower_digit : Char → Char
lower_digit c =
    if code c == 65
    then "a"
    else if code c == 66
    then "b"
    else if code c == 67
    then "c"
    else if code c == 68
    then "d"
    else if code c == 69
    then "e"
    else if code c == 70
    then "f"
    else c

-- `toLowerCase()`.
abbrev pub to_lower_case : String → String
to_lower_case String.[] = String.[]
to_lower_case (String.◌∷◌ c s) = String.◌∷◌ (lower_digit c) (to_lower_case s)

abbrev pub is_sentinel : String → Bool
is_sentinel canonical =
    canonical == "00000000-0000-0000-0000-000000000000"
    || canonical == "ffffffff-ffff-ffff-ffff-ffffffffffff"

unfoldable pub parse_canonical_uuid : UuidSchema → Dynamic → Option String
parse_canonical_uuid schema other = none
parse_canonical_uuid schema (text value) =
    if not (length (code_points value) == 36)
    then none
    else if not (schema.accepts value)
    then none
    else let canonical = to_lower_case value in
      if is_sentinel canonical then none else some canonical

lower_digit-twice : (c : Char) → lower_digit (lower_digit c) ≡ lower_digit c
lower_digit-twice c = elim (Bool-cases (code c == 65)) [
  | inl h0 ↦ let low : lower_digit c ≡ "a" = rw h0 refl in ap lower_digit low ∙ sym low
  | inr h0 ↦ elim (Bool-cases (code c == 66)) [
    | inl h1 ↦ let low : lower_digit c ≡ "b" = rw (h0, h1) refl in ap lower_digit low ∙ sym low
    | inr h1 ↦ elim (Bool-cases (code c == 67)) [
      | inl h2 ↦
          let low : lower_digit c ≡ "c" = rw (h0, h1, h2) refl in ap lower_digit low ∙ sym low
      | inr h2 ↦ elim (Bool-cases (code c == 68)) [
        | inl h3 ↦
            let low : lower_digit c ≡ "d" = rw (h0, h1, h2, h3) refl in ap lower_digit low ∙ sym low
        | inr h3 ↦ elim (Bool-cases (code c == 69)) [
          | inl h4 ↦
              let low : lower_digit c ≡ "e" = rw (h0, h1, h2, h3, h4) refl in
              ap lower_digit low ∙ sym low
          | inr h4 ↦ elim (Bool-cases (code c == 70)) [
            | inl h5 ↦
                let low : lower_digit c ≡ "f" = rw (h0, h1, h2, h3, h4, h5) refl in
                ap lower_digit low ∙ sym low
            | inr h5 ↦
                let low : lower_digit c ≡ c = rw (h0, h1, h2, h3, h4, h5) refl in ap lower_digit low
          ]
        ]
      ]
    ]
  ]
]

to_lower_case-twice : (s : String) → to_lower_case (to_lower_case s) ≡ to_lower_case s
to_lower_case-twice String.[] = refl
to_lower_case-twice (String.◌∷◌ c s) = rw (lower_digit-twice c, to_lower_case-twice s) refl

length-to_lower_case :
    (s : String) → length (code_points (to_lower_case s)) ≡ length (code_points s)
length-to_lower_case String.[] = refl
length-to_lower_case (String.◌∷◌ c s) = rw (length-to_lower_case s) refl

-- Where the schema accepts the lower case of what it accepts, the canonical form of an id is its own
-- canonical form.
pub parse_canonical_uuid-twice :
    (schema : UuidSchema)
    → ((s : String) → schema.accepts s ≡ true → schema.accepts (to_lower_case s) ≡ true)
    → (value canonical : String) → parse_canonical_uuid schema (text value) ≡ some canonical
    → parse_canonical_uuid schema (text canonical) ≡ some canonical
unfolding parse_canonical_uuid
parse_canonical_uuid-twice schema lowers value canonical h =
    let is_lower : to_lower_case value ≡ canonical = ground (arith, h) in
    let fine : parse_canonical_uuid schema (text (to_lower_case value))
        ≡ some (to_lower_case value) =
      ground (arith, h, lowers value, to_lower_case-twice value, length-to_lower_case value) in
    subst (λ (c : String). parse_canonical_uuid schema (text c) ≡ some c) is_lower fine
