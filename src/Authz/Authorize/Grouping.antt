-- ===== src/Authz/Authorize/Grouping.antt =====
-- The grouping of grant rows by permission code, against the rows themselves: the scopes of a code
-- are those of its rows, in the order of the rows.
use taller_mecario_b.Base.{
  String, Bool, true, ◌&&◌, List, [], ◌∷◌, ◌++◌, Option, none, some, ok, bind_ok, ◌≡◌, refl, sym,
  ◌∙◌, ap, arith, any, all, any-append, ◌==◌, string_key, ==_sound, Bool-cases, inl, inr,
  Option-cases, if◌then◌else◌, find, find_sound, find-none, ==_ne,
}
use mathlib.Core.List.{append_assoc, append-nil}
use taller_mecario_b.Collections.{has, get}
use taller_mecario_b.Collections.Laws.{get-set}
use taller_mecario_b.Authz.Roles.{ResourceScope, tenant, scope_text, scope_key, resource_scopes}
use taller_mecario_b.Authz.Matrix.{permission_codes}
use taller_mecario_b.Authz.Authorize.{
  PermissionGrantRow, text, parse_permission_code, parse_resource_scope, group_rows, push_scope,
  ScopesByPermission,
}

-- The row grants the scope for the code.
abbrev pub grants_scope : String → ResourceScope → PermissionGrantRow → Bool
grants_scope code scope row = row.permission_code == code && row.resource_scope == scope_text scope

-- A row whose code and scope are both known.
abbrev pub is_known : PermissionGrantRow → Bool
is_known row =
    has row.permission_code permission_codes
    && any (λ s. scope_text s == row.resource_scope) resource_scopes

scope_of_text : String → Option ResourceScope
scope_of_text value = find (λ s. scope_text s == value) resource_scopes

abbrev one_scope : Option ResourceScope → List ResourceScope
one_scope none = []
one_scope (some s) = s ∷ []

-- The scopes of the rows of a code.
pub scopes_for : String → List PermissionGrantRow → List ResourceScope
scopes_for code [] = []
scopes_for code (row ∷ rows) =
    (if row.permission_code == code then one_scope (scope_of_text row.resource_scope) else [])
    ++ scopes_for code rows

-- A map entry after more scopes were pushed to it.
abbrev pub extend : Option (List ResourceScope) → List ResourceScope → Option (List ResourceScope)
extend o [] = o
extend none (s ∷ ss) = some (s ∷ ss)
extend (some old) (s ∷ ss) = some (old ++ s ∷ ss)

extend-append :
    (o : Option (List ResourceScope)) (xs ys : List ResourceScope)
    → extend (extend o xs) ys ≡ extend o (xs ++ ys)
extend-append o [] ys = refl
extend-append none (x ∷ xs) [] = simp append-nil
extend-append none (x ∷ xs) (y ∷ ys) = refl
extend-append (some old) (x ∷ xs) [] = simp append-nil
extend-append (some old) (x ∷ xs) (y ∷ ys) = ap some (append_assoc old (x ∷ xs) (y ∷ ys))

get-push_scope :
    (k code : String) (s : ResourceScope) (m : ScopesByPermission)
    → get k (push_scope code s m) ≡ extend (get k m) (if code == k then s ∷ [] else [])
get-push_scope k code s m = elim (Option-cases (get code m)) [
  | inl fresh ↦ rw (fresh, push_scope) (rw (get-set code k (s ∷ []) m) (by_key fresh))
  | inr (old, found) ↦
      rw (found, push_scope) (rw (get-set code k (old ++ s ∷ []) m) (by_key' found))
]
  where
    by_key :
        get code m ≡ none
        → (if code == k then some (s ∷ []) else get k m)
          ≡ extend (get k m) (if code == k then s ∷ [] else [])
    by_key fresh = elim (Bool-cases (code == k)) [
      | inl same ↦ rw same (rw (← ==_sound code k same, fresh) refl)
      | inr other ↦ rw other refl
    ]

    by_key' :
        {old : List ResourceScope}
        → get code m ≡ some old
        → (if code == k then some (old ++ s ∷ []) else get k m)
          ≡ extend (get k m) (if code == k then s ∷ [] else [])
    by_key' found = elim (Bool-cases (code == k)) [
      | inl same ↦ rw same (rw (← ==_sound code k same, found) refl)
      | inr other ↦ rw other refl
    ]

parse_permission_code-ok :
    (value : String) {code : String}
    → parse_permission_code (text value) ≡ ok code
    → (code ≡ value) × (has value permission_codes ≡ true)
unfolding parse_permission_code
parse_permission_code-ok value h = ground arith

pub parse_permission_code-known :
    (value : String)
    → has value permission_codes ≡ true
    → parse_permission_code (text value) ≡ ok value
unfolding parse_permission_code
parse_permission_code-known value h = ground arith

parse_resource_scope-ok :
    (value : String) {scope : ResourceScope}
    → parse_resource_scope (text value) ≡ ok scope
    → (scope_of_text value ≡ some scope) × (any (λ s. scope_text s == value) resource_scopes ≡ true)
unfolding parse_resource_scope scope_of_text
parse_resource_scope-ok value h = ground arith

parse_resource_scope-known :
    (value : String)
    → any (λ s. scope_text s == value) resource_scopes ≡ true
    → (scope : ResourceScope) × (parse_resource_scope (text value) ≡ ok scope)
unfolding parse_resource_scope
parse_resource_scope-known value h =
    elim (Option-cases (find (λ s. scope_text s == value) resource_scopes)) [
      | inl absent ↦
          absurd (ground (arith, find-none (λ s. scope_text s == value) resource_scopes absent))
      | inr (s, found) ↦ (s, rw found)
    ]

-- What the first loop leaves at a code: the scopes of the code's rows, behind those that were there.
pub group_rows-scopes_for :
    (k : String) (rows : List PermissionGrantRow) (m : ScopesByPermission) {m' : ScopesByPermission}
    → group_rows m rows ≡ ok m'
    → (get k m' ≡ extend (get k m) (scopes_for k rows)) × (all is_known rows ≡ true)
unfolding group_rows scopes_for
group_rows-scopes_for k [] m h = (ground arith, refl)
group_rows-scopes_for k (row ∷ rows) m h =
    let (code, parsed, h₁) = bind_ok (parse_permission_code (text row.permission_code)) _ h in
    let (scope, read, h₂) = bind_ok (parse_resource_scope (text row.resource_scope)) _ h₁ in
    let (same, known) = parse_permission_code-ok row.permission_code parsed in
    let (found, listed) = parse_resource_scope-ok row.resource_scope read in
    let (later, rest) = group_rows-scopes_for k rows (push_scope code scope m) h₂ in
    (
      later
          ∙ rw
              (
                get-push_scope k code scope m,
                extend-append (get k m) _ (scopes_for k rows),
                same,
                found,
              )
              refl,
      rw (known, listed) rest,
    )

pub group_rows-known :
    (rows : List PermissionGrantRow) (m : ScopesByPermission)
    → all is_known rows ≡ true
    → (m' : ScopesByPermission) × (group_rows m rows ≡ ok m')
unfolding group_rows
group_rows-known [] m h = (m, refl)
group_rows-known (row ∷ rows) m h =
    let (scope, read) = parse_resource_scope-known row.resource_scope (ground arith) in
    let (m', done) =
      group_rows-known rows (push_scope row.permission_code scope m) (ground arith) in
    (m', rw (parse_permission_code-known row.permission_code (ground arith), read) done)

scope_of_text-scope_text : (s : ResourceScope) → scope_of_text (scope_text s) ≡ some s
unfolding scope_of_text
scope_of_text-scope_text tenant = refl
scope_of_text-scope_text _ = refl

scope_text-eqb : (s s' : ResourceScope) → (s == s') ≡ (scope_text s == scope_text s')
scope_text-eqb tenant tenant = refl
scope_text-eqb ResourceScope.assigned ResourceScope.assigned = refl
scope_text-eqb ResourceScope.quality_control ResourceScope.quality_control = refl
scope_text-eqb _ _ = refl

scope_of_text_sound :
    (value : String) {s : ResourceScope} → scope_of_text value ≡ some s → value ≡ scope_text s
unfolding scope_of_text
scope_of_text_sound value {s} h =
    sym (==_sound (scope_text s) value (find_sound (λ s. scope_text s == value) resource_scopes h))

one_scope-has :
    (scope : ResourceScope) (value : String)
    → any (λ s. s == scope) (one_scope (scope_of_text value)) ≡ (value == scope_text scope)
one_scope-has scope value = elim (Option-cases (scope_of_text value)) [
  | inl absent ↦ rw absent (
      sym (
        ==_ne value (scope_text scope) (λ same.
          let found : none ≡ some scope =
            sym absent ∙ ap scope_of_text same ∙ scope_of_text-scope_text scope in
          cc)))
  | inr (s, found) ↦
      rw (found, scope_of_text_sound value found) (rw (← scope_text-eqb s scope) (ground arith))
]

-- A code holds a scope exactly when one of its rows grants it.
pub has-scopes_for :
    (k : String) (scope : ResourceScope) (rows : List PermissionGrantRow)
    → has scope (scopes_for k rows) ≡ any (grants_scope k scope) rows
unfolding scopes_for
has-scopes_for k scope [] = refl
has-scopes_for k scope (row ∷ rows) = elim (Bool-cases (row.permission_code == k)) [
  | inl same ↦ rw same (
      any-append (λ s. s == scope) (one_scope (scope_of_text row.resource_scope))
        (scopes_for k rows)
      ∙ rw (one_scope-has scope row.resource_scope, has-scopes_for k scope rows))
  | inr other ↦ rw other (has-scopes_for k scope rows)
]
