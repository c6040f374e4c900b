-- ===== src/Authz/Authorize/Effective.antt =====
-- The effective grants and the decisions on them, from the rows alone: buildPermissionGrantMap,
-- requireTenantPermission and authorizePermissionRequirement of src/authz/authorize.ts.
use mathlib.Core.Option
use taller_mecario_b.Base.{
  String, Bool, true, List, [], ◌∷◌, Option, none, ok, err, bind_ok, is_ok, Result-cases, fun_ext,
  ◌≡◌, refl, sym, ◌∙◌, ap, any, all, Bool-cases, Option-cases, inl, inr, string_key,
}
use taller_mecario_b.Collections.{has, get, frozen_map}
use taller_mecario_b.Collections.Laws.{table, get-frozen_map-table}
use taller_mecario_b.Authz.Roles.{ResourceScope, tenant, scope_key}
use taller_mecario_b.Authz.Matrix.{permission_codes}
use taller_mecario_b.Authz.Grants.{PermissionGrant, combine_permission_scopes, freeze_grant}
use taller_mecario_b.Authz.Grants.Laws.{freeze-combine, grant_of}
use taller_mecario_b.Authz.Authorize.{
  AuthzError, Grants, PermissionGrantRow, ScopesByPermission, group_rows, grant_entry,
  grant_entries, build_permission_grant_map,
}
use taller_mecario_b.Authz.Authorize.Grouping.{
  grants_scope, is_known, scopes_for, group_rows-scopes_for, group_rows-known, has-scopes_for,
  extend,
}

-- Some row grants the scope for the code.
abbrev pub holds : List PermissionGrantRow → String → ResourceScope → Bool
holds rows code scope = any (grants_scope code scope) rows

-- The effective grant of a code, by the rows.
abbrev pub effective : List PermissionGrantRow → String → Option PermissionGrant
effective rows code =
    grant_of (holds rows code tenant) (holds rows code ResourceScope.assigned)
      (holds rows code ResourceScope.quality_control)

value_at : ScopesByPermission → String → Option PermissionGrant
value_at m code =
    Option.bind (get code m) (λ scopes. Option.map freeze_grant (combine_permission_scopes scopes))

grant_entries-table :
    (m : ScopesByPermission) (codes : List String)
    → grant_entries m codes ≡ table (value_at m) codes
unfolding grant_entries table value_at Option.bind
grant_entries-table m [] = refl
grant_entries-table m (code ∷ rest) = elim (Option-cases (get code m)) [
  | inl absent ↦ rw absent (grant_entries-table m rest)
  | inr (scopes, found) ↦ elim (Option-cases (combine_permission_scopes scopes)) [
    | inl no_grant ↦ rw (found, no_grant, grant_entry) (grant_entries-table m rest)
    | inr (g, granted) ↦
        rw (found, granted, grant_entry)
          (ap (◌∷◌ (code, freeze_grant g)) (grant_entries-table m rest))
  ]
]

bind-extend :
    (scopes : List ResourceScope)
    → Option.bind
        (extend none scopes)
        (λ ss. Option.map freeze_grant (combine_permission_scopes ss))
      ≡ Option.map freeze_grant (combine_permission_scopes scopes)
unfolding combine_permission_scopes Option.bind
bind-extend [] = refl
bind-extend (s ∷ scopes) = refl

value_at-effective :
    (rows : List PermissionGrantRow) (code : String) {m : ScopesByPermission}
    → group_rows [] rows ≡ ok m
    → value_at m code ≡ effective rows code
unfolding value_at get
value_at-effective rows code h =
    rw
      (
        (group_rows-scopes_for code rows [] h).0,
        bind-extend (scopes_for code rows),
        freeze-combine (scopes_for code rows),
        has-scopes_for code tenant rows,
        has-scopes_for code ResourceScope.assigned rows,
        has-scopes_for code ResourceScope.quality_control rows,
      )
      refl

-- The map that is built from known rows, as a table over the permission codes.
build-table :
    (rows : List PermissionGrantRow) {permissions : Grants}
    → build_permission_grant_map rows ≡ ok permissions
    → permissions ≡ frozen_map (table (effective rows) permission_codes)
unfolding build_permission_grant_map
build-table rows {permissions} h =
    let (m, grouped, built) = bind_ok (group_rows [] rows) _ h in
    let made : frozen_map (grant_entries m permission_codes) ≡ permissions = cc in
    sym made
    ∙ ap frozen_map (grant_entries-table m permission_codes)
    ∙ ap (λ f. frozen_map (table f permission_codes))
        (fun_ext (λ code. value_at-effective rows code grouped))

-- The map is built exactly when the code and the scope of every row are known: a single unknown one
-- refuses the whole map.
pub build-is_ok_iff :
    (rows : List PermissionGrantRow) → is_ok (build_permission_grant_map rows) ≡ all is_known rows
unfolding build_permission_grant_map
build-is_ok_iff rows = elim (Bool-cases (all is_known rows)) [
  | inl known ↦ let (m, grouped) = group_rows-known rows [] known in rw (known, grouped)
  | inr unknown ↦ elim (Result-cases (group_rows [] rows)) [
    | inl (m, grouped) ↦ cc ((group_rows-scopes_for "" rows [] grouped).1, unknown)
    | inr (e, refused) ↦ rw (refused, unknown)
  ]
]

not_built :
    (rows : List PermissionGrantRow) {e : AuthzError}
    → all is_known rows ≡ true
    → build_permission_grant_map rows ≡ err e
    → ⊥
not_built rows known refused = cc (build-is_ok_iff rows, ap is_ok refused)

-- Two lists of known rows that grant the same scopes to the same codes, in any order and with any
-- repetition, build the same map.
pub build-rows_irrelevant :
    (rows rows' : List PermissionGrantRow)
    → all is_known rows ≡ true
    → all is_known rows' ≡ true
    → ((code : String) (scope : ResourceScope) → holds rows code scope ≡ holds rows' code scope)
    → build_permission_grant_map rows ≡ build_permission_grant_map rows'
build-rows_irrelevant rows rows' known known' same =
    let (m, built) = built_map rows known in
    let (m', built') = built_map rows' known' in
    built
    ∙ ap ok (
        build-table rows built
        ∙ ap (λ f. frozen_map (table f permission_codes)) (fun_ext (λ code. same_grant code))
        ∙ sym (build-table rows' built'))
    ∙ sym built'
  where
    built_map :
        (rs : List PermissionGrantRow)
        → all is_known rs ≡ true
        → (m : Grants) × (build_permission_grant_map rs ≡ ok m)
    built_map rs h = elim (Result-cases (build_permission_grant_map rs)) [
      | inl found ↦ found
      | inr (e, refused) ↦ absurd (not_built rs h refused)
    ]

    same_grant : (code : String) → effective rows code ≡ effective rows' code
    same_grant code = rw (
      same code tenant,
      same code ResourceScope.assigned,
      same code ResourceScope.quality_control,
    )

-- The grant that the map has for a known code is the one of its rows.
pub get-build :
    (rows : List PermissionGrantRow) (code : String) {permissions : Grants}
    → build_permission_grant_map rows ≡ ok permissions
    → has code permission_codes ≡ true
    → get code permissions ≡ effective rows code
get-build rows code built known =
    ap (get code) (build-table rows built)
    ∙ get-frozen_map-table (effective rows) code permission_codes
    ∙ rw known
