-- ===== src/Authz/Matrix/Listing.antt =====
-- The rows of `role_permissions` that listRolePermissionRows of src/authz/rbac-matrix.ts gives,
-- against the cells of the matrix.
use taller_mecario_b.Base.{
  String, Bool, true, false, ◌&&◌, List, [], ◌∷◌, Option, none, some, ◌≡◌, refl, ◌∙◌, ap, arith,
  any, any-append, ◌==◌, string_key, ==_sound, Bool-cases, inl, inr, ◌⊎◌, map,
}
use mathlib.Core.Option
use taller_mecario_b.Collections.{has, get, set, set_all, frozen_map}
use taller_mecario_b.Collections.Laws.{get-set}
use taller_mecario_b.Authz.Matrix.Rows.{RawRow, raw_matrix}
use taller_mecario_b.Authz.Roles.{RoleCode, ResourceScope, role_key, scope_key, role_codes}
use taller_mecario_b.Authz.Matrix.{
  MatrixCell, grant, deny, role_cells, rbac_matrix_v1, permission_codes, matrix_cell,
  RolePermissionRow, role_row, rows_of_roles, rows_of_codes, list_role_permission_rows,
}

abbrev pub is_row : String → RoleCode → ResourceScope → RolePermissionRow → Bool
is_row code role scope row =
    row.permission_code == code && (row.role_code == role && row.resource_scope == scope)

-- A cell that grants exactly this scope.
abbrev pub grants_scope : Option MatrixCell → ResourceScope → Bool
grants_scope none scope = false
grants_scope (some deny) scope = false
grants_scope (some (grant s)) scope = s == scope

module _ (code : String) (role : RoleCode) (scope : ResourceScope) where
  any-role_row :
      (c : String) (r : RoleCode)
      → any (is_row code role scope) (role_row c r (matrix_cell c r))
        ≡ (c == code && (r == role && grants_scope (matrix_cell code role) scope))
  any-role_row c r = elim (Bool-cases (c == code && r == role)) [
    | inl same ↦ here (==_sound c code (ground arith)) (==_sound r role (ground arith)) same
    | inr other ↦ elsewhere (matrix_cell c r) other
  ]
    where
      by_cell :
          (o : Option MatrixCell)
          → (c == code && r == role) ≡ true
          → any (is_row code role scope) (role_row c r o)
            ≡ (c == code && (r == role && grants_scope o scope))
      by_cell none same = ground arith
      by_cell (some deny) same = ground arith
      by_cell (some (grant s)) same = ground arith

      here :
          c ≡ code
          → r ≡ role
          → (c == code && r == role) ≡ true
          → any (is_row code role scope) (role_row c r (matrix_cell c r))
            ≡ (c == code && (r == role && grants_scope (matrix_cell code role) scope))
      here e f same =
          by_cell (matrix_cell c r) same
          ∙ ap (λ o. c == code && (r == role && grants_scope o scope))
              (ap (λ x. matrix_cell x r) e ∙ ap (matrix_cell code) f)

      elsewhere :
          (o : Option MatrixCell)
          → (c == code && r == role) ≡ false
          → any (is_row code role scope) (role_row c r o)
            ≡ (c == code && (r == role && grants_scope (matrix_cell code role) scope))
      elsewhere none other = ground arith
      elsewhere (some deny) other = ground arith
      elsewhere (some (grant s)) other = ground arith

  any-rows_of_roles :
      (c : String) (roles : List RoleCode)
      → any (is_row code role scope) (rows_of_roles c roles)
        ≡ (c == code && (has role roles && grants_scope (matrix_cell code role) scope))
  unfolding rows_of_roles
  any-rows_of_roles c [] = ground arith
  any-rows_of_roles c (r ∷ roles) =
      any-append (is_row code role scope) (role_row c r (matrix_cell c r)) (rows_of_roles c roles)
      ∙ rw (any-role_row c r, any-rows_of_roles c roles) (ground arith)

  any-rows_of_codes :
      (codes : List String)
      → any (is_row code role scope) (rows_of_codes codes)
        ≡ (has code codes && (has role role_codes && grants_scope (matrix_cell code role) scope))
  unfolding rows_of_codes
  any-rows_of_codes [] = ground arith
  any-rows_of_codes (c ∷ codes) =
      any-append (is_row code role scope) (rows_of_roles c role_codes) (rows_of_codes codes)
      ∙ rw (any-rows_of_roles c role_codes, any-rows_of_codes codes) (ground arith)

has-role_codes : (role : RoleCode) → has role role_codes ≡ true
has-role_codes role = ground arith

-- A code of no row has no cells.
set_all-absent :
    (code : String) (rows : List RawRow) (m : List (String × (RoleCode → MatrixCell)))
    → get code m ≡ none
    → has code (map (λ (row : RawRow). row.code) rows) ≡ false
    → get code (set_all m (map (λ (row : RawRow). (row.code, role_cells row)) rows)) ≡ none
unfolding set_all
set_all-absent code [] m h other = h
set_all-absent code (row ∷ rows) m h other =
    set_all-absent code rows (set row.code (role_cells row) m)
      (get-set row.code code (role_cells row) m ∙ rw (differs, h) refl) (ground arith)
  where
    differs : (row.code == code) ≡ false
    differs = ground arith

matrix_cell-absent :
    (code : String) (role : RoleCode)
    → has code permission_codes ≡ false
    → matrix_cell code role ≡ none
unfolding permission_codes matrix_cell rbac_matrix_v1 frozen_map
matrix_cell-absent code role other =
    ap (Option.map (λ (cells : RoleCode → MatrixCell). cells role))
      (set_all-absent code raw_matrix [] refl other)

-- A row is listed exactly when its cell of the matrix grants its scope: no denied cell gives a row,
-- and no granted cell is left out.
pub listed-granted :
    (code : String) (role : RoleCode) (scope : ResourceScope)
    → any (is_row code role scope) list_role_permission_rows
      ≡ grants_scope (matrix_cell code role) scope
unfolding list_role_permission_rows
listed-granted code role scope =
    any-rows_of_codes code role scope permission_codes
    ∙ rw (has-role_codes role) (by_code (Bool-cases (has code permission_codes)))
  where
    by_code :
        (has code permission_codes ≡ true) ⊎ (has code permission_codes ≡ false)
        → (has code permission_codes && grants_scope (matrix_cell code role) scope)
          ≡ grants_scope (matrix_cell code role) scope
    by_code (inl known) = rw known refl
    by_code (inr unknown) = rw (unknown, matrix_cell-absent code role unknown) refl
