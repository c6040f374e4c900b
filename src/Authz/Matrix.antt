-- ===== src/Authz/Matrix.antt =====
-- The RBAC matrix of src/authz/rbac-matrix.ts: cells by permission code and role, and the rows of
-- `role_permissions` that it stands for.
pub mod Rows
pub mod Laws
pub mod Listing
use taller_mecario_b.Base.{
  String, Bool, true, false, not, List, [], ◌∷◌, ◌++◌, Option, none, some, string_key, map,
}
use mathlib.Core.Option
use taller_mecario_b.Collections.{get, frozen_map}
use taller_mecario_b.Authz.Roles.{
  RoleCode, ResourceScope, owner, admin, service_advisor, technician, tenant, role_codes,
}
use Rows.{Mark, RawRow, raw_matrix}

pub data MatrixCell : Type 0 where
  grant : ResourceScope → MatrixCell
  deny : MatrixCell

abbrev pub cell_from_mark : Mark → MatrixCell
cell_from_mark Mark.t = grant tenant
cell_from_mark Mark.a = grant ResourceScope.assigned
cell_from_mark Mark.q = grant ResourceScope.quality_control
cell_from_mark Mark.d = deny

-- `PERMISSION_CODES`.
unfoldable pub permission_codes : List String
unfolding raw_matrix
permission_codes = map (λ (row : RawRow). row.code) raw_matrix

-- `MatrixRoleCells`, by the role.
abbrev pub role_cells : RawRow → RoleCode → MatrixCell
role_cells row owner = cell_from_mark row.owner
role_cells row admin = cell_from_mark row.admin
role_cells row service_advisor = cell_from_mark row.service_advisor
role_cells row technician = cell_from_mark row.technician

-- `RBAC_MATRIX_V1`: the object built from the entries of the rows.
unfoldable pub rbac_matrix_v1 : List (String × (RoleCode → MatrixCell))
unfolding raw_matrix frozen_map
rbac_matrix_v1 = frozen_map (map (λ (row : RawRow). (row.code, role_cells row)) raw_matrix)

-- `RBAC_MATRIX_V1[code][role]`; `none` where the object has no such code.
unfoldable pub matrix_cell : String → RoleCode → Option MatrixCell
unfolding rbac_matrix_v1 get
matrix_cell code role = Option.map (λ cells. cells role) (get code rbac_matrix_v1)

abbrev pub granted : MatrixCell → Option ResourceScope
granted (grant scope) = some scope
granted deny = none

-- `grantedCell`: the scope of a granted cell.
unfoldable pub granted_cell : String → RoleCode → Option ResourceScope
unfolding matrix_cell
granted_cell code role = Option.bind (matrix_cell code role) granted

pub record RolePermissionRow : Type 0 where
  pub permission_code : String
  pub role_code : RoleCode
  pub resource_scope : ResourceScope

-- A denied cell gives no row.
abbrev role_row : String → RoleCode → Option MatrixCell → List RolePermissionRow
role_row code role none = []
role_row code role (some deny) = []
role_row code role (some (grant scope)) =
    record { permission_code = code; role_code = role; resource_scope = scope } ∷ []

-- The inner loop of `listRolePermissionRows`, for one permission code.
rows_of_roles : String → List RoleCode → List RolePermissionRow
rows_of_roles code [] = []
rows_of_roles code (role ∷ roles) =
    role_row code role (matrix_cell code role) ++ rows_of_roles code roles

rows_of_codes : List String → List RolePermissionRow
rows_of_codes [] = []
rows_of_codes (code ∷ rest) = rows_of_roles code role_codes ++ rows_of_codes rest

unfoldable pub list_role_permission_rows : List RolePermissionRow
unfolding rows_of_codes rows_of_roles matrix_cell permission_codes
list_role_permission_rows = rows_of_codes permission_codes
