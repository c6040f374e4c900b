-- ===== src/Authz/Matrix/Laws.antt =====
-- What the RBAC matrix grants, for every permission code and role.
use mathlib.Core.Option
use taller_mecario_b.Base.{
  String, subst, Bool, true, false, ◌&&◌, ◌||◌, List, [], ◌∷◌, none, some, ◌≡◌, ◌≢◌, ◌⊎◌, refl,
  arith, all, ◌==◌, string_key, Bool-cases, Option-cases, inl, inr, if◌then◌else◌, map,
}
use taller_mecario_b.Collections.{get, set, set_all}
use taller_mecario_b.Authz.Roles.{
  RoleCode, ResourceScope, owner, admin, service_advisor, technician, tenant, role_key, scope_key,
  role_eqb_iff, scope_eqb_iff,
}
use taller_mecario_b.Authz.Assignment.{role_assignment_permission}
use taller_mecario_b.Authz.Matrix.Rows.{RawRow, raw_matrix}
use taller_mecario_b.Authz.Matrix.{
  MatrixCell, grant, deny, role_cells, rbac_matrix_v1, matrix_cell, granted, granted_cell,
}

abbrev is_tenant_cell : MatrixCell → Bool
is_tenant_cell (grant tenant) = true
is_tenant_cell _ = false

abbrev is_tenant_or_deny : MatrixCell → Bool
is_tenant_or_deny (grant tenant) = true
is_tenant_or_deny deny = true
is_tenant_or_deny _ = false

abbrev is_deny : MatrixCell → Bool
is_deny deny = true
is_deny _ = false

-- The shape of a row: owners hold it for the tenant, administrators and advisors for the tenant or
-- not at all, and advisors only what administrators hold.
abbrev is_ordered : (RoleCode → MatrixCell) → Bool
is_ordered cells =
    is_tenant_cell (cells owner)
    && (is_tenant_or_deny (cells admin)
        && (is_tenant_or_deny (cells service_advisor)
            && (is_deny (cells service_advisor) || is_tenant_cell (cells admin))))

rows_ordered : all (λ (row : RawRow). is_ordered (role_cells row)) raw_matrix ≡ true
unfolding raw_matrix
rows_ordered = refl

module _ (p : (RoleCode → MatrixCell) → Bool) where
  all-set :
      (k : String) (v : RoleCode → MatrixCell) (m : List (String × (RoleCode → MatrixCell)))
      → p v ≡ true
      → all (λ e. p e.1) m ≡ true
      → all (λ e. p e.1) (set k v m) ≡ true
  unfolding set
  all-set k v [] h hs = ground arith
  all-set k v ((j, w) ∷ m) h hs = ground (arith, all-set k v m h)

  all-set_all :
      (rows : List RawRow) (m : List (String × (RoleCode → MatrixCell)))
      → all (λ row. p (role_cells row)) rows ≡ true
      → all (λ e. p e.1) m ≡ true
      → all (λ e. p e.1) (set_all m (map (λ (row : RawRow). (row.code, role_cells row)) rows))
        ≡ true
  unfolding set_all
  all-set_all [] m h hs = hs
  all-set_all (row ∷ rows) m h hs =
      all-set_all rows (set row.code (role_cells row) m) (ground arith)
        (all-set row.code (role_cells row) m (ground arith) hs)

  get-all :
      (k : String) (m : List (String × (RoleCode → MatrixCell))) {v : RoleCode → MatrixCell}
      → all (λ e. p e.1) m ≡ true
      → get k m ≡ some v
      → p v ≡ true
  unfolding get
  get-all k [] hs e = cc
  get-all k ((j, w) ∷ m) {v} hs e = elim (Bool-cases (j == k)) [
    | inl same ↦
        let it : w ≡ v = ground arith in
        subst (λ (u : RoleCode → MatrixCell). p u ≡ true) it (ground arith)
    | inr other ↦ get-all k m (ground arith) (ground arith)
  ]

matrix-is_ordered :
    (code : String) {cells : RoleCode → MatrixCell}
    → get code rbac_matrix_v1 ≡ some cells
    → is_ordered cells ≡ true
unfolding rbac_matrix_v1
matrix-is_ordered code h =
    get-all is_ordered code rbac_matrix_v1 (all-set_all is_ordered raw_matrix [] rows_ordered refl)
      h

granted_cell-cells :
    (code : String) (role : RoleCode) {scope : ResourceScope}
    → granted_cell code role ≡ some scope
    → (cells : RoleCode → MatrixCell) × (get code rbac_matrix_v1 ≡ some cells)
      × (cells role ≡ grant scope)
      × ((r : RoleCode) → granted_cell code r ≡ granted (cells r))
unfolding granted_cell Option.bind
granted_cell-cells code role h = elim (Option-cases (get code rbac_matrix_v1)) [
  | inl absent ↦ absurd (ground (arith, absent))
  | inr (cells, found) ↦ (cells, found, ground (arith, found), λ r. rw (found, matrix_cell))
]

-- Whatever permission some role holds, at whatever scope, owners hold it for the tenant; a grant of
-- an advisor is held by administrators for the tenant; and only technicians hold a restricted scope.
pub grants_ordered :
    (code : String) (role : RoleCode) (scope : ResourceScope)
    → granted_cell code role ≡ some scope
    → (granted_cell code owner ≡ some tenant)
      × ((role ≢ service_advisor) ⊎ (granted_cell code admin ≡ some tenant))
      × ((scope ≡ tenant) ⊎ (role ≡ technician))
grants_ordered code role scope h =
    let (cells, found, held, at) = granted_cell-cells code role h in
    let shape = matrix-is_ordered code found in
    (
      ground (arith, at owner),
      (elim (Bool-cases (role == service_advisor)) [
        | inl same ↦ inr (ground (arith, at admin, role_eqb_iff role service_advisor))
        | inr other ↦ inl (λ e. ground (arith, role_eqb_iff role service_advisor))
      ]),
      elim (Bool-cases (scope == tenant)) [
        | inl same ↦ inl ((scope_eqb_iff scope tenant).0 same)
        | inr other ↦ inr (ground (arith, scope_eqb_iff scope tenant, role_eqb_iff role technician))
      ],
    )

-- Who may administer a role: owners every role, administrators the advisors and technicians.
abbrev pub may_administer : RoleCode → RoleCode → Bool
may_administer holder role =
    holder == owner || (holder == admin && (role == service_advisor || role == technician))

-- A role holds the permission that administers another role exactly when it may administer it.
pub assignment_authority :
    (holder role : RoleCode)
    → granted_cell (role_assignment_permission role) holder
      ≡ (if may_administer holder role then some tenant else none)
unfolding granted_cell Option.bind set
assignment_authority owner owner = refl
assignment_authority owner admin = refl
assignment_authority owner service_advisor = refl
assignment_authority owner technician = refl
assignment_authority admin owner = refl
assignment_authority admin admin = refl
assignment_authority admin service_advisor = refl
assignment_authority admin technician = refl
assignment_authority service_advisor owner = refl
assignment_authority service_advisor admin = refl
assignment_authority service_advisor service_advisor = refl
assignment_authority service_advisor technician = refl
assignment_authority technician owner = refl
assignment_authority technician admin = refl
assignment_authority technician service_advisor = refl
assignment_authority technician technician = refl
