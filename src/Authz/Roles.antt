-- ===== src/Authz/Roles.antt =====
-- The role codes and resource scopes of src/authz/rbac-matrix.ts, as the texts that they are.
use taller_mecario_b.Base.{String, Bool, true, false, List, [], ◌∷◌, ◌≡◌, ◌↔◌, arith, Key}

pub data RoleCode : Type 0 where
  owner admin service_advisor technician : RoleCode

pub data ResourceScope : Type 0 where
  tenant assigned quality_control : ResourceScope

-- `Exclude<ResourceScope, 'tenant'>`.
pub data RestrictedScope : Type 0 where
  assigned quality_control : RestrictedScope

abbrev pub role_text : RoleCode → String
role_text owner = "owner"
role_text admin = "admin"
role_text service_advisor = "service_advisor"
role_text technician = "technician"

abbrev pub scope_text : ResourceScope → String
scope_text tenant = "tenant"
scope_text ResourceScope.assigned = "assigned"
scope_text ResourceScope.quality_control = "quality_control"

abbrev pub resource_scopes : List ResourceScope
resource_scopes = tenant ∷ ResourceScope.assigned ∷ ResourceScope.quality_control ∷ []

abbrev pub role_codes : List RoleCode
role_codes = owner ∷ admin ∷ service_advisor ∷ technician ∷ []

abbrev pub role_eqb : RoleCode → RoleCode → Bool
role_eqb owner owner = true
role_eqb admin admin = true
role_eqb service_advisor service_advisor = true
role_eqb technician technician = true
role_eqb _ _ = false

abbrev pub scope_eqb : ResourceScope → ResourceScope → Bool
scope_eqb tenant tenant = true
scope_eqb ResourceScope.assigned ResourceScope.assigned = true
scope_eqb ResourceScope.quality_control ResourceScope.quality_control = true
scope_eqb _ _ = false

abbrev pub restricted_eqb : RestrictedScope → RestrictedScope → Bool
restricted_eqb RestrictedScope.assigned RestrictedScope.assigned = true
restricted_eqb RestrictedScope.quality_control RestrictedScope.quality_control = true
restricted_eqb _ _ = false

pub role_eqb_iff : (a b : RoleCode) → (role_eqb a b ≡ true) ↔ (a ≡ b)
role_eqb_iff a b = ground arith

pub scope_eqb_iff : (a b : ResourceScope) → (scope_eqb a b ≡ true) ↔ (a ≡ b)
scope_eqb_iff a b = ground arith

pub restricted_eqb_iff : (a b : RestrictedScope) → (restricted_eqb a b ≡ true) ↔ (a ≡ b)
restricted_eqb_iff a b = ground arith

instance abbrev pub role_key : Key RoleCode
role_key = record { same = role_eqb; same_iff = role_eqb_iff }

instance abbrev pub scope_key : Key ResourceScope
scope_key = record { same = scope_eqb; same_iff = scope_eqb_iff }

instance abbrev pub restricted_key : Key RestrictedScope
restricted_key = record { same = restricted_eqb; same_iff = restricted_eqb_iff }
