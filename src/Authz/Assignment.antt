-- ===== src/Authz/Assignment.antt =====
-- Which permission administers which role: src/authz/role-assignment.ts.
use taller_mecario_b.Base.{String}
use taller_mecario_b.Authz.Roles.{RoleCode, owner, admin, service_advisor, technician}

abbrev pub role_assignment_permission : RoleCode → String
role_assignment_permission owner = "roles.assign_owner"
role_assignment_permission admin = "roles.assign_admin"
role_assignment_permission service_advisor = "roles.assign_staff"
role_assignment_permission technician = "roles.assign_staff"
