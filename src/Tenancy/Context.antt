-- ===== src/Tenancy/Context.antt =====
-- The context of a tenant request: src/tenancy/tenant-context.ts.
use taller_mecario_b.Base.{
  String, Bool, ◌&&◌, List, [], ◌∷◌, Option, none, some, Result, ok, err, ◌>>=◌, ◌>>◌, require, all,
  keep, length, code_points, leb,
}
use taller_mecario_b.Collections.{has, add, frozen_set}
use taller_mecario_b.Authz.Roles.{RoleCode, role_codes, role_key}
use taller_mecario_b.Authz.Authorize.{
  Dynamic, AuthzError, PermissionGrantRow, Grants, parse_role_code, build_permission_grant_map,
}
use taller_mecario_b.Tenancy.Uuid.{UuidSchema, parse_canonical_uuid}

pub record TenantContext : Type 0 where
  pub tenant_id : String
  pub user_id : String
  pub membership_id : String
  pub roles : List RoleCode
  pub permissions : Grants
  pub request_id : String

pub record TenantContextInput : Type 0 where
  pub tenant_id : Dynamic
  pub user_id : Dynamic
  pub membership_id : Dynamic
  pub role_codes : List Dynamic
  pub permission_rows : List PermissionGrantRow
  pub request_id : String

pub data TenantContextField : Type 0 where
  tenant_id user_id membership_id request_id : TenantContextField

pub data ContextError : Type 0 where
  tenant_context_invalid : TenantContextField → ContextError
  authz : AuthzError → ContextError

-- `REQUEST_ID_PATTERN`: 1 to 128 printable ASCII characters without a space.
unfoldable pub is_request_id : String → Bool
is_request_id value =
    leb 1 (length (code_points value))
    && (leb (length (code_points value)) 128
        && all (λ c. leb 33 c && leb c 126) (code_points value))

abbrev pub or_invalid : TenantContextField → Option String → Result ContextError String
or_invalid field none = err (tenant_context_invalid field)
or_invalid field (some uuid) = ok uuid

unfoldable pub require_uuid : UuidSchema → Dynamic → TenantContextField → Result ContextError String
require_uuid schema value field = or_invalid field (parse_canonical_uuid schema value)

abbrev pub from_authz : {A : Type 0} → Result AuthzError A → Result ContextError A
from_authz (err e) = err (authz e)
from_authz (ok a) = ok a

-- The loop of `parseRoles`.
unfoldable pub parse_all : List RoleCode → List Dynamic → Result ContextError (List RoleCode)
parse_all parsed [] = ok parsed
parse_all parsed (value ∷ values) = do
  role ← from_authz (parse_role_code value)
  parse_all (add role parsed) values

unfoldable pub parse_roles : List Dynamic → Result ContextError (List RoleCode)
unfolding parse_all frozen_set
parse_roles values = do
  parsed ← parse_all [] values
  ok (frozen_set (keep (λ code. has code parsed) role_codes))

unfoldable pub create_tenant_context :
    UuidSchema → TenantContextInput → Result ContextError TenantContext
create_tenant_context schema input = do
  tenant ← require_uuid schema input.tenant_id tenant_id
  user ← require_uuid schema input.user_id user_id
  membership ← require_uuid schema input.membership_id membership_id
  require (is_request_id input.request_id) (tenant_context_invalid request_id)
  roles ← parse_roles input.role_codes
  permissions ← from_authz (build_permission_grant_map input.permission_rows)
  ok (record {
    tenant_id = tenant;
    user_id = user;
    membership_id = membership;
    roles = roles;
    permissions = permissions;
    request_id = input.request_id;
  })
