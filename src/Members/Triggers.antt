-- ===== src/Members/Triggers.antt =====
-- The three statements of src/memberships that write, with the triggers that PostgreSQL runs on
-- them: drizzle/0013_s1_05_owner_lock_hierarchy.sql (role and owner invariants) and
-- drizzle/0016_s1_06_membership_state_machine.sql (status transitions, lifecycle columns). A
-- statement that raises leaves the tables as they were. The owner role is configured, the isolation
-- level is READ COMMITTED, and (tenant_id, id) and (tenant_id, membership_id, role_id) are keys.
pub mod Owners
pub mod Frames
pub mod Ages
use taller_mecario_b.Base.{
  ℕ, String, Bool, true, false, not, ◌&&◌, ◌||◌, List, [], ◌∷◌, ◌++◌, Option, none, some, Result,
  ok, err, any, all, keep, find, ◌==◌, string_key, nat_key, if◌then◌else◌, map,
}
use taller_mecario_b.Authz.Roles.{RoleCode, owner, role_key}
use taller_mecario_b.Members.Store.{
  Membership, MemberRole, MembershipStatus, active, suspended, revoked, status_key, Db, Violation,
  mr_membership_not_active, mr_last_active_owner, m_last_active_owner, m_status_transition,
  m_lifecycle_history, memberships_lifecycle_state_check,
}
use taller_mecario_b.Members.Tx.{Statement}
use taller_mecario_b.Members.Access.{is_membership, is_role_of, is_active_owner}

-- The row of this member and role.
abbrev pub is_role_row : String → String → RoleCode → MemberRole → Bool
is_role_row tenant_id id role r = is_role_of tenant_id id r && r.role == role

-- `EXISTS (… an owner row of the tenant with an active membership …)`.
abbrev pub exists_active_owner : String → Db → Bool
exists_active_owner tenant_id db = any (is_active_owner tenant_id db.memberships) db.member_roles

-- INSERT … ON CONFLICT DO NOTHING RETURNING: how many rows were inserted.
unfoldable pub insert_role : MemberRole → Statement ℕ
insert_role row db =
    if any (is_role_row row.tenant_id row.membership_id row.role) db.member_roles
    then (ok 0, db)
    else if any (λ m. is_membership row.tenant_id row.membership_id m && m.status == active)
        db.memberships
    then (ok 1, record db { member_roles = db.member_roles ++ row ∷ [] })
    else (err mr_membership_not_active, db)

-- DELETE … RETURNING: whether a row was deleted, behind the trigger on each deleted row.
unfoldable pub delete_role : String → String → RoleCode → Statement Bool
delete_role tenant_id id role db =
    let rest = record db {
      member_roles = keep (λ r. not (is_role_row tenant_id id role r)) db.member_roles;
    } in
    let deleted = any (is_role_row tenant_id id role) db.member_roles in
    if deleted && (role == owner && not (exists_active_owner tenant_id rest))
    then (err mr_last_active_owner, db)
    else (ok deleted, rest)

-- `enforce_membership_status_transition`.
abbrev pub transition_allowed : MembershipStatus → MembershipStatus → Bool
transition_allowed active suspended = true
transition_allowed active revoked = true
transition_allowed suspended revoked = true
transition_allowed _ _ = false

abbrev is_set : Option ℕ → Bool
is_set none = false
is_set (some at) = true

abbrev same_instant : Option ℕ → Option ℕ → Bool
same_instant none none = true
same_instant (some a) (some b) = a == b
same_instant _ _ = false

-- The CHECK `memberships_lifecycle_state_check`.
abbrev state_check : MembershipStatus → Option ℕ → Option ℕ → Bool
state_check active suspended_at revoked_at = not (is_set suspended_at) && not (is_set revoked_at)
state_check suspended suspended_at revoked_at = is_set suspended_at && not (is_set revoked_at)
state_check revoked suspended_at revoked_at = is_set revoked_at

abbrev pub lifecycle_state : Membership → Bool
lifecycle_state m = state_check m.status m.suspended_at m.revoked_at

-- `enforce_membership_lifecycle_history`: a column changes only when its state is entered.
abbrev pub lifecycle_history : Membership → Membership → Bool
lifecycle_history old new =
    (same_instant old.suspended_at new.suspended_at
      || (new.status == suspended && not (old.status == suspended)))
    && (same_instant old.revoked_at new.revoked_at
        || (new.status == revoked && not (old.status == revoked)))

-- The columns that `writeStatus` sets.
abbrev pub stamp : MembershipStatus → ℕ → Membership → Membership
stamp suspended now m = record m { status = suspended; suspended_at = some now }
stamp revoked now m = record m { status = revoked; revoked_at = some now }
stamp active now m = record m { status = revoked; revoked_at = some now }

-- The row that the UPDATE finds.
abbrev pub is_target : String → String → MembershipStatus → Membership → Bool
is_target tenant_id id status m = is_membership tenant_id id m && m.status == status

abbrev pub restamp :
    String → String → MembershipStatus → MembershipStatus → ℕ → Membership → Membership
restamp tenant_id id from to now m = if is_target tenant_id id from m then stamp to now m else m

-- `enforce_membership_owner_invariant`: raised where an active owner stops being active and no
-- other is left.
abbrev loses_last_owner : String → String → MembershipStatus → MembershipStatus → Db → Bool
loses_last_owner tenant_id id from to after =
    from == active
    && (not (to == active)
        && (any (is_role_row tenant_id id owner) after.member_roles
            && not (exists_active_owner tenant_id after)))

abbrev pub update_row :
    String
    → String
    → MembershipStatus
    → MembershipStatus
    → ℕ
    → Db
    → Option Membership
    → Result Violation (Option Membership) × Db
update_row tenant_id id from to now db none = (ok none, db)
update_row tenant_id id from to now db (some old) =
    let new = stamp to now old in
    let after = record db { memberships = map (restamp tenant_id id from to now) db.memberships } in
    if not (transition_allowed from new.status)
    then (err m_status_transition, db)
    else if not (lifecycle_history old new)
    then (err m_lifecycle_history, db)
    else if not (lifecycle_state new)
    then (err memberships_lifecycle_state_check, db)
    else if loses_last_owner tenant_id id from new.status after
    then (err m_last_active_owner, db)
    else (ok (some new), after)

-- UPDATE … RETURNING: the new row, if one was found.
unfoldable pub update_status :
    String → String → MembershipStatus → MembershipStatus → ℕ → Statement (Option Membership)
update_status tenant_id id from to now db =
    update_row tenant_id id from to now db (find (is_target tenant_id id from) db.memberships)
