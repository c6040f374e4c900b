-- ===== src/Members/Triggers/Ages.antt =====
-- How the rows of `memberships` age: the columns that identify a membership never change, its status
-- only moves forward, its instants agree with it, and a revoked row stays as it is.
use taller_mecario_b.Base.{
  ℕ, ◌<◌, Bool-cases, String, Bool, true, false, List, [], ◌∷◌, Option, none, some, ok, find,
  string_key, nat_key, map, ◌≡◌, refl, ◌∙◌, arith, sym, subst, ◌⊎◌, inl, inr,
}
use taller_mecario_b.Authz.Roles.{RoleCode}
use taller_mecario_b.Members.Store.{
  Membership, MemberRole, MembershipStatus, active, suspended, revoked, status_key, status_eqb_iff,
  Db,
}
use taller_mecario_b.Members.Triggers.{
  insert_role, delete_role, update_status, update_row, restamp, is_target, transition_allowed,
  lifecycle_state,
}

abbrev pub rank : MembershipStatus → ℕ
rank active = 0
rank suspended = 1
rank revoked = 2

pub record Aged (old new : Membership) : Type 0 where
  pub same_id : new.id ≡ old.id
  pub same_tenant : new.tenant_id ≡ old.tenant_id
  pub same_user : new.user_id ≡ old.user_id
  pub same_joined : new.joined_at ≡ old.joined_at
  pub moved : (new ≡ old) ⊎ (rank old.status < rank new.status)
  pub consistent : (lifecycle_state old ≡ false) ⊎ (lifecycle_state new ≡ true)

-- Row by row, in the same places: no membership is added or deleted.
pub data AllAged : List Membership → List Membership → Type 0 where
  no_rows : AllAged [] []
  next_row :
      {old new : Membership} {olds news : List Membership}
      → Aged old new
      → AllAged olds news
      → AllAged (old ∷ olds) (new ∷ news)

own_state : (b : Bool) → (b ≡ false) ⊎ (b ≡ true)
own_state true = inr refl
own_state false = inl refl

chain :
    {a b c : Bool} → (a ≡ false) ⊎ (b ≡ true) → (b ≡ false) ⊎ (c ≡ true) → (a ≡ false) ⊎ (c ≡ true)
chain (inl h) q = inl h
chain (inr h) (inl k) = absurd (ground (arith, h, k))
chain (inr h) (inr k) = inr k

moved_twice :
    {a b c : Membership}
    → (b ≡ a) ⊎ (rank a.status < rank b.status)
    → (c ≡ b) ⊎ (rank b.status < rank c.status)
    → (c ≡ a) ⊎ (rank a.status < rank c.status)
moved_twice {a} (inl p) (inl q) = inl (q ∙ p)
moved_twice {c = c} (inl p) (inr q) =
    inr (subst (λ (m : Membership). rank m.status < rank c.status) p q)
moved_twice {a} (inr p) (inl q) =
    inr (subst (λ (m : Membership). rank a.status < rank m.status) (sym q) p)
moved_twice (inr p) (inr q) = inr (omega (arith, p, q))

Aged-same : (m : Membership) → Aged m m
Aged-same m = record {
  same_id = refl;
  same_tenant = refl;
  same_user = refl;
  same_joined = refl;
  moved = inl refl;
  consistent = own_state (lifecycle_state m);
}

Aged-trans : {a b c : Membership} → Aged a b → Aged b c → Aged a c
Aged-trans {a} {b} {c} p q = record {
  same_id = q.same_id ∙ p.same_id;
  same_tenant = q.same_tenant ∙ p.same_tenant;
  same_user = q.same_user ∙ p.same_user;
  same_joined = q.same_joined ∙ p.same_joined;
  moved = moved_twice p.moved q.moved;
  consistent = chain p.consistent q.consistent;
}

pub AllAged-same : (ms : List Membership) → AllAged ms ms
AllAged-same [] = no_rows
AllAged-same (m ∷ ms) = next_row (Aged-same m) (AllAged-same ms)

pub AllAged-trans :
    {olds mids news : List Membership} → AllAged olds mids → AllAged mids news → AllAged olds news
AllAged-trans no_rows no_rows = no_rows
AllAged-trans (next_row p ps) (next_row q qs) = next_row (Aged-trans p q) (AllAged-trans ps qs)

-- The status that `stamp` writes.
abbrev stamped : MembershipStatus → MembershipStatus
stamped suspended = suspended
stamped revoked = revoked
stamped active = revoked

module _ (tenant_id id : String) (from to : MembershipStatus) (now : ℕ)
    (allowed : transition_allowed from (stamped to) ≡ true) where
  moved_restamp :
      (m : Membership)
      → (restamp tenant_id id from to now m ≡ m)
        ⊎ (rank m.status < rank (restamp tenant_id id from to now m).status)
  moved_restamp m = elim (Bool-cases (is_target tenant_id id from m)) [
    | inl hit ↦ inr (ground (arith, status_eqb_iff m.status from))
    | inr miss ↦ inl (ground arith)
  ]

  consistent_restamp :
      (m : Membership)
      → (lifecycle_state m ≡ false) ⊎ (lifecycle_state (restamp tenant_id id from to now m) ≡ true)
  consistent_restamp m = elim (Bool-cases (lifecycle_state m)) [
    | inl holds ↦ inr (ground (arith, status_eqb_iff m.status from))
    | inr fails ↦ inl fails
  ]

  Aged-restamp : (m : Membership) → Aged m (restamp tenant_id id from to now m)
  Aged-restamp m = record {
    same_id = ground arith;
    same_tenant = ground arith;
    same_user = ground arith;
    same_joined = ground arith;
    moved = moved_restamp m;
    consistent = consistent_restamp m;
  }

  AllAged-restamp : (ms : List Membership) → AllAged ms (map (restamp tenant_id id from to now) ms)
  AllAged-restamp [] = no_rows
  AllAged-restamp (m ∷ ms) = next_row (Aged-restamp m) (AllAged-restamp ms)

pub insert_role-memberships :
    (row : MemberRole) (db : Db) {n : ℕ} {after : Db}
    → insert_role row db ≡ (ok n, after)
    → after.memberships ≡ db.memberships
unfolding insert_role
insert_role-memberships row db h = ground arith

pub delete_role-memberships :
    (tenant_id id : String) (role : RoleCode) (db : Db) {deleted : Bool} {after : Db}
    → delete_role tenant_id id role db ≡ (ok deleted, after)
    → after.memberships ≡ db.memberships
unfolding delete_role
delete_role-memberships tenant_id id role db h = ground arith

module _ (tenant_id id : String) (from to : MembershipStatus) (now : ℕ) (db : Db) where
  update_row-memberships :
      (found : Option Membership) {new : Option Membership} {after : Db}
      → update_row tenant_id id from to now db found ≡ (ok new, after)
      → (after.memberships ≡ db.memberships)
        ⊎ ((transition_allowed from (stamped to) ≡ true)
            × (after.memberships ≡ map (restamp tenant_id id from to now) db.memberships))
  update_row-memberships none h = inl (ground arith)
  update_row-memberships (some old) h = inr (ground arith, ground arith)

  pub update_status-AllAged :
      {new : Option Membership} {after : Db}
      → update_status tenant_id id from to now db ≡ (ok new, after)
      → AllAged db.memberships after.memberships
  unfolding update_status
  update_status-AllAged h =
      elim (update_row-memberships (find (is_target tenant_id id from) db.memberships) h) [
        | inl same ↦ subst (AllAged db.memberships) (sym same) (AllAged-same db.memberships)
        | inr (allowed, moved) ↦
            subst (AllAged db.memberships) (sym moved)
              (AllAged-restamp tenant_id id from to now allowed db.memberships)
      ]
