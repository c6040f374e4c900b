-- ===== src/Invitations/Statements/Keys.antt =====
-- No two invitations share an id or a token hash, and no two pending ones a workshop and an email: the
-- unique indexes of membership_invitations.
use taller_mecario_b.Base.{
  ℕ, Bool, true, false, ◌&&◌, ◌||◌, not, List, [], ◌∷◌, ◌++◌, ok, any, any-append, ◌==◌, string_key,
  ◌≡◌, refl, sym, require_ok, ap, and_true, both_true, or_false, both_false, not-true, not-false,
  ◌∙◌, ltb,
}
use taller_mecario_b.Invitations.Store.{
  Invitation, pending, invitation_status_key, Db, mi_created_pending, mi_token_hash_format_check,
  mi_expiry_after_creation_check, membership_invitations_pkey, mi_token_hash_key,
  mi_one_pending_per_email_uq,
}
use taller_mecario_b.Invitations.Token.{is_token_hash}
use taller_mecario_b.Invitations.Statements.{insertable, is_pending_for}
use taller_mecario_b.Invitations.Statements.Changes.{
  Kept, Fixed, fixed, Moved, none_left, kept_row, ended_row, of_table-Kept,
}

-- Two rows that a unique index does not allow beside each other.
abbrev pub clash : Invitation → Invitation → Bool
clash i j =
    (i.id == j.id || i.token_hash == j.token_hash)
    || (is_pending_for j.tenant_id j.email_normalized i && j.status == pending)

abbrev pub is_keyed : List Invitation → Bool
is_keyed [] = true
is_keyed (i ∷ is) = not (any (clash i) is) && is_keyed is

and_false : (b : Bool) → b && false ≡ false
and_false true = refl
and_false false = refl

clash-ended_right :
    (k i j : Invitation)
    → fixed i ≡ fixed j
    → (j.status == pending) ≡ false
    → clash k i ≡ false
    → clash k j ≡ false
clash-ended_right k i j alike over h =
    let by_id : i.id ≡ j.id = ap (λ (f : Fixed). f.id) alike in
    let by_token : i.token_hash ≡ j.token_hash = ap (λ (f : Fixed). f.token_hash) alike in
    let (first, last) = or_false {a = k.id == i.id || k.token_hash == i.token_hash} h in
    let (ids, tokens) = or_false {a = k.id == i.id} first in
    let by_ids : (k.id == j.id) ≡ false = rw (sym by_id) ids in
    let by_tokens : (k.token_hash == j.token_hash) ≡ false = rw (sym by_token) tokens in
    let by_emails : is_pending_for j.tenant_id j.email_normalized k && j.status == pending ≡ false =
      rw over (and_false (is_pending_for j.tenant_id j.email_normalized k)) in
    both_false (both_false by_ids by_tokens) by_emails

clash-ended_left :
    (i j k : Invitation)
    → fixed i ≡ fixed j
    → (j.status == pending) ≡ false
    → clash i k ≡ false
    → clash j k ≡ false
clash-ended_left i j k alike over h =
    let by_id : i.id ≡ j.id = ap (λ (f : Fixed). f.id) alike in
    let by_token : i.token_hash ≡ j.token_hash = ap (λ (f : Fixed). f.token_hash) alike in
    let (first, last) = or_false {a = i.id == k.id || i.token_hash == k.token_hash} h in
    let (ids, tokens) = or_false {a = i.id == k.id} first in
    let by_ids : (j.id == k.id) ≡ false = rw (sym by_id) ids in
    let by_tokens : (j.token_hash == k.token_hash) ≡ false = rw (sym by_token) tokens in
    let by_emails : is_pending_for k.tenant_id k.email_normalized j && k.status == pending ≡ false =
      rw
        (
          over,
          and_false (j.email_normalized == k.email_normalized),
          and_false (j.tenant_id == k.tenant_id),
        )
        refl in
    both_false (both_false by_ids by_tokens) by_emails

any-clash-left :
    (i j : Invitation) (rows : List Invitation)
    → fixed i ≡ fixed j
    → (j.status == pending) ≡ false
    → any (clash i) rows ≡ false
    → any (clash j) rows ≡ false
any-clash-left i j [] alike over h = refl
any-clash-left i j (k ∷ rows) alike over h =
    let (first, rest) = or_false {a = clash i k} h in
    both_false (clash-ended_left i j k alike over first) (any-clash-left i j rows alike over rest)

any-clash-Moved :
    (k : Invitation) {rows later : List Invitation}
    → Moved rows later
    → any (clash k) rows ≡ false
    → any (clash k) later ≡ false
any-clash-Moved k none_left h = refl
any-clash-Moved k (kept_row i m) h =
    let (first, rest) = or_false {a = clash k i} h in both_false first (any-clash-Moved k m rest)
any-clash-Moved k (ended_row i j was alike over m) h =
    let (first, rest) = or_false {a = clash k i} h in
    both_false (clash-ended_right k i j alike over first) (any-clash-Moved k m rest)

is_keyed-Moved :
    {rows later : List Invitation} → Moved rows later → is_keyed rows ≡ true → is_keyed later ≡ true
is_keyed-Moved none_left h = refl
is_keyed-Moved (kept_row i {rows} m) h =
    let (first, rest) = and_true {a = not (any (clash i) rows)} h in
    both_true (not-false (any-clash-Moved i m (not-true first))) (is_keyed-Moved m rest)
is_keyed-Moved (ended_row i j {rows} {later} was alike over m) h =
    let (first, rest) = and_true {a = not (any (clash i) rows)} h in
    both_true
      (not-false (any-clash-left i j later alike over (any-clash-Moved i m (not-true first))))
      (is_keyed-Moved m rest)

is_keyed-append :
    (rows : List Invitation) (row : Invitation)
    → is_keyed rows ≡ true
    → any (λ i. clash i row) rows ≡ false
    → is_keyed (rows ++ row ∷ []) ≡ true
is_keyed-append [] row h free = refl
is_keyed-append (i ∷ rows) row h free =
    let (first, rest) = and_true {a = not (any (clash i) rows)} h in
    let (apart, others) = or_false {a = clash i row} free in
    both_true
      (not-false (
        any-append (clash i) rows (row ∷ []) ∙ both_false (not-true first) (both_false apart refl)))
      (is_keyed-append rows row rest others)

any-clash-free :
    (rows : List Invitation) (row : Invitation)
    → any (λ i. i.id == row.id) rows ≡ false
    → any (λ i. i.token_hash == row.token_hash) rows ≡ false
    → any (is_pending_for row.tenant_id row.email_normalized) rows ≡ false
    → any (λ i. clash i row) rows ≡ false
any-clash-free [] row h h' h'' = refl
any-clash-free (i ∷ rows) row h h' h'' =
    let (by_id, ids) = or_false {a = i.id == row.id} h in
    let (by_token, tokens) = or_false {a = i.token_hash == row.token_hash} h' in
    let (by_email, emails) =
      or_false {a = is_pending_for row.tenant_id row.email_normalized i} h'' in
    both_false (both_false (both_false by_id by_token) (rw by_email refl))
      (any-clash-free rows row ids tokens emails)

is_keyed-insert :
    (now : ℕ) (row : Invitation) (db : Db)
    → insertable now row db ≡ ok tt
    → is_keyed db.invitations ≡ true
    → is_keyed (db.invitations ++ row ∷ []) ≡ true
unfolding insertable
is_keyed-insert now row db h keyed =
    let (was, h1) = require_ok (row.status == pending) mi_created_pending _ h in
    let (ahead, h2) = require_ok (ltb now row.expires_at) mi_created_pending _ h1 in
    let (hexadecimal, g1) =
      require_ok (is_token_hash row.token_hash) mi_token_hash_format_check _ h2 in
    let (later, g2) =
      require_ok (ltb row.created_at row.expires_at) mi_expiry_after_creation_check _ g1 in
    let (ids, h3) = require_ok _ membership_invitations_pkey _ g2 in
    let (tokens, h4) = require_ok _ mi_token_hash_key _ h3 in
    let (emails, h5) = require_ok _ mi_one_pending_per_email_uq _ h4 in
    is_keyed-append db.invitations row keyed
      (any-clash-free db.invitations row (not-true ids) (not-true tokens) (not-true emails))

pub is_keyed-Kept : Kept (λ db. is_keyed db.invitations ≡ true)
is_keyed-Kept =
    of_table-Kept (λ rows. is_keyed rows ≡ true) (λ rows later m h. is_keyed-Moved m h)
      is_keyed-insert
