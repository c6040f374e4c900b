-- ===== src/Tenancy/Selection/Laws.antt =====
-- What a selected membership is, and when a selection is denied.
use taller_mecario_b.Base.{
  String, Bool, true, false, ◌&&◌, not, List, [], ◌∷◌, Option, none, some, ok, err, ◌>>=◌, bind_ok,
  any, find, find_sound, find-none, find-any, ◌==◌, string_key, ◌≡◌, refl, sym, ◌∙◌, ap, arith, ◌⊎◌,
  inl, inr, ◌↔◌, Bool-cases, subst, eq_iff, ==_sound,
}
use taller_mecario_b.Collections.{has}
use taller_mecario_b.Authz.Authorize.{text}
use taller_mecario_b.Tenancy.Uuid.{UuidSchema, parse_canonical_uuid}
use taller_mecario_b.Tenancy.Selection.{
  tenant_access_denied, TenantSelection, no_selection, explicit, ActiveMembershipCandidate,
  RawCandidate, canonical_candidate, normalize_from, normalize_candidates, explicit_tenant_id,
  requested, choose, or_denied, only, select_tenant_candidate,
}

-- How many candidates are of a tenant.
abbrev pub of_tenant : String → List ActiveMembershipCandidate → Bool
of_tenant tenant_id = any (λ (c : ActiveMembershipCandidate). c.tenant_id == tenant_id)

-- Each tenant once.
abbrev pub is_distinct : List ActiveMembershipCandidate → Bool
is_distinct [] = true
is_distinct (c ∷ cs) = not (of_tenant c.tenant_id cs) && is_distinct cs

abbrev none_of : List String → List ActiveMembershipCandidate → Bool
none_of seen [] = true
none_of seen (c ∷ cs) = not (has c.tenant_id seen) && none_of seen cs

none_of-cons :
    (t : String) (seen : List String) (cs : List ActiveMembershipCandidate)
    → none_of (t ∷ seen) cs ≡ true
    → (none_of seen cs ≡ true) × (of_tenant t cs ≡ false)
none_of-cons t seen [] h = (refl, refl)
none_of-cons t seen (c ∷ cs) h =
    let (rest, apart) = none_of-cons t seen cs (ground arith) in
    (ground (arith, rest), ground (arith, apart, eq_iff t c.tenant_id, eq_iff c.tenant_id t))

normalize_from-is_distinct :
    (schema : UuidSchema) (seen : List String) (raws : List RawCandidate)
    {cs : List ActiveMembershipCandidate}
    → normalize_from schema seen raws ≡ ok cs
    → (is_distinct cs ≡ true) × (none_of seen cs ≡ true)
unfolding normalize_from
normalize_from-is_distinct schema seen [] {cs} h =
    let same : [] ≡ cs = cc in
    (
      subst (λ (l : List ActiveMembershipCandidate). is_distinct l ≡ true) same refl,
      subst (λ (l : List ActiveMembershipCandidate). none_of seen l ≡ true) same refl,
    )
normalize_from-is_distinct schema seen (raw ∷ raws) {cs} h =
    let (c, is_c, later) = bind_ok (canonical_candidate schema raw) _ h in
    elim (Bool-cases (has c.tenant_id seen)) [
      | inl old ↦ absurd (ground (arith, later, old))
      | inr new ↦
          let (rest, is_rest, last) =
            bind_ok (normalize_from schema (c.tenant_id ∷ seen) raws) _ (rw new at later) in
          let (distinct, apart) =
            normalize_from-is_distinct schema (c.tenant_id ∷ seen) raws is_rest in
          let (fresh, alone) = none_of-cons c.tenant_id seen rest apart in
          let same : (c ∷ rest) ≡ cs = cc in
          (
            subst (λ (l : List ActiveMembershipCandidate). is_distinct l ≡ true) same
                (ground (arith, distinct, alone)),
            subst (λ (l : List ActiveMembershipCandidate). none_of seen l ≡ true) same
                (ground (arith, new, fresh)),
          )
    ]

-- The membership that a request uses is a candidate of the database, whose tenants are all different: the
-- only candidate where nothing was selected, and the one of the selected tenant otherwise.
pub select_tenant_candidate-chosen :
    (schema : UuidSchema) (raws : List RawCandidate) (selection : TenantSelection)
    (c : ActiveMembershipCandidate)
    → select_tenant_candidate schema raws selection ≡ ok c
    → (cs : List ActiveMembershipCandidate) × (normalize_candidates schema raws ≡ ok cs)
      × (is_distinct cs ≡ true)
      × (((selection ≡ no_selection) × (cs ≡ c ∷ []))
          ⊎ ((tenant_id : String) × (selection ≡ explicit tenant_id)
              × (parse_canonical_uuid schema (text tenant_id) ≡ some c.tenant_id)
              × (find (λ (d : ActiveMembershipCandidate). d.tenant_id == c.tenant_id) cs ≡ some c)))
unfolding select_tenant_candidate normalize_candidates
select_tenant_candidate-chosen schema raws selection c h =
    let (cs, is_cs, later) = bind_ok (normalize_candidates schema raws) _ h in
    let (distinct, _) = normalize_from-is_distinct schema [] raws is_cs in
    (cs, is_cs, distinct, by_selection cs selection later)
  where
    by_only : (cs : List ActiveMembershipCandidate) → only cs ≡ ok c → cs ≡ c ∷ []
    by_only [] h = cc
    by_only (d ∷ []) h = let it : d ≡ c = cc in ap (λ x. x ∷ []) it
    by_only (d ∷ e ∷ cs) h = cc

    by_match :
        (cs : List ActiveMembershipCandidate) (t tenant_id : String)
        → (e : Option ActiveMembershipCandidate)
        → find (λ (d : ActiveMembershipCandidate). d.tenant_id == t) cs ≡ e
        → or_denied e ≡ ok c
        → parse_canonical_uuid schema (text tenant_id) ≡ some t
        → (parse_canonical_uuid schema (text tenant_id) ≡ some c.tenant_id)
          × (find (λ (d : ActiveMembershipCandidate). d.tenant_id == c.tenant_id) cs ≡ some c)
    by_match cs t tenant_id none found h is_t = cc
    by_match cs t tenant_id (some d) found h is_t =
        let it : d ≡ c = cc in
        let of_t : d.tenant_id ≡ t =
          ==_sound d.tenant_id t
            (find_sound (λ (d : ActiveMembershipCandidate). d.tenant_id == t) cs found) in
        let ct : c.tenant_id ≡ t =
          sym (ap (λ (d : ActiveMembershipCandidate). d.tenant_id) it) ∙ of_t in
        (
          is_t ∙ ap some (sym ct),
          ap (λ u. find (λ (d : ActiveMembershipCandidate). d.tenant_id == u) cs) ct
              ∙ found
              ∙ ap some it,
        )

    by_parsed :
        (cs : List ActiveMembershipCandidate) (tenant_id : String)
        → (e : Option String) → parse_canonical_uuid schema (text tenant_id) ≡ e
        → (requested e >>= choose cs) ≡ ok c
        → (parse_canonical_uuid schema (text tenant_id) ≡ some c.tenant_id)
          × (find (λ (d : ActiveMembershipCandidate). d.tenant_id == c.tenant_id) cs ≡ some c)
    by_parsed cs tenant_id none is_t h = cc
    by_parsed cs tenant_id (some t) is_t h = by_match cs t tenant_id _ refl h is_t

    by_selection :
        (cs : List ActiveMembershipCandidate) (selection : TenantSelection)
        → (explicit_tenant_id schema selection >>= choose cs) ≡ ok c
        → ((selection ≡ no_selection) × (cs ≡ c ∷ []))
          ⊎ ((tenant_id : String) × (selection ≡ explicit tenant_id)
              × (parse_canonical_uuid schema (text tenant_id) ≡ some c.tenant_id)
              × (find (λ (d : ActiveMembershipCandidate). d.tenant_id == c.tenant_id) cs ≡ some c))
    by_selection cs no_selection h = inl (refl, by_only cs h)
    by_selection cs (explicit tenant_id) h =
        let (is_t, found) =
          by_parsed cs tenant_id (parse_canonical_uuid schema (text tenant_id)) refl h in
        inr (tenant_id, refl, is_t, found)

-- With candidates that the database gives well formed, a well-formed selection is denied exactly where
-- none of them is of the selected tenant: whatever the reason, and however many others there are.
pub select_tenant_candidate-denied_iff :
    (schema : UuidSchema) (raws : List RawCandidate) (tenant_id canonical : String)
    (cs : List ActiveMembershipCandidate)
    → normalize_candidates schema raws ≡ ok cs
    → parse_canonical_uuid schema (text tenant_id) ≡ some canonical
    → (select_tenant_candidate schema raws (explicit tenant_id) ≡ err tenant_access_denied)
      ↔ (of_tenant canonical cs ≡ false)
unfolding select_tenant_candidate normalize_candidates explicit_tenant_id
select_tenant_candidate-denied_iff schema raws tenant_id canonical cs is_cs is_t =
    rw (is_cs, is_t)
      (by_found cs (find (λ (d : ActiveMembershipCandidate). d.tenant_id == canonical) cs) refl)
  where
    by_found :
        (cs : List ActiveMembershipCandidate) (e : Option ActiveMembershipCandidate)
        → find (λ (d : ActiveMembershipCandidate). d.tenant_id == canonical) cs ≡ e
        → (or_denied e ≡ err tenant_access_denied) ↔ (of_tenant canonical cs ≡ false)
    by_found cs none found = (
      λ _. find-none (λ (d : ActiveMembershipCandidate). d.tenant_id == canonical) cs found,
      λ _. refl,
    )
    by_found cs (some d) found = (
      λ h. cc,
      λ h.
          ground (
            arith,
            find-any (λ (d : ActiveMembershipCandidate). d.tenant_id == canonical) cs found,
          ),
    )
