-- ===== src/Privileges/Sync/Converge.antt =====
-- What the revocations and the grants lead to.
use ldap2pg.Common.{
  ◌≡◌, ◌≢◌, refl, sym, ◌∙◌, inl, inr, Bool-cases, Bool, true, false, not, ◌&&◌, ◌||◌, List, [], ◌∷◌,
}
use ldap2pg.Common.{◌==◌, string_eq, contains, keep, arith, map, ==_eq, ==_refl, ap, subst}
use ldap2pg.Common.Sets.{SetOps, IsLawful}
use ldap2pg.Privileges.{Grant, grant_eq, Acls}
use ldap2pg.Privileges.Sync.{full, wildcard, revoked, granted, diff}
use ldap2pg.Privileges.Sync.Performed.{
  change_query, changes, after, covers, covered_by, covers_of, contains-keep, contains-after,
  diff-changes,
}

-- No partial grant, and no mark without a privilege type.
abbrev pub IsPlain : List Grant → Type 0
IsPlain gs = (g : Grant) → contains gs g ≡ true → (g.partial ≡ false) × (g.type ≢ "")

full-eq : (g : Grant) → g.partial ≡ false → full g ≡ g
full-eq g h = ground arith

keep-eq-nil :
    (test : Grant → Bool) (gs : List Grant)
    → ((g : Grant) → contains gs g ≡ true → test g ≡ false)
    → keep test gs ≡ []
keep-eq-nil test [] h = refl
keep-eq-nil test (x ∷ gs) h =
    rw (h x (ground arith)) (keep-eq-nil test gs (λ g m. h g (ground arith)))

changed : (g : Grant) → g.partial ≡ true → (full g == g) ≡ false
changed g partly = elim (Bool-cases (full g == g)) [
  | inr e ↦ e
  | inl e ↦ cc (partly, ap (λ (x : Grant). x.partial) (==_eq (full g) g e))
]

-- No mark, and no grant that is there both partial and full.
abbrev pub IsInspected : List Grant → Type 0
IsInspected gs =
    ((g : Grant) → contains gs g ≡ true → g.type ≢ "")
    × ((g : Grant) → contains gs g ≡ true → g.partial ≡ true → contains gs (full g) ≡ false)

module _ (G : SetOps Grant) (L : IsLawful G) (current wanted : List Grant) where
  contains-revoked :
      (g : Grant)
      → contains (revoked G current wanted) g
        ≡ (not (contains wanted (full g) || g.type == "") && contains current g)
  unfolding revoked
  contains-revoked g =
      contains-keep (λ h. not (G.has (G.new_set wanted) (full h) || h.type == "")) current g
      ∙ rw (L.has-new_set wanted (full g)) refl

  contains-granted :
      (g : Grant)
      → contains (granted G current wanted) g
        ≡ (not (contains current g) && not (contains current (wildcard g)) && contains wanted g)
  unfolding granted
  contains-granted g =
      contains-keep
        (λ h. not (G.has (G.new_set current) h) && not (G.has (G.new_set current) (wildcard h)))
        wanted g
      ∙ rw (L.has-new_set current g, L.has-new_set current (wildcard g)) (ground arith)

  module _ (inspected : IsInspected current) (plain : IsPlain wanted) where
    unmarked : (g : Grant) → contains current (wildcard g) ≡ false
    unmarked g = elim (Bool-cases (contains current (wildcard g))) [
      | inl e ↦ absurd (inspected.0 (wildcard g) e refl)
      | inr e ↦ e
    ]

    -- What is granted is wanted and in full.
    granted_full :
        (g : Grant) → covers (granted G current wanted) g ≡ true → contains wanted (full g) ≡ true
    granted_full g h =
        let (x, m, e) = covered_by (granted G current wanted) g h in
        let there : contains wanted x ≡ true = ground (arith, contains-granted x) in
        subst (λ y. contains wanted y ≡ true) (sym (e ∙ full-eq x (plain x there).0)) there

    -- What is wanted and missing is granted.
    missing_granted :
        (x : Grant)
        → contains wanted x ≡ true
        → contains current x ≡ false
        → contains (granted G current wanted) x ≡ true
    missing_granted x w c = ground (arith, contains-granted x, unmarked x)

    kept :
        (g : Grant) → contains wanted (full g) ≡ true → covers (revoked G current wanted) g ≡ false
    kept g w = elim (Bool-cases (covers (revoked G current wanted) g)) [
      | inr e ↦ e
      | inl h ↦
          let (y, m, e) = covered_by (revoked G current wanted) g h in
          let gone : contains wanted (full y) ≡ false = ground (arith, contains-revoked y) in
          cc (w, gone, ap (contains wanted) e)
    ]

    unwanted : (g : Grant) → contains wanted (full g) ≡ false → contains wanted g ≡ false
    unwanted g w = elim (Bool-cases (contains wanted g)) [
      | inr e ↦ e
      | inl e ↦ cc (w, e, ap (contains wanted) (full-eq g (plain g e).0))
    ]

    stays :
        (g : Grant)
        → covers (granted G current wanted) g ≡ false
        → contains current g ≡ true
        → contains wanted (full g) ≡ true
        → contains wanted g ≡ true
    stays g h c w = elim (Bool-cases g.partial) [
      | inr whole ↦ subst (λ x. contains wanted x ≡ true) (full-eq g whole) w
      | inl partly ↦
          let granted_again = missing_granted (full g) w (inspected.1 g c partly) in
          cc (h, covers_of (granted G current wanted) (full g) g granted_again refl)
    ]

    goes :
        (g : Grant)
        → contains current g ≡ true
        → contains wanted (full g) ≡ false
        → covers (revoked G current wanted) g ≡ true
    goes g c w =
        let typed : (g.type == "") ≡ false = ground (arith, inspected.0 g c) in
        covers_of (revoked G current wanted) g g (contains-revoked g ∙ rw (w, typed, c) refl) refl

    ungranted :
        (g : Grant)
        → covers (granted G current wanted) g ≡ false
        → (contains current g && not (covers (revoked G current wanted) g)) ≡ contains wanted g
    ungranted g h = elim (Bool-cases (contains current g)) [
      | inr c ↦ elim (Bool-cases (contains wanted g)) [
        | inr w ↦ rw (c, w) refl
        | inl w ↦ cc (h, covers_of (granted G current wanted) g g (missing_granted g w c) refl)
      ]
      | inl c ↦ elim (Bool-cases (contains wanted (full g))) [
        | inl w ↦ rw (c, kept g w) (sym (stays g h c w))
        | inr w ↦ rw (c, goes g c w) (sym (unwanted g w))
      ]
    ]

    granted_exactly :
        (g : Grant) → covers (granted G current wanted) g ≡ true → (full g == g) ≡ contains wanted g
    granted_exactly g h = elim (Bool-cases g.partial) [
      | inr whole ↦
          let same : full g ≡ g = full-eq g whole in
          subst (λ x. (full g == x) ≡ true) same (==_refl (full g))
          ∙ sym (subst (λ x. contains wanted x ≡ true) same (granted_full g h))
      | inl partly ↦ elim (Bool-cases (contains wanted g)) [
        | inl w ↦ cc (partly, (plain g w).0)
        | inr w ↦ changed g partly ∙ sym w
      ]
    ]

    -- The queries that are sent revoke and grant, and leave exactly the grants that are wanted, each in
    -- full: those of the instance that are not wanted are gone, those that are missing are there, and
    -- partial ones are full. This is for wanted grants that are neither partial nor marks, and for an
    -- instance without marks that has no grant both partial and full.
    pub after_converges :
        (acls : Acls)
        → (diff G acls current wanted ≡ map (change_query acls) (changes G current wanted))
          × ((g : Grant) → contains (after G current wanted) g ≡ contains wanted g)
    after_converges acls = (
      diff-changes G acls current wanted,
      λ g.
          contains-after G current wanted g
          ∙ elim (Bool-cases (covers (granted G current wanted) g)) [
            | inl e ↦ rw e (granted_exactly g e)
            | inr e ↦ rw e (ungranted g e)
          ],
    )

  -- Once the instance has exactly the wanted grants, and none of these is partial or a mark, there
  -- is nothing to send.
  pub diff_stable :
      (acls : Acls)
      → IsPlain wanted
      → ((g : Grant) → contains current g ≡ contains wanted g)
      → diff G acls current wanted ≡ []
  unfolding diff
  diff_stable acls plain same = rw (
    keep-eq-nil (λ g. not (G.has (G.new_set wanted) (full g) || g.type == "")) current
        (λ g m.
          let there : contains wanted g ≡ true = sym (same g) ∙ m in
          rw (full-eq g (plain g there).0, L.has-new_set wanted g, there)),
    keep-eq-nil
        (λ g. not (G.has (G.new_set current) g) && not (G.has (G.new_set current) (wildcard g)))
        wanted (λ g m. rw (L.has-new_set current g, same g, m)),
  )
