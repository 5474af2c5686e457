-- ===== src/Privileges/Sync/Performed.antt =====
-- What the queries of a synchronisation do to the grants of an instance.
use ldap2pg.Common.{
  ◌≡◌, refl, sym, ◌∙◌, inl, inr, Bool-cases, Bool, true, false, not, ◌&&◌, ◌||◌, List, [], ◌∷◌,
  ◌++◌,
}
use ldap2pg.Common.{
  ◌==◌, string_eq, contains, keep, arith, map, ==_eq, ==_refl, ap, subst, if◌then◌else◌,
}
use ldap2pg.Common.Sets.{SetOps}
use ldap2pg.Privileges.{Grant, grant_eq, Acls}
use ldap2pg.Postgres.{SyncQuery}
use ldap2pg.Privileges.Sync.{full, revoke_query, grant_query, revoked, granted, diff}

pub contains-keep :
    (test : Grant → Bool) (gs : List Grant) (g : Grant)
    → contains (keep test gs) g ≡ (test g && contains gs g)
contains-keep test [] g = ground arith
contains-keep test (h ∷ gs) g = ground (arith, contains-keep test gs g)

-- What a query of the synchronisation does.
pub data Change : Type 0 where
  revoke : Grant → Change
  grant : Grant → Change

abbrev pub change_query : Acls → Change → SyncQuery
change_query acls (revoke g) = revoke_query acls g
change_query acls (grant g) = grant_query acls g

-- The grants of an instance after a query: `REVOKE` takes a grant away, be it partial or full.
-- `GRANT` leaves a full one, in the place of one that was partial.
abbrev pub perform : List Grant → Change → List Grant
perform gs (revoke g) = keep (λ h. not (full h == full g)) gs
perform gs (grant g) = full g ∷ keep (λ h. not (full h == full g)) gs

abbrev pub perform_all : List Grant → List Change → List Grant
perform_all gs [] = gs
perform_all gs (c ∷ cs) = perform_all (perform gs c) cs

perform_all-append :
    (gs : List Grant) (cs ds : List Change)
    → perform_all gs (cs ++ ds) ≡ perform_all (perform_all gs cs) ds
perform_all-append gs [] ds = refl
perform_all-append gs (c ∷ cs) ds = perform_all-append (perform gs c) cs ds

-- One of the grants is the same, up to its partial flag.
abbrev pub covers : List Grant → Grant → Bool
covers [] g = false
covers (x ∷ xs) g = full g == full x || covers xs g

pub covered_by :
    (xs : List Grant) (g : Grant)
    → covers xs g ≡ true
    → (x : Grant) × (contains xs x ≡ true) × (full g ≡ full x)
covered_by [] g h = cc
covered_by (x ∷ xs) g h = elim (Bool-cases (full g == full x)) [
  | inl e ↦ (x, ground arith, ==_eq (full g) (full x) e)
  | inr e ↦ let (y, m, p) = covered_by xs g (ground arith) in (y, ground arith, p)
]

pub covers_of :
    (xs : List Grant) (x g : Grant) → contains xs x ≡ true → full g ≡ full x → covers xs g ≡ true
covers_of [] x g m e = cc
covers_of (y ∷ xs) x g m e = elim (Bool-cases (y == x)) [
  | inl p ↦
      let same : (full g == full y) ≡ true =
        subst (λ z. (full g == full z) ≡ true) (sym (==_eq y x p))
          (subst (λ z. (full g == z) ≡ true) e (==_refl (full g))) in
      rw same refl
  | inr d ↦ ground (arith, covers_of xs x g)
]

contains-revoke_all :
    (xs gs : List Grant) (g : Grant)
    → contains (perform_all gs (map revoke xs)) g ≡ (contains gs g && not (covers xs g))
contains-revoke_all [] gs g = ground arith
contains-revoke_all (x ∷ xs) gs g = ground (
  arith,
  contains-revoke_all xs (keep (λ h. not (full h == full x)) gs) g,
  contains-keep (λ h. not (full h == full x)) gs g,
)

contains-grant :
    (x : Grant) (gs : List Grant) (g : Grant)
    → contains (perform gs (grant x)) g ≡ (if full g == full x then full g == g else contains gs g)
contains-grant x gs g = elim (Bool-cases (full g == full x)) [
  | inl e ↦
      ap (λ b. full x == g || b) (contains-keep (λ h. not (full h == full x)) gs g)
      ∙ rw (e, ==_eq (full g) (full x) e) (ground arith)
  | inr e ↦
      let apart : (full x == g) ≡ false = other e in
      ap (λ b. full x == g || b) (contains-keep (λ h. not (full h == full x)) gs g)
      ∙ rw (apart, e) refl
]
  where
    other : (full g == full x) ≡ false → (full x == g) ≡ false
    other e = elim (Bool-cases (full x == g)) [
      | inr d ↦ d
      | inl p ↦
          let same : (full g == full x) ≡ true =
            subst (λ z. (full z == full x) ≡ true) (==_eq (full x) g p) (==_refl (full x)) in
          cc (same, e)
    ]

contains-grant_all :
    (xs gs : List Grant) (g : Grant)
    → contains (perform_all gs (map grant xs)) g
      ≡ (if covers xs g then full g == g else contains gs g)
contains-grant_all [] gs g = refl
contains-grant_all (x ∷ xs) gs g =
    contains-grant_all xs (perform gs (grant x)) g ∙ go (contains-grant x gs g)
  where
    go :
        contains (perform gs (grant x)) g
          ≡ (if full g == full x then full g == g else contains gs g)
        → (if covers xs g then full g == g else contains (perform gs (grant x)) g)
          ≡ (if covers (x ∷ xs) g then full g == g else contains gs g)
    go e = ap (λ b. if covers xs g then full g == g else b) e ∙ ground arith

module _ (G : SetOps Grant) where
  abbrev pub changes : List Grant → List Grant → List Change
  changes current wanted =
      map revoke (revoked G current wanted) ++ map grant (granted G current wanted)

  -- The grants of the instance behind the queries.
  abbrev pub after : List Grant → List Grant → List Grant
  after current wanted = perform_all current (changes current wanted)

  pub diff-changes :
      (acls : Acls) (current wanted : List Grant)
      → diff G acls current wanted ≡ map (change_query acls) (changes current wanted)
  unfolding diff
  diff-changes acls current wanted = sym (go (revoked G current wanted) (granted G current wanted))
    where
      go :
          (xs ys : List Grant)
          → map (change_query acls) (map revoke xs ++ map grant ys)
            ≡ map (revoke_query acls) xs ++ map (grant_query acls) ys
      go (x ∷ xs) ys = rw (go xs ys) refl
      go [] (y ∷ ys) = rw (go [] ys) refl
      go [] [] = refl

  pub contains-after :
      (current wanted : List Grant) (g : Grant)
      → contains (after current wanted) g ≡ (
          if covers (granted G current wanted) g
          then full g == g
          else contains current g && not (covers (revoked G current wanted) g))
  contains-after current wanted g =
      ap (λ gs. contains gs g)
        (perform_all-append current (map revoke (revoked G current wanted))
          (map grant (granted G current wanted)))
      ∙ contains-grant_all (granted G current wanted)
          (perform_all current (map revoke (revoked G current wanted))) g
      ∙ ap (λ b. if covers (granted G current wanted) g then full g == g else b)
          (contains-revoke_all (revoked G current wanted) current g)
