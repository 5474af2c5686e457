-- ===== src/Privileges/Inspection/Received.antt =====
-- The race between `iterGrants` and the loop of `Inspect`, which `Sight` decides.
use ldap2pg.Common.{String, ◌≡◌, refl, inl, inr, true, ◌||◌, List, [], ◌∷◌, Option, none, some}
use ldap2pg.Common.{◌==◌, if◌then◌else◌, string_eq, All, arith, Bool-cases}
use ldap2pg.Common.Outcome.{Outcome, ok, error, panic, spent, ◌>>=◌}
use ldap2pg.Common.Sets.{SetOps}
use ldap2pg.Normalize.Keys.{Ends}
use ldap2pg.Privileges.{Grant}
use ldap2pg.Privileges.Inspection.{is_relevant, Sight, by_next, by_grant, by_err, receive}

-- A grant with a type is to a managed role, and a grant with an owner is of a managed one.
abbrev pub IsManaged : (S : SetOps String) → S.Carrier → Grant → Type 0
IsManaged S roles g =
    ((g.type == "" || S.has roles g.grantee) ≡ true)
    × ((g.owner == "" || S.has roles g.owner) ≡ true)

-- An error, a value with a property, or the panic of `Grant`.
abbrev pub Settles : {A : Type 0} → Sight → Outcome A → (A → Type 0) → Type 0
Settles sight (ok a) P = P a
Settles sight (error e) P = Unit
Settles by_grant panic P = Unit
Settles by_next panic P = ⊥
Settles by_err panic P = ⊥
Settles sight spent P = ⊥

pub Settles-bind :
    {A : Type 0} {B : Type 0} (sight : Sight) (P : A → Type 0) (Q : B → Type 0) (m : Outcome A)
    (f : A → Outcome B)
    → Ends m P
    → ((a : A) → P a → Settles sight (f a) Q)
    → Settles sight (m >>= f) Q
Settles-bind sight P Q (ok a) f h k = k a h
Settles-bind sight P Q (error e) f h k = tt
Settles-bind sight P Q panic f h k = absurd h
Settles-bind sight P Q spent f h k = absurd h

module _ (S : SetOps String) (roles : S.Carrier) where
  module _ (P : Grant → Type 0) where
    abbrev AllFine : List Grant → Type 0
    AllFine = All (λ g. P g × IsManaged S roles g)

    keep_settles :
        (sight : Sight) (g : Grant) (rest : Outcome (List Grant))
        → P g
        → Settles sight rest AllFine
        → Settles sight
            (rest >>= λ out. ok (if is_relevant S roles g then g ∷ out else out))
            AllFine
    keep_settles sight g (ok out) p h = elim (Bool-cases (is_relevant S roles g)) [
      | inl e ↦ rw e ((p, (ground arith, ground arith)), h)
      | inr e ↦ rw e h
    ]
    keep_settles sight g (error e) p h = tt
    keep_settles by_grant g panic p h = tt
    keep_settles by_next g panic p h = absurd h
    keep_settles by_err g panic p h = absurd h
    keep_settles sight g spent p h = absurd h

    pub receive_settles :
        (sight : Sight) (gs : List Grant) (e : Option String)
        → All P gs
        → Settles sight (receive S roles sight gs e) AllFine
    unfolding receive
    receive_settles sight [] none h = tt
    receive_settles sight [] (some e) h = tt
    receive_settles sight (g ∷ (k ∷ gs)) e h =
        keep_settles sight g (receive S roles sight (k ∷ gs) e) h.0
          (receive_settles sight (k ∷ gs) e h.1)
    receive_settles sight (g ∷ []) none h =
        keep_settles sight g (receive S roles sight [] none) h.0 tt
    receive_settles by_next (g ∷ []) (some e) h = tt
    receive_settles by_grant (g ∷ []) (some e) h = tt
    receive_settles by_err (g ∷ []) (some e) h = tt

  abbrev pub Reports : Sight → Type 0
  Reports by_grant = ⊥
  Reports _ = Unit

  pub receive-eq-error :
      (sight : Sight)
      → Reports sight
      → (gs : List Grant) (g : Grant) (e : String)
      → receive S roles sight (g ∷ gs) (some e) ≡ error e
  unfolding receive
  receive-eq-error by_next r [] g e = refl
  receive-eq-error by_err r [] g e = refl
  receive-eq-error by_grant r [] g e = absurd r
  receive-eq-error sight r (k ∷ gs) g e = rw (receive-eq-error sight r gs k e) refl

  pub receive-eq-panic :
      (gs : List Grant) (g : Grant) (e : String)
      → receive S roles by_grant (g ∷ gs) (some e) ≡ panic
  unfolding receive
  receive-eq-panic [] g e = refl
  receive-eq-panic (k ∷ gs) g e = rw (receive-eq-panic gs k e) refl
