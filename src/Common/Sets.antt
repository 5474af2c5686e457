-- ===== src/Common/Sets.antt =====
-- `mapset.Set` of github.com/deckarep/golang-set: the operations that the program calls, and what
-- it relies on.
use mathlib.Core.Path.{◌≡◌, refl}
use mathlib.Core.Bool.{Bool, not, ◌&&◌, ◌||◌}
use mathlib.Core.List.{List, [], ◌∷◌}
use native.Mathlib.Omega.{arith}
use ldap2pg.Common.Equality.{Eq, ◌==◌, contains}
use ldap2pg.Common.Seqs.{keep}

-- `iter` stands for `Iter` and `ToSlice`, which list the members in an order left open.
pub record SetOps (A : Type 0) : Type 1 where
  pub Carrier : Type 0
  pub new_set : List A → Carrier
  pub add : Carrier → A → Carrier
  pub remove : Carrier → A → Carrier
  pub has : Carrier → A → Bool
  pub iter : Carrier → List A

module _ {A : Type 0} ⦃e : Eq A⦄ where
  pub record IsLawful (S : SetOps A) : Type 0 where
    pub has-new_set : (xs : List A) (y : A) → S.has (S.new_set xs) y ≡ contains xs y
    pub has-add : (s : S.Carrier) (x y : A) → S.has (S.add s x) y ≡ (x == y || S.has s y)
    pub has-remove :
        (s : S.Carrier) (x y : A) → S.has (S.remove s x) y ≡ (not (y == x) && S.has s y)
    pub contains-iter : (s : S.Carrier) (y : A) → contains (S.iter s) y ≡ S.has s y

  -- Lists of members meet this.
  abbrev pub list_set : SetOps A
  list_set = record {
    Carrier = List A;
    new_set = λ xs. xs;
    add = λ s x. x ∷ s;
    remove = λ s x. keep (λ y. not (y == x)) s;
    has = contains;
    iter = λ s. s;
  }

  contains-keep :
      (x y : A) (s : List A)
      → contains (keep (λ z. not (z == x)) s) y ≡ (not (y == x) && contains s y)
  contains-keep x y [] = ground arith
  contains-keep x y (z ∷ s) = ground (arith, contains-keep x y s)

  pub list_set-IsLawful : IsLawful list_set
  list_set-IsLawful = record {
    has-new_set = λ xs y. refl;
    has-add = λ s x y. refl;
    has-remove = λ s x y. contains-keep x y s;
    contains-iter = λ s y. refl;
  }
