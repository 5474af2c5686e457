-- ===== src/Common/Dict.antt =====
-- Go maps from strings. The list stands in the order in which one `range` visits the entries, which
-- the language leaves open: a statement over every list is one over every order.
use Prim.Native.String.{String}
use mathlib.Core.Path.{◌≡◌, refl, subst}
use mathlib.Core.Logic.{inl, inr}
use mathlib.Core.Bool.{Bool, true, false}
use mathlib.Core.Option.{Option, none, some}
use mathlib.Core.List.{List, [], ◌∷◌}
use native.Mathlib.Omega.{arith}
use ldap2pg.Common.Equality.{◌==◌, string_eq, if◌then◌else◌, contains, Bool-cases, ==_eq}
use ldap2pg.Common.Seqs.{All}

abbrev pub Dict {ℓ} : Type ℓ → Type ℓ
Dict V = List (String × V)

-- `_, ok := m[k]`
abbrev pub is_some {ℓ} : {A : Type ℓ} → Option A → Bool
is_some none = false
is_some (some _) = true

module _ {ℓ} {V : Type ℓ} where
  -- `v, ok := m[k]`
  abbrev pub lookup : String → Dict V → Option V
  lookup k [] = none
  lookup k ((j, v) ∷ m) = if j == k then some v else lookup k m

  -- `v := m[k]`, with the zero value of the type.
  abbrev pub get_or : Dict V → String → V → V
  get_or m k zero_value = elim (lookup k m) [ none ↦ zero_value | some v ↦ v ]

  -- `m[k] = v`
  unfoldable pub insert : String → V → Dict V → Dict V
  insert k v [] = (k, v) ∷ []
  insert k v ((j, w) ∷ m) = if j == k then (k, v) ∷ m else (j, w) ∷ insert k v m

  -- `delete(m, k)`
  unfoldable pub erase : String → Dict V → Dict V
  erase k [] = []
  erase k ((j, w) ∷ m) = let rest = erase k m in if j == k then rest else (j, w) ∷ rest

  -- `maps.Keys`
  abbrev pub keys : Dict V → List String
  keys [] = []
  keys ((k, v) ∷ m) = k ∷ keys m

  pub lookup-insert :
      (k j : String) (v : V) (m : Dict V)
      → lookup j (insert k v m) ≡ (if k == j then some v else lookup j m)
  unfolding insert
  lookup-insert k j v [] = refl
  lookup-insert k j v ((i, w) ∷ m) = ground (arith, lookup-insert k j v m)

  pub lookup-erase :
      (k j : String) (m : Dict V) → lookup j (erase k m) ≡ (if k == j then none else lookup j m)
  unfolding erase
  lookup-erase k j [] = ground arith
  lookup-erase k j ((i, w) ∷ m) = ground (arith, lookup-erase k j m)

  -- No key is listed twice.
  abbrev pub NodupKeys : Dict V → Type 0
  NodupKeys [] = Unit
  NodupKeys ((k, _) ∷ m) = (contains (keys m) k ≡ false) × NodupKeys m

  pub contains-keys : (m : Dict V) (k : String) → contains (keys m) k ≡ is_some (lookup k m)
  contains-keys [] k = refl
  contains-keys ((j, v) ∷ m) k = ground (arith, contains-keys m k)

  abbrev Listed : Dict V → Dict V → Type ℓ
  Listed m = All (λ (k, v). (contains (keys m) k ≡ true) × (lookup k m ≡ some v))

  Listed-cons :
      (j : String) (w : V) (m rest : Dict V)
      → contains (keys m) j ≡ false
      → Listed m rest
      → Listed ((j, w) ∷ m) rest
  Listed-cons j w m [] fresh h = tt
  Listed-cons j w m ((k, v) ∷ rest) fresh ((c, e), h) =
      (ground arith, Listed-cons j w m rest fresh h)

  -- With no key twice, every entry is what its key finds.
  pub lookup_entries :
      (m : Dict V)
      → NodupKeys m
      → All (λ (k, v). (contains (keys m) k ≡ true) × (lookup k m ≡ some v)) m
  lookup_entries [] u = tt
  lookup_entries ((k, v) ∷ m) (fresh, u) =
      (ground arith, Listed-cons k v m m fresh (lookup_entries m u))

module _ {ℓ} {V : Type ℓ} where
  pub keys-insert :
      (k : String) (v : V) (m : Dict V) (j : String)
      → contains (keys (insert k v m)) j ≡ (if k == j then true else contains (keys m) j)
  unfolding insert
  keys-insert k v [] j = ground arith
  keys-insert k v ((i, w) ∷ m) j = ground (arith, keys-insert k v m j)

  pub NodupKeys-insert : (k : String) (v : V) (m : Dict V) → NodupKeys m → NodupKeys (insert k v m)
  unfolding insert
  NodupKeys-insert k v [] u = (refl, tt)
  NodupKeys-insert k v ((i, w) ∷ m) (fresh, u) = elim (Bool-cases (i == k)) [
    | inl e ↦ rw e (subst (λ x. contains (keys m) x ≡ false) (==_eq i k e) fresh, u)
    | inr d ↦ rw d (ground (arith, keys-insert k v m i), NodupKeys-insert k v m u)
  ]

  pub All-insert {κ} :
      (P : String × V → Type κ) (k : String) (v : V) (m : Dict V)
      → P (k, v)
      → All P m
      → All P (insert k v m)
  unfolding insert
  All-insert P k v [] p h = (p, tt)
  All-insert P k v ((i, w) ∷ m) p h = elim (Bool-cases (i == k)) [
    | inl e ↦ rw e (p, h.1)
    | inr d ↦ rw d (h.0, All-insert P k v m p h.1)
  ]

  pub All-lookup {κ} :
      (P : String × V → Type κ) (k : String) (v : V) (m : Dict V)
      → All P m
      → lookup k m ≡ some v
      → P (k, v)
  All-lookup P k v [] h e = cc
  All-lookup P k v ((i, w) ∷ m) h e = elim (string_eq.dec i k) [
    | yes same ↦
        let found : w ≡ v = ground arith in
        subst (λ x. P (k, x)) found (subst (λ x. P (x, w)) same h.0)
    | no d ↦ All-lookup P k v m h.1 (ground arith)
  ]

pub All-keys {ℓ κ μ} :
    {V : Type ℓ} (P : String × V → Type κ) (Q : String → Type μ) (m : Dict V)
    → ((k : String) (v : V) → P (k, v) → Q k)
    → All P m
    → All Q (keys m)
All-keys P Q [] f h = tt
All-keys P Q ((k, v) ∷ m) f h = (f k v h.0, All-keys P Q m f h.1)
