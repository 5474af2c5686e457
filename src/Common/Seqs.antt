-- ===== src/Common/Seqs.antt =====
-- Slices: lengths in native numbers, predicates over a slice, chains of fallible steps.
use Prim.Native.Nat.{ℕ, suc, ◌+◌}
use mathlib.Core.Path.{◌≡◌, refl}
use mathlib.Core.Bool.{Bool, true}
use mathlib.Core.Option.{Option, none, some}
use mathlib.Core.List.{List, [], ◌∷◌, ◌++◌}
use native.Mathlib.Omega.{arith}
use ldap2pg.Common.Equality.{if◌then◌else◌, Bool-cases}
use mathlib.Core.Logic.{inl, inr}

infixl 5 ◌>>=◌
abbrev pub ◌>>=◌ {ℓ κ} : {A : Type ℓ} {B : Type κ} → Option A → (A → Option B) → Option B
none >>= f = none
some a >>= f = f a

module _ {ℓ} {A : Type ℓ} where
  abbrev pub length : List A → ℕ
  length [] = 0
  length (x ∷ xs) = suc (length xs)

  pub length-append : (xs ys : List A) → length (xs ++ ys) ≡ length xs + length ys
  length-append [] ys = omega arith
  length-append (x ∷ xs) ys = omega (arith, length-append xs ys)

  -- `for … { if test(x) { out = append(out, x) } }`
  abbrev pub keep : (A → Bool) → List A → List A
  keep test [] = []
  keep test (x ∷ xs) = let rest = keep test xs in if test x then x ∷ rest else rest

  pub keep-append :
      (test : A → Bool) (xs ys : List A) → keep test (xs ++ ys) ≡ keep test xs ++ keep test ys
  keep-append test [] ys = refl
  keep-append test (x ∷ xs) ys = ground (arith, keep-append test xs ys)

  -- Every member satisfies the predicate.
  abbrev pub All {κ} : (A → Type κ) → List A → Type κ
  All P [] = Unit
  All P (x ∷ xs) = P x × All P xs

  pub All-append {κ} : (P : A → Type κ) (xs ys : List A) → All P xs → All P ys → All P (xs ++ ys)
  All-append P [] ys hx hy = hy
  All-append P (x ∷ xs) ys hx hy = (hx.0, All-append P xs ys hx.1 hy)

  pub All-map {κ μ} :
      (P : A → Type κ) (Q : A → Type μ) (xs : List A) → ((x : A) → P x → Q x) → All P xs → All Q xs
  All-map P Q [] f h = tt
  All-map P Q (x ∷ xs) f h = (f x h.0, All-map P Q xs f h.1)

  pub All-map₂ {κ μ ν} :
      (P : A → Type κ) (Q : A → Type μ) (R : A → Type ν) (xs : List A)
      → ((x : A) → P x → Q x → R x)
      → All P xs
      → All Q xs
      → All R xs
  All-map₂ P Q R [] f h k = tt
  All-map₂ P Q R (x ∷ xs) f h k = (f x h.0 k.0, All-map₂ P Q R xs f h.1 k.1)

  pub All-keep {κ} :
      (P : A → Type κ) (test : A → Bool) (xs : List A) → All P xs → All P (keep test xs)
  All-keep P test [] h = tt
  All-keep P test (x ∷ xs) h = elim (Bool-cases (test x)) [
    | inl e ↦ rw e (h.0, All-keep P test xs h.1)
    | inr e ↦ rw e (All-keep P test xs h.1)
  ]

  pub All-test : (test : A → Bool) (xs : List A) → All (λ x. test x ≡ true) (keep test xs)
  All-test test [] = tt
  All-test test (x ∷ xs) = elim (Bool-cases (test x)) [
    | inl e ↦ rw e (e, All-test test xs)
    | inr e ↦ rw e (All-test test xs)
  ]

  pub All-both {κ μ} :
      (P : A → Type κ) (Q : A → Type μ) (xs : List A)
      → All P xs
      → All Q xs
      → All (λ x. P x × Q x) xs
  All-both P Q xs h k = All-map₂ P Q (λ x. P x × Q x) xs (λ x p q. (p, q)) h k

  pub All-append_parts {κ} :
      (P : A → Type κ) (xs ys : List A) → All P (xs ++ ys) → All P xs × All P ys
  All-append_parts P [] ys h = (tt, h)
  All-append_parts P (x ∷ xs) ys h = let (l, r) = All-append_parts P xs ys h.1 in ((h.0, l), r)

module _ {ℓ κ} {A : Type ℓ} {B : Type κ} where
  -- `for … { out = append(out, f(x)...) }`
  abbrev pub collect : (A → List B) → List A → List B
  collect f [] = []
  collect f (x ∷ xs) = f x ++ collect f xs

  pub All-collect {μ ν} :
      (P : A → Type μ) (Q : B → Type ν) (f : A → List B) (xs : List A)
      → ((x : A) → P x → All Q (f x))
      → All P xs
      → All Q (collect f xs)
  All-collect P Q f [] h p = tt
  All-collect P Q f (x ∷ xs) h p =
      All-append Q (f x) (collect f xs) (h x p.0) (All-collect P Q f xs h p.1)

  pub All-collect_parts {μ} :
      (P : B → Type μ) (f : A → List B) (xs : List A)
      → All P (collect f xs)
      → All (λ x. All P (f x)) xs
  All-collect_parts P f [] h = tt
  All-collect_parts P f (x ∷ xs) h =
      let (l, r) = All-append_parts P (f x) (collect f xs) h in (l, All-collect_parts P f xs r)

-- Inversion of a chain that succeeds.
pub >>=-eq-some {ℓ κ} :
    {A : Type ℓ} {B : Type κ} (m : Option A) (f : A → Option B) {b : B}
    → (m >>= f) ≡ some b
    → (a : A) × (m ≡ some a) × (f a ≡ some b)
>>=-eq-some none f h = cc
>>=-eq-some (some a) f h = (a, refl, h)

pub >>=-cong {ℓ κ} :
    {A : Type ℓ} {B : Type κ} {m m' : Option A} {f g : A → Option B}
    → m ≡ m'
    → ((a : A) → f a ≡ g a)
    → (m >>= f) ≡ (m' >>= g)
>>=-cong e h i = e i >>= λ a. h a i
