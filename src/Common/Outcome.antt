-- ===== src/Common/Outcome.antt =====
-- How a call ends that can fail: with a value, with an error, with a panic, or, where it is a loop
-- on fuel, with the fuel spent.
use Prim.Native.String.{String, ◌++◌ as ◌<>◌}
use Prim.Native.Nat.{ℕ, suc}
use mathlib.Core.List.{List, [], ◌∷◌}
use mathlib.Core.Option.{Option, none, some}

pub data Outcome {ℓ} (A : Type ℓ) : Type ℓ where
  ok : A → Outcome A
  error : String → Outcome A
  panic : Outcome A
  spent : Outcome A

-- What follows a call is run on its value alone.
infixl 5 ◌>>=◌
abbrev pub ◌>>=◌ {κ μ} : {V : Type κ} {W : Type μ} → Outcome V → (V → Outcome W) → Outcome W
spent >>= next = spent
panic >>= next = panic
error text >>= next = error text
ok value >>= next = next value

infixl 5 ◌>>◌
abbrev pub ◌>>◌ {μ} : {W : Type μ} → Outcome (Unit {0}) → Outcome W → Outcome W
call >> next = call >>= λ done. next

-- A panic that another model writes as `none`.
abbrev pub or_panic {ℓ} : {A : Type ℓ} → Option A → Outcome A
or_panic none = panic
or_panic (some a) = ok a

-- `if err != nil { return err }`
abbrev pub or_return : Option String → Outcome (Unit {0})
or_return none = ok tt
or_return (some e) = error e

-- `fmt.Errorf("…: %w", err)` on the way out.
abbrev pub wrap {ℓ} : {A : Type ℓ} → String → Outcome A → Outcome A
wrap context (ok a) = ok a
wrap context (error e) = error (context <> e)
wrap context panic = panic
wrap context spent = spent

-- Fuel that another model writes as `none`.
abbrev pub or_spent {ℓ} : {A : Type ℓ} → Option A → Outcome A
or_spent none = spent
or_spent (some a) = ok a

-- `for i, x := range …`, with a step that may fail.
unfoldable pub each {ℓ κ} :
    {A : Type ℓ} {B : Type κ} → (ℕ → A → Outcome B) → ℕ → List A → Outcome (List B)
each f i [] = ok []
each f i (x ∷ xs) = f i x >>= λ y. each f (suc i) xs >>= λ ys. ok (y ∷ ys)
