-- ===== src/Common/Int.antt =====
-- Go's `int`, as far as the program uses it: a value that is compared, and printed by `%d`.
use Prim.Native.Nat.{ℕ, zero, suc, ◌+◌, ◌/◌, ◌%◌}
use Prim.Native.String.{String, ◌++◌}
use mathlib.Core.Path.{◌≡◌, refl}
use native.Mathlib.Decide.{ℕ_discrete}
use ldap2pg.Common.Equality.{Eq, ◌==◌, nat_eq, if◌then◌else◌}

-- `negsuc n` is -(n + 1).
pub data ℤ : Type 0 where
  pos : ℕ → ℤ
  negsuc : ℕ → ℤ

ℤ-discrete : Discrete ℤ
ℤ-discrete = hlevel ℕ_discrete

instance unfoldable pub int_eq : Eq ℤ
unfolding ℤ-discrete ℕ_discrete
int_eq = record { dec = ℤ-discrete }

digit : ℕ → String
digit zero = "0"
digit (suc zero) = "1"
digit (suc (suc zero)) = "2"
digit (suc (suc (suc zero))) = "3"
digit (suc (suc (suc (suc zero)))) = "4"
digit (suc (suc (suc (suc (suc zero))))) = "5"
digit (suc (suc (suc (suc (suc (suc zero)))))) = "6"
digit (suc (suc (suc (suc (suc (suc (suc zero))))))) = "7"
digit (suc (suc (suc (suc (suc (suc (suc (suc zero)))))))) = "8"
digit _ = "9"

-- The digits of a number below 10 ^ fuel.
digits : ℕ → ℕ → String
digits zero n = ""
digits (suc fuel) n =
    let rest = digits fuel (n / 10) in
    if n / 10 == 0 then digit (n % 10) else rest ++ digit (n % 10)

-- Twenty digits hold every 64-bit number.
unfoldable pub decimal : ℤ → String
unfolding digits digit nat_eq
decimal (pos n) = digits 20 n
decimal (negsuc n) = "-" ++ digits 20 (n + 1)

decimal_samples :
    (decimal (negsuc 0) ≡ "-1") × (decimal (pos 1203) ≡ "1203") × (decimal (pos 0) ≡ "0")
unfolding decimal
decimal_samples = (refl, refl, refl)
