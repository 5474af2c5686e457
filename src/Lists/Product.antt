-- ===== src/Lists/Product.antt =====
-- internal/lists/product.go. The channel is the list of the combinations sent.
pub mod Cartesian
use ldap2pg.Common.{
  ℕ, zero, suc, List, [], ◌∷◌, Bool, true, false, Option, none, some, ◌>>=◌, if◌then◌else◌,
}

-- A list that is not empty, and a position in it: the value there and those behind it.
pub record Wheel {ℓ} (A : Type ℓ) : Type ℓ where
  pub first : A
  pub others : List A
  pub current : A
  pub ahead : List A

module _ {ℓ} {A : Type ℓ} where
  -- The first loop: every list at its first value, unless one is empty.
  unfoldable pub start : List (List A) → Option (List (Wheel A))
  start [] = some []
  start ([] ∷ lists) = none
  start ((x ∷ xs) ∷ lists) =
      start lists >>= λ ws. some (record { first = x; others = xs; current = x; ahead = xs } ∷ ws)

  abbrev pub combination : List (Wheel A) → List A
  combination [] = []
  combination (w ∷ ws) = w.current ∷ combination ws

  -- One list is moved on; whether it was exhausted and is back at its first value.
  unfoldable pub increment : Wheel A → Bool × Wheel A
  increment w = elim w.ahead [
    | [] ↦ (true, record w { current = w.first; ahead = w.others })
    | y ∷ ys ↦ (false, record w { current = y; ahead = ys })
  ]

  -- The loop from the last list to the first; `true` where it runs past the first.
  unfoldable pub turn : List (Wheel A) → Bool × List (Wheel A)
  unfolding increment
  turn [] = (true, [])
  turn (w ∷ ws) =
      let (rolled, ws') = turn ws in
      let (over, w') = increment w in if rolled then (over, w' ∷ ws') else (false, w ∷ ws')

  -- The outer loop, on fuel.
  unfoldable pub run : ℕ → List (Wheel A) → Option (List (List A))
  unfolding turn
  run zero ws = none
  run (suc fuel) ws =
      let (done, ws') = turn ws in
      let rest = run fuel ws' in
      if done then some [] else (rest >>= λ more. some (combination ws' ∷ more))

  unfoldable pub product : ℕ → List (List A) → Option (List (List A))
  unfolding start run
  product fuel [] = some []
  product fuel (l ∷ lists) = elim (start (l ∷ lists)) [
    | none ↦ some []
    | some ws ↦ run fuel ws >>= λ more. some (combination ws ∷ more)
  ]
