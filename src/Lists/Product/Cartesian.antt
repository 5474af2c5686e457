-- ===== src/Lists/Product/Cartesian.antt =====
-- The cartesian product, and the odometer against it.
use ldap2pg.Common.{
  ℕ, zero, suc, ◌<◌, ◌≤◌, ◌⊎◌, inl, inr, ◌≡◌, refl, ap, List, [], ◌∷◌, ◌++◌, map, Bool, true, false,
}
use ldap2pg.Common.{none, some, ◌>>=◌, if◌then◌else◌, collect, length, arith}
use ldap2pg.Lists.Product.{Wheel, start, combination, increment, turn, run, product}

module _ {ℓ} {A : Type ℓ} where
  -- The combinations of one value of each list, in lexicographic order of the positions.
  unfoldable pub cartesian : List (List A) → List (List A)
  cartesian [] = [] ∷ []
  cartesian (l ∷ lists) = collect (λ x. map (λ c. x ∷ c) (cartesian lists)) l

  abbrev lists_of : List (Wheel A) → List (List A)
  lists_of [] = []
  lists_of (w ∷ ws) = (w.first ∷ w.others) ∷ lists_of ws

  -- What is still to be sent.
  abbrev future : List (Wheel A) → List (List A)
  future [] = []
  future (w ∷ ws) =
      map (λ c. w.current ∷ c) (future ws)
      ++ collect (λ x. map (λ c. x ∷ c) (cartesian (lists_of ws))) w.ahead

  -- What a turn of the wheels comes to.
  abbrev Turned : List (Wheel A) → Bool × List (Wheel A) → Type ℓ
  Turned ws (true, ws') =
      (lists_of ws' ≡ lists_of ws)
      × (future ws ≡ [])
      × (cartesian (lists_of ws) ≡ combination ws' ∷ future ws')
  Turned ws (false, ws') = (lists_of ws' ≡ lists_of ws) × (future ws ≡ combination ws' ∷ future ws')

  abbrev rolled_on : Wheel A → List (Wheel A) → Bool × List (Wheel A)
  rolled_on w ws' = let (over, w') = increment w in (over, w' ∷ ws')

  abbrev wheel : A → List A → A → List A → Wheel A
  wheel x xs c ahead = record { first = x; others = xs; current = c; ahead = ahead }

  Turned-rolled :
      (x : A) (xs : List A) (c : A) (ahead : List A) (ws ws' : List (Wheel A))
      → Turned ws (true, ws')
      → Turned (wheel x xs c ahead ∷ ws) (rolled_on (wheel x xs c ahead) ws')
  unfolding increment cartesian
  Turned-rolled x xs c [] ws ws' (same, over, all) =
      (rw same refl, rw over refl, rw (all, same) refl)
  Turned-rolled x xs c (y ∷ ys) ws ws' (same, over, all) = (rw same refl, rw (over, all, same) refl)

  turn-Turned : (ws : List (Wheel A)) → Turned ws (turn ws)
  unfolding turn cartesian
  turn-Turned [] = (refl, refl, refl)
  turn-Turned (w ∷ ws) = go (turn ws) (turn-Turned ws)
    where
      go :
          (t : Bool × List (Wheel A))
          → Turned ws t
          → Turned (w ∷ ws) (
              let (rolled, ws') = t in
              let (over, w') = increment w in if rolled then (over, w' ∷ ws') else (false, w ∷ ws'))
      go (true, ws') h = Turned-rolled w.first w.others w.current w.ahead ws ws' h
      go (false, ws') (same, next) = (rw same refl, rw (next, same) refl)

  run_total :
      (fuel : ℕ) (ws : List (Wheel A)) → length (future ws) < fuel → run fuel ws ≡ some (future ws)
  unfolding run
  run_total zero ws h = absurd (omega arith)
  run_total (suc fuel) ws h = go (turn ws) (turn-Turned ws) (λ ws'. run_total fuel ws')
    where
      go :
          (t : Bool × List (Wheel A))
          → Turned ws t
          → ((vs : List (Wheel A)) → length (future vs) < fuel → run fuel vs ≡ some (future vs))
          → (let (done, ws') = t in
              if done then some [] else (run fuel ws' >>= λ more. some (combination ws' ∷ more)))
            ≡ some (future ws)
      go (true, ws') (same, over, all) rec = rw over refl
      go (false, ws') (same, next) rec =
          let shorter : length (future ws) ≡ suc (length (future ws')) = ap length next in
          let rest : length (future ws') < fuel = omega arith in rw (rec ws' rest, next) refl

  start_cases :
      (lists : List (List A))
      → ((start lists ≡ none) × (cartesian lists ≡ []))
        ⊎ ((ws : List (Wheel A)) × (start lists ≡ some ws)
            × (cartesian lists ≡ combination ws ∷ future ws)
            × (lists_of ws ≡ lists))
  unfolding start cartesian
  start_cases [] = inr ([], refl, refl, refl)
  start_cases ([] ∷ lists) = inl (refl, refl)
  start_cases ((x ∷ xs) ∷ lists) = elim (start_cases lists) [
    | inl (e, f) ↦ inl (rw e refl, collect_nils (cartesian lists) f (x ∷ xs))
    | inr (ws, e, f, g) ↦ inr (wheel x xs x xs ∷ ws, rw e refl, rw (f, g) refl, rw g refl)
  ]
    where
      collect_nils :
          (p : List (List A)) → p ≡ [] → (l : List A) → collect (λ y. map (λ c. y ∷ c) p) l ≡ []
      collect_nils p f [] = refl
      collect_nils p f (y ∷ l) = rw f (collect_nils p f l)

  -- `Product` ends and sends one combination of values for each choice of a position in every list,
  -- ordered by the position in the first list, then in the second, and so on; none if a list is
  -- empty, and none for no lists at all. As much fuel as there are combinations is enough.
  pub product-cartesian :
      (fuel : ℕ) (lists : List (List A))
      → length (cartesian lists) ≤ fuel
      → product fuel lists ≡ some (elim lists [ [] ↦ [] | l ∷ ls ↦ cartesian (l ∷ ls) ])
  unfolding product
  product-cartesian fuel [] h = refl
  product-cartesian fuel (l ∷ lists) h = elim (start_cases (l ∷ lists)) [
    | inl (e, f) ↦ rw (product, e, f) refl
    | inr (ws, e, f, _) ↦
        let shorter : length (cartesian (l ∷ lists)) ≡ suc (length (future ws)) = ap length f in
        let enough : length (future ws) < fuel = omega arith in
        rw (product, e, run_total fuel ws enough, f) refl
  ]
