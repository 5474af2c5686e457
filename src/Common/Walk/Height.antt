-- ===== src/Common/Walk/Height.antt =====
-- A bound on the depth of every descent gives a rank under which children are below their parents.
use Prim.Native.Nat.{ℕ, zero, suc, ◌<◌, max}
use Prim.Native.String.{String}
use mathlib.Core.Path.{◌≡◌, refl}
use mathlib.Core.List.{List, [], ◌∷◌}
use native.Mathlib.Omega.{arith}
use ldap2pg.Common.Seqs.{All, All-map, All-map₂}

-- Every descent from the node ends in fewer steps than the number.
abbrev pub Tall : (String → List String) → ℕ → String → Type 0
Tall children zero n = ⊥
Tall children (suc f) n = All (Tall children f) (children n)

abbrev sup : (String → ℕ) → List String → ℕ
sup g [] = 0
sup g (c ∷ cs) = max (suc (g c)) (sup g cs)

module _ (children : String → List String) where
  unfoldable pub height : ℕ → String → ℕ
  height zero n = 0
  height (suc f) n = sup (height f) (children n)

  sup-lt : (g : String → ℕ) (b : ℕ) (cs : List String) → All (λ c. g c < b) cs → sup g cs < suc b
  sup-lt g b [] h = omega arith
  sup-lt g b (c ∷ cs) h = omega (arith, sup-lt g b cs h.1, h.0)

  lt-sup : (g : String → ℕ) (cs : List String) → All (λ c. g c < sup g cs) cs
  lt-sup g [] = tt
  lt-sup g (c ∷ cs) = (
    omega arith,
    All-map (λ x. g x < sup g cs) (λ x. g x < max (suc (g c)) (sup g cs)) cs (λ x h. omega arith)
        (lt-sup g cs),
  )

  pub height-lt : (f : ℕ) (n : String) → Tall children f n → height f n < f
  unfolding height
  height-lt zero n h = absurd h
  height-lt (suc f) n h =
      sup-lt (height f) f (children n)
        (All-map (Tall children f) (λ c. height f c < f) (children n) (height-lt f) h)

  sup-eq : (g k : String → ℕ) (cs : List String) → All (λ c. g c ≡ k c) cs → sup g cs ≡ sup k cs
  sup-eq g k [] h = refl
  sup-eq g k (c ∷ cs) h = omega (arith, sup-eq g k cs h.1, h.0)

  height_stable : (f : ℕ) (n : String) → Tall children f n → height (suc f) n ≡ height f n
  unfolding height
  height_stable zero n h = absurd h
  height_stable (suc f) n h = sup-eq (height (suc f)) (height f) (children n) (
      All-map (Tall children f) (λ c. height (suc f) c ≡ height f c) (children n) (height_stable f)
        h)

  pub height_ranks :
      (f : ℕ) (n : String) → Tall children f n → All (λ c. height f c < height f n) (children n)
  unfolding height
  height_ranks zero n h = absurd h
  height_ranks (suc f) n h =
      All-map₂ (Tall children f) (λ c. height f c < sup (height f) (children n))
        (λ c. sup (height f) (children c) < sup (height f) (children n)) (children n)
        (λ c t lt. omega (arith, height_stable f c t)) h (lt-sup (height f) (children n))
