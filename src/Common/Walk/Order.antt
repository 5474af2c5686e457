-- ===== src/Common/Walk/Order.antt =====
-- Where the children of every node rank below it, a walk ends with enough fuel, lists each node
-- once, and each behind its children.
use Prim.Native.Nat.{ℕ, zero, suc, ◌<◌}
use Prim.Native.String.{String}
use mathlib.Core.Path.{◌≡◌, refl, sym, ◌∙◌}
use mathlib.Core.Bool.{true, false, ◌||◌}
use mathlib.Core.Option.{some}
use mathlib.Core.List.{List, [], ◌∷◌, ◌++◌}
use mathlib.Core.Logic.{inl, inr}
use native.Mathlib.Omega.{arith}
use ldap2pg.Common.Equality.{string_eq, contains, Bool-cases}
use ldap2pg.Common.Seqs.{All, All-append, All-map}
use ldap2pg.Common.Sets.{SetOps, IsLawful}
use ldap2pg.Common.Walk.{Visit, visit_all, walk}

pub contains-eq_false :
    (rank : String → ℕ) (n : String) (xs : List String)
    → All (λ y. rank y < rank n) xs
    → contains xs n ≡ false
contains-eq_false rank n [] h = refl
contains-eq_false rank n (x ∷ xs) h = elim (string_eq.dec x n) [
  | yes e ↦ absurd (omega (arith, lt_self e h.0))
  | no d ↦ ground (arith, contains-eq_false rank n xs h.1)
]
  where
    lt_self : x ≡ n → rank x < rank n → rank n < rank n
    lt_self e = λ lt. rw e at lt

module _ (S : SetOps String) where
  abbrev pub adds : S.Carrier → List String → S.Carrier
  adds s [] = s
  adds s (x ∷ xs) = adds (S.add s x) xs

  pub adds-append : (s : S.Carrier) (xs ys : List String) → adds s (xs ++ ys) ≡ adds (adds s xs) ys
  adds-append s [] ys = refl
  adds-append s (x ∷ xs) ys = adds-append (S.add s x) xs ys

  pub has-adds :
      IsLawful S
      → (s : S.Carrier) (xs : List String) (y : String)
      → S.has (adds s xs) y ≡ (contains xs y || S.has s y)
  has-adds L s [] y = refl
  has-adds L s (x ∷ xs) y = ground (arith, has-adds L (S.add s x) xs y, L.has-add s x y)

  module _ (children : String → List String) where
    -- None of the list was seen before its place, and of each member all children were.
    abbrev pub IsOrdered : S.Carrier → List String → Type 0
    IsOrdered s [] = Unit
    IsOrdered s (y ∷ ys) =
        (S.has s y ≡ false) × All (λ c. S.has s c ≡ true) (children y) × IsOrdered (S.add s y) ys

    pub IsOrdered-append :
        (s : S.Carrier) (xs ys : List String)
        → IsOrdered s xs
        → IsOrdered (adds s xs) ys
        → IsOrdered s (xs ++ ys)
    IsOrdered-append s [] ys h k = k
    IsOrdered-append s (x ∷ xs) ys h k = (h.0, h.1, IsOrdered-append (S.add s x) xs ys h.2 k)

    module _ (rank : String → ℕ) where
      abbrev pub IsRanked : Type 0
      IsRanked = (n : String) → All (λ c. rank c < rank n) (children n)

      pub record Walked (bound : ℕ) (seen : S.Carrier) (goals : List String)
          (r : List String × S.Carrier) : Type 0 where
        pub after : r.1 ≡ adds seen r.0
        pub ordered : IsOrdered seen r.0
        pub low : All (λ y. rank y < bound) r.0
        pub reached : All (λ c. S.has r.1 c ≡ true) goals

    module _ (L : IsLawful S) (rank : String → ℕ) where
      abbrev pub Reaches : Visit S → ℕ → String → S.Carrier → Type 0
      Reaches visit bound n seen =
          (r : List String × S.Carrier) × (visit n seen ≡ some r)
          × Walked rank bound seen (n ∷ []) r

      All-has-adds :
          (s : S.Carrier) (xs cs : List String)
          → All (λ c. S.has s c ≡ true) cs
          → All (λ c. S.has (adds s xs) c ≡ true) cs
      All-has-adds s xs [] h = tt
      All-has-adds s xs (c ∷ cs) h = (ground (arith, has-adds L s xs c), All-has-adds s xs cs h.1)

      Walked-append :
          (b : ℕ) (s : S.Carrier) (gs hs : List String) (r t : List String × S.Carrier)
          → Walked rank b s gs r
          → Walked rank b r.1 hs t
          → Walked rank b s (gs ++ hs) (r.0 ++ t.0, t.1)
      Walked-append b s gs hs r t v w = record {
        after = w.after ∙ rw (v.after) (sym (adds-append s r.0 t.0));
        ordered = IsOrdered-append s r.0 t.0 v.ordered (rw v.after at w.ordered);
        low = All-append (λ y. rank y < b) r.0 t.0 v.low w.low;
        reached =
            All-append (λ c. S.has t.1 c ≡ true) gs hs
              (rw w.after (All-has-adds r.1 t.0 gs v.reached)) w.reached;
      }

      Walked-weaken :
          (a b : ℕ) (s : S.Carrier) (gs : List String) (r : List String × S.Carrier)
          → a < suc b
          → Walked rank a s gs r
          → Walked rank b s gs r
      Walked-weaken a b s gs r h w = record {
        after = w.after;
        ordered = w.ordered;
        low = All-map (λ y. rank y < a) (λ y. rank y < b) r.0 (λ y p. omega arith) w.low;
        reached = w.reached;
      }

      pub visit_all_total :
          (visit : Visit S) (b : ℕ)
          → ((n : String) (seen : S.Carrier) → rank n < b → Reaches visit (suc (rank n)) n seen)
          → (cs : List String) (seen : S.Carrier) → All (λ c. rank c < b) cs
          → (r : List String × S.Carrier) × (visit_all S visit cs seen ≡ some r)
            × Walked rank b seen cs r
      unfolding visit_all
      visit_all_total visit b go [] seen h =
          (([], seen), refl, record { after = refl; ordered = tt; low = tt; reached = tt })
      visit_all_total visit b go (c ∷ cs) seen h =
          let (r, e, w) = go c seen h.0 in
          let (t, f, v) = visit_all_total visit b go cs r.1 h.1 in
          (
            (r.0 ++ t.0, t.1),
            rw e (rw f),
            Walked-append b seen (c ∷ []) cs r t
                (Walked-weaken (suc (rank c)) b seen (c ∷ []) r (omega (arith, h.0)) w) v,
          )

      Walked-node :
          (n : String) (seen : S.Carrier) (r : List String × S.Carrier)
          → S.has seen n ≡ false
          → Walked rank (rank n) seen (children n) r
          → Walked rank (suc (rank n)) seen (n ∷ []) (r.0 ++ n ∷ [], S.add r.1 n)
      Walked-node n seen r new w = record {
        after = rw w.after (sym (adds-append seen r.0 (n ∷ [])));
        ordered =
            IsOrdered-append seen r.0 (n ∷ []) w.ordered (rw (← w.after) (fresh, w.reached, tt));
        low =
            All-append (λ y. rank y < suc (rank n)) r.0 (n ∷ [])
              (All-map (λ y. rank y < rank n) (λ y. rank y < suc (rank n)) r.0 (λ y p. omega arith)
                w.low)
              (omega arith, tt);
        reached = (ground (arith, L.has-add r.1 n n), tt);
      }
        where
          fresh : S.has r.1 n ≡ false
          fresh =
              rw w.after (ground (arith, has-adds L seen r.0 n, contains-eq_false rank n r.0 w.low))

      pub walk_total :
          IsRanked rank
          → (fuel : ℕ) (n : String) (seen : S.Carrier) → rank n < fuel
          → Reaches (walk S children fuel) (suc (rank n)) n seen
      unfolding walk
      walk_total ranked zero n seen h = absurd (omega arith)
      walk_total ranked (suc fuel) n seen h = elim (Bool-cases (S.has seen n)) [
        | inl old ↦ (
          ([], seen),
          rw old,
          record { after = refl; ordered = tt; low = tt; reached = (old, tt) },
        )
        | inr new ↦
            let (r, e, w) =
              visit_all_total (walk S children fuel) (rank n)
                (λ c s lt. walk_total ranked fuel c s (omega arith)) (children n) seen (ranked n) in
            ((r.0 ++ n ∷ [], S.add r.1 n), rw (new, e), Walked-node n seen r new w)
      ]
