-- ===== src/Ldap/Command/Scopes.antt =====
-- The names of the scopes.
use ldap2pg.Common.{ℕ, ◌<◌, String, ◌≡◌, refl, inl, inr, zero, suc}
use ldap2pg.Common.{◌==◌, ==_eq, string_eq, nat_eq, arith, Bool-cases, sym, subst}
use ldap2pg.Common.Outcome.{Outcome, ok}
use ldap2pg.Ldap.Command.{parse_scope, scope_text}

abbrev Named : String → Outcome ℕ → Type 0
Named t (ok s) = (scope_text s ≡ t) × (s < 3)
Named t _ = Unit

Named-parse_scope : (t : String) → Named t (parse_scope t)
unfolding parse_scope scope_text nat_eq
Named-parse_scope t = elim (Bool-cases (t == "sub")) [
  | inl a ↦ rw a (sym (==_eq t "sub" a), omega arith)
  | inr a ↦ elim (Bool-cases (t == "base")) [
    | inl b ↦ rw (a, b) (sym (==_eq t "base" b), omega arith)
    | inr b ↦ elim (Bool-cases (t == "one")) [
      | inl c ↦ rw (a, b, c) (sym (==_eq t "one" c), omega arith)
      | inr c ↦ rw (a, b, c) tt
    ]
  ]
]

named : (s : ℕ) → s < 3 → parse_scope (scope_text s) ≡ ok s
unfolding parse_scope scope_text nat_eq string_eq
named zero h = refl
named (suc zero) h = refl
named (suc (suc zero)) h = refl
named (suc (suc (suc s))) h = absurd (omega arith)

-- Of the three scopes each has a name that `ParseScope` reads back, and a text that `ParseScope`
-- accepts is the name of the scope that it returns, one of the three.
pub parse_scope-scope_text :
    ((s : ℕ) → s < 3 → parse_scope (scope_text s) ≡ ok s)
    × ((t : String) (s : ℕ) → parse_scope t ≡ ok s → (scope_text s ≡ t) × (s < 3))
parse_scope-scope_text = (named, λ t s h. subst (Named t) h (Named-parse_scope t))
