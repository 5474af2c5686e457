-- ===== src/Wanted/Run/Accepted.antt =====
-- A run of the rules that returns no error.
use ldap2pg.Common.{ℕ, String, ◌≡◌, refl, ◌∙◌, ap, subst, inl, inr, Bool, true, List, [], ◌∷◌, ◌++◌}
use ldap2pg.Common.{Option, none, some, All, Option-cases}
use ldap2pg.Lists.Blacklist.{IsStrict, check}
use ldap2pg.Role.Map
use ldap2pg.Role.Map.{RoleMap}
use ldap2pg.Role.Map.Acyclic.{IsRoleMap}
use ldap2pg.Wanted.Run.{Wants, Yield, RunError, membership_loop, run}
use ldap2pg.Wanted.Run.Keyed.{IsWanted, IsRoleMap-of, run_yields-IsSound}

no_errors :
    (es : List RunError) (v : Map.Verdict)
    → es ++ elim v [ none ↦ [] | some e ↦ membership_loop e ∷ [] ] ≡ []
    → v ≡ none
no_errors es none h = refl
no_errors [] (some e) h = cc
no_errors (x ∷ es) (some e) h = cc

module _ (match : String → String → Option Bool) (strict : IsStrict match) (blacklist : List String)
    (valid : check match blacklist ≡ true) where
  abbrev Accepts : ℕ → Option Wants → Type 0
  Accepts fuel none = Unit
  Accepts fuel (some w) =
      w.errors ≡ []
      → IsRoleMap w.roles
        × All (IsWanted match blacklist) w.roles
        × (Map.check fuel w.roles ≡ some none)

  Accepts-run : (fuel : ℕ) (ys : List Yield) → Accepts fuel (run match blacklist fuel ys)
  unfolding run
  Accepts-run fuel ys =
      let start : Wants = record { roles = []; grants = []; errors = [] } in
      let (w, e, sound, _) = run_yields-IsSound match blacklist strict valid start ys (tt, tt) tt in
      elim (Option-cases (Map.check fuel w.roles)) [
        | inl out ↦ rw (e, out) tt
        | inr (v, f) ↦
            rw (e, f)
              (λ clean. (
                IsRoleMap-of match blacklist w.roles sound,
                sound.1,
                f ∙ ap some (no_errors w.errors v clean),
              ))
      ]

  pub run-eq-some :
      (fuel : ℕ) (ys : List Yield) {w : Wants}
      → run match blacklist fuel ys ≡ some w
      → w.errors ≡ []
      → IsRoleMap w.roles
        × All (IsWanted match blacklist) w.roles
        × (Map.check fuel w.roles ≡ some none)
  run-eq-some fuel ys h clean = subst (Accepts fuel) h (Accepts-run fuel ys) clean
