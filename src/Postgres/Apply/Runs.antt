-- ===== src/Postgres/Apply/Runs.antt =====
-- Dry and real runs of `Apply`.
use ldap2pg.Common.{
  suc, ◌+◌, ◌<◌, ◌≤◌, String, ◌≡◌, refl, sym, ◌∙◌, ap, subst, ◌⊎◌, inl, inr, Bool, true, false,
  List, [], ◌∷◌, ◌++◌, append-nil, append_assoc,
}
use ldap2pg.Common.{
  Option, none, some, if◌then◌else◌, ltb, ltb-eq-true, ltb-eq-false, length, length-append, arith,
  Bool-cases, Option-cases,
}
use ldap2pg.ErrorList.{Error, append, IsSingle, error_count, max_errors}
use ldap2pg.Postgres.{SyncQuery}
use ldap2pg.Postgres.Apply.{Applied, initial, apply_loop, apply}

module _ (reachable : String → Bool) (exec : SyncQuery → Option Error)
    (all_reachable : (name : String) → reachable name ≡ true) where
  dry_loop :
      (a : Applied) (qs : List SyncQuery)
      → (let b = apply_loop reachable exec false a qs in
          (b.sent ≡ a.sent) × (b.count ≡ a.count + length qs) × (b.errors ≡ a.errors))
  unfolding apply_loop
  dry_loop a [] = (refl, omega arith, refl)
  dry_loop a (q ∷ qs) =
      let (s, c, e) = dry_loop (record a { count = suc a.count }) qs in
      rw (all_reachable q.database) (s, c ∙ omega arith, e)

  -- A dry run in which every database can be reached sends nothing, counts every query, and has no
  -- error, whatever the queries would do.
  pub apply_dry :
      (qs : List SyncQuery)
      → ((apply reachable exec false qs).sent ≡ [])
        × ((apply reachable exec false qs).count ≡ length qs)
        × ((apply reachable exec false qs).errors.errors ≡ [])
  unfolding apply
  apply_dry qs = let (s, c, e) = dry_loop initial qs in (s, c ∙ omega arith, ap (λ l. l.errors) e)

  abbrev failed : Applied → SyncQuery → Error → Applied
  failed a q e = record a {
    count = suc a.count;
    sent = a.sent ++ q ∷ [];
    errors = record a.errors { errors = a.errors.errors ++ e ∷ [] };
  }

  length-failed :
      (a : Applied) (q : SyncQuery) (e : Error)
      → error_count (failed a q e).errors ≡ suc (error_count a.errors)
  length-failed a q e = omega (arith, length-append a.errors.errors (e ∷ []))

  apply_loop-failed :
      (a : Applied) (q : SyncQuery) (qs : List SyncQuery) (e : Error)
      → exec q ≡ some e
      → IsSingle e
      → apply_loop reachable exec true a (q ∷ qs) ≡ (
          if ltb (suc (error_count a.errors)) max_errors
          then apply_loop reachable exec true (failed a q e) qs
          else failed a q e)
  unfolding apply_loop append
  apply_loop-failed a q qs e bad single =
      rw (all_reachable q.database, bad, single, length-failed a q e) refl

  abbrev IsSingleFailure : Option Error → Type 0
  IsSingleFailure none = Unit
  IsSingleFailure (some e) = IsSingle e

  -- A run from a state onwards: the queries sent are the first of those given, each is counted, and
  -- the rest is left out only with a full list.
  abbrev pub Ran : Applied → List SyncQuery → Applied → Type 0
  Ran a qs b =
      (done : List SyncQuery) × (left : List SyncQuery) × (done ++ left ≡ qs)
      × (b.sent ≡ a.sent ++ done)
      × (b.count ≡ a.count + length done)
      × (error_count b.errors ≤ max_errors)
      × ((left ≡ []) ⊎ (error_count b.errors ≡ max_errors))

  go_on :
      (a : Applied) (q : SyncQuery) (qs : List SyncQuery) (a' b : Applied)
      → a'.count ≡ suc a.count
      → a'.sent ≡ a.sent ++ q ∷ []
      → Ran a' qs b
      → Ran a (q ∷ qs) b
  go_on a q qs a' b counted sent (done, left, all, s, c, low, end) = (
    q ∷ done,
    left,
    ap (λ l. q ∷ l) all,
    s ∙ rw sent (append_assoc a.sent (q ∷ []) done),
    c ∙ omega arith,
    low,
    end,
  )

  module _ (single : (q : SyncQuery) → IsSingleFailure (exec q)) where
    run_loop :
        (a : Applied) (qs : List SyncQuery)
        → error_count a.errors < max_errors
        → Ran a qs (apply_loop reachable exec true a qs)
    unfolding apply_loop
    run_loop a [] h = ([], [], refl, sym (append-nil a.sent), omega arith, omega arith, inl refl)
    run_loop a (q ∷ qs) h = elim (Option-cases (exec q)) [
      | inl good ↦
          let on = record a { count = suc a.count; sent = a.sent ++ q ∷ [] } in
          rw (all_reachable q.database, good)
            (go_on a q qs on (apply_loop reachable exec true on qs) refl refl (run_loop on qs h))
      | inr (e, bad) ↦
          let step = apply_loop-failed a q qs e bad (subst IsSingleFailure bad (single q)) in
          let on = failed a q e in
          elim (Bool-cases (ltb (suc (error_count a.errors)) max_errors)) [
            | inl more ↦
                let room : error_count on.errors < max_errors = omega (
                  arith,
                  length-failed a q e,
                  ltb-eq-true (suc (error_count a.errors)) max_errors more,
                ) in
                subst (Ran a (q ∷ qs)) (sym (rw more at step)) (
                  go_on a q qs on (apply_loop reachable exec true on qs) refl refl
                    (run_loop on qs room))
            | inr full ↦
                let at_end : error_count on.errors ≡ max_errors = omega (
                  arith,
                  length-failed a q e,
                  ltb-eq-false (suc (error_count a.errors)) max_errors full,
                ) in
                subst (Ran a (q ∷ qs)) (sym (rw full at step))
                  (q ∷ [], qs, refl, refl, omega arith, omega arith, inr at_end)
          ]
    ]

    -- A real run in which every database can be reached and no failure joins several errors sends
    -- the first queries in their order and counts each. It leaves queries out only once it has
    -- `maxErrors` errors, and never has more.
    pub apply_really : (qs : List SyncQuery) → Ran initial qs (apply reachable exec true qs)
    unfolding apply
    apply_really qs = run_loop initial qs (omega arith)
