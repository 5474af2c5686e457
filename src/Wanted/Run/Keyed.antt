-- ===== src/Wanted/Run/Keyed.antt =====
-- What a run of the rules leaves.
use ldap2pg.Common.{
  ℕ, ◌<◌, String, ◌≡◌, ◌≢◌, refl, sym, ◌∙◌, subst, inl, inr, Bool, true, List, [], ◌∷◌, ◌++◌,
}
use ldap2pg.Common.{
  Option, none, some, ◌==◌, string_eq, contains, All, All-map, All-append, arith, length,
}
use ldap2pg.Common.{Bool-cases, Option-cases, ==_eq, ap}
use ldap2pg.Common.Dict.{Dict, lookup, get_or, insert, keys, is_some, NodupKeys, contains-keys}
use ldap2pg.Lists.Blacklist.{IsStrict, check, match_string, match_string_total}
use ldap2pg.Privileges.{Grant}
use ldap2pg.Role.{Role}
use ldap2pg.Role.Create.{merge}
use ldap2pg.Role.Map
use ldap2pg.Role.Map.{RoleMap, LoopError}
use ldap2pg.Role.Map.Acyclic.{IsRoleMap, check_total}
use ldap2pg.Wanted.Run.{
  Wants, Yield, unknown_role, membership_loop, search_error, RunError, failure, yields, add_role,
  add_roles, add_grant, add_grants, run_yields, run,
}
use ldap2pg.Common.Dict.{keys-insert, NodupKeys-insert, All-insert, All-lookup}

module _ (match : String → String → Option Bool) (blacklist : List String) where
  -- Wanted under its own name, which is not empty and matches no pattern of the blacklist.
  abbrev pub IsWanted : String × Role → Type 0
  IsWanted (k, r) = (r.name ≡ k) × (k ≢ "") × (match_string match blacklist k ≡ some "")

  -- Under its ACL, to a role of the map.
  abbrev pub IsGranted : RoleMap → String × List Grant → Type 0
  IsGranted roles (acl, gs) = All (λ g. (g.acl ≡ acl) × (contains (keys roles) g.grantee ≡ true)) gs

  abbrev Grows : RoleMap → RoleMap → Type 0
  Grows a b = (k : String) → contains (keys a) k ≡ true → contains (keys b) k ≡ true

  abbrev pub IsSound : RoleMap → Type 0
  IsSound roles = NodupKeys roles × All IsWanted roles

  pub IsRoleMap-of : (roles : RoleMap) → IsSound roles → IsRoleMap roles
  IsRoleMap-of roles (u, h) = record {
    nodup = u;
    keyed = λ k r e. (All-lookup IsWanted k r roles h e).0;
  }

  IsGranted-Grows :
      (a b : RoleMap)
      → Grows a b
      → (grants : Dict (List Grant)) → All (IsGranted a) grants
      → All (IsGranted b) grants
  IsGranted-Grows a b grow grants = All-map (IsGranted a) (IsGranted b) grants (λ (acl, gs) h.
      All-map _ (λ g. (g.acl ≡ acl) × (contains (keys b) g.grantee ≡ true)) gs
        (λ g (e, m). (e, grow g.grantee m)) h)

  insert-IsSound :
      (k : String) (r : Role) (roles : RoleMap)
      → IsWanted (k, r)
      → IsSound roles
      → IsSound (insert k r roles) × Grows roles (insert k r roles)
  insert-IsSound k r roles w (u, h) = (
    (NodupKeys-insert k r roles u, All-insert IsWanted k r roles w h),
    λ j m. ground (arith, keys-insert k r roles j),
  )

  abbrev pub Granted : Wants → Type 0
  Granted w = All (IsGranted w.roles) w.grants

  module _ (strict : IsStrict match) (valid : check match blacklist ≡ true) where
    add_role-IsSound :
        (roles : RoleMap) (r : Role)
        → IsSound roles
        → (roles' : RoleMap) × (add_role match blacklist roles r ≡ some roles')
          × IsSound roles'
          × Grows roles roles'
    unfolding add_role merge
    add_role-IsSound roles r ok = elim (Bool-cases (r.name == "")) [
      | inl empty ↦ (roles, rw empty refl, ok, λ k m. m)
      | inr filled ↦
          let (pattern, e, _) = match_string_total match strict blacklist valid r.name in
          elim (Bool-cases (pattern == "")) [
            | inr listed ↦ (roles, rw (filled, e, listed) refl, ok, λ k m. m)
            | inl free ↦
                let clean : match_string match blacklist r.name ≡ some "" =
                  e ∙ ap some (==_eq pattern "" free) in
                let named : r.name ≢ "" = ground arith in
                elim (Option-cases (lookup r.name roles)) [
                  | inl new ↦
                      let (s, g) = insert-IsSound r.name r roles (refl, named, clean) ok in
                      (insert r.name r roles, rw (filled, e, free, new) refl, s, g)
                  | inr (current, old) ↦
                      let same : current.name ≡ r.name =
                        (All-lookup IsWanted r.name current roles ok.1 old).0 in
                      let (s, g) =
                        insert-IsSound current.name (merge current r) roles
                          (
                            refl,
                            subst (λ n. n ≢ "") (sym same) named,
                            ap (match_string match blacklist) same ∙ clean,
                          )
                          ok in
                      (
                        insert current.name (merge current r) roles,
                        rw (filled, e, free, old) refl,
                        s,
                        g,
                      )
                ]
          ]
    ]

    add_roles-IsSound :
        (roles : RoleMap) (rs : List Role)
        → IsSound roles
        → (roles' : RoleMap) × (add_roles match blacklist roles rs ≡ some roles')
          × IsSound roles'
          × Grows roles roles'
    unfolding add_roles
    add_roles-IsSound roles [] ok = (roles, refl, ok, λ k m. m)
    add_roles-IsSound roles (r ∷ rs) ok =
        let (a, e, s, g) = add_role-IsSound roles r ok in
        let (b, f, t, h) = add_roles-IsSound a rs s in (b, rw (e, f) refl, t, λ k m. h k (g k m))

    add_grant_sound :
        (w : Wants) (g : Grant)
        → Granted w
        → (w' : Wants) × (add_grant match blacklist w g ≡ some w')
          × (w'.roles ≡ w.roles)
          × Granted w'
    unfolding add_grant
    add_grant_sound w g ok =
        let (pattern, e, _) = match_string_total match strict blacklist valid g.grantee in
        elim (Bool-cases (pattern == "")) [
          | inr listed ↦ (w, rw (e, listed) refl, refl, ok)
          | inl free ↦ elim (Bool-cases (is_some (lookup g.grantee w.roles))) [
            | inr unknown ↦ (
              record w { errors = w.errors ++ unknown_role ∷ [] },
              rw (e, free, unknown) refl,
              refl,
              ok,
            )
            | inl known ↦ (
              record w { grants = insert g.acl (get_or w.grants g.acl [] ++ g ∷ []) w.grants },
              rw (e, free, known) refl,
              refl,
              All-insert (IsGranted w.roles) g.acl _ w.grants
                  (All-append _ (get_or w.grants g.acl []) (g ∷ []) (there w g ok)
                    ((refl, contains-keys w.roles g.grantee ∙ known), tt))
                  ok,
            )
          ]
        ]
      where
        there :
            (w : Wants) (g : Grant)
            → Granted w
            → IsGranted w.roles (g.acl, get_or w.grants g.acl [])
        there w g ok = elim (Option-cases (lookup g.acl w.grants)) [
          | inl none_yet ↦ rw (get_or, none_yet) tt
          | inr (gs, some_yet) ↦
              rw (get_or, some_yet) (All-lookup (IsGranted w.roles) g.acl gs w.grants ok some_yet)
        ]

    add_grants_sound :
        (w : Wants) (gs : List Grant)
        → Granted w
        → (w' : Wants) × (add_grants match blacklist w gs ≡ some w')
          × (w'.roles ≡ w.roles)
          × Granted w'
    unfolding add_grants
    add_grants_sound w [] ok = (w, refl, refl, ok)
    add_grants_sound w (g ∷ gs) ok =
        let (a, e, same, s) = add_grant_sound w g ok in
        let (b, f, same', t) = add_grants_sound a gs s in (b, rw (e, f) refl, same' ∙ same, t)

    pub run_yields-IsSound :
        (w : Wants) (ys : List Yield)
        → IsSound w.roles
        → Granted w
        → (w' : Wants) × (run_yields match blacklist w ys ≡ some w') × IsSound w'.roles × Granted w'
    unfolding run_yields
    run_yields-IsSound w [] ok granted = (w, refl, ok, granted)
    run_yields-IsSound w (failure e ∷ ys) ok granted =
        run_yields-IsSound (record w { errors = w.errors ++ search_error e ∷ [] }) ys ok granted
    run_yields-IsSound w (yields roles grants ∷ ys) ok granted =
        let (a, e, s, grow) = add_roles-IsSound w.roles roles ok in
        let (b, f, same, t) =
          add_grants_sound (record w { roles = a }) grants
            (IsGranted-Grows w.roles a grow w.grants granted) in
        let (c, g, u, v) = run_yields-IsSound b ys (subst IsSound (sym same) s) t in
        (c, rw (e, f, g) refl, u, v)

    append_nothing :
        (es : List RunError) (v : Option LoopError)
        → es ++ elim v [ none ↦ [] | some e ↦ membership_loop e ∷ [] ] ≡ []
        → v ≡ none
    append_nothing es none h = refl
    append_nothing [] (some e) h = cc
    append_nothing (x ∷ es) (some e) h = cc

    -- Where no error of `filepath.Match` depends on the name that is matched, and once `Check` has
    -- accepted the blacklist the loops of `Run` do not panic, whatever the searches yield. Each
    -- role of the map stands under its own name, once; no name is empty or blacklisted; each grant
    -- stands under its ACL and goes to a role of the map. With more fuel than there are roles the
    -- whole of `Run` ends with these roles and grants, and if it returns no error, the check for
    -- membership loops has passed.
    pub run_sound :
        (ys : List Yield)
        → (w : Wants) × IsRoleMap w.roles
          × All IsWanted w.roles
          × Granted w
          × ((fuel : ℕ)
              → length (keys w.roles) < fuel
              → (w' : Wants) × (run match blacklist fuel ys ≡ some w')
                × (w'.roles ≡ w.roles)
                × (w'.grants ≡ w.grants)
                × (w'.errors ≡ [] → Map.check fuel w.roles ≡ some none))
    unfolding run
    run_sound ys =
        let (w, e, ok, granted) =
          run_yields-IsSound (record { roles = []; grants = []; errors = [] }) ys (tt, tt) tt in
        (
          w,
          IsRoleMap-of w.roles ok,
          ok.1,
          granted,
          λ fuel enough.
              let (v, f) = check_total w.roles (IsRoleMap-of w.roles ok) fuel enough in
              (
                record w {
                  errors = w.errors ++ elim v [ none ↦ [] | some l ↦ membership_loop l ∷ [] ];
                },
                rw (e, f) refl,
                refl,
                refl,
                λ clean. f ∙ ap some (append_nothing w.errors v clean),
              ),
        )
