-- ===== src/Postgres/Grouped.antt =====
-- What `GroupByDatabase` sends.
use ldap2pg.Common.{
  String, ◌≡◌, refl, ◌∙◌, ap, inl, inr, Bool, true, false, not, ◌&&◌, ◌||◌, List, [], ◌∷◌, ◌++◌,
}
use ldap2pg.Common.{
  some, ◌==◌, ==_eq, string_eq, if◌then◌else◌, contains, keep, arith, Bool-cases, map, collect,
}
use ldap2pg.Common.Dict.{keys, lookup, is_some, NodupKeys}
use ldap2pg.Common.Sort.{sort, contains-sort, Nodup, Nodup-sort}
use ldap2pg.Common.Sort.Sorted.{IsSorted, IsSorted-sort, IsSorted-keep}
use ldap2pg.Postgres.{
  SyncQuery, DbMap, sync_order, resolve, resolve_all, on, emit, group_by_database,
}

-- Where a query goes: without a database to the default one, for `<first>` to the first.
abbrev pub goes_to : String → String → SyncQuery → String → Bool
goes_to d first q name =
    q.database == "" && d == name
    || q.database == "<first>" && first == name
    || not (q.database == "") && not (q.database == "<first>") && q.database == name

-- The queries that go to a database, as they are sent.
abbrev pub sent_to : String → String → String → List SyncQuery → List SyncQuery
sent_to d first name queries =
    map (λ (q : SyncQuery). record q { database = name })
      (keep (λ q. goes_to d first q name) queries)

-- The first of the other databases and the default one.
abbrev pub first : List String → String → String
first [] d = d
first (name ∷ names) d = name

-- The list that Begins as an order does.
abbrev Begins : String → List String → Type 0
Begins n [] = ⊥
Begins n (x ∷ xs) = x ≡ n

first-eq : (d : String) (others : List String) → Begins (first others d) (others ++ d ∷ [])
first-eq d [] = refl
first-eq d (x ∷ xs) = refl

-- What `resolve` makes of a query.
placed : String → String → SyncQuery → SyncQuery
placed d first q =
    if q.database == ""
    then record q { database = d }
    else if q.database == "<first>"
    then record q { database = first }
    else q

resolve_first :
    (d n : String) (names : List String)
    → Begins n names
    → (q : SyncQuery) → resolve d names q ≡ some (placed d n q)
unfolding resolve placed
resolve_first d n [] b q = absurd b
resolve_first d n (x ∷ xs) b q = elim (Bool-cases (q.database == "")) [
  | inl e ↦ rw e refl
  | inr e ↦ elim (Bool-cases (q.database == "<first>")) [
    | inl f ↦ rw (e, f) (ap (λ y. some (record q { database = y })) b)
    | inr f ↦ rw (e, f) refl
  ]
]

resolve_all_first :
    (d n : String) (names : List String)
    → Begins n names
    → (queries : List SyncQuery) → resolve_all d names queries ≡ some (map (placed d n) queries)
unfolding resolve_all
resolve_all_first d n names b [] = refl
resolve_all_first d n names b (q ∷ queries) =
    rw (resolve_first d n names b q, resolve_all_first d n names b queries) refl

-- One query, which goes to the database `x`.
on-cons :
    (d first name x : String) (q : SyncQuery) (queries out : List SyncQuery)
    → goes_to d first q name ≡ (x == name)
    → out ≡ sent_to d first name queries
    → (if x == name then record q { database = x } ∷ out else out)
      ≡ sent_to d first name (q ∷ queries)
on-cons d first name x q queries out there e = elim (Bool-cases (x == name)) [
  | inl same ↦
      rw (there, same)
        (ap (λ n. record q { database = n } ∷ out) (==_eq x name same)
          ∙ ap (λ qs. record q { database = name } ∷ qs) e)
  | inr far ↦ rw (there, far) e
]

blank_first : (s : String) → (s == "") ≡ true → (s == "<first>") ≡ false
unfolding string_eq
blank_first s e = ap (λ x. x == "<first>") (==_eq s "" e) ∙ refl

placed_lem :
    (d front name : String) (q : SyncQuery)
    → (x : String) × (placed d front q ≡ record q { database = x })
      × (goes_to d front q name ≡ (x == name))
unfolding placed
placed_lem d front name q = elim (Bool-cases (q.database == "")) [
  | inl e ↦
      let f : (q.database == "<first>") ≡ false = blank_first q.database e in
      (d, rw e refl, rw (e, f) (ground arith))
  | inr e ↦ elim (Bool-cases (q.database == "<first>")) [
    | inl f ↦ (front, rw (e, f) refl, rw (e, f) (ground arith))
    | inr f ↦ (q.database, rw (e, f) refl, rw (e, f) (ground arith))
  ]
]

on-placed :
    (d front name : String) (queries : List SyncQuery)
    → on name (map (placed d front) queries) ≡ sent_to d front name queries
on-placed d front name [] = refl
on-placed d front name (q ∷ queries) =
    let (x, e, there) = placed_lem d front name q in
    let out = on name (map (placed d front) queries) in
    ap (λ (p : SyncQuery). if p.database == name then p ∷ out else out) e
    ∙ on-cons d front name x q queries out there (on-placed d front name queries)

emit-sent_to :
    (d front : String) (names : List String) (queries : List SyncQuery)
    → emit names (map (placed d front) queries) ≡ collect (λ n. sent_to d front n queries) names
unfolding emit
emit-sent_to d front [] queries = refl
emit-sent_to d front (n ∷ names) queries =
    rw (on-placed d front n queries, emit-sent_to d front names queries) refl

contains-keep_others :
    (d : String) (names : List String) (n : String)
    → contains (keep (λ x. not (d == x)) names) n ≡ (not (d == n) && contains names n)
contains-keep_others d [] n = ground arith
contains-keep_others d (m ∷ names) n = ground (arith, contains-keep_others d names n)

Nodup-keep_others :
    (d : String) (names : List String) → Nodup names → Nodup (keep (λ x. not (d == x)) names)
Nodup-keep_others d [] u = tt
Nodup-keep_others d (m ∷ names) (fresh, u) = elim (Bool-cases (d == m)) [
  | inl e ↦ rw e (Nodup-keep_others d names u)
  | inr e ↦ rw e (ground (arith, contains-keep_others d names m), Nodup-keep_others d names u)
]

contains_last :
    (names : List String) (d n : String)
    → contains (names ++ d ∷ []) n ≡ (contains names n || d == n)
contains_last [] d n = ground arith
contains_last (m ∷ names) d n = ground (arith, contains_last names d n)

Nodup-last :
    (names : List String) (d : String)
    → contains names d ≡ false
    → Nodup names
    → Nodup (names ++ d ∷ [])
Nodup-last [] d h u = (refl, tt)
Nodup-last (m ∷ names) d h (fresh, u) =
    (ground (arith, contains_last names d m), Nodup-last names d (ground arith) u)

Nodup-keys : (m : DbMap) → NodupKeys m → Nodup (keys m)
Nodup-keys [] u = tt
Nodup-keys ((k, v) ∷ m) (fresh, u) = (fresh, Nodup-keys m u)

module _ (m : DbMap) (d : String) (known : is_some (lookup d m) ≡ true) where
  others : List String
  others = keep (λ name. not (d == name)) (sort (keys m))

  order_last : sync_order m d false ≡ others ++ d ∷ []
  unfolding sync_order others
  order_last = rw known refl

  IsSorted-others : IsSorted others
  unfolding others
  IsSorted-others = IsSorted-keep (λ name. not (d == name)) (sort (keys m)) (IsSorted-sort (keys m))

  Nodup-others : NodupKeys m → Nodup others
  unfolding others
  Nodup-others u = Nodup-keep_others d (sort (keys m)) (Nodup-sort (keys m) (Nodup-keys m u))

  contains-others : (n : String) → contains others n ≡ (contains (keys m) n && not (n == d))
  unfolding others
  contains-others n =
      ground (arith, contains-keep_others d (sort (keys m)) n, contains-sort (keys m) n)

  -- With the default database among those inspected, none of which is listed twice,
  -- `GroupByDatabase` does not panic. It sends the queries of one database behind those of the other:
  -- first the databases but the default one, each once and sorted by name, then the default one. A
  -- query without a database is sent to the default one, a query for `<first>` to the first of this
  -- order, any other to its own database, and none where that was not inspected. The queries of a
  -- database keep their order.
  pub group_by_database_lem :
      NodupKeys m
      → (queries : List SyncQuery)
      → (others : List String) × IsSorted others
        × Nodup others
        × ((n : String) → contains others n ≡ (contains (keys m) n && not (n == d)))
        × (group_by_database m d queries
            ≡ some (collect (λ n. sent_to d (first others d) n queries) (others ++ d ∷ [])))
  unfolding group_by_database
  group_by_database_lem u queries = (
    others,
    IsSorted-others,
    Nodup-others u,
    contains-others,
    rw order_last (
        let e =
          resolve_all_first d (first others d) (others ++ d ∷ []) (first-eq d others) queries in
        rw e (ap some (emit-sent_to d (first others d) (others ++ d ∷ []) queries))),
  )
