-- ===== src/Postgres/Sent.antt =====
-- That `GroupByDatabase` sends something for every list of queries, and nothing new.
use ldap2pg.Common.{String, ◌≡◌, refl, inl, inr, true, false, not, List, [], ◌∷◌, ◌++◌}
use ldap2pg.Common.{some, ◌==◌, string_eq, keep, All, All-append, All-keep, Bool-cases}
use ldap2pg.Common.Dict.{lookup, is_some, keys}
use ldap2pg.Common.Sort.{sort}
use ldap2pg.Postgres.{
  SyncQuery, DbMap, sync_order, resolve, resolve_all, on, emit, group_by_database,
}

abbrev IsFilled {ℓ} : {A : Type ℓ} → List A → Type 0
IsFilled [] = ⊥
IsFilled (x ∷ xs) = Unit

IsFilled-append {ℓ} : {A : Type ℓ} (xs : List A) (y : A) → IsFilled (xs ++ y ∷ [])
IsFilled-append [] y = tt
IsFilled-append (x ∷ xs) y = tt

sync_order-IsFilled :
    (m : DbMap) (d : String) → is_some (lookup d m) ≡ true → IsFilled (sync_order m d false)
unfolding sync_order
sync_order-IsFilled m d h =
    rw h (IsFilled-append (keep (λ name. not (d == name)) (sort (keys m))) d)

-- A property of a query that does not hang on its database.
module _ {κ} (P : SyncQuery → Type κ)
    (moved : (q : SyncQuery) (name : String) → P q → P (record q { database = name })) where
  resolve-All :
      (d : String) (names : List String) (q : SyncQuery)
      → IsFilled names
      → P q
      → (q' : SyncQuery) × (resolve d names q ≡ some q') × P q'
  unfolding resolve
  resolve-All d [] q f p = absurd f
  resolve-All d (n ∷ names) q f p = elim (Bool-cases (q.database == "")) [
    | inl e ↦ (record q { database = d }, rw e refl, moved q d p)
    | inr e ↦ elim (Bool-cases (q.database == "<first>")) [
      | inl e' ↦ (record q { database = n }, rw (e, e') refl, moved q n p)
      | inr e' ↦ (q, rw (e, e') refl, p)
    ]
  ]

  resolve_all-All :
      (d : String) (names : List String) (qs : List SyncQuery)
      → IsFilled names
      → All P qs
      → (qs' : List SyncQuery) × (resolve_all d names qs ≡ some qs') × All P qs'
  unfolding resolve_all
  resolve_all-All d names [] f h = ([], refl, tt)
  resolve_all-All d names (q ∷ qs) f h =
      let (q', e, p) = resolve-All d names q f h.0 in
      let (qs', e', h') = resolve_all-All d names qs f h.1 in (q' ∷ qs', rw (e, e') refl, (p, h'))

  emit-All : (names : List String) (qs : List SyncQuery) → All P qs → All P (emit names qs)
  unfolding emit
  emit-All [] qs h = tt
  emit-All (n ∷ names) qs h =
      All-append P (on n qs) (emit names qs) (All-keep P _ qs h) (emit-All names qs h)

  -- Where the default database is one of those inspected.
  pub group_by_database-All :
      (m : DbMap) (d : String) (qs : List SyncQuery)
      → is_some (lookup d m) ≡ true
      → All P qs
      → (qs' : List SyncQuery) × (group_by_database m d qs ≡ some qs') × All P qs'
  unfolding group_by_database
  group_by_database-All m d qs known h =
      let names = sync_order m d false in
      let (qs', e, h') = resolve_all-All d names qs (sync_order-IsFilled m d known) h in
      (emit names qs', rw e refl, emit-All names qs' h')
