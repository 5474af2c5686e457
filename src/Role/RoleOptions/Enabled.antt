-- ===== src/Role/RoleOptions/Enabled.antt =====
-- The columns that `ProcessColumns` enables.
use ldap2pg.Common.{
  String, ◌≡◌, refl, sym, ap, ◌∙◌, inl, inr, Bool, true, false, not, ◌&&◌, ◌||◌, List, [], ◌∷◌,
  ◌++◌, append-nil, append_assoc,
}
use ldap2pg.Common.{
  none, some, ◌==◌, string_eq, if◌then◌else◌, contains, keep, arith, Bool-cases, ==_eq, subst,
}
use ldap2pg.Common.Dict.{Dict, get_or, lookup, insert, lookup-insert}
use ldap2pg.Role.RoleOptions.{
  Columns, is_column_enabled, visible_fields, known_columns, privileged_columns, columns_loop,
  process_columns, unavailable,
}

-- A column of an option, and not one that only a superuser may set unless the user is one.
unfoldable pub is_usable : Bool → String → Bool
is_usable super name =
    contains (known_columns visible_fields) name
    && (super || not (contains privileged_columns name))

enabled-insert :
    (k n : String) (b : Bool) (d : Dict Bool)
    → get_or (insert k b d) n false ≡ (if k == n then b else get_or d n false)
enabled-insert k n b d = rw (get_or, lookup-insert k n b d) (by_cases (k == n))
  where
    by_cases :
        (same : Bool)
        → elim (if same then some b else lookup n d) [ none ↦ false | some v ↦ v ]
          ≡ (if same then b else get_or d n false)
    by_cases true = refl
    by_cases false = refl

enabled-unavailable :
    (names : List String) (d : Dict Bool) (n : String)
    → get_or d n false ≡ false
    → get_or (unavailable names d) n false ≡ false
enabled-unavailable [] d n h = h
enabled-unavailable (k ∷ names) d n h =
    enabled-unavailable names (insert k false d) n
      (enabled-insert k n false d ∙ rw h (both (k == n)))
  where
    both : (b : Bool) → (if b then false else false) ≡ false
    both true = refl
    both false = refl

add : Bool → String → Columns → Columns
add super name c =
    if is_usable super name
    then record { availability = insert name true c.availability; order = c.order ++ name ∷ [] }
    else c

enabled-add :
    (super : Bool) (name : String) (c : Columns) (n : String)
    → is_column_enabled (add super name c) n
      ≡ (name == n && is_usable super n || is_column_enabled c n)
unfolding add
enabled-add super name c n = elim (Bool-cases (is_usable super name)) [
  | inl usable ↦
      rw (usable, enabled-insert name n true c.availability)
        (elim (Bool-cases (name == n)) [
          | inl same ↦
              let usable' : is_usable super n ≡ true =
                subst (λ x. is_usable super x ≡ true) (==_eq name n same) usable in
              rw (same, usable') refl
          | inr other ↦ rw other refl
        ])
  | inr unusable ↦ rw unusable (elim (Bool-cases (name == n)) [
    | inl same ↦
        let unusable' : is_usable super n ≡ false =
          subst (λ x. is_usable super x ≡ false) (==_eq name n same) unusable in
        rw (same, unusable') refl
    | inr other ↦ rw other refl
  ])
]

columns_loop-step :
    (super : Bool) (name : String) (names : List String) (c : Columns)
    → columns_loop super (name ∷ names) c ≡ columns_loop super names (add super name c)
unfolding columns_loop add is_usable
columns_loop-step true name names c =
    elim (Bool-cases (contains (known_columns visible_fields) name)) [
      | inr unknown ↦ rw unknown refl
      | inl known ↦ rw known refl
    ]
columns_loop-step false name names c =
    elim (Bool-cases (contains (known_columns visible_fields) name)) [
      | inr unknown ↦ rw unknown refl
      | inl known ↦ elim (Bool-cases (contains privileged_columns name)) [
        | inl p ↦ rw (known, p) refl
        | inr p ↦ rw (known, p) refl
      ]
    ]

columns_loop_nil : (super : Bool) (c : Columns) → columns_loop super [] c ≡ c
unfolding columns_loop
columns_loop_nil super c = refl

columns_loop_lem :
    (super : Bool) (names : List String) (c : Columns)
    → ((n : String)
        → is_column_enabled (columns_loop super names c) n
          ≡ (contains names n && is_usable super n || is_column_enabled c n))
      × ((columns_loop super names c).order ≡ c.order ++ keep (is_usable super) names)
unfolding add
columns_loop_lem super [] c = (
  λ n. ap (λ d. is_column_enabled d n) (columns_loop_nil super c),
  ap (λ d. d.order) (columns_loop_nil super c) ∙ sym (append-nil c.order),
)
columns_loop_lem super (name ∷ names) c =
    let (enabled, order) = columns_loop_lem super names (add super name c) in
    elim (Bool-cases (is_usable super name)) [
      | inl usable ↦ (
        λ n.
            rw (columns_loop-step super name names c, enabled n)
              (ground (arith, enabled-add super name c n)),
        rw (columns_loop-step super name names c, order, usable)
            (append_assoc c.order (name ∷ []) (keep (is_usable super) names)),
      )
      | inr unusable ↦ (
        λ n.
            rw (columns_loop-step super name names c, enabled n)
              (ground (arith, enabled-add super name c n)),
        rw (columns_loop-step super name names c, order, unusable) refl,
      )
    ]

-- The columns enabled by `ProcessColumns` are those listed that belong to an option and, unless
-- the user is a superuser, are not privileged; the order is
-- what it was, followed by those columns in the order of the list.
pub process_columns_lem :
    (c : Columns) (columns : List String) (super : Bool)
    → ((n : String)
        → is_column_enabled (process_columns c columns super) n
          ≡ (contains columns n && is_usable super n))
      × ((process_columns c columns super).order ≡ c.order ++ keep (is_usable super) columns)
unfolding process_columns
process_columns_lem c columns super =
    let fresh : Columns = record {
      availability = unavailable (known_columns visible_fields) [];
      order = c.order;
    } in
    let (enabled, order) = columns_loop_lem super columns fresh in
    (
      λ n.
          enabled n
          ∙ rw (enabled-unavailable (known_columns visible_fields) [] n refl) (ground arith),
      order,
    )
