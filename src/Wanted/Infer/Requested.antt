-- ===== src/Wanted/Infer/Requested.antt =====
-- Which attributes a search requests.
use ldap2pg.Common.{
  String, ◌≡◌, refl, sym, ◌∙◌, ap, inl, inr, Bool, true, false, not, ◌&&◌, ◌||◌, List, [], ◌∷◌,
}
use ldap2pg.Common.{
  Option, none, some, subst, ==_eq, Option-cases, ◌==◌, string_eq, if◌then◌else◌, contains, arith,
  Bool-cases,
}
use ldap2pg.Common.Dict.{
  Dict, lookup, get_or, insert, keys, lookup-insert, NodupKeys, NodupKeys-insert, contains-keys,
  is_some,
}
use ldap2pg.Common.Sets.{SetOps, IsLawful}
use ldap2pg.Common.Text.{cut}
use ldap2pg.Ldap.{Subsearch}
use ldap2pg.Pyfmt.{Field}
use ldap2pg.Wanted.{Step, is_empty}
use ldap2pg.Wanted.Infer.{
  iter_fields, default_subsearch, Attributes, add_field, add_fields, set_subsearches,
  infer_attributes,
}

-- The attribute that a field reads, and what is behind its first point.
abbrev pub attribute : Field → String
attribute f = (cut f.field_name b'.').0

abbrev pub behind : Field → String
behind f = (cut f.field_name b'.').1

abbrev pub is_nested : List String → Field → Bool
is_nested known f = (cut f.field_name b'.').2 && not (contains known (behind f))

-- Some field reads the attribute, which is not the name of the entry.
abbrev pub asks : List Field → String → Bool
asks [] a = false
asks (f ∷ fs) a = not (attribute f == "dn") && attribute f == a || asks fs a

-- Some field reads something in no known RDN of the entries that the attribute names.
abbrev pub is_joined : List String → List Field → String → Bool
is_joined known [] a = false
is_joined known (f ∷ fs) a =
    not (attribute f == "dn") && is_nested known f && attribute f == a || is_joined known fs a

-- Some field reads `b` so.
abbrev pub asks_nested : List String → List Field → String → String → Bool
asks_nested known [] a b = false
asks_nested known (f ∷ fs) a b =
    not (attribute f == "dn") && is_nested known f && attribute f == a && behind f == b
    || asks_nested known fs a b

abbrev found : Option Subsearch → List String
found none = default_subsearch.attributes
found (some search) = search.attributes

-- The attributes that the subsearch of an attribute requests.
abbrev pub requested : Dict Subsearch → String → List String
requested m a = found (lookup a m)

module _ (S : SetOps String) (L : IsLawful S) (known : List String) where
  add_fields-has :
      (fs : List Field) (at : Attributes S known) (a : String)
      → S.has (add_fields S known fs at).0 a ≡ (S.has at.0 a || asks fs a)
  unfolding add_fields add_field
  add_fields-has [] at a = ground arith
  add_fields-has (f ∷ fs) at a = elim (Bool-cases (attribute f == "dn")) [
    | inl dn ↦ add_fields-has fs (add_field S known f at) a ∙ rw dn (ground arith)
    | inr other ↦ elim (Bool-cases (not (cut f.field_name b'.').2 || contains known (behind f))) [
      | inl plain ↦
          add_fields-has fs (add_field S known f at) a
          ∙ rw (other, plain, L.has-add at.0 (attribute f) a) (ground arith)
      | inr nested ↦
          add_fields-has fs (add_field S known f at) a
          ∙ rw (other, nested, L.has-add at.0 (attribute f) a) (ground arith)
    ]
  ]

  abbrev set_or : Option S.Carrier → S.Carrier
  set_or none = S.new_set []
  set_or (some set) = set

  abbrev sub_set : Dict S.Carrier → String → S.Carrier
  sub_set m a = set_or (lookup a m)

  sub_set-insert :
      (k v : String) (m : Dict S.Carrier) (a b : String)
      → S.has (sub_set (insert k (S.add (sub_set m k) v) m) a) b
        ≡ (S.has (sub_set m a) b || k == a && v == b)
  sub_set-insert k v m a b =
      let grown = S.add (sub_set m k) v in
      ap (λ o. S.has (set_or o) b) (lookup-insert k a grown m) ∙ elim (Bool-cases (k == a)) [
        | inr e ↦ rw e (ground arith)
        | inl e ↦ rw e (L.has-add (sub_set m k) v b ∙ rw (==_eq k a e) (ground arith))
      ]

  add_fields-has_nested :
      (fs : List Field) (at : Attributes S known) (a b : String)
      → S.has (sub_set (add_fields S known fs at).1 a) b
        ≡ (S.has (sub_set at.1 a) b || asks_nested known fs a b)
  unfolding add_fields add_field
  add_fields-has_nested [] at a b = ground arith
  add_fields-has_nested (f ∷ fs) at a b = elim (Bool-cases (attribute f == "dn")) [
    | inl dn ↦ add_fields-has_nested fs (add_field S known f at) a b ∙ rw dn (ground arith)
    | inr other ↦ elim (Bool-cases (not (cut f.field_name b'.').2 || contains known (behind f))) [
      | inl plain ↦
          add_fields-has_nested fs (add_field S known f at) a b ∙ rw (other, plain) (ground arith)
      | inr nested ↦
          add_fields-has_nested fs (add_field S known f at) a b
          ∙ rw (other, nested)
              (ap (λ x. x || asks_nested known fs a b)
                  (sub_set-insert (attribute f) (behind f) at.1 a b)
                ∙ ground arith)
    ]
  ]

  add_fields-is_some :
      (fs : List Field) (at : Attributes S known) (a : String)
      → is_some (lookup a (add_fields S known fs at).1)
        ≡ (is_some (lookup a at.1) || is_joined known fs a)
  unfolding add_fields add_field
  add_fields-is_some [] at a = ground arith
  add_fields-is_some (f ∷ fs) at a = elim (Bool-cases (attribute f == "dn")) [
    | inl dn ↦ add_fields-is_some fs (add_field S known f at) a ∙ rw dn (ground arith)
    | inr other ↦ elim (Bool-cases (not (cut f.field_name b'.').2 || contains known (behind f))) [
      | inl plain ↦
          add_fields-is_some fs (add_field S known f at) a ∙ rw (other, plain) (ground arith)
      | inr nested ↦
          add_fields-is_some fs (add_field S known f at) a
          ∙ rw
              (
                other,
                nested,
                lookup-insert (attribute f) a (S.add (sub_set at.1 (attribute f)) (behind f)) at.1,
              )
              (ground arith)
    ]
  ]

  add_fields-NodupKeys :
      (fs : List Field) (at : Attributes S known)
      → NodupKeys at.1
      → NodupKeys (add_fields S known fs at).1
  unfolding add_fields add_field
  add_fields-NodupKeys [] at h = h
  add_fields-NodupKeys (f ∷ fs) at h =
      add_fields-NodupKeys fs (add_field S known f at) (elim (Bool-cases (attribute f == "dn")) [
        | inl dn ↦ rw dn h
        | inr other ↦
            elim (Bool-cases (not (cut f.field_name b'.').2 || contains known (behind f))) [
              | inl plain ↦ rw (other, plain) h
              | inr nested ↦ rw (other, nested) (NodupKeys-insert (attribute f) _ at.1 h)
            ]
      ])

  abbrev chosen : Option S.Carrier → List String → List String
  chosen none before = before
  chosen (some set) before = S.iter set

  requested-set_subsearches :
      (sets : Dict S.Carrier) (m : Dict Subsearch) (a : String)
      → NodupKeys sets
      → requested (set_subsearches S known sets m) a ≡ chosen (lookup a sets) (requested m a)
  unfolding set_subsearches
  requested-set_subsearches [] m a u = refl
  requested-set_subsearches ((k, set) ∷ rest) m a (fresh, u) =
      let search = record (get_or m k default_subsearch) { attributes = S.iter set } in
      let next = requested-set_subsearches rest (insert k search m) a u in
      let here : requested (insert k search m) a
          ≡ found (if k == a then some search else lookup a m) =
        ap found (lookup-insert k a search m) in
      elim (Bool-cases (k == a)) [
        | inr e ↦
            let there : requested (insert k search m) a ≡ requested m a =
              here ∙ ap (λ b. found (if b then some search else lookup a m)) e in
            next
            ∙ ap (chosen (lookup a rest)) there
            ∙ ap (λ b. chosen (if b then some set else lookup a rest) (requested m a)) (sym e)
        | inl e ↦
            let gone : lookup a rest ≡ none =
              absent (subst (λ x. contains (keys rest) x ≡ false) (==_eq k a e) fresh) in
            next
            ∙ ap (λ o. chosen o (requested (insert k search m) a)) gone
            ∙ here
            ∙ ap (λ b. found (if b then some search else lookup a m)) e
            ∙ ap (λ b. chosen (if b then some set else lookup a rest) (requested m a)) (sym e)
      ]
    where
      absent : contains (keys rest) a ≡ false → lookup a rest ≡ none
      absent h = elim (Option-cases (lookup a rest)) [
        | inl e ↦ e
        | inr (v, e) ↦ cc (contains-keys rest a, ap is_some e, h)
      ]

  chosen_lem :
      (o : Option S.Carrier) (before : List String) (c : String)
      → contains (chosen o before) c ≡ (if is_some o then S.has (set_or o) c else contains before c)
  chosen_lem none before c = refl
  chosen_lem (some set) before c = L.contains-iter set c

  nonempty : (xs : List String) (a : String) → contains xs a ≡ true → is_empty xs ≡ false
  nonempty [] a h = cc
  nonempty (x ∷ xs) a h = refl

  -- With a set that keeps its laws, once some field reads an attribute: the search requests exactly
  -- the attributes that fields read, the name of the entry apart. Where a field reads something in no
  -- known RDN of the entries that an attribute names, the subsearch of this attribute requests
  -- exactly what fields read of them so; the subsearch of another attribute requests what it did.
  pub infer_attributes_lem :
      (s : Step) (some_attribute : String)
      → asks (iter_fields s) some_attribute ≡ true
      → (let fs = iter_fields s in
          let search = (infer_attributes S known s).ldap_search in
          ((a : String) → contains search.attributes a ≡ asks fs a)
          × ((a c : String)
              → contains (requested search.subsearches a) c ≡ (
                  if is_joined known fs a
                  then asks_nested known fs a c
                  else contains (requested s.ldap_search.subsearches a) c)))
  unfolding infer_attributes
  infer_attributes_lem s x h =
      let empty : Attributes S known = (S.new_set [], []) in
      let fs = iter_fields s in
      let at : Attributes S known = add_fields S known fs empty in
      let before : String → List String = requested s.ldap_search.subsearches in
      let has : (a : String) → contains (S.iter at.0) a ≡ asks fs a =
        λ a. L.contains-iter at.0 a ∙ add_fields-has fs empty a ∙ rw (L.has-new_set [] a) refl in
      let nested : (a b : String) → S.has (sub_set at.1 a) b ≡ asks_nested known fs a b =
        λ a b. add_fields-has_nested fs empty a b ∙ rw (L.has-new_set [] b) refl in
      let full : is_empty (S.iter at.0) ≡ false = nonempty (S.iter at.0) x (has x ∙ h) in
      let unique = add_fields-NodupKeys fs empty tt in
      rw full (
        has,
        λ a c.
            ap (λ xs. contains xs c)
              (requested-set_subsearches at.1 s.ldap_search.subsearches a unique)
            ∙ chosen_lem (lookup a at.1) (before a) c
            ∙ ap (λ b. if b then S.has (sub_set at.1 a) c else contains (before a) c)
                (add_fields-is_some fs empty a)
            ∙ ap (λ b. if is_joined known fs a then b else contains (before a) c) (nested a c),
      )
