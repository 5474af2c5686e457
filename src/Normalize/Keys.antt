-- ===== src/Normalize/Keys.antt =====
-- How the helpers end, and what they leave of the keys.
use ldap2pg.Common.{String, ◌<>◌, ◌≡◌, refl, inl, inr, true, false, ◌&&◌, List, [], ◌∷◌}
use ldap2pg.Common.{
  none, ◌==◌, ==_eq, string_eq, if◌then◌else◌, contains, All, arith, Bool-cases, Option-cases,
}
use ldap2pg.Common.Dict.{Dict, lookup, insert, erase, keys, is_some, lookup-insert, lookup-erase}
use ldap2pg.Common.Outcome.{Outcome, ok, error, panic, spent, ◌>>=◌, ◌>>◌, wrap}
use ldap2pg.Normalize.{
  Yaml, null, text, bool, int, seq, mapping, texts, mappings, other, Items, nil, item, alias,
  aliases, spurious_keys, string_list, string_items, as_text,
}

-- An error, or a value with a property: no panic, and no fuel spent.
abbrev pub Ends : {A : Type 0} → Outcome A → (A → Type 0) → Type 0
Ends (ok a) P = P a
Ends (error e) P = Unit
Ends panic P = ⊥
Ends spent P = ⊥

pub Ends-bind :
    {A : Type 0} {B : Type 0} (P : A → Type 0) (Q : B → Type 0) (m : Outcome A) (f : A → Outcome B)
    → Ends m P
    → ((a : A) → P a → Ends (f a) Q)
    → Ends (m >>= f) Q
Ends-bind P Q (ok a) f h k = k a h
Ends-bind P Q (error e) f h k = tt
Ends-bind P Q panic f h k = absurd h
Ends-bind P Q spent f h k = absurd h

pub Ends-map :
    {A : Type 0} (P : A → Type 0) (Q : A → Type 0) (m : Outcome A)
    → ((a : A) → P a → Q a)
    → Ends m P
    → Ends m Q
Ends-map P Q (ok a) k h = k a h
Ends-map P Q (error e) k h = tt
Ends-map P Q panic k h = absurd h
Ends-map P Q spent k h = absurd h

pub Ends-wrap :
    {A : Type 0} (P : A → Type 0) (context : String) (m : Outcome A)
    → Ends m P
    → Ends (wrap context m) P
Ends-wrap P context (ok a) h = h
Ends-wrap P context (error e) h = tt
Ends-wrap P context panic h = h
Ends-wrap P context spent h = h

-- What `Alias` makes of a map: a conflict, or the map with what stood under the alias under the
-- key, and all else as it was.
abbrev pub Renames : String → String → Dict Yaml → Outcome (Dict Yaml) → Type 0
Renames key alias' m o =
    if is_some (lookup alias' m) && is_some (lookup key m)
    then o ≡ error ("key conflict between " <> key <> " and " <> alias')
    else ((m' : Dict Yaml) × (o ≡ ok m')
        × ((j : String)
            → lookup j m' ≡ (
                if alias' == j
                then none
                else if key == j && is_some (lookup alias' m)
                then lookup alias' m
                else lookup j m)))

-- For a key that differs from its alias, `Alias` returns an error where the map has both. Else the
-- map that it leaves has nothing under the alias; under the key it has what stood under the alias,
-- if anything did; and everywhere else, and under the key if nothing did, what it had.
pub alias_lem :
    (key alias' : String) (m : Dict Yaml)
    → (key == alias') ≡ false
    → Renames key alias' m (alias key alias' m)
unfolding alias
alias_lem key alias' m apart = elim (Option-cases (lookup alias' m)) [
  | inl absent ↦ rw absent (
    m,
    rw (absent, alias) refl,
    λ j. elim (Bool-cases (alias' == j)) [
      | inl same ↦
          let gone : lookup j m ≡ none = rw (← (==_eq alias' j same)) absent in
          ground (arith, same, gone)
      | inr differ ↦ ground (arith, differ)
    ],
  )
  | inr (v, found) ↦ elim (Bool-cases (is_some (lookup key m))) [
    | inl both ↦ rw (found, both) (rw (found, both, alias) refl)
    | inr one ↦
        rw (found, one)
          (
            insert key v (erase alias' m),
            rw (found, one, alias) refl,
            λ j. ground (
              arith,
              lookup-insert key j v (erase alias' m),
              lookup-erase alias' j m,
              ==_eq key j,
              ==_eq alias' j,
            ),
          )
  ]
]

as_text_ends : (y : Yaml) → Ends (as_text y) (λ _. Unit {0})
as_text_ends (text s) = tt
as_text_ends null = tt
as_text_ends (bool b) = tt
as_text_ends (int i) = tt
as_text_ends (seq ys) = tt
as_text_ends (mapping fs) = tt
as_text_ends (texts ss) = tt
as_text_ends (mappings ys) = tt
as_text_ends (other t) = tt

string_items_ends : (ys : Items) → Ends (string_items ys) (λ _. Unit {0})
unfolding string_items
string_items_ends nil = tt
string_items_ends (item y ys) =
    Ends-bind (λ _. Unit {0}) (λ _. Unit {0}) (as_text y) _ (as_text_ends y)
      (λ s _.
        Ends-bind (λ _. Unit {0}) (λ _. Unit {0}) (string_items ys) _ (string_items_ends ys)
          (λ ss _. tt))

pub string_list_ends : (y : Yaml) → Ends (string_list y) (λ _. Unit {0})
unfolding string_list
string_list_ends null = tt
string_list_ends (text s) = tt
string_list_ends (seq ys) = string_items_ends ys
string_list_ends (texts ss) = tt
string_list_ends (bool b) = tt
string_list_ends (int i) = tt
string_list_ends (mapping fs) = tt
string_list_ends (mappings ys) = tt
string_list_ends (other t) = tt

-- `SpuriousKeys` returns nil only where every key is known.
pub spurious_keys_ends :
    (known : List String) (m : Dict Yaml)
    → Ends (spurious_keys known m) (λ _. All (λ k. contains known k ≡ true) (keys m))
unfolding spurious_keys
spurious_keys_ends known [] = tt
spurious_keys_ends known ((k, _) ∷ m) = elim (Bool-cases (contains known k)) [
  | inl listed ↦ rw listed (
      Ends-map (λ _. All (λ j. contains known j ≡ true) (keys m)) _ (spurious_keys known m)
        (λ _ h. (refl, h)) (spurious_keys_ends known m))
  | inr spurious ↦ rw spurious tt
]

-- `SpuriousKeys` on the way out: the map comes back with every key known, and with what it had.
pub checked_ends :
    (P : Dict Yaml → Type 0) (known : List String) (m : Dict Yaml)
    → P m
    → Ends (spurious_keys known m >> ok m) (λ r. P r × All (λ k. contains known k ≡ true) (keys r))
checked_ends P known m p =
    Ends-bind (λ _. All (λ k. contains known k ≡ true) (keys m))
      (λ r. P r × All (λ k. contains known k ≡ true) (keys r)) (spurious_keys known m) (λ _. ok m)
      (spurious_keys_ends known m) (λ _ h. (p, h))

pub alias_ends : (key alias' : String) (m : Dict Yaml) → Ends (alias key alias' m) (λ _. Unit {0})
unfolding alias
alias_ends key alias' m = elim (Option-cases (lookup alias' m)) [
  | inl absent ↦ rw (absent, alias) tt
  | inr (v, found) ↦ elim (Bool-cases (is_some (lookup key m))) [
    | inl both ↦ rw (found, both, alias) tt
    | inr one ↦ rw (found, one, alias) tt
  ]
]

pub aliases_ends :
    (names : List (String × String)) (m : Dict Yaml) → Ends (aliases names m) (λ _. Unit {0})
unfolding aliases
aliases_ends [] m = tt
aliases_ends ((key, alias') ∷ rest) m =
    Ends-bind (λ _. Unit {0}) (λ _. Unit {0}) (alias key alias' m) _ (alias_ends key alias' m)
      (λ m' _. aliases_ends rest m')
