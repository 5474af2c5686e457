-- ===== src/Lists/Blacklist.antt =====
-- internal/lists/blacklist.go. `filepath.Match` is a parameter: `none` is `ErrBadPattern`.
use ldap2pg.Common.{
  String, ◌≡◌, ◌⊎◌, inl, inr, refl, Bool, true, false, List, [], ◌∷◌, Option, some, ◌>>=◌,
}
use ldap2pg.Common.{◌==◌, string_eq, if◌then◌else◌, contains, All, arith, Option-cases}
use ldap2pg.Common.Dict.{is_some}

-- The error does not hang on the name that is matched.
abbrev pub IsStrict : (String → String → Option Bool) → Type 0
IsStrict match =
    (pattern name other : String) → is_some (match pattern name) ≡ is_some (match pattern other)

module _ (match : String → String → Option Bool) where
  -- `Check`: whether it returns nil.
  unfoldable pub check : List String → Bool
  check [] = true
  check (pattern ∷ bl) =
      let rest = check bl in if is_some (match pattern "pouet") then rest else false

  -- `MatchString`; `none` is its panic.
  unfoldable pub match_string : List String → String → Option String
  match_string [] item = some ""
  match_string (pattern ∷ bl) item =
      let rest = match_string bl item in
      match pattern item >>= λ ok. if ok then some pattern else rest

  -- `Filter`, on the keys of the items.
  unfoldable pub filter : List String → List String → Option (List String)
  unfolding match_string
  filter bl [] = some []
  filter bl (item ∷ items) = match_string bl item >>= λ found.
      filter bl items >>= λ rest. some (if found == "" then item ∷ rest else rest)

  module _ (strict : IsStrict match) where
    -- What `MatchString` returns: a pattern of the list that matches, or nothing where none does.
    abbrev pub Verdict : List String → String → String → Type 0
    Verdict bl item out =
        ((out ≡ "") × All (λ p. match p item ≡ some false) bl)
        ⊎ ((contains bl out ≡ true) × (match out item ≡ some true))

    -- Where no error of `filepath.Match` depends on the name that is matched, and once `Check` has
    -- accepted the patterns `MatchString` does not panic, whatever the name. It returns a pattern
    -- of the list that matches the name, or the empty text where none matches.
    pub match_string_total :
        (bl : List String)
        → check bl ≡ true
        → (item : String) → (out : String) × (match_string bl item ≡ some out) × Verdict bl item out
    unfolding check match_string
    match_string_total [] h item = ("", refl, inl (refl, tt))
    match_string_total (pattern ∷ bl) h item = elim (Option-cases (match pattern item)) [
      | inl bad ↦ absurd (ground (arith, strict pattern item "pouet"))
      | inr (true, e) ↦ (pattern, rw e refl, inr (ground arith, e))
      | inr (false, e) ↦
          let (out, f, v) = match_string_total bl (ground arith) item in
          (
            out,
            rw (e, f) refl,
            elim v [
              | inl (same, all) ↦ inl (same, (e, all))
              | inr (in_list, m) ↦ inr (ground arith, m)
            ],
          )
    ]
