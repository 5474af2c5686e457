-- ===== src/Config/Items/Filters.antt =====
-- What becomes of the filter of a search.
use ldap2pg.Common.{String, ◌≡◌, refl, ◌∙◌, inl, inr, false, [], ◌∷◌}
use ldap2pg.Common.{
  Option, none, some, ◌==◌, string_eq, contains, arith, Option-cases, Bool-cases, ==_eq, ==_refl,
}
use ldap2pg.Common.Dict.{
  Dict, lookup, get_or, insert, erase, keys, lookup-insert, lookup-erase, NodupKeys, contains-keys,
}
use ldap2pg.Common.Outcome.{Outcome, ok, panic, ◌>>=◌}
use ldap2pg.Config.Items.{search_defaults, remove_null_filter, filter_text, normalize_common_search}
use ldap2pg.Ldap.Filter.{clean_filter}
use ldap2pg.Normalize.{
  Yaml, null, text, bool, int, seq, mapping, texts, mappings, other, Fields, to_dict, copy,
}

lookup-copy :
    (dst src : Dict Yaml) (k : String)
    → NodupKeys src
    → lookup k (copy dst src) ≡ (elim (lookup k src) [ some v ↦ some v | none ↦ lookup k dst ])
unfolding copy
lookup-copy dst [] k u = refl
lookup-copy dst ((j, v) ∷ src) k (fresh, u) =
    let ih = lookup-copy (insert j v dst) src k u in
    elim (Bool-cases (j == k)) [
      | inl same ↦
          let gone : lookup k src ≡ none = missing k (rw (==_eq j k same) at fresh) in
          rw same (ih ∙ rw gone (lookup-insert j k v dst ∙ rw same refl))
      | inr differ ↦ rw differ (
          ih ∙ elim (Option-cases (lookup k src)) [
            | inl gone ↦ rw gone (lookup-insert j k v dst ∙ rw differ refl)
            | inr (w, found) ↦ rw found refl
          ])
    ]
  where
    missing : (k : String) → contains (keys src) k ≡ false → lookup k src ≡ none
    missing k h = elim (Option-cases (lookup k src)) [
      | inl gone ↦ gone
      | inr (w, found) ↦ ground (arith, h, contains-keys src k, found)
    ]

-- What the sanitising of a search makes of the filter that it finds: a filter that is a text is
-- cleaned, a null or a missing one is the default, and any other makes the assertion panic.
abbrev pub Searches : Option Yaml → Outcome (Dict Yaml) → Type 0
Searches none o =
    (search : Dict Yaml) × (o ≡ ok search)
    × (lookup "filter" search ≡ some (text (clean_filter "(objectClass=*)")))
Searches (some null) o =
    (search : Dict Yaml) × (o ≡ ok search)
    × (lookup "filter" search ≡ some (text (clean_filter "(objectClass=*)")))
Searches (some (text s)) o =
    (search : Dict Yaml) × (o ≡ ok search) × (lookup "filter" search ≡ some (text (clean_filter s)))
Searches (some _) o = o ≡ panic

keys-erase :
    (k : String) (m : Dict Yaml) (j : String)
    → contains (keys m) j ≡ false
    → contains (keys (erase k m)) j ≡ false
unfolding erase
keys-erase k [] j h = refl
keys-erase k ((i, v) ∷ m) j h = ground (arith, keys-erase k m j)

NodupKeys-erase : (k : String) (m : Dict Yaml) → NodupKeys m → NodupKeys (erase k m)
unfolding erase
NodupKeys-erase k [] u = tt
NodupKeys-erase k ((i, v) ∷ m) (fresh, u) = elim (Bool-cases (i == k)) [
  | inl same ↦ rw same (NodupKeys-erase k m u)
  | inr differ ↦ rw differ (keys-erase k m i fresh, NodupKeys-erase k m u)
]

abbrev search_of : Dict Yaml → Dict Yaml
search_of m = copy search_defaults (remove_null_filter m)

abbrev outcome : Dict Yaml → Outcome (Dict Yaml)
outcome search = filter_text (get_or search "filter" null) >>= λ filter.
    ok (insert "filter" (text (clean_filter filter)) search)

outcome_text :
    (search : Dict Yaml) (s : String)
    → lookup "filter" search ≡ some (text s)
    → Searches (some (text s)) (outcome search)
outcome_text search s e =
    let here : get_or search "filter" null ≡ text s = rw (e, get_or) refl in
    (
      insert "filter" (text (clean_filter s)) search,
      rw here refl,
      lookup-insert "filter" "filter" (text (clean_filter s)) search
          ∙ rw (==_refl {A = String} "filter") refl,
    )

outcome_other :
    (search : Dict Yaml) (y : Yaml)
    → filter_text y ≡ panic
    → lookup "filter" search ≡ some y
    → outcome search ≡ panic
outcome_other search y bad e =
    let here : get_or search "filter" null ≡ y = rw (e, get_or) refl in rw (here, bad) refl

-- A filter that is there, and not null, is the one of the search; else it is the default.
search_kept :
    (m : Dict Yaml) (y : Yaml)
    → NodupKeys m
    → remove_null_filter m ≡ m
    → lookup "filter" m ≡ some y
    → lookup "filter" (search_of m) ≡ some y
search_kept m y u same e = rw same (lookup-copy search_defaults m "filter" u ∙ rw e refl)

search_default :
    (m m' : Dict Yaml)
    → NodupKeys m'
    → remove_null_filter m ≡ m'
    → lookup "filter" m' ≡ none
    → lookup "filter" (search_of m) ≡ some (text "(objectClass=*)")
unfolding string_eq
search_default m m' u same e = rw same (lookup-copy search_defaults m' "filter" u ∙ rw e refl)

finish :
    (m : Dict Yaml) (o : Option Yaml)
    → NodupKeys m
    → lookup "filter" m ≡ o
    → Searches o (outcome (search_of m))
finish m none u e =
    outcome_text (search_of m) "(objectClass=*)"
      (search_default m m u (rw (e, remove_null_filter) refl) e)
finish m (some null) u e = outcome_text (search_of m) "(objectClass=*)" (
    search_default m (erase "filter" m) (NodupKeys-erase "filter" m u)
      (rw (e, remove_null_filter) refl)
      (lookup-erase "filter" "filter" m ∙ rw (==_refl {A = String} "filter") refl))
finish m (some (text s)) u e =
    outcome_text (search_of m) s (search_kept m (text s) u (rw (e, remove_null_filter) refl) e)
finish m (some (bool b)) u e =
    outcome_other (search_of m) (bool b) refl
      (search_kept m (bool b) u (rw (e, remove_null_filter) refl) e)
finish m (some (int i)) u e =
    outcome_other (search_of m) (int i) refl
      (search_kept m (int i) u (rw (e, remove_null_filter) refl) e)
finish m (some (seq ys)) u e =
    outcome_other (search_of m) (seq ys) refl
      (search_kept m (seq ys) u (rw (e, remove_null_filter) refl) e)
finish m (some (mapping fs)) u e =
    outcome_other (search_of m) (mapping fs) refl
      (search_kept m (mapping fs) u (rw (e, remove_null_filter) refl) e)
finish m (some (texts ss)) u e =
    outcome_other (search_of m) (texts ss) refl
      (search_kept m (texts ss) u (rw (e, remove_null_filter) refl) e)
finish m (some (mappings ys)) u e =
    outcome_other (search_of m) (mappings ys) refl
      (search_kept m (mappings ys) u (rw (e, remove_null_filter) refl) e)
finish m (some (other t)) u e =
    outcome_other (search_of m) (other t) refl
      (search_kept m (other t) u (rw (e, remove_null_filter) refl) e)

-- For a search given as a map that lists no key twice: a filter that is a text comes out cleaned, a
-- filter that is null or missing comes out as the default, cleaned, and a filter of any other type,
-- such as a number or a list, makes the program panic.
pub normalize_common_search_lem :
    (fs : Fields)
    → NodupKeys (to_dict fs)
    → Searches (lookup "filter" (to_dict fs)) (normalize_common_search (mapping fs))
unfolding normalize_common_search
normalize_common_search_lem fs u = finish (to_dict fs) (lookup "filter" (to_dict fs)) u refl
