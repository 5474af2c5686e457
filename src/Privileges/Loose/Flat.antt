-- ===== src/Privileges/Loose/Flat.antt =====
-- internal/privileges/profile.go: the sanitising of profiles, and the flattening of those that
-- include others.
use ldap2pg.Common.{ℕ, String, ◌<>◌, List, [], ◌∷◌, ◌++◌, none, some}
use ldap2pg.Common.{string_eq, if◌then◌else◌}
use ldap2pg.Common.Dict.{Dict, get_or, insert}
use ldap2pg.Common.Outcome.{Outcome, ok, error, ◌>>=◌, or_spent, wrap}
use ldap2pg.Common.Sets.{SetOps}
use ldap2pg.Common.Sort.{sort}
use ldap2pg.Common.Text.{has_prefix}
use ldap2pg.Normalize.{Yaml, null, text, seq, mapping, to_list, of_list, of_dict, as_mapping}
use ldap2pg.Privileges.Loose.{normalize_privilege, duplicate_privilege}
use ldap2pg.Tree.{walk}

module _ (upper : String → String) where
  -- The loop over the privileges of a profile; a text names a profile to include.
  unfoldable pub normalize_profile : List Yaml → Outcome (List Yaml)
  unfolding normalize_privilege duplicate_privilege
  normalize_profile [] = ok []
  normalize_profile (text name ∷ rest) = normalize_profile rest >>= λ more. ok (text name ∷ more)
  normalize_profile (raw ∷ rest) = do
    privilege ← normalize_privilege upper raw
    privileges ← duplicate_privilege privilege
    more ← normalize_profile rest
    ok (privileges ++ more)

  -- The loop over the profiles.
  unfoldable pub normalize_all : Dict Yaml → Outcome (Dict (List Yaml))
  unfolding normalize_profile
  normalize_all [] = ok []
  normalize_all ((key, null) ∷ rest) = error (" " <> key <> " is nil")
  normalize_all ((key, seq ys) ∷ rest) = do
    privileges ← wrap (key <> ": ") (normalize_profile (to_list ys))
    others ← normalize_all rest
    ok ((key, privileges) ∷ others)
  normalize_all ((key, y) ∷ rest) = error (" " <> key <> " is not a list")

-- The maps that `copyRefs` fills: the profiles that one includes, and its own privileges.
pub record Refs : Type 0 where
  pub heritance : Dict (List String)
  pub refs : Dict (List Yaml)

abbrev push {ℓ} : {V : Type ℓ} → String → V → Dict (List V) → Dict (List V)
push key v m = insert key (get_or m key [] ++ v ∷ []) m

-- The inner loop of `copyRefs`.
unfoldable pub copy_items : String → List Yaml → Refs → Refs
unfolding insert
copy_items key [] r = r
copy_items key (text s ∷ rest) r =
    copy_items key rest (record r { heritance = push key s r.heritance })
copy_items key (y ∷ rest) r = copy_items key rest (record r { refs = push key y r.refs })

unfoldable pub copy_refs : Dict (List Yaml) → Refs → Refs
unfolding copy_items
copy_refs [] r = r
copy_refs ((key, items) ∷ rest) r = copy_refs rest (copy_items key items r)

-- The loop over the parents of one profile; the walk has sorted them where the map holds them.
unfoldable pub inherit : String → List String → Dict (List Yaml) → Dict (List Yaml)
unfolding insert
inherit name [] refs = refs
inherit name (parent ∷ parents) refs =
    inherit name parents (insert name (get_or refs name [] ++ get_or refs parent []) refs)

unfoldable pub inherit_all : Dict (List String) → List String → Dict (List Yaml) → Dict (List Yaml)
unfolding inherit
inherit_all heritance [] refs = refs
inherit_all heritance (name ∷ names) refs =
    inherit_all heritance names (inherit name (sort (get_or heritance name [])) refs)

-- `Remove builtin`
unfoldable pub remove_builtin : Dict (List Yaml) → Dict (List Yaml)
remove_builtin [] = []
remove_builtin ((key, ys) ∷ m) =
    let rest = remove_builtin m in if has_prefix key "__" then rest else (key, ys) ∷ rest

-- `flattenProfiles`
unfoldable pub flatten_profiles :
    SetOps String → ℕ → Dict (List Yaml) → Dict (List Yaml) → Outcome (Dict (List Yaml))
unfolding copy_refs inherit_all remove_builtin walk
flatten_profiles S fuel builtins profiles =
    let r = copy_refs profiles (copy_refs builtins (record { heritance = []; refs = [] })) in
    or_spent (walk S r.heritance fuel) >>= λ names.
    ok (remove_builtin (inherit_all r.heritance names r.refs))

abbrev seqs : Dict (List Yaml) → Dict Yaml
seqs [] = []
seqs ((key, ys) ∷ m) = (key, seq (of_list ys)) ∷ seqs m

-- `NormalizeProfiles`. `BuiltinsProfiles` is a table of builtin.go, a parameter.
unfoldable pub normalize_profiles :
    (String → String) → SetOps String → ℕ → Dict (List Yaml) → Yaml → Outcome Yaml
unfolding normalize_all flatten_profiles
normalize_profiles upper S fuel builtins yaml = elim (as_mapping yaml) [
  | none ↦ error "bad type"
  | some m ↦ do
    profiles ← normalize_all upper m
    flat ← flatten_profiles S fuel builtins profiles
    ok (mapping (of_dict (seqs flat)))
]
