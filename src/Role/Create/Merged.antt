-- ===== src/Role/Create/Merged.antt =====
-- What `Merge` makes of parents and settings.
use ldap2pg.Common.{
  String, ◌≡◌, refl, ◌∙◌, inl, inr, false, ◌||◌, List, [], ◌∷◌, ◌++◌, Option, none, some,
}
use ldap2pg.Common.{◌==◌, string_eq, arith, contains, Bool-cases, Option-cases, ==_eq}
use ldap2pg.Common.Dict.{lookup, insert, lookup-insert, keys, contains-keys, NodupKeys}
use ldap2pg.Role.{Role, Membership, Config, is_member}
use ldap2pg.Role.Create.{merge_parents, copy_config, merge_config, merge}

is_member_last :
    (ms : List Membership) (m : Membership) (p : String)
    → is_member (ms ++ m ∷ []) p ≡ (is_member ms p || p == m.name)
is_member_last [] m p = ground arith
is_member_last (o ∷ ms) m p = ground (arith, is_member_last ms m p)

is_member-merge_parents :
    (parents os : List Membership) (p : String)
    → is_member (merge_parents parents os) p ≡ (is_member parents p || is_member os p)
unfolding merge_parents
is_member-merge_parents parents [] p = ground arith
is_member-merge_parents parents (m ∷ os) p = elim (Bool-cases (is_member parents m.name)) [
  | inl old ↦ rw old (ground (arith, is_member-merge_parents parents os p))
  | inr new ↦
      rw new (
        ground
          (arith, is_member-merge_parents (parents ++ m ∷ []) os p, is_member_last parents m p))
]

lookup-copy_config :
    (c o : Config) (k : String)
    → NodupKeys o
    → lookup k (copy_config c o) ≡ elim (lookup k o) [ none ↦ lookup k c | some v ↦ some v ]
unfolding copy_config
lookup-copy_config c [] k u = refl
lookup-copy_config c ((j, v) ∷ o) k (fresh, u) = elim (Bool-cases (j == k)) [
  | inl e ↦
      let nothing : lookup k o ≡ none = absent j k o fresh (==_eq j k e) in
      rw (e, lookup-copy_config (insert j v c) o k u, nothing) (lookup-insert j k v c ∙ rw e refl)
  | inr d ↦ rw (d, lookup-copy_config (insert j v c) o k u) (go (lookup k o) d)
]
  where
    absent : (j k : String) (o : Config) → contains (keys o) j ≡ false → j ≡ k → lookup k o ≡ none
    absent j k o fresh e = elim (Option-cases (lookup k o)) [
      | inl nothing ↦ nothing
      | inr (w, some_value) ↦ absurd (ground (arith, contains-keys o j, contains-keys o k))
    ]

    go :
        (found : Option String)
        → (j == k) ≡ false
        → elim found [ none ↦ lookup k (insert j v c) | some w ↦ some w ]
          ≡ elim found [ none ↦ lookup k c | some w ↦ some w ]
    go none d = lookup-insert j k v c ∙ rw d refl
    go (some w) d = refl

-- A setting of either role, `none` where both leave settings alone.
abbrev pub setting : Option Config → String → Option String
setting none k = none
setting (some c) k = lookup k c

-- The merged role keeps its name, options, comment and hooks. It is a member of the parents of both,
-- and a setting of the other role takes the place of its own; the settings of the other role list no
-- key twice.
pub merge_lem :
    (r o : Role)
    → NodupKeys (elim o.config [ none ↦ [] | some c ↦ c ])
    → ((merge r o).name ≡ r.name)
      × ((merge r o).options ≡ r.options)
      × ((merge r o).comment ≡ r.comment)
      × ((merge r o).before_create ≡ r.before_create)
      × ((merge r o).after_create ≡ r.after_create)
      × ((p : String)
          → is_member (merge r o).parents p ≡ (is_member r.parents p || is_member o.parents p))
      × ((k : String)
          → setting (merge r o).config k
            ≡ elim (setting o.config k) [ none ↦ setting r.config k | some v ↦ some v ])
unfolding merge
merge_lem r o u = (
  refl,
  refl,
  refl,
  refl,
  refl,
  is_member-merge_parents r.parents o.parents,
  settings r.config o.config u,
)
  where
    settings :
        (c d : Option Config)
        → NodupKeys (elim d [ none ↦ [] | some e ↦ e ])
        → (k : String)
        → setting (merge_config c d) k ≡ elim (setting d k) [ none ↦ setting c k | some v ↦ some v ]
    settings none none u k = refl
    settings none (some d) u k = ground arith
    settings (some c) none u k = refl
    settings (some c) (some d) u k = lookup-copy_config c d k u
