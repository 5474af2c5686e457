-- ===== src/Role/Alter/InSync.antt =====
-- The roles to which `Alter` sends nothing.
use ldap2pg.Common.{String, ◌≡◌, ◌↔◌, refl, List, [], ◌∷◌, ◌++◌, arith}
use ldap2pg.Common.{Option, none, some, string_eq, collect}
use ldap2pg.Common.Dict.{lookup}
use ldap2pg.Common.Sets.{SetOps, IsLawful}
use ldap2pg.Postgres.{SyncQuery}
use ldap2pg.Role.{
  Config, Role, missing_parents, alter_options, alter_missing, alter_spurious, alter_comment,
  alter_config, alter,
}
use ldap2pg.Role.RoleOptions.{Columns, visible_fields}
use ldap2pg.Role.RoleOptions.Changes.{Agree, diff-eq-nil_iff}
use ldap2pg.Role.Alter.{
  append-eq-nil, Covers, keep-Covers, Covers-keep, alter_config-eq-nil, alter_config_nil,
}

-- A nil `Config` reads as an empty map.
abbrev pub entries : Option Config → Config
entries none = []
entries (some c) = c

-- The settings of the wanted role, unless it leaves them alone.
abbrev pub SameConfig : Option Config → Option Config → Type 0
SameConfig current none = Unit
SameConfig current (some w) = (k : String) → lookup k (entries current) ≡ lookup k w

pub record InSync (columns : Columns) (r wanted : Role) : Type 0 where
  pub options : Agree columns r.options wanted.options visible_fields
  pub granted : Covers r.parents wanted.parents
  pub no_more : Covers wanted.parents r.parents
  pub comment : wanted.comment ≡ r.comment
  pub config : SameConfig r.config wanted.config

collect_one-eq-nil {ℓ κ} :
    {A : Type ℓ} {B : Type κ} (f : A → B) (xs : List A) → collect (λ x. f x ∷ []) xs ≡ [] → xs ≡ []
collect_one-eq-nil f [] h = refl
collect_one-eq-nil f (x ∷ xs) h = cc

missing-eq-nil : (r wanted : Role) → alter_missing r wanted ≡ [] → Covers r.parents wanted.parents
unfolding missing_parents
missing-eq-nil r wanted h = keep-Covers r.parents wanted.parents (ground arith)

missing_nil : (r wanted : Role) → Covers r.parents wanted.parents → alter_missing r wanted ≡ []
unfolding missing_parents
missing_nil r wanted h = ground (arith, Covers-keep r.parents wanted.parents h)

spurious-eq-nil : (r wanted : Role) → alter_spurious r wanted ≡ [] → Covers wanted.parents r.parents
unfolding missing_parents
spurious-eq-nil r wanted h =
    keep-Covers wanted.parents r.parents (collect_one-eq-nil _ (missing_parents wanted r.parents) h)

spurious_nil : (r wanted : Role) → Covers wanted.parents r.parents → alter_spurious r wanted ≡ []
unfolding missing_parents
spurious_nil r wanted h = rw (Covers-keep wanted.parents r.parents h)

comment-eq-nil : (r wanted : Role) → alter_comment r wanted ≡ [] → wanted.comment ≡ r.comment
comment-eq-nil r wanted h = ground arith

options-eq-nil :
    (columns : Columns) (r wanted : Role)
    → alter_options columns r wanted ≡ []
    → Agree columns r.options wanted.options visible_fields
options-eq-nil columns r wanted h =
    (diff-eq-nil_iff columns r.options wanted.options).0 (ground arith)

module _ (S : SetOps String) (L : IsLawful S) (columns : Columns) (r wanted : Role) where
  abbrev config_queries : Option Config → List SyncQuery
  config_queries none = []
  config_queries (some w) = alter_config S r (entries r.config) w

  config-SameConfig : (w : Option Config) → config_queries w ≡ [] → SameConfig r.config w
  config-SameConfig none h = tt
  config-SameConfig (some w) h = alter_config-eq-nil S L r (entries r.config) w h

  SameConfig-config : (w : Option Config) → SameConfig r.config w → config_queries w ≡ []
  SameConfig-config none h = refl
  SameConfig-config (some w) h = alter_config_nil S L r (entries r.config) w h

  alter_parts :
      alter S columns r wanted
      ≡ alter_options columns r wanted
        ++ (alter_missing r wanted
            ++ (alter_spurious r wanted
                ++ (alter_comment r wanted ++ config_queries wanted.config)))
  unfolding alter
  alter_parts = ground arith

  alter-InSync : alter S columns r wanted ≡ [] → InSync columns r wanted
  alter-InSync h =
      let (options, h₁) = append-eq-nil _ _ (rw alter_parts at h) in
      let (missing, h₂) = append-eq-nil _ _ h₁ in
      let (spurious, h₃) = append-eq-nil _ _ h₂ in
      let (comment, config) = append-eq-nil _ _ h₃ in
      record {
        options = options-eq-nil columns r wanted options;
        granted = missing-eq-nil r wanted missing;
        no_more = spurious-eq-nil r wanted spurious;
        comment = comment-eq-nil r wanted comment;
        config = config-SameConfig wanted.config config;
      }

  InSync-alter : InSync columns r wanted → alter S columns r wanted ≡ []
  InSync-alter s =
      rw
        (
          alter_parts,
          (diff-eq-nil_iff columns r.options wanted.options).1 s.options,
          missing_nil r wanted s.granted,
          spurious_nil r wanted s.no_more,
          s.comment,
          SameConfig-config wanted.config s.config,
        )
        (ground arith)

  -- `Alter` sends no query exactly when, in the enabled columns, the options agree, both roles have
  -- the same parents and the same comment, and the settings are the wanted ones if there are any.
  pub alter-eq-nil_iff : (alter S columns r wanted ≡ []) ↔ InSync columns r wanted
  alter-eq-nil_iff = (alter-InSync, InSync-alter)
