-- ===== src/Inspect/Stage0/Blacklisted.antt =====
-- How stage 0 ends, and what the blacklist holds.
use ldap2pg.Common.{
  ℕ, String, ◌<>◌, ◌≡◌, refl, inl, inr, Bool, true, not, ◌&&◌, ◌||◌, List, [], ◌∷◌, ◌++◌,
}
use ldap2pg.Common.{
  Option, none, some, ◌==◌, string_eq, if◌then◌else◌, contains, ltb, arith, Bool-cases,
}
use ldap2pg.Common.Outcome.{Outcome, ok, error}
use ldap2pg.Common.Sets.{SetOps}
use ldap2pg.Lists.Blacklist.{check}
use ldap2pg.Role.Diff.{zero_role}
use ldap2pg.Role.RoleOptions.{zero_options}
use ldap2pg.Inspect.{Instance, Config, Session, Server}
use ldap2pg.Inspect.Rows.{rows, read}
use ldap2pg.Inspect.Stage0.{zero_instance, blacklist_self, stage0}

contains-append_last :
    (xs : List String) (y k : String) → contains (xs ++ y ∷ []) k ≡ (contains xs k || y == k)
contains-append_last [] y k = ground arith
contains-append_last (x ∷ xs) y k = ground (arith, contains-append_last xs y k)

-- The running user is blacklisted, and nothing but it is added.
abbrev pub Blacklists : String → List String → List String → Type 0
Blacklists me patterns blacklist =
    (contains blacklist me ≡ true)
    × ((k : String) → contains blacklist k ≡ (contains patterns k || me == k))

blacklist_self-Blacklists :
    (me : String) (ps : List String) → Blacklists me ps (blacklist_self me ps)
unfolding blacklist_self
blacklist_self-Blacklists me ps = elim (Bool-cases (contains ps me)) [
  | inl known ↦ rw known (known, λ k. ground arith)
  | inr new ↦
      rw new (ground (arith, contains-append_last ps me me), λ k. contains-append_last ps me k)
]

-- The instance that stage 0 returns.
abbrev pub started : (S : SetOps String) → Session → String → List String → Instance S
started S s fallback_owner blacklist = record (zero_instance S) {
  default_database = s.database;
  me = record zero_role { name = s.user; options = record zero_options { super = s.super } };
  fallback_owner = if fallback_owner == "" then s.user else fallback_owner;
  roles_blacklist = blacklist;
}

module _ (S : SetOps String) (match : String → String → Option Bool) where
  -- What stage 0 returns for a session and for what the blacklist query yields.
  abbrev pub returned : Session → String → List String → Option String → Outcome (Instance S)
  returned s fallback_owner blacklist e =
      if not s.super && ltb s.server_version_num 160000
      then error "session: unprivileged user on pre-16 Postgres"
      else elim e [
        | some x ↦ error ("roles_blacklist_query: " <> x)
        | none ↦
            if check match blacklist
            then ok (started S s fallback_owner blacklist)
            else error "roles_blacklist_query: syntax error in pattern"
      ]

  -- Where the server can be reached, its session query yields one row and the blacklist query is
  -- read to its end: the blacklist holds the running user and otherwise exactly the patterns read;
  -- stage 0 fails for a user who is no superuser on a server before 16, else where the blacklist
  -- query ends with an error, else where `Check` refuses the blacklist, and otherwise returns the
  -- session's database and user, the owner to fall back on and the blacklist.
  pub stage0_lem :
      (fuel : ℕ) (server : Server) (pc : Config) (s : Session) (after : Option String)
      (patterns : List String) (e : Option String)
      → server.connect "" ≡ none
      → server.session ≡ rows (ok s ∷ []) after
      → read pc.roles_blacklist_query fuel ≡ ok (patterns, e)
      → Blacklists s.user patterns (blacklist_self s.user patterns)
        × (stage0 S match fuel server pc
            ≡ returned s pc.fallback_owner (blacklist_self s.user patterns) e)
  unfolding stage0
  stage0_lem fuel server pc s after patterns none c h r = (
    blacklist_self-Blacklists s.user patterns,
    rw (c, h)
        (elim (Bool-cases s.super) [
          | inl super ↦ rw (super, r) refl
          | inr user ↦ elim (Bool-cases (ltb s.server_version_num 160000)) [
            | inl old ↦ rw (user, old) refl
            | inr new ↦ rw (user, new, r) refl
          ]
        ]),
  )
  stage0_lem fuel server pc s after patterns (some x) c h r = (
    blacklist_self-Blacklists s.user patterns,
    rw (c, h)
        (elim (Bool-cases s.super) [
          | inl super ↦ rw (super, r) refl
          | inr user ↦ elim (Bool-cases (ltb s.server_version_num 160000)) [
            | inl old ↦ rw (user, old) refl
            | inr new ↦ rw (user, new, r) refl
          ]
        ]),
  )
