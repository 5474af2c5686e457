-- ===== src/Postgres/Connection/Single.antt =====
-- How many connections are open, and to which database.
use ldap2pg.Common.{String, ◌≡◌, refl, ap, sym, inl, inr, false, List, [], ◌∷◌, Option, none, some}
use ldap2pg.Common.{◌==◌, ==_eq, string_eq, Bool-cases, Option-cases, arith}
use ldap2pg.Postgres.Connection.{
  Event, opened, closed, Global, close_conn, asked, close_other, open_missing, get_conn, Call, get,
  close, calls,
}

abbrev drop_last : List String → List String
drop_last [] = []
drop_last (_ ∷ ds) = ds

-- The databases of the connections that are open behind the events.
abbrev pub live : List Event → List String
live [] = []
live (opened d ∷ es) = d ∷ live es
live (closed d ∷ es) = drop_last (live es)

abbrev pub held : Option String → List String
held none = []
held (some d) = d ∷ []

-- The connection held is the only one open.
abbrev pub IsSingle : Global → Type 0
IsSingle g = live g.events ≡ held g.conn

abbrev state : Option String → List Event → Global
state c es = record { conn = c; events = es }

close_conn-IsSingle :
    (c : Option String) (es : List Event)
    → IsSingle (state c es)
    → IsSingle (close_conn (state c es))
unfolding close_conn
close_conn-IsSingle none es h = h
close_conn-IsSingle (some d) es h = ap drop_last h

module _ (default_database : String) (connect : List Event → String → Option String) where
  -- What `GetConn` leaves: with no error, the connection to the database asked for, which is the one
  -- held before if that was to the same database; with an error, none.
  abbrev pub Gets : String → Global → Option String × Global → Type 0
  Gets d g (none, g') = (g'.conn ≡ some d) × (g.conn ≡ some d → g' ≡ g)
  Gets d g (some e, g') = g'.conn ≡ none

  open_missing-IsSingle :
      (d : String) (g : Global) (es : List Event)
      → live es ≡ []
      → (g.conn ≡ some d → ⊥)
      → IsSingle (open_missing default_database connect d (state none es)).1
        × Gets d g (open_missing default_database connect d (state none es))
  unfolding open_missing
  open_missing-IsSingle d g es h new = elim (Option-cases (connect es d)) [
    | inr (e, failed) ↦ rw (failed, open_missing) (h, refl)
    | inl fine ↦ rw (fine, open_missing) (ap (λ ds. d ∷ ds) h, (refl, λ p. absurd (new p)))
  ]

  get_conn-IsSingle :
      (name : String) (c : Option String) (es : List Event)
      → IsSingle (state c es)
      → IsSingle (get_conn default_database connect name (state c es)).1
        × Gets
            (asked default_database connect name)
            (state c es)
            (get_conn default_database connect name (state c es))
  unfolding get_conn close_other close_conn open_missing
  get_conn-IsSingle name none es h =
      open_missing-IsSingle (asked default_database connect name) (state none es) es h (λ p. cc p)
  get_conn-IsSingle name (some c) es h =
      let d = asked default_database connect name in
      elim (Bool-cases (d == c)) [
        | inl same ↦ rw same (h, (ap some (sym (==_eq d c same)), λ p. refl))
        | inr other ↦ rw other (
            open_missing-IsSingle d (state (some c) es) (closed c ∷ es) (ap drop_last h)
              (λ p. absurd (differ d c other p)))
      ]
    where
      differ : (d c : String) → (d == c) ≡ false → some c ≡ some d → ⊥
      differ d c other p = ground (arith, other)

  calls-IsSingle :
      (cs : List (Call default_database connect)) (g : Global)
      → IsSingle g
      → IsSingle (calls default_database connect cs g)
  unfolding calls
  calls-IsSingle [] g h = h
  calls-IsSingle (get name ∷ cs) g h =
      calls-IsSingle cs (get_conn default_database connect name g).1
        (get_conn-IsSingle name g.conn g.events h).0
  calls-IsSingle (close ∷ cs) g h =
      calls-IsSingle cs (close_conn g) (close_conn-IsSingle g.conn g.events h)

  -- Whatever `GetConn` and `CloseConn` are called for, in whatever order, and whichever attempts to
  -- connect fail: at no time is more than one connection open, and it is the one that the program
  -- holds. Of these calls, `GetConn` leaves with no error the connection to the database asked for,
  -- or to the default one where none is asked for, and opens nothing if that is held already; with
  -- an error it leaves none.
  pub get_conn-Gets :
      (cs : List (Call default_database connect))
      → (let g = calls default_database connect cs (record { conn = none; events = [] }) in
          IsSingle g
          × ((name : String)
              → Gets
                  (asked default_database connect name)
                  g
                  (get_conn default_database connect name g)))
  get_conn-Gets cs =
      let g = calls default_database connect cs (state none []) in
      let h = calls-IsSingle cs (state none []) refl in
      (h, λ name. (get_conn-IsSingle name g.conn g.events h).1)
