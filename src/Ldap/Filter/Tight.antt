-- ===== src/Ldap/Filter/Tight.antt =====
-- What a cleaned filter looks like.
use Prim.Native.Char.{Char, code}
use ldap2pg.Common.{String, ◌≡◌, refl, ◌∙◌, inl, inr, Bool, true, false, ◌&&◌}
use ldap2pg.Common.{◌==◌, nat_eq, arith, Bool-cases}
use ldap2pg.Common.Text.{replace_all}
use ldap2pg.Ldap.Filter.{is_space, opens, strip_before, strip_after, clean_filter}
use Prim.Native.String

-- No blank stands before a parenthesis that opens, at any distance of blanks.
abbrev pub TightBefore : String → Type 0
TightBefore String.String.[] = Unit
TightBefore (String.String.◌∷◌ c s) = ((is_space (code c) && opens s) ≡ false) × TightBefore s

-- No blank stands behind a parenthesis that closes; the flag is about the text before.
abbrev pub TightAfter : Bool → String → Type 0
TightAfter closed String.String.[] = Unit
TightAfter closed (String.String.◌∷◌ c s) =
    ((closed && is_space (code c)) ≡ false) × TightAfter (code c == b')') s

opens-strip_before : (s : String) → opens (strip_before s) ≡ opens s
unfolding opens strip_before
opens-strip_before String.String.[] = refl
opens-strip_before (String.String.◌∷◌ c s) = elim (Bool-cases (is_space (code c) && opens s)) [
  | inl drop ↦ rw drop (ground (arith, opens-strip_before s))
  | inr stay ↦ rw stay (ground (arith, opens-strip_before s))
]

strip_before-TightBefore : (s : String) → TightBefore (strip_before s)
unfolding strip_before
strip_before-TightBefore String.String.[] = tt
strip_before-TightBefore (String.String.◌∷◌ c s) =
    elim (Bool-cases (is_space (code c) && opens s)) [
      | inl drop ↦ rw drop (strip_before-TightBefore s)
      | inr stay ↦ rw stay (rw (opens-strip_before s) stay, strip_before-TightBefore s)
    ]

strip_after-TightAfter : (closed : Bool) (s : String) → TightAfter closed (strip_after closed s)
unfolding strip_after
strip_after-TightAfter closed String.String.[] = tt
strip_after-TightAfter closed (String.String.◌∷◌ c s) =
    elim (Bool-cases (closed && is_space (code c))) [
      | inl drop ↦ rw drop (weaker closed (strip_after true s) (strip_after-TightAfter true s))
      | inr stay ↦ rw stay (stay, strip_after-TightAfter (code c == b')') s)
    ]
  where
    weaker : (b : Bool) (t : String) → TightAfter true t → TightAfter b t
    weaker b String.String.[] h = tt
    weaker true (String.String.◌∷◌ c t) h = h
    weaker false (String.String.◌∷◌ c t) h = (refl, h.1)

opens-strip_after : (s : String) → opens (strip_after false s) ≡ opens s
unfolding opens strip_after nat_eq
opens-strip_after String.String.[] = refl
opens-strip_after (String.String.◌∷◌ c s) = elim (Bool-cases (is_space (code c))) [
  | inl blank ↦
      let no_close : (code c == b')') ≡ false = ground arith in
      rw (no_close, blank) (rw (opens-strip_after s) refl)
  | inr solid ↦ rw solid refl
]

kept_blank :
    (c : Char) (s : String)
    → (is_space (code c) && opens s) ≡ false
    → (is_space (code c) && opens (strip_after (code c == b')') s)) ≡ false
unfolding nat_eq
kept_blank c s h = elim (Bool-cases (is_space (code c))) [
  | inl blank ↦
      let no_close : (code c == b')') ≡ false = ground arith in
      let shut : opens s ≡ false = rw blank at h in
      rw (no_close, blank) (opens-strip_after s ∙ shut)
  | inr solid ↦ rw solid refl
]

strip_after-TightBefore :
    (closed : Bool) (s : String) → TightBefore s → TightBefore (strip_after closed s)
unfolding strip_after
strip_after-TightBefore closed String.String.[] h = tt
strip_after-TightBefore closed (String.String.◌∷◌ c s) h =
    elim (Bool-cases (closed && is_space (code c))) [
      | inl drop ↦ rw drop (strip_after-TightBefore true s h.1)
      | inr stay ↦ rw stay (kept_blank c s h.0, strip_after-TightBefore (code c == b')') s h.1)
    ]

-- Whatever the filter, what `CleanFilter` leaves has no blank before a parenthesis that opens, nor
-- blanks in a run before one, and no blank behind a parenthesis that closes.
pub clean_filter-Tight :
    (filter : String) → TightBefore (clean_filter filter) × TightAfter false (clean_filter filter)
unfolding clean_filter
clean_filter-Tight filter =
    let s = strip_before (replace_all filter "\\n" "") in
    (
      strip_after-TightBefore false s (strip_before-TightBefore (replace_all filter "\\n" "")),
      strip_after-TightAfter false s,
    )
