-- ===== src/Ldap/Command/Quoted.antt =====
-- What a shell reads of a quoted argument, and which scopes there are.
use Prim.Native.Char.{Char, code}
use Prim.Native.String
use ldap2pg.Common.{
  String, ◌<>◌, ◌≡◌, refl, sym, ◌∙◌, ap, inl, inr, Bool, true, false, not, ◌&&◌, ◌||◌, List, [],
  ◌∷◌,
}
use ldap2pg.Common.{
  Option, none, some, ◌==◌, string_eq, nat_eq, if◌then◌else◌, contains, All, arith, Bool-cases,
  ==_eq,
}
use ldap2pg.Common.Text.{split_char}
use ldap2pg.Ldap.Command.Shell.{bare, single, push, prefix, metacharacters, word, meta_from}
use ldap2pg.Ldap.Command.{special_from, needs_quote, quote_part, quote_parts, shell_quote}
use text.Mathlib.TextEquality.{Char-path}
use text.Mathlib.TextLemmas.{nil-append, cons-append, append_assoc}

-- A text without metacharacters, or with one of the characters for which it is quoted.
abbrev pub is_safe : String → Bool
is_safe s = special_from s || not (meta_from s)

-- No single quote in the text.
abbrev NoQuote : String → Type 0
NoQuote String.String.[] = Unit
NoQuote (String.String.◌∷◌ c s) = ((code c == 39) ≡ false) × NoQuote s

push-prefix :
    (c : Char) (s : String) (o : Option String)
    → push c (prefix s o) ≡ prefix (String.String.◌∷◌ c s) o
push-prefix c s none = refl
push-prefix c s (some t) = ap some (sym (cons-append c s t))

prefix_nothing : (o : Option String) → prefix "" o ≡ o
prefix_nothing none = refl
prefix_nothing (some t) = ap some (nil-append t)

-- A text up to a single quote, between single quotes.
word-single : (p t : String) → NoQuote p → word single (p <> ("'" <> t)) ≡ prefix p (word bare t)
unfolding word
word-single String.String.[] t h =
    rw (nil-append ("'" <> t))
      (rw (cons-append "'" "" t) (rw (nil-append t) (sym (prefix_nothing (word bare t)))))
word-single (String.String.◌∷◌ c p) t h =
    rw (cons-append c p ("'" <> t))
      (rw h.0 (rw (word-single p t h.1) (push-prefix c p (word bare t))))

-- A text with nothing special in it, which stands outside quotes.
word-bare :
    (p t : String)
    → NoQuote p
    → special_from p ≡ false
    → word bare (p <> t) ≡ (if meta_from p then none else prefix p (word bare t))
unfolding word nat_eq
word-bare String.String.[] t h e = rw (nil-append t) (sym (prefix_nothing (word bare t)))
word-bare (String.String.◌∷◌ c p) t h e =
    let rest : special_from p ≡ false = ground arith in
    let no_double : (code c == 34) ≡ false = ground arith in
    rw (cons-append c p t) (elim (Bool-cases (contains metacharacters (code c))) [
      | inl meta ↦ rw (h.0, no_double, meta) refl
      | inr plain ↦
          rw (h.0, no_double, plain)
            (ap (push c) (word-bare p t h.1 rest) ∙ pushed c p (meta_from p) (word bare t))
    ])
  where
    pushed :
        (c : Char) (p : String) (b : Bool) (o : Option String)
        → push c (if b then none else prefix p o)
          ≡ (if b then none else prefix (String.String.◌∷◌ c p) o)
    pushed c p true o = refl
    pushed c p false o = push-prefix c p o

-- The text that the parts but the first stand for, each with its single quote.
tail : List String → String
tail [] = ""
tail (p ∷ ps) = "'" <> (p <> tail ps)

-- The text that the parts stand for.
abbrev whole : List String → String
whole [] = ""
whole (p ∷ ps) = p <> tail ps

-- There is a first part, and no part holds a single quote.
abbrev Parts : List String → Type 0
Parts [] = ⊥
Parts (p ∷ ps) = NoQuote p × All NoQuote ps

-- One step of the split.
abbrev split_step : Char → List String → List String
split_step c [] = []
split_step c (part ∷ parts) =
    if code c == 39 then "" ∷ (part ∷ parts) else String.String.◌∷◌ c part ∷ parts

split_step-Parts :
    (c : Char) (s : String) (parts : List String)
    → Parts parts
    → whole parts ≡ s
    → Parts (split_step c parts) × (whole (split_step c parts) ≡ String.String.◌∷◌ c s)
unfolding tail
split_step-Parts c s [] h e = absurd h
split_step-Parts c s (part ∷ more) h e = elim (Bool-cases (code c == 39)) [
  | inl quote ↦
      let same : "'" ≡ String.String.◌∷◌ c "" =
        ap (λ x. String.String.◌∷◌ x "") (Char-path "'" c (sym (==_eq (code c) 39 quote))) in
      rw quote (
        (tt, h),
        nil-append _
            ∙ (ap (λ q. q <> (part <> tail more)) same
                ∙ (cons-append c "" (part <> tail more)
                    ∙ ap (String.String.◌∷◌ c) (nil-append (part <> tail more) ∙ e))),
      )
  | inr other ↦
      rw other (((other, h.0), h.1), cons-append c part (tail more) ∙ ap (String.String.◌∷◌ c) e)
]

split_char-Parts : (s : String) → Parts (split_char 39 s) × (whole (split_char 39 s) ≡ s)
unfolding split_char tail
split_char-Parts String.String.[] = ((tt, tt), nil-append "")
split_char-Parts (String.String.◌∷◌ c s) =
    let (h, e) = split_char-Parts s in split_step-Parts c s (split_char 39 s) h e

quote_first : (t : String) → "'" <> t ≡ String.String.◌∷◌ "'" t
quote_first t = cons-append "'" "" t ∙ ap (String.String.◌∷◌ "'") (nil-append t)

quoted_quote : (t : String) → word bare ("\"'\"" <> t) ≡ push "'" (word bare t)
unfolding word nat_eq
quoted_quote t =
    rw (cons-append "\"" "'\"" t)
      (rw (cons-append "'" "\"" t) (rw (cons-append "\"" "" t) (rw (nil-append t) refl)))

word-quote_part :
    (p t : String)
    → NoQuote p
    → word bare (quote_part p <> t) ≡ (if is_safe p then prefix p (word bare t) else none)
unfolding quote_part needs_quote word nat_eq
word-quote_part String.String.[] t h = rw (nil-append t) (sym (prefix_nothing (word bare t)))
word-quote_part (String.String.◌∷◌ c p) t h =
    elim (Bool-cases (special_from (String.String.◌∷◌ c p))) [
      | inl special ↦
          let part = String.String.◌∷◌ c p in
          rw special (
            rw (append_assoc "'" (part <> "'") t) (
              rw (append_assoc part "'" t)
                (ap (word bare) (quote_first (part <> ("'" <> t))) ∙ word-single part t h)))
      | inr plain ↦ rw plain (
          word-bare (String.String.◌∷◌ c p) t h plain
          ∙ turned (meta_from (String.String.◌∷◌ c p))
              (prefix (String.String.◌∷◌ c p) (word bare t)))
    ]
  where
    turned : (b : Bool) (o : Option String) → (if b then none else o) ≡ (if not b then o else none)
    turned true o = refl
    turned false o = refl

abbrev pub all_safe : List String → Bool
all_safe [] = true
all_safe (p ∷ ps) = is_safe p && all_safe ps

-- An argument of which every part between its single quotes is safe.
abbrev pub is_covered : String → Bool
is_covered arg = all_safe (split_char 39 arg)

both :
    (a b : Bool) (o : Option String)
    → (if a then (if b then o else none) else none) ≡ (if a && b then o else none)
both true b o = refl
both false b o = refl

push-if :
    (b : Bool) (c : Char) (o : Option String)
    → push c (if b then o else none) ≡ (if b then push c o else none)
push-if true c o = refl
push-if false c o = refl

prefix-if :
    (b : Bool) (p : String) (o : Option String)
    → prefix p (if b then o else none) ≡ (if b then prefix p o else none)
prefix-if true p o = refl
prefix-if false p o = refl

word-part :
    (p t rest : String) (b : Bool)
    → NoQuote p
    → word bare t ≡ (if b then some rest else none)
    → word bare (quote_part p <> t) ≡ (if is_safe p && b then some (p <> rest) else none)
word-part p t rest b h e =
    word-quote_part p t h
    ∙ ap (λ o. if is_safe p then prefix p o else none) e
    ∙ ap (λ o. if is_safe p then o else none) (prefix-if b p (some rest))
    ∙ both (is_safe p) b (some (p <> rest))

word-quote_parts :
    (ps : List String)
    → All NoQuote ps
    → word bare (quote_parts ps) ≡ (if all_safe ps then some (tail ps) else none)
unfolding quote_parts tail word
word-quote_parts [] h = refl
word-quote_parts (p ∷ ps) h =
    quoted_quote (quote_part p <> quote_parts ps)
    ∙ ap (push "'")
        (word-part p (quote_parts ps) (tail ps) (all_safe ps) h.0 (word-quote_parts ps h.1))
    ∙ push-if (is_safe p && all_safe ps) "'" (some (p <> tail ps))
    ∙ ap (λ x. if is_safe p && all_safe ps then some x else none) (sym (quote_first (p <> tail ps)))

word-whole :
    (parts : List String)
    → Parts parts
    → (arg : String) → whole parts ≡ arg
    → word bare (elim parts [ [] ↦ "" | p ∷ ps ↦ quote_part p <> quote_parts ps ])
      ≡ (if all_safe parts then some arg else none)
word-whole [] h arg e = absurd h
word-whole (p ∷ ps) h arg e =
    word-part p (quote_parts ps) (tail ps) (all_safe ps) h.0 (word-quote_parts ps h.1)
    ∙ ap (λ x. if is_safe p && all_safe ps then some x else none) e

pub word-shell_quote :
    (arg : String) → word bare (shell_quote arg) ≡ (if is_covered arg then some arg else none)
unfolding shell_quote word nat_eq split_char
word-shell_quote String.String.[] = refl
word-shell_quote (String.String.◌∷◌ c s) =
    let (h, e) = split_char-Parts (String.String.◌∷◌ c s) in
    word-whole (split_char 39 (String.String.◌∷◌ c s)) h (String.String.◌∷◌ c s) e
