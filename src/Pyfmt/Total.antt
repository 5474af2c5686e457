-- ===== src/Pyfmt/Total.antt =====
-- How the loop of `Parse` ends, and what it makes of texts without fields.
use Prim.Native.String.{count}
use text.Mathlib.TextLemmas.{length-cons, append-nil}
use Prim.Native.Char.{code}
use ldap2pg.Common.{
  ◌<>◌, ℕ, zero, suc, ◌≤◌, ◌<◌, String, ◌≡◌, ◌≢◌, refl, ap, inl, inr, Bool, true, false, not, [],
  ◌∷◌, Option, none, some, ◌>>=◌,
}
use ldap2pg.Common.{◌==◌, string_eq, nat_eq, if◌then◌else◌, arith, Bool-cases}
use ldap2pg.Common.Dict.{Dict}
use ldap2pg.Common.Text.{cut, replace_all}
use ldap2pg.Pyfmt.{
  Field, field, panicked, is_static, render, Parsed, parse_field, escaped, add_literal, parse_loop,
  parse, Format, format, Ending, parsed, literal,
}

count_after :
    (c : Prim.Native.Char.Char) (s : String) (sep : ℕ)
    → (let (before, after, found) = cut (String.◌∷◌ c s) sep in count after ≤ count s)
unfolding cut
count_after c s sep = elim (Bool-cases (code c == sep)) [
  | inl hit ↦ rw hit (omega arith)
  | inr miss ↦ rw miss (behind s)
]
  where
    behind : (t : String) → (let (before, after, found) = cut t sep in count after ≤ count t)
    behind String.[] = omega arith
    behind (String.◌∷◌ d t) =
        let rest : (let (before, after, found) = cut t sep in count after ≤ count t) = behind t in
        elim (Bool-cases (code d == sep)) [
          | inl hit ↦ rw hit (omega (arith, length-cons d t))
          | inr miss ↦ rw miss (omega (arith, rest, length-cons d t))
        ]

count_escaped : (s : String) → count (escaped s).1 ≤ count s
count_escaped String.[] = omega arith
count_escaped (String.◌∷◌ c s) = elim (Bool-cases (code c == b'{')) [
  | inl hit ↦ rw hit (omega (arith, length-cons c s))
  | inr miss ↦ rw miss (omega arith)
]

abbrev Ends {ℓ} : {A : Type ℓ} → Option A → Type ℓ
Ends {A = A} o = (a : A) × (o ≡ some a)

Ends-bind {ℓ κ} :
    {A : Type ℓ} {B : Type κ} (o : Option A) (f : A → B) → Ends o → Ends (o >>= λ a. some (f a))
Ends-bind o f (a, e) = (f a, rw e refl)

Ends-if {ℓ} : {A : Type ℓ} (b : Bool) (x y : Option A) → Ends x → Ends y → Ends (if b then x else y)
Ends-if true x y h k = h
Ends-if false x y h k = k

Ends-parse_field :
    (o : Option Field) (p : Option Parsed)
    → Ends p
    → Ends {A = Parsed} (elim o [
      | none ↦ some ([], panicked)
      | some f ↦ p >>= λ (sections, ending). some (field f ∷ sections, ending)
    ])
Ends-parse_field none p h = (([], panicked), refl)
Ends-parse_field (some f) p (a, e) = ((field f ∷ a.0, a.1), rw e refl)

parse_loop_total :
    (fuel : ℕ) (in_field : Bool) (s : String) → count s < fuel → Ends (parse_loop fuel in_field s)
unfolding parse_loop
parse_loop_total zero in_field s h = absurd (omega arith)
parse_loop_total (suc fuel) in_field String.[] h = (_, refl)
parse_loop_total (suc fuel) true (String.◌∷◌ c s) h =
    let close = cut (String.◌∷◌ c s) b'}' in
    let left : count close.1 < fuel = omega (arith, count_after c s b'}', length-cons c s) in
    Ends-if close.2 _ _
      (Ends-parse_field (parse_field close.0) _ (parse_loop_total fuel false close.1 left))
      (_, refl)
parse_loop_total (suc fuel) false (String.◌∷◌ c s) h =
    let brace = cut (String.◌∷◌ c s) b'{' in
    let next = escaped brace.1 in
    let left : count next.1 < fuel =
      omega (arith, count_after c s b'{', count_escaped brace.1, length-cons c s) in
    Ends-if brace.2 _ _
      (Ends-bind (parse_loop fuel (not next.0) next.1)
        (add_literal (if next.0 then brace.0 <> "{" else brace.0))
        (parse_loop_total fuel (not next.0) next.1 left))
      (_, refl)

-- `Parse` ends on every text: fuel above its length is enough, and the format keeps the text.
pub parse_total :
    (fuel : ℕ) (s : String)
    → count s < fuel
    → (f : Format) × (ending : Ending) × (parse fuel s ≡ some (f, ending)) × (f.input ≡ s)
unfolding parse
parse_total fuel s h =
    let (p, e) = parse_loop_total fuel false s h in
    (record { input = s; sections = p.0 }, p.1, rw e refl, refl)

-- A text that is not empty and has no brace `{` is parsed without an error into a static format.
-- Rendered without values it is the text as it stands; rendered with values every `}}` is one `}`.
pub parse_plain :
    (lower upper : String → String) (fuel : ℕ) (s : String)
    → s ≢ ""
    → (let (before, after, found) = cut s b'{' in found ≡ false)
    → 0 < fuel
    → (f : Format) × (parse fuel s ≡ some (f, parsed))
      × (format lower upper f none ≡ some s)
      × ((values : Dict String)
          → format lower upper f (some values) ≡ some (replace_all s "}}" "}"))
unfolding parse parse_loop format is_static render
parse_plain lower upper zero s filled closed enough = absurd (omega arith)
parse_plain lower upper (suc fuel) String.[] filled closed enough = absurd (filled refl)
parse_plain lower upper (suc fuel) (String.◌∷◌ c s) filled closed enough = (
  record {
    input = String.◌∷◌ c s;
    sections = literal (replace_all (String.◌∷◌ c s) "}}" "}") ∷ [];
  },
  rw closed (rw (differs filled) refl),
  refl,
  λ values. ap some (append-nil (replace_all (String.◌∷◌ c s) "}}" "}")),
)
  where
    differs : (String.◌∷◌ c s) ≢ "" → (String.◌∷◌ c s == "") ≡ false
    differs n = ground arith
