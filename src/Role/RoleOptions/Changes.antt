-- ===== src/Role/RoleOptions/Changes.antt =====
-- When `Options.Diff` has something to say.
use text.Mathlib.TextLemmas.{append-eq-nil_iff, cons-ne-nil}
use ldap2pg.Common.{String, ◌<>◌, ◌≡◌, ◌≢◌, ◌↔◌, refl, Bool, true, false, not, ◌&&◌, List, [], ◌∷◌}
use ldap2pg.Common.{string_eq, All, Bool-cases, inl, inr, arith}
use ldap2pg.Common.Int.{int_eq, decimal}
use ldap2pg.Role.RoleOptions.{
  Options, Value, bool, int, Field, visible_fields, Columns, is_column_enabled, write, option,
  bool_option, same_value, diff_loop, diff,
}

append-ne-nil : (s t : String) → s ≢ "" → s <> t ≢ ""
append-ne-nil s t h e = h ((append-eq-nil_iff {p = s} {q = t}).0 e).0

append-ne-nil_right : (s t : String) → t ≢ "" → s <> t ≢ ""
append-ne-nil_right s t h e = h ((append-eq-nil_iff {p = s} {q = t}).0 e).1

write-ne-nil : (b s : String) → s ≢ "" → write b s ≢ ""
write-ne-nil b s h = elim (string_eq.dec b "") [
  | yes e ↦ ground arith
  | no d ↦ let long : b <> " " <> s ≢ "" = append-ne-nil b (" " <> s) d in ground arith
]

same_value-eq : (v w : Value) → same_value v w ≡ true → v ≡ w
same_value-eq (bool true) (bool true) h = refl
same_value-eq (bool true) (bool false) h = cc
same_value-eq (bool false) (bool true) h = cc
same_value-eq (bool false) (bool false) h = refl
same_value-eq (int i) (int j) h = ground arith
same_value-eq (bool true) (int j) h = cc
same_value-eq (bool false) (int j) h = cc
same_value-eq (int i) (bool v) h = cc

same_value_refl : (v : Value) → same_value v v ≡ true
same_value_refl (bool true) = refl
same_value_refl (bool false) = refl
same_value_refl (int i) = ground arith

-- The options agree on the fields of the list whose columns are enabled.
abbrev pub Agree : Columns → Options → Options → List Field → Type 0
Agree c o wanted fs = All (λ f. is_column_enabled c f.column ≡ true → f.value o ≡ f.value wanted) fs

-- No option of the list is printed as the empty text.
abbrev Printed : List Field → Type 0
Printed fs = All (λ f. (o : Options) → option f o ≢ "") fs

bool-printed : (v : Bool) (keyword : String) → keyword ≢ "" → bool_option v keyword ≢ ""
bool-printed true keyword h = h
bool-printed false keyword h = append-ne-nil_right "NO" keyword h

visible-Printed : Printed visible_fields
visible-Printed = (
  λ o. bool-printed o.super "SUPERUSER" (cons-ne-nil _ _),
  (
    λ o. bool-printed o.create_db "CREATEDB" (cons-ne-nil _ _),
    (
      λ o. bool-printed o.create_role "CREATEROLE" (cons-ne-nil _ _),
      (
        λ o. bool-printed o.inherit "INHERIT" (cons-ne-nil _ _),
        (
          λ o. bool-printed o.can_login "LOGIN" (cons-ne-nil _ _),
          (
            λ o. bool-printed o.replication "REPLICATION" (cons-ne-nil _ _),
            (
              λ o. bool-printed o.by_pass_rls "BYPASSRLS" (cons-ne-nil _ _),
              (
                λ o.
                    append-ne-nil "CONNECTION LIMIT" (" " <> decimal o.conn_limit)
                      (cons-ne-nil _ _),
                tt,
              ),
            ),
          ),
        ),
      ),
    ),
  ),
)

module _ (c : Columns) (o wanted : Options) where
  diff_loop-ne-nil :
      (fs : List Field) (b : String) → Printed fs → b ≢ "" → diff_loop c o wanted fs b ≢ ""
  unfolding diff_loop
  diff_loop-ne-nil [] b p h = h
  diff_loop-ne-nil (f ∷ fs) b p h =
      elim (Bool-cases
        (is_column_enabled c f.column && not (same_value (f.value o) (f.value wanted)))) [
          | inl e ↦ rw e (diff_loop-ne-nil fs _ p.1 (write-ne-nil b (option f wanted) (p.0 wanted)))
          | inr e ↦ rw e (diff_loop-ne-nil fs b p.1 h)
        ]

  unchanged_agrees :
      (f : Field)
      → (is_column_enabled c f.column && not (same_value (f.value o) (f.value wanted))) ≡ false
      → is_column_enabled c f.column ≡ true
      → f.value o ≡ f.value wanted
  unchanged_agrees f e on = same_value-eq (f.value o) (f.value wanted) (ground arith)

  diff_loop-Agree :
      (fs : List Field) → Printed fs → diff_loop c o wanted fs "" ≡ "" → Agree c o wanted fs
  unfolding diff_loop
  diff_loop-Agree [] p h = tt
  diff_loop-Agree (f ∷ fs) p h =
      elim (Bool-cases
        (is_column_enabled c f.column && not (same_value (f.value o) (f.value wanted)))) [
          | inl e ↦ absurd (
              diff_loop-ne-nil fs _ p.1 (write-ne-nil "" (option f wanted) (p.0 wanted))
                (rw e at h))
          | inr e ↦ (unchanged_agrees f e, diff_loop-Agree fs p.1 (rw e at h))
        ]

  Agree-diff_loop : (fs : List Field) → Agree c o wanted fs → diff_loop c o wanted fs "" ≡ ""
  unfolding diff_loop
  Agree-diff_loop [] h = refl
  Agree-diff_loop (f ∷ fs) h = elim (Bool-cases (is_column_enabled c f.column)) [
    | inl on ↦ rw (on, h.0 on, same_value_refl) (Agree-diff_loop fs h.1)
    | inr off ↦ rw off (Agree-diff_loop fs h.1)
  ]

  -- The text of the changes is empty exactly when the options agree in every column that the
  -- instance has enabled.
  pub diff-eq-nil_iff : (diff c o wanted ≡ "") ↔ Agree c o wanted visible_fields
  unfolding diff
  diff-eq-nil_iff = (diff_loop-Agree visible_fields visible-Printed, Agree-diff_loop visible_fields)
