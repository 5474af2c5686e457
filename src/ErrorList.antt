-- ===== src/ErrorList.antt =====
-- internal/errorlist/errorlist.go. An error is a text, a wrapped error, or joined errors; the mutex
-- only orders the calls, which are steps here.
use ldap2pg.Common.{ℕ, suc, String, ◌≡◌, refl, Bool, true, List, [], ◌∷◌, ◌++◌, Option, none, some}
use ldap2pg.Common.{ltb, length, length-append, arith}

mutual
  pub data Error : Type 0 where
    message : String → Error
    wrap : String → Error → Error
    join : Errors → Error

  pub data Errors : Type 0 where
    nil : Errors
    cons : Error → Errors → Errors

abbrev pub max_errors : ℕ
max_errors = 8

pub record ErrorList : Type 0 where
  pub message : String
  pub errors : List Error

abbrev pub new : String → ErrorList
new m = record { message = m; errors = [] }

abbrev pub error_count : ErrorList → ℕ
error_count l = length l.errors

abbrev pub unwrap : Errors → List Error
unwrap nil = []
unwrap (cons e es) = e ∷ unwrap es

abbrev pub rewrap : List Error → Errors
rewrap [] = nil
rewrap (e ∷ es) = cons e (rewrap es)

-- `errors.AsType[joinUnwrapper]` looks along the chain of `Unwrap`.
unfoldable pub joined : Error → Option (List Error)
joined (message m) = none
joined (wrap m e) = joined e
joined (join es) = some (unwrap es)

-- `Append`: the list, and whether it can hold more. A nil error is `none`.
unfoldable pub append : ErrorList → Option Error → ErrorList × Bool
unfolding joined
append l none = (l, true)
append l (some e) =
    let l' = record l { errors = l.errors ++ elim (joined e) [ none ↦ e ∷ [] | some es ↦ es ] } in
    (l', ltb (error_count l') max_errors)

-- `Value`
unfoldable pub value : ErrorList → Option Error
value l = elim l.errors [
  | [] ↦ none
  | e ∷ [] ↦ some (wrap l.message e)
  | e ∷ f ∷ es ↦ some (join (cons (message l.message) (rewrap (e ∷ f ∷ es))))
]

-- An error that joins no others, however deep it is wrapped.
abbrev pub IsSingle : Error → Type 0
IsSingle e = joined e ≡ none

pub append_single :
    (l : ErrorList) (e : Error)
    → IsSingle e
    → append l (some e)
      ≡ (record l { errors = l.errors ++ e ∷ [] }, ltb (suc (error_count l)) max_errors)
unfolding append
append_single l e h = rw (h, longer) refl
  where
    longer : length (l.errors ++ e ∷ []) ≡ suc (error_count l)
    longer = omega (arith, length-append l.errors (e ∷ []))
