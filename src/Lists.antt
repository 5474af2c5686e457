-- ===== src/Lists.antt =====
-- internal/lists: the cartesian product, filters, and the blacklist (product.go, bool.go,
-- blacklist.go).
pub mod Product
pub mod Blacklist
use ldap2pg.Common.{Bool, true, false, List, [], ◌∷◌, if◌then◌else◌}

-- `And`
unfoldable pub every {ℓ} : {A : Type ℓ} → List A → (A → Bool) → Bool
every [] fn = true
every (i ∷ s) fn = let rest = every s fn in if fn i then rest else false

-- `Filter`
unfoldable pub filter {ℓ} : {A : Type ℓ} → List A → (A → Bool) → List A
filter [] fn = []
filter (i ∷ s) fn = let rest = filter s fn in if fn i then i ∷ rest else rest
