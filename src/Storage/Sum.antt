-- ===== src/Storage/Sum.antt =====
-- The sum of a map's numbers, under a write.
use demurrage_token.Base.{ℕ, ◌+◌, ◌≤◌, ◌≡◌, Option, none, some, [], ◌∷◌, Eq, arith}
use demurrage_token.Storage.{Map, may_load, save}

-- `unwrap_or_default` at a number.
abbrev pub unwrap_or_zero : Option ℕ → ℕ
unwrap_or_zero none = 0
unwrap_or_zero (some n) = n

abbrev pub total {ℓ} : {K : Type ℓ} → Map K ℕ → ℕ
total [] = 0
total ((k, v) ∷ m) = v + total m

module _ {ℓ} {K : Type ℓ} ⦃e : Eq K⦄ where
  pub total-save :
      (k : K) (v : ℕ) (m : Map K ℕ)
      → total (save k v m) + unwrap_or_zero (may_load k m) ≡ total m + v
  unfolding may_load save
  total-save k v [] = omega arith
  total-save k v ((j, w) ∷ m) = ground (arith, total-save k v m)

  pub value-le-total : (k : K) (m : Map K ℕ) → unwrap_or_zero (may_load k m) ≤ total m
  unfolding may_load
  value-le-total k [] = omega arith
  value-le-total k ((j, w) ∷ m) = ground (arith, value-le-total k m)
