-- ===== src/Storage/Laws.antt =====
-- A load after a write, for every pair of keys.
use demurrage_token.Base.{
  ◌≡◌, ◌≢◌, refl, none, some, [], ◌∷◌, Eq, ◌=?◌, arith, if◌then◌else◌, Bool-cases, inl, inr, true,
  false,
}
use demurrage_token.Storage.{Map, may_load, save, remove}

module _ {ℓ} {K : Type ℓ} ⦃e : Eq K⦄ where
  pub =?_refl : (k : K) → (k =? k) ≡ true
  =?_refl k = (e.beq_iff k k).1 refl

  pub =?_ne : (k j : K) → k ≢ j → (k =? j) ≡ false
  =?_ne k j h = elim (Bool-cases (k =? j)) [
    | inl same ↦ absurd (h ((e.beq_iff k j).0 same))
    | inr other ↦ other
  ]

module _ {ℓ κ} {K : Type ℓ} {V : Type κ} ⦃e : Eq K⦄ where
  pub may_load-save :
      (k j : K) (v : V) (m : Map K V)
      → may_load j (save k v m) ≡ (if k =? j then some v else may_load j m)
  unfolding may_load save
  may_load-save k j v [] = refl
  may_load-save k j v ((i, w) ∷ m) =
      ground (arith, e.beq_iff k j, e.beq_iff i k, e.beq_iff i j, may_load-save k j v m)

  pub may_load-remove :
      (k j : K) (m : Map K V) → may_load j (remove k m) ≡ (if k =? j then none else may_load j m)
  unfolding may_load remove
  may_load-remove k j [] = ground arith
  may_load-remove k j ((i, w) ∷ m) =
      ground (arith, e.beq_iff k j, e.beq_iff i k, e.beq_iff i j, may_load-remove k j m)
