-- ===== src/Ordered/Dedup.antt =====
-- `dedup` on a sorted list leaves a sorted list of distinct members.
use demurrage_token.Base.{
  bytes_eq, bytes_iff, ◌≡◌, ◌≢◌, refl, ◌=?◌, Bool-cases, inl, inr, true, Bytes, List, [], ◌∷◌, All,
}
use demurrage_token.Ordered.{bytes_leb, dedup}
use demurrage_token.Ordered.Laws.{IsSorted, Distinct, fresh_of_ne}

-- The first member stays the first.
pub dedup-head : (x : Bytes) (r : List Bytes) → (t : List Bytes) × (dedup (x ∷ r) ≡ x ∷ t)
unfolding dedup
dedup-head x [] = ([], refl)
dedup-head x (y ∷ r) = elim (Bool-cases (x =? y)) [
  | inl same ↦
      let (t, e) = dedup-head y r in let k : x ≡ y = (bytes_iff x y).0 same in (t, rw same (rw k e))
  | inr other ↦ (dedup (y ∷ r), rw other refl)
]

pub All-dedup : (P : Bytes → Type 0) (r : List Bytes) → All P r → All P (dedup r)
unfolding dedup
All-dedup P [] h = tt
All-dedup P (x ∷ []) h = h
All-dedup P (x ∷ y ∷ r) h = elim (Bool-cases (x =? y)) [
  | inl same ↦ rw same (All-dedup P (y ∷ r) h.1)
  | inr other ↦ rw other (h.0, All-dedup P (y ∷ r) h.1)
]

pub dedup-IsSorted : (r : List Bytes) → IsSorted r → IsSorted (dedup r)
unfolding dedup
dedup-IsSorted [] h = tt
dedup-IsSorted (x ∷ []) h = h
dedup-IsSorted (x ∷ y ∷ r) h = elim (Bool-cases (x =? y)) [
  | inl same ↦ rw same (dedup-IsSorted (y ∷ r) h.1)
  | inr other ↦
      rw other (All-dedup (λ z. bytes_leb x z ≡ true) (y ∷ r) h.0, dedup-IsSorted (y ∷ r) h.1)
]

pub dedup-Distinct : (r : List Bytes) → IsSorted r → Distinct (dedup r)
unfolding dedup
dedup-Distinct [] h = tt
dedup-Distinct (x ∷ []) h = (tt, tt)
dedup-Distinct (x ∷ y ∷ r) h = elim (Bool-cases (x =? y)) [
  | inl same ↦ rw same (dedup-Distinct (y ∷ r) h.1)
  | inr other ↦
      let ne : x ≢ y = λ e. cc (other, (bytes_iff x y).1 e) in
      rw other (
        All-dedup (λ z. x ≢ z) (y ∷ r) (ne, fresh_of_ne x y r ne h.0.0 h.1.0),
        dedup-Distinct (y ∷ r) h.1,
      )
]
