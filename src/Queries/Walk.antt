-- ===== src/Queries/Walk.antt =====
-- A client of src/enumerable.rs that asks for page after page, each from the last key of the one
-- before, until a page is empty; over any server of such pages.
use demurrage_token.Base.{
  ℕ, zero, suc, ◌≤◌, ◌<◌, ◌≡◌, ◌≢◌, refl, sym, ◌∙◌, ap, arith, true, false, Bool-cases, inl, inr,
  Option, some, none, Bytes, List, [], ◌∷◌, ◌++◌, append_assoc, All, length, take, drop,
}
use demurrage_token.Ordered.{bytes_leb, bytes_ltb, sort_by}
use demurrage_token.Ordered.Laws.{
  IsSorted, Distinct, bytes_leb_refl, bytes_leb_total, bytes_leb_antisym, sort_by-IsSorted,
  sort_by-Distinct, length-sort_by,
}
use demurrage_token.Queries.{after_start, keep_after}

-- The last of a list that is not empty.
abbrev pub last : Bytes → List Bytes → Bytes
last x [] = x
last x (y ∷ r) = last y r

-- An empty page ends the walk.
abbrev pub continue_after : List Bytes → (Bytes → List Bytes) → List Bytes
continue_after [] more = []
continue_after (k ∷ r) more = (k ∷ r) ++ more (last k r)

-- At most `fuel` pages of what `ask` answers.
unfoldable pub walk : ℕ → (Option Bytes → List Bytes) → Option Bytes → List Bytes
walk zero ask start = []
walk (suc fuel) ask start = continue_after (ask start) (λ k. walk fuel ask (some k))

-- Sorted with no member twice.
abbrev pub Increasing : List Bytes → Type 0
Increasing [] = Unit
Increasing (x ∷ r) = All (λ y. bytes_ltb x y ≡ true) r × Increasing r

abbrev keep : Bytes → List Bytes → List Bytes
keep k = keep_after (λ a. a) (some k)

bytes_ltb_of_ne : (a b : Bytes) → bytes_leb a b ≡ true → a ≢ b → bytes_ltb a b ≡ true
unfolding bytes_ltb
bytes_ltb_of_ne a b le ne = elim (Bool-cases (bytes_leb b a)) [
  | inl ge ↦ absurd (ne (bytes_leb_antisym a b le ge))
  | inr lt ↦ rw lt refl
]

bytes_ltb_asym : (a b : Bytes) → bytes_ltb a b ≡ true → bytes_ltb b a ≡ false
unfolding bytes_ltb
bytes_ltb_asym a b lt = ground (arith, bytes_leb_total b a)

bytes_ltb_irrefl : (a : Bytes) → bytes_ltb a a ≡ false
unfolding bytes_ltb
bytes_ltb_irrefl a = rw (bytes_leb_refl a) refl

All-ltb :
    (x : Bytes) (r : List Bytes)
    → All (λ y. bytes_leb x y ≡ true) r
    → All (λ y. x ≢ y) r
    → All (λ y. bytes_ltb x y ≡ true) r
All-ltb x [] le ne = tt
All-ltb x (y ∷ r) le ne = (bytes_ltb_of_ne x y le.0 ne.0, All-ltb x r le.1 ne.1)

Increasing-of_sorted : (r : List Bytes) → IsSorted r → Distinct r → Increasing r
Increasing-of_sorted [] s d = tt
Increasing-of_sorted (x ∷ r) s d = (All-ltb x r s.0 d.0, Increasing-of_sorted r s.1 d.1)

-- What lies behind the bound is kept whole, and what does not is dropped.
keep_whole : (k : Bytes) (r : List Bytes) → All (λ y. bytes_ltb k y ≡ true) r → keep k r ≡ r
unfolding keep_after after_start
keep_whole k [] h = refl
keep_whole k (x ∷ r) h = rw h.0 (ap (λ (t : List Bytes). x ∷ t) (keep_whole k r h.1))

keep_behind : (k x : Bytes) (r : List Bytes) → bytes_ltb k x ≡ false → keep k (x ∷ r) ≡ keep k r
unfolding keep_after after_start
keep_behind k x r h = rw h refl

module _ (P : Bytes → Type 0) where
  All-last : (y : Bytes) (p r : List Bytes) → All P ((y ∷ p) ++ r) → P (last y p)
  All-last y [] r h = h.0
  All-last y (z ∷ p) r h = All-last z p r h.1

  All-behind : (p r : List Bytes) → All P (p ++ r) → All P r
  All-behind [] r h = h
  All-behind (z ∷ p) r h = All-behind p r h.1

-- Behind the last key of a stretch of an increasing list comes what follows the stretch.
keep-last :
    (before : List Bytes) (y : Bytes) (p r : List Bytes)
    → Increasing (before ++ ((y ∷ p) ++ r))
    → keep (last y p) (before ++ ((y ∷ p) ++ r)) ≡ r
keep-last [] y [] r h = keep_behind y y r (bytes_ltb_irrefl y) ∙ keep_whole y r h.0
keep-last [] y (z ∷ p) r h =
    let lt = All-last (λ t. bytes_ltb y t ≡ true) z p r h.0 in
    keep_behind (last z p) y ((z ∷ p) ++ r) (bytes_ltb_asym y (last z p) lt)
    ∙ keep-last [] z p r h.1
keep-last (x ∷ before) y p r h =
    let part = All-behind (λ t. bytes_ltb x t ≡ true) before ((y ∷ p) ++ r) h.0 in
    let lt = All-last (λ t. bytes_ltb x t ≡ true) y p r part in
    keep_behind (last y p) x (before ++ ((y ∷ p) ++ r)) (bytes_ltb_asym x (last y p) lt)
    ∙ keep-last before y p r h.1

take-drop {ℓ} : {A : Type ℓ} (n : ℕ) (r : List A) → take n r ++ drop n r ≡ r
take-drop zero r = refl
take-drop (suc n) [] = refl
take-drop {A = A} (suc n) (x ∷ r) = ap (λ (t : List A). x ∷ t) (take-drop n r)

length-drop-le {ℓ} : {A : Type ℓ} (n : ℕ) (r : List A) → length (drop n r) ≤ length r
length-drop-le zero r = omega arith
length-drop-le (suc n) [] = omega arith
length-drop-le (suc n) (x ∷ r) = omega (arith, length-drop-le n r)

keep_after-none : (r : List Bytes) → keep_after (λ a. a) none r ≡ r
unfolding keep_after after_start
keep_after-none [] = refl
keep_after-none (x ∷ r) = ap (λ (t : List Bytes). x ∷ t) (keep_after-none r)

-- A server of pages of at least one of the `keys`, those behind the bound.
module _ (n : ℕ) (keys : List Bytes) (ask : Option Bytes → List Bytes)
    (page_lem : (start : Option Bytes) → ask start ≡ take (suc n) (keep_after (λ a. a) start keys))
    (inc : Increasing keys) where
  walk_rest :
      (fuel : ℕ) (start : Option Bytes) (before rest : List Bytes)
      → keys ≡ before ++ rest
      → keep_after (λ a. a) start keys ≡ rest
      → length rest ≤ fuel
      → walk fuel ask start ≡ rest
  unfolding walk
  walk_rest zero start before [] whole kept enough = refl
  walk_rest zero start before (y ∷ r) whole kept enough = absurd (omega arith)
  walk_rest (suc fuel) start before [] whole kept enough = rw (page_lem start, kept) refl
  walk_rest (suc fuel) start before (y ∷ r) whole kept enough =
      let p = take n r in
      let q = drop n r in
      let again : y ∷ p ++ q ≡ y ∷ r = ap (λ (t : List Bytes). y ∷ t) (take-drop n r) in
      let whole' : keys ≡ before ++ ((y ∷ p) ++ q) = rw (← again) at whole in
      let kept' : keep (last y p) keys ≡ q =
        rw whole' (keep-last before y p q (rw whole' at inc)) in
      let split : keys ≡ (before ++ (y ∷ p)) ++ q = whole' ∙ sym (append_assoc before (y ∷ p) q) in
      let less = length-drop-le n r in
      let ih = walk_rest fuel (some (last y p)) (before ++ (y ∷ p)) q split kept' (omega arith) in
      rw (page_lem start, kept) (ap (λ (t : List Bytes). (y ∷ p) ++ t) ih ∙ again)

  -- The walk comes by all keys in their order.
  walk_whole : (fuel : ℕ) → length keys ≤ fuel → walk fuel ask none ≡ keys
  walk_whole fuel enough = walk_rest fuel none [] keys refl (keep_after-none keys) enough

-- Pages of the sorted keys, none of which stands twice, with a limit other than 0.
pub walk-sort_by :
    (limit : ℕ) (keys : List Bytes) (ask : Option Bytes → List Bytes) (fuel : ℕ)
    → 0 < limit
    → ((start : Option Bytes)
        → ask start ≡ take limit (keep_after (λ a. a) start (sort_by (λ a. a) keys)))
    → Distinct keys
    → length keys ≤ fuel
    → walk fuel ask none ≡ sort_by (λ a. a) keys
walk-sort_by zero keys ask fuel pos lem distinct enough = absurd (omega arith)
walk-sort_by (suc n) keys ask fuel pos lem distinct enough =
    let inc =
      Increasing-of_sorted (sort_by (λ a. a) keys) (sort_by-IsSorted keys)
        ((sort_by-Distinct keys).1 distinct) in
    walk_whole n (sort_by (λ a. a) keys) ask lem inc fuel (omega (arith, length-sort_by keys))
