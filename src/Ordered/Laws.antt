-- ===== src/Ordered/Laws.antt =====
-- The byte order is a total order, and the sort sorts.
use demurrage_token.Base.{
  bytes_eq, suc, ◌≤◌, ◌≡◌, ◌≢◌, refl, arith, ◌=?◌, bytes_iff, true, false, Bytes, List, [], ◌∷◌,
  All, length, ◌↔◌, Bool-cases, inl, inr, sym,
}
use demurrage_token.Ordered.{bytes_leb, dedup, insert_by, sort_by}

pub bytes_leb_refl : (a : Bytes) → bytes_leb a a ≡ true
unfolding bytes_leb
bytes_leb_refl [] = refl
bytes_leb_refl (x ∷ xs) = ground (arith, bytes_leb_refl xs)

pub bytes_leb_total : (a b : Bytes) → bytes_leb a b ≡ false → bytes_leb b a ≡ true
unfolding bytes_leb
bytes_leb_total [] ys h = cc
bytes_leb_total (x ∷ xs) [] h = refl
bytes_leb_total (x ∷ xs) (y ∷ ys) h = ground (arith, bytes_leb_total xs ys)

pub bytes_leb_antisym : (a b : Bytes) → bytes_leb a b ≡ true → bytes_leb b a ≡ true → a ≡ b
unfolding bytes_leb
bytes_leb_antisym [] [] h k = refl
bytes_leb_antisym [] (y ∷ ys) h k = cc
bytes_leb_antisym (x ∷ xs) [] h k = cc
bytes_leb_antisym (x ∷ xs) (y ∷ ys) h k = ground (arith, bytes_leb_antisym xs ys)

pub bytes_leb_trans :
    (a b c : Bytes) → bytes_leb a b ≡ true → bytes_leb b c ≡ true → bytes_leb a c ≡ true
unfolding bytes_leb
bytes_leb_trans [] b c h k = refl
bytes_leb_trans (x ∷ xs) [] c h k = cc
bytes_leb_trans (x ∷ xs) (y ∷ ys) [] h k = cc
bytes_leb_trans (x ∷ xs) (y ∷ ys) (z ∷ zs) h k = ground (arith, bytes_leb_trans xs ys zs)

-- No member twice.
abbrev pub Distinct {ℓ} : {A : Type ℓ} → List A → Type ℓ
Distinct [] = Unit
Distinct (x ∷ r) = All (λ y. x ≢ y) r × Distinct r

abbrev pub IsSorted : List Bytes → Type 0
IsSorted [] = Unit
IsSorted (x ∷ r) = All (λ y. bytes_leb x y ≡ true) r × IsSorted r

abbrev pub Above : Bytes → List Bytes → Type 0
Above x r = All (λ y. bytes_leb x y ≡ true) r

Above-trans : (a b : Bytes) (r : List Bytes) → bytes_leb a b ≡ true → Above b r → Above a r
Above-trans a b [] h k = tt
Above-trans a b (c ∷ r) h k = (bytes_leb_trans a b c h k.0, Above-trans a b r h k.1)

-- A property of all members survives the insertion and the sort.
module _ (P : Bytes → Type 0) where
  All-insert_by : (a : Bytes) (r : List Bytes) → P a → All P r → All P (insert_by (λ x. x) a r)
  unfolding insert_by
  All-insert_by a [] p q = (p, tt)
  All-insert_by a (b ∷ r) p q = elim (Bool-cases (bytes_leb a b)) [
    | inl le ↦ rw le (p, q)
    | inr gt ↦ rw gt (q.0, All-insert_by a r p q.1)
  ]

  All-sort_by : (r : List Bytes) → All P r → All P (sort_by (λ x. x) r)
  unfolding sort_by
  All-sort_by [] p = tt
  All-sort_by (a ∷ r) p = All-insert_by a (sort_by (λ x. x) r) p.0 (All-sort_by r p.1)

  All-of_insert_by : (a : Bytes) (r : List Bytes) → All P (insert_by (λ x. x) a r) → P a × All P r
  unfolding insert_by
  All-of_insert_by a [] h = h
  All-of_insert_by a (b ∷ r) h = elim (Bool-cases (bytes_leb a b)) [
    | inl le ↦ (rw le at h)
    | inr gt ↦
        let k : All P (b ∷ insert_by (λ x. x) a r) = rw gt at h in
        let (p, q) = All-of_insert_by a r k.1 in (p, (k.0, q))
  ]

  All-of_sort_by : (r : List Bytes) → All P (sort_by (λ x. x) r) → All P r
  unfolding sort_by
  All-of_sort_by [] h = tt
  All-of_sort_by (a ∷ r) h =
      let (p, q) = All-of_insert_by a (sort_by (λ x. x) r) h in (p, All-of_sort_by r q)

length-insert_by : (a : Bytes) (r : List Bytes) → length (insert_by (λ x. x) a r) ≡ suc (length r)
unfolding insert_by
length-insert_by a [] = refl
length-insert_by a (b ∷ r) = ground (arith, length-insert_by a r)

pub length-sort_by : (r : List Bytes) → length (sort_by (λ x. x) r) ≡ length r
unfolding sort_by
length-sort_by [] = refl
length-sort_by (a ∷ r) = omega (arith, length-insert_by a (sort_by (λ x. x) r), length-sort_by r)

insert_by-IsSorted : (a : Bytes) (r : List Bytes) → IsSorted r → IsSorted (insert_by (λ x. x) a r)
unfolding insert_by
insert_by-IsSorted a [] h = (tt, tt)
insert_by-IsSorted a (b ∷ r) h = elim (Bool-cases (bytes_leb a b)) [
  | inl le ↦ rw le ((le, Above-trans a b r le h.0), h)
  | inr gt ↦ rw gt (
    All-insert_by (λ y. bytes_leb b y ≡ true) a r (bytes_leb_total a b gt) h.0,
    insert_by-IsSorted a r h.1,
  )
]

pub sort_by-IsSorted : (r : List Bytes) → IsSorted (sort_by (λ x. x) r)
unfolding sort_by
sort_by-IsSorted [] = tt
sort_by-IsSorted (a ∷ r) = insert_by-IsSorted a (sort_by (λ x. x) r) (sort_by-IsSorted r)

insert_by-Distinct :
    (a : Bytes) (r : List Bytes) → (Distinct (insert_by (λ x. x) a r)) ↔ (Distinct (a ∷ r))
unfolding insert_by
insert_by-Distinct a [] = ((λ h. h), (λ h. h))
insert_by-Distinct a (b ∷ r) = elim (Bool-cases (bytes_leb a b)) [
  | inl le ↦ rw le ((λ h. h), (λ h. h))
  | inr gt ↦ rw gt (
    (λ h.
        let (ne, fresh) = All-of_insert_by (λ y. b ≢ y) a r h.0 in
        let (fresh', rest) = (insert_by-Distinct a r).0 h.1 in
        (((λ e. ne (sym e)), fresh'), (fresh, rest))),
    (λ h. (
      All-insert_by (λ y. b ≢ y) a r (λ e. h.0.0 (sym e)) h.1.0,
      (insert_by-Distinct a r).1 (h.0.1, h.1.1),
    )),
  )
]

pub sort_by-Distinct : (r : List Bytes) → (Distinct (sort_by (λ x. x) r)) ↔ (Distinct r)
unfolding sort_by
sort_by-Distinct [] = ((λ h. h), (λ h. h))
sort_by-Distinct (a ∷ r) =
    let step = insert_by-Distinct a (sort_by (λ x. x) r) in
    let ih = sort_by-Distinct r in
    (
      (λ h. let (fresh, rest) = step.0 h in (All-of_sort_by (λ y. a ≢ y) r fresh, ih.0 rest)),
      (λ h. step.1 (All-sort_by (λ y. a ≢ y) r h.0, ih.1 h.1)),
    )

length-dedup-le : (r : List Bytes) → length (dedup r) ≤ length r
unfolding dedup
length-dedup-le [] = omega arith
length-dedup-le (x ∷ []) = omega arith
length-dedup-le (x ∷ y ∷ r) = ground (arith, length-dedup-le (y ∷ r))

-- In a sorted list a member that differs from its successor differs from all that follow.
pub fresh_of_ne :
    (x y : Bytes) (r : List Bytes) → x ≢ y → bytes_leb x y ≡ true → Above y r → All (λ z. x ≢ z) r
fresh_of_ne x y [] ne le above = tt
fresh_of_ne x y (z ∷ r) ne le above =
    ((λ e. ne (bytes_leb_antisym x y le (rw e above.0))), fresh_of_ne x y r ne le above.1)

-- On a sorted list `dedup` drops something exactly if a member stands twice.
pub length-dedup_iff : (r : List Bytes) → IsSorted r → (length (dedup r) ≡ length r) ↔ (Distinct r)
unfolding dedup
length-dedup_iff [] h = ((λ _. tt), (λ _. refl))
length-dedup_iff (x ∷ []) h = ((λ _. (tt, tt)), (λ _. refl))
length-dedup_iff (x ∷ y ∷ r) h = elim (Bool-cases (x =? y)) [
  | inl same ↦ rw same (
    (λ e. absurd (omega (arith, length-dedup-le (y ∷ r)))),
    (λ d. absurd (d.0.0 ((bytes_iff x y).0 same))),
  )
  | inr other ↦
      let ih = length-dedup_iff (y ∷ r) h.1 in
      let ne : x ≢ y = λ e. cc (other, (bytes_iff x y).1 e) in
      rw other (
        (λ e. ((ne, fresh_of_ne x y r ne h.0.0 h.1.0), ih.0 (omega arith))),
        (λ d. omega (arith, ih.1 d.1)),
      )
]
