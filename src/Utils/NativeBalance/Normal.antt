-- ===== src/Utils/NativeBalance/Normal.antt =====
-- `normalize` of packages/utils/src/balance.rs against its description: sorted by denom, no
-- duplicate denoms, no zeros, and no amount lost.
use demurrage_token.Base.{
  bytes_eq, bytes_iff, ◌+◌, ◌≡◌, ◌≢◌, refl, arith, ap, ◌∙◌, ◌==◌, ◌=?◌, if◌then◌else◌, Bool-cases,
  inl, inr, Bytes, List, [], ◌∷◌, All, map,
}
use demurrage_token.Outcome.{ok, >>=-eq-ok}
use demurrage_token.Std.{Coin}
use demurrage_token.Ordered.{bytes_leb, dedup, insert_by, sort_by}
use demurrage_token.Ordered.Laws.{IsSorted, Distinct, sort_by-IsSorted}
use demurrage_token.Ordered.Dedup.{dedup-head, dedup-IsSorted, dedup-Distinct}
use demurrage_token.Utils.NativeBalance.{
  Coins, retain_nonzero, merge_into, merge_duplicates, normalize,
}
use demurrage_token.Utils.NativeBalance.Amounts.{share, amount_of}

abbrev pub denom_of : Coin → Bytes
denom_of c = c.denom

abbrev pub denoms : Coins → List Bytes
denoms = map denom_of

abbrev pub IsNonzero : Coin → Type 0
IsNonzero c = c.amount ≢ 0

-- The three properties of a normalized wallet.
pub record IsNormal (coins : Coins) : Type 0 where
  pub sorted : IsSorted (denoms coins)
  pub distinct : Distinct (denoms coins)
  pub nonzero : All IsNonzero coins

-- The sort of coins is the sort of their denoms.
denoms-insert_by :
    (c : Coin) (r : Coins) → denoms (insert_by denom_of c r) ≡ insert_by (λ x. x) c.denom (denoms r)
unfolding insert_by
denoms-insert_by c [] = refl
denoms-insert_by c (x ∷ r) = elim (Bool-cases (bytes_leb c.denom x.denom)) [
  | inl le ↦ rw le refl
  | inr gt ↦ rw gt (ap (λ (t : List Bytes). x.denom ∷ t) (denoms-insert_by c r))
]

denoms-sort_by : (r : Coins) → denoms (sort_by denom_of r) ≡ sort_by (λ x. x) (denoms r)
unfolding sort_by
denoms-sort_by [] = refl
denoms-sort_by (c ∷ r) =
    denoms-insert_by c (sort_by denom_of r) ∙ ap (insert_by (λ x. x) c.denom) (denoms-sort_by r)

module _ (d : Bytes) where
  amount_of-retain_nonzero : (r : Coins) → amount_of d (retain_nonzero r) ≡ amount_of d r
  unfolding retain_nonzero
  amount_of-retain_nonzero [] = refl
  amount_of-retain_nonzero (c ∷ r) = ground (arith, amount_of-retain_nonzero r)

  amount_of-insert_by :
      (c : Coin) (r : Coins) → amount_of d (insert_by denom_of c r) ≡ share d c + amount_of d r
  unfolding insert_by
  amount_of-insert_by c [] = refl
  amount_of-insert_by c (x ∷ r) = elim (Bool-cases (bytes_leb c.denom x.denom)) [
    | inl le ↦ rw le refl
    | inr gt ↦ rw gt (omega (arith, amount_of-insert_by c r))
  ]

  amount_of-sort_by : (r : Coins) → amount_of d (sort_by denom_of r) ≡ amount_of d r
  unfolding sort_by
  amount_of-sort_by [] = refl
  amount_of-sort_by (c ∷ r) =
      omega (arith, amount_of-insert_by c (sort_by denom_of r), amount_of-sort_by r)

  amount_of-merge_into :
      (c : Coin) (rest : Coins) {r : Coins}
      → merge_into c rest ≡ ok r
      → amount_of d r ≡ share d c + amount_of d rest
  unfolding merge_into
  amount_of-merge_into c [] h = ground arith
  amount_of-merge_into c (x ∷ rest) h = ground (arith, bytes_iff c.denom x.denom)

  amount_of-merge_duplicates :
      (coins : Coins) {r : Coins}
      → merge_duplicates coins ≡ ok r
      → amount_of d r ≡ amount_of d coins
  unfolding merge_duplicates
  amount_of-merge_duplicates [] h = ground arith
  amount_of-merge_duplicates (c ∷ coins) h =
      let (rest, e, k) = >>=-eq-ok (merge_duplicates coins) (merge_into c) h in
      omega (arith, amount_of-merge_into c rest k, amount_of-merge_duplicates coins e)

-- No step makes a zero.
All-insert_by-coin :
    (c : Coin) (r : Coins) → IsNonzero c → All IsNonzero r → All IsNonzero (insert_by denom_of c r)
unfolding insert_by
All-insert_by-coin c [] p q = (p, tt)
All-insert_by-coin c (x ∷ r) p q = elim (Bool-cases (bytes_leb c.denom x.denom)) [
  | inl le ↦ rw le (p, q)
  | inr gt ↦ rw gt (q.0, All-insert_by-coin c r p q.1)
]

All-sort_by-coin : (r : Coins) → All IsNonzero r → All IsNonzero (sort_by denom_of r)
unfolding sort_by
All-sort_by-coin [] q = tt
All-sort_by-coin (c ∷ r) q = All-insert_by-coin c (sort_by denom_of r) q.0 (All-sort_by-coin r q.1)

All-retain_nonzero : (r : Coins) → All IsNonzero (retain_nonzero r)
unfolding retain_nonzero
All-retain_nonzero [] = tt
All-retain_nonzero (c ∷ r) = elim (Bool-cases (c.amount == 0)) [
  | inl is_zero ↦ rw is_zero (All-retain_nonzero r)
  | inr more ↦ rw more ((λ e. ground arith), All-retain_nonzero r)
]

All-merge_into :
    (c : Coin) (rest : Coins) {r : Coins}
    → merge_into c rest ≡ ok r
    → IsNonzero c
    → All IsNonzero rest
    → All IsNonzero r
unfolding merge_into
All-merge_into c [] {r} h p q = let e : r ≡ c ∷ [] = ground arith in rw e (p, tt)
All-merge_into c (x ∷ rest) {r} h p q = elim (Bool-cases (c.denom =? x.denom)) [
  | inl same ↦
      let e : r ≡ record c { amount = c.amount + x.amount } ∷ rest = ground arith in
      rw e ((λ z. p (omega arith)), q.1)
  | inr other ↦ let e : r ≡ c ∷ x ∷ rest = ground arith in rw e (p, q)
]

All-merge_duplicates :
    (coins : Coins) {r : Coins}
    → merge_duplicates coins ≡ ok r
    → All IsNonzero coins
    → All IsNonzero r
unfolding merge_duplicates
All-merge_duplicates [] {r} h q = let e : r ≡ [] = ground arith in rw e tt
All-merge_duplicates (c ∷ coins) h q =
    let (rest, e, k) = >>=-eq-ok (merge_duplicates coins) (merge_into c) h in
    All-merge_into c rest k q.0 (All-merge_duplicates coins e q.1)

-- The denoms that are left are those before, each once.
denoms-merge_into :
    (c : Coin) (rest : Coins) {r : Coins} (denom : Bytes) (t : List Bytes)
    → merge_into c rest ≡ ok r
    → denoms rest ≡ denom ∷ t
    → denoms r ≡ (if c.denom =? denom then denom ∷ t else c.denom ∷ denom ∷ t)
unfolding merge_into
denoms-merge_into c [] denom t h e = cc
denoms-merge_into c (x ∷ rest) denom t h e = ground (arith, bytes_iff c.denom x.denom)

denoms-merge_duplicates :
    (coins : Coins) {r : Coins} → merge_duplicates coins ≡ ok r → denoms r ≡ dedup (denoms coins)
unfolding merge_duplicates dedup
denoms-merge_duplicates [] h = ground arith
denoms-merge_duplicates (c ∷ []) h = unfold merge_into in ground arith
denoms-merge_duplicates (c ∷ x ∷ coins) h =
    let (rest, e, k) = >>=-eq-ok (merge_duplicates (x ∷ coins)) (merge_into c) h in
    let (t, head) = dedup-head x.denom (denoms coins) in
    let ih = denoms-merge_duplicates (x ∷ coins) e in
    denoms-merge_into c rest x.denom t k (ih ∙ head) ∙ (rw head refl)

-- A wallet that is normalized without an overflow is sorted by denom, has no denom twice and no
-- zero, and the sum of every denom is what it was.
pub normalize-IsNormal :
    (coins : Coins) {r : Coins}
    → normalize coins ≡ ok r
    → IsNormal r × ((d : Bytes) → amount_of d r ≡ amount_of d coins)
unfolding normalize
normalize-IsNormal coins {r} h =
    let kept = retain_nonzero coins in
    let sorted = sort_by denom_of kept in
    let left = denoms-merge_duplicates sorted h ∙ ap dedup (denoms-sort_by kept) in
    let order = sort_by-IsSorted (denoms kept) in
    (
      record {
        sorted = rw left (dedup-IsSorted (sort_by (λ x. x) (denoms kept)) order);
        distinct = rw left (dedup-Distinct (sort_by (λ x. x) (denoms kept)) order);
        nonzero = All-merge_duplicates sorted h (All-sort_by-coin kept (All-retain_nonzero coins));
      },
      (λ d.
          amount_of-merge_duplicates d sorted h
          ∙ (amount_of-sort_by d kept ∙ amount_of-retain_nonzero d coins)),
    )
