-- ===== src/Queries/Pages.antt =====
-- Pages of src/enumerable.rs: what one page of accounts holds.
use demurrage_token.Base.{
  ℕ, zero, suc, ◌≤◌, ◌≡◌, refl, arith, true, Bool-cases, inl, inr, Option, some, none, Bytes, List,
  [], ◌∷◌, All, length, take, map,
}
use demurrage_token.Outcome.{ok}
use demurrage_token.Std.{Addr}
use demurrage_token.State.{Store}
use demurrage_token.Ordered.{sort_by}
use demurrage_token.Ordered.Laws.{IsSorted, sort_by-IsSorted}
use demurrage_token.Queries.{
  after_start, keep_after, page, page_limit, max_limit, query_all_accounts,
}

module _ {ℓ} {A : Type ℓ} where
  pub length-take-le : (n : ℕ) (r : List A) → length (take n r) ≤ n
  length-take-le zero r = omega arith
  length-take-le (suc n) [] = omega arith
  length-take-le (suc n) (a ∷ r) = omega (arith, length-take-le n r)

module _ {ℓ κ} {A : Type ℓ} (P : A → Type κ) where
  All-take : (n : ℕ) (r : List A) → All P r → All P (take n r)
  All-take zero r h = tt
  All-take (suc n) [] h = tt
  All-take (suc n) (a ∷ r) h = (h.0, All-take n r h.1)

take-IsSorted : (n : ℕ) (r : List Bytes) → IsSorted r → IsSorted (take n r)
take-IsSorted zero r h = tt
take-IsSorted (suc n) [] h = tt
take-IsSorted (suc n) (a ∷ r) h = (All-take _ n r h.0, take-IsSorted n r h.1)

module _ (start : Option Bytes) where
  abbrev IsAfter : Bytes → Type 0
  IsAfter key = after_start start key ≡ true

  keep_after-IsAfter : (r : List Bytes) → All IsAfter (keep_after (λ a. a) start r)
  unfolding keep_after
  keep_after-IsAfter [] = tt
  keep_after-IsAfter (a ∷ r) = elim (Bool-cases (after_start start a)) [
    | inl later ↦ rw later (later, keep_after-IsAfter r)
    | inr early ↦ rw early (keep_after-IsAfter r)
  ]

  All-keep_after :
      (P : Bytes → Type 0) (r : List Bytes) → All P r → All P (keep_after (λ a. a) start r)
  unfolding keep_after
  All-keep_after P [] h = tt
  All-keep_after P (a ∷ r) h = elim (Bool-cases (after_start start a)) [
    | inl later ↦ rw later (h.0, All-keep_after P r h.1)
    | inr early ↦ rw early (All-keep_after P r h.1)
  ]

  keep_after-IsSorted : (r : List Bytes) → IsSorted r → IsSorted (keep_after (λ a. a) start r)
  unfolding keep_after
  keep_after-IsSorted [] h = tt
  keep_after-IsSorted (a ∷ r) h = elim (Bool-cases (after_start start a)) [
    | inl later ↦ rw later (All-keep_after _ r h.0, keep_after-IsSorted r h.1)
    | inr early ↦ rw early (keep_after-IsSorted r h.1)
  ]

page_limit-le : (limit : Option ℕ) → page_limit limit ≤ max_limit
unfolding page_limit
page_limit-le none = omega arith
page_limit-le (some n) = ground arith

-- Whatever limit is asked for, a page of accounts is answered, and holds at most 30 of them, in
-- ascending order, all behind the start.
pub query_all_accounts_page :
    (start : Option Bytes) (limit : Option ℕ) (s : Store)
    → (r : List Bytes) × (query_all_accounts start limit s ≡ ok (record { accounts = r }))
      × (length r ≤ max_limit)
      × IsSorted r
      × All (λ key. after_start start key ≡ true) r
unfolding query_all_accounts page
query_all_accounts_page start limit s =
    let keys = map (λ (e : Addr × ℕ). e.0) s.balances in
    let n = page_limit limit in
    let sorted = sort_by (λ a. a) keys in
    let kept = keep_after (λ a. a) start sorted in
    (
      take n kept,
      refl,
      omega (arith, length-take-le n kept, page_limit-le limit),
      take-IsSorted n kept (keep_after-IsSorted start sorted (sort_by-IsSorted keys)),
      All-take _ n kept (keep_after-IsAfter start sorted),
    )
