-- ===== src/Utils/NativeBalance/Amounts.antt =====
-- The amounts of each denom under the operations of packages/utils/src/balance.rs.
use demurrage_token.Base.{
  bytes_eq, bytes_iff, ℕ, zero, suc, ◌+◌, ◌-◌, ◌≡◌, refl, arith, ◌=?◌, if◌then◌else◌, Option, none,
  some, Option-cases, Bool-cases, inl, inr, Bytes, [], ◌∷◌,
}
use demurrage_token.Outcome.{ok, >>=-eq-ok}
use demurrage_token.Std.{Coin}
use demurrage_token.Balances.{checked_sub}
use demurrage_token.Utils.NativeBalance.{
  Coins, next_index, find, remove_at, set_amount_at, insert_at, insert_pos, inserted, add_coin,
  add_coins, sub_coin,
}

-- What a coin counts for a denom.
abbrev pub share : Bytes → Coin → ℕ
share denom c = if c.denom =? denom then c.amount else 0

-- The sum of all coins of a denom.
abbrev pub amount_of : Bytes → Coins → ℕ
amount_of denom [] = 0
amount_of denom (c ∷ r) = share denom c + amount_of denom r

module _ (denom d : Bytes) where
  find-denom : (coins : Coins) (i : ℕ) (c : Coin) → find denom coins ≡ some (i, c) → c.denom ≡ denom
  unfolding find
  find-denom [] i c h = cc
  find-denom (x ∷ r) i c h = elim (Option-cases (find denom r)) [
    | inl e ↦ ground (arith, bytes_iff x.denom denom)
    | inr ((j, c'), e) ↦ let ih = find-denom r j c' e in ground (arith, ih, bytes_iff x.denom denom)
  ]

  amount_of-remove_at :
      (coins : Coins) (i : ℕ) (c : Coin)
      → find denom coins ≡ some (i, c)
      → amount_of d (remove_at i coins) + share d c ≡ amount_of d coins
  unfolding find remove_at
  amount_of-remove_at [] i c h = cc
  amount_of-remove_at (x ∷ r) i c h = elim (Bool-cases (x.denom =? denom)) [
    | inl same ↦ let k : some (0, x) ≡ some (i, c) = rw same at h in ground (arith, k)
    | inr other ↦
        let k : next_index (find denom r) ≡ some (i, c) = rw other at h in
        elim (Option-cases (find denom r)) [
          | inl e ↦ absurd (ground (arith, k, e))
          | inr ((j, c'), e) ↦ let ih = amount_of-remove_at r j c' e in ground (arith, k, e, ih)
        ]
  ]

  amount_of-set_amount_at :
      (coins : Coins) (i v : ℕ) (c : Coin)
      → find denom coins ≡ some (i, c)
      → amount_of d (set_amount_at i v coins) + share d c
        ≡ amount_of d coins + share d (record c { amount = v })
  unfolding find set_amount_at
  amount_of-set_amount_at [] i v c h = cc
  amount_of-set_amount_at (x ∷ r) i v c h = elim (Bool-cases (x.denom =? denom)) [
    | inl same ↦ let k : some (0, x) ≡ some (i, c) = rw same at h in ground (arith, k)
    | inr other ↦
        let k : next_index (find denom r) ≡ some (i, c) = rw other at h in
        elim (Option-cases (find denom r)) [
          | inl e ↦ absurd (ground (arith, k, e))
          | inr ((j, c'), e) ↦
              let ih = amount_of-set_amount_at r j v c' e in ground (arith, k, e, ih)
        ]
  ]

amount_of-insert_at :
    (d : Bytes) (i : ℕ) (coin : Coin) (coins : Coins)
    → amount_of d (insert_at i coin coins) ≡ share d coin + amount_of d coins
unfolding insert_at
amount_of-insert_at d zero coin r = refl
amount_of-insert_at d (suc i) coin [] = refl
amount_of-insert_at d (suc i) coin (c ∷ r) = omega (arith, amount_of-insert_at d i coin r)

amount_of-inserted :
    (d : Bytes) (at : Option ℕ) (coin : Coin) (coins : Coins)
    → amount_of d (inserted at coin coins) ≡ share d coin + amount_of d coins
unfolding inserted
amount_of-inserted d (some i) coin coins = amount_of-insert_at d i coin coins
amount_of-inserted d none coin [] = refl
amount_of-inserted d none coin (c ∷ r) = omega (arith, amount_of-inserted d none coin r)

-- Adding a coin, where it does not panic, adds its amount to its denom's sum and changes no other.
pub amount_of-add_coin :
    (d : Bytes) (coins : Coins) (other : Coin) {r : Coins}
    → add_coin coins other ≡ ok r
    → amount_of d r ≡ amount_of d coins + share d other
unfolding add_coin
amount_of-add_coin d coins other {r} h = elim (Option-cases (find other.denom coins)) [
  | inl e ↦
      let sum = amount_of-inserted d (insert_pos other.denom coins) other coins in
      ground (arith, e, sum)
  | inr ((i, c), e) ↦
      let same = find-denom other.denom d coins i c e in
      let sum = amount_of-set_amount_at other.denom d coins i (c.amount + other.amount) c e in
      ground (arith, e, sum, same)
]

-- Adding a wallet to another, where it does not panic, adds the sums of every denom.
pub amount_of-add_coins :
    (d : Bytes) (coins others : Coins) {r : Coins}
    → add_coins coins others ≡ ok r
    → amount_of d r ≡ amount_of d coins + amount_of d others
unfolding add_coins
amount_of-add_coins d coins [] h = ground arith
amount_of-add_coins d coins (c ∷ rest) h =
    let (coins', e, k) = >>=-eq-ok (add_coin coins c) (λ coins'. add_coins coins' rest) h in
    omega (arith, amount_of-add_coin d coins c e, amount_of-add_coins d coins' rest k)

-- Taking a coin away, where it succeeds, takes its amount from its denom's sum and changes no
-- other.
pub amount_of-sub_coin :
    (d : Bytes) (coins : Coins) (other : Coin) {r : Coins}
    → sub_coin coins other ≡ ok r
    → amount_of d r + share d other ≡ amount_of d coins
unfolding sub_coin checked_sub
amount_of-sub_coin d coins other {r} h = elim (Option-cases (find other.denom coins)) [
  | inl e ↦ absurd (ground (arith, e))
  | inr ((i, c), e) ↦
      let same = find-denom other.denom d coins i c e in
      let gone = amount_of-remove_at other.denom d coins i c e in
      let less = amount_of-set_amount_at other.denom d coins i (c.amount - other.amount) c e in
      ground (arith, e, gone, less, same)
]
