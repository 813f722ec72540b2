-- ===== src/Utils/NativeBalance.antt =====
-- `NativeBalance` of packages/utils/src/balance.rs: a list of coins with helpers. What mutates
-- the list returns it, and an index that `find` gave is a number.
pub mod Amounts
pub mod Normal
use demurrage_token.Base.{
  bytes_eq, ℕ, zero, suc, ◌+◌, ◌==◌, ◌=?◌, leb, not, ◌&&◌, if◌then◌else◌, Bool, true, false, Option,
  none, some, Bytes, List, [], ◌∷◌,
}
use demurrage_token.Outcome.{Outcome, ok, err, panic, ◌>>=◌}
use demurrage_token.Outcome.Word.{add128}
use demurrage_token.Std.{StdError, overflow, Coin}
use demurrage_token.Ordered.{bytes_leb, sort_by}
use demurrage_token.Balances.{checked_sub}

abbrev pub Coins : Type 0
Coins = List Coin

abbrev pub next_index {ℓ} : {A : Type ℓ} → Option (ℕ × A) → Option (ℕ × A)
next_index none = none
next_index (some (i, a)) = some (suc i, a)

-- The first coin of a denom, with its index.
unfoldable pub find : Bytes → Coins → Option (ℕ × Coin)
find denom [] = none
find denom (c ∷ r) =
    let rest = next_index (find denom r) in if c.denom =? denom then some (0, c) else rest

-- `self.0.remove(i)`
unfoldable pub remove_at : ℕ → Coins → Coins
remove_at i [] = []
remove_at zero (c ∷ r) = r
remove_at (suc i) (c ∷ r) = c ∷ remove_at i r

-- `self.0[i].amount = amount`
unfoldable pub set_amount_at : ℕ → ℕ → Coins → Coins
set_amount_at i amount [] = []
set_amount_at zero amount (c ∷ r) = record c { amount = amount } ∷ r
set_amount_at (suc i) amount (c ∷ r) = c ∷ set_amount_at i amount r

-- `self.0.insert(i, coin)`
unfoldable pub insert_at : ℕ → Coin → Coins → Coins
insert_at zero coin r = coin ∷ r
insert_at (suc i) coin [] = coin ∷ []
insert_at (suc i) coin (c ∷ r) = c ∷ insert_at i coin r

abbrev pub next_position : Option ℕ → Option ℕ
next_position none = none
next_position (some i) = some (suc i)

unfoldable pub insert_pos : Bytes → Coins → Option ℕ
insert_pos denom [] = none
insert_pos denom (c ∷ r) =
    let rest = next_position (insert_pos denom r) in
    if bytes_leb denom c.denom then some 0 else rest

-- What `has` tests of the coin that it finds.
abbrev pub covers : Option (ℕ × Coin) → ℕ → Bool
covers none required = false
covers (some (i, m)) required = leb required m.amount

unfoldable pub has : Coins → Coin → Bool
has coins required = covers (find required.denom coins) required.amount

unfoldable pub is_empty : Coins → Bool
is_empty [] = true
is_empty (c ∷ r) = c.amount == 0 && is_empty r

-- Where the denom is not found: in sorted order, or at the end.
unfoldable pub inserted : Option ℕ → Coin → Coins → Coins
inserted (some idx) other coins = insert_at idx other coins
inserted none other [] = other ∷ []
inserted none other (c ∷ r) = c ∷ inserted none other r

-- `AddAssign<Coin>`
unfoldable pub add_coin : Coins → Coin → Outcome StdError Coins
add_coin coins other = elim (find other.denom coins) [
  | none ↦ ok (inserted (insert_pos other.denom coins) other coins)
  | some (i, c) ↦ add128 c.amount other.amount >>= λ sum. ok (set_amount_at i sum coins)
]

-- `AddAssign<NativeBalance>`
unfoldable pub add_coins : Coins → Coins → Outcome StdError Coins
add_coins coins [] = ok coins
add_coins coins (c ∷ r) = add_coin coins c >>= λ coins'. add_coins coins' r

-- `Sub<Coin>`
unfoldable pub sub_coin : Coins → Coin → Outcome StdError Coins
sub_coin coins other = elim (find other.denom coins) [
  | none ↦ err (overflow 0 other.amount)
  | some (i, c) ↦ checked_sub c.amount other.amount >>= λ remainder.
      ok (if remainder == 0 then remove_at i coins else set_amount_at i remainder coins)
]

unfoldable pub sub_saturating : Coins → Coin → Outcome StdError Coins
sub_saturating coins other = elim (find other.denom coins) [
  | none ↦ err (overflow 0 other.amount)
  | some (i, c) ↦
      if leb c.amount other.amount
      then ok (remove_at i coins)
      else checked_sub c.amount other.amount >>= λ left. ok (set_amount_at i left coins)
]

-- `retain(|c| c.amount != 0)`
unfoldable pub retain_nonzero : Coins → Coins
retain_nonzero [] = []
retain_nonzero (c ∷ r) =
    let rest = retain_nonzero r in if not (c.amount == 0) then c ∷ rest else rest

-- The duplicates are merged from the right into the coin before them.
unfoldable pub merge_into : Coin → Coins → Outcome StdError Coins
merge_into c [] = ok (c ∷ [])
merge_into c (x ∷ r) =
    if c.denom =? x.denom
    then (add128 c.amount x.amount >>= λ sum. ok (record c { amount = sum } ∷ r))
    else ok (c ∷ x ∷ r)

unfoldable pub merge_duplicates : Coins → Outcome StdError Coins
merge_duplicates [] = ok []
merge_duplicates (c ∷ r) = merge_duplicates r >>= λ rest. merge_into c rest

-- The sort is a stable one; the order of coins of one denom is lost in the merge.
unfoldable pub normalize : Coins → Outcome StdError Coins
normalize coins = merge_duplicates (sort_by (λ (c : Coin). c.denom) (retain_nonzero coins))
