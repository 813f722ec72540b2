-- ===== src/Utils/Payment.antt =====
-- packages/utils/src/payment.rs, on the funds of a message.
use demurrage_token.Base.{
  bytes_eq, bytes_iff, ℕ, ◌<◌, ◌≡◌, ◌↔◌, refl, arith, ◌==◌, ◌=?◌, ◌&&◌, not, if◌then◌else◌, Option,
  some, none, Bytes, List, [], ◌∷◌, All, length, Bool-cases, inl, inr,
}
use demurrage_token.Outcome.{Outcome, ok, err, panic, ◌>>=◌}
use demurrage_token.Std.{Coin}

pub data PaymentError : Type 0 where
  missing_denom : Bytes → PaymentError
  extra_denom : Bytes → PaymentError
  multiple_denoms : PaymentError
  no_funds : PaymentError
  non_payable : PaymentError

pub nonpayable : List Coin → Outcome PaymentError (Unit {0})
nonpayable [] = ok tt
nonpayable (c ∷ r) = err non_payable

pub one_coin : List Coin → Outcome PaymentError Coin
one_coin [] = err no_funds
one_coin (coin ∷ []) = if coin.amount == 0 then err no_funds else ok coin
one_coin (coin ∷ c ∷ r) = err multiple_denoms

pub must_pay : List Coin → Bytes → Outcome PaymentError ℕ
must_pay funds denom = do
  coin ← one_coin funds
  if not (coin.denom =? denom) then err (missing_denom denom) else ok coin.amount

-- `funds.iter().find(|c| c.denom != denom)`
pub find_wrong : Bytes → List Coin → Option Coin
find_wrong denom [] = none
find_wrong denom (c ∷ r) =
    let rest = find_wrong denom r in if c.denom =? denom then rest else some c

-- The `unwrap` of it.
pub extra_of : Option Coin → Outcome PaymentError ℕ
extra_of none = panic
extra_of (some wrong) = err (extra_denom wrong.denom)

pub may_pay : List Coin → Bytes → Outcome PaymentError ℕ
may_pay [] denom = ok 0
may_pay (c ∷ r) denom =
    if length (c ∷ r) == 1 && c.denom =? denom
    then ok c.amount
    else extra_of (find_wrong denom (c ∷ r))

-- A payment is accepted exactly if one coin was sent, of the denom, and not of amount 0; the
-- result is its amount.
pub must_pay_iff :
    (funds : List Coin) (denom : Bytes) (amount : ℕ)
    → (must_pay funds denom ≡ ok amount)
      ↔ ((funds ≡ (record { denom = denom; amount = amount }) ∷ []) × (0 < amount))
unfolding must_pay one_coin
must_pay_iff [] denom amount = ((λ h. cc), (λ h. cc))
must_pay_iff (c ∷ []) denom amount = (
  (λ h. (ground (arith, bytes_iff c.denom denom), ground arith)),
  (λ h. ground (arith, bytes_iff c.denom denom)),
)
must_pay_iff (c ∷ c' ∷ r) denom amount = ((λ h. cc), (λ h. cc))

find_wrong-none :
    (denom : Bytes) (funds : List Coin)
    → (find_wrong denom funds ≡ none) ↔ All (λ (c : Coin). c.denom ≡ denom) funds
unfolding find_wrong
find_wrong-none denom [] = ((λ h. tt), (λ h. refl))
find_wrong-none denom (c ∷ r) = elim (Bool-cases (c.denom =? denom)) [
  | inl same ↦
      let ih = find_wrong-none denom r in
      let e : c.denom ≡ denom = (bytes_iff c.denom denom).0 same in
      rw same ((λ h. (e, ih.0 h)), (λ h. ih.1 h.1))
  | inr other ↦ rw other ((λ h. cc), (λ h. cc (other, (bytes_iff c.denom denom).1 h.0)))
]

-- An optional payment panics exactly if several coins were sent that are all of the denom.
pub may_pay-panic :
    (funds : List Coin) (denom : Bytes)
    → (may_pay funds denom ≡ panic)
      ↔ ((1 < length funds) × All (λ (c : Coin). c.denom ≡ denom) funds)
unfolding may_pay extra_of
may_pay-panic [] denom = ((λ h. cc), (λ h. ground arith))
may_pay-panic (c ∷ r) denom =
    let wrong = find_wrong-none denom (c ∷ r) in
    (
      (λ h. (ground (arith, bytes_iff c.denom denom, wrong), wrong.0 (ground arith))),
      (λ h. let none_wrong = wrong.1 h.1 in ground (arith, none_wrong)),
    )
