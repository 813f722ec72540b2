-- ===== src/Balances.antt =====
-- `BALANCES` of src/state.rs under the two closures that the handlers of src/contract.rs and
-- src/allowances.rs pass to `update`, and the view of it that the statements use.
pub mod Laws
pub mod Moves
use demurrage_token.Base.{bytes_eq, ℕ, ◌-◌, ◌+◌, Option, if◌then◌else◌, leb}
use demurrage_token.Outcome.{Outcome, ok, err, map_err}
use demurrage_token.Outcome.Word.{add128}
use demurrage_token.Std.{StdError, overflow, Addr}
use demurrage_token.State.{Store, std, Call}
use demurrage_token.Storage.{may_load, save, update}
use demurrage_token.Storage.Sum.{unwrap_or_zero}

-- `Uint128::checked_sub`
unfoldable pub checked_sub : ℕ → ℕ → Outcome StdError ℕ
checked_sub a b = if leb b a then ok (a - b) else err (overflow a b)

-- `BALANCES.update(deps.storage, &k, action)?`
abbrev pub balances_update : Addr → (Option ℕ → Outcome StdError ℕ) → Call ℕ
balances_update k action s =
    let (r, m) = update k (λ balance. map_err std (action balance)) s.balances in
    (r, record s { balances = m })

-- `Ok(balance.unwrap_or_default().checked_sub(amount)?)`
unfoldable pub debit_account : Addr → ℕ → Call ℕ
unfolding checked_sub
debit_account k amount = balances_update k (λ balance. checked_sub (unwrap_or_zero balance) amount)

-- `Ok(balance.unwrap_or_default() + amount)`
unfoldable pub credit_account : Addr → ℕ → Call ℕ
credit_account k amount = balances_update k (λ balance. add128 (unwrap_or_zero balance) amount)

-- What an account holds; an account that was never written holds nothing.
abbrev pub balance_of : Store → Addr → ℕ
balance_of s k = unwrap_or_zero (may_load k s.balances)

-- The storage with one balance written.
abbrev pub set_balance : Addr → ℕ → Store → Store
set_balance k v s = record s { balances = save k v s.balances }
