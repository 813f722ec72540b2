-- ===== src/Balances/Laws.antt =====
-- A debit and a credit of one account, on every branch.
use demurrage_token.Base.{
  bytes_eq, ℕ, ◌+◌, ◌-◌, ◌≤◌, ◌<◌, ◌≡◌, arith, leb, ltb, if◌then◌else◌, ◌=?◌,
}
use demurrage_token.Outcome.{ok, err, panic}
use demurrage_token.Outcome.Word.{mod128}
use demurrage_token.Std.{overflow, Addr}
use demurrage_token.State.{Store, std}
use demurrage_token.Storage.Laws.{may_load-save}
use demurrage_token.Storage.Sum.{total, total-save}
use demurrage_token.Balances.{debit_account, credit_account, balance_of, set_balance}

pub debit_account_lem :
    (k : Addr) (amount : ℕ) (s : Store)
    → debit_account k amount s ≡ (
        if leb amount (balance_of s k)
        then (ok (balance_of s k - amount), set_balance k (balance_of s k - amount) s)
        else (err (std (overflow (balance_of s k) amount)), s))
unfolding debit_account
debit_account_lem k amount s = ground arith

pub credit_account_lem :
    (k : Addr) (amount : ℕ) (s : Store)
    → credit_account k amount s ≡ (
        if ltb (balance_of s k + amount) mod128
        then (ok (balance_of s k + amount), set_balance k (balance_of s k + amount) s)
        else (panic, s))
unfolding credit_account
credit_account_lem k amount s = ground arith

pub debit_account-eq-ok :
    (k : Addr) (amount : ℕ) (s : Store) {v : ℕ} {s' : Store}
    → debit_account k amount s ≡ (ok v, s')
    → (amount ≤ balance_of s k) × (s' ≡ set_balance k (balance_of s k - amount) s)
debit_account-eq-ok k amount s h = ground (arith, debit_account_lem k amount s)

pub credit_account-eq-ok :
    (k : Addr) (amount : ℕ) (s : Store) {v : ℕ} {s' : Store}
    → credit_account k amount s ≡ (ok v, s')
    → (balance_of s k + amount < mod128) × (s' ≡ set_balance k (balance_of s k + amount) s)
credit_account-eq-ok k amount s h = ground (arith, credit_account_lem k amount s)

pub balance_of-set_balance :
    (k j : Addr) (v : ℕ) (s : Store)
    → balance_of (set_balance k v s) j ≡ (if k =? j then v else balance_of s j)
balance_of-set_balance k j v s = ground (arith, may_load-save k j v s.balances)

pub total-set_balance :
    (k : Addr) (v : ℕ) (s : Store)
    → total (set_balance k v s).balances + balance_of s k ≡ total s.balances + v
total-set_balance k v s = total-save k v s.balances
