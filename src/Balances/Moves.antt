-- ===== src/Balances/Moves.antt =====
-- The abstract effect of a payment: one account is debited, then one is credited.
use demurrage_token.Base.{bytes_eq, ℕ, ◌+◌, ◌-◌, ◌≤◌, ◌≡◌, arith, if◌then◌else◌, ◌=?◌, bytes_iff}
use demurrage_token.Std.{Addr}
use demurrage_token.State.{Store}
use demurrage_token.Storage.Sum.{total}
use demurrage_token.Balances.{balance_of, set_balance}
use demurrage_token.Balances.Laws.{balance_of-set_balance, total-set_balance}

-- `out` leaves `from`, and then `into` arrives at `to`, which may be the same account.
abbrev pub moved : Addr → Addr → ℕ → ℕ → Store → Store
moved from to out into s =
    let s1 = set_balance from (balance_of s from - out) s in
    set_balance to (balance_of s1 to + into) s1

module _ (from to : Addr) (out into : ℕ) (s : Store) (enough : out ≤ balance_of s from) where
  pub total-moved : total (moved from to out into s).balances + out ≡ total s.balances + into
  total-moved =
      let s1 = set_balance from (balance_of s from - out) s in
      omega (
        arith,
        total-set_balance from (balance_of s from - out) s,
        total-set_balance to (balance_of s1 to + into) s1,
      )

  -- What each account holds afterwards.
  pub balance_of-moved :
      (j : Addr)
      → balance_of (moved from to out into s) j + (if from =? j then out else 0)
        ≡ balance_of s j + (if to =? j then into else 0)
  balance_of-moved j =
      let s1 = set_balance from (balance_of s from - out) s in
      ground (
        arith,
        bytes_iff from j,
        bytes_iff to j,
        bytes_iff from to,
        balance_of-set_balance from j (balance_of s from - out) s,
        balance_of-set_balance from to (balance_of s from - out) s,
        balance_of-set_balance to j (balance_of s1 to + into) s1,
      )
