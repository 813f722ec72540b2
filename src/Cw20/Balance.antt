-- ===== src/Cw20/Balance.antt =====
-- packages/cw20/src/balance.rs and denom.rs.
use demurrage_token.Base.{bytes_eq, ◌==◌, Bool, Bytes, [], length}
use demurrage_token.Outcome.{Outcome, ok, ◌>>=◌}
use demurrage_token.Std.{StdError, Addr}
use demurrage_token.Cw20.{Cw20CoinVerified}
use demurrage_token.Utils.NativeBalance
use demurrage_token.Utils.NativeBalance.{Coins}

pub data Balance : Type 0 where
  native : Coins → Balance
  cw20 : Cw20CoinVerified → Balance

-- `impl Default for Balance`
abbrev pub default_balance : Balance
default_balance = native []

-- `Balance::is_empty`, with that of `Cw20CoinVerified`
unfoldable pub is_empty : Balance → Bool
is_empty (native balance) = NativeBalance.is_empty balance
is_empty (cw20 coin) = coin.amount == 0

unfoldable pub normalize : Balance → Outcome StdError Balance
normalize (native balance) = NativeBalance.normalize balance >>= λ balance'. ok (native balance')
normalize (cw20 coin) = ok (cw20 coin)

pub data Denom : Type 0 where
  native_denom : Bytes → Denom
  cw20_denom : Addr → Denom

-- `impl Default for Denom`
abbrev pub default_denom : Denom
default_denom = native_denom []

unfoldable pub denom_is_empty : Denom → Bool
denom_is_empty (native_denom string) = length string == 0
denom_is_empty (cw20_denom addr) = length addr == 0
