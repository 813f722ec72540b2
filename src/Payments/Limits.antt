-- ===== src/Payments/Limits.antt =====
-- How large an amount the messages of src/contract.rs that convert it can carry.
use demurrage_token.Base.{bytes_eq, ℕ, ◌≤◌, ◌≡◌, arith}
use demurrage_token.Outcome.{ok}
use demurrage_token.Std.{Env, MessageInfo, Response}
use demurrage_token.Chain.{Chain}
use demurrage_token.State.{Store}
use demurrage_token.Demurrage.{to_base_amount}
use demurrage_token.Demurrage.BaseAmount.{to_base_amount-eq-ok}
use demurrage_token.Supply.Mint.{execute_mint-eq-ok}
use demurrage_token.Payments.Demurred.{execute_transfer-eq-ok, execute_transfer_from-eq-ok}
use demurrage_token.Allowances.Change.{execute_increase_allowance-eq-ok}
use demurrage_token.Msg.{ExecuteMsg}
use demurrage_token.Contract.{execute}

-- The amount that a message has converted; 0 where it has none.
abbrev pub converted_amount : ExecuteMsg → ℕ
converted_amount (ExecuteMsg.transfer recipient amount) = amount
converted_amount (ExecuteMsg.transfer_from owner recipient amount) = amount
converted_amount (ExecuteMsg.mint recipient amount) = amount
converted_amount (ExecuteMsg.increase_allowance spender amount expires) = amount
converted_amount _ = 0

-- 2^128 / 10^28, rounded down.
abbrev pub largest_amount : ℕ
largest_amount = 34028236692

to_base_amount_limit :
    (value modifier : ℕ) {r : ℕ} → to_base_amount value modifier ≡ ok r → value ≤ largest_amount
to_base_amount_limit value modifier h = omega (arith, (to_base_amount-eq-ok value modifier h).1)

-- A message that transfers, mints or raises an allowance succeeds, in whatever storage and at
-- whatever time, only with an amount of at most 34,028,236,692.
pub execute_limit :
    (chain : Chain) (env : Env) (info : MessageInfo) (msg : ExecuteMsg) (s : Store) {r : Response}
    {s' : Store}
    → execute chain env info msg s ≡ (ok r, s')
    → converted_amount msg ≤ largest_amount
unfolding execute
execute_limit chain env info (ExecuteMsg.transfer recipient amount) s h =
    let run = execute_transfer-eq-ok chain env info recipient amount s h in
    to_base_amount_limit amount run.next.demurrage_amount run.converted
execute_limit chain env info (ExecuteMsg.transfer_from owner recipient amount) s h =
    let (_, _, _, _, run) = execute_transfer_from-eq-ok chain env info owner recipient amount s h in
    to_base_amount_limit amount run.next.demurrage_amount run.converted
execute_limit chain env info (ExecuteMsg.mint recipient amount) s h =
    let run = execute_mint-eq-ok chain env info recipient amount s h in
    to_base_amount_limit amount run.next.demurrage_amount run.converted
execute_limit chain env info (ExecuteMsg.increase_allowance spender amount expires) s h =
    let run = execute_increase_allowance-eq-ok chain env info spender amount expires s h in
    to_base_amount_limit amount run.state.demurrage_amount run.converted
execute_limit chain env info msg s h = omega arith
