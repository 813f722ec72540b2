-- ===== src/Examples/Wrapper.antt =====
-- The wrapper of the cw20 package at the demo contract, over a querier that hands on what is asked
-- and answered.
use demurrage_token.Base.{bytes_eq, pair_eq, ◌≡◌, refl, some, Option, true, []}
use demurrage_token.Outcome.{Outcome, ok, err, panic}
use demurrage_token.Std.{StdError, Addr, generic_err}
use demurrage_token.Cw20.{BalanceResponse, TokenInfoResponse, AllowanceResponse, MinterResponse}
use demurrage_token.Cw20.Helpers.{
  Cw20QueryMsg, Querier, Cw20Contract, get_balance, get_meta, get_allowance, get_minter,
  is_mintable,
}
use demurrage_token.Balances.{balance_of}
use demurrage_token.Allowances.{unwrap_allowance}
use demurrage_token.Allowances.Deduct.{allowance_at}
use demurrage_token.Msg.{
  QueryResponse, balance_response, token_info_response, minter_response, allowance_response,
}
use demurrage_token.Queries.{answer}
use demurrage_token.Queries.Client.{as_query, Serves, wrapper_reads}
use demurrage_token.Examples.{demo_chain, demo_store, demo_token, alice, bob, sink}

data Wire : Type 0 where
  question : Cw20QueryMsg → Wire
  reply : QueryResponse → Wire

abbrev replied : Outcome StdError QueryResponse → Outcome StdError Wire
replied (ok r) = ok (reply r)
replied (err e) = err e
replied panic = panic

abbrev not_a_balance : StdError
not_a_balance = generic_err "another answer was read"

abbrev ask_demo : Addr → Wire → Outcome StdError Wire
ask_demo c (question m) = replied (answer demo_chain (as_query m) demo_store)
ask_demo c (reply r) = err not_a_balance

abbrev read_balance : Wire → Outcome StdError BalanceResponse
read_balance (reply (balance_response r)) = ok r
read_balance _ = err not_a_balance

abbrev read_token_info : Wire → Outcome StdError TokenInfoResponse
read_token_info (reply (token_info_response r)) = ok r
read_token_info _ = err not_a_balance

abbrev read_allowance : Wire → Outcome StdError AllowanceResponse
read_allowance (reply (allowance_response r)) = ok r
read_allowance _ = err not_a_balance

abbrev read_minter : Wire → Outcome StdError (Option MinterResponse)
read_minter (reply (minter_response r)) = ok r
read_minter _ = err not_a_balance

abbrev demo_querier : Querier
demo_querier = record {
  Binary = Wire;
  execute_to_binary = λ m. ok [];
  query_to_binary = λ m. ok (question m);
  smart = ask_demo;
  balance_from = read_balance;
  token_info_from = read_token_info;
  allowance_from = read_allowance;
  minter_from = read_minter;
}

abbrev at_sink : Cw20Contract
at_sink = record { addr = sink }

question_of :
    (m : Cw20QueryMsg) (b : Wire)
    → ◌≡◌ {A = Outcome StdError Wire} (ok (question m)) (ok b)
    → question m ≡ b
question_of m b e = cc

demo_querier-Serves : Serves demo_chain demo_store demo_querier at_sink
demo_querier-Serves = record {
  written = reply;
  asked = λ m. (question m, refl);
  answered = λ m b r sent got. rw (← question_of m b sent) (rw got refl);
  refused = λ m b e sent got. (e, rw (← question_of m b sent) (rw got refl));
  balance_read = λ r. refl;
  token_info_read = λ r. refl;
  allowance_read = λ r. refl;
  minter_read = λ r. refl;
}

wrapper_reads_example :
    (get_balance demo_querier at_sink alice ≡ ok (balance_of demo_store alice))
    × (get_allowance demo_querier at_sink alice bob
        ≡ ok (unwrap_allowance (allowance_at (alice, bob) demo_store)))
    × (get_meta demo_querier at_sink
        ≡ ok (record {
          name = demo_token.name;
          symbol = demo_token.symbol;
          decimals = demo_token.decimals;
          total_supply = demo_token.total_supply;
        }))
    × (get_minter demo_querier at_sink ≡ ok (some (record { minter = alice; cap = some 5000 })))
    × (is_mintable demo_querier at_sink ≡ ok true)
wrapper_reads_example =
    wrapper_reads demo_chain demo_store demo_querier at_sink demo_querier-Serves demo_token refl
      alice bob alice bob refl refl
