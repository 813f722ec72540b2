-- ===== src/Payments/Periods.antt =====
-- How often src/contract.rs lets tokens be transferred: every transfer counts one period, and
-- fails while the start of the counted period is in the future.
use demurrage_token.Base.{ℕ, ◌+◌, ◌≤◌, ◌≡◌, arith, ap, some, Bytes}
use demurrage_token.Outcome.{ok}
use demurrage_token.Std.{Env, MessageInfo, Response, Timestamp}
use demurrage_token.Chain.{Chain}
use demurrage_token.State.{State, Store}
use demurrage_token.Period.{get_period_time_delta}
use demurrage_token.Period.Effects.{HasBegun, next_state}
use demurrage_token.Payments.Demurred.{execute_transfer-eq-ok}
use demurrage_token.Payments.Totals.{DemurredPayment-frame}
use demurrage_token.Contract.{execute_transfer}

HasBegun-moved :
    (chain : Chain) (env : Env) (state later : State)
    → later.start_timestamp ≡ state.start_timestamp
    → later.period_minute ≡ state.period_minute
    → HasBegun chain env later
    → (t : Timestamp) × (get_period_time_delta chain state.start_timestamp later.current_period
          state.period_minute
        ≡ ok t)
      × (chain.seconds t ≤ chain.seconds env.block.time)
HasBegun-moved chain env state later e e' (t, d, le) = (t, ground (arith, e, e'), le)

module _ (chain : Chain) (env env' : Env) (info info' : MessageInfo) (recipient recipient' : Bytes)
    (amount amount' : ℕ) (s : Store) {r r' : Response} {s' s'' : Store} (state : State)
    (stored : s.demurrage_state ≡ some state) where
  -- Of two transfers in a row, by whomever, the second succeeds only once the period after the
  -- one that the first found has begun, however the first one's period stands.
  pub transfer_waits :
      execute_transfer chain env info recipient amount s ≡ (ok r, s')
      → execute_transfer chain env' info' recipient' amount' s' ≡ (ok r', s'')
      → (t : Timestamp) × (get_period_time_delta chain state.start_timestamp
            (state.current_period + 1)
            state.period_minute
          ≡ ok t)
        × (chain.seconds t ≤ chain.seconds env'.block.time)
  transfer_waits h h' =
      let run = execute_transfer-eq-ok chain env info recipient amount s h in
      let run' = execute_transfer-eq-ok chain env' info' recipient' amount' s' h' in
      let f = DemurredPayment-frame chain env info.sender amount s s' run in
      let f' = DemurredPayment-frame chain env' info'.sender amount' s' s'' run' in
      let later : run'.state ≡ next_state state run.next.demurrage_amount =
        ground (arith, run'.stored, run.stored, f.2, f.3, stored) in
      let (t, d, le) =
        HasBegun-moved chain env' state run'.state (ap (λ (x : State). x.start_timestamp) later)
          (ap (λ (x : State). x.period_minute) later) f'.5 in
      (t, ground (arith, ap (λ (x : State). x.current_period) later), le)
