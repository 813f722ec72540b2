-- ===== src/Period.antt =====
-- The demurrage functions of src/contract.rs that read the clock and write the storage. The
-- `&mut State` that they share is passed in and returned.
pub mod Decays
pub mod Effects
pub mod Advance
pub mod Tax
pub mod Returns
use demurrage_token.Base.{
  ℕ, ◌*◌, ◌/◌, ◌==◌, ltb, if◌then◌else◌, Bool, true, false, ◌&&◌, List, [], ◌∷◌, Option, some, ◌⊎◌,
  inl, inr,
}
use demurrage_token.Outcome
use demurrage_token.Outcome.{Outcome, ok, err, panic, or_panic}
use demurrage_token.Outcome.Word.{add64, mul64, sub_word, div_word}
use demurrage_token.Exec.{pure, lift, ok_or, modify, discard, ◌>>=◌, ◌>>◌, Exec}
use demurrage_token.Std.{Timestamp, Env, Response, response, attr, AttrValue, word, amount_of}
use demurrage_token.Chain.{Chain}
use demurrage_token.State.{ContractError, unauthorized, State, Store, TokenInfo, Call, from_std}
use demurrage_token.Demurrage.{decay_by, grow_by, distribution_of}
use demurrage_token.Balances.{credit_account}

-- `STATE.save(deps.storage, &state)`
abbrev pub save_state : State → Call (Unit {0})
save_state state = modify (λ s. record s { demurrage_state = some state })

-- `STATE.may_load(deps.storage)?.ok_or(ContractError::Unauthorized {})?`
abbrev pub load_state : Call State
load_state s = ok_or unauthorized s.demurrage_state s

-- `TOKEN_INFO.may_load(deps.storage)?.ok_or(ContractError::Unauthorized {})?`
abbrev pub load_token_info : Call TokenInfo
load_token_info s = ok_or unauthorized s.token_info s

-- A call whose `Result` is kept as a value: the left is its error. A panic stays a panic.
abbrev pub as_value :
    {A : Type 0}
    → Outcome ContractError A × Store
    → Outcome ContractError (ContractError ⊎ A) × Store
as_value (ok a, s) = (ok (inr a), s)
as_value (err e, s) = (ok (inl e), s)
as_value (panic, s) = (panic, s)

abbrev pub attempt : {A : Type 0} → Call A → Call (ContractError ⊎ A)
attempt m s = as_value (m s)

unfoldable pub get_distribution : State → Call ℕ
get_distribution state = do
  config ← load_token_info
  lift (distribution_of config.total_supply state.demurrage_amount)

module _ (chain : Chain) where
  -- The whole minutes from the second to the first timestamp; `get_minutes_delta` and
  -- `demurrage_cycles` have this same body.
  unfoldable pub get_minutes_delta : Timestamp → Timestamp → Outcome ContractError ℕ
  get_minutes_delta now_timestamp last_timestamp =
      Outcome.◌>>=◌ (sub_word (chain.seconds now_timestamp) (chain.seconds last_timestamp))
        λ elapsed. ok (elapsed / 60)

  unfoldable pub demurrage_cycles : Timestamp → Timestamp → Outcome ContractError ℕ
  demurrage_cycles now_timestamp target =
      Outcome.◌>>=◌ (sub_word (chain.seconds now_timestamp) (chain.seconds target))
        λ elapsed. ok (elapsed / 60)

  unfoldable pub get_period_time_delta : Timestamp → ℕ → ℕ → Outcome ContractError Timestamp
  get_period_time_delta start_timestamp period_count period_minute =
      Outcome.◌>>=◌ (mul64 period_count period_minute)
        λ delta. or_panic (chain.plus_seconds start_timestamp delta)

  unfoldable pub actual_period : Timestamp → State → Outcome ContractError ℕ
  actual_period now_timestamp state =
      Outcome.◌>>=◌ (sub_word (chain.seconds now_timestamp) (chain.seconds state.start_timestamp))
        λ elapsed. Outcome.◌>>=◌ (div_word elapsed state.period_minute) λ periods. add64 periods 1

  unfoldable pub apply_default_redistribution : State → ℕ → Call Response
  apply_default_redistribution state distribution = do
    sink_addr ← from_std (chain.addr_validate state.sink_address)
    credit_account sink_addr distribution
    pure (
        response (
          attr "action" (word "default_redistribution")
          ∷ attr "amount" (amount_of distribution)
          ∷ []))

  -- What follows the test `period_count == 0`. The timestamp that `plus_seconds` returns is
  -- dropped; only its panic is seen.
  unfoldable pub decay_state : State → ℕ → Call (Bool × State)
  decay_state state period_count = do
    last_demurrage_amount ← lift (decay_by state.demurrage_amount state.tax_level period_count)
    seconds_passed ← lift (mul64 period_count 60)
    lift (or_panic (chain.plus_seconds state.demurrage_timestamp seconds_passed))
    let state' = record state { demurrage_amount = last_demurrage_amount }
    save_state state'
    pure (true, state')

  -- The `rounds` limit; 0 is no limit.
  abbrev pub limit_rounds : ℕ → ℕ → ℕ
  limit_rounds rounds period_count =
      if ltb 0 rounds && ltb rounds period_count then rounds else period_count

  unfoldable pub apply_demurrage_limited : Timestamp → State → ℕ → Call (Bool × State)
  unfolding get_minutes_delta
  apply_demurrage_limited now_timestamp state rounds = do
    period_count ← lift (get_minutes_delta now_timestamp state.demurrage_timestamp)
    if period_count == 0
        then pure (false, state)
        else decay_state state (limit_rounds rounds period_count)

  unfoldable pub apply_demurrage : Timestamp → State → Call (Bool × State)
  apply_demurrage now_timestamp state = apply_demurrage_limited now_timestamp state 0

  -- The growth that `change_period` computes and does not use: only its panic is seen.
  unfoldable pub next_demurrage_amount : State → ℕ → Outcome ContractError ℕ
  next_demurrage_amount state demurrage_counts =
      if ltb 0 demurrage_counts
      then grow_by state.demurrage_amount state.tax_level demurrage_counts
      else ok state.demurrage_amount

  -- The end of `change_period`: the tax is sent to the sink, and the result of that is dropped.
  unfoldable pub send_tax : State → ContractError ⊎ ℕ → Call (ContractError ⊎ Bool)
  send_tax state (inl e) = pure (inl e)
  send_tax state (inr distribution) = do
    discard (apply_default_redistribution state distribution)
    pure (inr true)

  -- The end of `change_period`, once the new state is known. A failure of `get_distribution` is
  -- returned, and one of the redistribution is dropped.
  unfoldable pub settle_period : State → Call ((ContractError ⊎ Bool) × State)
  settle_period state = do
    save_state state
    distribution ← attempt (get_distribution state)
    result ← send_tax state distribution
    pure (result, state)

  -- The returned pair holds the `Result` of the source as a value, since every caller drops it
  -- and goes on, and the state as the call leaves it.
  unfoldable pub change_period : Env → State → Call ((ContractError ⊎ Bool) × State)
  change_period env state = do
    applied ← apply_demurrage env.block.time state
    let state1 = applied.1
    next_period ← lift (add64 state1.current_period 1)
    period_timestamp ←
        lift
          (get_period_time_delta state1.start_timestamp state1.current_period state1.period_minute)
    demurrage_counts ← lift (demurrage_cycles env.block.time period_timestamp)
    lift (next_demurrage_amount state1 demurrage_counts)
    let state2 = record state1 { current_period = next_period }
    settle_period state2
