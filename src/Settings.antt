-- ===== src/Settings.antt =====
-- `execute_change_tax_level` and `execute_change_sink_address` of src/contract.rs, which test
-- nothing about the sender.
use demurrage_token.Base.{ℕ, ◌≡◌, ◌≤◌, refl, arith, some, Option-cases, inl, inr, Bytes}
use demurrage_token.Outcome.{ok}
use demurrage_token.Std.{Addr, Env, MessageInfo, Response}
use demurrage_token.Chain.{Chain}
use demurrage_token.State.{State, Store, TokenInfo}
use demurrage_token.Balances.{balance_of}
use demurrage_token.Balances.Moves.{moved}
use demurrage_token.Msg.{ExecuteMsg}
use demurrage_token.Period.Decays.{with_state}
use demurrage_token.Period.Advance.{advance}
use demurrage_token.Period.Tax.{taxed, change_period-valid}
use demurrage_token.Demurrage.{distribution_of, to_base_amount}
use demurrage_token.Payments.Demurred.{DemurredPayment, execute_transfer-eq-ok}
use demurrage_token.Contract.{
  execute, execute_transfer, execute_change_tax_level, execute_change_sink_address,
}

module _ (s : Store) {r : Response} {s' : Store} where
  pub execute_change_tax_level-eq-ok :
      (amount : ℕ)
      → execute_change_tax_level amount s ≡ (ok r, s')
      → (state : State) × (s.demurrage_state ≡ some state)
        × (s' ≡ with_state s (record state { tax_level = amount }))
  execute_change_tax_level-eq-ok amount h = elim (Option-cases s.demurrage_state) [
    | inl missing ↦ absurd (unfold execute_change_tax_level in ground arith)
    | inr (state, e) ↦ (state, e, unfold execute_change_tax_level in ground arith)
  ]

  pub execute_change_sink_address-eq-ok :
      (address : Bytes)
      → execute_change_sink_address address s ≡ (ok r, s')
      → (state : State) × (s.demurrage_state ≡ some state)
        × (s' ≡ with_state s (record state { sink_address = address }))
  execute_change_sink_address-eq-ok address h = elim (Option-cases s.demurrage_state) [
    | inl missing ↦ absurd (unfold execute_change_sink_address in ground arith)
    | inr (state, e) ↦ (state, e, unfold execute_change_sink_address in ground arith)
  ]

-- What a transfer to `recipient` leaves where the state `next` begins a period and the tax goes to
-- `sink`: the sink has the tax on the whole supply, the sender has lost the amount, and the
-- recipient has its base amount.
abbrev pub PaidTo : Chain → Addr → TokenInfo → State → Addr → Bytes → ℕ → Store → Store → Type 0
PaidTo chain sink token next from recipient amount s s' =
    (tax : ℕ) × (to : Addr) × (base_value : ℕ) × (distribution_of token.total_supply
        next.demurrage_amount
      ≡ ok tax)
    × (chain.addr_validate recipient ≡ ok to)
    × (to_base_amount amount next.demurrage_amount ≡ ok base_value)
    × (amount ≤ balance_of (taxed sink tax next s) from)
    × (s' ≡ moved from to amount base_value (taxed sink tax next s))

DemurredPayment-PaidTo :
    (chain : Chain) (env : Env) (from : Addr) (recipient : Bytes) (amount : ℕ) (s s' : Store)
    (state : State) (sink : Addr) (token : TokenInfo)
    → s.demurrage_state ≡ some state
    → s.token_info ≡ some token
    → chain.addr_validate state.sink_address ≡ ok sink
    → DemurredPayment chain env from recipient amount s s'
    → PaidTo chain sink token (advance chain env.block.time state) from recipient amount s s'
DemurredPayment-PaidTo chain env from recipient amount s s' state sink token stored token_stored
      valid run =
    let same : run.state ≡ state = ground (arith, run.stored) in
    let (e, (tax, computed, paid)) =
      change_period-valid chain sink token env run.state s {r = (run.period.0, run.next)}
        token_stored (rw same valid) run.period.1 in
    let next : run.next ≡ advance chain env.block.time state = rw same at e in
    let k : PaidTo chain sink token run.next from recipient amount s s' = (
      tax,
      run.to,
      run.base_value,
      computed,
      run.valid,
      run.converted,
      rw paid at run.enough,
      rw paid at run.result,
    ) in
    rw next at k

module _ (chain : Chain) (env : Env) (info : MessageInfo) (s : Store) (state : State)
    (stored : s.demurrage_state ≡ some state) where
  -- Whoever sends the message, the tax level and the sink become what the message says, and no
  -- other part of the storage changes.
  pub settings_open :
      (amount : ℕ) (address : Bytes)
      → ((execute chain env info (ExecuteMsg.change_tax_level amount) s).1
          ≡ with_state s (record state { tax_level = amount }))
        × ((execute chain env info (ExecuteMsg.change_sink_address address) s).1
            ≡ with_state s (record state { sink_address = address }))
  unfolding execute execute_change_tax_level execute_change_sink_address
  settings_open amount address = (ground arith, ground arith)

  -- Where token info and a state are stored and any sender has then set the sink to a valid
  -- address, every transfer of anybody that succeeds has credited that address with the tax of the
  -- period, which is computed from the total supply and the modifier of the time, before it debited
  -- the sender by the amount and credited the validated recipient with the base amount.
  pub sink_redirected :
      (address : Bytes) (sink : Addr) (token : TokenInfo) (env' : Env) (info' : MessageInfo)
      (recipient : Bytes) (amount : ℕ) {r : Response} {s' : Store}
      → s.token_info ≡ some token
      → chain.addr_validate address ≡ ok sink
      → execute_transfer chain env' info' recipient amount
          (execute chain env info (ExecuteMsg.change_sink_address address) s).1
        ≡ (ok r, s')
      → let next = advance chain env'.block.time (record state { sink_address = address }) in
        PaidTo chain sink token next info'.sender recipient amount s s'
  sink_redirected address sink token env' info' recipient amount {r} {s'} token_stored valid h =
      let state1 : State = record state { sink_address = address } in
      let s1 = with_state s state1 in
      let e = (settings_open 0 address).1 in
      let h1 : execute_transfer chain env' info' recipient amount s1 ≡ (ok r, s') = rw e at h in
      DemurredPayment-PaidTo chain env' info'.sender recipient amount s1 s' state1 sink token refl
        token_stored valid (execute_transfer-eq-ok chain env' info' recipient amount s1 h1)
