-- ===== src/Reachable/Replay.antt =====
-- The state of the demurrage of src/contract.rs over any run of messages, replayed without the
-- rest of the storage.
use demurrage_token.Base.{Bytes, bytes_eq, ℕ, ◌+◌, ◌≡◌, arith, ap, some, ◌∙◌}
use demurrage_token.Outcome.{ok}
use demurrage_token.Std.{Addr, Env, MessageInfo, Response, Timestamp}
use demurrage_token.Chain.{Chain}
use demurrage_token.State.{State, Store}
use demurrage_token.Period.Decays.{with_state}
use demurrage_token.Period.Effects.{change_period-eq-ok, tax_of}
use demurrage_token.Period.Advance.{advance, change_period-advance}
use demurrage_token.Supply.Mint.{Minted, execute_mint-eq-ok, with_supply, with_token_info}
use demurrage_token.Supply.Minter.{execute_update_minter-eq-ok}
use demurrage_token.Payments.Demurred.{
  DemurredPayment, execute_transfer-eq-ok, execute_transfer_from-eq-ok,
}
use demurrage_token.Payments.Plain.{
  execute_send-eq-ok, execute_burn-eq-ok, execute_burn_from-eq-ok, execute_send_from-eq-ok,
}
use demurrage_token.Payments.Totals.{Taxed-frame, DemurredPayment-frame}
use demurrage_token.Allowances.Change.{
  execute_increase_allowance-eq-ok, execute_decrease_allowance-frame,
}
use demurrage_token.Settings.{execute_change_tax_level-eq-ok, execute_change_sink_address-eq-ok}
use demurrage_token.Msg.{ExecuteMsg}
use demurrage_token.Contract.{execute}
use demurrage_token.Reachable.{Reach}

kept_state :
    (s s' : Store) (state : State)
    → s.demurrage_state ≡ some state
    → s'.demurrage_state ≡ s.demurrage_state
    → s'.demurrage_state ≡ some state
kept_state s s' state stored same = same ∙ stored

module _ (chain : Chain) where
  -- What a message does to the state, by the time, its kind, and a new level or sink alone.
  abbrev pub replay_by : Timestamp → ExecuteMsg → State → State
  replay_by now (ExecuteMsg.transfer recipient amount) state = advance chain now state
  replay_by now (ExecuteMsg.transfer_from owner recipient amount) state = advance chain now state
  replay_by now (ExecuteMsg.mint recipient amount) state = advance chain now state
  replay_by now (ExecuteMsg.change_sink_address address) state = record state {
    sink_address = address;
  }
  replay_by now (ExecuteMsg.change_tax_level amount) state = record state { tax_level = amount }
  replay_by now _ state = state

  DemurredPayment-replay :
      {recipient : Bytes} (env : Env) (from : Addr) (amount : ℕ) (s s' : Store) (state : State)
      → s.demurrage_state ≡ some state
      → DemurredPayment chain env from recipient amount s s'
      → s'.demurrage_state ≡ some (advance chain env.block.time state)
  DemurredPayment-replay env from amount s s' state stored run =
      let f = DemurredPayment-frame chain env from amount s s' run in
      let same : run.state ≡ state = ground (arith, run.stored) in
      let exact =
        change_period-advance chain env run.state s {r = (run.period.0, run.next)} run.period.1 in
      f.2 ∙ ap some (exact ∙ ap (advance chain env.block.time) same)

  Minted-replay :
      {recipient : Bytes} (env : Env) (sender : Addr) (amount : ℕ) (s s' : Store) (state : State)
      → s.demurrage_state ≡ some state
      → Minted chain env sender recipient amount s s'
      → s'.demurrage_state ≡ some (advance chain env.block.time state)
  Minted-replay env sender amount s s' state stored m =
      let s0 = with_token_info s (with_supply m.info (m.info.total_supply + amount)) in
      let c = change_period-eq-ok chain env m.state s0 {r = (m.period.0, m.next)} m.period.1 in
      let f = Taxed-frame chain m.next (tax_of m.next s0) (with_state s0 m.next) m.paid c.3 in
      let same : m.state ≡ state = ground (arith, m.state_stored) in
      let exact =
        change_period-advance chain env m.state s0 {r = (m.period.0, m.next)} m.period.1 in
      ap (λ (x : Store). x.demurrage_state) m.result
      ∙ (f.2 ∙ ap some (exact ∙ ap (advance chain env.block.time) same))

  execute-replay :
      (env : Env) (info : MessageInfo) (msg : ExecuteMsg) (s : Store) {r : Response} {s' : Store}
      (state : State)
      → s.demurrage_state ≡ some state
      → execute chain env info msg s ≡ (ok r, s')
      → s'.demurrage_state ≡ some (replay_by env.block.time msg state)
  unfolding execute
  execute-replay env info (ExecuteMsg.transfer recipient amount) s {s' = s'} state stored h =
      DemurredPayment-replay env info.sender amount s s' state stored
        (execute_transfer-eq-ok chain env info recipient amount s h)
  execute-replay env info (ExecuteMsg.burn amount) s {s' = s'} state stored h =
      let run = (execute_burn-eq-ok env info amount s h).1 in
      kept_state s s' state stored (ap (λ (x : Store). x.demurrage_state) run.result)
  execute-replay env info (ExecuteMsg.send contract amount msg) s {s' = s'} state stored h =
      let e = (execute_send-eq-ok chain env info contract amount msg s h).4 in
      kept_state s s' state stored (ap (λ (x : Store). x.demurrage_state) e)
  execute-replay env info (ExecuteMsg.increase_allowance spender amount expires) s {s' = s'} state
        stored h =
      let run = execute_increase_allowance-eq-ok chain env info spender amount expires s h in
      kept_state s s' state stored (ap (λ (x : Store). x.demurrage_state) run.result)
  execute-replay env info (ExecuteMsg.decrease_allowance spender amount expires) s {s' = s'} state
        stored h =
      kept_state s s' state stored
        (execute_decrease_allowance-frame chain env info spender amount expires s h).1
  execute-replay env info (ExecuteMsg.transfer_from owner recipient amount) s {s' = s'} state stored
        h =
      let (from, s0, _, d, run) =
        execute_transfer_from-eq-ok chain env info owner recipient amount s h in
      let stored0 = ap (λ (x : Store). x.demurrage_state) d.result ∙ stored in
      DemurredPayment-replay env from amount s0 s' state stored0 run
  execute-replay env info (ExecuteMsg.send_from owner contract amount msg) s {s' = s'} state stored
        h =
      let (_, _, s0, _, _, d, _, e, _) =
        execute_send_from-eq-ok chain env info owner contract amount msg s h in
      let stored0 = ap (λ (x : Store). x.demurrage_state) d.result ∙ stored in
      kept_state s0 s' state stored0 (ap (λ (x : Store). x.demurrage_state) e)
  execute-replay env info (ExecuteMsg.burn_from owner amount) s {s' = s'} state stored h =
      let (_, s0, _, d, b) = execute_burn_from-eq-ok chain env info owner amount s h in
      let stored0 = ap (λ (x : Store). x.demurrage_state) d.result ∙ stored in
      kept_state s0 s' state stored0 (ap (λ (x : Store). x.demurrage_state) b.result)
  execute-replay env info (ExecuteMsg.mint recipient amount) s {s' = s'} state stored h =
      Minted-replay env info.sender amount s s' state stored
        (execute_mint-eq-ok chain env info recipient amount s h)
  execute-replay env info (ExecuteMsg.update_minter new_minter) s {s' = s'} state stored h =
      let e = (execute_update_minter-eq-ok chain env info new_minter s h).7 in
      kept_state s s' state stored (ap (λ (x : Store). x.demurrage_state) e)
  execute-replay env info (ExecuteMsg.change_sink_address address) s {s' = s'} state stored h =
      let (state0, e, e') = execute_change_sink_address-eq-ok s address h in
      let same : state0 ≡ state = ground (arith, e) in
      ground (arith, same, ap (λ (x : Store). x.demurrage_state) e')
  execute-replay env info (ExecuteMsg.change_tax_level amount) s {s' = s'} state stored h =
      let (state0, e, e') = execute_change_tax_level-eq-ok s amount h in
      let same : state0 ≡ state = ground (arith, e) in
      ground (arith, same, ap (λ (x : Store). x.demurrage_state) e')

  -- The state after a run of messages, each at its time.
  abbrev pub replay : {s t : Store} → Reach chain s t → State → State
  replay Reach.here state = state
  replay (Reach.next env info msg r path h) state = replay_by env.block.time msg (replay path state)

  -- Over any run of messages that succeed, the state is exactly the one that is had by a replay of
  -- the run on the state alone: a transfer, one by allowance and a mint count a period and decay
  -- the modifier over all whole minutes since the stored time of the demurrage, at the level that
  -- is set then, a new level and a new sink are set, and nothing else matters, neither who sends,
  -- nor the amounts, balances and allowances.
  pub Reach-replay :
      {s t : Store} (state : State)
      → s.demurrage_state ≡ some state
      → (path : Reach chain s t) → t.demurrage_state ≡ some (replay path state)
  Reach-replay state stored Reach.here = stored
  Reach-replay state stored (Reach.next {t = mid} env info msg r path h) =
      execute-replay env info msg mid (replay path state) (Reach-replay state stored path) h
