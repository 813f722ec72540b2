-- ===== src/Ledger/Refines.antt =====
-- The handlers of src/contract.rs and src/allowances.rs against the specification of the ledger.
use demurrage_token.Base.{
  bytes_eq, pair_eq, ℕ, ◌+◌, ◌-◌, ◌≡◌, arith, ap, sym, ◌∙◌, ltb, Bool-cases, Bytes, some, inl, inr,
  if◌then◌else◌, Option,
}
use demurrage_token.Outcome.{ok}
use demurrage_token.Std.{Addr, Env, MessageInfo, Response}
use demurrage_token.Cw20.{AllowanceResponse}
use demurrage_token.Expiration.{Expiration}
use demurrage_token.Chain.{Chain}
use demurrage_token.State.{Store}
use demurrage_token.Storage.{remove}
use demurrage_token.Balances.{balance_of}
use demurrage_token.Allowances.{set_expires}
use demurrage_token.Allowances.Deduct.{set_allowance}
use demurrage_token.Allowances.Change.{
  base_allowance, execute_increase_allowance-eq-ok, execute_decrease_allowance-eq-ok,
  execute_decrease_allowance_lem,
}
use demurrage_token.Period.Decays.{with_state}
use demurrage_token.Period.Effects.{change_period-eq-ok, tax_of}
use demurrage_token.Supply.Mint.{Minted, execute_mint-eq-ok, with_supply, with_token_info}
use demurrage_token.Supply.Minter.{execute_update_minter-eq-ok}
use demurrage_token.Payments.Demurred.{
  DemurredPayment, execute_transfer-eq-ok, execute_transfer_from-eq-ok,
}
use demurrage_token.Payments.Plain.{
  execute_send-eq-ok, execute_burn-eq-ok, execute_burn_from-eq-ok, execute_send_from-eq-ok,
}
use demurrage_token.Payments.Totals.{Taxed-frame}
use demurrage_token.Payments.Conservation.{supply_of}
use demurrage_token.Settings.{execute_change_tax_level-eq-ok, execute_change_sink_address-eq-ok}
use demurrage_token.Msg.{ExecuteMsg}
use demurrage_token.Contract.{execute}
use demurrage_token.Ledger.{
  lend, PaysBase, Mints, left_of, LedgerStep, transfers, burns, sends, raises, lowers,
  transfers_from, sends_from, burns_from, mints, hands_on, moves_sink, sets_tax,
}
use demurrage_token.Ledger.View.{
  view, minter_of, modifier_of, view-set_balance, view-set_allowance, view-remove, moved-Moves,
  Deduction-Spends, Burned-Burns, Taxed-Ages,
}

module _ (chain : Chain) where
  DemurredPayment-PaysBase :
      (env : Env) (from : Addr) {recipient : Bytes} (amount : ℕ) (s s' : Store)
      (run : DemurredPayment chain env from recipient amount s s')
      → PaysBase from run.to amount (view s) (view s')
  DemurredPayment-PaysBase env from amount s s' run =
      let c =
        change_period-eq-ok chain env run.state s {r = (run.period.0, run.next)} run.period.1 in
      let f = Taxed-frame chain run.next (tax_of run.next s) (with_state s run.next) run.paid c.3 in
      let modifier : modifier_of run.paid ≡ run.next.demurrage_amount = ground (arith, f.2) in
      record {
        aged = view run.paid;
        base_value = run.base_value;
        ages = Taxed-Ages chain run.state run.next s run.paid run.stored c.0 f.2 c.3;
        converted = rw modifier run.converted;
        moves = moved-Moves from run.to amount run.base_value run.paid s' run.enough run.result;
      }

  Minted-Mints :
      (env : Env) (sender : Addr) {recipient : Bytes} (amount : ℕ) (s s' : Store)
      (run : Minted chain env sender recipient amount s s')
      → Mints sender run.to amount (view s) (view s')
  Minted-Mints env sender amount s s' run =
      let info' = with_supply run.info (run.info.total_supply + amount) in
      let s0 = with_token_info s info' in
      let c =
        change_period-eq-ok chain env run.state s0 {r = (run.period.0, run.next)} run.period.1 in
      let f =
        Taxed-frame chain run.next (tax_of run.next s0) (with_state s0 run.next) run.paid c.3 in
      let modifier : modifier_of run.paid ≡ run.next.demurrage_amount = ground (arith, f.2) in
      let supply : supply_of s ≡ run.info.total_supply = ground (arith, run.stored) in
      let minter : minter_of s ≡ run.info.mint = ground (arith, run.stored) in
      let raised : view s0 ≡ record (view s) { supply = supply_of s + amount } =
        λ i. record (view s) { supply = sym supply i + amount; minter = sym minter i } in
      let ages = Taxed-Ages chain run.state run.next s0 run.paid run.state_stored c.0 f.2 c.3 in
      record {
        minter_data = run.minter_data;
        aged = view run.paid;
        base_value = run.base_value;
        may_mint = minter ∙ run.may_mint;
        is_minter = run.sent;
        within = rw supply run.within;
        ages = rw raised at ages;
        converted = rw modifier run.converted;
        after =
            ap view run.result
            ∙ view-set_balance run.to (balance_of run.paid run.to + run.base_value) run.paid;
      }

  lowered_view :
      (info : MessageInfo) (to : Addr) (a : AllowanceResponse) (amount : ℕ)
      (expires : Option Expiration) (s : Store)
      → view (
          if ltb amount a.allowance
          then set_allowance
              (info.sender, to)
              (set_expires expires (record a { allowance = a.allowance - amount }))
              s
          else record s { allowances = remove (info.sender, to) s.allowances })
        ≡ lend (info.sender, to) (left_of expires amount a) (view s)
  lowered_view info to a amount expires s =
      let key : Addr × Addr = (info.sender, to) in
      elim (Bool-cases (ltb amount a.allowance)) [
        | inl less ↦ rw less (
            view-set_allowance key
              (set_expires expires (record a { allowance = a.allowance - amount })) s)
        | inr more ↦ rw more (view-remove key s)
      ]

  -- Seen as a ledger, every message that succeeds is a step of the specification: who may do it,
  -- what it does to holdings, loans, supply, minter and modifier, and that all else stays.
  pub execute-LedgerStep :
      (env : Env) (info : MessageInfo) (msg : ExecuteMsg) (s : Store) {r : Response} {s' : Store}
      → execute chain env info msg s ≡ (ok r, s')
      → LedgerStep chain env info msg (view s) (view s')
  unfolding execute
  execute-LedgerStep env info (ExecuteMsg.transfer recipient amount) s {s' = s'} h =
      let run = execute_transfer-eq-ok chain env info recipient amount s h in
      transfers run.to run.valid (DemurredPayment-PaysBase env info.sender amount s s' run)
  execute-LedgerStep env info (ExecuteMsg.burn amount) s {s' = s'} h =
      let (pos, b) = execute_burn-eq-ok env info amount s h in
      burns pos (Burned-Burns info.sender amount s s' b)
  execute-LedgerStep env info (ExecuteMsg.send contract amount msg) s {s' = s'} h =
      let (to, pos, valid, enough, e, _) =
        execute_send-eq-ok chain env info contract amount msg s h in
      sends to valid pos (moved-Moves info.sender to amount amount s s' enough e)
  execute-LedgerStep env info (ExecuteMsg.increase_allowance spender amount expires) s h =
      let run = execute_increase_allowance-eq-ok chain env info spender amount expires s h in
      let base = base_allowance chain env info spender amount expires s run.to in
      let modifier : modifier_of s ≡ run.state.demurrage_amount = ground (arith, run.stored) in
      raises run.to run.base_value run.valid run.other (rw modifier run.converted) (
        ap view run.result
        ∙ view-set_allowance (info.sender, run.to)
            (record base { allowance = base.allowance + (amount + run.base_value) }) s)
  execute-LedgerStep env info (ExecuteMsg.decrease_allowance spender amount expires) s h =
      let (to, a, valid, ne, found) =
        execute_decrease_allowance-eq-ok chain env info spender amount expires s h in
      let e =
        execute_decrease_allowance_lem chain env info spender amount expires s to a valid ne
          found in
      let after = ap (λ p. p.1) (sym h) ∙ e in
      lowers to a valid ne found (ap view after ∙ lowered_view info to a amount expires s)
  execute-LedgerStep env info (ExecuteMsg.transfer_from owner recipient amount) s {s' = s'} h =
      let (from, s0, valid, d, run) =
        execute_transfer_from-eq-ok chain env info owner recipient amount s h in
      transfers_from from run.to (view s0) valid run.valid (Deduction-Spends d)
        (DemurredPayment-PaysBase env from amount s0 s' run)
  execute-LedgerStep env info (ExecuteMsg.send_from owner contract amount msg) s {s' = s'} h =
      let (from, to, s0, valid, valid', d, enough, e, _) =
        execute_send_from-eq-ok chain env info owner contract amount msg s h in
      sends_from from to (view s0) valid valid' (Deduction-Spends d)
        (moved-Moves from to amount amount s0 s' enough e)
  execute-LedgerStep env info (ExecuteMsg.burn_from owner amount) s {s' = s'} h =
      let (from, s0, valid, d, b) = execute_burn_from-eq-ok chain env info owner amount s h in
      burns_from from (view s0) valid (Deduction-Spends d) (Burned-Burns from amount s0 s' b)
  execute-LedgerStep env info (ExecuteMsg.mint recipient amount) s {s' = s'} h =
      let run = execute_mint-eq-ok chain env info recipient amount s h in
      mints run.to run.valid (Minted-Mints env info.sender amount s s' run)
  execute-LedgerStep env info (ExecuteMsg.update_minter new_minter) s h =
      let (token, m, minter, e, e', sent, valid, result) =
        execute_update_minter-eq-ok chain env info new_minter s h in
      let before : minter_of s ≡ some m = ground (arith, e, e') in
      let supply : supply_of s ≡ token.total_supply = ground (arith, e) in
      hands_on m minter valid before sent (
        ap view result ∙ (λ i. record (view s) {
          supply = sym supply i;
          minter = some (record m { minter = minter });
        }))
  execute-LedgerStep env info (ExecuteMsg.change_sink_address address) s h =
      let (state, e, result) = execute_change_sink_address-eq-ok s address h in
      let same : modifier_of s ≡ state.demurrage_amount = ground (arith, e) in
      moves_sink (ap view result ∙ (λ i. record (view s) { modifier = sym same i }))
  execute-LedgerStep env info (ExecuteMsg.change_tax_level amount) s h =
      let (state, e, result) = execute_change_tax_level-eq-ok s amount h in
      let same : modifier_of s ≡ state.demurrage_amount = ground (arith, e) in
      sets_tax (ap view result ∙ (λ i. record (view s) { modifier = sym same i }))
