-- ===== src/Reachable/Backed.antt =====
-- The sum of all balances and the total supply of src/contract.rs over any run of messages.
use demurrage_token.Base.{Bytes, bytes_eq, ℕ, ◌+◌, ◌≤◌, ◌≡◌, arith, ap, some}
use demurrage_token.Outcome.{ok}
use demurrage_token.Std.{Addr, BlockInfo, Env, MessageInfo, Response}
use demurrage_token.Chain.{Chain}
use demurrage_token.State.{Store, TokenInfo}
use demurrage_token.Balances.{balance_of}
use demurrage_token.Balances.Laws.{total-set_balance}
use demurrage_token.Balances.Moves.{moved, total-moved}
use demurrage_token.Demurrage.BaseAmount.{to_base_amount_inflates}
use demurrage_token.Period.Decays.{with_state}
use demurrage_token.Period.Effects.{change_period-eq-ok, tax_of}
use demurrage_token.Supply.Mint.{Minted, execute_mint-eq-ok, with_supply, with_token_info}
use demurrage_token.Supply.Minter.{execute_update_minter-eq-ok}
use demurrage_token.Payments.Demurred.{
  DemurredPayment, execute_transfer-eq-ok, execute_transfer_from-eq-ok,
}
use demurrage_token.Payments.Plain.{
  Burned, execute_send-eq-ok, execute_burn-eq-ok, execute_burn_from-eq-ok, execute_send_from-eq-ok,
}
use demurrage_token.Payments.Totals.{held, Taxed-frame, DemurredPayment-frame, DemurredPayment-held}
use demurrage_token.Payments.Conservation.{supply_of, Burned-Taken}
use demurrage_token.Allowances.Deduct.{Deduction}
use demurrage_token.Allowances.Change.{
  execute_increase_allowance-eq-ok, execute_decrease_allowance-frame,
}
use demurrage_token.Settings.{execute_change_tax_level-eq-ok, execute_change_sink_address-eq-ok}
use demurrage_token.Msg.{ExecuteMsg}
use demurrage_token.Contract.{execute}
use demurrage_token.Reachable.{Reach}
use demurrage_token.Reachable.Sound.{IsSound, ModifierHolds-later, Deduction-IsSound, Reach-IsSound}

-- The balances hold at least the total supply.
abbrev pub IsBacked : Store → Type 0
IsBacked s = supply_of s ≤ held s

supply_of-some :
    (s : Store) (info : TokenInfo) → s.token_info ≡ some info → supply_of s ≡ info.total_supply
supply_of-some s info e = ground arith

IsBacked-same :
    (s s' : Store) → s'.token_info ≡ s.token_info → held s ≤ held s' → IsBacked s → IsBacked s'
IsBacked-same s s' e le h = let k : supply_of s' ≡ supply_of s = ground (arith, e) in omega arith

Burned-IsBacked :
    (from : Addr) (amount : ℕ) (s s' : Store) → Burned from amount s s' → IsBacked s → IsBacked s'
Burned-IsBacked from amount s s' b h =
    let (sum, supply, _) = Burned-Taken from amount s s' b in omega arith

Deduction-IsBacked :
    {owner spender : Addr} {block : BlockInfo} {amount : ℕ} (s s' : Store)
    → Deduction owner spender block amount s s'
    → IsBacked s
    → IsBacked s'
Deduction-IsBacked s s' d h = rw d.result h

moved-IsBacked :
    (from to : Addr) (amount : ℕ) (s s' : Store)
    → amount ≤ balance_of s from
    → s' ≡ moved from to amount amount s
    → IsBacked s
    → IsBacked s'
moved-IsBacked from to amount s s' enough e h =
    let sum = total-moved from to amount amount s enough in
    IsBacked-same s s' (ap (λ (x : Store). x.token_info) e) (omega (arith, ap held e)) h

module _ (chain : Chain) where
  DemurredPayment-IsBacked :
      {recipient : Bytes} (env : Env) (from : Addr) (amount : ℕ) (s s' : Store)
      → DemurredPayment chain env from recipient amount s s'
      → IsSound s
      → IsBacked s
      → IsBacked s'
  DemurredPayment-IsBacked env from amount s s' run i h =
      let f = DemurredPayment-frame chain env from amount s s' run in
      let sums = DemurredPayment-held chain env from amount s s' run in
      let low = ModifierHolds-later s run.state run.next run.stored f.4 i.modifier in
      let more = to_base_amount_inflates amount run.next.demurrage_amount low run.converted in
      IsBacked-same s s' f.0 (omega arith) h

  Minted-IsBacked :
      {recipient : Bytes} (env : Env) (sender : Addr) (amount : ℕ) (s s' : Store)
      → Minted chain env sender recipient amount s s'
      → IsSound s
      → IsBacked s
      → IsBacked s'
  Minted-IsBacked env sender amount s s' m i h =
      let info' = with_supply m.info (m.info.total_supply + amount) in
      let s0 = with_token_info s info' in
      let c = change_period-eq-ok chain env m.state s0 {r = (m.period.0, m.next)} m.period.1 in
      let f = Taxed-frame chain m.next (tax_of m.next s0) (with_state s0 m.next) m.paid c.3 in
      let low = ModifierHolds-later s m.state m.next m.state_stored c.0 i.modifier in
      let more = to_base_amount_inflates amount m.next.demurrage_amount low m.converted in
      let sum = total-set_balance m.to (balance_of m.paid m.to + m.base_value) m.paid in
      let before = supply_of-some s m.info m.stored in
      let after : supply_of s' ≡ m.info.total_supply + amount =
        rw m.result (supply_of-some m.paid info' f.0) in
      omega (arith, ap held m.result)

  execute-IsBacked :
      (env : Env) (info : MessageInfo) (msg : ExecuteMsg) (s : Store) {r : Response} {s' : Store}
      → execute chain env info msg s ≡ (ok r, s')
      → IsSound s
      → IsBacked s
      → IsBacked s'
  unfolding execute
  execute-IsBacked env info (ExecuteMsg.transfer recipient amount) s h i b =
      DemurredPayment-IsBacked env info.sender amount s _
        (execute_transfer-eq-ok chain env info recipient amount s h) i b
  execute-IsBacked env info (ExecuteMsg.burn amount) s h i b =
      Burned-IsBacked info.sender amount s _ (execute_burn-eq-ok env info amount s h).1 b
  execute-IsBacked env info (ExecuteMsg.send contract amount msg) s {s' = s'} h i b =
      let (to, _, _, enough, e, _) = execute_send-eq-ok chain env info contract amount msg s h in
      moved-IsBacked info.sender to amount s s' enough e b
  execute-IsBacked env info (ExecuteMsg.increase_allowance spender amount expires) s h i b =
      let run = execute_increase_allowance-eq-ok chain env info spender amount expires s h in
      rw run.result b
  execute-IsBacked env info (ExecuteMsg.decrease_allowance spender amount expires) s {s' = s'} h i
        b =
      let (e, _, same) =
        execute_decrease_allowance-frame chain env info spender amount expires s h in
      IsBacked-same s s' e (rw same (omega arith)) b
  execute-IsBacked env info (ExecuteMsg.transfer_from owner recipient amount) s h i b =
      let (from, s0, _, d, run) =
        execute_transfer_from-eq-ok chain env info owner recipient amount s h in
      DemurredPayment-IsBacked env from amount s0 _ run (Deduction-IsSound d i)
        (Deduction-IsBacked s s0 d b)
  execute-IsBacked env info (ExecuteMsg.send_from owner contract amount msg) s {s' = s'} h i b =
      let (from, to, s0, _, _, d, enough, e, _) =
        execute_send_from-eq-ok chain env info owner contract amount msg s h in
      moved-IsBacked from to amount s0 s' enough e (Deduction-IsBacked s s0 d b)
  execute-IsBacked env info (ExecuteMsg.burn_from owner amount) s h i b =
      let (from, s0, _, d, burned) = execute_burn_from-eq-ok chain env info owner amount s h in
      Burned-IsBacked from amount s0 _ burned (Deduction-IsBacked s s0 d b)
  execute-IsBacked env info (ExecuteMsg.mint recipient amount) s h i b =
      Minted-IsBacked env info.sender amount s _
        (execute_mint-eq-ok chain env info recipient amount s h) i b
  execute-IsBacked env info (ExecuteMsg.update_minter new_minter) s h i b =
      let (token, m, minter, e, _, _, _, e2) =
        execute_update_minter-eq-ok chain env info new_minter s h in
      let before = supply_of-some s token e in
      let k : token.total_supply ≤ held s = omega arith in rw e2 k
  execute-IsBacked env info (ExecuteMsg.change_sink_address address) s h i b =
      let (_, _, e) = execute_change_sink_address-eq-ok s address h in rw e b
  execute-IsBacked env info (ExecuteMsg.change_tax_level amount) s h i b =
      let (_, _, e) = execute_change_tax_level-eq-ok s amount h in rw e b

  pub Reach-IsBacked : {s t : Store} → IsSound s → IsBacked s → Reach chain s t → IsBacked t
  Reach-IsBacked i b Reach.here = b
  Reach-IsBacked i b (Reach.next {t} env info msg r path h) =
      execute-IsBacked env info msg t h (Reach-IsSound chain i path) (Reach-IsBacked i b path)
