-- ===== src/Reachable/Owners.antt =====
-- Whose balances a message of src/contract.rs lowers, and by which right.
use demurrage_token.Base.{
  Bytes, bytes_eq, bytes_iff, pair_eq, ℕ, ◌+◌, ◌-◌, ◌≤◌, ◌<◌, ◌≡◌, arith, ap, sym, refl, some,
  false, inl, inr, ◌⊎◌,
}
use demurrage_token.Outcome.{ok}
use demurrage_token.Std.{Addr, BlockInfo, Env, MessageInfo, Response}
use demurrage_token.Cw20.{AllowanceResponse}
use demurrage_token.Expiration.{is_expired}
use demurrage_token.Chain.{Chain}
use demurrage_token.State.{Store}
use demurrage_token.Balances.{balance_of}
use demurrage_token.Balances.Laws.{balance_of-set_balance}
use demurrage_token.Balances.Moves.{moved, balance_of-moved}
use demurrage_token.Period.Decays.{with_state}
use demurrage_token.Period.Effects.{change_period-eq-ok, tax_of}
use demurrage_token.Supply.Mint.{Minted, execute_mint-eq-ok, with_supply, with_token_info}
use demurrage_token.Supply.Minter.{execute_update_minter-eq-ok}
use demurrage_token.Payments.Demurred.{
  DemurredPayment, execute_transfer-eq-ok, execute_transfer_from-eq-ok,
}
use demurrage_token.Payments.Plain.{
  Burned, execute_send-eq-ok, execute_burn-eq-ok, execute_burn_from-eq-ok, execute_send_from-eq-ok,
}
use demurrage_token.Payments.Totals.{DemurredPayment-frame}
use demurrage_token.Payments.Returns.{balance_of-Taxed}
use demurrage_token.Allowances.Deduct.{Deduction, allowance_at}
use demurrage_token.Allowances.Change.{
  allowance_at-set_self, execute_increase_allowance-eq-ok, execute_decrease_allowance-frame,
}
use demurrage_token.Settings.{execute_change_tax_level-eq-ok, execute_change_sink_address-eq-ok}
use demurrage_token.Msg.{ExecuteMsg}
use demurrage_token.Contract.{execute}

-- No balance but that of `from` is lowered, and that one by at most the amount.
abbrev pub LowersOnly : Addr → ℕ → Store → Store → Type 0
LowersOnly from amount s s' =
    (j : Addr)
    → (balance_of s' j < balance_of s j → from ≡ j) × (balance_of s j ≤ balance_of s' j + amount)

-- `spender` had an allowance from `owner` that had not ended, and it fell by no less than the
-- owner's balance.
abbrev pub SpentAllowance : Addr → Addr → BlockInfo → Store → Store → Type 0
SpentAllowance owner spender block s s' =
    (before after : AllowanceResponse) × (allowance_at (owner, spender) s ≡ some before)
    × (is_expired before.expires block ≡ false)
    × (allowance_at (owner, spender) s' ≡ some after)
    × (balance_of s owner + after.allowance ≤ balance_of s' owner + before.allowance)

pub moved-LowersOnly :
    (from to : Addr) (out into : ℕ) (s s' : Store)
    → out ≤ balance_of s from
    → s' ≡ moved from to out into s
    → LowersOnly from out s s'
moved-LowersOnly from to out into s s' enough e j =
    let k = balance_of-moved from to out into s enough j in
    let b : balance_of s' j ≡ balance_of (moved from to out into s) j =
      ap (λ (x : Store). balance_of x j) e in
    (λ less. ground (arith, bytes_iff from j, k, b), ground (arith, bytes_iff from j, k, b))

pub Burned-LowersOnly :
    (from : Addr) (amount : ℕ) (s s' : Store)
    → Burned from amount s s'
    → LowersOnly from amount s s'
Burned-LowersOnly from amount s s' run j =
    let k = balance_of-set_balance from j (balance_of s from - amount) s in
    let b = ap (λ (x : Store). balance_of x j) run.result in
    (
      λ less. ground (arith, bytes_iff from j, k, b),
      ground (arith, bytes_iff from j, k, b, run.enough),
    )

-- Balances that are not written are not lowered.
same_balances :
    (s s' : Store) (j : Addr) → s'.balances ≡ s.balances → balance_of s' j < balance_of s j → ⊥
same_balances s s' j e less = let k : balance_of s' j ≡ balance_of s j = rw e refl in omega arith

module _ (chain : Chain) where
  pub DemurredPayment-LowersOnly :
      {recipient : Bytes} (env : Env) (from : Addr) (amount : ℕ) (s s' : Store)
      → DemurredPayment chain env from recipient amount s s'
      → LowersOnly from amount s s'
  DemurredPayment-LowersOnly env from amount s s' run j =
      let c =
        change_period-eq-ok chain env run.state s {r = (run.period.0, run.next)} run.period.1 in
      let up =
        balance_of-Taxed chain run.next (tax_of run.next s) (with_state s run.next) run.paid c.3
          j in
      let (which, most) =
        moved-LowersOnly from run.to amount run.base_value run.paid s' run.enough run.result j in
      (λ less. which (omega arith), omega arith)

  pub Minted-raises :
      {recipient : Bytes} (env : Env) (sender : Addr) (amount : ℕ) (s s' : Store)
      → Minted chain env sender recipient amount s s'
      → (j : Addr) → balance_of s j ≤ balance_of s' j
  Minted-raises env sender amount s s' m j =
      let s0 = with_token_info s (with_supply m.info (m.info.total_supply + amount)) in
      let c = change_period-eq-ok chain env m.state s0 {r = (m.period.0, m.next)} m.period.1 in
      let up =
        balance_of-Taxed chain m.next (tax_of m.next s0) (with_state s0 m.next) m.paid c.3 j in
      let k = balance_of-set_balance m.to j (balance_of m.paid m.to + m.base_value) m.paid in
      let b = ap (λ (x : Store). balance_of x j) m.result in
      ground (arith, bytes_iff m.to j, k, b, up)

  module _ (env : Env) (info : MessageInfo) (s s' : Store) (j : Addr)
      (less : balance_of s' j < balance_of s j) where
    -- A balance that is lowered after a deduction is the owner's, and the deduction covers it.
    Deduction-SpentAllowance :
        (owner : Addr) (amount : ℕ) (s0 : Store)
        → Deduction owner info.sender env.block amount s s0
        → LowersOnly owner amount s0 s'
        → s'.allowances ≡ s0.allowances
        → SpentAllowance j info.sender env.block s s'
    Deduction-SpentAllowance owner amount s0 d lowers same =
        let (which, most) = lowers j in
        let b = ap (λ (x : Store). balance_of x j) d.result in
        let key : Addr × Addr = (owner, info.sender) in
        let after : AllowanceResponse = record d.before {
          allowance = d.before.allowance - amount;
        } in
        let is_owner : owner ≡ j = which (omega arith) in
        let left : allowance_at key s' ≡ some after =
          rw same (rw d.result (allowance_at-set_self key after s)) in
        (
          d.before,
          after,
          rw is_owner at d.found,
          d.live,
          rw is_owner at left,
          omega (arith, d.enough),
        )

  -- A message that succeeds lowers a balance only if it is the sender's, or if its owner had given
  -- the sender an allowance that has not ended, and then that allowance falls by at least as much
  -- as the balance.
  pub execute_owners :
      (env : Env) (info : MessageInfo) (msg : ExecuteMsg) (s : Store) {r : Response} {s' : Store}
      → execute chain env info msg s ≡ (ok r, s')
      → (j : Addr) → balance_of s' j < balance_of s j
      → (j ≡ info.sender) ⊎ SpentAllowance j info.sender env.block s s'
  unfolding execute
  execute_owners env info (ExecuteMsg.transfer recipient amount) s {s' = s'} h j less =
      let run = execute_transfer-eq-ok chain env info recipient amount s h in
      let own = (DemurredPayment-LowersOnly env info.sender amount s s' run j).0 less in
      inl (sym own)
  execute_owners env info (ExecuteMsg.burn amount) s {s' = s'} h j less =
      let run = (execute_burn-eq-ok env info amount s h).1 in
      inl (sym ((Burned-LowersOnly info.sender amount s s' run j).0 less))
  execute_owners env info (ExecuteMsg.send contract amount msg) s {s' = s'} h j less =
      let (to, _, _, enough, e, _) = execute_send-eq-ok chain env info contract amount msg s h in
      inl (sym ((moved-LowersOnly info.sender to amount amount s s' enough e j).0 less))
  execute_owners env info (ExecuteMsg.increase_allowance spender amount expires) s {s' = s'} h j
        less =
      let run = execute_increase_allowance-eq-ok chain env info spender amount expires s h in
      absurd (same_balances s s' j (ap (λ (x : Store). x.balances) run.result) less)
  execute_owners env info (ExecuteMsg.decrease_allowance spender amount expires) s {s' = s'} h j
        less =
      let (_, _, same) =
        execute_decrease_allowance-frame chain env info spender amount expires s h in
      absurd (same_balances s s' j same less)
  execute_owners env info (ExecuteMsg.transfer_from owner recipient amount) s {s' = s'} h j less =
      let (from, s0, _, d, run) =
        execute_transfer_from-eq-ok chain env info owner recipient amount s h in
      inr (
        Deduction-SpentAllowance env info s s' j less from amount s0 d
          (DemurredPayment-LowersOnly env from amount s0 s' run)
          (DemurredPayment-frame chain env from amount s0 s' run).1)
  execute_owners env info (ExecuteMsg.send_from owner contract amount msg) s {s' = s'} h j less =
      let (from, to, s0, _, _, d, enough, e, _) =
        execute_send_from-eq-ok chain env info owner contract amount msg s h in
      inr (
        Deduction-SpentAllowance env info s s' j less from amount s0 d
          (moved-LowersOnly from to amount amount s0 s' enough e)
          (ap (λ (x : Store). x.allowances) e))
  execute_owners env info (ExecuteMsg.burn_from owner amount) s {s' = s'} h j less =
      let (from, s0, _, d, burned) = execute_burn_from-eq-ok chain env info owner amount s h in
      inr (
        Deduction-SpentAllowance env info s s' j less from amount s0 d
          (Burned-LowersOnly from amount s0 s' burned)
          (ap (λ (x : Store). x.allowances) burned.result))
  execute_owners env info (ExecuteMsg.mint recipient amount) s {s' = s'} h j less =
      let run = execute_mint-eq-ok chain env info recipient amount s h in
      let up = Minted-raises env info.sender amount s s' run j in absurd (omega arith)
  execute_owners env info (ExecuteMsg.update_minter new_minter) s {s' = s'} h j less =
      let e = (execute_update_minter-eq-ok chain env info new_minter s h).7 in
      absurd (same_balances s s' j (ap (λ (x : Store). x.balances) e) less)
  execute_owners env info (ExecuteMsg.change_sink_address address) s {s' = s'} h j less =
      let e = (execute_change_sink_address-eq-ok s address h).2 in
      absurd (same_balances s s' j (ap (λ (x : Store). x.balances) e) less)
  execute_owners env info (ExecuteMsg.change_tax_level amount) s {s' = s'} h j less =
      let e = (execute_change_tax_level-eq-ok s amount h).2 in
      absurd (same_balances s s' j (ap (λ (x : Store). x.balances) e) less)
