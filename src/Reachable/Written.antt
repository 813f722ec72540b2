-- ===== src/Reachable/Written.antt =====
-- The maps of the storage of src/contract.rs after any run of messages: what was written to them.
use demurrage_token.Base.{bytes_eq, ℕ, ◌+◌, ◌-◌, ◌≡◌, sym, inl, inr, Bool-cases, Option, Bytes}
use demurrage_token.Outcome.{ok}
use demurrage_token.Std.{Addr, BlockInfo, Env, MessageInfo, Response}
use demurrage_token.Cw20.{AllowanceResponse}
use demurrage_token.Expiration.{Expiration}
use demurrage_token.Period.{change_period}
use demurrage_token.Allowances.{set_expires, execute_decrease_allowance}
use demurrage_token.Chain.{Chain}
use demurrage_token.State.{ContractError, State, Store}
use demurrage_token.Balances.{balance_of, set_balance}
use demurrage_token.Balances.Moves.{moved}
use demurrage_token.Period.Decays.{with_state}
use demurrage_token.Period.Effects.{Taxed, sink_of, change_period-eq-ok, tax_of}
use demurrage_token.Supply.Mint.{Minted, execute_mint-eq-ok, with_supply, with_token_info}
use demurrage_token.Supply.Minter.{execute_update_minter-eq-ok}
use demurrage_token.Payments.Demurred.{
  DemurredPayment, execute_transfer-eq-ok, execute_transfer_from-eq-ok,
}
use demurrage_token.Payments.Plain.{
  Burned, execute_send-eq-ok, execute_burn-eq-ok, execute_burn_from-eq-ok, execute_send_from-eq-ok,
}
use demurrage_token.Allowances.Change.{
  execute_increase_allowance-eq-ok, execute_decrease_allowance_lem,
  execute_decrease_allowance-eq-ok,
}
use demurrage_token.Settings.{execute_change_tax_level-eq-ok, execute_change_sink_address-eq-ok}
use demurrage_token.Msg.{ExecuteMsg}
use demurrage_token.Contract.{execute}
use demurrage_token.Reachable.{Reach}
use demurrage_token.Storage.Written.{
  Written, unchanged, saved, removed, Written-trans, Written-of_eq,
}
use demurrage_token.Allowances.Deduct.{Deduction}
use demurrage_token.Base.{pair_eq, ap, refl, ◌∙◌, ltb, Bool, ◌⊎◌}

-- Both maps are had by saves and removals.
pub record Rewritten (s s' : Store) : Type 0 where
  pub balances : Written s.balances s'.balances
  pub allowances : Written s.allowances s'.allowances

Rewritten-trans : (s t u : Store) → Rewritten s t → Rewritten t u → Rewritten s u
Rewritten-trans s t u w w' = record {
  balances = Written-trans w.balances w'.balances;
  allowances = Written-trans w.allowances w'.allowances;
}

same-Rewritten :
    (s s' : Store) → s'.balances ≡ s.balances → s'.allowances ≡ s.allowances → Rewritten s s'
same-Rewritten s s' e e' = record { balances = Written-of_eq e; allowances = Written-of_eq e' }

set_balance-Rewritten : (k : Addr) (v : ℕ) (s s' : Store) → s' ≡ set_balance k v s → Rewritten s s'
set_balance-Rewritten k v s s' e =
    rw e (record { balances = saved k v unchanged; allowances = unchanged })

moved-Rewritten :
    (from to : Addr) (out into : ℕ) (s s' : Store) → s' ≡ moved from to out into s → Rewritten s s'
moved-Rewritten from to out into s s' e =
    let left = balance_of s from - out in
    let s1 = set_balance from left s in
    Rewritten-trans s s1 s' (set_balance-Rewritten from left s s1 refl)
      (set_balance-Rewritten to (balance_of s1 to + into) s1 s' e)

Burned-Rewritten :
    (from : Addr) (amount : ℕ) (s s' : Store) → Burned from amount s s' → Rewritten s s'
Burned-Rewritten from amount s s' b = rw b.result (record {
  balances = saved from (balance_of s from - amount) unchanged;
  allowances = unchanged;
})

Deduction-Rewritten :
    (owner spender : Addr) (block : BlockInfo) (amount : ℕ) (s s' : Store)
    → Deduction owner spender block amount s s'
    → Rewritten s s'
Deduction-Rewritten owner spender block amount s s' d = rw d.result (record {
  balances = unchanged;
  allowances =
      saved (owner, spender) (record d.before { allowance = d.before.allowance - amount })
        unchanged;
})

module _ (chain : Chain) where
  -- Whatever changed a period has written the sink's balance, or nothing.
  Taxed-Rewritten :
      (state : State) (tax : ℕ) (s s' : Store) → Taxed chain state tax s s' → Rewritten s s'
  Taxed-Rewritten state tax s s' (inl e) =
      same-Rewritten s s' (ap (λ (x : Store). x.balances) e) (ap (λ (x : Store). x.allowances) e)
  Taxed-Rewritten state tax s s' (inr e) =
      let sink = sink_of chain state in set_balance-Rewritten sink (balance_of s sink + tax) s s' e

  period-Rewritten :
      (env : Env) (state next : State) (s paid : Store) {r : ContractError ⊎ Bool}
      → change_period chain env state s ≡ (ok (r, next), paid)
      → Rewritten s paid
  period-Rewritten env state next s paid {r} h =
      let c = change_period-eq-ok chain env state s {r = (r, next)} h in
      let w = Taxed-Rewritten next (tax_of next s) (with_state s next) paid c.3 in
      record { balances = w.balances; allowances = w.allowances }

  DemurredPayment-Rewritten :
      {recipient : Bytes} (env : Env) (from : Addr) (amount : ℕ) (s s' : Store)
      → DemurredPayment chain env from recipient amount s s'
      → Rewritten s s'
  DemurredPayment-Rewritten env from amount s s' run =
      Rewritten-trans s run.paid s'
        (period-Rewritten env run.state run.next s run.paid run.period.1)
        (moved-Rewritten from run.to amount run.base_value run.paid s' run.result)

  Minted-Rewritten :
      {recipient : Bytes} (env : Env) (sender : Addr) (amount : ℕ) (s s' : Store)
      → Minted chain env sender recipient amount s s'
      → Rewritten s s'
  Minted-Rewritten env sender amount s s' m =
      let s0 = with_token_info s (with_supply m.info (m.info.total_supply + amount)) in
      let w = period-Rewritten env m.state m.next s0 m.paid m.period.1 in
      Rewritten-trans s m.paid s' (record { balances = w.balances; allowances = w.allowances })
        (set_balance-Rewritten m.to (balance_of m.paid m.to + m.base_value) m.paid s' m.result)

  execute_decrease_allowance-Rewritten :
      (env : Env) (info : MessageInfo) (spender : Bytes) (amount : ℕ) (expires : Option Expiration)
      (s : Store) {r : Response} {s' : Store}
      → execute_decrease_allowance chain env info spender amount expires s ≡ (ok r, s')
      → Rewritten s s'
  execute_decrease_allowance-Rewritten env info spender amount expires s {s' = s'} h =
      let (to, a, valid, other, found) =
        execute_decrease_allowance-eq-ok chain env info spender amount expires s h in
      let e =
        execute_decrease_allowance_lem chain env info spender amount expires s to a valid other
          found in
      let key : Addr × Addr = (info.sender, to) in
      let left : AllowanceResponse =
        set_expires expires (record a { allowance = a.allowance - amount }) in
      let result = sym (ap (λ p. p.1) h) ∙ e in
      elim (Bool-cases (ltb amount a.allowance)) [
        | inl less ↦
            let e' = rw less at result in
            rw e' (record { balances = unchanged; allowances = saved key left unchanged })
        | inr more ↦
            let e' = rw more at result in
            rw e' (record { balances = unchanged; allowances = removed key unchanged })
      ]

  pub execute-Rewritten :
      (env : Env) (info : MessageInfo) (msg : ExecuteMsg) (s : Store) {r : Response} {s' : Store}
      → execute chain env info msg s ≡ (ok r, s')
      → Rewritten s s'
  unfolding execute
  execute-Rewritten env info (ExecuteMsg.transfer recipient amount) s {s' = s'} h =
      DemurredPayment-Rewritten env info.sender amount s s'
        (execute_transfer-eq-ok chain env info recipient amount s h)
  execute-Rewritten env info (ExecuteMsg.burn amount) s {s' = s'} h =
      Burned-Rewritten info.sender amount s s' (execute_burn-eq-ok env info amount s h).1
  execute-Rewritten env info (ExecuteMsg.send contract amount msg) s {s' = s'} h =
      let (to, _, _, _, e, _) = execute_send-eq-ok chain env info contract amount msg s h in
      moved-Rewritten info.sender to amount amount s s' e
  execute-Rewritten env info (ExecuteMsg.increase_allowance spender amount expires) s h =
      let run = execute_increase_allowance-eq-ok chain env info spender amount expires s h in
      rw run.result (record { balances = unchanged; allowances = saved _ _ unchanged })
  execute-Rewritten env info (ExecuteMsg.decrease_allowance spender amount expires) s h =
      execute_decrease_allowance-Rewritten env info spender amount expires s h
  execute-Rewritten env info (ExecuteMsg.transfer_from owner recipient amount) s {s' = s'} h =
      let (from, s0, _, d, run) =
        execute_transfer_from-eq-ok chain env info owner recipient amount s h in
      Rewritten-trans s s0 s' (Deduction-Rewritten from info.sender env.block amount s s0 d)
        (DemurredPayment-Rewritten env from amount s0 s' run)
  execute-Rewritten env info (ExecuteMsg.send_from owner contract amount msg) s {s' = s'} h =
      let (from, to, s0, _, _, d, _, e, _) =
        execute_send_from-eq-ok chain env info owner contract amount msg s h in
      Rewritten-trans s s0 s' (Deduction-Rewritten from info.sender env.block amount s s0 d)
        (moved-Rewritten from to amount amount s0 s' e)
  execute-Rewritten env info (ExecuteMsg.burn_from owner amount) s {s' = s'} h =
      let (from, s0, _, d, b) = execute_burn_from-eq-ok chain env info owner amount s h in
      Rewritten-trans s s0 s' (Deduction-Rewritten from info.sender env.block amount s s0 d)
        (Burned-Rewritten from amount s0 s' b)
  execute-Rewritten env info (ExecuteMsg.mint recipient amount) s {s' = s'} h =
      Minted-Rewritten env info.sender amount s s'
        (execute_mint-eq-ok chain env info recipient amount s h)
  execute-Rewritten env info (ExecuteMsg.update_minter new_minter) s h =
      let e = (execute_update_minter-eq-ok chain env info new_minter s h).7 in
      rw e (record { balances = unchanged; allowances = unchanged })
  execute-Rewritten env info (ExecuteMsg.change_sink_address address) s h =
      let e = (execute_change_sink_address-eq-ok s address h).2 in
      rw e (record { balances = unchanged; allowances = unchanged })
  execute-Rewritten env info (ExecuteMsg.change_tax_level amount) s h =
      let e = (execute_change_tax_level-eq-ok s amount h).2 in
      rw e (record { balances = unchanged; allowances = unchanged })

  pub Reach-Rewritten : {s t : Store} → Reach chain s t → Rewritten s t
  Reach-Rewritten Reach.here = record { balances = unchanged; allowances = unchanged }
  Reach-Rewritten {s} {t} (Reach.next {t = mid} env info msg r path h) =
      Rewritten-trans s mid t (Reach-Rewritten path) (execute-Rewritten env info msg mid h)
