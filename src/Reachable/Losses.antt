-- ===== src/Reachable/Losses.antt =====
-- What an owner can lose over a run of messages of src/contract.rs that others send.
use demurrage_token.Base.{
  Bytes, bytes_eq, bytes_iff, ℕ, ◌+◌, ◌≤◌, ◌≡◌, ◌≢◌, arith, ap, refl, ◌=?◌, ltb, if◌then◌else◌,
  Bool-cases, inl, inr, sym, Option, ◌∙◌, ◌-◌,
}
use demurrage_token.Outcome.{ok}
use demurrage_token.Std.{Addr, BlockInfo, Env, MessageInfo, Response}
use demurrage_token.Expiration.{Expiration}
use demurrage_token.Cw20.{AllowanceResponse}
use demurrage_token.Chain.{Chain}
use demurrage_token.State.{Store}
use demurrage_token.Balances.{balance_of}
use demurrage_token.Period.Decays.{with_state}
use demurrage_token.Period.Effects.{change_period-eq-ok, tax_of}
use demurrage_token.Supply.Mint.{Minted, execute_mint-eq-ok, with_supply, with_token_info}
use demurrage_token.Supply.Minter.{execute_update_minter-eq-ok}
use demurrage_token.Payments.Demurred.{execute_transfer-eq-ok, execute_transfer_from-eq-ok}
use demurrage_token.Payments.Plain.{
  execute_send-eq-ok, execute_burn-eq-ok, execute_burn_from-eq-ok, execute_send_from-eq-ok,
}
use demurrage_token.Payments.Totals.{Taxed-frame, DemurredPayment-frame}
use demurrage_token.Allowances.Deduct.{Deduction}
use demurrage_token.Allowances.Change.{
  base_allowance, execute_increase_allowance-eq-ok, execute_decrease_allowance_lem,
  execute_decrease_allowance-eq-ok, execute_decrease_allowance-frame,
}
use demurrage_token.Allowances.{set_expires, execute_decrease_allowance}
use demurrage_token.Allowances.Lent.{lent_by, lent_by-remove, lent_by-other, Deduction-lent_by}
use demurrage_token.Settings.{execute_change_tax_level-eq-ok, execute_change_sink_address-eq-ok}
use demurrage_token.Msg.{ExecuteMsg}
use demurrage_token.Contract.{execute}
use demurrage_token.Reachable.{Reach}
use demurrage_token.Reachable.Owners.{
  LowersOnly, moved-LowersOnly, Burned-LowersOnly, DemurredPayment-LowersOnly, Minted-raises,
}

-- The balance falls by no more than what the owner has lent does.
abbrev Covered : Addr → Store → Store → Type 0
Covered j s s' = balance_of s j + lent_by j s'.allowances ≤ balance_of s' j + lent_by j s.allowances

Covered-same :
    (j : Addr) (s s' : Store)
    → s'.balances ≡ s.balances
    → lent_by j s'.allowances ≡ lent_by j s.allowances
    → Covered j s s'
Covered-same j s s' e lent = let b : balance_of s' j ≡ balance_of s j = rw e refl in omega arith

-- A payment of another's own balance.
Covered-own :
    (j from : Addr) (amount : ℕ) (s s' : Store)
    → from ≢ j
    → LowersOnly from amount s s'
    → s'.allowances ≡ s.allowances
    → Covered j s s'
Covered-own j from amount s s' ne lowers same =
    let lent = ap (lent_by j) same in
    elim (Bool-cases (ltb (balance_of s' j) (balance_of s j))) [
      | inl less ↦ absurd (ne ((lowers j).0 (ground arith)))
      | inr kept ↦ ground (arith, lent, kept)
    ]

-- A payment out of an allowance.
Covered-lent :
    (j owner spender : Addr) (block : BlockInfo) (amount : ℕ) (s s0 s' : Store)
    → Deduction owner spender block amount s s0
    → LowersOnly owner amount s0 s'
    → s'.allowances ≡ s0.allowances
    → Covered j s s'
Covered-lent j owner spender block amount s s0 s' d lowers same =
    let lent = ap (lent_by j) same in
    let less = Deduction-lent_by owner spender j block amount s s0 d in
    let b = ap (λ (x : Store). balance_of x j) d.result in
    elim (Bool-cases (owner =? j)) [
      | inl mine ↦
          let (_, most) = lowers j in
          let sum = rw mine at less in ground (arith, lent, sum, b, most)
      | inr other ↦
          let sum = rw other at less in
          let up =
            Covered-own j owner amount s0 s' (ground (arith, bytes_iff owner j)) lowers same in
          ground (arith, lent, sum, b, up)
    ]

module _ (chain : Chain) where
  Covered-decrease :
      (j : Addr) (env : Env) (info : MessageInfo) (spender : Bytes) (amount : ℕ)
      (expires : Option Expiration) (s : Store) {r : Response} {s' : Store}
      → info.sender ≢ j
      → execute_decrease_allowance chain env info spender amount expires s ≡ (ok r, s')
      → Covered j s s'
  Covered-decrease j env info spender amount expires s {s' = s'} ne h =
      let (to, a, valid, other, found) =
        execute_decrease_allowance-eq-ok chain env info spender amount expires s h in
      let (_, _, same) =
        execute_decrease_allowance-frame chain env info spender amount expires s h in
      let e =
        execute_decrease_allowance_lem chain env info spender amount expires s to a valid other
          found in
      let key : Addr × Addr = (info.sender, to) in
      let left : AllowanceResponse =
        set_expires expires (record a { allowance = a.allowance - amount }) in
      let after = ap (λ (x : Store). lent_by j x.allowances) (sym (ap (λ p. p.1) h) ∙ e) in
      let gone = lent_by-remove j key s.allowances ne in
      let set = lent_by-other j key left s.allowances ne in
      Covered-same j s s' same (elim (Bool-cases (ltb amount a.allowance)) [
        | inl less ↦ (rw less at after) ∙ set
        | inr more ↦ (rw more at after) ∙ gone
      ])

  Covered-mint :
      {recipient : Bytes} (j : Addr) (env : Env) (sender : Addr) (amount : ℕ) (s s' : Store)
      → Minted chain env sender recipient amount s s'
      → Covered j s s'
  Covered-mint j env sender amount s s' m =
      let s0 = with_token_info s (with_supply m.info (m.info.total_supply + amount)) in
      let c = change_period-eq-ok chain env m.state s0 {r = (m.period.0, m.next)} m.period.1 in
      let f = Taxed-frame chain m.next (tax_of m.next s0) (with_state s0 m.next) m.paid c.3 in
      let up = Minted-raises chain env sender amount s s' m j in
      let after = ap (λ (x : Store). lent_by j x.allowances) m.result in
      let paid = ap (lent_by j) f.1 in omega arith

  execute-Covered :
      (j : Addr) (env : Env) (info : MessageInfo) (msg : ExecuteMsg) (s : Store) {r : Response}
      {s' : Store}
      → info.sender ≢ j
      → execute chain env info msg s ≡ (ok r, s')
      → Covered j s s'
  unfolding execute
  execute-Covered j env info (ExecuteMsg.transfer recipient amount) s {s' = s'} ne h =
      let run = execute_transfer-eq-ok chain env info recipient amount s h in
      Covered-own j info.sender amount s s' ne
        (DemurredPayment-LowersOnly chain env info.sender amount s s' run)
        (DemurredPayment-frame chain env info.sender amount s s' run).1
  execute-Covered j env info (ExecuteMsg.burn amount) s {s' = s'} ne h =
      let run = (execute_burn-eq-ok env info amount s h).1 in
      Covered-own j info.sender amount s s' ne (Burned-LowersOnly info.sender amount s s' run)
        (ap (λ (x : Store). x.allowances) run.result)
  execute-Covered j env info (ExecuteMsg.send contract amount msg) s {s' = s'} ne h =
      let (to, _, _, enough, e, _) = execute_send-eq-ok chain env info contract amount msg s h in
      Covered-own j info.sender amount s s' ne
        (moved-LowersOnly info.sender to amount amount s s' enough e)
        (ap (λ (x : Store). x.allowances) e)
  execute-Covered j env info (ExecuteMsg.increase_allowance spender amount expires) s {s' = s'} ne
        h =
      let run = execute_increase_allowance-eq-ok chain env info spender amount expires s h in
      let base = base_allowance chain env info spender amount expires s run.to in
      let more : AllowanceResponse = record base {
        allowance = base.allowance + (amount + run.base_value);
      } in
      Covered-same j s s' (ap (λ (x : Store). x.balances) run.result) (
        ap (λ (x : Store). lent_by j x.allowances) run.result
        ∙ lent_by-other j (info.sender, run.to) more s.allowances ne)
  execute-Covered j env info (ExecuteMsg.decrease_allowance spender amount expires) s ne h =
      Covered-decrease j env info spender amount expires s ne h
  execute-Covered j env info (ExecuteMsg.transfer_from owner recipient amount) s {s' = s'} ne h =
      let (from, s0, _, d, run) =
        execute_transfer_from-eq-ok chain env info owner recipient amount s h in
      Covered-lent j from info.sender env.block amount s s0 s' d
        (DemurredPayment-LowersOnly chain env from amount s0 s' run)
        (DemurredPayment-frame chain env from amount s0 s' run).1
  execute-Covered j env info (ExecuteMsg.send_from owner contract amount msg) s {s' = s'} ne h =
      let (from, to, s0, _, _, d, enough, e, _) =
        execute_send_from-eq-ok chain env info owner contract amount msg s h in
      Covered-lent j from info.sender env.block amount s s0 s' d
        (moved-LowersOnly from to amount amount s0 s' enough e) (ap (λ (x : Store). x.allowances) e)
  execute-Covered j env info (ExecuteMsg.burn_from owner amount) s {s' = s'} ne h =
      let (from, s0, _, d, burned) = execute_burn_from-eq-ok chain env info owner amount s h in
      Covered-lent j from info.sender env.block amount s s0 s' d
        (Burned-LowersOnly from amount s0 s' burned)
        (ap (λ (x : Store). x.allowances) burned.result)
  execute-Covered j env info (ExecuteMsg.mint recipient amount) s {s' = s'} ne h =
      Covered-mint j env info.sender amount s s'
        (execute_mint-eq-ok chain env info recipient amount s h)
  execute-Covered j env info (ExecuteMsg.update_minter new_minter) s {s' = s'} ne h =
      let e = (execute_update_minter-eq-ok chain env info new_minter s h).7 in
      Covered-same j s s' (ap (λ (x : Store). x.balances) e)
        (ap (λ (x : Store). lent_by j x.allowances) e)
  execute-Covered j env info (ExecuteMsg.change_sink_address address) s {s' = s'} ne h =
      let e = (execute_change_sink_address-eq-ok s address h).2 in
      Covered-same j s s' (ap (λ (x : Store). x.balances) e)
        (ap (λ (x : Store). lent_by j x.allowances) e)
  execute-Covered j env info (ExecuteMsg.change_tax_level amount) s {s' = s'} ne h =
      let e = (execute_change_tax_level-eq-ok s amount h).2 in
      Covered-same j s s' (ap (λ (x : Store). x.balances) e)
        (ap (λ (x : Store). lent_by j x.allowances) e)

  -- The messages of a run that an account sent.
  abbrev pub sent_by : {s t : Store} → Addr → Reach chain s t → ℕ
  sent_by j Reach.here = 0
  sent_by j (Reach.next env info msg r path h) =
      sent_by j path + (if info.sender =? j then 1 else 0)

  -- Over any run of messages that succeed of which an owner sent none, the balance of the owner
  -- falls by no more than what the owner has lent to all spenders together does.
  pub Reach-lent_by :
      {s t : Store} (owner : Addr) (path : Reach chain s t)
      → sent_by owner path ≡ 0
      → balance_of s owner + lent_by owner t.allowances
        ≤ balance_of t owner + lent_by owner s.allowances
  Reach-lent_by owner Reach.here none_sent = omega arith
  Reach-lent_by owner (Reach.next {t = mid} env info msg r path h) none_sent =
      let before = Reach-lent_by owner path (omega arith) in
      let step =
        execute-Covered owner env info msg mid (ground (arith, bytes_iff info.sender owner)) h in
      omega arith
