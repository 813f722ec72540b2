-- ===== src/Reachable/Sound.antt =====
-- The token info and the demurrage state of src/contract.rs over any run of messages: the supply
-- against the cap, and the modifier against the initial one.
use demurrage_token.Base.{Bytes, bytes_eq, ℕ, ◌+◌, ◌-◌, ◌≤◌, ◌≡◌, refl, arith, Option, some, none}
use demurrage_token.Outcome.{ok}
use demurrage_token.Std.{Addr, BlockInfo, Env, MessageInfo, Response}
use demurrage_token.Chain.{Chain}
use demurrage_token.State.{State, Store, TokenInfo, MinterData, get_cap}
use demurrage_token.Demurrage.BaseAmount.{full_amount}
use demurrage_token.Supply.Mint.{
  WithinCap, Minted, execute_mint-eq-ok, with_supply, with_token_info,
}
use demurrage_token.Supply.Minter.{execute_update_minter-eq-ok}
use demurrage_token.Period.Decays.{with_state}
use demurrage_token.Period.Effects.{change_period-eq-ok, tax_of}
use demurrage_token.Payments.Demurred.{
  DemurredPayment, execute_transfer-eq-ok, execute_transfer_from-eq-ok,
}
use demurrage_token.Payments.Plain.{
  Burned, execute_send-eq-ok, execute_burn-eq-ok, execute_burn_from-eq-ok, execute_send_from-eq-ok,
}
use demurrage_token.Payments.Totals.{Taxed-frame, DemurredPayment-frame}
use demurrage_token.Allowances.Deduct.{Deduction}
use demurrage_token.Allowances.Change.{
  execute_increase_allowance-eq-ok, execute_decrease_allowance-frame,
}
use demurrage_token.Settings.{execute_change_tax_level-eq-ok, execute_change_sink_address-eq-ok}
use demurrage_token.Msg.{ExecuteMsg}
use demurrage_token.Contract.{execute}
use demurrage_token.Reachable.{Reach}

-- Token info is stored, and its supply is within the cap, where one is set.
abbrev pub CapHolds : Option TokenInfo → Type 0
CapHolds none = ⊥
CapHolds (some info) = WithinCap (get_cap info) info.total_supply

abbrev pub ModifierHolds : Option State → Type 0
ModifierHolds none = ⊥
ModifierHolds (some state) = state.demurrage_amount ≤ full_amount

pub record IsSound (s : Store) : Type 0 where
  pub capped : CapHolds s.token_info
  pub modifier : ModifierHolds s.demurrage_state

-- An invariant of the two items holds where they stay as they were.
IsSound-same :
    {s s' : Store}
    → s'.token_info ≡ s.token_info
    → s'.demurrage_state ≡ s.demurrage_state
    → IsSound s
    → IsSound s'
IsSound-same e e' h = record { capped = rw e h.capped; modifier = rw e' h.modifier }

pub ModifierHolds-later :
    (s : Store) (state later : State)
    → s.demurrage_state ≡ some state
    → later.demurrage_amount ≤ state.demurrage_amount
    → ModifierHolds s.demurrage_state
    → later.demurrage_amount ≤ full_amount
ModifierHolds-later s state later e le h =
    let k : state.demurrage_amount ≤ full_amount = rw e at h in omega arith

get_cap-some : (info : TokenInfo) (m : MinterData) → info.mint ≡ some m → get_cap info ≡ m.cap
get_cap-some info m e = ground arith

WithinCap-sub :
    (cap : Option ℕ) (supply amount : ℕ) → WithinCap cap supply → WithinCap cap (supply - amount)
WithinCap-sub none supply amount h = tt
WithinCap-sub (some cap) supply amount h = omega arith

CapHolds-at :
    (s : Store) (info : TokenInfo)
    → s.token_info ≡ some info
    → CapHolds s.token_info
    → WithinCap (get_cap info) info.total_supply
CapHolds-at s info e h = (rw e at h)

Burned-IsSound :
    (from : Addr) (amount : ℕ) (s s' : Store) → Burned from amount s s' → IsSound s → IsSound s'
Burned-IsSound from amount s s' b h = record {
  capped = rw b.result (
      WithinCap-sub (get_cap b.info) b.info.total_supply amount
        (CapHolds-at s b.info b.stored h.capped));
  modifier = rw b.result h.modifier;
}

pub Deduction-IsSound :
    {owner spender : Addr} {block : BlockInfo} {amount : ℕ} {s s' : Store}
    → Deduction owner spender block amount s s'
    → IsSound s
    → IsSound s'
Deduction-IsSound d h = record { capped = rw d.result h.capped; modifier = rw d.result h.modifier }

module _ (chain : Chain) where
  DemurredPayment-IsSound :
      {recipient : Bytes} (env : Env) (from : Addr) (amount : ℕ) (s s' : Store)
      → DemurredPayment chain env from recipient amount s s'
      → IsSound s
      → IsSound s'
  DemurredPayment-IsSound env from amount s s' run h =
      let f = DemurredPayment-frame chain env from amount s s' run in
      record {
        capped = rw f.0 h.capped;
        modifier = rw f.2 (ModifierHolds-later s run.state run.next run.stored f.4 h.modifier);
      }

  Minted-IsSound :
      {recipient : Bytes} (env : Env) (sender : Addr) (amount : ℕ) (s s' : Store)
      → Minted chain env sender recipient amount s s'
      → IsSound s
      → IsSound s'
  Minted-IsSound env sender amount s s' m h =
      let info' = with_supply m.info (m.info.total_supply + amount) in
      let s0 = with_token_info s info' in
      let c = change_period-eq-ok chain env m.state s0 {r = (m.period.0, m.next)} m.period.1 in
      let f = Taxed-frame chain m.next (tax_of m.next s0) (with_state s0 m.next) m.paid c.3 in
      record {
        capped = rw m.result (rw f.0 (rw (get_cap-some info' m.minter_data m.may_mint) m.within));
        modifier =
            rw m.result
              (rw f.2 (ModifierHolds-later s m.state m.next m.state_stored c.0 h.modifier));
      }

  -- A new state with the same modifier is as good as the old one.
  with_state-IsSound :
      {s s' : Store} (state state' : State)
      → s.demurrage_state ≡ some state
      → state'.demurrage_amount ≡ state.demurrage_amount
      → s' ≡ with_state s state'
      → IsSound s
      → IsSound s'
  with_state-IsSound {s} state state' e same e' i = record {
    capped = rw e' i.capped;
    modifier = rw e' (ModifierHolds-later s state state' e (omega arith) i.modifier);
  }

  pub execute-IsSound :
      (env : Env) (info : MessageInfo) (msg : ExecuteMsg) (s : Store) {r : Response} {s' : Store}
      → execute chain env info msg s ≡ (ok r, s')
      → IsSound s
      → IsSound s'
  unfolding execute
  execute-IsSound env info (ExecuteMsg.transfer recipient amount) s h i =
      DemurredPayment-IsSound env info.sender amount s _
        (execute_transfer-eq-ok chain env info recipient amount s h) i
  execute-IsSound env info (ExecuteMsg.burn amount) s h i =
      Burned-IsSound info.sender amount s _ (execute_burn-eq-ok env info amount s h).1 i
  execute-IsSound env info (ExecuteMsg.send contract amount msg) s h i =
      let (_, _, _, _, e, _) = execute_send-eq-ok chain env info contract amount msg s h in
      record { capped = rw e i.capped; modifier = rw e i.modifier }
  execute-IsSound env info (ExecuteMsg.increase_allowance spender amount expires) s h i =
      let run = execute_increase_allowance-eq-ok chain env info spender amount expires s h in
      record { capped = rw run.result i.capped; modifier = rw run.result i.modifier }
  execute-IsSound env info (ExecuteMsg.decrease_allowance spender amount expires) s h i =
      let (e, e', _) = execute_decrease_allowance-frame chain env info spender amount expires s h in
      IsSound-same e e' i
  execute-IsSound env info (ExecuteMsg.transfer_from owner recipient amount) s h i =
      let (from, s0, _, d, run) =
        execute_transfer_from-eq-ok chain env info owner recipient amount s h in
      DemurredPayment-IsSound env from amount s0 _ run (Deduction-IsSound d i)
  execute-IsSound env info (ExecuteMsg.send_from owner contract amount msg) s h i =
      let (_, _, _, _, _, d, _, e, _) =
        execute_send_from-eq-ok chain env info owner contract amount msg s h in
      let j = Deduction-IsSound d i in record { capped = rw e j.capped; modifier = rw e j.modifier }
  execute-IsSound env info (ExecuteMsg.burn_from owner amount) s h i =
      let (from, s0, _, d, b) = execute_burn_from-eq-ok chain env info owner amount s h in
      Burned-IsSound from amount s0 _ b (Deduction-IsSound d i)
  execute-IsSound env info (ExecuteMsg.mint recipient amount) s h i =
      Minted-IsSound env info.sender amount s _
        (execute_mint-eq-ok chain env info recipient amount s h) i
  execute-IsSound env info (ExecuteMsg.update_minter new_minter) s h i =
      let (token, m, minter, e, e', _, _, e2) =
        execute_update_minter-eq-ok chain env info new_minter s h in
      let cap : WithinCap m.cap token.total_supply =
        rw (get_cap-some token m e') at (CapHolds-at s token e i.capped) in
      record { capped = rw e2 cap; modifier = rw e2 i.modifier }
  execute-IsSound env info (ExecuteMsg.change_sink_address address) s h i =
      let (state, e, e') = execute_change_sink_address-eq-ok s address h in
      with_state-IsSound state (record state { sink_address = address }) e refl e' i
  execute-IsSound env info (ExecuteMsg.change_tax_level amount) s h i =
      let (state, e, e') = execute_change_tax_level-eq-ok s amount h in
      with_state-IsSound state (record state { tax_level = amount }) e refl e' i

  -- From a sound storage only sound ones are reached.
  pub Reach-IsSound : {s t : Store} → IsSound s → Reach chain s t → IsSound t
  Reach-IsSound i Reach.here = i
  Reach-IsSound i (Reach.next {t} env info msg r path h) =
      execute-IsSound env info msg t h (Reach-IsSound i path)
