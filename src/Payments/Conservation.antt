-- ===== src/Payments/Conservation.antt =====
-- The sum of all balances and the total supply under `Send`, `Burn` and `Transfer`.
use demurrage_token.Base.{
  ◌∙◌, bytes_eq, bytes_beq_refl, false, ℕ, ◌+◌, ◌-◌, ◌≤◌, ◌<◌, ◌≡◌, arith, ap, some, none, Bytes,
  ◌=?◌, if◌then◌else◌,
}
use demurrage_token.Outcome.{ok}
use demurrage_token.Std.{Addr, Env, MessageInfo, Response}
use demurrage_token.Chain.{Chain}
use demurrage_token.State.{State, Store}
use demurrage_token.Balances.{balance_of}
use demurrage_token.Balances.Laws.{total-set_balance, balance_of-set_balance}
use demurrage_token.Balances.Moves.{total-moved, balance_of-moved}
use demurrage_token.Demurrage.BaseAmount.{full_amount, to_base_amount_inflates}
use demurrage_token.Payments.Demurred.{execute_transfer-eq-ok}
use demurrage_token.Payments.Plain.{
  Burned, execute_send-eq-ok, execute_burn-eq-ok, execute_burn_from-eq-ok, execute_send_from-eq-ok,
}
use demurrage_token.Payments.Totals.{held, DemurredPayment-frame, DemurredPayment-held}
use demurrage_token.Cw20.{AllowanceResponse}
use demurrage_token.Expiration.{is_expired}
use demurrage_token.Allowances.{execute_burn_from, execute_send_from}
use demurrage_token.Allowances.Deduct.{allowance_at}
use demurrage_token.Allowances.Change.{allowance_at-set_self}
use demurrage_token.Contract.{execute_transfer, execute_send, execute_burn}

-- The supply that is stored, 0 where no token info is.
abbrev pub supply_of : Store → ℕ
supply_of s = elim s.token_info [ none ↦ 0 | some info ↦ info.total_supply ]

module _ (chain : Chain) (env : Env) (info : MessageInfo) (s : Store) {r : Response}
    {s' : Store} where
  -- A send that succeeds moves the amount between the two accounts, changes no third one, and
  -- keeps the sum of all balances and the total supply.
  pub execute_send_conserves :
      (contract : Bytes) (amount : ℕ) (msg : Bytes)
      → execute_send chain env info contract amount msg s ≡ (ok r, s')
      → (to : Addr) × (chain.addr_validate contract ≡ ok to)
        × ((j : Addr)
            → balance_of s' j + (if info.sender =? j then amount else 0)
              ≡ balance_of s j + (if to =? j then amount else 0))
        × (held s' ≡ held s)
        × (s'.token_info ≡ s.token_info)
  execute_send_conserves contract amount msg h =
      let (to, pos, valid, enough, result, _) =
        execute_send-eq-ok chain env info contract amount msg s h in
      let sum = total-moved info.sender to amount amount s enough in
      (
        to,
        valid,
        (λ j. rw result (balance_of-moved info.sender to amount amount s enough j)),
        omega (arith, ap held result),
        ap (λ (t : Store). t.token_info) result,
      )

  -- A `SendFrom` that succeeds finds an allowance of the sender from the owner that has not ended
  -- and covers the amount, lowers it by the amount, moves the amount from the owner to the
  -- contract, changes no third balance, and keeps the sum of all balances and the total supply.
  pub execute_send_from_conserves :
      (owner contract : Bytes) (amount : ℕ) (msg : Bytes)
      → execute_send_from chain env info owner contract amount msg s ≡ (ok r, s')
      → (owner_addr to : Addr) × (before : AllowanceResponse) × (chain.addr_validate owner
          ≡ ok owner_addr)
        × (chain.addr_validate contract ≡ ok to)
        × (allowance_at (owner_addr, info.sender) s ≡ some before)
        × (is_expired before.expires env.block ≡ false)
        × (amount ≤ before.allowance)
        × (allowance_at (owner_addr, info.sender) s'
            ≡ some (record before { allowance = before.allowance - amount }))
        × ((j : Addr)
            → balance_of s' j + (if owner_addr =? j then amount else 0)
              ≡ balance_of s j + (if to =? j then amount else 0))
        × (held s' ≡ held s)
        × (s'.token_info ≡ s.token_info)
  execute_send_from_conserves owner contract amount msg h =
      let (from, to, s0, valid, valid', d, enough, result, _) =
        execute_send_from-eq-ok chain env info owner contract amount msg s h in
      let key : Addr × Addr = (from, info.sender) in
      let left : AllowanceResponse = record d.before { allowance = d.before.allowance - amount } in
      let sum = total-moved from to amount amount s0 enough in
      (
        from,
        to,
        d.before,
        valid,
        valid',
        d.found,
        d.live,
        d.enough,
        rw result (rw d.result (allowance_at-set_self key left s)),
        (λ j.
            let same =
              ap (λ (x : Store). balance_of x j + (if to =? j then amount else 0)) d.result in
            rw result (balance_of-moved from to amount amount s0 enough j ∙ same)),
        omega (arith, ap held result, ap held d.result),
        ap (λ (t : Store). t.token_info) result ∙ ap (λ (t : Store). t.token_info) d.result,
      )

  -- A transfer that succeeds, at a modifier of at most the initial one, never lowers the sum of
  -- all balances, and leaves the total supply as it was.
  pub execute_transfer_inflates :
      (recipient : Bytes) (amount : ℕ) (state : State)
      → s.demurrage_state ≡ some state
      → state.demurrage_amount ≤ full_amount
      → execute_transfer chain env info recipient amount s ≡ (ok r, s')
      → (held s ≤ held s') × (s'.token_info ≡ s.token_info)
  execute_transfer_inflates recipient amount state e le h =
      let run = execute_transfer-eq-ok chain env info recipient amount s h in
      let f = DemurredPayment-frame chain env info.sender amount s s' run in
      let sums = DemurredPayment-held chain env info.sender amount s s' run in
      let low : run.next.demurrage_amount ≤ full_amount = ground (arith, f.4, run.stored) in
      let more = to_base_amount_inflates amount run.next.demurrage_amount low run.converted in
      (omega (arith, sums.0), f.0)

module _ (from : Addr) (amount : ℕ) (s s' : Store) where
  -- A burn takes the amount from the account, from the sum of all balances and from the total
  -- supply.
  abbrev pub Taken : Type 0
  Taken =
      (held s' + amount ≡ held s)
      × (supply_of s' + amount ≡ supply_of s)
      × (balance_of s' from + amount ≡ balance_of s from)

  pub Burned-Taken : Burned from amount s s' → Taken
  Burned-Taken b =
      let v = balance_of s from - amount in
      let sum = total-set_balance from v s in
      (
        ground (arith, b.result, b.enough, sum),
        ground (arith, b.result, b.stored, b.enough_supply),
        ground
            (arith, b.result, b.enough, balance_of-set_balance from from v s, bytes_beq_refl from),
      )

-- A burn that succeeds takes the amount, which is not 0, from the sender's balance, from the sum
-- of all balances and from the total supply.
pub execute_burn_takes :
    (env : Env) (info : MessageInfo) (amount : ℕ) (s : Store) {r : Response} {s' : Store}
    → execute_burn env info amount s ≡ (ok r, s')
    → (0 < amount) × Taken info.sender amount s s'
execute_burn_takes env info amount s {r} {s'} h =
    let (pos, b) = execute_burn-eq-ok env info amount s h in
    (pos, Burned-Taken info.sender amount s s' b)

-- A `BurnFrom` that succeeds finds an allowance of the sender from the owner that has not ended
-- and covers the amount, lowers it by the amount, and takes the amount from the owner's balance,
-- from the sum of all balances and from the total supply.
pub execute_burn_from_takes :
    (chain : Chain) (env : Env) (info : MessageInfo) (owner : Bytes) (amount : ℕ) (s : Store)
    {r : Response} {s' : Store}
    → execute_burn_from chain env info owner amount s ≡ (ok r, s')
    → (owner_addr : Addr) × (before : AllowanceResponse) × (chain.addr_validate owner
        ≡ ok owner_addr)
      × (allowance_at (owner_addr, info.sender) s ≡ some before)
      × (is_expired before.expires env.block ≡ false)
      × (amount ≤ before.allowance)
      × (allowance_at (owner_addr, info.sender) s'
          ≡ some (record before { allowance = before.allowance - amount }))
      × Taken owner_addr amount s s'
execute_burn_from_takes chain env info owner amount s {r} {s'} h =
    let (from, s0, valid, d, b) = execute_burn_from-eq-ok chain env info owner amount s h in
    let key : Addr × Addr = (from, info.sender) in
    let left : AllowanceResponse = record d.before { allowance = d.before.allowance - amount } in
    (
      from,
      d.before,
      valid,
      d.found,
      d.live,
      d.enough,
      rw b.result (rw d.result (allowance_at-set_self key left s)),
      (rw d.result at (Burned-Taken from amount s0 s' b)),
    )
