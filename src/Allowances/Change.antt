-- ===== src/Allowances/Change.antt =====
-- `execute_increase_allowance` and `execute_decrease_allowance` of src/contract.rs.
use demurrage_token.Base.{
  bytes_eq, bytes_iff, pair_eq, ℕ, ◌+◌, ◌-◌, ◌*◌, ◌≤◌, ◌<◌, ◌≡◌, ◌≢◌, arith, ◌=?◌, ltb,
  if◌then◌else◌, Option, some, Option-cases, inl, inr, Bytes, [], Bool-cases,
}
use demurrage_token.Outcome.{ok, value_or}
use demurrage_token.Outcome.Word.{mod128}
use demurrage_token.Std.{Addr, Env, MessageInfo, Response}
use demurrage_token.Expiration.{Expiration}
use demurrage_token.Cw20.{AllowanceResponse}
use demurrage_token.Chain.{Chain}
use demurrage_token.State.{State, Store}
use demurrage_token.Storage.{remove}
use demurrage_token.Storage.Laws.{=?_refl, may_load-save, may_load-remove}
use demurrage_token.Balances.{checked_sub}
use demurrage_token.Demurrage.{to_base_amount}
use demurrage_token.Demurrage.BaseAmount.{full_amount, to_base_amount_inflates}
use demurrage_token.Allowances.{
  set_expires, unwrap_allowance, raised, lower_allowance, execute_increase_allowance,
  execute_decrease_allowance,
}
use demurrage_token.Allowances.Deduct.{set_allowance, allowance_at}

pub allowance_at-set_allowance :
    (k j : Addr × Addr) (a : AllowanceResponse) (s : Store)
    → allowance_at j (set_allowance k a s) ≡ (if k =? j then some a else allowance_at j s)
allowance_at-set_allowance k j a s = may_load-save k j a s.allowances

pub allowance_at-set_self :
    (k : Addr × Addr) (a : AllowanceResponse) (s : Store)
    → allowance_at k (set_allowance k a s) ≡ some a
allowance_at-set_self k a s = rw (allowance_at-set_allowance k k a s, =?_refl k)

module _ (chain : Chain) (env : Env) (info : MessageInfo) (spender : Bytes) (amount : ℕ)
    (expires : Option Expiration) (s : Store) where
  -- The allowance that was there, or an empty one, with the expiration that the message sets.
  abbrev pub base_allowance : Addr → AllowanceResponse
  base_allowance to = set_expires expires (unwrap_allowance (allowance_at (info.sender, to) s))

  -- A rise that succeeded: the amount and its base amount are both added.
  pub record Raised (s' : Store) : Type 0 where
    pub state : State
    pub to : Addr
    pub base_value : ℕ
    pub valid : chain.addr_validate spender ≡ ok to
    pub other : to ≢ info.sender
    pub stored : s.demurrage_state ≡ some state
    pub converted : to_base_amount amount state.demurrage_amount ≡ ok base_value
    pub in_range : (base_allowance to).allowance + (amount + base_value) < mod128
    pub result :
        s'
        ≡ set_allowance
            (info.sender, to)
            (record (base_allowance to) {
              allowance = (base_allowance to).allowance + (amount + base_value);
            })
            s

  pub execute_increase_allowance-eq-ok :
      {r : Response} {s' : Store}
      → execute_increase_allowance chain env info spender amount expires s ≡ (ok r, s')
      → Raised s'
  execute_increase_allowance-eq-ok {r} {s'} h =
      let to = value_or [] (chain.addr_validate spender) in
      elim (Option-cases s.demurrage_state) [
        | inl missing ↦ absurd (unfold execute_increase_allowance in ground arith)
        | inr (state, e) ↦
            unfold execute_increase_allowance raised in
            record {
              state = state;
              to = to;
              base_value = value_or 0 (to_base_amount amount state.demurrage_amount);
              valid = ground arith;
              other = ground (arith, bytes_iff to info.sender);
              stored = e;
              converted = ground arith;
              in_range = ground arith;
              result = ground arith;
            }
      ]

  -- While the modifier is at most the initial one, a rise by an amount that succeeds adds at least
  -- twice that amount to the allowance.
  pub execute_increase_allowance_inflates :
      {r : Response} {s' : Store} (state : State)
      → s.demurrage_state ≡ some state
      → state.demurrage_amount ≤ full_amount
      → execute_increase_allowance chain env info spender amount expires s ≡ (ok r, s')
      → (to : Addr) × (a : AllowanceResponse) × (chain.addr_validate spender ≡ ok to)
        × (allowance_at (info.sender, to) s' ≡ some a)
        × ((base_allowance to).allowance + 2 * amount ≤ a.allowance)
  execute_increase_allowance_inflates {r} {s'} state e le h =
      let run = execute_increase_allowance-eq-ok h in
      let key : Addr × Addr = (info.sender, run.to) in
      let a = record (base_allowance run.to) {
        allowance = (base_allowance run.to).allowance + (amount + run.base_value);
      } in
      let same : run.state.demurrage_amount ≤ full_amount = ground (arith, run.stored) in
      let more = to_base_amount_inflates amount run.state.demurrage_amount same run.converted in
      (run.to, a, run.valid, rw run.result (allowance_at-set_self key a s), omega arith)

  -- A decrease on every branch: below the allowance it lowers it, from the allowance on it
  -- removes it, and where there is none it is an error.
  pub execute_decrease_allowance_lem :
      (to : Addr) (a : AllowanceResponse)
      → chain.addr_validate spender ≡ ok to
      → to ≢ info.sender
      → allowance_at (info.sender, to) s ≡ some a
      → (execute_decrease_allowance chain env info spender amount expires s).1 ≡ (
          if ltb amount a.allowance
          then set_allowance
              (info.sender, to)
              (set_expires expires (record a { allowance = a.allowance - amount }))
              s
          else record s { allowances = remove (info.sender, to) s.allowances })
  unfolding execute_decrease_allowance lower_allowance checked_sub
  execute_decrease_allowance_lem to a valid ne found = ground (arith, bytes_iff to info.sender)

  -- Where the sender has given a valid other account an allowance, a decrease leaves it what it
  -- could use before less the amount, stopped at 0.
  pub execute_decrease_allowance_left :
      (to : Addr) (a : AllowanceResponse)
      → chain.addr_validate spender ≡ ok to
      → to ≢ info.sender
      → allowance_at (info.sender, to) s ≡ some a
      → (unwrap_allowance (
          allowance_at
            (info.sender, to)
            (execute_decrease_allowance chain env info spender amount expires s).1)).allowance
        ≡ a.allowance - amount
  execute_decrease_allowance_left to a valid ne found =
      let key : Addr × Addr = (info.sender, to) in
      let lowered : AllowanceResponse =
        set_expires expires (record a { allowance = a.allowance - amount }) in
      rw (execute_decrease_allowance_lem to a valid ne found)
        (elim (Bool-cases (ltb amount a.allowance)) [
          | inl less ↦
              rw less (ground (arith, may_load-save key key lowered s.allowances, =?_refl key))
          | inr more ↦ rw more (ground (arith, may_load-remove key key s.allowances, =?_refl key))
        ])

  -- A decrease that succeeds found an allowance of a valid other account.
  pub execute_decrease_allowance-eq-ok :
      {r : Response} {s' : Store}
      → execute_decrease_allowance chain env info spender amount expires s ≡ (ok r, s')
      → (to : Addr) × (a : AllowanceResponse) × (chain.addr_validate spender ≡ ok to)
        × (to ≢ info.sender)
        × (allowance_at (info.sender, to) s ≡ some a)
  unfolding execute_decrease_allowance
  execute_decrease_allowance-eq-ok h =
      let to = value_or [] (chain.addr_validate spender) in
      elim (Option-cases (allowance_at (info.sender, to) s)) [
        | inl missing ↦ absurd (ground arith)
        | inr (a, e) ↦ (to, a, ground arith, ground (arith, bytes_iff to info.sender), e)
      ]

  -- A decrease writes nothing but the allowances.
  pub execute_decrease_allowance-frame :
      {r : Response} {s' : Store}
      → execute_decrease_allowance chain env info spender amount expires s ≡ (ok r, s')
      → (s'.token_info ≡ s.token_info)
        × (s'.demurrage_state ≡ s.demurrage_state)
        × (s'.balances ≡ s.balances)
  unfolding execute_decrease_allowance lower_allowance checked_sub
  execute_decrease_allowance-frame h = (ground arith, ground arith, ground arith)
