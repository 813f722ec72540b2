-- ===== src/Ledger/View.antt =====
-- The ledger that a storage of the contract stands for, under the writes of the handlers.
use mathlib.Core.Path.{fun_ext}
use demurrage_token.Base.{
  bytes_eq, bytes_iff, pair_eq, ℕ, ◌+◌, ◌-◌, ◌≤◌, ◌≡◌, arith, ap, sym, ◌∙◌, Option, none, some, inl,
  inr, Option-cases,
}
use demurrage_token.Std.{Addr, BlockInfo}
use demurrage_token.Cw20.{AllowanceResponse}
use demurrage_token.Chain.{Chain}
use demurrage_token.State.{State, Store, MinterData}
use demurrage_token.Storage.{remove}
use demurrage_token.Storage.Laws.{may_load-save, may_load-remove}
use demurrage_token.Balances.{balance_of, set_balance}
use demurrage_token.Balances.Laws.{balance_of-set_balance}
use demurrage_token.Balances.Moves.{moved}
use demurrage_token.Allowances.Deduct.{Deduction, allowance_at, set_allowance}
use demurrage_token.Period.Decays.{with_state}
use demurrage_token.Period.Effects.{Taxed, sink_of, tax_of, tax_of-le}
use demurrage_token.Payments.Plain.{Burned}
use demurrage_token.Payments.Conservation.{supply_of}
use demurrage_token.Ledger.{Ledger, put, receive, pay, lend, Moves, Spends, Ages, Burns}

abbrev pub minter_of : Store → Option MinterData
minter_of s = elim s.token_info [ none ↦ none | some info ↦ info.mint ]

-- 0 where no state is stored.
abbrev pub modifier_of : Store → ℕ
modifier_of s = elim s.demurrage_state [ none ↦ 0 | some state ↦ state.demurrage_amount ]

abbrev pub view : Store → Ledger
view s = record {
  holds = balance_of s;
  lent = λ k. allowance_at k s;
  supply = supply_of s;
  minter = minter_of s;
  modifier = modifier_of s;
}

pub view-set_balance : (k : Addr) (v : ℕ) (s : Store) → view (set_balance k v s) ≡ put k v (view s)
view-set_balance k v s =
    ap (λ (f : Addr → ℕ). record (view s) { holds = f })
      (fun_ext (λ j. balance_of-set_balance k j v s))

pub view-set_allowance :
    (k : Addr × Addr) (a : AllowanceResponse) (s : Store)
    → view (set_allowance k a s) ≡ lend k (some a) (view s)
view-set_allowance k a s =
    ap (λ (f : Addr × Addr → Option AllowanceResponse). record (view s) { lent = f })
      (fun_ext (λ j. may_load-save k j a s.allowances))

pub view-remove :
    (k : Addr × Addr) (s : Store)
    → view (record s { allowances = remove k s.allowances }) ≡ lend k none (view s)
view-remove k s =
    ap (λ (f : Addr × Addr → Option AllowanceResponse). record (view s) { lent = f })
      (fun_ext (λ j. may_load-remove k j s.allowances))

receive-zero : (k : Addr) (l : Ledger) → receive k 0 l ≡ l
receive-zero k l =
    ap (λ (f : Addr → ℕ). record l { holds = f }) (fun_ext (λ j. ground (arith, bytes_iff k j)))

pub moved-Moves :
    (from to : Addr) (out into : ℕ) (s s' : Store)
    → out ≤ balance_of s from
    → s' ≡ moved from to out into s
    → Moves from to out into (view s) (view s')
moved-Moves from to out into s s' enough e =
    let v = balance_of s from - out in
    let s1 = set_balance from v s in
    record {
      held = enough;
      after =
          ap view e
          ∙ view-set_balance to (balance_of s1 to + into) s1
          ∙ ap (receive to into) (view-set_balance from v s);
    }

pub Deduction-Spends :
    {owner spender : Addr} {block : BlockInfo} {amount : ℕ} {s s' : Store}
    → Deduction owner spender block amount s s'
    → Spends owner spender block amount (view s) (view s')
Deduction-Spends {owner} {spender} {amount = amount} {s = s} d = record {
  before = d.before;
  found = d.found;
  live = d.live;
  enough = d.enough;
  after =
      ap view d.result
      ∙ view-set_allowance (owner, spender)
          (record d.before { allowance = d.before.allowance - amount }) s;
}

pub Burned-Burns :
    (from : Addr) (amount : ℕ) (s s' : Store)
    → Burned from amount s s'
    → Burns from amount (view s) (view s')
Burned-Burns from amount s s' b =
    let supply : supply_of s ≡ b.info.total_supply = ground (arith, b.stored) in
    let minter : minter_of s ≡ b.info.mint = ground (arith, b.stored) in
    let paid = view-set_balance from (balance_of s from - amount) s in
    record {
      held = b.enough;
      supplied = rw supply b.enough_supply;
      after =
          ap view b.result
          ∙ ap
              (λ (l : Ledger). record l {
                supply = b.info.total_supply - amount;
                minter = b.info.mint;
              })
              paid
          ∙ (λ i. record (pay from amount (view s)) {
            supply = sym supply i - amount;
            minter = sym minter i;
          });
    }

module _ (chain : Chain) where
  tax_of-le_supply : (state : State) (s : Store) → tax_of state s ≤ supply_of s
  tax_of-le_supply state s = elim (Option-cases s.token_info) [
    | inl e ↦ ground (arith, e)
    | inr (info, e) ↦ ground (arith, e, tax_of-le state s info e)
  ]

  Taxed-receive :
      (state : State) (tax : ℕ) (s s' : Store)
      → Taxed chain state tax s s'
      → (paid : ℕ) × (paid ≤ tax) × (view s' ≡ receive (sink_of chain state) paid (view s))
  Taxed-receive state tax s s' (inl e) =
      (0, omega arith, ap view e ∙ sym (receive-zero (sink_of chain state) (view s)))
  Taxed-receive state tax s s' (inr e) =
      let sink = sink_of chain state in
      (tax, omega arith, ap view e ∙ view-set_balance sink (balance_of s sink + tax) s)

  -- What a change of the period does to the ledger, from what it does to the storage.
  pub Taxed-Ages :
      (state next : State) (s s' : Store)
      → s.demurrage_state ≡ some state
      → next.demurrage_amount ≤ state.demurrage_amount
      → s'.demurrage_state ≡ some next
      → Taxed chain next (tax_of next s) (with_state s next) s'
      → Ages (view s) (view s')
  Taxed-Ages state next s s' stored le stored' taxed =
      let (paid, bound, e) = Taxed-receive next (tax_of next s) (with_state s next) s' taxed in
      let before : modifier_of s ≡ state.demurrage_amount = ground (arith, stored) in
      record {
        sink = sink_of chain next;
        tax = paid;
        later = next.demurrage_amount;
        bounded = omega (arith, tax_of-le_supply next s);
        decayed = rw before le;
        after = e;
      }
