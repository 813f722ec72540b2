-- ===== src/Ledger/Spending.antt =====
-- What one spender takes by the allowance of one owner, over any run of messages of
-- src/contract.rs in which both send messages.
use demurrage_token.Base.{
  bytes_eq, pair_eq, pair_iff, ℕ, ◌+◌, ◌-◌, ◌≤◌, ◌≡◌, refl, sym, arith, ap, ◌∙◌, ◌=?◌,
  if◌then◌else◌, Bool-cases, Bool, true, false, Option, some, none, inl, inr,
}
use demurrage_token.Outcome.{Outcome, ok, err, panic, value_or}
use demurrage_token.Std.{StdError, Addr, BlockInfo, Env, MessageInfo}
use demurrage_token.Cw20.{AllowanceResponse}
use demurrage_token.Expiration.{Expiration}
use demurrage_token.Chain.{Chain}
use demurrage_token.State.{ContractError, Store}
use demurrage_token.Demurrage.{to_base_amount}
use demurrage_token.Allowances.{unwrap_allowance}
use demurrage_token.Msg.{ExecuteMsg}
use demurrage_token.Reachable.{Reach}
use demurrage_token.Ledger.{
  Ledger, lend, left_of, raised_to, Spends, LedgerStep, transfers, burns, sends, raises, lowers,
  transfers_from, sends_from, burns_from, mints, hands_on, moves_sink, sets_tax,
}
use demurrage_token.Ledger.View.{view}
use demurrage_token.Ledger.Refines.{execute-LedgerStep}
use demurrage_token.Ledger.Accounts.{Moves-Keeps, PaysBase-Keeps, Burns-supply, Mints-supply}

-- What the spender may still take from the owner, where there is nothing lent nothing.
abbrev pub usable : Addr × Addr → Ledger → ℕ
usable key l = (unwrap_allowance (l.lent key)).allowance

-- An amount, if the key that a validated address gives is the one in question.
abbrev pub counted : (Addr → Addr × Addr) → Addr × Addr → ℕ → Outcome StdError Addr → ℕ
counted key_of key amount (ok k) = if key_of k =? key then amount else 0
counted key_of key amount (err e) = 0
counted key_of key amount panic = 0

usable-lend :
    (key j : Addr × Addr) (a : Option AllowanceResponse) (l : Ledger)
    → usable j (lend key a l) ≡ (if key =? j then (unwrap_allowance a).allowance else usable j l)
usable-lend key j a l =
    let value : Bool → ℕ = λ b. (unwrap_allowance (if b then a else l.lent j)).allowance in
    elim (Bool-cases (key =? j)) [
      | inl same ↦ ap value same ∙ sym (ap (λ b. if b then value true else value false) same)
      | inr other ↦ ap value other ∙ sym (ap (λ b. if b then value true else value false) other)
    ]

-- What a decrease leaves is not more than it was.
left_of-le :
    (expires : Option Expiration) (amount : ℕ) (a : AllowanceResponse)
    → (unwrap_allowance (left_of expires amount a)).allowance ≤ a.allowance
left_of-le none amount a = ground arith
left_of-le (some exp) amount a = ground arith

raised_to-usable :
    (expires : Option Expiration) (more : ℕ) (a : Option AllowanceResponse)
    → (raised_to expires more a).allowance ≡ (unwrap_allowance a).allowance + more
raised_to-usable none more a = refl
raised_to-usable (some exp) more a = refl

same-usable : (j : Addr × Addr) (l l' : Ledger) → l'.lent ≡ l.lent → usable j l' ≡ usable j l
same-usable j l l' e = ap (λ f. (unwrap_allowance (f j)).allowance) e

Spends-usable :
    {owner spender : Addr} {block : BlockInfo} {amount : ℕ} {l l' : Ledger} (j : Addr × Addr)
    → Spends owner spender block amount l l'
    → usable j l' + (if (owner, spender) =? j then amount else 0) ≡ usable j l
Spends-usable {owner} {spender} {amount = amount} {l = l} j d =
    let key : Addr × Addr = (owner, spender) in
    let left : AllowanceResponse = record d.before { allowance = d.before.allowance - amount } in
    let now = ap (usable j) d.after ∙ usable-lend key j (some left) l in
    elim (Bool-cases (key =? j)) [
      | inl same ↦
          let e = (pair_iff key j).0 same in
          let found : l.lent j ≡ some d.before = rw e at d.found in
          let had : usable j l ≡ d.before.allowance =
            ap (λ a. (unwrap_allowance a).allowance) found in
          let after = rw same at now in rw same (omega (arith, d.enough))
      | inr other ↦ let after = rw other at now in rw other (omega arith)
    ]

module _ (chain : Chain) (owner spender : Addr) where
  -- What a message takes by the allowance.
  abbrev pub taken_by : Addr → ExecuteMsg → ℕ
  taken_by sender (ExecuteMsg.transfer_from from recipient amount) =
      counted (λ k. (k, sender)) (owner, spender) amount (chain.addr_validate from)
  taken_by sender (ExecuteMsg.send_from from contract amount msg) =
      counted (λ k. (k, sender)) (owner, spender) amount (chain.addr_validate from)
  taken_by sender (ExecuteMsg.burn_from from amount) =
      counted (λ k. (k, sender)) (owner, spender) amount (chain.addr_validate from)
  taken_by sender _ = 0

  -- What an increase adds to it: the amount and its base amount.
  abbrev pub granted_by : Addr → ℕ → ExecuteMsg → ℕ
  granted_by sender modifier (ExecuteMsg.increase_allowance to amount expires) =
      counted (λ k. (sender, k)) (owner, spender)
        (amount + value_or {E = ContractError} 0 (to_base_amount amount modifier))
        (chain.addr_validate to)
  granted_by sender modifier _ = 0

  module _ (env : Env) (info : MessageInfo) where
    -- One message: what can be taken afterwards and what was taken are no more than what could be
    -- taken before and what was granted.
    LedgerStep-usable :
        {msg : ExecuteMsg} {l l' : Ledger}
        → LedgerStep chain env info msg l l'
        → usable (owner, spender) l' + taken_by info.sender msg
          ≤ usable (owner, spender) l + granted_by info.sender l.modifier msg
    LedgerStep-usable {l = l} {l' = l'} (transfers to valid p) =
        omega (arith, same-usable (owner, spender) l l' (PaysBase-Keeps p).lent)
    LedgerStep-usable {l = l} {l' = l'} (burns pos b) =
        omega (arith, same-usable (owner, spender) l l' (Burns-supply b).2)
    LedgerStep-usable {l = l} {l' = l'} (sends to valid pos m) =
        omega (arith, same-usable (owner, spender) l l' (Moves-Keeps m).lent)
    LedgerStep-usable {l = l} {l' = l'}
          (raises {amount = amount} {expires} to base_value valid ne converted e) =
        let key : Addr × Addr = (info.sender, to) in
        let now =
          ap (usable (owner, spender)) e
          ∙ usable-lend key (owner, spender)
              (some (raised_to expires (amount + base_value) (l.lent key))) l in
        let sum = raised_to-usable expires (amount + base_value) (l.lent key) in
        elim (Bool-cases (key =? (owner, spender))) [
          | inl same ↦
              let e' = (pair_iff key (owner, spender)).0 same in
              let had : usable key l ≡ usable (owner, spender) l = ap (λ k. usable k l) e' in
              let after = rw same at now in rw (valid, converted) (rw same (omega arith))
          | inr other ↦ let after = rw other at now in omega arith
        ]
    LedgerStep-usable {l = l} {l' = l'}
          (lowers {amount = amount} {expires} to before valid ne found e) =
        let key : Addr × Addr = (info.sender, to) in
        let now =
          ap (usable (owner, spender)) e
          ∙ usable-lend key (owner, spender) (left_of expires amount before) l in
        let less = left_of-le expires amount before in
        elim (Bool-cases (key =? (owner, spender))) [
          | inl same ↦
              let e' = (pair_iff key (owner, spender)).0 same in
              let had : usable (owner, spender) l ≡ before.allowance =
                ap (λ k. usable k l) (sym e') ∙ ap (λ a. (unwrap_allowance a).allowance) found in
              let after = rw same at now in omega arith
          | inr other ↦ let after = rw other at now in omega arith
        ]
    LedgerStep-usable {l = l} {l' = l'} (transfers_from from to spent valid valid' d p) =
        let less = Spends-usable (owner, spender) d in
        rw valid (omega (arith, same-usable (owner, spender) spent l' (PaysBase-Keeps p).lent))
    LedgerStep-usable {l = l} {l' = l'} (sends_from from to spent valid valid' d m) =
        let less = Spends-usable (owner, spender) d in
        rw valid (omega (arith, same-usable (owner, spender) spent l' (Moves-Keeps m).lent))
    LedgerStep-usable {l = l} {l' = l'} (burns_from from spent valid d b) =
        let less = Spends-usable (owner, spender) d in
        rw valid (omega (arith, same-usable (owner, spender) spent l' (Burns-supply b).2))
    LedgerStep-usable {l = l} {l' = l'} (mints to valid m) =
        omega (arith, same-usable (owner, spender) l l' (Mints-supply m).2)
    LedgerStep-usable (hands_on m minter valid before sent e) =
        omega (arith, ap (usable (owner, spender)) e)
    LedgerStep-usable (moves_sink e) = omega (arith, ap (usable (owner, spender)) e)
    LedgerStep-usable (sets_tax e) = omega (arith, ap (usable (owner, spender)) e)

  -- What all messages of a run take by the allowance, and what all increases grant.
  abbrev pub taken : {s t : Store} → Reach chain s t → ℕ
  taken Reach.here = 0
  taken (Reach.next env info msg r path h) = taken path + taken_by info.sender msg

  abbrev pub granted : {s t : Store} → Reach chain s t → ℕ
  granted Reach.here = 0
  granted (Reach.next {t = mid} env info msg r path h) =
      granted path + granted_by info.sender (view mid).modifier msg

  -- Over any run of messages that succeed, whoever sends them, what a spender has taken by the
  -- allowance of an owner, and what is left of the allowance, are together at most the allowance
  -- that there was and what the owner's increases granted: each its amount and its base amount.
  pub Reach-taken :
      {s t : Store} (path : Reach chain s t)
      → taken path + usable (owner, spender) (view t)
        ≤ usable (owner, spender) (view s) + granted path
  Reach-taken Reach.here = omega arith
  Reach-taken (Reach.next {t = mid} env info msg r path h) =
      let before = Reach-taken path in
      let step = LedgerStep-usable env info (execute-LedgerStep chain env info msg mid h) in
      omega arith
