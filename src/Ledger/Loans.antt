-- ===== src/Ledger/Loans.antt =====
-- The allowances of src/contract.rs over any run of messages: who lends to whom.
use demurrage_token.Base.{
  bytes_eq, pair_eq, pair_iff, ℕ, ◌≡◌, ◌≢◌, ap, sym, ◌∙◌, ◌=?◌, Bool-cases, Option, some, none, inl,
  inr,
}
use demurrage_token.Outcome.{ok}
use demurrage_token.Std.{Addr, BlockInfo, Env, MessageInfo, Response}
use demurrage_token.Cw20.{AllowanceResponse}
use demurrage_token.Chain.{Chain}
use demurrage_token.State.{Store, empty_store}
use demurrage_token.Storage.{may_load}
use demurrage_token.Msg.{ExecuteMsg, InstantiateMsg}
use demurrage_token.Allowances.Deduct.{allowance_at}
use demurrage_token.Instantiate.{instantiate, contract_version}
use demurrage_token.Instantiate.Rows.{create_rows-allowances}
use demurrage_token.Instantiate.Fresh.{instantiate-eq-ok}
use demurrage_token.Reachable.{Reach}
use demurrage_token.Ledger.{
  Ledger, lend, Spends, LedgerStep, transfers, burns, sends, raises, lowers, transfers_from,
  sends_from, burns_from, mints, hands_on, moves_sink, sets_tax,
}
use demurrage_token.Ledger.View.{view}
use demurrage_token.Ledger.Refines.{execute-LedgerStep}
use demurrage_token.Ledger.Accounts.{Moves-Keeps, PaysBase-Keeps, Burns-supply, Mints-supply}

-- A table of loans in which nobody lends to himself.
abbrev pub LendsToOthers : (Addr × Addr → Option AllowanceResponse) → Type 0
LendsToOthers lent = (j : Addr) → lent (j, j) ≡ none

lend-LendsToOthers :
    (owner spender : Addr) (a : Option AllowanceResponse) (l : Ledger)
    → owner ≢ spender
    → LendsToOthers l.lent
    → LendsToOthers (lend (owner, spender) a l).lent
lend-LendsToOthers owner spender a l ne h j =
    let key : Addr × Addr = (owner, spender) in
    elim (Bool-cases (key =? (j, j))) [
      | inl same ↦
          let e = (pair_iff key (j, j)).0 same in
          absurd (ne (ap (λ (k : Addr × Addr). k.0) e ∙ sym (ap (λ (k : Addr × Addr). k.1) e)))
      | inr other ↦ rw other (h j)
    ]

same-LendsToOthers :
    {f g : Addr × Addr → Option AllowanceResponse} → g ≡ f → LendsToOthers f → LendsToOthers g
same-LendsToOthers e h = rw e h

Spends-LendsToOthers :
    {owner spender : Addr} {block : BlockInfo} {amount : ℕ} {l l' : Ledger}
    → Spends owner spender block amount l l'
    → LendsToOthers l.lent
    → LendsToOthers l'.lent
Spends-LendsToOthers {owner} {spender} {l = l} d h =
    let ne : owner ≢ spender = λ e.
      let own : l.lent (spender, spender) ≡ some d.before = rw e at d.found in
      let free = h spender in cc in
    same-LendsToOthers (ap (λ (x : Ledger). x.lent) d.after)
      (lend-LendsToOthers owner spender _ l ne h)

module _ (chain : Chain) where
  LedgerStep-LendsToOthers :
      (env : Env) (info : MessageInfo) {msg : ExecuteMsg} {l l' : Ledger}
      → LedgerStep chain env info msg l l'
      → LendsToOthers l.lent
      → LendsToOthers l'.lent
  LedgerStep-LendsToOthers env info (transfers to valid p) h =
      same-LendsToOthers (PaysBase-Keeps p).lent h
  LedgerStep-LendsToOthers env info (burns pos b) h = same-LendsToOthers (Burns-supply b).2 h
  LedgerStep-LendsToOthers env info (sends to valid pos m) h =
      same-LendsToOthers (Moves-Keeps m).lent h
  LedgerStep-LendsToOthers env info {l = l} (raises to base_value valid ne converted e) h =
      same-LendsToOthers (ap (λ (x : Ledger). x.lent) e)
        (lend-LendsToOthers info.sender to _ l (λ p. ne (sym p)) h)
  LedgerStep-LendsToOthers env info {l = l} (lowers to before valid ne found e) h =
      same-LendsToOthers (ap (λ (x : Ledger). x.lent) e)
        (lend-LendsToOthers info.sender to _ l (λ p. ne (sym p)) h)
  LedgerStep-LendsToOthers env info (transfers_from from to spent valid valid' d p) h =
      same-LendsToOthers (PaysBase-Keeps p).lent (Spends-LendsToOthers d h)
  LedgerStep-LendsToOthers env info (sends_from from to spent valid valid' d m) h =
      same-LendsToOthers (Moves-Keeps m).lent (Spends-LendsToOthers d h)
  LedgerStep-LendsToOthers env info (burns_from from spent valid d b) h =
      same-LendsToOthers (Burns-supply b).2 (Spends-LendsToOthers d h)
  LedgerStep-LendsToOthers env info (mints to valid m) h = same-LendsToOthers (Mints-supply m).2 h
  LedgerStep-LendsToOthers env info (hands_on m minter valid before sent e) h =
      same-LendsToOthers (ap (λ (x : Ledger). x.lent) e) h
  LedgerStep-LendsToOthers env info (moves_sink e) h =
      same-LendsToOthers (ap (λ (x : Ledger). x.lent) e) h
  LedgerStep-LendsToOthers env info (sets_tax e) h =
      same-LendsToOthers (ap (λ (x : Ledger). x.lent) e) h

  Reach-LendsToOthers :
      {s t : Store} → LendsToOthers (view s).lent → Reach chain s t → LendsToOthers (view t).lent
  Reach-LendsToOthers h Reach.here = h
  Reach-LendsToOthers h (Reach.next {t} env info msg r path step) =
      LedgerStep-LendsToOthers env info (execute-LedgerStep chain env info msg t step)
        (Reach-LendsToOthers h path)

  -- Whatever messages succeed after an instantiation, no account has an allowance from
  -- itself.
  pub lifetime_LendsToOthers :
      (env : Env) (info : MessageInfo) (msg : InstantiateMsg) {r : Response} {s t : Store}
      → instantiate chain env info msg empty_store ≡ (ok r, s)
      → Reach chain s t
      → (j : Addr) → allowance_at (j, j) t ≡ none
  unfolding may_load
  lifetime_LendsToOthers env info msg {s = s} started path =
      let st = instantiate-eq-ok chain env info msg started in
      let s1 : Store = record empty_store { contract_version = some contract_version } in
      let (s2, made, _, e) = st.created in
      let e' = create_rows-allowances chain msg.initial_balances 0 s1 made in
      Reach-LendsToOthers (λ j. ap (λ m. may_load (j, j) m) (e ∙ e')) path
