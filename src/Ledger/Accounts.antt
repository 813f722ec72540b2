-- ===== src/Ledger/Accounts.antt =====
-- The account of the supply of src/contract.rs over any run of messages: what mints add and what
-- burns take.
use demurrage_token.Base.{
  bytes_eq, pair_eq, ℕ, ◌+◌, ◌≡◌, arith, ap, refl, sym, ◌∙◌, Option, none, some,
}
use demurrage_token.Std.{Addr, BlockInfo, Env, MessageInfo}
use demurrage_token.Chain.{Chain}
use demurrage_token.State.{Store, MinterData}
use demurrage_token.Msg.{ExecuteMsg}
use demurrage_token.Payments.Conservation.{supply_of}
use demurrage_token.Ledger.{
  Ledger, Moves, Spends, Ages, PaysBase, Burns, Mints, LedgerStep, transfers, burns, sends, raises,
  lowers, transfers_from, sends_from, burns_from, mints, hands_on, moves_sink, sets_tax,
}
use demurrage_token.Ledger.View.{minter_of}
use demurrage_token.Ledger.Refines.{execute-LedgerStep}
use demurrage_token.Reachable.{Reach}

abbrev pub minted_by : ExecuteMsg → ℕ
minted_by (ExecuteMsg.mint recipient amount) = amount
minted_by _ = 0

abbrev pub burned_by : ExecuteMsg → ℕ
burned_by (ExecuteMsg.burn amount) = amount
burned_by (ExecuteMsg.burn_from owner amount) = amount
burned_by _ = 0

-- The cap of the minter; none where there is no minter.
abbrev pub cap_of : Option MinterData → Option (Option ℕ)
cap_of none = none
cap_of (some m) = some m.cap

-- The parts that a payment leaves alone.
pub record Keeps (l l' : Ledger) : Type 0 where
  pub supply : l'.supply ≡ l.supply
  pub minter : l'.minter ≡ l.minter
  pub lent : l'.lent ≡ l.lent

pub Moves-Keeps :
    {from to : Addr} {out into : ℕ} {l l' : Ledger} → Moves from to out into l l' → Keeps l l'
Moves-Keeps m = record {
  supply = ap (λ (x : Ledger). x.supply) m.after;
  minter = ap (λ (x : Ledger). x.minter) m.after;
  lent = ap (λ (x : Ledger). x.lent) m.after;
}

Ages-Keeps : {l l' : Ledger} → Ages l l' → Keeps l l'
Ages-Keeps a = record {
  supply = ap (λ (x : Ledger). x.supply) a.after;
  minter = ap (λ (x : Ledger). x.minter) a.after;
  lent = ap (λ (x : Ledger). x.lent) a.after;
}

pub PaysBase-Keeps :
    {from to : Addr} {amount : ℕ} {l l' : Ledger} → PaysBase from to amount l l' → Keeps l l'
PaysBase-Keeps p =
    let a = Ages-Keeps p.ages in
    let m = Moves-Keeps p.moves in
    record { supply = m.supply ∙ a.supply; minter = m.minter ∙ a.minter; lent = m.lent ∙ a.lent }

-- A loan moves neither supply nor minter.
Spends-supply :
    {owner spender : Addr} {block : BlockInfo} {amount : ℕ} {l l' : Ledger}
    → Spends owner spender block amount l l'
    → (l'.supply ≡ l.supply) × (l'.minter ≡ l.minter)
Spends-supply d = (ap (λ (x : Ledger). x.supply) d.after, ap (λ (x : Ledger). x.minter) d.after)

pub Burns-supply :
    {from : Addr} {amount : ℕ} {l l' : Ledger}
    → Burns from amount l l'
    → (l'.supply + amount ≡ l.supply) × (l'.minter ≡ l.minter) × (l'.lent ≡ l.lent)
Burns-supply b = (
  omega (arith, ap (λ (x : Ledger). x.supply) b.after, b.supplied),
  ap (λ (x : Ledger). x.minter) b.after,
  ap (λ (x : Ledger). x.lent) b.after,
)

pub Mints-supply :
    {sender to : Addr} {amount : ℕ} {l l' : Ledger}
    → Mints sender to amount l l'
    → (l'.supply ≡ l.supply + amount) × (l'.minter ≡ l.minter) × (l'.lent ≡ l.lent)
Mints-supply m =
    let a = Ages-Keeps m.ages in
    (
      ap (λ (x : Ledger). x.supply) m.after ∙ a.supply,
      ap (λ (x : Ledger). x.minter) m.after ∙ a.minter,
      ap (λ (x : Ledger). x.lent) m.after ∙ a.lent,
    )

module _ (chain : Chain) (env : Env) (info : MessageInfo) where
  -- One message: only mints and burns move the supply, and the cap stays.
  LedgerStep-supply :
      {msg : ExecuteMsg} {l l' : Ledger}
      → LedgerStep chain env info msg l l'
      → (l'.supply + burned_by msg ≡ l.supply + minted_by msg)
        × (cap_of l'.minter ≡ cap_of l.minter)
  LedgerStep-supply (transfers to valid p) =
      let k = PaysBase-Keeps p in (omega (arith, k.supply), ap cap_of k.minter)
  LedgerStep-supply (burns pos b) =
      let (supply, minter, _) = Burns-supply b in (omega arith, ap cap_of minter)
  LedgerStep-supply (sends to valid pos m) =
      let k = Moves-Keeps m in (omega (arith, k.supply), ap cap_of k.minter)
  LedgerStep-supply (raises to base_value valid ne converted e) =
      (omega (arith, ap (λ (x : Ledger). x.supply) e), ap (λ (x : Ledger). cap_of x.minter) e)
  LedgerStep-supply (lowers to before valid ne found e) =
      (omega (arith, ap (λ (x : Ledger). x.supply) e), ap (λ (x : Ledger). cap_of x.minter) e)
  LedgerStep-supply (transfers_from from to spent valid valid' d p) =
      let (supply, minter) = Spends-supply d in
      let k = PaysBase-Keeps p in (omega (arith, k.supply), ap cap_of (k.minter ∙ minter))
  LedgerStep-supply (sends_from from to spent valid valid' d m) =
      let (supply, minter) = Spends-supply d in
      let k = Moves-Keeps m in (omega (arith, k.supply), ap cap_of (k.minter ∙ minter))
  LedgerStep-supply (burns_from from spent valid d b) =
      let (supply, minter) = Spends-supply d in
      let (supply', minter', _) = Burns-supply b in (omega arith, ap cap_of (minter' ∙ minter))
  LedgerStep-supply (mints to valid m) =
      let (supply, minter, _) = Mints-supply m in (omega arith, ap cap_of minter)
  LedgerStep-supply (hands_on m minter valid before sent e) = (
    omega (arith, ap (λ (x : Ledger). x.supply) e),
    ap (λ (x : Ledger). cap_of x.minter) e ∙ sym (ap cap_of before),
  )
  LedgerStep-supply (moves_sink e) =
      (omega (arith, ap (λ (x : Ledger). x.supply) e), ap (λ (x : Ledger). cap_of x.minter) e)
  LedgerStep-supply (sets_tax e) =
      (omega (arith, ap (λ (x : Ledger). x.supply) e), ap (λ (x : Ledger). cap_of x.minter) e)

module _ (chain : Chain) where
  -- What the messages of a run mint and burn.
  abbrev pub minted : {s t : Store} → Reach chain s t → ℕ
  minted Reach.here = 0
  minted (Reach.next env info msg r path h) = minted path + minted_by msg

  abbrev pub burned : {s t : Store} → Reach chain s t → ℕ
  burned Reach.here = 0
  burned (Reach.next env info msg r path h) = burned path + burned_by msg

  -- Over any run of messages that succeed the total supply is what it was, with all that the mints
  -- minted and without all that the burns burned, and there is a minter afterwards exactly if there
  -- was one, with the same cap.
  pub Reach-supply :
      {s t : Store} (path : Reach chain s t)
      → (supply_of t + burned path ≡ supply_of s + minted path)
        × (cap_of (minter_of t) ≡ cap_of (minter_of s))
  Reach-supply Reach.here = (omega arith, refl)
  Reach-supply (Reach.next {t} env info msg r path h) =
      let (sum, cap) = Reach-supply path in
      let (sum', cap') =
        LedgerStep-supply chain env info (execute-LedgerStep chain env info msg t h) in
      (omega arith, cap' ∙ cap)
