-- ===== src/Ledger.antt =====
-- The token of src/contract.rs and src/allowances.rs without its storage: what accounts hold and
-- lend, the supply, who may mint, and the modifier, all as functions and values with no order and
-- no representation; and what each message may do to them.
pub mod View
pub mod Refines
pub mod Accounts
pub mod Loans
pub mod Spending
use demurrage_token.Base.{
  bytes_eq, pair_eq, ℕ, ◌+◌, ◌-◌, ◌≤◌, ◌<◌, ◌≡◌, ◌≢◌, ◌=?◌, ltb, false, if◌then◌else◌, Option, none,
  some, Bytes,
}
use demurrage_token.Outcome.{ok}
use demurrage_token.Std.{Addr, BlockInfo, Env, MessageInfo}
use demurrage_token.Expiration.{Expiration, is_expired}
use demurrage_token.Cw20.{AllowanceResponse}
use demurrage_token.Chain.{Chain}
use demurrage_token.State.{MinterData}
use demurrage_token.Demurrage.{to_base_amount}
use demurrage_token.Allowances.{set_expires, unwrap_allowance}
use demurrage_token.Supply.Mint.{WithinCap}
use demurrage_token.Msg.{ExecuteMsg}

pub record Ledger : Type 0 where
  pub holds : Addr → ℕ
  -- From an owner to a spender.
  pub lent : Addr × Addr → Option AllowanceResponse
  pub supply : ℕ
  pub minter : Option MinterData
  pub modifier : ℕ

abbrev pub put : Addr → ℕ → Ledger → Ledger
put k v l = record l { holds = λ j. if k =? j then v else l.holds j }

abbrev pub receive : Addr → ℕ → Ledger → Ledger
receive k amount l = put k (l.holds k + amount) l

abbrev pub pay : Addr → ℕ → Ledger → Ledger
pay k amount l = put k (l.holds k - amount) l

abbrev pub lend : Addr × Addr → Option AllowanceResponse → Ledger → Ledger
lend key a l = record l { lent = λ j. if key =? j then a else l.lent j }

-- `out` leaves an account that holds it, and `into` arrives.
pub record Moves (from to : Addr) (out into : ℕ) (l l' : Ledger) : Type 0 where
  pub held : out ≤ l.holds from
  pub after : l' ≡ receive to into (pay from out l)

-- A spender uses an allowance that has not ended and is enough.
pub record Spends (owner spender : Addr) (block : BlockInfo) (amount : ℕ) (l l' : Ledger)
    : Type 0 where
  pub before : AllowanceResponse
  pub found : l.lent (owner, spender) ≡ some before
  pub live : is_expired before.expires block ≡ false
  pub enough : amount ≤ before.allowance
  pub after :
      l' ≡ lend (owner, spender) (some (record before { allowance = before.allowance - amount })) l

-- A period ends: the modifier does not rise, and a tax of at most the supply comes into being.
pub record Ages (l l' : Ledger) : Type 0 where
  pub sink : Addr
  pub tax : ℕ
  pub later : ℕ
  pub bounded : tax ≤ l.supply
  pub decayed : later ≤ l.modifier
  pub after : l' ≡ record (receive sink tax l) { modifier = later }

-- A payment with demurrage.
pub record PaysBase (from to : Addr) (amount : ℕ) (l l' : Ledger) : Type 0 where
  pub aged : Ledger
  pub base_value : ℕ
  pub ages : Ages l aged
  pub converted : to_base_amount amount aged.modifier ≡ ok base_value
  pub moves : Moves from to amount base_value aged l'

pub record Burns (from : Addr) (amount : ℕ) (l l' : Ledger) : Type 0 where
  pub held : amount ≤ l.holds from
  pub supplied : amount ≤ l.supply
  pub after : l' ≡ record (pay from amount l) { supply = l.supply - amount }

-- An amount is minted within the cap by the minter.
pub record Mints (sender to : Addr) (amount : ℕ) (l l' : Ledger) : Type 0 where
  pub minter_data : MinterData
  pub aged : Ledger
  pub base_value : ℕ
  pub may_mint : l.minter ≡ some minter_data
  pub is_minter : minter_data.minter ≡ sender
  pub within : WithinCap minter_data.cap (l.supply + amount)
  pub ages : Ages (record l { supply = l.supply + amount }) aged
  pub converted : to_base_amount amount aged.modifier ≡ ok base_value
  pub after : l' ≡ receive to base_value aged

-- What a decrease leaves of an allowance.
abbrev pub left_of : Option Expiration → ℕ → AllowanceResponse → Option AllowanceResponse
left_of expires amount a =
    if ltb amount a.allowance
    then some (set_expires expires (record a { allowance = a.allowance - amount }))
    else none

-- What a rise makes of an allowance.
abbrev pub raised_to : Option Expiration → ℕ → Option AllowanceResponse → AllowanceResponse
raised_to expires more a =
    let val = set_expires expires (unwrap_allowance a) in
    record val { allowance = val.allowance + more }

module _ (chain : Chain) (env : Env) (info : MessageInfo) where
  -- What each message may do.
  pub data LedgerStep : ExecuteMsg → Ledger → Ledger → Type 0 where
    transfers :
        {recipient : Bytes} {amount : ℕ} {l l' : Ledger} (to : Addr)
        → chain.addr_validate recipient ≡ ok to
        → PaysBase info.sender to amount l l'
        → LedgerStep (ExecuteMsg.transfer recipient amount) l l'
    burns :
        {amount : ℕ} {l l' : Ledger}
        → 0 < amount
        → Burns info.sender amount l l'
        → LedgerStep (ExecuteMsg.burn amount) l l'
    sends :
        {contract msg : Bytes} {amount : ℕ} {l l' : Ledger} (to : Addr)
        → chain.addr_validate contract ≡ ok to
        → 0 < amount
        → Moves info.sender to amount amount l l'
        → LedgerStep (ExecuteMsg.send contract amount msg) l l'
    raises :
        {spender : Bytes} {amount : ℕ} {expires : Option Expiration} {l l' : Ledger} (to : Addr)
        (base_value : ℕ)
        → chain.addr_validate spender ≡ ok to
        → to ≢ info.sender
        → to_base_amount amount l.modifier ≡ ok base_value
        → l'
          ≡ lend
              (info.sender, to)
              (some (raised_to expires (amount + base_value) (l.lent (info.sender, to))))
              l
        → LedgerStep (ExecuteMsg.increase_allowance spender amount expires) l l'
    lowers :
        {spender : Bytes} {amount : ℕ} {expires : Option Expiration} {l l' : Ledger} (to : Addr)
        (before : AllowanceResponse)
        → chain.addr_validate spender ≡ ok to
        → to ≢ info.sender
        → l.lent (info.sender, to) ≡ some before
        → l' ≡ lend (info.sender, to) (left_of expires amount before) l
        → LedgerStep (ExecuteMsg.decrease_allowance spender amount expires) l l'
    transfers_from :
        {owner recipient : Bytes} {amount : ℕ} {l l' : Ledger} (from to : Addr) (spent : Ledger)
        → chain.addr_validate owner ≡ ok from
        → chain.addr_validate recipient ≡ ok to
        → Spends from info.sender env.block amount l spent
        → PaysBase from to amount spent l'
        → LedgerStep (ExecuteMsg.transfer_from owner recipient amount) l l'
    sends_from :
        {owner contract msg : Bytes} {amount : ℕ} {l l' : Ledger} (from to : Addr) (spent : Ledger)
        → chain.addr_validate owner ≡ ok from
        → chain.addr_validate contract ≡ ok to
        → Spends from info.sender env.block amount l spent
        → Moves from to amount amount spent l'
        → LedgerStep (ExecuteMsg.send_from owner contract amount msg) l l'
    burns_from :
        {owner : Bytes} {amount : ℕ} {l l' : Ledger} (from : Addr) (spent : Ledger)
        → chain.addr_validate owner ≡ ok from
        → Spends from info.sender env.block amount l spent
        → Burns from amount spent l'
        → LedgerStep (ExecuteMsg.burn_from owner amount) l l'
    mints :
        {recipient : Bytes} {amount : ℕ} {l l' : Ledger} (to : Addr)
        → chain.addr_validate recipient ≡ ok to
        → Mints info.sender to amount l l'
        → LedgerStep (ExecuteMsg.mint recipient amount) l l'
    hands_on :
        {new_minter : Bytes} {l l' : Ledger} (m : MinterData) (minter : Addr)
        → chain.addr_validate new_minter ≡ ok minter
        → l.minter ≡ some m
        → m.minter ≡ info.sender
        → l' ≡ record l { minter = some (record m { minter = minter }) }
        → LedgerStep (ExecuteMsg.update_minter new_minter) l l'
    moves_sink :
        {address : Bytes} {l l' : Ledger}
        → l' ≡ l
        → LedgerStep (ExecuteMsg.change_sink_address address) l l'
    sets_tax :
        {amount : ℕ} {l l' : Ledger} → l' ≡ l → LedgerStep (ExecuteMsg.change_tax_level amount) l l'
