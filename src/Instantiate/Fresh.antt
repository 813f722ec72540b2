-- ===== src/Instantiate/Fresh.antt =====
-- `instantiate` of src/contract.rs: what a new contract starts from.
use native.Mathlib.Nat.{pow-le-pow_right}
use demurrage_token.Base.{
  ℕ, ◌*◌, ◌^◌, ◌≤◌, ◌≡◌, arith, Option, some, none, inl, inr, leb, Bool-cases, List,
}
use demurrage_token.Outcome.{ok, value_or}
use demurrage_token.Std.{Env, MessageInfo, Response}
use demurrage_token.Cw20.{Cw20Coin, MinterResponse}
use demurrage_token.Chain.{Chain}
use demurrage_token.State.{State, Store, TokenInfo, MinterData, empty_store}
use demurrage_token.State
use demurrage_token.Ordered.Laws.{Distinct}
use demurrage_token.Supply.Mint.{WithinCap, exceeds_cap_within}
use demurrage_token.Msg.{InstantiateMsg, get_cap, validate}
use demurrage_token.Instantiate.Accounts.{validate_accounts_iff}
use demurrage_token.Instantiate.{
  addresses_of, create_rows, create_accounts, validate_minter, minimum_spend, set_contract_version,
  contract_version, initial_state, instantiate,
}

minimum_spend-eq-ok :
    (decimals : ℕ) {r : ℕ} → minimum_spend decimals ≡ ok r → (decimals ≤ 9) × (r ≡ 10 ^ decimals)
unfolding minimum_spend
minimum_spend-eq-ok decimals h = elim (Bool-cases (leb 10 decimals)) [
  | inl more ↦
      let k : 10 ^ 10 ≤ 10 ^ decimals =
        pow-le-pow_right {n = 10} (omega arith) {i = 10} (ground arith) in
      absurd (ground arith)
  | inr less ↦ (ground arith, ground arith)
]

module _ (chain : Chain) where
  create_accounts-eq-ok :
      (accounts : List Cw20Coin) (s : Store) {t : ℕ} {s' : Store}
      → create_accounts chain accounts s ≡ (ok t, s')
      → (Distinct (addresses_of accounts)) × (create_rows chain accounts 0 s ≡ (ok t, s'))
  unfolding create_accounts
  create_accounts-eq-ok accounts s h =
      ((validate_accounts_iff accounts).0 (ground arith), ground arith)

  -- The minter of a new contract has the cap that the message gives.
  validate_minter-eq-ok :
      (m : Option MinterResponse) (s : Store) {mint : Option MinterData} {s' : Store}
      → validate_minter chain m s ≡ (ok mint, s')
      → (s' ≡ s)
        × (elim mint [ none ↦ none | some d ↦ d.cap ] ≡ elim m [ none ↦ none | some v ↦ v.cap ])
  unfolding validate_minter
  validate_minter-eq-ok none s h = (ground arith, ground arith)
  validate_minter-eq-ok (some m) s h = (ground arith, ground arith)

  -- A contract that was instantiated on an empty storage.
  pub record Started (env : Env) (msg : InstantiateMsg) (s' : Store) : Type 0 where
    pub token : TokenInfo
    pub valid : validate msg ≡ ok tt
    pub distinct : Distinct (addresses_of msg.initial_balances)
    pub decimals : msg.decimals ≤ 9
    pub token_stored : s'.token_info ≡ some token
    pub within : WithinCap (State.get_cap token) token.total_supply
    pub state_stored :
        s'.demurrage_state
        ≡ some (initial_state env msg (msg.period_minutes * 60) (10 ^ msg.decimals))
    pub created :
        (s2 : Store) × (create_rows chain msg.initial_balances 0
            (record empty_store { contract_version = some contract_version })
          ≡ (ok token.total_supply, s2))
        × (s'.balances ≡ s2.balances)
        × (s'.allowances ≡ s2.allowances)

  -- An instantiation that succeeds had a valid message with distinct addresses and at most 9
  -- decimals, stores a token whose supply is within its cap and is what the loop over the accounts
  -- adds up to, and stores the state of the message with the initial modifier and a period of
  -- period_minutes * 60 seconds.
  pub instantiate-eq-ok :
      (env : Env) (info : MessageInfo) (msg : InstantiateMsg) {r : Response} {s' : Store}
      → instantiate chain env info msg empty_store ≡ (ok r, s')
      → Started env msg s'
  unfolding instantiate set_contract_version
  instantiate-eq-ok env info msg {r} {s'} h =
      let s1 : Store = record empty_store { contract_version = some contract_version } in
      let q = create_accounts chain msg.initial_balances s1 in
      let total = value_or 0 q.0 in
      let a = create_accounts-eq-ok msg.initial_balances s1 {t = total} {s' = q.1} (ground arith) in
      let state = initial_state env msg (msg.period_minutes * 60) (10 ^ msg.decimals) in
      let v = validate_minter chain msg.mint (record q.1 { demurrage_state = some state }) in
      let spend =
        minimum_spend-eq-ok msg.decimals {r = value_or 0 (minimum_spend msg.decimals)}
          (ground arith) in
      let b =
        validate_minter-eq-ok msg.mint (record q.1 { demurrage_state = some state })
          {mint = value_or none v.0} {s' = v.1} (ground (arith, spend.1)) in
      let token : TokenInfo = record {
        name = msg.name;
        symbol = msg.symbol;
        decimals = msg.decimals;
        total_supply = total;
        mint = value_or none v.0;
      } in
      let cap = exceeds_cap_within (get_cap msg) total (ground arith) in
      record {
        token = token;
        valid = ground arith;
        distinct = a.0;
        decimals = spend.0;
        token_stored = ground (arith, spend.1);
        within = rw b.1 cap;
        state_stored = ground (arith, spend.1, b.0);
        created = (q.1, a.1, ground (arith, spend.1, b.0), ground (arith, spend.1, b.0));
      }
