-- ===== src/Queries/Client.antt =====
-- The wrapper of packages/cw20/src/helpers.rs against the queries of src/contract.rs: what another
-- contract is told that asks this one through it.
use demurrage_token.Base.{
  ◌∙◌, Option-cases, inl, inr, bytes_eq, pair_eq, ◌≡◌, refl, Option, true, false, some, none, Bytes,
}
use demurrage_token.Outcome.{Outcome, ok, err}
use demurrage_token.Std.{StdError, not_found, Addr}
use demurrage_token.Cw20.{BalanceResponse, TokenInfoResponse, AllowanceResponse, MinterResponse}
use demurrage_token.Cw20.Helpers.{
  Cw20QueryMsg, Querier, Cw20Contract, get_balance, get_meta, get_allowance, get_minter,
  is_mintable,
}
use demurrage_token.Chain.{Chain}
use demurrage_token.State.{MinterData, TokenInfo, Store}
use demurrage_token.Balances.{balance_of}
use demurrage_token.Allowances.{unwrap_allowance, query_allowance}
use demurrage_token.Allowances.Deduct.{allowance_at}
use demurrage_token.Msg.{
  QueryMsg, QueryResponse, balance_response, token_info_response, minter_response,
  allowance_response,
}
use demurrage_token.Queries.{answer, query_balance, query_token_info, query_minter, minter_answer}

-- The contract's message that a question of the interface is read as: both have the same names.
abbrev pub as_query : Cw20QueryMsg → QueryMsg
as_query (Cw20QueryMsg.balance address) = QueryMsg.balance address
as_query Cw20QueryMsg.token_info = QueryMsg.token_info
as_query (Cw20QueryMsg.allowance owner spender) = QueryMsg.allowance owner spender
as_query Cw20QueryMsg.minter = QueryMsg.minter
as_query (Cw20QueryMsg.all_allowances owner start_after limit) =
    QueryMsg.all_allowances owner start_after limit
as_query (Cw20QueryMsg.all_accounts start_after limit) = QueryMsg.all_accounts start_after limit

-- At the address of the wrapper stands the contract with the storage `s`: a question is serialized,
-- the contract answers it or fails, and an answer is read back as it was written.
pub record Serves (chain : Chain) (s : Store) (q : Querier) (self : Cw20Contract) : Type 0 where
  pub written : QueryResponse → q.Binary
  pub asked : (m : Cw20QueryMsg) → (b : q.Binary) × (q.query_to_binary m ≡ ok b)
  pub answered :
      (m : Cw20QueryMsg) (b : q.Binary) (r : QueryResponse)
      → q.query_to_binary m ≡ ok b
      → answer chain (as_query m) s ≡ ok r
      → q.smart self.addr b ≡ ok (written r)
  pub refused :
      (m : Cw20QueryMsg) (b : q.Binary) (e : StdError)
      → q.query_to_binary m ≡ ok b
      → answer chain (as_query m) s ≡ err e
      → (e' : StdError) × (q.smart self.addr b ≡ err e')
  pub balance_read : (r : BalanceResponse) → q.balance_from (written (balance_response r)) ≡ ok r
  pub token_info_read :
      (r : TokenInfoResponse) → q.token_info_from (written (token_info_response r)) ≡ ok r
  pub allowance_read :
      (r : AllowanceResponse) → q.allowance_from (written (allowance_response r)) ≡ ok r
  pub minter_read : (r : Option MinterResponse) → q.minter_from (written (minter_response r)) ≡ ok r

minter_named :
    (mint : Option MinterData)
    → ◌≡◌ {A = Outcome StdError (Option MinterResponse)}
        (ok (minter_answer mint))
        (ok (elim mint [ none ↦ none | some m ↦ some (record { minter = m.minter; cap = m.cap }) ]))
unfolding minter_answer
minter_named none = refl
minter_named (some m) = refl

module _ (chain : Chain) (s : Store) (q : Querier) (self : Cw20Contract)
    (serves : Serves chain s q self) where
  get_balance_reads :
      (address : Bytes) (k : Addr)
      → chain.addr_validate address ≡ ok k
      → get_balance q self address ≡ ok (balance_of s k)
  unfolding get_balance answer query_balance
  get_balance_reads address k valid =
      let m = Cw20QueryMsg.balance address in
      let (b, sent) = serves.asked m in
      let r : BalanceResponse = record { balance = balance_of s k } in
      let got = serves.answered m b (balance_response r) sent (rw valid refl) in
      rw (sent, got, serves.balance_read r) refl

  get_allowance_reads :
      (owner spender : Bytes) (from to : Addr)
      → chain.addr_validate owner ≡ ok from
      → chain.addr_validate spender ≡ ok to
      → get_allowance q self owner spender ≡ ok (unwrap_allowance (allowance_at (from, to) s))
  unfolding get_allowance answer query_allowance
  get_allowance_reads owner spender from to valid valid' =
      let m = Cw20QueryMsg.allowance owner spender in
      let (b, sent) = serves.asked m in
      let r = unwrap_allowance (allowance_at (from, to) s) in
      let got = serves.answered m b (allowance_response r) sent (rw (valid, valid') refl) in
      rw (sent, got, serves.allowance_read r) refl

  get_meta_reads :
      (info : TokenInfo)
      → s.token_info ≡ some info
      → get_meta q self
        ≡ ok (record {
          name = info.name;
          symbol = info.symbol;
          decimals = info.decimals;
          total_supply = info.total_supply;
        })
  unfolding get_meta answer query_token_info
  get_meta_reads info stored =
      let (b, sent) = serves.asked Cw20QueryMsg.token_info in
      let r : TokenInfoResponse = record {
        name = info.name;
        symbol = info.symbol;
        decimals = info.decimals;
        total_supply = info.total_supply;
      } in
      let got =
        serves.answered Cw20QueryMsg.token_info b (token_info_response r) sent (rw stored refl) in
      rw (sent, got, serves.token_info_read r) refl

  get_minter_reads :
      (info : TokenInfo)
      → s.token_info ≡ some info
      → get_minter q self ≡ ok (minter_answer info.mint)
  unfolding get_minter answer query_minter
  get_minter_reads info stored =
      let (b, sent) = serves.asked Cw20QueryMsg.minter in
      let r = minter_answer info.mint in
      let got = serves.answered Cw20QueryMsg.minter b (minter_response r) sent (rw stored refl) in
      rw (sent, got, serves.minter_read r) refl

  is_mintable_lem : is_mintable q self ≡ ok (elim s.token_info [ none ↦ false | some info ↦ true ])
  unfolding is_mintable
  is_mintable_lem = elim (Option-cases s.token_info) [
    | inl missing ↦
        let (b, sent) = serves.asked Cw20QueryMsg.minter in
        let (e, got) =
          serves.refused Cw20QueryMsg.minter b (not_found "TokenInfo") sent
            (unfold answer query_minter in rw missing refl) in
        unfold get_minter in rw (missing, sent, got) refl
    | inr (info, stored) ↦ rw (stored, get_minter_reads info stored) refl
  ]

  -- Where at the wrapper's address stands this contract, with its token info stored, the wrapper's
  -- balance, allowance, metadata and minter are the balance and the allowance that the contract has
  -- stored for valid addresses, 0 and an empty allowance where there is none, the token's name,
  -- symbol, decimals and supply, and its minter, if it has one; and it is told to be mintable even
  -- if it has no minter.
  pub wrapper_reads :
      (info : TokenInfo)
      → s.token_info ≡ some info
      → (owner spender : Bytes) (from to : Addr) → chain.addr_validate owner ≡ ok from
      → chain.addr_validate spender ≡ ok to
      → (get_balance q self owner ≡ ok (balance_of s from))
        × (get_allowance q self owner spender ≡ ok (unwrap_allowance (allowance_at (from, to) s)))
        × (get_meta q self
            ≡ ok (record {
              name = info.name;
              symbol = info.symbol;
              decimals = info.decimals;
              total_supply = info.total_supply;
            }))
        × (get_minter q self
            ≡ ok (elim info.mint [
              | none ↦ none
              | some m ↦ some (record { minter = m.minter; cap = m.cap })
            ]))
        × (is_mintable q self ≡ ok true)
  wrapper_reads info stored owner spender from to valid valid' = (
    get_balance_reads owner from valid,
    get_allowance_reads owner spender from to valid valid',
    get_meta_reads info stored,
    get_minter_reads info stored ∙ minter_named info.mint,
    is_mintable_lem ∙ (rw stored refl),
  )
