-- ===== src/Supply/Minter.antt =====
-- `execute_update_minter` of src/contract.rs.
use demurrage_token.Base.{
  bytes_eq, bytes_iff, ◌≡◌, ◌≢◌, arith, some, Option-cases, inl, inr, Bytes, [],
}
use demurrage_token.Outcome.{ok, err, value_or}
use demurrage_token.Std.{Addr, Env, MessageInfo, Response}
use demurrage_token.Chain.{Chain}
use demurrage_token.State.{Store, TokenInfo, MinterData, unauthorized}
use demurrage_token.Contract.{execute_update_minter}

module _ (chain : Chain) (env : Env) (info : MessageInfo) (new_minter : Bytes) (s : Store) where
  -- An update that succeeds was sent by the minter, and writes the new minter's valid address and
  -- nothing else: the cap stays as it was.
  pub execute_update_minter-eq-ok :
      {r : Response} {s' : Store}
      → execute_update_minter chain env info new_minter s ≡ (ok r, s')
      → (token : TokenInfo) × (m : MinterData) × (minter : Addr) × (s.token_info ≡ some token)
        × (token.mint ≡ some m)
        × (m.minter ≡ info.sender)
        × (chain.addr_validate new_minter ≡ ok minter)
        × (s' ≡ record s {
          token_info = some (record token { mint = some (record m { minter = minter }) });
        })
  execute_update_minter-eq-ok h = elim (Option-cases s.token_info) [
    | inl missing ↦ absurd (unfold execute_update_minter in ground arith)
    | inr (token, e) ↦ elim (Option-cases token.mint) [
      | inl missing ↦ absurd (unfold execute_update_minter in ground arith)
      | inr (m, e') ↦
          unfold execute_update_minter in
          (
            token,
            m,
            value_or [] (chain.addr_validate new_minter),
            e,
            e',
            ground (arith, bytes_iff m.minter info.sender),
            ground arith,
            ground arith,
          )
    ]
  ]

  -- An update by anybody but the minter is refused as unauthorized, as is one by anybody where no
  -- minter is set, and nothing is written.
  pub execute_update_minter_unauthorized :
      (token : TokenInfo)
      → s.token_info ≡ some token
      → ((m : MinterData) → token.mint ≡ some m → m.minter ≢ info.sender)
      → execute_update_minter chain env info new_minter s ≡ (err unauthorized, s)
  execute_update_minter_unauthorized token e other = elim (Option-cases token.mint) [
    | inl missing ↦ unfold execute_update_minter in ground arith
    | inr (m, e') ↦
        let ne = other m e' in
        unfold execute_update_minter in ground (arith, bytes_iff m.minter info.sender, ne)
  ]
