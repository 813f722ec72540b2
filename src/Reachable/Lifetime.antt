-- ===== src/Reachable/Lifetime.antt =====
-- A contract of src/contract.rs from its instantiation on.
use demurrage_token.Base.{bytes_eq, ◌≡◌, refl, arith, some, List, [], ◌∷◌, All}
use demurrage_token.Outcome.{ok}
use demurrage_token.Std.{Env, MessageInfo, Response}
use demurrage_token.Cw20.{Cw20Coin}
use demurrage_token.Chain.{Chain}
use demurrage_token.State.{Store, empty_store}
use demurrage_token.Balances.{balance_of}
use demurrage_token.Storage.{may_load}
use demurrage_token.Msg.{InstantiateMsg}
use demurrage_token.Payments.Totals.{held}
use demurrage_token.Payments.Conservation.{supply_of}
use demurrage_token.Instantiate.{instantiate, contract_version}
use demurrage_token.Instantiate.Rows.{ValidatesAsIs, Unheld, create_rows-eq-ok}
use demurrage_token.Instantiate.Fresh.{instantiate-eq-ok}
use demurrage_token.Reachable.{Reach}
use demurrage_token.Reachable.Sound.{IsSound, Reach-IsSound}
use demurrage_token.Reachable.Backed.{IsBacked, Reach-IsBacked}

nothing_held : (s : Store) (rows : List Cw20Coin) → s.balances ≡ [] → Unheld s rows
unfolding may_load
nothing_held s [] e = tt
nothing_held s (c ∷ rows) e = (rw e refl, nothing_held s rows e)

module _ (chain : Chain) (env : Env) (info : MessageInfo) (msg : InstantiateMsg) {r : Response}
    {s : Store} (started : instantiate chain env info msg empty_store ≡ (ok r, s)) where
  start_IsSound : IsSound s
  start_IsSound =
      let st = instantiate-eq-ok chain env info msg started in
      record { capped = rw st.token_stored st.within; modifier = rw st.state_stored (omega arith) }

  -- If validation accepts an address only as it stands, a new contract's balances are those of the
  -- message, and all balances add up to its total supply.
  pub instantiate_balances :
      ValidatesAsIs chain
      → (held s ≡ supply_of s)
        × All (λ (c : Cw20Coin). balance_of s c.address ≡ c.amount) msg.initial_balances
  instantiate_balances same =
      let st = instantiate-eq-ok chain env info msg started in
      let s1 : Store = record empty_store { contract_version = some contract_version } in
      let (s2, made, e, _) = st.created in
      let (sum, each, _) =
        create_rows-eq-ok chain msg.initial_balances 0 s1 {s' = s2} same made st.distinct
          (nothing_held s1 msg.initial_balances refl) in
      (ground (arith, st.token_stored, e, sum), rw e each)

  -- Whatever messages succeed after an instantiation, token info and state are stored, the total
  -- supply is within the minter's cap, where one is set, and the demurrage modifier is at most its
  -- initial value.
  pub lifetime_IsSound : {t : Store} → Reach chain s t → IsSound t
  lifetime_IsSound = Reach-IsSound chain start_IsSound

  -- If validation accepts an address only as it stands, then whatever messages succeed after an
  -- instantiation, the sum of all balances is at least the total supply.
  pub lifetime_IsBacked : {t : Store} → ValidatesAsIs chain → Reach chain s t → IsBacked t
  lifetime_IsBacked same path =
      Reach-IsBacked chain start_IsSound (omega (arith, (instantiate_balances same).0)) path
