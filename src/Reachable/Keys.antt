-- ===== src/Reachable/Keys.antt =====
-- The keys of the balances of src/contract.rs over any run of messages, and the pages of
-- src/enumerable.rs over them.
use demurrage_token.Base.{
  ◌∙◌, pair_eq, bytes_eq, ℕ, ◌+◌, ◌≤◌, ◌<◌, ◌≡◌, arith, some, none, Option, Bytes, List, [], ◌∷◌,
  All, length,
}
use demurrage_token.Outcome.{ok}
use demurrage_token.Std.{Addr, Env, MessageInfo, Response}
use demurrage_token.Cw20.{Cw20Coin}
use demurrage_token.Chain.{Chain}
use demurrage_token.State.{Store, empty_store}
use demurrage_token.Balances.{set_balance}
use demurrage_token.Ordered.Laws.{Distinct, sort_by-Distinct}
use demurrage_token.Msg.{InstantiateMsg}
use demurrage_token.Instantiate.{instantiate, create_rows, contract_version}
use demurrage_token.Instantiate.Fresh.{instantiate-eq-ok}
use demurrage_token.Queries.{page_limit}
use demurrage_token.Queries.Walk.{walk}
use demurrage_token.Queries.Accounts.{accounts_of, keys_of, sorted_keys, walk-sorted_keys}
use demurrage_token.Instantiate.Rows.{create_rows-cons, create_rows-allowances}
use demurrage_token.Queries.Spenders.{
  infos_of, spenders_of, spenders_in, IsStored, walk-spenders_in,
}
use demurrage_token.Ordered.{sort_by}
use demurrage_token.Storage.Written.{keys, saved, unchanged, Written-Distinct}
use demurrage_token.Reachable.Written.{Reach-Rewritten}
use demurrage_token.Reachable.{Reach}

-- No account stands twice in the balances.
abbrev pub IsKeyed : Store → Type 0
IsKeyed s = Distinct (keys_of s)

module _ (chain : Chain) where
  create_rows-IsKeyed :
      (rows : List Cw20Coin) (acc : ℕ) (s : Store) {t : ℕ} {s' : Store}
      → create_rows chain rows acc s ≡ (ok t, s')
      → IsKeyed s
      → IsKeyed s'
  create_rows-IsKeyed [] acc s {t} {s'} h d =
      let same : s'.balances ≡ s.balances = unfold create_rows in ground arith in rw same d
  create_rows-IsKeyed (row ∷ rows) acc s h d =
      let (a, _, k) = create_rows-cons chain row rows acc s h in
      create_rows-IsKeyed rows (acc + row.amount) (set_balance a row.amount s) k
        (Written-Distinct (saved a row.amount unchanged) d)

  -- Whatever messages succeed after an instantiation, a client that asks for page after page of
  -- accounts, with a limit other than 0, each from the last account of the one before, has been
  -- given after at most as many pages as there are accounts every account with a written balance,
  -- in ascending order and none twice.
  pub lifetime_pages :
      (env : Env) (info : MessageInfo) (msg : InstantiateMsg) {r : Response} {s t : Store}
      → instantiate chain env info msg empty_store ≡ (ok r, s)
      → Reach chain s t
      → (fuel : ℕ) (limit : Option ℕ) → 0 < page_limit limit
      → length (keys_of t) ≤ fuel
      → (walk fuel (accounts_of limit t) none ≡ sorted_keys t) × Distinct (sorted_keys t)
  lifetime_pages env info msg {s = s} {t = t} started path fuel limit pos enough =
      let st = instantiate-eq-ok chain env info msg started in
      let s1 : Store = record empty_store { contract_version = some contract_version } in
      let (s2, made, e, _) = st.created in
      let d2 = create_rows-IsKeyed msg.initial_balances 0 s1 made tt in
      let d = Written-Distinct (Reach-Rewritten chain path).balances (rw e d2) in
      (walk-sorted_keys fuel limit t pos d enough, (sort_by-Distinct (keys_of t)).1 d)

  -- Whatever messages succeed after an instantiation, a client that asks for page after page of an
  -- owner's allowances, with a limit other than 0, each from the last spender of the one before,
  -- has been given after at most as many pages as there are spenders every spender of the owner, in
  -- ascending order and none twice, and every entry of any page is the allowance that is stored.
  pub lifetime_spenders :
      (env : Env) (info : MessageInfo) (msg : InstantiateMsg) {r : Response} {s t : Store}
      → instantiate chain env info msg empty_store ≡ (ok r, s)
      → Reach chain s t
      → (owner : Bytes) (from : Addr) → chain.addr_validate owner ≡ ok from
      → (fuel : ℕ) (limit : Option ℕ) → 0 < page_limit limit
      → length (spenders_in from t) ≤ fuel
      → (walk fuel (spenders_of chain owner limit t) none ≡ sort_by (λ a. a) (spenders_in from t))
        × Distinct (spenders_in from t)
        × ((start : Option Bytes) → All (IsStored from t) (infos_of chain owner limit t start))
  lifetime_spenders env info msg {s = s} {t = t} started path owner from valid =
      let st = instantiate-eq-ok chain env info msg started in
      let s1 : Store = record empty_store { contract_version = some contract_version } in
      let (s2, made, _, e) = st.created in
      let none_lent : s.allowances ≡ [] =
        e ∙ create_rows-allowances chain msg.initial_balances 0 s1 made in
      let d : Distinct (keys s.allowances) = rw none_lent tt in
      walk-spenders_in chain owner from t valid
        (Written-Distinct (Reach-Rewritten chain path).allowances d)
