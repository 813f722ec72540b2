-- ===== src/Instantiate/Rows.antt =====
-- `create_accounts` of src/contract.rs: the balances that it writes, and their sum.
use demurrage_token.Base.{bytes_eq, ℕ, ◌+◌, ◌≡◌, ◌≢◌, arith, sym, ◌∙◌, Bytes, List, [], ◌∷◌, All}
use demurrage_token.Outcome.{ok, value_or}
use demurrage_token.Std.{Addr}
use demurrage_token.Cw20.{Cw20Coin}
use demurrage_token.Chain.{Chain}
use demurrage_token.State.{Store}
use demurrage_token.Storage.Laws.{=?_refl, =?_ne}
use demurrage_token.Balances.{balance_of, set_balance}
use demurrage_token.Balances.Laws.{balance_of-set_balance, total-set_balance}
use demurrage_token.Ordered.Laws.{Distinct}
use demurrage_token.Payments.Totals.{held}
use demurrage_token.Instantiate.{addresses_of, create_rows}

-- An address that is accepted is the text that was validated.
abbrev pub ValidatesAsIs : Chain → Type 0
ValidatesAsIs chain = (a : Bytes) (b : Addr) → chain.addr_validate a ≡ ok b → b ≡ a

-- No row is left at an address that holds something.
abbrev pub Unheld : Store → List Cw20Coin → Type 0
Unheld s = All (λ (c : Cw20Coin). balance_of s c.address ≡ 0)

module _ (chain : Chain) where
  -- One row that was created, and the rows after it.
  pub create_rows-cons :
      (row : Cw20Coin) (rest : List Cw20Coin) (acc : ℕ) (s : Store) {t : ℕ} {s' : Store}
      → create_rows chain (row ∷ rest) acc s ≡ (ok t, s')
      → (a : Addr) × (chain.addr_validate row.address ≡ ok a)
        × (create_rows chain rest (acc + row.amount) (set_balance a row.amount s) ≡ (ok t, s'))
  unfolding create_rows
  create_rows-cons row rest acc s h =
      (value_or [] (chain.addr_validate row.address), ground arith, ground arith)

  Unheld-set_balance :
      (a : Addr) (v : ℕ) (s : Store) (rows : List Cw20Coin)
      → All (λ b. a ≢ b) (addresses_of rows)
      → Unheld s rows
      → Unheld (set_balance a v s) rows
  Unheld-set_balance a v s [] fresh h = tt
  Unheld-set_balance a v s (c ∷ rows) fresh h = (
    ground (arith, balance_of-set_balance a c.address v s, =?_ne a c.address fresh.0, h.0),
    Unheld-set_balance a v s rows fresh.1 h.1,
  )

  -- An address that no row names keeps its balance.
  create_rows-other :
      (rows : List Cw20Coin) (acc : ℕ) (s : Store) (j : Addr) {t : ℕ} {s' : Store}
      → ValidatesAsIs chain
      → create_rows chain rows acc s ≡ (ok t, s')
      → All (λ b. j ≢ b) (addresses_of rows)
      → balance_of s' j ≡ balance_of s j
  create_rows-other [] acc s j same h fresh = unfold create_rows in ground arith
  create_rows-other (row ∷ rows) acc s j same h fresh =
      let (a, valid, k) = create_rows-cons row rows acc s h in
      let ne : a ≢ j = λ e. fresh.0 (sym e ∙ same row.address a valid) in
      create_rows-other rows (acc + row.amount) (set_balance a row.amount s) j same k fresh.1
      ∙ (rw (balance_of-set_balance a j row.amount s, =?_ne a j ne))

  -- Over distinct addresses that hold nothing, every row's address holds its amount afterwards,
  -- and the sum of all balances grows by what the loop adds to its total.
  pub create_rows-eq-ok :
      (rows : List Cw20Coin) (acc : ℕ) (s : Store) {t : ℕ} {s' : Store}
      → ValidatesAsIs chain
      → create_rows chain rows acc s ≡ (ok t, s')
      → Distinct (addresses_of rows)
      → Unheld s rows
      → (held s' + acc ≡ held s + t)
        × All (λ (c : Cw20Coin). balance_of s' c.address ≡ c.amount) rows
        × (s'.token_info ≡ s.token_info)
  create_rows-eq-ok [] acc s same h d free =
      (unfold create_rows in ground arith, tt, unfold create_rows in ground arith)
  create_rows-eq-ok (row ∷ rows) acc s {t} {s'} same h d free =
      let (a, valid, k) = create_rows-cons row rows acc s h in
      let e = same row.address a valid in
      let s1 = set_balance a row.amount s in
      let fresh : All (λ b. a ≢ b) (addresses_of rows) = rw e d.0 in
      let (sum, each, info) =
        create_rows-eq-ok rows (acc + row.amount) s1 {t = t} {s' = s'} same k d.1
          (Unheld-set_balance a row.amount s rows fresh free.1) in
      let kept = create_rows-other rows (acc + row.amount) s1 a {t = t} {s' = s'} same k fresh in
      let empty : balance_of s a ≡ 0 = rw e free.0 in
      let grown = total-set_balance a row.amount s in
      (
        omega arith,
        (rw (← e) (kept ∙ rw (balance_of-set_balance a a row.amount s, =?_refl a)), each),
        info,
      )

  -- The accounts are created without allowances.
  pub create_rows-allowances :
      (rows : List Cw20Coin) (acc : ℕ) (s : Store) {t : ℕ} {s' : Store}
      → create_rows chain rows acc s ≡ (ok t, s')
      → s'.allowances ≡ s.allowances
  create_rows-allowances [] acc s h = unfold create_rows in ground arith
  create_rows-allowances (row ∷ rows) acc s h =
      let (a, _, k) = create_rows-cons row rows acc s h in
      create_rows-allowances rows (acc + row.amount) (set_balance a row.amount s) k
