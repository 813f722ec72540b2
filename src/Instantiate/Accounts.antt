-- ===== src/Instantiate/Accounts.antt =====
-- `validate_accounts` and `create_accounts` of src/contract.rs: which lists of accounts are
-- accepted.
use demurrage_token.Base.{ℕ, ◌≡◌, ◌↔◌, ◌==◌, List, arith, length, length-map, ◌∙◌, sym}
use demurrage_token.Outcome.{ok, guard}
use demurrage_token.Cw20.{Cw20Coin}
use demurrage_token.State.{duplicate_initial_balance_addresses}
use demurrage_token.Ordered.{sort_by, dedup}
use demurrage_token.Ordered.Laws.{
  Distinct, length-sort_by, sort_by-IsSorted, sort_by-Distinct, length-dedup_iff,
}
use demurrage_token.Instantiate.{addresses_of, validate_accounts}

guard_iff : (a b : ℕ) → (guard (a == b) duplicate_initial_balance_addresses ≡ ok tt) ↔ (a ≡ b)
guard_iff a b = ((λ h. ground arith), (λ h. ground arith))

-- Accounts are accepted exactly if no address stands twice.
pub validate_accounts_iff :
    (accounts : List Cw20Coin)
    → (validate_accounts accounts ≡ ok tt) ↔ (Distinct (addresses_of accounts))
unfolding validate_accounts
validate_accounts_iff accounts =
    let addresses = addresses_of accounts in
    let sorted = sort_by (λ a. a) addresses in
    let same : length sorted ≡ length accounts =
      length-sort_by addresses ∙ length-map (λ (c : Cw20Coin). c.address) accounts in
    let iff = length-dedup_iff sorted (sort_by-IsSorted addresses) in
    let keep = sort_by-Distinct addresses in
    let counts_agree = guard_iff (length (dedup sorted)) (length accounts) in
    (
      (λ h. keep.0 (iff.0 (counts_agree.0 h ∙ sym same))),
      (λ d. counts_agree.1 (iff.1 (keep.1 d) ∙ same)),
    )
