-- ===== src/Queries/Accounts.antt =====
-- The pages of accounts of src/enumerable.rs, asked for one after another.
use demurrage_token.Base.{ℕ, ◌≤◌, ◌<◌, ◌≡◌, refl, none, Option, Bytes, List, [], length, map}
use demurrage_token.Outcome.{value_or}
use demurrage_token.Std.{Addr}
use demurrage_token.State.{Store}
use demurrage_token.Ordered.{sort_by}
use demurrage_token.Ordered.Laws.{Distinct}
use demurrage_token.Queries.{page, page_limit, query_all_accounts}
use demurrage_token.Queries.Walk.{walk, walk-sort_by}

abbrev pub accounts_of : Option ℕ → Store → Option Bytes → List Bytes
accounts_of limit s start =
    (value_or (record { accounts = [] }) (query_all_accounts start limit s)).accounts

-- The accounts that are written, in the order of the ranges.
abbrev pub keys_of : Store → List Bytes
keys_of s = map (λ (e : Addr × ℕ). e.0) s.balances

abbrev pub sorted_keys : Store → List Bytes
sorted_keys s = sort_by (λ a. a) (keys_of s)

pub walk-sorted_keys :
    (fuel : ℕ) (limit : Option ℕ) (s : Store)
    → 0 < page_limit limit
    → Distinct (keys_of s)
    → length (keys_of s) ≤ fuel
    → walk fuel (accounts_of limit s) none ≡ sorted_keys s
unfolding query_all_accounts page
walk-sorted_keys fuel limit s pos distinct enough =
    walk-sort_by (page_limit limit) (keys_of s) (accounts_of limit s) fuel pos (λ start. refl)
      distinct enough
