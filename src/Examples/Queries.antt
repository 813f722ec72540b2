-- ===== src/Examples/Queries.antt =====
-- Pages of accounts, and expirations at blocks.
use demurrage_token.Base.{◌^◌, ◌≤◌, ◌≡◌, true, refl, some, [], ◌∷◌, List, Bytes, All, length, arith}
use demurrage_token.Outcome.{ok}
use demurrage_token.State.{Store}
use demurrage_token.Std.{BlockInfo}
use demurrage_token.Expiration.{at_height, is_expired, partial_cmp}
use demurrage_token.Expiration.Laws.{is_expired_stays, is_expired_antitone}
use demurrage_token.Ordered.Laws.{IsSorted}
use demurrage_token.Queries.{query_all_accounts, max_limit, after_start}
use demurrage_token.Queries.Pages.{query_all_accounts_page}
use demurrage_token.Examples.{demo_store, alice, bob, sink}

abbrev three_accounts : Store
three_accounts = record demo_store { balances = (sink, 1) ∷ (bob, 5) ∷ (alice, 1000) ∷ [] }

page_of_three :
    (r : List Bytes) × (query_all_accounts (some alice) (some 100) three_accounts
      ≡ ok (record { accounts = r }))
    × (length r ≤ max_limit)
    × IsSorted r
    × All (λ key. after_start (some alice) key ≡ true) r
page_of_three = query_all_accounts_page (some alice) (some 100) three_accounts

abbrev block_200 : BlockInfo
block_200 = record { height = 200; time = 10 ^ 15 }

abbrev block_300 : BlockInfo
block_300 = record { height = 300; time = 10 ^ 15 }

stays_expired : is_expired (at_height 150) block_300 ≡ true
unfolding is_expired
stays_expired =
    is_expired_stays (at_height 150) block_200 block_300 (omega arith) (omega arith) refl

smaller_is_expired : is_expired (at_height 150) block_200 ≡ true
unfolding is_expired partial_cmp
smaller_is_expired = is_expired_antitone (at_height 150) (at_height 180) block_200 refl refl
