-- ===== src/Examples/Spenders.antt =====
-- Two allowances that are given after an instantiation, and their pages.
use demurrage_token.Base.{
  bytes_eq, pair_eq, bytes_beq, ◌≡◌, refl, some, none, [], ◌∷◌, All, Bytes, arith, Option,
}
use demurrage_token.State.{Store}
use demurrage_token.Msg.{ExecuteMsg}
use demurrage_token.Ordered.{sort_by, bytes_leb}
use demurrage_token.Ordered.Laws.{Distinct}
use demurrage_token.Queries.{page_limit, allowances_of}
use demurrage_token.Queries.Walk.{walk}
use demurrage_token.Queries.Spenders.{infos_of, spenders_of, spenders_in, IsStored}
use demurrage_token.Reachable.{Reach}
use demurrage_token.Reachable.Keys.{lifetime_spenders}
use demurrage_token.Examples.Opened.{all_payments}
use demurrage_token.Examples.Lifetime.{demo_msg, new, new_ok, call, all_instantiation}
use demurrage_token.Examples.{demo_chain, alice, bob, sink, from, block_at, returned, nothing}

abbrev to_sink : ExecuteMsg
to_sink = ExecuteMsg.increase_allowance sink 70 none

abbrev to_bob : ExecuteMsg
to_bob = ExecuteMsg.increase_allowance bob 50 none

abbrev lent_once : Store
lent_once = (call alice 5 to_sink new.1).1

abbrev lent_twice : Store
lent_twice = (call alice 6 to_bob lent_once).1

lending : Reach demo_chain new.1 lent_twice
unfolding all_payments all_instantiation
lending =
    Reach.next (block_at 6) (from alice) to_bob _
      (Reach.next (block_at 5) (from alice) to_sink _ Reach.here
        (returned nothing (call alice 5 to_sink new.1) refl))
      (returned nothing (call alice 6 to_bob lent_once) refl)

-- One spender to a page.
lifetime_spenders_example :
    (walk 2 (spenders_of demo_chain alice (some 1) lent_twice) none
      ≡ sort_by (λ a. a) (spenders_in alice lent_twice))
    × Distinct (spenders_in alice lent_twice)
    × ((start : Option Bytes)
        → All (IsStored alice lent_twice) (infos_of demo_chain alice (some 1) lent_twice start))
unfolding all_payments all_instantiation allowances_of bytes_beq
lifetime_spenders_example =
    lifetime_spenders demo_chain (block_at 0) (from alice) demo_msg new_ok lending alice alice refl
      2 (some 1) (unfold page_limit in omega arith) (omega arith)

-- Both are given, Bob first.
both_spenders : sort_by (λ a. a) (spenders_in alice lent_twice) ≡ bob ∷ sink ∷ []
unfolding all_payments all_instantiation allowances_of bytes_beq sort_by bytes_leb
both_spenders = refl
