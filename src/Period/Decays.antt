-- ===== src/Period/Decays.antt =====
-- `apply_demurrage` of src/contract.rs: what it does to the state and the storage.
use demurrage_token.Base.{ℕ, ◌≤◌, ◌<◌, ◌≡◌, arith, Bool, true, some, ◌⊎◌}
use demurrage_token.Outcome.{ok, value_or}
use demurrage_token.Std.{Timestamp}
use demurrage_token.Chain.{Chain}
use demurrage_token.State.{State, Store}
use demurrage_token.Demurrage.{decay_by}
use demurrage_token.Demurrage.Decay.{decay_by-le}
use demurrage_token.Period.{
  get_minutes_delta, decay_state, apply_demurrage_limited, apply_demurrage,
}

-- The state with another modifier.
abbrev pub with_amount : State → ℕ → State
with_amount state a = record state { demurrage_amount = a }

abbrev pub with_state : Store → State → Store
with_state s state = record s { demurrage_state = some state }

module _ (chain : Chain) where
  pub decay_state-eq-ok :
      (state : State) (n : ℕ) (s : Store) {r : Bool × State} {s' : Store}
      → decay_state chain state n s ≡ (ok r, s')
      → (a : ℕ) × (decay_by state.demurrage_amount state.tax_level n ≡ ok a)
        × (r ≡ (true, with_amount state a))
        × (s' ≡ with_state s (with_amount state a))
  unfolding decay_state
  decay_state-eq-ok state n s h = (
    value_or 0 (decay_by state.demurrage_amount state.tax_level n),
    ground arith,
    ground arith,
    ground arith,
  )

  -- Only the modifier changes, and it does not grow. What is saved is the state that is returned.
  pub apply_demurrage-eq-ok :
      (now : Timestamp) (state : State) (s : Store) {r : Bool × State} {s' : Store}
      → apply_demurrage chain now state s ≡ (ok r, s')
      → (r.1.demurrage_amount ≤ state.demurrage_amount)
        × (r.1 ≡ with_amount state r.1.demurrage_amount)
        × ((s' ≡ s) ⊎ (s' ≡ with_state s r.1))
  unfolding apply_demurrage apply_demurrage_limited decay_state
  apply_demurrage-eq-ok now state s {r} {s'} h =
      let n = value_or 0 (get_minutes_delta chain now state.demurrage_timestamp) in
      (
        ground (
          arith,
          decay_by-le state.demurrage_amount state.tax_level n {r = r.1.demurrage_amount},
        ),
        ground arith,
        ground arith,
      )

  -- The time of the last demurrage is not moved on: of two calls at the same instant that succeed,
  -- at least a minute after that time, the second decays the modifier once more, over all the
  -- minutes that the first had applied.
  pub apply_demurrage_repeats :
      (now : Timestamp) (state : State) (s : Store) (n : ℕ) {r r' : Bool × State} {s1 s2 : Store}
      → get_minutes_delta chain now state.demurrage_timestamp ≡ ok n
      → 0 < n
      → apply_demurrage chain now state s ≡ (ok r, s1)
      → apply_demurrage chain now r.1 s1 ≡ (ok r', s2)
      → (decay_by state.demurrage_amount state.tax_level n ≡ ok r.1.demurrage_amount)
        × (decay_by r.1.demurrage_amount state.tax_level n ≡ ok r'.1.demurrage_amount)
        × (r'.1.demurrage_timestamp ≡ state.demurrage_timestamp)
  unfolding apply_demurrage apply_demurrage_limited
  apply_demurrage_repeats now state s n {r} {r'} {s1} {s2} e pos h k =
      let (a, d, e1, _) = decay_state-eq-ok state n s {r = r} {s' = s1} (ground arith) in
      let (a', d', e2, _) = decay_state-eq-ok r.1 n s1 {r = r'} {s' = s2} (ground arith) in
      (ground arith, ground arith, ground arith)
