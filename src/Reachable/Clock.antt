-- ===== src/Reachable/Clock.antt =====
-- The state of the demurrage of src/contract.rs over any run of messages: what counts a period.
use demurrage_token.Base.{bytes_eq, ℕ, ◌+◌, ◌≤◌, ◌≡◌, arith, some}
use demurrage_token.Outcome.{value_or}
use demurrage_token.Std.{Timestamp}
use demurrage_token.Chain.{Chain}
use demurrage_token.State.{State, Store}
use demurrage_token.Msg.{ExecuteMsg}
use demurrage_token.Demurrage.{decay_by}
use demurrage_token.Demurrage.Decay.{decay_by-le}
use demurrage_token.Period.Advance.{minutes_since, decayed_at}
use demurrage_token.Reachable.{Reach}
use demurrage_token.Reachable.Replay.{replay_by, replay, Reach-replay}

-- `later` counts `n` periods more than `state`, its modifier is not larger, and the clock's
-- settings are the same.
pub record Later (n : ℕ) (state later : State) : Type 0 where
  pub counted : later.current_period ≡ state.current_period + n
  pub decayed : later.demurrage_amount ≤ state.demurrage_amount
  pub same_start : later.start_timestamp ≡ state.start_timestamp
  pub same_demurrage_time : later.demurrage_timestamp ≡ state.demurrage_timestamp
  pub same_length : later.period_minute ≡ state.period_minute
  pub same_spend : later.minimum_participant_spend ≡ state.minimum_participant_spend

-- Whether a message changes the period.
abbrev pub periods_of : ExecuteMsg → ℕ
periods_of (ExecuteMsg.transfer recipient amount) = 1
periods_of (ExecuteMsg.transfer_from owner recipient amount) = 1
periods_of (ExecuteMsg.mint recipient amount) = 1
periods_of _ = 0

abbrev pub StoredLater : ℕ → State → Store → Type 0
StoredLater n state s' = (later : State) × (s'.demurrage_state ≡ some later) × Later n state later

decayed_at-le :
    (chain : Chain) (now : Timestamp) (state : State)
    → decayed_at chain now state ≤ state.demurrage_amount
decayed_at-le chain now state =
    let n = minutes_since chain now state in
    ground (
      arith,
      decay_by-le state.demurrage_amount state.tax_level n
          {r = value_or 0 (decay_by state.demurrage_amount state.tax_level n)},
    )

module _ (chain : Chain) where
  replay_by-Later :
      (now : Timestamp) (msg : ExecuteMsg) (state : State)
      → Later (periods_of msg) state (replay_by chain now msg state)
  replay_by-Later now (ExecuteMsg.transfer recipient amount) state =
      ground (arith, decayed_at-le chain now state)
  replay_by-Later now (ExecuteMsg.transfer_from owner recipient amount) state =
      ground (arith, decayed_at-le chain now state)
  replay_by-Later now (ExecuteMsg.mint recipient amount) state =
      ground (arith, decayed_at-le chain now state)
  replay_by-Later now _ state = ground arith

  -- The messages of a run that change the period.
  abbrev pub periods : {s t : Store} → Reach chain s t → ℕ
  periods Reach.here = 0
  periods (Reach.next env info msg r path h) = periods path + periods_of msg

  replay-Later :
      {s t : Store} (path : Reach chain s t) (state : State)
      → Later (periods path) state (replay chain path state)
  replay-Later Reach.here state = omega arith
  replay-Later (Reach.next env info msg r path h) state =
      let l = replay-Later path state in
      let l' = replay_by-Later env.block.time msg (replay chain path state) in
      ground (arith, l.counted, l.decayed, l'.counted, l'.decayed)

  -- Over any run of messages that succeed, exactly the transfers, those by allowance and the mints
  -- count one period each, the modifier never rises, and start, demurrage time, length of a period
  -- and minimum spend stay as they were.
  pub Reach-Later :
      {s t : Store} (state : State)
      → s.demurrage_state ≡ some state
      → (path : Reach chain s t) → StoredLater (periods path) state t
  Reach-Later state stored path =
      (replay chain path state, Reach-replay chain state stored path, replay-Later path state)
