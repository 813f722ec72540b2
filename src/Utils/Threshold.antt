-- ===== src/Utils/Threshold.antt =====
-- packages/utils/src/threshold.rs. The decimals of cosmwasm_std are a type with the four
-- operations that the code calls, and with what their documentation says of these: a decimal is a
-- number of units of 10^-18, by which decimals are ordered.
use demurrage_token.Base.{
  ℕ, ◌*◌, ◌^◌, ◌≤◌, ◌<◌, ◌≡◌, ◌↔◌, arith, ltb, ◌==◌, ◌||◌, Bool, if◌then◌else◌,
}
use demurrage_token.Outcome.{Outcome, ok, err, ◌>>◌}
use demurrage_token.Std.{StdError}

pub record Decimals (Decimal : Type 0) : Type 0 where
  pub less : Decimal → Decimal → Bool
  pub percent : ℕ → Decimal
  pub one : Decimal
  pub is_zero : Decimal → Bool
  pub atomics : Decimal → ℕ
  pub less_lem : (a b : Decimal) → less a b ≡ ltb (atomics a) (atomics b)
  pub percent_lem : (n : ℕ) → atomics (percent n) ≡ n * 10 ^ 16
  pub one_lem : atomics one ≡ 10 ^ 18
  pub is_zero_lem : (a : Decimal) → is_zero a ≡ (atomics a == 0)

pub data ThresholdError : Type 0 where
  std : StdError → ThresholdError
  invalid_threshold : ThresholdError
  zero_quorum_threshold : ThresholdError
  unreachable_quorum_threshold : ThresholdError
  zero_weight : ThresholdError
  unreachable_weight : ThresholdError

module _ (Decimal : Type 0) where
  pub data Threshold : Type 0 where
    absolute_count : (weight : ℕ) → Threshold
    absolute_percentage : (percentage : Decimal) → Threshold
    threshold_quorum : (threshold quorum : Decimal) → Threshold

  pub data ThresholdResponse : Type 0 where
    count_response : (weight total_weight : ℕ) → ThresholdResponse
    percentage_response : (percentage : Decimal) (total_weight : ℕ) → ThresholdResponse
    quorum_response : (threshold quorum : Decimal) (total_weight : ℕ) → ThresholdResponse

  -- `Threshold::to_response`
  pub to_response : Threshold → ℕ → ThresholdResponse
  to_response (absolute_count weight) total_weight = count_response weight total_weight
  to_response (absolute_percentage percentage) total_weight =
      percentage_response percentage total_weight
  to_response (threshold_quorum threshold quorum) total_weight =
      quorum_response threshold quorum total_weight

module _ {Decimal : Type 0} (ops : Decimals Decimal) where
  pub valid_threshold : Decimal → Outcome ThresholdError (Unit {0})
  valid_threshold percent =
      if ops.less (ops.percent 100) percent || ops.less percent (ops.percent 50)
      then err invalid_threshold
      else ok tt

  pub valid_quorum : Decimal → Outcome ThresholdError (Unit {0})
  valid_quorum percent =
      if ops.is_zero percent
      then err zero_quorum_threshold
      else if ops.less ops.one percent
      then err unreachable_quorum_threshold
      else ok tt

  -- `Threshold::validate`
  pub validate : Threshold Decimal → ℕ → Outcome ThresholdError (Unit {0})
  validate (absolute_count weight) total_weight =
      if weight == 0
      then err zero_weight
      else if ltb total_weight weight
      then err unreachable_weight
      else ok tt
  validate (absolute_percentage percentage) total_weight = valid_threshold percentage
  validate (threshold_quorum threshold quorum) total_weight =
      valid_threshold threshold >> valid_quorum quorum

  -- At least 0.5 and at most 1.
  abbrev pub IsMajority : Decimal → Type 0
  IsMajority p = (5 * 10 ^ 17 ≤ ops.atomics p) × (ops.atomics p ≤ 10 ^ 18)

  -- A threshold that votes of a total weight can reach.
  abbrev pub IsReachable : Threshold Decimal → ℕ → Type 0
  IsReachable (absolute_count weight) total_weight = (0 < weight) × (weight ≤ total_weight)
  IsReachable (absolute_percentage percentage) total_weight = IsMajority percentage
  IsReachable (threshold_quorum threshold quorum) total_weight =
      IsMajority threshold × (0 < ops.atomics quorum) × (ops.atomics quorum ≤ 10 ^ 18)

  valid_threshold_iff : (p : Decimal) → (valid_threshold p ≡ ok tt) ↔ IsMajority p
  unfolding valid_threshold
  valid_threshold_iff p =
      let high = ops.less_lem (ops.percent 100) p in
      let low = ops.less_lem p (ops.percent 50) in
      let hundred = ops.percent_lem 100 in
      let fifty = ops.percent_lem 50 in
      (
        (λ h. (ground (arith, high, hundred), ground (arith, low, fifty))),
        λ h. ground (arith, high, low, hundred, fifty),
      )

  valid_quorum_iff :
      (p : Decimal) → (valid_quorum p ≡ ok tt) ↔ ((0 < ops.atomics p) × (ops.atomics p ≤ 10 ^ 18))
  unfolding valid_quorum
  valid_quorum_iff p =
      let zero_quorum = ops.is_zero_lem p in
      let high = ops.less_lem ops.one p in
      let unit = ops.one_lem in
      (
        (λ h. (ground (arith, zero_quorum), ground (arith, zero_quorum, high, unit))),
        λ h. ground (arith, zero_quorum, high, unit),
      )

  -- A threshold is accepted exactly if its weight is not 0 and at most the total, its percentage
  -- is at least 0.5 and at most 1, and its quorum is above 0 and at most 1.
  pub validate-IsReachable :
      (t : Threshold Decimal) (total_weight : ℕ)
      → (validate t total_weight ≡ ok tt) ↔ IsReachable t total_weight
  unfolding validate
  validate-IsReachable (absolute_count weight) total_weight =
      ((λ h. (ground arith, ground arith)), (λ h. ground arith))
  validate-IsReachable (absolute_percentage percentage) total_weight =
      valid_threshold_iff percentage
  validate-IsReachable (threshold_quorum threshold quorum) total_weight =
      let t = valid_threshold_iff threshold in
      let q = valid_quorum_iff quorum in
      (
        (λ h. let low = q.0 (ground arith) in (t.0 (ground arith), low.0, low.1)),
        λ h.
            let accepted = t.1 h.0 in
            let present = q.1 (h.1, h.2) in ground (arith, accepted, present),
      )
