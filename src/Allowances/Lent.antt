-- ===== src/Allowances/Lent.antt =====
-- What an owner has lent to all spenders together, in the allowances of src/allowances.rs.
use demurrage_token.Base.{
  bytes_eq, bytes_iff, pair_eq, pair_iff, ℕ, ◌+◌, ◌-◌, ◌≡◌, ◌≢◌, arith, ap, ◌=?◌, if◌then◌else◌,
  Bool-cases, inl, inr, Option, none, some, [], ◌∷◌,
}
use demurrage_token.Std.{Addr, BlockInfo}
use demurrage_token.Cw20.{AllowanceResponse}
use demurrage_token.State.{Store}
use demurrage_token.Storage.{Map, may_load, save, remove}
use demurrage_token.Allowances.Deduct.{Deduction}

-- What an entry under a key counts for the owner.
abbrev pub part_of : Addr → Addr × Addr → Option AllowanceResponse → ℕ
part_of owner k none = 0
part_of owner k (some a) = if k.0 =? owner then a.allowance else 0

abbrev pub lent_by : Addr → Map (Addr × Addr) AllowanceResponse → ℕ
lent_by owner [] = 0
lent_by owner ((k, a) ∷ m) = part_of owner k (some a) + lent_by owner m

pub lent_by-save :
    (owner : Addr) (k : Addr × Addr) (a : AllowanceResponse)
    (m : Map (Addr × Addr) AllowanceResponse)
    → lent_by owner (save k a m) + part_of owner k (may_load k m)
      ≡ lent_by owner m + part_of owner k (some a)
unfolding save may_load
lent_by-save owner k a [] = omega arith
lent_by-save owner k a ((j, b) ∷ m) = elim (Bool-cases (j =? k)) [
  | inl same ↦ let e : j ≡ k = (pair_iff j k).0 same in rw same (rw e (omega arith))
  | inr other ↦ rw other (omega (arith, lent_by-save owner k a m))
]

-- An entry of another owner may go.
pub lent_by-remove :
    (owner : Addr) (k : Addr × Addr) (m : Map (Addr × Addr) AllowanceResponse)
    → k.0 ≢ owner
    → lent_by owner (remove k m) ≡ lent_by owner m
unfolding remove
lent_by-remove owner k [] ne = omega arith
lent_by-remove owner k ((j, b) ∷ m) ne =
    let ih = lent_by-remove owner k m ne in
    elim (Bool-cases (j =? k)) [
      | inl same ↦
          let e : j ≡ k = (pair_iff j k).0 same in
          let zero : part_of owner j (some b) ≡ 0 =
            rw e (ground (arith, bytes_iff k.0 owner, ne)) in
          rw same (omega arith)
      | inr other ↦ rw other (omega arith)
    ]

-- An allowance of another owner may change.
pub lent_by-other :
    (owner : Addr) (k : Addr × Addr) (a : AllowanceResponse)
    (m : Map (Addr × Addr) AllowanceResponse)
    → k.0 ≢ owner
    → lent_by owner (save k a m) ≡ lent_by owner m
lent_by-other owner k a m ne =
    let sum = lent_by-save owner k a m in ground (arith, bytes_iff k.0 owner, sum)

-- A deduction lowers what its owner has lent by the amount, and what no other has.
pub Deduction-lent_by :
    (owner spender j : Addr) (block : BlockInfo) (amount : ℕ) (s s' : Store)
    → Deduction owner spender block amount s s'
    → lent_by j s'.allowances + (if owner =? j then amount else 0) ≡ lent_by j s.allowances
Deduction-lent_by owner spender j block amount s s' d =
    let key : Addr × Addr = (owner, spender) in
    let left : AllowanceResponse = record d.before { allowance = d.before.allowance - amount } in
    let sum = lent_by-save j key left s.allowances in
    let e = ap (λ (x : Store). lent_by j x.allowances) d.result in
    let found = ap (part_of j key) d.found in ground (arith, e, sum, found, d.enough)
