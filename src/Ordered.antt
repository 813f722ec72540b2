-- ===== src/Ordered.antt =====
-- The order of Rust's strings, which compares their bytes, and a sort by it: `Vec::sort` and
-- `Vec::dedup` in `validate_accounts` of src/contract.rs, and the ascending ranges of a map.
pub mod Laws
pub mod Dedup
use demurrage_token.Base.{
  bytes_eq, ℕ, zero, suc, ◌==◌, ◌=?◌, ltb, if◌then◌else◌, Bool, true, false, not, ◌&&◌, ◌||◌, Bytes,
  List, [], ◌∷◌,
}

unfoldable pub bytes_leb : Bytes → Bytes → Bool
bytes_leb [] ys = true
bytes_leb (x ∷ xs) [] = false
bytes_leb (x ∷ xs) (y ∷ ys) = ltb x y || (x == y && bytes_leb xs ys)

-- `a < b`
unfoldable pub bytes_ltb : Bytes → Bytes → Bool
bytes_ltb a b = not (bytes_leb b a)

-- `dedup` drops a member that equals the one before it.
unfoldable pub dedup : List Bytes → List Bytes
dedup [] = []
dedup (x ∷ []) = x ∷ []
dedup (x ∷ y ∷ r) = let rest = dedup (y ∷ r) in if x =? y then rest else x ∷ rest

module _ {ℓ} {A : Type ℓ} (key : A → Bytes) where
  unfoldable pub insert_by : A → List A → List A
  insert_by a [] = a ∷ []
  insert_by a (b ∷ r) = if bytes_leb (key a) (key b) then a ∷ b ∷ r else b ∷ insert_by a r

  unfoldable pub sort_by : List A → List A
  unfolding insert_by
  sort_by [] = []
  sort_by (a ∷ r) = insert_by a (sort_by r)
