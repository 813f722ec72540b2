-- ===== src/Utils/Pagination.antt =====
-- packages/utils/src/pagination.rs: the bounds of a range of keys. `maybe_canonical` and
-- `maybe_addr` only call the chain.
use demurrage_token.Base.{◌≡◌, refl, arith, Bool, true, Option, none, some, Bytes, [], ◌∷◌, ◌++◌}
use demurrage_token.Outcome.{Outcome, ok, ◌>>=◌}
use demurrage_token.Std.{StdError, Addr}
use demurrage_token.Ordered.{bytes_leb, bytes_ltb}

-- `maybe_addr`
pub maybe_addr : (Bytes → Outcome StdError Addr) → Option Bytes → Outcome StdError (Option Addr)
maybe_addr addr_validate none = ok none
maybe_addr addr_validate (some human) = do a ← addr_validate human; ok (some a)

-- `calc_range_start`, and `calc_range_start_string` with the same body
pub calc_range_start : Option Bytes → Option Bytes
calc_range_start none = none
calc_range_start (some addr) = some (addr ++ (0 ∷ []))

pub calc_range_end : Option Bytes → Option Bytes
calc_range_end none = none
calc_range_end (some addr) = some addr

-- An inclusive lower bound, and an exclusive upper one, that may be missing.
abbrev pub from_bound : Option Bytes → Bytes → Bool
from_bound none key = true
from_bound (some start) key = bytes_leb start key

abbrev pub behind : Option Bytes → Bytes → Bool
behind none key = true
behind (some start) key = bytes_ltb start key

bytes_leb-append_zero : (addr key : Bytes) → bytes_leb (addr ++ (0 ∷ [])) key ≡ bytes_ltb addr key
unfolding bytes_leb bytes_ltb
bytes_leb-append_zero [] [] = refl
bytes_leb-append_zero [] (y ∷ ys) = ground arith
bytes_leb-append_zero (x ∷ xs) [] = refl
bytes_leb-append_zero (x ∷ xs) (y ∷ ys) = let ih = bytes_leb-append_zero xs ys in ground (arith, ih)

-- A key is at or behind the computed start exactly if it is behind the address, in the order of
-- the bytes.
pub calc_range_start_lem :
    (start_after : Option Bytes) (key : Bytes)
    → from_bound (calc_range_start start_after) key ≡ behind start_after key
unfolding calc_range_start
calc_range_start_lem none key = refl
calc_range_start_lem (some addr) key = bytes_leb-append_zero addr key
