-- ===== src/Base/Keys.antt =====
-- Texts as lists of bytes, and equality tests as an interface. Rust's `String` is a sequence of
-- bytes; its `==` and its order compare the bytes.
use Prim.Native.Nat.{ℕ}
use Prim.Native.Char.{code}
use Prim.Native.String.{String}
use mathlib.Core.Path.{◌≡◌, refl}
use mathlib.Core.Logic.{◌↔◌}
use mathlib.Core.Bool.{Bool, true, false, ◌&&◌}
use mathlib.Core.List.{List, [], ◌∷◌}
use native.Mathlib.Omega.{arith}
use demurrage_token.Base.Tests.{◌==◌ as nat_beq}

abbrev pub Bytes : Type 0
Bytes = List ℕ

-- The bytes of an ASCII literal.
abbrev pub bytes : String → Bytes
bytes String.[] = []
bytes (String.◌∷◌ c s) = code c ∷ bytes s

pub record Eq {ℓ} (A : Type ℓ) : Type ℓ where
  pub beq : (left right : A) → Bool
  pub beq_iff : (left right : A) → (beq left right ≡ true) ↔ (left ≡ right)

infix 50 ◌=?◌
abbrev pub ◌=?◌ {ℓ} : {A : Type ℓ} ⦃e : Eq A⦄ → A → A → Bool
◌=?◌ ⦃e⦄ = e.beq

unfoldable pub bytes_beq : Bytes → Bytes → Bool
bytes_beq [] [] = true
bytes_beq [] (y ∷ ys) = false
bytes_beq (x ∷ xs) [] = false
bytes_beq (x ∷ xs) (y ∷ ys) = nat_beq x y && bytes_beq xs ys

pub bytes_iff : (a b : Bytes) → (bytes_beq a b ≡ true) ↔ (a ≡ b)
unfolding bytes_beq
bytes_iff [] [] = ((λ h. refl), (λ h. refl))
bytes_iff [] (y ∷ ys) = ((λ h. cc), (λ h. cc))
bytes_iff (x ∷ xs) [] = ((λ h. cc), (λ h. cc))
bytes_iff (x ∷ xs) (y ∷ ys) =
    ((λ h. ground (arith, bytes_iff xs ys)), (λ h. ground (arith, bytes_iff xs ys)))

pub bytes_beq_refl : (a : Bytes) → bytes_beq a a ≡ true
bytes_beq_refl a = (bytes_iff a a).1 refl

instance abbrev pub bytes_eq : Eq Bytes
bytes_eq = record { beq = bytes_beq; beq_iff = bytes_iff }

unfoldable pub pair_beq : Bytes × Bytes → Bytes × Bytes → Bool
pair_beq a b = bytes_beq a.0 b.0 && bytes_beq a.1 b.1

pub pair_iff : (a b : Bytes × Bytes) → (pair_beq a b ≡ true) ↔ (a ≡ b)
unfolding pair_beq
pair_iff a b = (
  (λ h. ground (arith, bytes_iff a.0 b.0, bytes_iff a.1 b.1)),
  (λ h. ground (arith, bytes_iff a.0 b.0, bytes_iff a.1 b.1)),
)

instance abbrev pub pair_eq : Eq (Bytes × Bytes)
pair_eq = record { beq = pair_beq; beq_iff = pair_iff }
