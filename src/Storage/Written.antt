-- ===== src/Storage/Written.antt =====
-- A map after any number of writes, and the keys that it has then.
use demurrage_token.Base.{◌≡◌, ◌≢◌, sym, List, [], ◌∷◌, map, All, Eq, ◌=?◌, Bool-cases, inl, inr}
use demurrage_token.Storage.{Map, save, remove}
use demurrage_token.Ordered.Laws.{Distinct}

abbrev pub keys {ℓ κ} : {K : Type ℓ} {V : Type κ} → Map K V → List K
keys {K = K} {V = V} m = map (λ (e : K × V). e.0) m

module _ {ℓ κ} {K : Type ℓ} {V : Type κ} ⦃e : Eq K⦄ where
  -- `m'` is had from `m` by saves and removals.
  pub data Written (m : Map K V) : Map K V → Type (ℓ ⊔ κ) where
    unchanged : Written m m
    saved : {m' : Map K V} (k : K) (v : V) → Written m m' → Written m (save k v m')
    removed : {m' : Map K V} (k : K) → Written m m' → Written m (remove k m')

  All-keys-save :
      (P : K → Type ℓ) (k : K) (v : V) (m : Map K V)
      → P k
      → All P (keys m)
      → All P (keys (save k v m))
  unfolding save
  All-keys-save P k v [] p h = (p, tt)
  All-keys-save P k v ((j, w) ∷ m) p h = elim (Bool-cases (j =? k)) [
    | inl same ↦ rw same (p, h.1)
    | inr other ↦ rw other (h.0, All-keys-save P k v m p h.1)
  ]

  All-keys-remove :
      (P : K → Type ℓ) (k : K) (m : Map K V) → All P (keys m) → All P (keys (remove k m))
  unfolding remove
  All-keys-remove P k [] h = tt
  All-keys-remove P k ((j, w) ∷ m) h = elim (Bool-cases (j =? k)) [
    | inl same ↦ rw same (All-keys-remove P k m h.1)
    | inr other ↦ rw other (h.0, All-keys-remove P k m h.1)
  ]

  keys-save-Distinct :
      (k : K) (v : V) (m : Map K V) → Distinct (keys m) → Distinct (keys (save k v m))
  unfolding save
  keys-save-Distinct k v [] d = (tt, tt)
  keys-save-Distinct k v ((j, w) ∷ m) d = elim (Bool-cases (j =? k)) [
    | inl same ↦ let p : k ≡ j = sym ((e.beq_iff j k).0 same) in rw same (rw p d)
    | inr other ↦
        let ne : j ≢ k = λ p. cc (other, (e.beq_iff j k).1 p) in
        rw other (All-keys-save (λ y. j ≢ y) k v m ne d.0, keys-save-Distinct k v m d.1)
  ]

  keys-remove-Distinct : (k : K) (m : Map K V) → Distinct (keys m) → Distinct (keys (remove k m))
  unfolding remove
  keys-remove-Distinct k [] d = tt
  keys-remove-Distinct k ((j, w) ∷ m) d = elim (Bool-cases (j =? k)) [
    | inl same ↦ rw same (keys-remove-Distinct k m d.1)
    | inr other ↦ rw other (All-keys-remove (λ y. j ≢ y) k m d.0, keys-remove-Distinct k m d.1)
  ]

  -- No write brings a key in twice.
  pub Written-Distinct : {m m' : Map K V} → Written m m' → Distinct (keys m) → Distinct (keys m')
  Written-Distinct unchanged d = d
  Written-Distinct (saved {m'} k v w) d = keys-save-Distinct k v m' (Written-Distinct w d)
  Written-Distinct (removed {m'} k w) d = keys-remove-Distinct k m' (Written-Distinct w d)

  pub Written-trans : {m m' m'' : Map K V} → Written m m' → Written m' m'' → Written m m''
  Written-trans w unchanged = w
  Written-trans w (saved k v w') = saved k v (Written-trans w w')
  Written-trans w (removed k w') = removed k (Written-trans w w')

  pub Written-of_eq : {m m' : Map K V} → m' ≡ m → Written m m'
  Written-of_eq e = rw e unchanged
