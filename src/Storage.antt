-- ===== src/Storage.antt =====
-- packages/storage-plus/src/map.rs and path.rs: a `Map` of typed values under typed keys. The
-- stored bytes are not modelled: a value that was saved is loaded as it was. Keys are compared
-- by an `Eq` instance.
pub mod Laws
pub mod Sum
pub mod Written
use demurrage_token.Base.{Option, none, some, List, [], ◌∷◌, Eq, ◌=?◌, if◌then◌else◌}
use demurrage_token.Outcome.{Outcome, ok, err, panic}

abbrev pub Map {ℓ κ} : Type ℓ → Type κ → Type (ℓ ⊔ κ)
Map K V = List (K × V)

module _ {ℓ κ} {K : Type ℓ} {V : Type κ} ⦃e : Eq K⦄ where
  unfoldable pub may_load : K → Map K V → Option V
  may_load k [] = none
  may_load k ((j, v) ∷ m) = if j =? k then some v else may_load k m

  unfoldable pub save : K → V → Map K V → Map K V
  save k v [] = (k, v) ∷ []
  save k v ((j, w) ∷ m) = if j =? k then (k, v) ∷ m else (j, w) ∷ save k v m

  unfoldable pub remove : K → Map K V → Map K V
  remove k [] = []
  remove k ((j, w) ∷ m) = let rest = remove k m in if j =? k then rest else (j, w) ∷ rest

  -- What `update` leaves: the new value is saved only if `action` returns one.
  abbrev pub settle {ι} : {E : Type ι} → K → Map K V → Outcome E V → Outcome E V × Map K V
  settle k m (ok v) = (ok v, save k v m)
  settle k m (err e) = (err e, m)
  settle k m panic = (panic, m)

  abbrev pub update {ι} :
      {E : Type ι} → K → (Option V → Outcome E V) → Map K V → Outcome E V × Map K V
  update k action m = settle k m (action (may_load k m))
