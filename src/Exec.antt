-- ===== src/Exec.antt =====
-- Calls that read and write the contract's storage. What was written before an error stays
-- written as far as the call itself goes: the storage comes back beside the outcome.
use demurrage_token.Base.{Option, none, some, Bool, true, false}
use demurrage_token.Outcome.{Outcome, ok, err, panic}

abbrev pub Exec : Type 0 → Type 0 → Type 0 → Type 0
Exec S E A = S → Outcome E A × S

module _ {S E A : Type 0} where
  abbrev pub pure : A → Exec S E A
  pure a s = (ok a, s)

  abbrev pub lift : Outcome E A → Exec S E A
  lift r s = (r, s)

  -- `o.ok_or(e)?`
  abbrev pub ok_or : E → Option A → Exec S E A
  ok_or e none s = (err e, s)
  ok_or e (some a) s = (ok a, s)

  -- A call whose `Result` the caller drops: an error is forgotten and what was written stays
  -- written; a panic still ends the caller.
  abbrev pub dropped : Outcome E A × S → Outcome E (Unit {0}) × S
  dropped (ok a, s) = (ok tt, s)
  dropped (err e, s) = (ok tt, s)
  dropped (panic, s) = (panic, s)

  abbrev pub discard : Exec S E A → Exec S E (Unit {0})
  discard m s = dropped (m s)

module _ {S E : Type 0} where
  abbrev pub modify : (S → S) → Exec S E (Unit {0})
  modify f s = (ok tt, f s)

  -- `if b { return Err(e) }`
  abbrev pub raise_if : Bool → E → Exec S E (Unit {0})
  raise_if true e s = (err e, s)
  raise_if false e s = (ok tt, s)

module _ {S E A B : Type 0} where
  abbrev pub continue : Outcome E A × S → (A → Exec S E B) → Outcome E B × S
  continue (ok a, s) f = f a s
  continue (err e, s) f = (err e, s)
  continue (panic, s) f = (panic, s)

  infixl 5 ◌>>=◌ ◌>>◌
  abbrev pub ◌>>=◌ : Exec S E A → (A → Exec S E B) → Exec S E B
  ◌>>=◌ m f s = continue (m s) f

  abbrev pub ◌>>◌ : Exec S E A → Exec S E B → Exec S E B
  ◌>>◌ m k s = continue (m s) (λ _. k)
