-- ===== src/Queries/Spenders.antt =====
-- The pages of one owner's allowances of src/enumerable.rs, asked for one after another.
use demurrage_token.Base.{
  arith, bytes_eq, bytes_iff, pair_eq, pair_iff, ℕ, ◌≤◌, ◌<◌, ◌≡◌, ◌≢◌, refl, ap, ◌∙◌, none, some,
  Option, Bytes, List, [], ◌∷◌, length, map, take, All, true, Bool-cases, inl, inr, ◌=?◌,
}
use demurrage_token.Outcome.{ok, value_or}
use demurrage_token.Std.{Addr}
use demurrage_token.Cw20.{AllowanceResponse, AllowanceInfo}
use demurrage_token.Chain.{Chain}
use demurrage_token.State.{Store}
use demurrage_token.Storage.{Map, may_load}
use demurrage_token.Storage.Written.{keys}
use demurrage_token.Ordered.{sort_by}
use demurrage_token.Ordered.Laws.{Distinct}
use demurrage_token.Allowances.Deduct.{allowance_at}
use demurrage_token.Queries.{page, page_limit, keep_after, allowances_of, query_all_allowances}
use demurrage_token.Storage.Laws.{=?_ne}
use demurrage_token.Queries.Entries.{map-page, All-page}
use demurrage_token.Queries.Walk.{walk, walk-sort_by}

-- A page of an owner's allowances, and its spenders.
abbrev pub infos_of : Chain → Bytes → Option ℕ → Store → Option Bytes → List AllowanceInfo
infos_of chain owner limit s start =
    (value_or (record { allowances = [] })
      (query_all_allowances chain owner start limit s)).allowances

abbrev pub spender_of : AllowanceInfo → Bytes
spender_of info = info.spender

abbrev pub spenders_of : Chain → Bytes → Option ℕ → Store → Option Bytes → List Bytes
spenders_of chain owner limit s start = map spender_of (infos_of chain owner limit s start)

-- The spenders that an owner has given an allowance.
abbrev pub spenders_in : Addr → Store → List Bytes
spenders_in owner s = map spender_of (allowances_of owner s.allowances)

-- An entry of a page is the allowance that is stored.
abbrev pub IsStored : Addr → Store → AllowanceInfo → Type 0
IsStored owner s info =
    allowance_at (owner, info.spender) s
    ≡ some (record { allowance = info.allowance; expires = info.expires })

All-and {ℓ} :
    {A : Type ℓ} {P Q R : A → Type 0} (xs : List A)
    → ((x : A) → P x → Q x → R x)
    → All P xs
    → All Q xs
    → All R xs
All-and [] f p q = tt
All-and (x ∷ xs) f p q = (f x p.0 q.0, All-and xs f p.1 q.1)

All-map {ℓ} :
    {A : Type ℓ} (f : A → Bytes) (P : Bytes → Type 0) (xs : List A)
    → All (λ x. P (f x)) xs
    → All P (map f xs)
All-map f P [] h = tt
All-map f P (x ∷ xs) h = (h.0, All-map f P xs h.1)

module _ (owner : Addr) where
  -- What holds of all keys holds of those of the owner's entries.
  allowances_of-keys :
      (P : Addr × Addr → Type 0) (m : Map (Addr × Addr) AllowanceResponse)
      → All P (keys m)
      → All (λ (info : AllowanceInfo). P (owner, info.spender)) (allowances_of owner m)
  unfolding allowances_of
  allowances_of-keys P [] h = tt
  allowances_of-keys P ((k, a) ∷ m) h = elim (Bool-cases (k.0 =? owner)) [
    | inl own ↦
        let e : k ≡ (owner, k.1) = ap (λ (o : Addr). (o, k.1)) ((bytes_iff k.0 owner).0 own) in
        rw own (rw (← e) h.0, allowances_of-keys P m h.1)
    | inr other ↦ rw other (allowances_of-keys P m h.1)
  ]

  allowances_of-Distinct :
      (m : Map (Addr × Addr) AllowanceResponse)
      → Distinct (keys m)
      → Distinct (map spender_of (allowances_of owner m))
  unfolding allowances_of
  allowances_of-Distinct [] d = tt
  allowances_of-Distinct ((k, a) ∷ m) d = elim (Bool-cases (k.0 =? owner)) [
    | inl own ↦
        let e : k ≡ (owner, k.1) = ap (λ (o : Addr). (o, k.1)) ((bytes_iff k.0 owner).0 own) in
        let fresh = allowances_of-keys (λ j. k ≢ j) m d.0 in
        let ne =
          All-and {R = λ (info : AllowanceInfo). k.1 ≢ info.spender} (allowances_of owner m)
            (λ info p _ same. p (e ∙ ap (λ (t : Addr). (owner, t)) same)) fresh fresh in
        rw own (
          All-map spender_of (λ y. k.1 ≢ y) (allowances_of owner m) ne,
          allowances_of-Distinct m d.1,
        )
    | inr other ↦ rw other (allowances_of-Distinct m d.1)
  ]

  -- Where no key stands twice, an entry is what is loaded under its key.
  allowances_of-stored :
      (m : Map (Addr × Addr) AllowanceResponse)
      → Distinct (keys m)
      → All
          (λ (info : AllowanceInfo).
            may_load (owner, info.spender) m
            ≡ some (record { allowance = info.allowance; expires = info.expires }))
          (allowances_of owner m)
  unfolding allowances_of may_load
  allowances_of-stored [] d = tt
  allowances_of-stored ((k, a) ∷ m) d =
      let fresh = allowances_of-keys (λ j. k ≢ j) m d.0 in
      let rest =
        All-and
          {R = λ (info : AllowanceInfo).
            may_load (owner, info.spender) ((k, a) ∷ m)
            ≡ some (record { allowance = info.allowance; expires = info.expires })}
          (allowances_of owner m) (λ info ne found. rw (=?_ne k (owner, info.spender) ne) found)
          fresh (allowances_of-stored m d.1) in
      elim (Bool-cases (k.0 =? owner)) [
        | inl own ↦
            let e : k ≡ (owner, k.1) = ap (λ (o : Addr). (o, k.1)) ((bytes_iff k.0 owner).0 own) in
            let same : (k =? (owner, k.1)) ≡ true = (pair_iff k (owner, k.1)).1 e in
            rw own (rw same refl, rest)
        | inr other ↦ rw other rest
      ]

module _ (chain : Chain) (owner : Bytes) (from : Addr) (s : Store)
    (valid : chain.addr_validate owner ≡ ok from) (distinct : Distinct (keys s.allowances)) where
  infos_of_lem :
      (limit : Option ℕ) (start : Option Bytes)
      → infos_of chain owner limit s start
        ≡ page spender_of start (page_limit limit) (allowances_of from s.allowances)
  unfolding query_all_allowances
  infos_of_lem limit start = ground arith

  spenders_of_lem :
      (limit : Option ℕ) (start : Option Bytes)
      → spenders_of chain owner limit s start
        ≡ take
            (page_limit limit)
            (keep_after (λ a. a) start (sort_by (λ a. a) (spenders_in from s)))
  spenders_of_lem limit start =
      ap (map spender_of) (infos_of_lem limit start)
      ∙ map-page spender_of start (page_limit limit) (allowances_of from s.allowances)

  -- Where no key stands twice in the allowances, the pages after one another give every spender of
  -- the owner once and in order, and every entry of a page is what is stored.
  pub walk-spenders_in :
      (fuel : ℕ) (limit : Option ℕ)
      → 0 < page_limit limit
      → length (spenders_in from s) ≤ fuel
      → (walk fuel (spenders_of chain owner limit s) none ≡ sort_by (λ a. a) (spenders_in from s))
        × Distinct (spenders_in from s)
        × ((start : Option Bytes) → All (IsStored from s) (infos_of chain owner limit s start))
  walk-spenders_in fuel limit pos enough =
      let d = allowances_of-Distinct from s.allowances distinct in
      (
        walk-sort_by (page_limit limit) (spenders_in from s) (spenders_of chain owner limit s) fuel
            pos (spenders_of_lem limit) d enough,
        d,
        λ start. rw (infos_of_lem limit start) (
            All-page spender_of (IsStored from s) start (page_limit limit)
              (allowances_of from s.allowances) (allowances_of-stored from s.allowances distinct)),
      )
