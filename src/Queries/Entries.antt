-- ===== src/Queries/Entries.antt =====
-- The pages of entries of src/enumerable.rs: their keys, and what holds of all their entries.
use demurrage_token.Base.{
  ℕ, zero, suc, ◌≡◌, refl, ap, ◌∙◌, Option, Bytes, List, [], ◌∷◌, map, take, All, Bool-cases, inl,
  inr,
}
use demurrage_token.Ordered.{sort_by, insert_by, bytes_leb}
use demurrage_token.Queries.{page, keep_after, after_start}

-- A page of entries has the keys of the same page of keys.
module _ {ℓ} {A : Type ℓ} (key : A → Bytes) where
  map-insert_by :
      (a : A) (r : List A) → map key (insert_by key a r) ≡ insert_by (λ k. k) (key a) (map key r)
  unfolding insert_by
  map-insert_by a [] = refl
  map-insert_by a (b ∷ r) = elim (Bool-cases (bytes_leb (key a) (key b))) [
    | inl le ↦ rw le refl
    | inr gt ↦ rw gt (ap (λ (t : List Bytes). key b ∷ t) (map-insert_by a r))
  ]

  map-sort_by : (r : List A) → map key (sort_by key r) ≡ sort_by (λ k. k) (map key r)
  unfolding sort_by
  map-sort_by [] = refl
  map-sort_by (a ∷ r) =
      map-insert_by a (sort_by key r) ∙ ap (insert_by (λ k. k) (key a)) (map-sort_by r)

  map-keep_after :
      (start : Option Bytes) (r : List A)
      → map key (keep_after key start r) ≡ keep_after (λ k. k) start (map key r)
  unfolding keep_after
  map-keep_after start [] = refl
  map-keep_after start (a ∷ r) = elim (Bool-cases (after_start start (key a))) [
    | inl in_range ↦ rw in_range (ap (λ (t : List Bytes). key a ∷ t) (map-keep_after start r))
    | inr before ↦ rw before (map-keep_after start r)
  ]

  map-take : (n : ℕ) (r : List A) → map key (take n r) ≡ take n (map key r)
  map-take zero r = refl
  map-take (suc n) [] = refl
  map-take (suc n) (a ∷ r) = ap (λ (t : List Bytes). key a ∷ t) (map-take n r)

  pub map-page :
      (start : Option Bytes) (limit : ℕ) (r : List A)
      → map key (page key start limit r)
        ≡ take limit (keep_after (λ k. k) start (sort_by (λ k. k) (map key r)))
  unfolding page
  map-page start limit r =
      map-take limit (keep_after key start (sort_by key r))
      ∙ ap (take limit)
          (map-keep_after start (sort_by key r) ∙ ap (keep_after (λ k. k) start) (map-sort_by r))

  module _ (P : A → Type 0) where
    All-insert_by : (a : A) (r : List A) → P a → All P r → All P (insert_by key a r)
    unfolding insert_by
    All-insert_by a [] p h = (p, tt)
    All-insert_by a (b ∷ r) p h = elim (Bool-cases (bytes_leb (key a) (key b))) [
      | inl le ↦ rw le (p, h)
      | inr gt ↦ rw gt (h.0, All-insert_by a r p h.1)
    ]

    All-sort_by : (r : List A) → All P r → All P (sort_by key r)
    unfolding sort_by
    All-sort_by [] h = tt
    All-sort_by (a ∷ r) h = All-insert_by a (sort_by key r) h.0 (All-sort_by r h.1)

    All-keep_after : (start : Option Bytes) (r : List A) → All P r → All P (keep_after key start r)
    unfolding keep_after
    All-keep_after start [] h = tt
    All-keep_after start (a ∷ r) h = elim (Bool-cases (after_start start (key a))) [
      | inl in_range ↦ rw in_range (h.0, All-keep_after start r h.1)
      | inr before ↦ rw before (All-keep_after start r h.1)
    ]

    All-take : (n : ℕ) (r : List A) → All P r → All P (take n r)
    All-take zero r h = tt
    All-take (suc n) [] h = tt
    All-take (suc n) (a ∷ r) h = (h.0, All-take n r h.1)

    pub All-page :
        (start : Option Bytes) (limit : ℕ) (r : List A) → All P r → All P (page key start limit r)
    unfolding page
    All-page start limit r h =
        All-take limit (keep_after key start (sort_by key r))
          (All-keep_after start (sort_by key r) (All-sort_by r h))
