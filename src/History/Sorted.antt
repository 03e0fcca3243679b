-- ===== src/History/Sorted.antt =====
-- Sums over the summaries, and the order that sorting gives them.
use open_fire_watch.Base.{
  ℕ, ◌+◌, ◌<◌, ◌≡◌, ◌≢◌, refl, List, [], ◌∷◌, All, All-imp, leb, arith, inl, inr, Bool-cases,
  leb→le,
}
use open_fire_watch.History.{insert_by, sort_by, total}

module _ {A : Type 0} (key : A → ℕ) where
  abbrev pub Distinct : List A → Type 0
  Distinct [] = Unit
  Distinct (x ∷ xs) = All (λ y. key x ≢ key y) xs × Distinct xs

  abbrev pub Ascends : List A → Type 0
  Ascends [] = Unit
  Ascends (x ∷ xs) = All (λ y. key x < key y) xs × Ascends xs

  insert_by-All :
      (P : A → Type 0) (x : A) (ys : List A) → P x → All P ys → All P (insert_by key x ys)
  unfolding insert_by
  insert_by-All P x [] p h = (p, tt)
  insert_by-All P x (y ∷ ys) p h = elim (Bool-cases (leb (key x) (key y))) [
    | inl e ↦ rw e (p, h)
    | inr e ↦ rw e (h.0, insert_by-All P x ys p h.1)
  ]

  pub sort_by-All : (P : A → Type 0) (xs : List A) → All P xs → All P (sort_by key xs)
  unfolding sort_by
  sort_by-All P [] h = tt
  sort_by-All P (x ∷ xs) h = insert_by-All P x (sort_by key xs) h.0 (sort_by-All P xs h.1)

  insert_by-Ascends :
      (x : A) (ys : List A)
      → All (λ y. key x ≢ key y) ys
      → Ascends ys
      → Ascends (insert_by key x ys)
  unfolding insert_by
  insert_by-Ascends x [] d h = (tt, tt)
  insert_by-Ascends x (y ∷ ys) d h = elim (Bool-cases (leb (key x) (key y))) [
    | inl e ↦
        let below : key x < key y = grind (arith, d.0, leb→le (key x) (key y) e) in
        rw e ((below, All-imp ys (λ z k. omega (arith, below, k)) h.0), h)
    | inr e ↦
        rw e (
          insert_by-All (λ z. key y < key z) x ys (ground arith) h.0,
          insert_by-Ascends x ys d.1 h.1,
        )
  ]

  pub sort_by-Ascends : (xs : List A) → Distinct xs → Ascends (sort_by key xs)
  unfolding sort_by
  sort_by-Ascends [] d = tt
  sort_by-Ascends (x ∷ xs) d =
      insert_by-Ascends x (sort_by key xs) (sort_by-All _ xs d.0) (sort_by-Ascends xs d.1)

  total-insert_by :
      (f : A → ℕ) (x : A) (ys : List A) → total f (insert_by key x ys) ≡ f x + total f ys
  unfolding insert_by
  total-insert_by f x [] = refl
  total-insert_by f x (y ∷ ys) = elim (Bool-cases (leb (key x) (key y))) [
    | inl e ↦ rw e
    | inr e ↦ rw e (omega (arith, total-insert_by f x ys))
  ]

  pub total-sort_by : (f : A → ℕ) (xs : List A) → total f (sort_by key xs) ≡ total f xs
  unfolding sort_by
  total-sort_by f [] = refl
  total-sort_by f (x ∷ xs) = omega (arith, total-insert_by f x (sort_by key xs), total-sort_by f xs)
