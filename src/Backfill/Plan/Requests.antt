-- ===== src/Backfill/Plan/Requests.antt =====
-- The whole plan: what is asked for, how often, and in which order.
use open_fire_watch.Base.{
  ℕ, ◌+◌, ◌≤◌, ◌≡◌, refl, ap, subst, ◌∙◌, String, Bool, ◌&&◌, List, [], ◌∷◌, ◌++◌, leb, ltb, All,
  All-append, All-imp, arith, Bool-cases, inl, inr, some, keep,
}
use open_fire_watch.Backfill.Plan.{
  BackfillRequest, SourceAvailability, product_requests, products_requests, families_requests,
  is_product_of, may_precede, insert_request, sort_requests, plan_backfill,
}
use open_fire_watch.Backfill.Plan.Windows.{
  asks_for, one_if, tally, IsWindow, product_requests-tally, product_requests-IsWindow,
}

tally-append {ℓ} :
    {A : Type ℓ} (test : A → Bool) (xs ys : List A)
    → tally test (xs ++ ys) ≡ tally test xs + tally test ys
tally-append test [] ys = omega arith
tally-append test (x ∷ xs) ys = omega (arith, tally-append test xs ys)

-- Whether a product is to be asked for a day of a range.
abbrev pub holds : ℕ → ℕ → ℕ → SourceAvailability → Bool
holds from to d p = leb from d && leb d to && (leb p.min_date d && leb d p.max_date)

-- How many pairs of a selected family and a product of it hold a day.
abbrev pub demand : ℕ → ℕ → ℕ → List String → List SourceAvailability → ℕ
demand from to d [] availability = 0
demand from to d (family ∷ rest) availability =
    tally (holds from to d) (keep (is_product_of family) availability)
    + demand from to d rest availability

products_requests-tally :
    (from to d : ℕ) (ps : List SourceAvailability)
    → tally (asks_for d) (products_requests from to ps) ≡ tally (holds from to d) ps
unfolding products_requests
products_requests-tally from to d [] = refl
products_requests-tally from to d (p ∷ ps) =
    tally-append (asks_for d) (product_requests from to p) (products_requests from to ps)
    ∙ omega (arith, product_requests-tally from to d p, products_requests-tally from to d ps)

families_requests-tally :
    (from to d : ℕ) (families : List String) (availability : List SourceAvailability)
    → tally (asks_for d) (families_requests from to families availability)
      ≡ demand from to d families availability
unfolding families_requests
families_requests-tally from to d [] availability = refl
families_requests-tally from to d (family ∷ rest) availability =
    tally-append (asks_for d) _ (families_requests from to rest availability)
    ∙ omega (
      arith,
      products_requests-tally from to d (keep (is_product_of family) availability),
      families_requests-tally from to d rest availability,
    )

-- The requests are in chronological order.
abbrev pub IsChronological : List BackfillRequest → Type 0
IsChronological [] = Unit
IsChronological (r ∷ rs) =
    All (λ (q : BackfillRequest). r.start_date ≤ q.start_date) rs × IsChronological rs

products_requests-IsWindow :
    (from to : ℕ) (ps : List SourceAvailability)
    → All (IsWindow from to) (products_requests from to ps)
unfolding products_requests
products_requests-IsWindow from to [] = tt
products_requests-IsWindow from to (p ∷ ps) =
    All-append (IsWindow from to) (product_requests from to p) _
      (All-imp _ (λ r h. h.0) (product_requests-IsWindow from to p))
      (products_requests-IsWindow from to ps)

families_requests-IsWindow :
    (from to : ℕ) (families : List String) (availability : List SourceAvailability)
    → All (IsWindow from to) (families_requests from to families availability)
unfolding families_requests
families_requests-IsWindow from to [] availability = tt
families_requests-IsWindow from to (family ∷ rest) availability =
    All-append (IsWindow from to)
      (products_requests from to (keep (is_product_of family) availability)) _
      (products_requests-IsWindow from to (keep (is_product_of family) availability))
      (families_requests-IsWindow from to rest availability)

some-eq : (a b : List BackfillRequest) → some a ≡ some b → a ≡ b
some-eq a b h = cc

module _ (source_le : String → String → Bool) where
  insert_request-tally :
      (test : BackfillRequest → Bool) (r : BackfillRequest) (rs : List BackfillRequest)
      → tally test (insert_request source_le r rs) ≡ one_if (test r) + tally test rs
  unfolding insert_request
  insert_request-tally test r [] = refl
  insert_request-tally test r (q ∷ qs) = elim (Bool-cases (may_precede source_le r q)) [
    | inl before ↦ rw before
    | inr after ↦ rw after (omega (arith, insert_request-tally test r qs))
  ]

  sort_requests-tally :
      (test : BackfillRequest → Bool) (rs : List BackfillRequest)
      → tally test (sort_requests source_le rs) ≡ tally test rs
  unfolding sort_requests
  sort_requests-tally test [] = refl
  sort_requests-tally test (r ∷ rs) =
      insert_request-tally test r (sort_requests source_le rs)
      ∙ ap (λ (n : ℕ). one_if (test r) + n) (sort_requests-tally test rs)

  insert_request-All :
      (P : BackfillRequest → Type 0) (r : BackfillRequest) (rs : List BackfillRequest)
      → P r
      → All P rs
      → All P (insert_request source_le r rs)
  unfolding insert_request
  insert_request-All P r [] h k = (h, tt)
  insert_request-All P r (q ∷ qs) h k = elim (Bool-cases (may_precede source_le r q)) [
    | inl before ↦ rw before (h, k)
    | inr after ↦ rw after (k.0, insert_request-All P r qs h k.1)
  ]

  sort_requests-All :
      (P : BackfillRequest → Type 0) (rs : List BackfillRequest)
      → All P rs
      → All P (sort_requests source_le rs)
  unfolding sort_requests
  sort_requests-All P [] h = tt
  sort_requests-All P (r ∷ rs) h = insert_request-All P r _ h.0 (sort_requests-All P rs h.1)

  insert_request-IsChronological :
      (r : BackfillRequest) (rs : List BackfillRequest)
      → IsChronological rs
      → IsChronological (insert_request source_le r rs)
  unfolding insert_request
  insert_request-IsChronological r [] h = (tt, tt)
  insert_request-IsChronological r (q ∷ qs) h = elim (Bool-cases (may_precede source_le r q)) [
    | inl before ↦
        let le : r.start_date ≤ q.start_date = ground arith in
        rw before ((le, All-imp qs (λ s k. omega arith) h.0), h)
    | inr after ↦ rw after (
      insert_request-All (λ (s : BackfillRequest). q.start_date ≤ s.start_date) r qs (ground arith)
          h.0,
      insert_request-IsChronological r qs h.1,
    )
  ]

  sort_requests-IsChronological :
      (rs : List BackfillRequest) → IsChronological (sort_requests source_le rs)
  unfolding sort_requests
  sort_requests-IsChronological [] = tt
  sort_requests-IsChronological (r ∷ rs) =
      insert_request-IsChronological r _ (sort_requests-IsChronological rs)

  -- A plan exists for a range that is not inverted. It is in chronological order, and it asks for a
  -- day exactly as often as there are pairs of a selected family and a product of it that hold the
  -- day: the day lies in the range and in the span of the product.
  pub plan_backfill-demand :
      (from to : ℕ) (families : List String) (availability : List SourceAvailability)
      → from ≤ to
      → (plan : List BackfillRequest) × (plan_backfill source_le from to families availability
          ≡ some plan)
        × IsChronological plan
        × ((d : ℕ) → tally (asks_for d) plan ≡ demand from to d families availability)
  unfolding plan_backfill
  plan_backfill-demand from to families availability h = (
    sort_requests source_le (families_requests from to families availability),
    ground arith,
    sort_requests-IsChronological (families_requests from to families availability),
    λ d.
        sort_requests-tally (asks_for d) (families_requests from to families availability)
        ∙ families_requests-tally from to d families availability,
  )

  -- Every request of a plan spans one to five days, as FIRMS demands, inside the range.
  pub plan_backfill-IsWindow :
      (from to : ℕ) (families : List String) (availability : List SourceAvailability)
      (plan : List BackfillRequest)
      → plan_backfill source_le from to families availability ≡ some plan
      → All (IsWindow from to) plan
  unfolding plan_backfill
  plan_backfill-IsWindow from to families availability plan e = elim (Bool-cases (ltb to from)) [
    | inl inverted ↦ cc (rw inverted at e)
    | inr fine ↦ subst (All (IsWindow from to)) (some-eq _ _ (rw fine at e)) (
        sort_requests-All (IsWindow from to) _
          (families_requests-IsWindow from to families availability))
  ]
