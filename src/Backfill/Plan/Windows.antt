-- ===== src/Backfill/Plan/Windows.antt =====
-- The windows of one product partition the days that it is asked for.
use open_fire_watch.Base.{
  ℕ, zero, suc, ◌+◌, ◌-◌, ◌≤◌, ◌<◌, ◌≡◌, ◌∙◌, String, Bool, true, false, ◌&&◌, List, [], ◌∷◌, min,
  leb, ltb, if◌then◌else◌, All, All-imp, arith, Bool-cases, inl, inr,
}
use open_fire_watch.Backfill.Plan.{
  BackfillRequest, SourceAvailability, windows, product_requests, firms_max_day_range,
}

-- Whether a request asks for a day.
abbrev pub asks_for : ℕ → BackfillRequest → Bool
asks_for d r = leb r.start_date d && ltb d (r.start_date + r.day_range)

abbrev pub one_if : Bool → ℕ
one_if true = 1
one_if false = 0

-- How many elements pass a test.
abbrev pub tally {ℓ} : {A : Type ℓ} → (A → Bool) → List A → ℕ
tally test [] = 0
tally test (x ∷ xs) = one_if (test x) + tally test xs

windows-tally :
    (source : String) (end fuel cursor d : ℕ)
    → end < cursor + fuel
    → tally (asks_for d) (windows source end fuel cursor) ≡ one_if (leb cursor d && leb d end)
unfolding windows
windows-tally source end zero cursor d h = ground arith
windows-tally source end (suc fuel) cursor d h =
    ground
      (arith, windows-tally source end fuel (cursor + min firms_max_day_range (end - cursor + 1)) d)

-- What FIRMS accepts: from one to five days, and none past the end.
abbrev pub IsWindow : ℕ → ℕ → BackfillRequest → Type 0
IsWindow start end r =
    (1 ≤ r.day_range)
    × (r.day_range ≤ firms_max_day_range)
    × (start ≤ r.start_date)
    × (r.start_date + r.day_range ≤ end + 1)

windows-IsWindow :
    (source : String) (start end fuel cursor : ℕ)
    → start ≤ cursor
    → All (IsWindow start end) (windows source end fuel cursor)
unfolding windows
windows-IsWindow source start end zero cursor h = tt
windows-IsWindow source start end (suc fuel) cursor h = ground (
  arith,
  windows-IsWindow source start end fuel (cursor + min firms_max_day_range (end - cursor + 1)),
)

clipped-tally :
    (source : String) (start end d : ℕ)
    → tally (asks_for d) (if ltb end start then [] else windows source end (end - start + 1) start)
      ≡ one_if (leb start d && leb d end)
clipped-tally source start end d = elim (Bool-cases (ltb end start)) [
  | inl empty ↦ rw empty (ground arith)
  | inr some_day ↦ rw some_day (windows-tally source end (end - start + 1) start d (ground arith))
]

clipped-IsWindow :
    (source : String) (start end : ℕ)
    → All
        (IsWindow start end)
        (if ltb end start then [] else windows source end (end - start + 1) start)
clipped-IsWindow source start end = elim (Bool-cases (ltb end start)) [
  | inl empty ↦ rw empty tt
  | inr some_day ↦
      rw some_day (windows-IsWindow source start end (end - start + 1) start (omega arith))
]

-- The requests for a product ask exactly once for each day that lies both in the range and in the
-- product's span, and for no other day.
pub product_requests-tally :
    (from to d : ℕ) (product : SourceAvailability)
    → tally (asks_for d) (product_requests from to product)
      ≡ one_if (leb from d && leb d to && (leb product.min_date d && leb d product.max_date))
unfolding product_requests
product_requests-tally from to d product =
    clipped-tally product.source (if ltb product.min_date from then from else product.min_date)
      (if ltb to product.max_date then to else product.max_date) d
    ∙ ground arith

-- Each request for a product is one that FIRMS accepts, inside the range and the product's span.
pub product_requests-IsWindow :
    (from to : ℕ) (product : SourceAvailability)
    → All
        (λ r. IsWindow from to r × IsWindow product.min_date product.max_date r)
        (product_requests from to product)
unfolding product_requests
product_requests-IsWindow from to product =
    All-imp _ (λ r h. ground arith)
      (clipped-IsWindow product.source
        (if ltb product.min_date from then from else product.min_date)
        (if ltb to product.max_date then to else product.max_date))
