-- ===== src/Backfill/Plan.antt =====
-- workers/src/ingestion/satellite-backfill.plan.ts. A day is its number on one calendar: the order of
-- YYYY-MM-DD texts is the order of the days, `addDays` is addition and `daysBetween` subtraction.
pub mod Windows
pub mod Requests
pub mod Gaps
use Prim.Native.String
use open_fire_watch.Base.{
  ℕ, zero, suc, ◌+◌, ◌-◌, ◌≡◌, String, Bool, true, false, ◌&&◌, ◌||◌, not, Option, none, some, List,
  [], ◌∷◌, ◌++◌, min, leb, ltb, ◌==◌, if◌then◌else◌, str_eq, any, keep,
}

-- FIRMS_MAX_DAY_RANGE
abbrev pub firms_max_day_range : ℕ
firms_max_day_range = 5

pub record SourceAvailability : Type 0 where
  pub source : String
  pub min_date : ℕ
  pub max_date : ℕ

pub record BackfillRequest : Type 0 where
  pub source : String
  pub start_date : ℕ
  pub day_range : ℕ

-- The `while` loop over one product, on fuel: each round moves the cursor by at least a day, so the
-- days left are fuel enough.
unfoldable pub windows : String → ℕ → ℕ → ℕ → List BackfillRequest
windows source end zero cursor = []
windows source end (suc fuel) cursor = elim (leb cursor end) [
  | true ↦
      let remaining = end - cursor + 1 in
      let day_range = min firms_max_day_range remaining in
      record { source = source; start_date = cursor; day_range = day_range }
      ∷ windows source end fuel (cursor + day_range)
  | false ↦ []
]

-- The requests for one product: the range, clipped to what the product holds.
unfoldable pub product_requests : ℕ → ℕ → SourceAvailability → List BackfillRequest
product_requests from to product =
    let start = if ltb product.min_date from then from else product.min_date in
    let end = if ltb to product.max_date then to else product.max_date in
    if ltb end start then [] else windows product.source end (end - start + 1) start

abbrev pub is_product_of : String → SourceAvailability → Bool
is_product_of family a =
    str_eq a.source (String.◌++◌ family "_SP") || str_eq a.source (String.◌++◌ family "_NRT")

products_requests : ℕ → ℕ → List SourceAvailability → List BackfillRequest
products_requests from to [] = []
products_requests from to (p ∷ ps) = product_requests from to p ++ products_requests from to ps

families_requests : ℕ → ℕ → List String → List SourceAvailability → List BackfillRequest
families_requests from to [] availability = []
families_requests from to (family ∷ rest) availability =
    products_requests from to (keep (is_product_of family) availability)
    ++ families_requests from to rest availability

-- The comparison of two requests by `sort`, where the order of source names, `localeCompare`, is a
-- parameter: whether the first may stay before the second.
module _ (source_le : String → String → Bool) where
  abbrev may_precede : BackfillRequest → BackfillRequest → Bool
  may_precede a b =
      ltb a.start_date b.start_date || a.start_date == b.start_date && source_le a.source b.source

  -- A stable sort, written as insertion.
  insert_request : BackfillRequest → List BackfillRequest → List BackfillRequest
  insert_request r [] = r ∷ []
  insert_request r (q ∷ qs) = if may_precede r q then r ∷ q ∷ qs else q ∷ insert_request r qs

  sort_requests : List BackfillRequest → List BackfillRequest
  unfolding insert_request
  sort_requests [] = []
  sort_requests (r ∷ rs) = insert_request r (sort_requests rs)

  -- `none` is the error that the range is inverted.
  unfoldable pub plan_backfill :
      ℕ → ℕ → List String → List SourceAvailability → Option (List BackfillRequest)
  unfolding families_requests products_requests product_requests sort_requests
  plan_backfill from to families availability =
      if ltb to from
      then none
      else some (sort_requests (families_requests from to families availability))

-- The days of a request.
span : ℕ → ℕ → List ℕ
span start zero = []
span start (suc n) = start ∷ span (start + 1) n

-- The set of covered days.
unfoldable pub covered_days : List BackfillRequest → List ℕ
unfolding span
covered_days [] = []
covered_days (r ∷ rs) = span r.start_date r.day_range ++ covered_days rs

pub record Gap : Type 0 where
  pub from : ℕ
  pub to : ℕ

abbrev close : Option ℕ → ℕ → List Gap → List Gap
close none to gaps = gaps
close (some from) to gaps = record { from = from; to = to } ∷ gaps

abbrev reopen : Option ℕ → ℕ → Option ℕ
reopen none d = some d
reopen (some from) d = some from

-- The loop over the days, by the number of days left.
gaps_from : (ℕ → Bool) → ℕ → ℕ → ℕ → Option ℕ → List Gap
gaps_from covered to zero d is_open = close is_open to []
gaps_from covered to (suc left) d is_open = elim (covered d) [
  | true ↦ close is_open (d - 1) (gaps_from covered to left (d + 1) none)
  | false ↦ gaps_from covered to left (d + 1) (reopen is_open d)
]

unfoldable pub coverage_gaps : ℕ → ℕ → List BackfillRequest → List Gap
unfolding gaps_from covered_days
coverage_gaps from to requests =
    let covered = covered_days requests in
    gaps_from (λ d. any (λ c. c == d) covered) to (to + 1 - from) from none
