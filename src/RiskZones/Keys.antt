-- ===== src/RiskZones/Keys.antt =====
-- backend/src/risk-zones/risk-zone.service.ts: `reserveKey`. The decimal notation of a number is a
-- parameter. A key holds no wildcard of LIKE, so the pattern is a prefix.
pub mod Free
use open_fire_watch.Base.{
  ℕ, zero, suc, ◌+◌, Bool, true, false, ◌||◌, Option, none, some, List, [], ◌∷◌, ◌++◌,
  if◌then◌else◌, keep, any, length,
}
use open_fire_watch.Base.Text.{Text, text_eq, starts}
use open_fire_watch.RiskZones.Slug.{dash}

-- `name = $1 OR name LIKE $1 || '-%'`
abbrev pub is_related : Text → Text → Bool
is_related base name = text_eq base name || starts (base ++ (dash ∷ [])) name

module _ (show : ℕ → Text) where
  abbrev pub candidate : Text → ℕ → Text
  candidate base n = (base ++ (dash ∷ [])) ++ show n

  -- The unbounded loop, on fuel; `none` is a loop that has not ended.
  unfoldable pub search_key : Text → List Text → ℕ → ℕ → Option Text
  search_key base taken zero n = none
  search_key base taken (suc fuel) n = elim (any (text_eq (candidate base n)) taken) [
    | true ↦ search_key base taken fuel (n + 1)
    | false ↦ some (candidate base n)
  ]

  abbrev pub among : Text → List Text → Option Text
  among base [] = some base
  among base (t ∷ ts) = search_key base (t ∷ ts) (length (t ∷ ts) + 1) 2

  unfoldable pub reserve_key : Text → List Text → Option Text
  unfolding search_key
  reserve_key base names = among base (keep (is_related base) names)
