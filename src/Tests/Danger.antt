-- ===== src/Tests/Danger.antt =====
-- The fire danger over numbers in hundred thousandths, with NaN.
use open_fire_watch.Base.{
  ℕ, zero, suc, ◌+◌, ◌*◌, ◌-◌, ◌/◌, ◌≡◌, ◌≢◌, ◌↔◌, ◌≤◌, refl, Bool, true, false, Option, none, some,
  List, [], ◌∷◌, ◌++◌, All, inl, inr, ◌==◌, if◌then◌else◌, max, min, leb, ltb, leb→le, arith,
}
use open_fire_watch.Base.Text.{Text, codes}
use open_fire_watch.Base.Tried.{Tried, ok, thrown}
use open_fire_watch.FireDanger.Numbers.{Arithmetic, IsOrdered, IsAtLeast}
use open_fire_watch.FireDanger.Codes.{DailyFireWeather, initial_codes}
use open_fire_watch.FireDanger.Indices.{FireWeatherIndices, very_low, compute_fire_weather_series}
use open_fire_watch.FireDanger.Bounds.{IsBounded, compute_fire_weather_series-IsBounded}
use open_fire_watch.FireDanger.Daily.{FireWeatherHour}
use open_fire_watch.FireDanger.Refresh.{
  ZonePoint, Published, Environment, days_from, refresh_fire_danger,
}
use open_fire_watch.FireDanger.Refresh.Isolation.{
  shown, days_from-shown, answered, refresh_fire_danger-answered,
}

abbrev Decimal : Type 0
Decimal = Option ℕ

abbrev lift : (ℕ → ℕ → ℕ) → Decimal → Decimal → Decimal
lift f (some a) (some b) = some (f a b)
lift f _ _ = none

abbrev test : (ℕ → ℕ → Bool) → Decimal → Decimal → Bool
test f (some a) (some b) = f a b
test f _ _ = false

abbrev same : Decimal → Decimal
same x = x

abbrev scale : ℕ → ℕ
scale zero = 100000
scale (suc zero) = 10000
scale (suc (suc zero)) = 1000
scale (suc (suc (suc zero))) = 100
scale (suc (suc (suc (suc zero)))) = 10
scale _ = 1

abbrev ratio : Decimal → Decimal → Decimal
ratio (some a) (some b) = if b == 0 then none else some (a * 100000 / b)
ratio _ _ = none

instance abbrev decimals : Arithmetic Decimal
decimals = record {
  literal = λ n d. some (n * scale d);
  plus = lift (λ a b. a + b);
  minus = lift (λ a b. a - b);
  times = lift (λ a b. a * b / 100000);
  over = ratio;
  power = λ a b. a;
  exp = same;
  log = same;
  sqrt = same;
  round = same;
  max = lift max;
  min = lift min;
  at_most = test leb;
  below = test ltb;
}

trans_lem : (x y z : Decimal) → test leb x y ≡ true → test leb y z ≡ true → test leb x z ≡ true
trans_lem (some a) (some b) (some c) h k = ground arith
trans_lem none y z h k = absurd (cc h)
trans_lem (some a) none z h k = absurd (cc h)
trans_lem (some a) (some b) none h k = absurd (cc k)

right_lem : (x y : Decimal) → test leb x y ≡ true → test leb y y ≡ true
right_lem (some a) (some b) h = ground arith
right_lem none y h = absurd (cc h)
right_lem (some a) none h = absurd (cc h)

literal_lem :
    (m n d : ℕ) → leb m n ≡ true → test leb (some (m * scale d)) (some (n * scale d)) ≡ true
literal_lem m n d h = (leb_iff _ _).1 (mul_le (scale d) m n (leb→le m n h))
  where
    mul_le : (s m n : ℕ) → m ≤ n → m * s ≤ n * s
    mul_le s m n h = grind arith

    leb_iff : (a b : ℕ) → (leb a b ≡ true) ↔ (a ≤ b)
    leb_iff a b = ground arith

-- The same for `max` and `min`.
nan_lem :
    (f : ℕ → ℕ → ℕ) (x y : Decimal)
    → test leb y y ≡ false
    → test leb (lift f x y) (lift f x y) ≡ false
nan_lem f x none h = lift_none x
  where
    lift_none : (x : Decimal) → test leb (lift f x none) (lift f x none) ≡ false
    lift_none none = refl
    lift_none (some a) = refl
nan_lem f x (some b) h = absurd (ground arith)

max_lem :
    (x y : Decimal) → test leb x x ≡ true → test leb y y ≡ true → test leb x (lift max x y) ≡ true
max_lem (some a) (some b) h k = ground arith
max_lem none y h k = absurd (cc h)
max_lem (some a) none h k = absurd (cc k)

min_lem :
    (x y : Decimal) → test leb x x ≡ true → test leb y y ≡ true → test leb (lift min x y) x ≡ true
min_lem (some a) (some b) h k = ground arith
min_lem none y h k = absurd (cc h)
min_lem (some a) none h k = absurd (cc k)

below_lem :
    (x y z : Decimal) → test leb z x ≡ true → test leb z y ≡ true → test leb z (lift min x y) ≡ true
below_lem (some a) (some b) (some c) h k = ground arith
below_lem x y none h k = absurd (cc h)
below_lem none y (some c) h k = absurd (cc h)
below_lem (some a) none (some c) h k = absurd (cc k)

-- No number of these is negative.
from_zero : (x : Decimal) → IsAtLeast decimals (some 0) x
from_zero none = inl refl
from_zero (some a) = inr (ground arith)

right_of_max : (x y : Decimal) → test leb y y ≡ true → IsAtLeast decimals y (lift max x y)
right_of_max (some a) (some b) h = inr (ground arith)
right_of_max none y h = inl refl
right_of_max (some a) none h = inl refl

not_below : (n d : ℕ) → test leb (some 0) (some (n * scale d)) ≡ true
not_below n d = ground arith

reflexive : (n d : ℕ) → test leb (some (0 - n * scale d)) (some (0 - n * scale d)) ≡ true
reflexive n d = ground arith

decimals-IsOrdered : IsOrdered Decimal decimals
decimals-IsOrdered = record {
  at_most_trans = trans_lem;
  at_most_right = right_lem;
  at_most-literal = literal_lem;
  max_nan = nan_lem max;
  min_nan = nan_lem min;
  at_most-max = max_lem;
  min-at_most = min_lem;
  at_most-min = below_lem;
  max_right = right_of_max;
  from_literal = not_below;
  minus_literal = reflexive;
  over_zero = refl;
  plus_from = λ x y h k. from_zero (decimals.plus x y);
  times_from = λ x y h k. from_zero (decimals.times x y);
  minus_from = λ x y h. from_zero (decimals.minus x y);
  plus_negative = λ n d x h. from_zero (decimals.plus x (decimals.literal n d));
}

abbrev dry_day : Text → DailyFireWeather Decimal
dry_day date = record {
  date = date;
  month = 7;
  temperature_c = some 3100000;
  relative_humidity_pct = some 2500000;
  wind_speed_kmh = some 1200000;
  rain24h_mm = some 0;
}

abbrev week : List (DailyFireWeather Decimal)
week = dry_day (codes "2026-07-01") ∷ dry_day (codes "2026-07-02") ∷ []

compute_fire_weather_series-IsBounded_example :
    All IsBounded (compute_fire_weather_series week initial_codes)
compute_fire_weather_series-IsBounded_example =
    compute_fire_weather_series-IsBounded decimals-IsOrdered week initial_codes

abbrev figures : Text → FireWeatherIndices Decimal
figures date = record {
  date = date;
  codes = initial_codes;
  isi = some 0;
  bui = some 0;
  fwi = some 0;
  danger_class = very_low;
}

abbrev past : List (FireWeatherIndices Decimal)
past = figures (codes "2026-07-01") ∷ figures (codes "2026-07-02") ∷ []

abbrev coming : List (FireWeatherIndices Decimal)
coming = figures (codes "2026-07-03") ∷ []

days_from-shown_example : days_from (codes "2026-07-03") (past ++ coming) ≡ shown past coming
days_from-shown_example = days_from-shown (codes "2026-07-03") past coming (refl, (refl, tt)) refl

abbrev zone_at : ℕ → ZonePoint Decimal
zone_at id = record {
  id = id;
  name_de = "Heide";
  name_en = "Heath";
  hazard_type = "wildfire";
  latitude = some id;
  longitude = some 0;
}

-- The weather of the first zone cannot be fetched, and the rows of the second cannot be stored.
abbrev fetch : Decimal → Decimal → Tried Text (List (FireWeatherHour Decimal))
fetch (some (suc zero)) longitude = thrown (codes "HTTP 502")
fetch latitude longitude = ok (
    record {
      at = codes "2026-07-03T12:00+02:00";
      temperature_c = some 3100000;
      relative_humidity_pct = some 2500000;
      wind_speed_kmh = some 1200000;
      precipitation_mm = some 0;
    }
    ∷ [])

abbrev partial : Environment Decimal
partial = record {
  today = codes "2026-07-03";
  fetch = fetch;
  store_fails = λ zone. some (codes "no table");
  redis_fails = none;
}

abbrev nothing_yet : Published Decimal
nothing_yet = record { history = []; snapshot = none; log = [] }

abbrev two_zones : List (ZonePoint Decimal)
two_zones = zone_at 1 ∷ zone_at 2 ∷ []

two_zones-answered : answered partial two_zones ≢ []
two_zones-answered h = cc h

refresh_fire_danger-answered_example :
    ((refresh_fire_danger partial two_zones nothing_yet).0 ≡ ok tt)
    × ((refresh_fire_danger partial two_zones nothing_yet).1.snapshot
        ≡ some (answered partial two_zones))
refresh_fire_danger-answered_example =
    refresh_fire_danger-answered partial two_zones nothing_yet refl two_zones-answered
