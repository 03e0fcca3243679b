-- ===== src/OpenMeteo/Hours.antt =====
-- What the hours of an answer hold.
use open_fire_watch.Base.{
  ℕ, ◌+◌, ◌*◌, ◌-◌, ◌/◌, ◌%◌, ◌<◌, ◌≡◌, refl, ap, Bool, true, false, Option, none, some, List, [],
  ◌∷◌, ◌++◌, map, ltb, ◌==◌, if◌then◌else◌, arith,
}
use open_fire_watch.Base.Int.{ℤ}
use open_fire_watch.Base.Text.{Text}
use open_fire_watch.OpenMeteo.{
  WeatherHour, whole_minutes, is_west, pad, format_offset, weather_hour, weather_hours,
}

-- A reader of the designator: its sign and its minutes.
abbrev pub read_offset : Text → Option (Bool × ℕ)
read_offset (s ∷ h ∷ k ∷ c ∷ m ∷ n ∷ []) =
    some (s == b'-', ((h - b'0') * 10 + (k - b'0')) * 60 + ((m - b'0') * 10 + (n - b'0')))
read_offset _ = none

two_digits :
    (print : ℕ → Text) (n : ℕ) → n < 100 → pad print n ≡ (b'0' + n / 10) ∷ (b'0' + n % 10) ∷ []
two_digits print n h = rw (ltb_of_lt n h)
  where
    ltb_of_lt : (n : ℕ) → n < 100 → ltb n 100 ≡ true
    ltb_of_lt n h = ground arith

designator_lem :
    (print : ℕ → Text) (west : Bool) (t : ℕ)
    → t < 6000
    → read_offset
        ((if west then b'-' else b'+') ∷ (pad print (t / 60) ++ (b':' ∷ pad print (t % 60))))
      ≡ some (west, t)
designator_lem print true t h =
    rw (two_digits print (t / 60) (omega arith), two_digits print (t % 60) (omega arith))
      (ap (λ n. some (true, n)) (omega arith))
designator_lem print false t h =
    rw (two_digits print (t / 60) (omega arith), two_digits print (t % 60) (omega arith))
      (ap (λ n. some (false, n)) (omega arith))

-- The designator of an offset of less than a hundred hours reads back as its sign and its minutes,
-- rounded to the nearest.
pub read_offset-format_offset :
    (print : ℕ → Text) (seconds : ℤ)
    → whole_minutes seconds < 6000
    → read_offset (format_offset print seconds) ≡ some (is_west seconds, whole_minutes seconds)
unfolding format_offset
read_offset-format_offset print seconds h =
    designator_lem print (is_west seconds) (whole_minutes seconds) h

-- An answer as rows: a time with what was measured then.
pub record Row : Type 0 where
  pub time : Text
  pub temperature : Option ℤ
  pub fraction : Option ℤ

abbrev pub hours_of : Text → List Row → List WeatherHour
hours_of offset [] = []
hours_of offset (r ∷ rs) =
    weather_hour (r.time ++ offset) r.temperature r.fraction ++ hours_of offset rs

-- The three parallel columns of an answer are read row by row: each hour has the temperature and
-- the moisture of its own time, and a row with a missing value is left out without a shift.
pub weather_hours-rows :
    (offset : Text) (rows : List Row)
    → weather_hours offset
        (map (λ r. r.time) rows)
        (map (λ r. r.temperature) rows)
        (map (λ r. r.fraction) rows)
      ≡ hours_of offset rows
unfolding weather_hours
weather_hours-rows offset [] = refl
weather_hours-rows offset (r ∷ rs) = rw (weather_hours-rows offset rs)
