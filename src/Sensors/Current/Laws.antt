-- ===== src/Sensors/Current/Laws.antt =====
-- The conditions of a zone are the worst that any fresh reading inside it shows.
use open_fire_watch.Base.{
  ℕ, ◌≡◌, refl, sym, ap, subst, ◌∙◌, inl, inr, ◌⊎◌, Option, none, some, List, [], ◌∷◌, arith, ◌==◌,
  ==_iff, if◌then◌else◌, All, Any, Bool-cases,
}
use open_fire_watch.Base.Int.{ℤ, ◌≤ℤ◌, max_ℤ, min_ℤ}
use open_fire_watch.Base.Map.{find, put, find-put}
use open_fire_watch.Sensors.Current.{
  LocalConditions, pick, most_conservative, merge, current_from, current_by_zone,
}

-- What a missing value does not say, no bound contradicts.
abbrev pub AtMost : Option ℤ → Option ℤ → Type 0
AtMost none b = Unit
AtMost (some x) none = ⊥
AtMost (some x) (some y) = x ≤ℤ y

abbrev pub AtLeast : Option ℤ → Option ℤ → Type 0
AtLeast none b = Unit
AtLeast (some x) none = ⊥
AtLeast (some x) (some y) = y ≤ℤ x

-- A row is covered by what its zone reports: that is no cooler and no moister.
abbrev pub IsCovered : LocalConditions → Option LocalConditions → Type 0
IsCovered row none = ⊥
IsCovered row (some c) =
    AtMost row.temperature_c c.temperature_c × AtLeast row.soil_moisture_pct c.soil_moisture_pct

-- The rows of one zone, folded.
gather : ℕ → Option LocalConditions → List LocalConditions → Option LocalConditions
gather z o [] = o
gather z o (r ∷ rs) = gather z (if r.zone_id == z then some (merge o r) else o) rs

find-merge :
    (z : ℕ) (r : LocalConditions) (m : List (ℕ × LocalConditions))
    → find z (put r.zone_id (merge (find r.zone_id m) r) m)
      ≡ (if r.zone_id == z then some (merge (find z m) r) else find z m)
find-merge z r m = elim (Bool-cases (r.zone_id == z)) [
  | inl same ↦
      let e : r.zone_id ≡ z = (==_iff _ _).0 same in find-put z r.zone_id _ m ∙ rw same (rw e refl)
  | inr other ↦ find-put z r.zone_id _ m ∙ rw other
]

find-current_from :
    (z : ℕ) (m : List (ℕ × LocalConditions)) (rows : List LocalConditions)
    → find z (current_from m rows) ≡ gather z (find z m) rows
unfolding current_from gather
find-current_from z m [] = refl
find-current_from z m (r ∷ rs) =
    find-current_from z (put r.zone_id (merge (find r.zone_id m) r) m) rs
    ∙ ap (λ o. gather z o rs) (find-merge z r m)

-- Merging keeps what either of the two covers.
most_conservative-covers :
    (a b row : LocalConditions)
    → IsCovered row (some a) ⊎ IsCovered row (some b)
    → IsCovered row (some (most_conservative a b))
unfolding most_conservative max_ℤ min_ℤ
most_conservative-covers a b row h = ground arith

IsCovered-refl : (row : LocalConditions) → IsCovered row (some row)
IsCovered-refl row = ground arith

merge-old :
    (row r : LocalConditions) (o : Option LocalConditions)
    → IsCovered row o
    → IsCovered row (some (merge o r))
merge-old row r none h = elim h [ ]
merge-old row r (some e) h = most_conservative-covers e r row (inl h)

merge-new : (r : LocalConditions) (o : Option LocalConditions) → IsCovered r (some (merge o r))
merge-new r none = IsCovered-refl r
merge-new r (some e) = most_conservative-covers e r r (inr (IsCovered-refl r))

gather-keeps :
    (z : ℕ) (row : LocalConditions) (o : Option LocalConditions) (rows : List LocalConditions)
    → IsCovered row o
    → IsCovered row (gather z o rows)
unfolding gather
gather-keeps z row o [] h = h
gather-keeps z row o (r ∷ rs) h = elim (Bool-cases (r.zone_id == z)) [
  | inl same ↦ rw same (gather-keeps z row (some (merge o r)) rs (merge-old row r o h))
  | inr other ↦ rw other (gather-keeps z row o rs h)
]

gather-covers :
    (z : ℕ) (o c : Option LocalConditions) (rows : List LocalConditions)
    → gather z o rows ≡ c
    → All (λ row. row.zone_id ≡ z → IsCovered row c) rows
unfolding gather
gather-covers z o c [] e = tt
gather-covers z o c (r ∷ rs) e = elim (Bool-cases (r.zone_id == z)) [
  | inl same ↦
      let e' : gather z (some (merge o r)) rs ≡ c = rw (same, gather) at e in
      (
        λ _. subst (IsCovered r) e' (gather-keeps z r (some (merge o r)) rs (merge-new r o)),
        gather-covers z (some (merge o r)) c rs e',
      )
  | inr other ↦
      (λ q. cc (sym other ∙ (==_iff _ _).1 q), gather-covers z o c rs (rw (other, gather) at e))
]

find-current_by_zone :
    (z : ℕ) (rows : List LocalConditions) → find z (current_by_zone rows) ≡ gather z none rows
unfolding current_by_zone find
find-current_by_zone z rows = find-current_from z [] rows

-- In the map that `currentByZone` returns, a zone's entry is at least as hot and at least as dry
-- as every row of that zone, in each quantity that the row has.
pub current_by_zone-covers :
    (z : ℕ) (rows : List LocalConditions)
    → All (λ row. row.zone_id ≡ z → IsCovered row (find z (current_by_zone rows))) rows
current_by_zone-covers z rows = gather-covers z none _ rows (sym (find-current_by_zone z rows))

-- A zone's values come from the rows of that zone.
abbrev pub IsMeasured : ℕ → List LocalConditions → LocalConditions → Type 0
IsMeasured z rows c =
    Any (λ row. (row.zone_id ≡ z) × (row.temperature_c ≡ c.temperature_c)) rows
    × Any (λ row. (row.zone_id ≡ z) × (row.soil_moisture_pct ≡ c.soil_moisture_pct)) rows
    × Any (λ row. (row.zone_id ≡ z) × (row.device_id ≡ c.device_id)) rows

-- A field of the fold is a field of the start or of some row of the zone, if merging keeps one.
module _ {V : Type 0} (field : LocalConditions → V)
    (keeps : (a b : LocalConditions)
      → (field (most_conservative a b) ≡ field a) ⊎ (field (most_conservative a b) ≡ field b)) where
  IsFrom : ℕ → Option LocalConditions → List LocalConditions → V → Type 0
  IsFrom z none rows v = Any (λ row. (row.zone_id ≡ z) × (field row ≡ v)) rows
  IsFrom z (some a) rows v = (field a ≡ v) ⊎ Any (λ row. (row.zone_id ≡ z) × (field row ≡ v)) rows

  step-IsFrom :
      (z : ℕ) (o : Option LocalConditions) (r : LocalConditions) (rs : List LocalConditions) (v : V)
      → r.zone_id ≡ z
      → IsFrom z (some (merge o r)) rs v
      → IsFrom z o (r ∷ rs) v
  unfolding IsFrom
  step-IsFrom z none r rs v e (inl p) = inl (e, p)
  step-IsFrom z none r rs v e (inr p) = inr p
  step-IsFrom z (some a) r rs v e (inr p) = inr (inr p)
  step-IsFrom z (some a) r rs v e (inl p) = elim (keeps a r) [
    | inl q ↦ inl (sym q ∙ p)
    | inr q ↦ inr (inl (e, sym q ∙ p))
  ]

  skip-IsFrom :
      (z : ℕ) (o : Option LocalConditions) (r : LocalConditions) (rs : List LocalConditions) (v : V)
      → IsFrom z o rs v
      → IsFrom z o (r ∷ rs) v
  unfolding IsFrom
  skip-IsFrom z none r rs v p = inr p
  skip-IsFrom z (some a) r rs v (inl p) = inl p
  skip-IsFrom z (some a) r rs v (inr p) = inr (inr p)

  gather-IsFrom :
      (z : ℕ) (o : Option LocalConditions) (rows : List LocalConditions) (c : LocalConditions)
      → gather z o rows ≡ some c
      → IsFrom z o rows (field c)
  unfolding gather IsFrom
  gather-IsFrom z none [] c e = cc
  gather-IsFrom z (some a) [] c e = inl (cc)
  gather-IsFrom z o (r ∷ rs) c e = elim (Bool-cases (r.zone_id == z)) [
    | inl same ↦
        step-IsFrom z o r rs (field c) ((==_iff _ _).0 same)
          (gather-IsFrom z (some (merge o r)) rs c (rw (same, gather) at e))
    | inr other ↦ skip-IsFrom z o r rs (field c) (gather-IsFrom z o rs c (rw (other, gather) at e))
  ]

pick-choice :
    (a b : Option ℤ) (choose : ℤ → ℤ → ℤ)
    → ((x y : ℤ) → (choose x y ≡ x) ⊎ (choose x y ≡ y))
    → (pick a b choose ≡ a) ⊎ (pick a b choose ≡ b)
pick-choice none b choose h = inr refl
pick-choice (some x) none choose h = inl refl
pick-choice (some x) (some y) choose h = elim (h x y) [
  | inl e ↦ inl (ap some e)
  | inr e ↦ inr (ap some e)
]

max_ℤ-choice : (x y : ℤ) → (max_ℤ x y ≡ x) ⊎ (max_ℤ x y ≡ y)
unfolding max_ℤ
max_ℤ-choice x y = ground arith

min_ℤ-choice : (x y : ℤ) → (min_ℤ x y ≡ x) ⊎ (min_ℤ x y ≡ y)
unfolding min_ℤ
min_ℤ-choice x y = ground arith

device-choice :
    (a b : LocalConditions)
    → ((most_conservative a b).device_id ≡ a.device_id)
      ⊎ ((most_conservative a b).device_id ≡ b.device_id)
unfolding most_conservative
device-choice a b = ground arith

-- What a zone's entry says was measured there: its temperature, its soil moisture and its device
-- are each those of some row of that zone.
pub current_by_zone-IsMeasured :
    (z : ℕ) (rows : List LocalConditions) (c : LocalConditions)
    → find z (current_by_zone rows) ≡ some c
    → IsMeasured z rows c
unfolding IsFrom most_conservative
current_by_zone-IsMeasured z rows c e =
    let g : gather z none rows ≡ some c = sym (find-current_by_zone z rows) ∙ e in
    (
      gather-IsFrom (λ r. r.temperature_c)
          (λ a b. pick-choice a.temperature_c b.temperature_c max_ℤ max_ℤ-choice) z none rows c g,
      gather-IsFrom (λ r. r.soil_moisture_pct)
          (λ a b. pick-choice a.soil_moisture_pct b.soil_moisture_pct min_ℤ min_ℤ-choice) z none
          rows c g,
      gather-IsFrom (λ r. r.device_id) device-choice z none rows c g,
    )
