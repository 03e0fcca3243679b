-- ===== src/MonitoringArea/Resolve.antt =====
-- What the cycle asks FIRMS for, when no area is configured.
use open_fire_watch.Base.{
  ◌≡◌, refl, ◌∙◌, ap, subst, Bool, true, false, ◌||◌, Option, none, some, List, [], ◌∷◌, ◌++◌, map,
  All, Any, any, keep, ◌==◌, arith, inl, inr, Bool-cases,
}
use open_fire_watch.Base.Int.{ℤ, pos, ◌<ℤ◌, leb_ℤ}
use open_fire_watch.Base.Json.{Json}
use open_fire_watch.Base.Text.{Text}
use open_fire_watch.Base.Tried.{ok}
use open_fire_watch.Ingestion.Sources.{split}
use open_fire_watch.RiskZones.Table.{ZoneRow}
use open_fire_watch.MonitoringArea.{
  Box, MonitoringArea, Environment, Origin, by_zones, box_in, centre, parse_bbox, join_rest, extent,
  active_boxes, joined, padded, from_zones, resolve_monitoring_area,
}
use open_fire_watch.MonitoringArea.Cover.{
  Inside, IsOnGlobe, IsProper, padded-Inside, Inside-join_left, Inside-join_right, Inside-self,
  Inside-trans, join-IsOnGlobe,
}

abbrev pub has_comma : Text → Bool
has_comma s = any (λ c. c == b',') s

split-comma : (s t : Text) → has_comma s ≡ false → split (s ++ (b',' ∷ t)) ≡ s ∷ split t
unfolding split
split-comma [] t h = refl
split-comma (c ∷ s) t h = elim (Bool-cases (c == b',')) [
  | inl e ↦ absurd (cc (e, h))
  | inr e ↦ rw (e, split, split-comma s t (rw e at h))
]

split-last : (s : Text) → has_comma s ≡ false → split s ≡ s ∷ []
unfolding split
split-last [] h = refl
split-last (c ∷ s) h = elim (Bool-cases (c == b',')) [
  | inl e ↦ absurd (cc (e, h))
  | inr e ↦ rw (e, split, split-last s (rw e at h))
]

-- Reading back the four numbers of a box.
box_in-joined :
    (to_number : Text → Option ℤ) (print : ℤ → Text) (b : Box)
    → ((n : ℤ) → to_number (print n) ≡ some n)
    → ((n : ℤ) → has_comma (print n) ≡ false)
    → box_in (map to_number (split (joined print b))) ≡ some b
box_in-joined to_number print b back plain = rw (
  split-comma (print b.west) (print b.south ++ (b',' ∷ (print b.east ++ (b',' ∷ print b.north))))
      (plain b.west),
  split-comma (print b.south) (print b.east ++ (b',' ∷ print b.north)) (plain b.south),
  split-comma (print b.east) (print b.north) (plain b.east),
  split-last (print b.north) (plain b.north),
  back b.west,
  back b.south,
  back b.east,
  back b.north,
)

parse_bbox-proper :
    (to_number : Text → Option ℤ) (value : Text) (origin : Origin) (b : Box)
    → box_in (map to_number (split value)) ≡ some b
    → IsProper b
    → parse_bbox to_number value origin
      ≡ ok (record { bbox = value; centroid = centre b; origin = origin })
unfolding parse_bbox
parse_bbox-proper to_number value origin b h p = rw (h, narrow b p)
  where
    narrow : (b : Box) → IsProper b → (leb_ℤ b.east b.west || leb_ℤ b.north b.south) ≡ false
    narrow b p = ground (arith, p.wide, p.high)

abbrev InSome : (Box → Type 0) → Option Box → Type 0
InSome P none = ⊥
InSome P (some e) = P e

join_rest-Inside : (b : Box) (r : Option Box) → Inside b (join_rest b r)
join_rest-Inside b none = Inside-self b
join_rest-Inside b (some e) = Inside-join_left b e

join_rest-InSome : (x b : Box) (r : Option Box) → InSome (Inside x) r → Inside x (join_rest b r)
join_rest-InSome x b none h = elim h [ ]
join_rest-InSome x b (some e) h = Inside-join_right x b e h

extent-Inside : (bs : List Box) (x : Box) → Any (λ b. b ≡ x) bs → InSome (Inside x) (extent bs)
unfolding extent
extent-Inside [] x h = elim h [ ]
extent-Inside (b ∷ bs) x (inl e) =
    subst (λ y. Inside y (join_rest b (extent bs))) e (join_rest-Inside b (extent bs))
extent-Inside (b ∷ bs) x (inr h) = join_rest-InSome x b (extent bs) (extent-Inside bs x h)

abbrev OfSome : (Box → Type 0) → Option Box → Type 0
OfSome P none = Unit
OfSome P (some e) = P e

join_rest-IsOnGlobe :
    (b : Box) (r : Option Box) → IsOnGlobe b → OfSome IsOnGlobe r → IsOnGlobe (join_rest b r)
join_rest-IsOnGlobe b none g h = g
join_rest-IsOnGlobe b (some e) g h = join-IsOnGlobe b e g h

extent-IsOnGlobe : (bs : List Box) → All IsOnGlobe bs → OfSome IsOnGlobe (extent bs)
unfolding extent
extent-IsOnGlobe [] g = tt
extent-IsOnGlobe (b ∷ bs) g = join_rest-IsOnGlobe b (extent bs) g.0 (extent-IsOnGlobe bs g.1)

Any-active_boxes :
    (box_of : Json → Box) (z : ZoneRow) (rows : List ZoneRow)
    → z.is_active ≡ true
    → Any (λ r. r ≡ z) rows
    → Any (λ b. b ≡ box_of z.geom) (active_boxes box_of rows)
Any-active_boxes box_of z [] a h = elim h [ ]
Any-active_boxes box_of z (r ∷ rs) a (inl e) =
    rw (ap (λ (t : ZoneRow). t.is_active) e ∙ a, keep) (inl (ap (λ (t : ZoneRow). box_of t.geom) e))
Any-active_boxes box_of z (r ∷ rs) a (inr h) = elim (Bool-cases r.is_active) [
  | inl e ↦ rw (e, keep) (inr (Any-active_boxes box_of z rs a h))
  | inr e ↦ rw (e, keep) (Any-active_boxes box_of z rs a h)
]

All-active_boxes :
    (box_of : Json → Box) (rows : List ZoneRow)
    → All (λ r. IsOnGlobe (box_of r.geom)) rows
    → All IsOnGlobe (active_boxes box_of rows)
All-active_boxes box_of [] h = tt
All-active_boxes box_of (r ∷ rs) h = elim (Bool-cases r.is_active) [
  | inl e ↦ rw (e, keep) (h.0, All-active_boxes box_of rs h.1)
  | inr e ↦ rw (e, keep) (All-active_boxes box_of rs h.1)
]

-- What a box that is asked for says: its text reads as four numbers, from west to east and from
-- south to north, and the box covers the one that is given.
pub record Polls (to_number : Text → Option ℤ) (x : Box) (a : MonitoringArea) : Type 0 where
  pub box : Box
  pub reads : box_in (map to_number (split a.bbox)) ≡ some box
  pub is_proper : IsProper box
  pub covers : Inside x box

module _ (env : Environment) where
  from_zones-Polls :
      (x : Box) (e : Option Box)
      → ((n : ℤ) → env.to_number (env.print n) ≡ some n)
      → ((n : ℤ) → has_comma (env.print n) ≡ false)
      → pos 50000 <ℤ env.padding
      → InSome (Inside x) e
      → OfSome IsOnGlobe e
      → (a : MonitoringArea) × (from_zones env e ≡ ok a) × Polls env.to_number x a
  from_zones-Polls x none back plain wide i g = elim i [ ]
  from_zones-Polls x (some e) back plain wide i g =
      let reads = box_in-joined env.to_number env.print (padded env.padding e) back plain in
      let around = padded-Inside env.padding e wide g in
      (
        _,
        parse_bbox-proper env.to_number _ by_zones _ reads around.1,
        record {
          box = padded env.padding e;
          reads = reads;
          is_proper = around.1;
          covers = Inside-trans x e (padded env.padding e) i around.0;
        },
      )

  -- With no area configured, the box that the cycle polls covers every active zone: it exists as
  -- soon as there is an active zone, its text reads as four numbers from west to east and from
  -- south to north, and the box of each active zone lies inside, if the zones lie on the globe, the
  -- padding is more than 0.00005 degrees, and a number's text has no comma and reads as the number.
  pub resolve_monitoring_area-Polls :
      (rows : List ZoneRow) (z : ZoneRow)
      → env.firms_area ≡ none
      → ((n : ℤ) → env.to_number (env.print n) ≡ some n)
      → ((n : ℤ) → has_comma (env.print n) ≡ false)
      → pos 50000 <ℤ env.padding
      → All (λ r. IsOnGlobe (env.box_of r.geom)) rows
      → z.is_active ≡ true
      → Any (λ r. r ≡ z) rows
      → (a : MonitoringArea) × (resolve_monitoring_area env rows ≡ ok a)
        × Polls env.to_number (env.box_of z.geom) a
  unfolding resolve_monitoring_area
  resolve_monitoring_area-Polls rows z absent back plain wide globe active here = rw absent (
      from_zones-Polls (env.box_of z.geom) (extent (active_boxes env.box_of rows)) back plain wide
        (extent-Inside _ _ (Any-active_boxes env.box_of z rows active here))
        (extent-IsOnGlobe _ (All-active_boxes env.box_of rows globe)))
