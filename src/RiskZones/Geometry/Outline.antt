-- ===== src/RiskZones/Geometry/Outline.antt =====
-- The outlines that the map completes, as the API receives them.
use open_fire_watch.Base.{
  ◌+◌, ◌≤◌, ◌≡◌, refl, true, false, none, some, List, [], ◌∷◌, ◌++◌, length, All, arith, ltb, subst,
}
use open_fire_watch.Base.Int.{eqb_ℤ_refl}
use open_fire_watch.Base.Json.{Json, Items, done, field, object, number, string, array, nil, cons}
use open_fire_watch.ZoneDraw.{Position, ring, Gesture, gestures, at_rest}
use open_fire_watch.ZoneDraw.Outlines.{IsOutline, IsComplete, gestures-IsComplete}
use open_fire_watch.RiskZones.Geometry.{
  in_bounds, check_positions, check_closed, size, last_of, same_position, validate,
}

-- A position, a ring and a polygon in GeoJSON.
abbrev pub position_json : Position → Json
position_json p = array (cons (number p.longitude) (cons (number p.latitude) nil))

abbrev pub positions_json : List Position → Items
positions_json [] = nil
positions_json (p ∷ ps) = cons (position_json p) (positions_json ps)

abbrev pub polygon_json : List Position → Json
polygon_json outline = object (
    field "type" (string "Polygon")
      (field "coordinates" (array (cons (array (positions_json outline)) nil)) done))

abbrev pub IsInBounds : Position → Type 0
IsInBounds p = in_bounds p.longitude p.latitude ≡ true

check_positions-All :
    (ps : List Position) → All IsInBounds ps → check_positions (positions_json ps) ≡ none
unfolding check_positions
check_positions-All [] h = refl
check_positions-All (p ∷ ps) h = rw (h.0) (check_positions-All ps h.1)

size-positions_json : (ps : List Position) → size (positions_json ps) ≡ length ps
size-positions_json [] = refl
size-positions_json (p ∷ ps) = omega (arith, size-positions_json ps)

last_of-append :
    (x : Json) (ps : List Position) (p : Position)
    → last_of x (positions_json (ps ++ (p ∷ []))) ≡ position_json p
last_of-append x [] p = refl
last_of-append x (q ∷ ps) p = last_of-append (position_json q) ps p

same_position_self : (p : Position) → same_position (position_json p) (position_json p) ≡ true
same_position_self p = ground (arith, eqb_ℤ_refl p.longitude, eqb_ℤ_refl p.latitude)

length-ring : (c : Position) (cs : List Position) → length (c ∷ cs) + 1 ≡ length (ring (c ∷ cs))
length-ring c cs = length_snoc (c ∷ cs) c
  where
    length_snoc : (ps : List Position) (p : Position) → length ps + 1 ≡ length (ps ++ (p ∷ []))
    length_snoc [] p = refl
    length_snoc (q ∷ ps) p = omega (arith, length_snoc ps p)

check_closed_ring :
    (c : Position) (cs : List Position)
    → check_closed (positions_json ((c ∷ cs) ++ (c ∷ []))) ≡ none
check_closed_ring c cs = rw (last_of-append (position_json c) cs c, same_position_self c) refl

validate_ring :
    (c : Position) (cs : List Position)
    → 2 ≤ length cs
    → All IsInBounds ((c ∷ cs) ++ (c ∷ []))
    → validate (polygon_json ((c ∷ cs) ++ (c ∷ []))) ≡ none
unfolding validate
validate_ring c cs l h =
    rw (long_enough, check_positions-All ((c ∷ cs) ++ (c ∷ [])) h, check_closed_ring c cs) refl
  where
    long_enough : ltb (size (positions_json ((c ∷ cs) ++ (c ∷ [])))) 4 ≡ false
    long_enough = ground (arith, size-positions_json ((c ∷ cs) ++ (c ∷ [])), length-ring c cs)

-- Whatever the gestures on the map, the API accepts the outline that they complete, as the polygon
-- that the map sends, when its corners lie within the bounds of the coordinates.
pub completed-validate :
    (gs : List Gesture) (outline : List Position)
    → (gestures gs at_rest).completed ≡ some outline
    → All IsInBounds outline
    → validate (polygon_json outline) ≡ none
completed-validate gs outline e h =
    accepted outline (subst IsComplete e (gestures-IsComplete gs at_rest tt)) h
  where
    accepted :
        (r : List Position) → IsOutline r → All IsInBounds r → validate (polygon_json r) ≡ none
    accepted r (c, cs, q, l) k = rw q (validate_ring c cs l (subst (All IsInBounds) q k))
