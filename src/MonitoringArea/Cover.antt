-- ===== src/MonitoringArea/Cover.antt =====
-- The box that is polled covers the zones that it is derived from.
use open_fire_watch.Base.{◌+◌, ◌≤◌, ◌≡◌, ◌⊎◌, refl, arith, inl, inr}
use open_fire_watch.Base.Int.{
  ℤ, pos, pos_part, neg_part, ◌+ℤ◌, ◌-ℤ◌, ◌≤ℤ◌, ◌<ℤ◌, max_ℤ, min_ℤ, -ℤ_parts,
}
use open_fire_watch.MonitoringArea.{Box, clamp, round4, join, padded}
use open_fire_watch.RiskZones.Geometry.{degrees, minus_degrees}

-- One box inside another.
pub record Inside (x e : Box) : Type 0 where
  pub west : e.west ≤ℤ x.west
  pub south : e.south ≤ℤ x.south
  pub east : x.east ≤ℤ e.east
  pub north : x.north ≤ℤ e.north

-- A box on the globe, possibly a single point.
pub record IsOnGlobe (b : Box) : Type 0 where
  pub west : minus_degrees 180 ≤ℤ b.west
  pub width : b.west ≤ℤ b.east
  pub east : b.east ≤ℤ degrees 180
  pub south : minus_degrees 90 ≤ℤ b.south
  pub height : b.south ≤ℤ b.north
  pub north : b.north ≤ℤ degrees 90

-- Rounding moves a number by half a unit of the fourth decimal at most.
round4-near :
    (x : ℤ)
    → (pos_part (round4 x) + neg_part x ≤ pos_part x + neg_part (round4 x) + 50000)
      × (pos_part x + neg_part (round4 x) ≤ pos_part (round4 x) + neg_part x + 50000)
unfolding round4
round4-near x = ground arith

clamp_low : (n lo hi : ℤ) → lo ≤ℤ hi → (clamp n lo hi ≡ lo) ⊎ (clamp n lo hi ≤ℤ n)
unfolding clamp min_ℤ max_ℤ
clamp_low n lo hi h = ground arith

clamp_high : (n lo hi : ℤ) → lo ≤ℤ hi → (clamp n lo hi ≡ hi) ⊎ (n ≤ℤ clamp n lo hi)
unfolding clamp min_ℤ max_ℤ
clamp_high n lo hi h = ground arith

-- A lower edge is the limit of the globe, or lies beyond what it is to cover; so an upper edge.
low_edge :
    (x lo hi padding : ℤ)
    → lo ≤ℤ hi
    → round4 lo ≡ lo
    → pos 50000 <ℤ padding
    → (round4 (clamp (x -ℤ padding) lo hi) ≡ lo) ⊎ (round4 (clamp (x -ℤ padding) lo hi) <ℤ x)
low_edge x lo hi padding h fixed wide = elim (clamp_low (x -ℤ padding) lo hi h) [
  | inl e ↦ inl (rw (e, fixed))
  | inr e ↦
      inr (omega (arith, (round4-near (clamp (x -ℤ padding) lo hi)).0, -ℤ_parts x padding, e, wide))
]

+ℤ_parts :
    (a b : ℤ)
    → pos_part (a +ℤ b) + neg_part a + neg_part b ≡ neg_part (a +ℤ b) + pos_part a + pos_part b
unfolding ◌+ℤ◌
+ℤ_parts a b = ground arith

high_edge :
    (x lo hi padding : ℤ)
    → lo ≤ℤ hi
    → round4 hi ≡ hi
    → pos 50000 <ℤ padding
    → (round4 (clamp (x +ℤ padding) lo hi) ≡ hi) ⊎ (x <ℤ round4 (clamp (x +ℤ padding) lo hi))
high_edge x lo hi padding h fixed wide = elim (clamp_high (x +ℤ padding) lo hi h) [
  | inl e ↦ inl (rw (e, fixed))
  | inr e ↦
      inr (omega (arith, (round4-near (clamp (x +ℤ padding) lo hi)).1, +ℤ_parts x padding, e, wide))
]

-- The edges around a range: they cover it, and the lower one lies below the upper one.
edges :
    (w e lo hi W E : ℤ)
    → lo <ℤ hi
    → lo ≤ℤ w
    → w ≤ℤ e
    → e ≤ℤ hi
    → (W ≡ lo) ⊎ (W <ℤ w)
    → (E ≡ hi) ⊎ (e <ℤ E)
    → (W ≤ℤ w) × (e ≤ℤ E) × (W <ℤ E)
edges w e lo hi W E h p q r low high = ground arith

-- What a box has when it is a proper one.
pub record IsProper (b : Box) : Type 0 where
  pub wide : b.west <ℤ b.east
  pub high : b.south <ℤ b.north

round4_degrees :
    (round4 (minus_degrees 180) ≡ minus_degrees 180)
    × (round4 (degrees 180) ≡ degrees 180)
    × (round4 (minus_degrees 90) ≡ minus_degrees 90)
    × (round4 (degrees 90) ≡ degrees 90)
unfolding round4
round4_degrees = (refl, refl, refl, refl)

pub padded-Inside :
    (padding : ℤ) (b : Box)
    → pos 50000 <ℤ padding
    → IsOnGlobe b
    → Inside b (padded padding b) × IsProper (padded padding b)
padded-Inside padding b wide g =
    let across =
      edges b.west b.east (minus_degrees 180) (degrees 180) _ _ (omega arith) g.west g.width g.east
        (low_edge b.west (minus_degrees 180) (degrees 180) padding (omega arith) round4_degrees.0
          wide)
        (high_edge b.east (minus_degrees 180) (degrees 180) padding (omega arith) round4_degrees.1
          wide) in
    let along =
      edges b.south b.north (minus_degrees 90) (degrees 90) _ _ (omega arith) g.south g.height
        g.north
        (low_edge b.south (minus_degrees 90) (degrees 90) padding (omega arith) round4_degrees.2
          wide)
        (high_edge b.north (minus_degrees 90) (degrees 90) padding (omega arith) round4_degrees.3
          wide) in
    (
      record { west = across.0; south = along.0; east = across.1; north = along.1 },
      record { wide = across.2; high = along.2 },
    )

pub Inside-join_left : (a b : Box) → Inside a (join a b)
unfolding join min_ℤ max_ℤ
Inside-join_left a b = record {
  west = ground arith;
  south = ground arith;
  east = ground arith;
  north = ground arith;
}

pub Inside-join_right : (x a b : Box) → Inside x b → Inside x (join a b)
unfolding join min_ℤ max_ℤ
Inside-join_right x a b h = record {
  west = ground (arith, h.west);
  south = ground (arith, h.south);
  east = ground (arith, h.east);
  north = ground (arith, h.north);
}

pub Inside-self : (b : Box) → Inside b b
Inside-self b = record {
  west = omega arith;
  south = omega arith;
  east = omega arith;
  north = omega arith;
}

pub Inside-trans : (a b c : Box) → Inside a b → Inside b c → Inside a c
Inside-trans a b c h k = record {
  west = omega (arith, h.west, k.west);
  south = omega (arith, h.south, k.south);
  east = omega (arith, h.east, k.east);
  north = omega (arith, h.north, k.north);
}

pub join-IsOnGlobe : (a b : Box) → IsOnGlobe a → IsOnGlobe b → IsOnGlobe (join a b)
unfolding join min_ℤ max_ℤ
join-IsOnGlobe a b g h = record {
  west = ground (arith, g.west, h.west);
  width = ground (arith, g.width, h.width);
  east = ground (arith, g.east, h.east);
  south = ground (arith, g.south, h.south);
  height = ground (arith, g.height, h.height);
  north = ground (arith, g.north, h.north);
}
