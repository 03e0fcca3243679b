-- ===== src/RiskZones/Slug.antt =====
-- backend/src/risk-zones/risk-zone.service.ts: `slugify`. `toLowerCase` and `normalize('NFD')`, the
-- language's own, are parameters.
pub mod Safe
use open_fire_watch.Base.{
  ℕ, Bool, true, false, ◌&&◌, ◌||◌, not, List, [], ◌∷◌, ◌++◌, leb, ◌==◌, if◌then◌else◌, keep, take,
}
use open_fire_watch.Base.Text.{Text}

abbrev pub dash : ℕ
dash = b'-'

-- [a-z0-9]
abbrev pub is_plain : ℕ → Bool
is_plain c = leb b'a' c && leb c b'z' || leb b'0' c && leb c b'9'

-- ä, ö, ü and ß
abbrev spelled_out : ℕ → Text
spelled_out c =
    if c == 0xe4
    then b'a' ∷ b'e' ∷ []
    else if c == 0xf6
    then b'o' ∷ b'e' ∷ []
    else if c == 0xfc
    then b'u' ∷ b'e' ∷ []
    else if c == 0xdf
    then b's' ∷ b's' ∷ []
    else c ∷ []

spell_out : Text → Text
spell_out [] = []
spell_out (c ∷ s) = spelled_out c ++ spell_out s

abbrev is_mark : ℕ → Bool
is_mark c = leb 0x300 c && leb c 0x36f

-- `replace(/[^a-z0-9]+/g, '-')`; `in_run` tells whether the last character was replaced.
dashed : Bool → Text → Text
dashed in_run [] = []
dashed in_run (c ∷ s) = elim (is_plain c) [
  | true ↦ c ∷ dashed false s
  | false ↦ let rest = dashed true s in if in_run then rest else dash ∷ rest
]

-- `replace(/^-+|-+$/g, '')`
without_start : Text → Text
without_start [] = []
without_start (c ∷ s) = elim (c == dash) [ true ↦ without_start s | false ↦ c ∷ s ]

abbrev pub before : ℕ → Text → Text
before c [] = if c == dash then [] else c ∷ []
before c (d ∷ s) = c ∷ d ∷ s

without_end : Text → Text
without_end [] = []
without_end (c ∷ s) = before c (without_end s)

abbrev pub or_zone : Text → Text
or_zone [] = b'z' ∷ b'o' ∷ b'n' ∷ b'e' ∷ []
or_zone (c ∷ s) = c ∷ s

abbrev pub max_slug : ℕ
max_slug = 60

module _ (lower nfd : Text → Text) where
  unfoldable pub slugify : Text → Text
  unfolding spell_out dashed without_start without_end
  slugify label =
      let plain = keep (λ c. not (is_mark c)) (nfd (spell_out (lower label))) in
      or_zone (take max_slug (without_end (without_start (dashed false plain))))
