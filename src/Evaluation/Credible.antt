-- ===== src/Evaluation/Credible.antt =====
-- backend/src/evaluation/alert-level.enum.ts: `isCredibleDetection`.
-- A text is the list of its UTF-16 code units. `Number`, the conversion of the language, is a
-- parameter: `none` stands for NaN and the infinities, a finite result is in thousandths.
use open_fire_watch.Base.{
  ℕ, ◌+◌, Bool, true, false, ◌&&◌, ◌||◌, List, [], ◌∷◌, reverse, map, Option, none, some, leb, ◌==◌,
  if◌then◌else◌, any,
}
use open_fire_watch.Base.Text.{Text, text_eq}
use open_fire_watch.Base.Int.{ℤ, leb_ℤ}
use open_fire_watch.Evaluation.Level.{units}

-- The white space and line ends that `trim` removes.
abbrev is_space : ℕ → Bool
is_space c =
    leb 9 c && leb c 13
    || leb 0x2000 c && leb c 0x200a
    || any (λ s. c == s)
        (32 ∷ 0xa0 ∷ 0x1680 ∷ 0x2028 ∷ 0x2029 ∷ 0x202f ∷ 0x205f ∷ 0x3000 ∷ 0xfeff ∷ [])

trim_start : Text → Text
trim_start [] = []
trim_start (c ∷ s) = elim (is_space c) [ true ↦ trim_start s | false ↦ c ∷ s ]

trim : Text → Text
unfolding trim_start
trim s = reverse (trim_start (reverse (trim_start s)))

-- `toLowerCase`, where it matters here: no other character becomes a letter of the words below,
-- and none of them becomes a part of a number.
to_lower : ℕ → ℕ
to_lower c = if leb b'A' c && leb c b'Z' then c + 32 else c

normal : Text → Text
unfolding trim to_lower
normal s = map to_lower (trim s)

abbrev pub low_words : List Text
low_words = (b'l' ∷ []) ∷ (b'l' ∷ b'o' ∷ b'w' ∷ []) ∷ []

abbrev pub high_words : List Text
high_words =
    (b'n' ∷ [])
    ∷ (b'h' ∷ [])
    ∷ (b'n' ∷ b'o' ∷ b'm' ∷ b'i' ∷ b'n' ∷ b'a' ∷ b'l' ∷ [])
    ∷ (b'h' ∷ b'i' ∷ b'g' ∷ b'h' ∷ [])
    ∷ []

module _ (to_number : Text → Option ℤ) where
  abbrev numeric_ok : Option ℤ → Bool
  numeric_ok none = true
  numeric_ok (some n) = leb_ℤ (units 30) n

  rating : Text → Bool
  rating value =
      if any (text_eq value) low_words
      then false
      else if any (text_eq value) high_words
      then true
      else numeric_ok (to_number value)

  unfoldable pub is_credible_detection : Option Text → Bool
  unfolding rating normal
  is_credible_detection none = true
  is_credible_detection (some []) = true
  is_credible_detection (some (c ∷ s)) = rating (normal (c ∷ s))
