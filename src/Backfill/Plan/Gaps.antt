-- ===== src/Backfill/Plan/Gaps.antt =====
-- The gaps that are reported are the days that no request covers, and only those.
use open_fire_watch.Base.{
  ℕ, zero, suc, ◌+◌, ◌-◌, ◌≤◌, ◌<◌, ◌≡◌, refl, ap, ◌∙◌, Bool, false, ◌&&◌, ◌||◌, not, Option, none,
  some, List, [], ◌∷◌, ◌++◌, leb, ltb, ◌==◌, any, arith, Bool-cases, inl, inr,
}
use open_fire_watch.Backfill.Plan.{
  BackfillRequest, Gap, span, covered_days, gaps_from, coverage_gaps,
}
use open_fire_watch.Backfill.Plan.Windows.{asks_for}

abbrev pub in_gap : ℕ → Gap → Bool
in_gap d g = leb g.from d && leb d g.to

any-append {ℓ} :
    {A : Type ℓ} (test : A → Bool) (xs ys : List A)
    → any test (xs ++ ys) ≡ (any test xs || any test ys)
any-append test [] ys = refl
any-append test (x ∷ xs) ys = ground (arith, any-append test xs ys)

any-span : (d start n : ℕ) → any (λ c. c == d) (span start n) ≡ (leb start d && ltb d (start + n))
unfolding span
any-span d start zero = ground arith
any-span d start (suc n) = ground (arith, any-span d (start + 1) n)

any-covered_days :
    (d : ℕ) (rs : List BackfillRequest) → any (λ c. c == d) (covered_days rs) ≡ any (asks_for d) rs
unfolding covered_days
any-covered_days d [] = refl
any-covered_days d (r ∷ rs) =
    any-append (λ c. c == d) (span r.start_date r.day_range) (covered_days rs)
    ∙ ground (arith, any-span d r.start_date r.day_range, any-covered_days d rs)

-- Whether a day lies in the gap that is still open at a day.
abbrev in_open : ℕ → ℕ → Option ℕ → Bool
in_open d now none = false
in_open d now (some from) = leb from d && ltb d now

abbrev IsOpened : ℕ → Option ℕ → Type 0
IsOpened now none = Unit
IsOpened now (some from) = from < now

same_day : (covered : ℕ → Bool) (now d : ℕ) → now ≡ d → covered d ≡ covered now
same_day covered now d e = rw e

-- The loop, from any day on and with any gap open.
gaps_from-any :
    (covered : ℕ → Bool) (to left now d : ℕ) (is_open : Option ℕ)
    → now + left ≡ to + 1
    → IsOpened now is_open
    → any (in_gap d) (gaps_from covered to left now is_open)
      ≡ (in_open d now is_open || leb now d && leb d to && not (covered d))
unfolding gaps_from
gaps_from-any covered to zero now d none e h = ground arith
gaps_from-any covered to zero now d (some from) e h = ground arith
gaps_from-any covered to (suc left) now d none e h = elim (Bool-cases (covered now)) [
  | inl c ↦
      rw (c, gaps_from)
        (ground (arith, c, same_day covered now d, gaps_from-any covered to left (now + 1) d none))
  | inr c ↦
      rw (c, gaps_from)
        (ground
          (arith, c, same_day covered now d, gaps_from-any covered to left (now + 1) d (some now)))
]
gaps_from-any covered to (suc left) now d (some from) e h = elim (Bool-cases (covered now)) [
  | inl c ↦
      rw (c, gaps_from)
        (ground (arith, c, same_day covered now d, gaps_from-any covered to left (now + 1) d none))
  | inr c ↦
      rw (c, gaps_from)
        (ground
          (arith, c, same_day covered now d, gaps_from-any covered to left (now + 1) d (some from)))
]

-- For a range that is not inverted, the gaps that a run reports hold a day exactly when the day
-- lies in the range and no request asks for it.
pub coverage_gaps-any :
    (from to d : ℕ) (requests : List BackfillRequest)
    → from ≤ to
    → any (in_gap d) (coverage_gaps from to requests)
      ≡ (leb from d && leb d to && not (any (asks_for d) requests))
unfolding coverage_gaps
coverage_gaps-any from to d requests h =
    gaps_from-any (λ t. any (λ c. c == t) (covered_days requests)) to (to + 1 - from) from d none
      (omega arith) tt
    ∙ ap (λ b. leb from d && leb d to && not b) (any-covered_days d requests)
