-- ===== src/Status/Ranking.antt =====
-- What the word at the top of the status page stands for.
use open_fire_watch.Base.{
  ◌≡◌, ◌↔◌, ◌≤◌, true, false, ◌&&◌, ◌||◌, not, List, [], ◌∷◌, keep, length, any, arith, refl, inl,
  inr, Bool-cases, ltb, ◌==◌,
}
use open_fire_watch.Status.{is_fresh, is_missing, Source, StatusInput, all_ok, blind, overall_state}

length-keep-le : (ss : List Source) → length (keep (λ s. s.is_ok) ss) ≤ length ss
length-keep-le [] = omega arith
length-keep-le (s ∷ ss) = elim (Bool-cases s.is_ok) [
  | inl e ↦ rw (e, keep) (omega (arith, length-keep-le ss))
  | inr e ↦ rw (e, keep) (omega (arith, length-keep-le ss))
]

-- Every source works exactly when as many work as there are.
ltb-keep :
    (ss : List Source)
    → ltb (length (keep (λ s. s.is_ok) ss)) (length ss) ≡ any (λ s. not s.is_ok) ss
ltb-keep [] = refl
ltb-keep (s ∷ ss) = elim (Bool-cases s.is_ok) [
  | inl e ↦ rw (e, keep) (ground (arith, ltb-keep ss))
  | inr e ↦ rw (e, keep) (ground (arith, length-keep-le ss))
]

keep-none :
    (ss : List Source) → (length (keep (λ s. s.is_ok) ss) == 0) ≡ not (any (λ s. s.is_ok) ss)
keep-none [] = refl
keep-none (s ∷ ss) = elim (Bool-cases s.is_ok) [
  | inl e ↦ rw (e, keep) (ground arith)
  | inr e ↦ rw (e, keep) (keep-none ss)
]

any-some :
    (ss : List Source)
    → any (λ s. not s.is_ok) ss ≡ false
    → ltb 0 (length ss) ≡ true
    → any (λ s. s.is_ok) ss ≡ true
any-some [] h k = cc
any-some (s ∷ ss) h k = ground arith

-- The page says `ok` only of a system whose ingestion cycle, sources, weather, forecast and fire
-- danger all deliver on time and whose dead letter queue is empty, and it says so of each of these.
pub overall_state-ok :
    (input : StatusInput)
    → (overall_state input ≡ all_ok) ↔ (
        (is_fresh input.cycle
          && not (any (λ s. not s.is_ok) input.sources)
          && is_fresh input.weather
          && is_fresh input.forecast
          && is_fresh input.fire_danger
          && (input.dead_letters == 0))
        ≡ true)
unfolding overall_state
overall_state-ok input = rw (ltb-keep, keep-none) (ground (arith, any-some input.sources))

-- The page says `blind` exactly when no ingestion cycle is known or there are sources and none works.
pub overall_state-blind :
    (input : StatusInput)
    → (overall_state input ≡ blind) ↔ (
        (is_missing input.cycle
          || (ltb 0 (length input.sources) && not (any (λ s. s.is_ok) input.sources)))
        ≡ true)
unfolding overall_state
overall_state-blind input = rw keep-none (ground arith)
