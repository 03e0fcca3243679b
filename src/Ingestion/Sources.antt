-- ===== src/Ingestion/Sources.antt =====
-- workers/src/firms-sources.ts: which products the cycle polls. A source is a text; `trim` is a
-- parameter.
use open_fire_watch.Base.{
  ℕ, ◌≡◌, refl, ap, Bool, true, false, Option, some, List, [], ◌∷◌, ◌++◌, map, ◌==◌, any, keep,
  or_else, arith, Bool-cases, inl, inr,
}
use open_fire_watch.Base.Text.{Text, text_eq, text_eq_refl, eq_of_text_eq}

-- `split(',')`
unfoldable pub split : Text → List Text
split [] = [] ∷ []
split (c ∷ s) = elim (c == b',') [ true ↦ [] ∷ split s | false ↦ onto c (split s) ]
  where
    onto : ℕ → List Text → List Text
    onto c [] = (c ∷ []) ∷ []
    onto c (t ∷ ts) = (c ∷ t) ∷ ts

abbrev pub is_filled : Text → Bool
is_filled [] = false
is_filled (c ∷ s) = true

-- `[...new Set(list)]`: the first of each value.
unfoldable pub unique : List Text → List Text → List Text
unique seen [] = []
unique seen (t ∷ ts) = elim (any (text_eq t) seen) [
  | true ↦ unique seen ts
  | false ↦ t ∷ unique (t ∷ seen) ts
]

unfoldable pub resolve_poll_sources : (Text → Text) → Text → Option Text → List Text
unfolding split unique
resolve_poll_sources trim sources legacy =
    unique [] (keep is_filled (map trim (split sources ++ (or_else legacy [] ∷ []))))

-- No value twice.
abbrev pub IsUnique : List Text → Type 0
IsUnique [] = Unit
IsUnique (t ∷ ts) = (any (text_eq t) ts ≡ false) × IsUnique ts

any-unique :
    (t : Text) (seen ts : List Text)
    → any (text_eq t) seen ≡ true
    → any (text_eq t) (unique seen ts) ≡ false
unfolding unique
any-unique t seen [] h = refl
any-unique t seen (u ∷ ts) h = elim (Bool-cases (any (text_eq u) seen)) [
  | inl e ↦ rw (e, unique) (any-unique t seen ts h)
  | inr e ↦ elim (Bool-cases (text_eq t u)) [
    | inl q ↦ absurd (cc (h, e, ap (λ v. any (text_eq v) seen) (eq_of_text_eq t u q)))
    | inr q ↦ rw (e, unique, q) (any-unique t (u ∷ seen) ts (rw (q, h) refl))
  ]
]

unique-IsUnique : (seen ts : List Text) → IsUnique (unique seen ts)
unfolding unique
unique-IsUnique seen [] = tt
unique-IsUnique seen (t ∷ ts) = elim (Bool-cases (any (text_eq t) seen)) [
  | inl e ↦ rw (e, unique) (unique-IsUnique seen ts)
  | inr e ↦
      rw (e, unique)
        (any-unique t (t ∷ seen) ts (rw (text_eq_refl t) refl), unique-IsUnique (t ∷ seen) ts)
]

any-unique_of :
    (t : Text) (seen ts : List Text)
    → any (text_eq t) seen ≡ false
    → any (text_eq t) ts ≡ true
    → any (text_eq t) (unique seen ts) ≡ true
unfolding unique
any-unique_of t seen [] n h = cc
any-unique_of t seen (u ∷ ts) n h = elim (Bool-cases (text_eq t u)) [
  | inl q ↦
      let new : any (text_eq u) seen ≡ false =
        cc (n, ap (λ v. any (text_eq v) seen) (eq_of_text_eq t u q)) in
      rw (new, unique, q) refl
  | inr q ↦ elim (Bool-cases (any (text_eq u) seen)) [
    | inl e ↦ rw (e, unique) (any-unique_of t seen ts n (rw q at h))
    | inr e ↦ rw (e, unique, q) (any-unique_of t (u ∷ seen) ts (rw (q, n) refl) (rw q at h))
  ]
]

any-filled_last :
    (t : Text) (ts : List Text)
    → is_filled t ≡ true
    → any (text_eq t) (keep is_filled (ts ++ (t ∷ []))) ≡ true
any-filled_last t [] f = rw (f, keep) (rw (text_eq_refl t) refl)
any-filled_last t (u ∷ ts) f = elim (Bool-cases (is_filled u)) [
  | inl e ↦ rw (e, keep) (ground (arith, any-filled_last t ts f))
  | inr e ↦ rw (e, keep) (any-filled_last t ts f)
]

map-append_last :
    (f : Text → Text) (ts : List Text) (t : Text) → map f (ts ++ (t ∷ [])) ≡ map f ts ++ (f t ∷ [])
map-append_last f [] t = refl
map-append_last f (u ∷ ts) t = ap (λ r. f u ∷ r) (map-append_last f ts t)

-- No product is polled twice in a cycle, and a legacy value that is not blank is polled, whatever the
-- list of the configuration says.
pub resolve_poll_sources-IsUnique :
    (trim : Text → Text) (sources legacy : Text)
    → IsUnique (resolve_poll_sources trim sources (some legacy))
      × (is_filled (trim legacy) ≡ true
          → any (text_eq (trim legacy)) (resolve_poll_sources trim sources (some legacy)) ≡ true)
unfolding resolve_poll_sources
resolve_poll_sources-IsUnique trim sources legacy = (
  unique-IsUnique [] (keep is_filled (map trim (split sources ++ (legacy ∷ [])))),
  λ f.
      any-unique_of (trim legacy) [] (keep is_filled (map trim (split sources ++ (legacy ∷ []))))
        refl
        (rw (map-append_last trim (split sources) legacy)
          (any-filled_last (trim legacy) (map trim (split sources)) f)),
)
