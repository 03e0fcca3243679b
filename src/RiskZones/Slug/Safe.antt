-- ===== src/RiskZones/Slug/Safe.antt =====
-- What every key is made of.
use open_fire_watch.Base.{
  ℕ, zero, suc, ◌≤◌, ◌≡◌, refl, Bool, true, false, ◌||◌, not, [], ◌∷◌, ◌==◌, keep, take, length,
  All, arith, Bool-cases, inl, inr, length-take-le,
}
use open_fire_watch.Base.Text.{Text}
use open_fire_watch.RiskZones.Slug.{
  is_mark, spell_out, dash, is_plain, dashed, without_start, without_end, before, or_zone, max_slug,
  slugify,
}

-- A letter, a digit or a dash.
abbrev pub is_safe : ℕ → Bool
is_safe c = is_plain c || c == dash

abbrev pub AllSafe : Text → Type 0
AllSafe = All (λ c. is_safe c ≡ true)

-- Empty, or with another start than a dash.
abbrev StartsPlain : Text → Type 0
StartsPlain [] = Unit
StartsPlain (c ∷ s) = (c == dash) ≡ false

-- Between 1 and 60 letters, digits and dashes, the first no dash.
abbrev pub IsSlug : Text → Type 0
IsSlug s = AllSafe s × StartsPlain s × (1 ≤ length s) × (length s ≤ max_slug)

dashed-AllSafe : (in_run : Bool) (s : Text) → AllSafe (dashed in_run s)
unfolding dashed
dashed-AllSafe in_run [] = tt
dashed-AllSafe in_run (c ∷ s) = elim (Bool-cases (is_plain c)) [
  | inl e ↦ rw (e, dashed) (rw e refl, dashed-AllSafe false s)
  | inr e ↦ elim (Bool-cases in_run) [
    | inl r ↦ rw (e, r, dashed) (dashed-AllSafe true s)
    | inr r ↦ rw (e, r, dashed) (refl, dashed-AllSafe true s)
  ]
]

without_start-AllSafe :
    (s : Text) → AllSafe s → AllSafe (without_start s) × StartsPlain (without_start s)
unfolding without_start
without_start-AllSafe [] h = (tt, tt)
without_start-AllSafe (c ∷ s) h = elim (Bool-cases (c == dash)) [
  | inl e ↦ rw (e, without_start) (without_start-AllSafe s h.1)
  | inr e ↦ rw (e, without_start) (h, e)
]

before-AllSafe : (c : ℕ) (s : Text) → is_safe c ≡ true → AllSafe s → AllSafe (before c s)
before-AllSafe c [] h k = elim (Bool-cases (c == dash)) [ inl e ↦ rw e tt | inr e ↦ rw e (h, tt) ]
before-AllSafe c (d ∷ s) h k = (h, k)

before-StartsPlain : (c : ℕ) (s : Text) → (c == dash) ≡ false → StartsPlain (before c s)
before-StartsPlain c [] h = rw h h
before-StartsPlain c (d ∷ s) h = h

without_end-AllSafe : (s : Text) → AllSafe s → AllSafe (without_end s)
unfolding without_end
without_end-AllSafe [] h = tt
without_end-AllSafe (c ∷ s) h = before-AllSafe c (without_end s) h.0 (without_end-AllSafe s h.1)

without_end-StartsPlain : (s : Text) → StartsPlain s → StartsPlain (without_end s)
unfolding without_end
without_end-StartsPlain [] h = tt
without_end-StartsPlain (c ∷ s) h = before-StartsPlain c (without_end s) h

take-AllSafe : (n : ℕ) (s : Text) → AllSafe s → AllSafe (take n s)
take-AllSafe zero s h = tt
take-AllSafe (suc n) [] h = tt
take-AllSafe (suc n) (c ∷ s) h = (h.0, take-AllSafe n s h.1)

take-StartsPlain : (n : ℕ) (s : Text) → StartsPlain s → StartsPlain (take n s)
take-StartsPlain zero s h = tt
take-StartsPlain (suc n) [] h = tt
take-StartsPlain (suc n) (c ∷ s) h = h

or_zone-IsSlug : (s : Text) → AllSafe s → StartsPlain s → length s ≤ max_slug → IsSlug (or_zone s)
or_zone-IsSlug [] a p l = ((refl, (refl, (refl, (refl, tt)))), refl, omega arith, omega arith)
or_zone-IsSlug (c ∷ s) a p l = (a, p, omega arith, l)

plain-IsSlug :
    (plain : Text)
    → IsSlug (or_zone (take max_slug (without_end (without_start (dashed false plain)))))
plain-IsSlug plain =
    let t = dashed false plain in
    let (safe, start) = without_start-AllSafe t (dashed-AllSafe false plain) in
    let u = without_end (without_start t) in
    or_zone-IsSlug (take 60 u) (take-AllSafe 60 u (without_end-AllSafe (without_start t) safe))
      (take-StartsPlain 60 u (without_end-StartsPlain (without_start t) start))
      (length-take-le 60 u)

-- Whatever the label, its key is made of 1 to 60 letters from a to z, digits and dashes, and starts
-- with no dash; so it holds no wildcard of a pattern.
pub slugify-IsSlug : (lower nfd : Text → Text) (label : Text) → IsSlug (slugify lower nfd label)
unfolding slugify spell_out
slugify-IsSlug lower nfd label =
    plain-IsSlug (keep (λ c. not (is_mark c)) (nfd (spell_out (lower label))))
