-- ===== src/RiskZones/Keys/Free.antt =====
-- The loop that looks for a free key ends, and what it finds is free.
use open_fire_watch.Base.{
  ℕ, zero, suc, ◌+◌, ◌≤◌, ◌<◌, ◌≡◌, ◌≢◌, refl, ap, sym, ◌∙◌, ◌⊎◌, Bool, true, false, ◌||◌, some,
  List, [], ◌∷◌, ◌++◌, keep, any, length, arith, Bool-cases, inl, inr,
}
use open_fire_watch.Base.Text.{Text, text_eq, starts, text_eq_refl, eq_of_text_eq, append_cancel}
use open_fire_watch.RiskZones.Slug.{dash}
use open_fire_watch.RiskZones.Keys.{is_related, candidate, search_key, among, reserve_key}

-- One occurrence taken out.
remove : Text → List Text → List Text
remove k [] = []
remove k (t ∷ ts) = elim (text_eq k t) [ true ↦ ts | false ↦ t ∷ remove k ts ]

length-remove :
    (k : Text) (ts : List Text) → any (text_eq k) ts ≡ true → length (remove k ts) + 1 ≡ length ts
unfolding remove
length-remove k [] h = cc
length-remove k (t ∷ ts) h = elim (Bool-cases (text_eq k t)) [
  | inl e ↦ rw (e, remove) (omega arith)
  | inr e ↦ rw (e, remove) (omega (arith, length-remove k ts (rw e at h)))
]

any-remove :
    (j k : Text) (ts : List Text)
    → j ≢ k
    → any (text_eq j) ts ≡ true
    → any (text_eq j) (remove k ts) ≡ true
unfolding remove
any-remove j k [] d h = cc
any-remove j k (t ∷ ts) d h = elim (Bool-cases (text_eq k t)) [
  | inl e ↦ rw (e, remove) (ground (arith, h, eq_of_text_eq k t e, eq_of_text_eq j t))
  | inr e ↦ rw (e, remove) (ground (arith, any-remove j k ts d))
]

starts-append : (s t : Text) → starts s (s ++ t) ≡ true
starts-append [] t = refl
starts-append (c ∷ s) t = ground (arith, starts-append s t)

any-keep :
    (k : Text) (test : Text → Bool) (ts : List Text)
    → test k ≡ true
    → any (text_eq k) (keep test ts) ≡ any (text_eq k) ts
any-keep k test [] h = refl
any-keep k test (t ∷ ts) h = elim (Bool-cases (test t)) [
  | inl e ↦ rw (e, keep) (ap (λ b. text_eq k t || b) (any-keep k test ts h))
  | inr e ↦ rw (e, keep) (any-keep k test ts h ∙ rw (other k t e) refl)
]
  where
    other : (j t : Text) → test t ≡ false → text_eq k t ≡ false
    other j t e = elim (Bool-cases (text_eq k t)) [
      | inl q ↦ cc (h, e, ap test (eq_of_text_eq k t q))
      | inr q ↦ q
    ]

module _ (show : ℕ → Text) (show_injective : (m n : ℕ) → show m ≡ show n → m ≡ n) where
  candidate_injective :
      (base : Text) (m n : ℕ) → m < n → candidate show base n ≢ candidate show base m
  candidate_injective base m n lt e =
      absurd (
        omega (arith, show_injective n m (append_cancel (base ++ (dash ∷ [])) (show n) (show m) e)))

  -- A row of candidates that are all taken.
  AllTaken : Text → List Text → ℕ → ℕ → Type 0
  AllTaken base taken zero n = Unit
  AllTaken base taken (suc k) n =
      (any (text_eq (candidate show base n)) taken ≡ true) × AllTaken base taken k (n + 1)

  AllTaken-remove :
      (base : Text) (taken : List Text) (k m n : ℕ)
      → m < n
      → AllTaken base taken k n
      → AllTaken base (remove (candidate show base m) taken) k n
  unfolding AllTaken
  AllTaken-remove base taken zero m n lt h = tt
  AllTaken-remove base taken (suc k) m n lt h = (
    any-remove _ (candidate show base m) taken (candidate_injective base m n lt) h.0,
    AllTaken-remove base taken k m (n + 1) (omega arith) h.1,
  )

  AllTaken-le :
      (base : Text) (k : ℕ) (taken : List Text) (n : ℕ) → AllTaken base taken k n → k ≤ length taken
  unfolding AllTaken
  AllTaken-le base zero taken n h = omega arith
  AllTaken-le base (suc k) taken n h =
      let c = candidate show base n in
      omega (
        arith,
        length-remove c taken h.0,
        AllTaken-le base k (remove c taken) (n + 1)
            (AllTaken-remove base taken k n (n + 1) (omega arith) h.1),
      )

  -- The loop finds a free candidate, or has met as many taken ones as it had rounds.
  search_key-cases :
      (base : Text) (taken : List Text) (fuel n : ℕ)
      → ((m : ℕ) × (search_key show base taken fuel n ≡ some (candidate show base m))
          × (any (text_eq (candidate show base m)) taken ≡ false))
        ⊎ AllTaken base taken fuel n
  unfolding search_key AllTaken
  search_key-cases base taken zero n = inr tt
  search_key-cases base taken (suc fuel) n =
      elim (Bool-cases (any (text_eq (candidate show base n)) taken)) [
        | inl t ↦ elim (search_key-cases base taken fuel (n + 1)) [
          | inl (m, found, free) ↦ inl (m, rw (t, search_key) found, free)
          | inr all ↦ inr (t, all)
        ]
        | inr f ↦ inl (n, rw (f, search_key) refl, f)
      ]

  search_key-total :
      (base : Text) (taken : List Text) (n : ℕ)
      → (m : ℕ) × (search_key show base taken (length taken + 1) n ≡ some (candidate show base m))
        × (any (text_eq (candidate show base m)) taken ≡ false)
  search_key-total base taken n = elim (search_key-cases base taken (length taken + 1) n) [
    | inl found ↦ found
    | inr all ↦ absurd (omega (arith, AllTaken-le base (length taken + 1) taken n all))
  ]

  among-free :
      (base : Text) (names taken : List Text)
      → keep (is_related base) names ≡ taken
      → (key : Text) × (among show base taken ≡ some key) × (any (text_eq key) names ≡ false)
  among-free base names [] e = (
    base,
    refl,
    sym (any-keep base (is_related base) names (ground (arith, text_eq_refl base))) ∙ rw e refl,
  )
  among-free base names (t ∷ ts) e =
      let (m, found, free) = search_key-total base (t ∷ ts) 2 in
      let k = candidate show base m in
      let related : is_related base k ≡ true =
        ground (arith, starts-append (base ++ (dash ∷ [])) (show m)) in
      (k, found, sym (any-keep k (is_related base) names related) ∙ rw e free)

  -- The search for a key ends, and the key that it returns is none of the names in use.
  pub reserve_key-free :
      (base : Text) (names : List Text)
      → (key : Text) × (reserve_key show base names ≡ some key) × (any (text_eq key) names ≡ false)
  unfolding reserve_key
  reserve_key-free base names = among-free base names (keep (is_related base) names) refl
