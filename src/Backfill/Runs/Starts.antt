-- ===== src/Backfill/Runs/Starts.antt =====
-- How many runs start when calls overlap, and when none ever does.
use open_fire_watch.Base.{
  ℕ, zero, suc, ◌+◌, ◌≤◌, ◌≡◌, refl, ap, ◌∙◌, Bool, true, false, not, none, some, List, [], ◌∷◌,
  ◌++◌, All, length, first, keep, Option, if◌then◌else◌, arith, Bool-cases, inl, inr,
}
use open_fire_watch.Backfill.Runs.{
  BackfillRun, Register, Refusal, refused, queue_failed, is_active_status, range_refusal,
  active_run, max_range_days, Request, Progress, asked, cleared, recorded, answered, checked,
  run_of, advance, step, play,
}

abbrev pub actives : Register → ℕ
actives g = length (keep (λ r. is_active_status r.status) g.runs)

-- The range lies between the first day of the archive and today, in order, and is no longer than five
-- years.
abbrev pub IsRange : ℕ → Request → Type 0
IsRange archive_begins c =
    (archive_begins ≤ c.from)
    × (c.from ≤ c.to)
    × (c.to ≤ c.today)
    × (c.to ≤ c.from + max_range_days)

range_refusal_lem : (a : ℕ) (c : Request) → IsRange a c → range_refusal a c.today c.from c.to ≡ none
unfolding range_refusal
range_refusal_lem a c h = ground arith

no_first : (rs : List BackfillRun) → first rs ≡ none → length rs ≡ 0
no_first [] h = refl
no_first (r ∷ rs) h = cc

none_active : (g : Register) → active_run g ≡ none → actives g ≡ 0
none_active g a = no_first (keep (λ r. is_active_status r.status) g.runs) a

-- A call that has inserted its run, or has its answer, inserts none any more.
abbrev is_settled : Progress → Bool
is_settled (recorded run) = true
is_settled (answered answer) = true
is_settled _ = false

abbrev AllSettled : List (Request × Progress) → Type 0
AllSettled = All (λ (call : Request × Progress). is_settled call.1 ≡ true)

-- A call that has inserted nothing, and is not about to.
abbrev pub is_turned_away : Progress → Bool
is_turned_away asked = true
is_turned_away (answered (refused refusal)) = true
is_turned_away _ = false

abbrev pub AllTurnedAway : List (Request × Progress) → Type 0
AllTurnedAway = All (λ (call : Request × Progress). is_turned_away call.1 ≡ true)

module _ (archive_begins : ℕ) where
  advance-settled :
      (c : Request) (p : Progress) (g : Register)
      → is_settled p ≡ true
      → (is_settled (advance archive_begins c p g).0 ≡ true)
        × ((advance archive_begins c p g).1.runs ≡ g.runs)
  advance-settled c asked g h = cc
  advance-settled c cleared g h = cc
  advance-settled c (answered answer) g h = (refl, refl)
  advance-settled c (recorded run) g h = elim (Bool-cases c.queue_fails) [
    | inl q ↦ rw q (refl, refl)
    | inr q ↦ rw q (refl, refl)
  ]

  step-settled :
      (i : ℕ) (calls : List (Request × Progress)) (g : Register)
      → AllSettled calls
      → AllSettled (step archive_begins i calls g).0
        × ((step archive_begins i calls g).1.runs ≡ g.runs)
  unfolding step
  step-settled i [] g h = (tt, refl)
  step-settled zero ((c, p) ∷ calls) g h =
      let (settled, same) = advance-settled c p g h.0 in ((settled, h.1), same)
  step-settled (suc i) (call ∷ calls) g h =
      let (settled, same) = step-settled i calls g h.1 in ((h.0, settled), same)

  play-settled :
      (order : List ℕ) (calls : List (Request × Progress)) (g : Register)
      → AllSettled calls
      → (play archive_begins order calls g).1.runs ≡ g.runs
  unfolding play
  play-settled [] calls g h = refl
  play-settled (i ∷ order) calls g h =
      let (settled, same) = step-settled i calls g h in play-settled order _ _ settled ∙ same

  actives-settled :
      (n : ℕ) (order : List ℕ) (calls : List (Request × Progress)) (g : Register)
      → AllSettled calls
      → actives g ≡ n
      → actives (play archive_begins order calls g).1 ≡ n
  actives-settled n order calls g h e =
      ap (λ rs. length (keep (λ (r : BackfillRun). is_active_status r.status) rs))
        (play-settled order calls g h)
      ∙ e

  advance-turned_away :
      (c : Request) (p : Progress) (g : Register) (run : BackfillRun)
      → active_run g ≡ some run
      → is_turned_away p ≡ true
      → (is_turned_away (advance archive_begins c p g).0 ≡ true)
        × ((advance archive_begins c p g).1 ≡ g)
  advance-turned_away c asked g run a h =
      (refusing (range_refusal archive_begins c.today c.from c.to), refl)
    where
      refusing : (o : Option Refusal) → is_turned_away (checked o (active_run g)) ≡ true
      refusing (some refusal) = refl
      refusing none = rw a refl
  advance-turned_away c (answered answer) g run a h = (h, refl)
  advance-turned_away c cleared g run a h = cc
  advance-turned_away c (recorded other) g run a h = cc

  step-turned_away :
      (i : ℕ) (calls : List (Request × Progress)) (g : Register) (run : BackfillRun)
      → active_run g ≡ some run
      → AllTurnedAway calls
      → AllTurnedAway (step archive_begins i calls g).0 × ((step archive_begins i calls g).1 ≡ g)
  unfolding step
  step-turned_away i [] g run a h = (tt, refl)
  step-turned_away zero ((c, p) ∷ calls) g run a h =
      let (away, same) = advance-turned_away c p g run a h.0 in ((away, h.1), same)
  step-turned_away (suc i) (call ∷ calls) g run a h =
      let (away, same) = step-turned_away i calls g run a h.1 in ((h.0, away), same)

  play-turned_away :
      (order : List ℕ) (calls : List (Request × Progress)) (g : Register) (run : BackfillRun)
      → active_run g ≡ some run
      → AllTurnedAway calls
      → AllTurnedAway (play archive_begins order calls g).0
        × ((play archive_begins order calls g).1 ≡ g)
  unfolding play
  play-turned_away [] calls g run a h = (h, refl)
  play-turned_away (i ∷ order) calls g run a h =
      let (away, same) = step-turned_away i calls g run a h in
      let (later_away, later_same) = play-turned_away order _ _ run (ap active_run same ∙ a) away in
      (later_away, later_same ∙ same)

  -- The first steps of two calls: both checks and both insertions, of the call `x` first. Serial, each
  -- call makes both its steps in a row; else both check before either inserts, and `y` inserts first.
  abbrev place : Bool → ℕ
  place true = 0
  place false = 1

  abbrev pub first_steps : Bool → Bool → Bool → List ℕ
  first_steps true x y = place x ∷ place x ∷ place (not x) ∷ place (not x) ∷ []
  first_steps false x y = place x ∷ place (not x) ∷ place y ∷ place (not y) ∷ []

  -- Of two calls with a range that the archive holds, whichever comes first and whatever the queue
  -- does, one run is active afterwards if the first call inserts before the second checks, and two are
  -- if both check before either inserts, provided none was active before.
  pub play-actives :
      (serial x y : Bool) (rest : List ℕ) (c d : Request) (g : Register)
      → IsRange archive_begins c
      → IsRange archive_begins d
      → active_run g ≡ none
      → actives
          (play archive_begins (first_steps serial x y ++ rest) ((c, asked) ∷ (d, asked) ∷ []) g).1
        ≡ (if serial then 1 else 2)
  unfolding play step
  play-actives true true y rest c d g hc hd a =
      rw (range_refusal_lem archive_begins c hc, range_refusal_lem archive_begins d hd, a)
        (actives-settled 1 rest _ _ (refl, (refl, tt)) (omega (arith, none_active g a)))
  play-actives true false y rest c d g hc hd a =
      rw (range_refusal_lem archive_begins c hc, range_refusal_lem archive_begins d hd, a)
        (actives-settled 1 rest _ _ (refl, (refl, tt)) (omega (arith, none_active g a)))
  play-actives false true true rest c d g hc hd a =
      rw (range_refusal_lem archive_begins c hc, range_refusal_lem archive_begins d hd, a)
        (actives-settled 2 rest _ _ (refl, (refl, tt)) (omega (arith, none_active g a)))
  play-actives false true false rest c d g hc hd a =
      rw (range_refusal_lem archive_begins c hc, range_refusal_lem archive_begins d hd, a)
        (actives-settled 2 rest _ _ (refl, (refl, tt)) (omega (arith, none_active g a)))
  play-actives false false true rest c d g hc hd a =
      rw (range_refusal_lem archive_begins c hc, range_refusal_lem archive_begins d hd, a)
        (actives-settled 2 rest _ _ (refl, (refl, tt)) (omega (arith, none_active g a)))
  play-actives false false false rest c d g hc hd a =
      rw (range_refusal_lem archive_begins c hc, range_refusal_lem archive_begins d hd, a)
        (actives-settled 2 rest _ _ (refl, (refl, tt)) (omega (arith, none_active g a)))

  -- A call with a range that the archive holds, alone while no run is active, whose run cannot be
  -- handed to the queue leaves in the register a run that no worker has. While that run stands, no call
  -- that makes its check later starts one, whatever the order of the steps of such calls: the register
  -- and the queue stay as they are, and each of those calls is refused or still at its check.
  pub play-stuck :
      (c : Request) (g : Register) (order : List ℕ) (calls : List (Request × Progress))
      → IsRange archive_begins c
      → active_run g ≡ none
      → c.queue_fails ≡ true
      → AllTurnedAway calls
      → let left = play archive_begins (0 ∷ 0 ∷ 0 ∷ []) ((c, asked) ∷ []) g in
        (left.0 ≡ (c, answered (refused queue_failed)) ∷ [])
        × (left.1.runs ≡ run_of c g ∷ g.runs)
        × (left.1.jobs ≡ g.jobs)
        × ((play archive_begins order calls left.1).1 ≡ left.1)
        × AllTurnedAway (play archive_begins order calls left.1).0
  unfolding play step
  play-stuck c g order calls range a fails away =
      let g' : Register = record g { runs = run_of c g ∷ g.runs; next_id = g.next_id + 1 } in
      let (later, same) = play-turned_away order calls g' (run_of c g) refl away in
      rw (range_refusal_lem archive_begins c range, a, fails) (refl, refl, refl, same, later)
