-- ===== src/Evaluation/Decision/Laws.antt =====
-- What the rule of alert-decision.ts guarantees.
use open_fire_watch.Base.{
  ◌≡◌, refl, String, Bool, true, false, Option, none, some, arith, str_eq, is_some, ◌∙◌, ◌&&◌, ◌||◌,
  not,
}
use open_fire_watch.Base.Int.{ℤ}
use open_fire_watch.Evaluation.Level.{info, critical_smouldering, is_critical, profile_for}
use open_fire_watch.Evaluation.Level.Cases.{
  pages_level, is_critical_lem, ProfileCase, profile_cases, phosphorus, forest, wildfire, depot,
  other,
}
use open_fire_watch.Base.Text.{Text}
use open_fire_watch.Evaluation.Credible.{is_credible_detection}
use open_fire_watch.Evaluation.Decision.{
  Conditions, SmoulderingEvidence, DecisionInput, Decision, window_open, apply_profile,
  conditions_of, decide_for, decide,
}

-- Whether a detection inside a zone with this hazard pages a responder, by the hazards' own words:
-- an ammunition depot always does, phosphorus and a contaminated forest while the window is open,
-- and every hazard but plain phosphorus on a credible detection.
abbrev pub pages : String → Bool → Bool → Bool
pages hazard is_open credible =
    str_eq hazard "ammunition_depot"
    || is_open && (str_eq hazard "white_phosphorus" || str_eq hazard "white_phosphorus_forest")
    || credible && not (str_eq hazard "white_phosphorus")

module _ (confidence : Option Text) (c : Conditions) (source : String) where
  apply : String → Bool → Bool → Decision
  apply hazard is_open credible =
      apply_profile (profile_for hazard) is_open credible confidence c source

  pages_level-apply :
      (hazard : String)
      → ProfileCase hazard
      → (is_open credible : Bool)
      → pages_level (apply hazard is_open credible).level ≡ pages hazard is_open credible
  unfolding apply apply_profile
  pages_level-apply hazard (phosphorus e p) true true = rw (p, e)
  pages_level-apply hazard (phosphorus e p) false false = rw (p, e)
  pages_level-apply hazard (phosphorus e p) _ _ = rw (p, e)
  pages_level-apply hazard (forest e p) true true = rw (p, e)
  pages_level-apply hazard (forest e p) false false = rw (p, e)
  pages_level-apply hazard (forest e p) _ _ = rw (p, e)
  pages_level-apply hazard (depot e p) true true = rw (p, e)
  pages_level-apply hazard (depot e p) false false = rw (p, e)
  pages_level-apply hazard (depot e p) _ _ = rw (p, e)
  pages_level-apply hazard (wildfire (p, q, d) e) true true = simp (e, p, q, d)
  pages_level-apply hazard (wildfire (p, q, d) e) false false = simp (e, p, q, d)
  pages_level-apply hazard (wildfire (p, q, d) e) _ _ = simp (e, p, q, d)
  pages_level-apply hazard (other (p, q, d) e) true true = simp (e, p, q, d)
  pages_level-apply hazard (other (p, q, d) e) false false = simp (e, p, q, d)
  pages_level-apply hazard (other (p, q, d) e) _ _ = simp (e, p, q, d)

-- Whether a detection pages a responder: never outside every zone, always where persistence was
-- observed, and otherwise by the hazard's gates.
abbrev pub pages_for : Option String → Bool → Bool → Bool → Bool
pages_for none observed is_open credible = false
pages_for (some hazard) observed is_open credible = observed || pages hazard is_open credible

module _ (to_number : Text → Option ℤ) where
  decide_for-pages :
      (hazard : Option String) (evidence : Option SmoulderingEvidence) (confidence : Option Text)
      (c : Conditions) (source : String)
      → is_critical (decide_for to_number hazard evidence confidence c source).level
        ≡ pages_for hazard
            (is_some evidence)
            (window_open c)
            (is_credible_detection to_number confidence)
  unfolding decide_for apply
  decide_for-pages none evidence confidence c source = is_critical_lem info
  decide_for-pages (some h) (some e) confidence c source = is_critical_lem critical_smouldering
  decide_for-pages (some h) none confidence c source =
      is_critical_lem _
      ∙ pages_level-apply confidence c source h (profile_cases h) (window_open c)
          (is_credible_detection to_number confidence)

  decide_for-conditions :
      (hazard : Option String) (evidence : Option SmoulderingEvidence) (confidence : Option Text)
      (c : Conditions) (source : String)
      → (decide_for to_number hazard evidence confidence c source).conditions ≡ c
  unfolding decide_for apply_profile
  decide_for-conditions none evidence confidence c source = refl
  decide_for-conditions (some h) (some e) confidence c source = refl
  decide_for-conditions (some h) none confidence c source = ground arith

  pub decide-conditions :
      (input : DecisionInput)
      → (decide to_number input).conditions ≡ conditions_of input.local input.regional
  unfolding decide
  decide-conditions input = decide_for-conditions _ _ _ _ _

  -- The verdict is critical exactly when the detection lies in a zone and either persistence was
  -- observed there or the gates of the zone's hazard are passed, under the decided conditions.
  pub decide-pages :
      (input : DecisionInput)
      → let d = decide to_number input in
        is_critical d.level
        ≡ pages_for input.hazard_type
            (is_some input.smouldering)
            (window_open d.conditions)
            (is_credible_detection to_number input.confidence)
  unfolding decide
  decide-pages input = rw decide_for-conditions (decide_for-pages _ _ _ _ _)
