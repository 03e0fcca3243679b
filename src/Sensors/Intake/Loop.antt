-- ===== src/Sensors/Intake/Loop.antt =====
-- What a request body can do to the stored readings.
use open_fire_watch.Base.{
  ℕ, ◌+◌, String, Bool, Option, none, some, List, [], Option-cases, Bool-cases, inl, inr,
}
use open_fire_watch.Base.Json.{Json, Items, nil, cons}
use open_fire_watch.Store.{Store}
use open_fire_watch.SensorAlert
use open_fire_watch.Sensors.Registry.{Registry, record_reading}
use open_fire_watch.Sensors.Registry.Readings.{IsUniqueReadings, record_reading-IsUniqueReadings}
use open_fire_watch.Sensors.Intake.{
  Texts, intake, intake_items, ingest, normalise_intake_body, reading_of, with_unknown,
}

module _ (texts : Texts) (env : SensorAlert.Environment) (fails : SensorAlert.Stage → Bool) where
  intake-IsUniqueReadings :
      (items : Items) (accepted : ℕ) (unknown : List String) (g : Registry) (s : Store)
      → IsUniqueReadings g.readings
      → IsUniqueReadings (intake texts env fails accepted unknown items g s).1.readings
  unfolding intake
  intake-IsUniqueReadings nil accepted unknown g s h = h
  intake-IsUniqueReadings (cons raw rest) accepted unknown g s h =
      elim (Option-cases (reading_of texts raw)) [
        | inl e ↦ rw (e, intake) h
        | inr (dto, e) ↦
            let kept = record_reading-IsUniqueReadings env fails dto g s h in
            let (known, g', s') = record_reading env fails dto g s in
            elim (Bool-cases known) [
              | inl k ↦
                  rw (e, k, intake) (intake-IsUniqueReadings rest (accepted + 1) unknown g' s' kept)
              | inr k ↦
                  rw (e, k, intake)
                    (intake-IsUniqueReadings rest accepted (with_unknown dto.device_id unknown) g'
                      s' kept)
            ]
      ]

  -- Whatever body is posted, taken, refused, or refused half-way, no sensor has two readings for one
  -- time after it, if none had before.
  pub ingest-IsUniqueReadings :
      (now : String) (body : Json) (g : Registry) (s : Store)
      → IsUniqueReadings g.readings
      → IsUniqueReadings (ingest texts env fails now body g s).1.readings
  unfolding ingest
  ingest-IsUniqueReadings now body g s h = by_items (normalise_intake_body now body)
    where
      by_items :
          (o : Option Items) → IsUniqueReadings (intake_items texts env fails o g s).1.readings
      by_items none = h
      by_items (some nil) = h
      by_items (some (cons raw rest)) = intake-IsUniqueReadings (cons raw rest) 0 [] g s h
