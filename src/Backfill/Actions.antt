-- ===== src/Backfill/Actions.antt =====
-- The calls of a replay as actions on what it reads and writes: an error leaves what was written.
use open_fire_watch.Base.{Option, none, some, List}
use open_fire_watch.Base.Text.{Text}
use open_fire_watch.Base.Tried.{Tried, ok, thrown}
use open_fire_watch.Ingestion.Firms.{FirmsError}
use open_fire_watch.Ingestion.Queue.{Job}
use open_fire_watch.Backfill.Runs.{BackfillRun, ReplayError, upstream, firms}
use open_fire_watch.Backfill.Weather.{WeatherHour}

-- The row of the run, the table `zone_weather_history` and the queue.
pub record World : Type 0 where
  pub run : BackfillRun
  pub history : List WeatherHour
  pub jobs : List Job

abbrev pub Action : Type 0 → Type 0
Action A = World → Tried ReplayError A × World

module _ {A : Type 0} where
  unfoldable pub pure : A → Action A
  pure a w = (ok a, w)

  unfoldable pub raise : ReplayError → Action A
  raise e w = (thrown e, w)

  unfoldable pub gets : (World → A) → Action A
  gets f w = (ok (f w), w)

  unfoldable pub or_raise : Tried ReplayError A → Action A
  or_raise t w = (t, w)

infixl 5 ◌>>=◌ ◌>>◌
unfoldable pub ◌>>=◌ : {A B : Type 0} → Action A → (A → Action B) → Action B
◌>>=◌ m f w = let (t, w') = m w in elim t [ ok a ↦ f a w' | thrown e ↦ raise e w' ]

abbrev pub ◌>>◌ : {A B : Type 0} → Action A → Action B → Action B
m >> k = m >>= λ _. k

unfoldable pub modify : (World → World) → Action Unit
modify f w = (ok tt, f w)

abbrev pub edit_run : (BackfillRun → BackfillRun) → Action Unit
edit_run f = modify (λ w. record w { run = f w.run })

abbrev pub if_fails : Option Text → Action Unit
if_fails none = pure tt
if_fails (some message) = raise (upstream message)

abbrev pub as_firms : {A : Type 0} → Tried FirmsError A → Tried ReplayError A
as_firms (ok a) = ok a
as_firms (thrown e) = thrown (firms e)
