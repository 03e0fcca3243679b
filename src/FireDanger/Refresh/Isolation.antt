-- ===== src/FireDanger/Refresh/Isolation.antt =====
-- What one zone's failure costs the others, and which days a refresh publishes.
use mathlib.Core.List.{append-nil}
use open_fire_watch.Base.{
  ℕ, ◌≡◌, ◌≢◌, refl, ◌∙◌, true, false, Option, none, some, List, [], ◌∷◌, ◌++◌, All, length,
}
use open_fire_watch.Base.Text.{Text}
use open_fire_watch.Base.Tried.{Tried, ok, thrown}
use open_fire_watch.FireDanger.Numbers.{Arithmetic}
use open_fire_watch.FireDanger.Indices.{FireWeatherIndices}
use open_fire_watch.FireDanger.Daily.{FireWeatherHour}
use open_fire_watch.FireDanger.Refresh.{
  ZonePoint, ZoneFigures, Published, Environment, no_figures, text_leb, find_index, from_index,
  drop, days_from, stored, published, zone_results, zone_effect, each_zone, figures_of, series_of,
  refresh_fire_danger,
}

module _ {N : Type 0} where
  -- The day before, if there is one.
  abbrev pub last_of : List (FireWeatherIndices N) → List (FireWeatherIndices N)
  last_of [] = []
  last_of (d ∷ []) = d ∷ []
  last_of (d ∷ e ∷ ds) = last_of (e ∷ ds)

  -- What travels of the days before today and the days from today on.
  abbrev pub shown :
      List (FireWeatherIndices N) → List (FireWeatherIndices N) → List (FireWeatherIndices N)
  shown past [] = past
  shown past (d ∷ ds) = last_of past ++ d ∷ ds

  abbrev pub StartsFrom : Text → List (FireWeatherIndices N) → Type 0
  StartsFrom today [] = Unit
  StartsFrom today (d ∷ ds) = text_leb today d.date ≡ true

  abbrev pub IsPast : Text → FireWeatherIndices N → Type 0
  IsPast today d = text_leb today d.date ≡ false

  find_index-past :
      (today : Text) (past : List (FireWeatherIndices N))
      → All (IsPast today) past
      → find_index today past ≡ none
  find_index-past today [] h = refl
  find_index-past today (d ∷ ds) h = rw (h.0, find_index-past today ds h.1)

  find_index-append :
      (today : Text) (past : List (FireWeatherIndices N)) (d : FireWeatherIndices N)
      (ds : List (FireWeatherIndices N))
      → All (IsPast today) past
      → text_leb today d.date ≡ true
      → find_index today (past ++ d ∷ ds) ≡ some (length past)
  find_index-append today [] d ds h e = rw e
  find_index-append today (p ∷ ps) d ds h e = rw (h.0, find_index-append today ps d ds h.1 e)

  drop-last_of :
      (past rest : List (FireWeatherIndices N))
      → drop (from_index (some (length past))) (past ++ rest) ≡ last_of past ++ rest
  drop-last_of [] rest = refl
  drop-last_of (d ∷ []) rest = refl
  drop-last_of (d ∷ e ∷ ds) rest = drop-last_of (e ∷ ds) rest

  -- Of a series whose first days lie before today and whose next day does not, the snapshot holds
  -- the last of the earlier days and all that follow. A series that ends before today goes into it
  -- whole.
  pub days_from-shown :
      (today : Text) (past rest : List (FireWeatherIndices N))
      → All (IsPast today) past
      → StartsFrom today rest
      → days_from today (past ++ rest) ≡ shown past rest
  unfolding days_from
  days_from-shown today past [] h s = rw (append-nil past, find_index-past today past h)
  days_from-shown today past (d ∷ ds) h s =
      rw (find_index-append today past d ds h s) (drop-last_of past (d ∷ ds))

module _ {N : Type 0} ⦃R : Arithmetic N⦄ where
  abbrev answered_zone :
      Text → ZonePoint N → Tried Text (List (FireWeatherHour N)) → List (ZoneFigures N)
  answered_zone today zone (ok hours) = figures_of today zone (series_of hours) ∷ []
  answered_zone today zone (thrown e) = []

  -- The figures of the zones whose weather was fetched.
  abbrev pub answered : Environment N → List (ZonePoint N) → List (ZoneFigures N)
  answered env [] = []
  answered env (z ∷ zs) =
      answered_zone env.today z (env.fetch z.latitude z.longitude) ++ answered env zs

  zone_results-answered_zone :
      (env : Environment N) (z : ZonePoint N) (a : Tried Text (List (FireWeatherHour N)))
      → zone_results env z a ≡ answered_zone env.today z a
  zone_results-answered_zone env z (ok hours) = refl
  zone_results-answered_zone env z (thrown e) = refl

  each_zone-answered :
      (env : Environment N) (zs : List (ZonePoint N)) (p : Published N)
      → (each_zone env zs p).0 ≡ answered env zs
  unfolding each_zone
  each_zone-answered env [] p = refl
  each_zone-answered env (z ∷ zs) p =
      rw (zone_results-answered_zone env z _, each_zone-answered env zs _)

  published-some :
      (env : Environment N) (results : List (ZoneFigures N)) (p : Published N)
      → env.redis_fails ≡ none
      → results ≢ []
      → ((published env results p env.redis_fails).0 ≡ ok tt)
        × ((published env results p env.redis_fails).1.snapshot ≡ some results)
  published-some env [] p h k = elim (k refl) [ ]
  published-some env (r ∷ rs) p h k = rw h (refl, refl)

  -- A zone whose weather cannot be fetched, or whose rows cannot be stored, costs no other zone its
  -- figure: if some zone's weather was fetched and Redis takes the snapshot, the refresh publishes
  -- the figures of exactly the zones whose weather was fetched.
  pub refresh_fire_danger-answered :
      (env : Environment N) (zones : List (ZonePoint N)) (p : Published N)
      → env.redis_fails ≡ none
      → answered env zones ≢ []
      → ((refresh_fire_danger env zones p).0 ≡ ok tt)
        × ((refresh_fire_danger env zones p).1.snapshot ≡ some (answered env zones))
  unfolding refresh_fire_danger
  refresh_fire_danger-answered env [] p h k = elim (k refl) [ ]
  refresh_fire_danger-answered env (z ∷ zs) p h k =
      rw (each_zone-answered env (z ∷ zs) p) (published-some env (answered env (z ∷ zs)) _ h k)

  stored-snapshot :
      (zone : ℕ) (fails : Option Text) (ds : List (FireWeatherIndices N)) (p : Published N)
      → (stored zone fails ds p).snapshot ≡ p.snapshot
  stored-snapshot zone fails [] p = refl
  stored-snapshot zone none (d ∷ ds) p = refl
  stored-snapshot zone (some e) (d ∷ ds) p = refl

  zone_effect-snapshot :
      (env : Environment N) (z : ZonePoint N) (a : Tried Text (List (FireWeatherHour N)))
      (p : Published N)
      → (zone_effect env z a p).snapshot ≡ p.snapshot
  zone_effect-snapshot env z (thrown e) p = refl
  zone_effect-snapshot env z (ok hours) p = stored-snapshot z.id _ _ p

  each_zone-snapshot :
      (env : Environment N) (zs : List (ZonePoint N)) (p : Published N)
      → (each_zone env zs p).1.snapshot ≡ p.snapshot
  unfolding each_zone
  each_zone-snapshot env [] p = refl
  each_zone-snapshot env (z ∷ zs) p =
      each_zone-snapshot env zs _ ∙ zone_effect-snapshot env z (env.fetch z.latitude z.longitude) p

  -- A refresh that computes no zone's figure throws, so that it is tried again, and the snapshot of
  -- the refresh before it stands.
  pub refresh_fire_danger-none :
      (env : Environment N) (z : ZonePoint N) (zones : List (ZonePoint N)) (p : Published N)
      → answered env (z ∷ zones) ≡ []
      → ((refresh_fire_danger env (z ∷ zones) p).0 ≡ thrown no_figures)
        × ((refresh_fire_danger env (z ∷ zones) p).1.snapshot ≡ p.snapshot)
  unfolding refresh_fire_danger
  refresh_fire_danger-none env z zones p h =
      rw (each_zone-answered env (z ∷ zones) p, h) (refl, each_zone-snapshot env (z ∷ zones) p)
