-- ===== src/Notifications/Watchdog.antt =====
-- backend/src/notifications/ingestion-watchdog.service.ts: the dead-man's switch of the ingestion. A
-- check sees whether the conditions key exists, or nothing when Redis does not answer.
use open_fire_watch.Base.{
  ◌≡◌, refl, ap, Bool, true, false, ◌||◌, not, Option, none, some, List, [], ◌∷◌, if◌then◌else◌,
}
use open_fire_watch.Notifications.Dispatch.{Kind, ingestion_stalled, ingestion_recovered}

pub record Watchdog : Type 0 where
  pub stalled : Bool
  pub ever_seen_healthy : Bool

abbrev pub initial : Watchdog
initial = record { stalled = false; ever_seen_healthy = false }

unfoldable pub check : Option Bool → Watchdog → Watchdog × Option Kind
check none w = (w, none)
check (some true) w = (
  record { stalled = false; ever_seen_healthy = true },
  if w.stalled then some ingestion_recovered else none,
)
check (some false) w =
    if not w.ever_seen_healthy || w.stalled
    then (w, none)
    else (record w { stalled = true }, some ingestion_stalled)

abbrev pub consed : Option Kind → List Kind → List Kind
consed none ks = ks
consed (some k) ks = k ∷ ks

-- The announcements of a row of checks.
unfoldable pub watch : List (Option Bool) → Watchdog → List Kind
unfolding check
watch [] w = []
watch (seen ∷ rest) w = let (w', said) = check seen w in consed said (watch rest w')

-- The same, described: what is announced are the changes between the answers, from the first time
-- that ingestion was seen alive.
abbrev pub changes : Option Bool → List (Option Bool) → List Kind
changes last [] = []
changes last (none ∷ rest) = changes last rest
changes none (some alive ∷ rest) = changes (if alive then some true else none) rest
changes (some true) (some true ∷ rest) = changes (some true) rest
changes (some true) (some false ∷ rest) = ingestion_stalled ∷ changes (some false) rest
changes (some false) (some true ∷ rest) = ingestion_recovered ∷ changes (some true) rest
changes (some false) (some false ∷ rest) = changes (some false) rest

-- The watchdog's state for what was last seen.
abbrev pub knowing : Option Bool → Watchdog
knowing none = initial
knowing (some alive) = record { stalled = not alive; ever_seen_healthy = true }

watch-knowing :
    (last : Option Bool) (seen : List (Option Bool)) → watch seen (knowing last) ≡ changes last seen
unfolding watch
watch-knowing last [] = refl
watch-knowing none (none ∷ rest) = watch-knowing none rest
watch-knowing (some true) (none ∷ rest) = watch-knowing (some true) rest
watch-knowing (some false) (none ∷ rest) = watch-knowing (some false) rest
watch-knowing none (some true ∷ rest) = watch-knowing (some true) rest
watch-knowing none (some false ∷ rest) = watch-knowing none rest
watch-knowing (some true) (some true ∷ rest) = watch-knowing (some true) rest
watch-knowing (some true) (some false ∷ rest) =
    ap (◌∷◌ ingestion_stalled) (watch-knowing (some false) rest)
watch-knowing (some false) (some true ∷ rest) =
    ap (◌∷◌ ingestion_recovered) (watch-knowing (some true) rest)
watch-knowing (some false) (some false ∷ rest) = watch-knowing (some false) rest

-- From its start the watchdog announces exactly the changes between alive and stalled: nothing before
-- ingestion was first seen alive, nothing for a check that got no answer, and nothing while a state
-- lasts.
pub watch-changes : (seen : List (Option Bool)) → watch seen initial ≡ changes none seen
watch-changes seen = watch-knowing none seen

-- Announcements take turns, a stall first.
abbrev pub Alternates : Kind → Kind → List Kind → Type 0
Alternates this that [] = Unit
Alternates this that (k ∷ ks) = (k ≡ this) × Alternates that this ks

changes-Alternates :
    (seen : List (Option Bool))
    → Alternates ingestion_stalled ingestion_recovered (changes none seen)
      × Alternates ingestion_stalled ingestion_recovered (changes (some true) seen)
      × Alternates ingestion_recovered ingestion_stalled (changes (some false) seen)
changes-Alternates [] = (tt, tt, tt)
changes-Alternates (none ∷ rest) = changes-Alternates rest
changes-Alternates (some true ∷ rest) = let (a, b, c) = changes-Alternates rest in (b, b, (refl, b))
changes-Alternates (some false ∷ rest) =
    let (a, b, c) = changes-Alternates rest in (a, (refl, c), c)

-- The announcements take turns: the first is a stall, after a stall comes the recovery, and after a
-- recovery the next stall.
pub watch-Alternates :
    (seen : List (Option Bool))
    → Alternates ingestion_stalled ingestion_recovered (watch seen initial)
watch-Alternates seen = rw watch-changes (changes-Alternates seen).0
