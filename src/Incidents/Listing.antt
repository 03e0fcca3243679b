-- ===== src/Incidents/Listing.antt =====
-- How often the listing counts a fire.
use open_fire_watch.Base.{
  ℕ, ◌+◌, ◌≤◌, ◌≡◌, refl, max, Bool, true, false, some, List, [], ◌∷◌, ◌++◌, map, length, keep,
  arith, if◌then◌else◌, Bool-cases, inl, inr,
}
use open_fire_watch.Store.{Store}
use open_fire_watch.RiskZones.Table.{ZoneRow}
use open_fire_watch.Incidents.{
  Incident, IncidentEntry, Sources, entry, zones_around, joined, entries, is_fire, is_fire_kind,
  summarise, list_incidents, IncidentTable,
}

abbrev fires_of : List IncidentEntry → ℕ
fires_of es = length (keep is_fire es)

fires_of-append : (es fs : List IncidentEntry) → fires_of (es ++ fs) ≡ fires_of es + fires_of fs
fires_of-append [] fs = omega arith
fires_of-append (e ∷ es) fs = elim (Bool-cases (is_fire e)) [
  | inl k ↦ rw (k, keep) (omega (arith, fires_of-append es fs))
  | inr k ↦ rw (k, keep) (fires_of-append es fs)
]

-- One for each active zone around the place, and one where there is none.
abbrev pub times_listed : Sources → Incident → ℕ
times_listed src i = max 1 (length (zones_around src i))

abbrev pub total_weight : Sources → List Incident → ℕ
total_weight src [] = 0
total_weight src (i ∷ rest) =
    (if is_fire_kind i.kind then times_listed src i else 0) + total_weight src rest

fires_of-map :
    (src : Sources) (i : Incident) (b : Bool) (zs : List ZoneRow)
    → is_fire_kind i.kind ≡ b
    → fires_of (map (λ q. entry src i (some q)) zs) ≡ (if b then length zs else 0)
fires_of-map src i true [] e = refl
fires_of-map src i false [] e = refl
fires_of-map src i true (z ∷ zs) e = rw (e, keep) (omega (arith, fires_of-map src i true zs e))
fires_of-map src i false (z ∷ zs) e = rw (e, keep) (fires_of-map src i false zs e)

fires_of-joined :
    (src : Sources) (i : Incident) (b : Bool) (zs : List ZoneRow)
    → is_fire_kind i.kind ≡ b
    → fires_of (joined src i zs) ≡ (if b then max 1 (length zs) else 0)
fires_of-joined src i true [] e = rw (e, keep) refl
fires_of-joined src i false [] e = rw (e, keep) refl
fires_of-joined src i true (z ∷ zs) e = omega (arith, fires_of-map src i true (z ∷ zs) e)
fires_of-joined src i false (z ∷ zs) e = fires_of-map src i false (z ∷ zs) e

fires_of-entries :
    (src : Sources) (rows : List Incident) → fires_of (entries src rows) ≡ total_weight src rows
unfolding entries
fires_of-entries src [] = refl
fires_of-entries src (i ∷ rest) = omega (
  arith,
  fires_of-append (joined src i (zones_around src i)) (entries src rest),
  fires_of-joined src i (is_fire_kind i.kind) (zones_around src i) refl,
  fires_of-entries src rest,
)

-- The summary counts each fire once for every active zone around its place, and once where there is
-- none; so a fire where two zones overlap counts twice.
pub list_incidents-fires :
    (src : Sources) (t : IncidentTable) → (list_incidents src t).1.fires ≡ total_weight src t.rows
unfolding list_incidents summarise
list_incidents-fires src t = fires_of-entries src t.rows

length-keep : {A : Type 0} (test : A → Bool) (xs : List A) → length (keep test xs) ≤ length xs
length-keep test [] = omega arith
length-keep test (x ∷ xs) = elim (Bool-cases (test x)) [
  | inl e ↦ rw (e, keep) (omega (arith, length-keep test xs))
  | inr e ↦ rw (e, keep) (omega (arith, length-keep test xs))
]

-- The numbers of the summary are parts of one another: the fires in an open window are among those the
-- question applies to, and these, those that were seen and those that raised an alert are among the
-- fires.
pub summarise-bounded :
    (s : Store) (es : List IncidentEntry)
    → ((summarise s es).fires_in_window ≤ (summarise s es).fires_window_applicable)
      × ((summarise s es).fires_window_applicable ≤ (summarise s es).fires)
      × ((summarise s es).fires_seen ≤ (summarise s es).fires)
      × ((summarise s es).fires_alerted ≤ (summarise s es).fires)
unfolding summarise
summarise-bounded s es = (length-keep _ _, length-keep _ _, length-keep _ _, length-keep _ _)
