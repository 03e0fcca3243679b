-- ===== src/ZoneDraw.antt =====
-- frontend/src/app/features/zones/data-access/zone-draw.service.ts: the drawing mode of the map, as a
-- state that gestures change. A coordinate is in billionths of a degree; what the map itself keeps,
-- its cursor and its double-click zoom, is left out.
pub mod Outlines
use open_fire_watch.Base.{
  ℕ, ◌+◌, ◌*◌, ◌/◌, ◌≡◌, Bool, true, false, ◌&&◌, not, Option, none, some, List, [], ◌∷◌, ◌++◌, map,
  length, ltb, leb, ◌==◌, if◌then◌else◌,
}
use open_fire_watch.Base.Int.{ℤ, pos, negsuc, sub_ℕ}

pub record Position : Type 0 where
  pub longitude : ℤ
  pub latitude : ℤ

pub data Mode : Type 0 where
  polygon point : Mode

-- `listeners` are the key handlers that the window holds, the newest first, by the mode they were
-- made for; `has_handler` tells whether the service still knows the newest.
pub record Drawing : Type 0 where
  pub corners : List Position
  pub drawing : Bool
  pub completed : Option (List Position)
  pub picked_point : Option Position
  pub mode : Mode
  pub cursor : Option Position
  pub has_handler : Bool
  pub listeners : List Mode

abbrev pub at_rest : Drawing
at_rest = record {
  corners = [];
  drawing = false;
  completed = none;
  picked_point = none;
  mode = polygon;
  cursor = none;
  has_handler = false;
  listeners = [];
}

abbrev pub min_corners : ℕ
min_corners = 3

-- `Math.round(n * 1e6) / 1e6`
abbrev pub round6 : ℤ → ℤ
round6 (pos n) = pos ((n + 500) / 1000 * 1000)
round6 (negsuc n) = sub_ℕ 0 ((n + 500) / 1000 * 1000)

abbrev rounded : Position → Position
rounded p = record { longitude = round6 p.longitude; latitude = round6 p.latitude }

abbrev seeded : Option (List Position) → List Position
seeded none = []
seeded (some corners) = corners

abbrev pub start : Option (List Position) → Drawing → Drawing
start seed s = record s {
  mode = polygon;
  completed = none;
  corners = seeded seed;
  cursor = none;
  drawing = true;
  has_handler = true;
  listeners = polygon ∷ s.listeners;
}

abbrev pub start_point_pick : Drawing → Drawing
start_point_pick s = record s {
  mode = point;
  completed = none;
  picked_point = none;
  corners = [];
  cursor = none;
  drawing = true;
  has_handler = true;
  listeners = point ∷ s.listeners;
}

abbrev clear_point : Drawing → Drawing
clear_point s = record s { picked_point = none }

-- `slice(0, -1)`
abbrev pub without_last : List Position → List Position
without_last [] = []
without_last (c ∷ []) = []
without_last (c ∷ d ∷ rest) = c ∷ without_last (d ∷ rest)

abbrev pub undo : Drawing → Drawing
undo s = record s { corners = without_last s.corners }

abbrev without_newest : Bool → List Mode → List Mode
without_newest true (m ∷ ms) = ms
without_newest _ ms = ms

abbrev pub stop : Drawing → Drawing
stop s = record s {
  drawing = false;
  cursor = none;
  has_handler = false;
  listeners = without_newest s.has_handler s.listeners;
}

abbrev pub cancel : Drawing → Drawing
cancel s = stop (record s { corners = []; picked_point = none })

-- The ring, closed by its first position.
abbrev pub ring : List Position → List Position
ring [] = []
ring (c ∷ cs) = (c ∷ cs) ++ (c ∷ [])

unfoldable pub finish : Drawing → Option (List Position) × Drawing
finish s = if ltb (length s.corners) min_corners then (none, s) else (some (ring s.corners), stop s)

unfoldable pub on_click : Position → Drawing → Drawing
on_click p s = if not s.drawing then s else elim s.mode [
  | point ↦ stop (record s { picked_point = some (rounded p) })
  | polygon ↦ record s { corners = s.corners ++ (rounded p ∷ []) }
]

unfoldable pub on_mouse_move : Position → Drawing → Drawing
on_mouse_move p s =
    if not s.drawing then s else if length s.corners == 0 then s else record s { cursor = some p }

-- What `finish` returned becomes the outline for the form.
abbrev pub handed_over : Option (List Position) × Drawing → Drawing
handed_over (outline, s) = record s { completed = outline }

unfoldable pub on_double_click : Drawing → Drawing
unfolding finish
on_double_click s =
    if s.drawing && leb min_corners (length s.corners) then handed_over (finish s) else s

pub data Key : Type 0 where
  escape enter backspace other_key : Key

-- What one handler does with a key.
abbrev pub handle : Key → Mode → Drawing → Drawing
handle escape m s = cancel s
handle enter polygon s = (finish s).1
handle backspace polygon s = undo s
handle _ _ s = s

abbrev pub handle_drawing : Key → Mode → Drawing → Drawing
handle_drawing key m s = if s.drawing then handle key m s else s

-- The window calls every handler that it holds, the oldest first.
abbrev pub dispatch_key : Key → List Mode → Drawing → Drawing
dispatch_key key [] s = s
dispatch_key key (m ∷ ms) s = handle_drawing key m (dispatch_key key ms s)

pub data Gesture : Type 0 where
  begin : Option (List Position) → Gesture
  begin_pick unpick take_back give_up finish_up double_click forget_outline : Gesture
  click move : Position → Gesture
  key : Key → Gesture

-- The gestures on the map, the window and the forms; a form takes the outline and forgets it.
unfoldable pub gesture : Gesture → Drawing → Drawing
unfolding finish on_click on_mouse_move on_double_click
gesture (begin seed) s = start seed s
gesture begin_pick s = start_point_pick s
gesture unpick s = clear_point s
gesture take_back s = undo s
gesture give_up s = cancel s
gesture finish_up s = (finish s).1
gesture double_click s = on_double_click s
gesture forget_outline s = record s { completed = none }
gesture (click p) s = on_click p s
gesture (move p) s = on_mouse_move p s
gesture (key k) s = dispatch_key k s.listeners s

unfoldable pub gestures : List Gesture → Drawing → Drawing
unfolding gesture
gestures [] s = s
gestures (g ∷ gs) s = gestures gs (gesture g s)
