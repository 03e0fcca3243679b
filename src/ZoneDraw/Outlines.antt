-- ===== src/ZoneDraw/Outlines.antt =====
-- Which outlines the drawing mode hands out, and when.
use open_fire_watch.Base.{
  ◌≤◌, ◌≡◌, refl, ◌∙◌, Bool, true, false, ◌&&◌, Option, none, some, List, [], ◌∷◌, ◌++◌, length,
  arith, ltb, leb, Bool-cases, inl, inr, if◌then◌else◌,
}
use open_fire_watch.ZoneDraw.{
  Position, Mode, polygon, point, Drawing, min_corners, ring, stop, finish, on_click, on_mouse_move,
  on_double_click, Key, escape, enter, backspace, other_key, handle_drawing, dispatch_key, Gesture,
  begin, begin_pick, unpick, take_back, give_up, finish_up, double_click, forget_outline, click,
  move, key, gesture, gestures,
}

-- A ring that encloses something: three corners or more, closed by the first.
abbrev pub IsOutline : List Position → Type 0
IsOutline r = (c : Position) × (cs : List Position) × (r ≡ (c ∷ cs) ++ (c ∷ [])) × (2 ≤ length cs)

abbrev pub IsComplete : Option (List Position) → Type 0
IsComplete none = Unit
IsComplete (some r) = IsOutline r

ring-IsOutline : (cs : List Position) → leb min_corners (length cs) ≡ true → IsOutline (ring cs)
ring-IsOutline [] h = cc
ring-IsOutline (c ∷ cs) h = (c, cs, refl, ground arith)

finish-completed : (s : Drawing) → (finish s).1.completed ≡ s.completed
unfolding finish
finish-completed s = ground arith

handle_drawing-completed :
    (k : Key) (m : Mode) (s : Drawing) → (handle_drawing k m s).completed ≡ s.completed
handle_drawing-completed escape m s = ground arith
handle_drawing-completed enter polygon s = ground (arith, finish-completed s)
handle_drawing-completed enter point s = ground arith
handle_drawing-completed backspace polygon s = ground arith
handle_drawing-completed backspace point s = ground arith
handle_drawing-completed other_key m s = ground arith

dispatch_key-completed :
    (k : Key) (ms : List Mode) (s : Drawing) → (dispatch_key k ms s).completed ≡ s.completed
dispatch_key-completed k [] s = refl
dispatch_key-completed k (m ∷ ms) s =
    handle_drawing-completed k m (dispatch_key k ms s) ∙ dispatch_key-completed k ms s

on_click-completed : (p : Position) (s : Drawing) → (on_click p s).completed ≡ s.completed
unfolding on_click
on_click-completed p s = ground arith

on_mouse_move-completed : (p : Position) (s : Drawing) → (on_mouse_move p s).completed ≡ s.completed
unfolding on_mouse_move
on_mouse_move-completed p s = ground arith

finish-IsComplete : (s : Drawing) → IsComplete (finish s).0
unfolding finish
finish-IsComplete s = elim (Bool-cases (ltb (length s.corners) min_corners)) [
  | inl few ↦ rw few tt
  | inr enough ↦ rw enough (ring-IsOutline s.corners (ground arith))
]

on_double_click-IsComplete :
    (s : Drawing) → IsComplete s.completed → IsComplete (on_double_click s).completed
unfolding on_double_click
on_double_click-IsComplete s h =
    elim (Bool-cases (s.drawing && leb min_corners (length s.corners))) [
      | inl e ↦ rw e (finish-IsComplete s)
      | inr e ↦ rw e h
    ]

gesture-IsComplete :
    (g : Gesture) (s : Drawing) → IsComplete s.completed → IsComplete (gesture g s).completed
unfolding gesture
gesture-IsComplete (begin seed) s h = tt
gesture-IsComplete begin_pick s h = tt
gesture-IsComplete unpick s h = h
gesture-IsComplete take_back s h = h
gesture-IsComplete give_up s h = h
gesture-IsComplete finish_up s h = rw (finish-completed s) h
gesture-IsComplete double_click s h = on_double_click-IsComplete s h
gesture-IsComplete forget_outline s h = tt
gesture-IsComplete (click p) s h = rw (on_click-completed p s) h
gesture-IsComplete (move p) s h = rw (on_mouse_move-completed p s) h
gesture-IsComplete (key k) s h = rw (dispatch_key-completed k s.listeners s) h

-- Whatever gestures are made, an outline that waits for the form is a closed ring of three corners or
-- more, if it was so before them.
pub gestures-IsComplete :
    (gs : List Gesture) (s : Drawing)
    → IsComplete s.completed
    → IsComplete (gestures gs s).completed
unfolding gestures
gestures-IsComplete [] s h = h
gestures-IsComplete (g ∷ gs) s h = gestures-IsComplete gs (gesture g s) (gesture-IsComplete g s h)

finish-stops : (s : Drawing) → leb min_corners (length s.corners) ≡ true → (finish s).1 ≡ stop s
unfolding finish
finish-stops s h = elim (Bool-cases (ltb (length s.corners) min_corners)) [
  | inl few ↦ ground arith
  | inr enough ↦ rw enough refl
]

if-true {ℓ} : {A : Type ℓ} (b : Bool) (x y : A) → b ≡ true → (if b then x else y) ≡ x
if-true true x y h = refl
if-true false x y h = cc

dispatch_key-enter :
    (ms : List Mode) (s : Drawing)
    → ms ≡ polygon ∷ []
    → s.drawing ≡ true
    → dispatch_key enter ms s ≡ (finish s).1
dispatch_key-enter ms s l d = rw l (if-true s.drawing (finish s).1 s d)

-- Enter ends the drawing of an outline with enough corners, and hands nothing to the form: where one
-- handler listens and no outline waits, none waits afterwards.
pub gesture-enter :
    (s : Drawing)
    → s.drawing ≡ true
    → s.listeners ≡ polygon ∷ []
    → leb min_corners (length s.corners) ≡ true
    → s.completed ≡ none
    → ((gesture (key enter) s).drawing ≡ false) × ((gesture (key enter) s).completed ≡ none)
unfolding gesture
gesture-enter s d l enough c =
    rw (dispatch_key-enter s.listeners s l d) (rw (finish-stops s enough) (refl, c))
