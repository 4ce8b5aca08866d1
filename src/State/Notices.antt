-- ===== src/State/Notices.antt =====
-- What the handlers of internal/state/state.go hear.
use ivault.Common.{◌≡◌, refl, ◌≢◌, Bool, true, false, List, [], ◌∷◌, arith, Bool-cases, inl, inr}
use ivault.Common.Text.{text_eq, text_eq_iff}
use ivault.State.{State, state_eq, state_string, Notice, Machine, transition, transitions}

pub state_eq→eq : (a b : State) → state_eq a b ≡ true → a ≡ b
state_eq→eq a b h = ground arith

-- The text of a state tells the states apart.
from_string : State → State → Bool
from_string a b = text_eq (state_string a) (state_string b)

same_string : (a b : State) → from_string a b ≡ state_eq a b
unfolding from_string state_string text_eq
same_string a b = ground arith

-- Two states with the same text are the same state.
pub state_string-injective : (a b : State) → state_string a ≡ state_string b → a ≡ b
unfolding from_string
state_string-injective a b h =
    state_eq→eq a b (rw (← same_string a b) ((text_eq_iff (state_string a) (state_string b)).1 h))

-- The notices of one handler form a walk: each starts where the one before ended, none stays in
-- place, and the walk leads from one state to another.
pub data Walk {H : Type 0} (fn : H) : State → List (Notice H) → State → Type 0 where
  stay : {s : State} → Walk fn s [] s
  move :
      {s t u : State} {ns : List (Notice H)}
      → s ≢ t
      → Walk fn t ns u
      → Walk fn s (record { handler = fn; old = s; new = t } ∷ ns) u

module _ {H : Type 0} (fn : H) where
  keep_handlers :
      (m : Machine H) (s : State) → m.on_change ≡ fn ∷ [] → (transition m s).0.on_change ≡ fn ∷ []
  unfolding transition
  keep_handlers m s h = ground arith

  ne_of_state_eq : (a b : State) → state_eq a b ≡ false → a ≢ b
  ne_of_state_eq a b h e = ground arith

  -- A handler that is alone on a machine hears, over any transitions, a walk from the state at
  -- which the machine was to the state at which it is: no change is missed, none is repeated, and
  -- a transition into the current state is silent.
  pub transitions-Walk :
      (m : Machine H) (ss : List State)
      → m.on_change ≡ fn ∷ []
      → Walk fn m.current (transitions m ss).1 (transitions m ss).0.current
  unfolding transitions transition
  transitions-Walk m [] h = stay
  transitions-Walk m (s ∷ ss) h = elim (Bool-cases (state_eq m.current s)) [
    | inl same ↦ rw same (transitions-Walk m ss h)
    | inr new ↦
        rw (new, h)
          (move (ne_of_state_eq _ _ new)
            (transitions-Walk (record m { current = s; on_change = fn ∷ [] }) ss refl))
  ]
