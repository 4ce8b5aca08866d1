-- ===== src/Gadget/Debounce.antt =====
-- The debounce of internal/gadget/monitor.go.
use ivault.Common.{
  ℕ, suc, ◌≡◌, refl, Bool, true, false, Option, none, some, List, [], ◌∷◌, inl, inr, ltb,
  Bool-cases,
}
use ivault.Common.Text.{Text, text_eq}
use ivault.Gadget.{
  UdcEvent, plugged, unplugged, Monitor, start, is_not_attached, event_of, settle, poll, polls,
  emit,
}

-- Plug and unplug take turns: plugged comes next where the device is detached.
abbrev pub IsAlternating : Bool → List UdcEvent → Type 0
IsAlternating detached [] = Unit
IsAlternating detached (plugged ∷ es) = (detached ≡ true) × IsAlternating false es
IsAlternating detached (unplugged ∷ es) = (detached ≡ false) × IsAlternating true es

-- The state that events leave.
abbrev pub next_detached : Bool → Option UdcEvent → Bool
next_detached detached none = detached
next_detached detached (some plugged) = false
next_detached detached (some unplugged) = true

Alternating-emit :
    (detached : Bool) (e : Option UdcEvent) (es : List UdcEvent)
    → IsAlternating detached (emit e [])
    → IsAlternating (next_detached detached e) es
    → IsAlternating detached (emit e es)
Alternating-emit detached none es h k = k
Alternating-emit detached (some plugged) es h k = (h.0, k)
Alternating-emit detached (some unplugged) es h k = (h.0, k)

event_of-Alternating :
    (prev current : Text)
    → IsAlternating (is_not_attached prev) (emit (event_of prev current) [])
      × (next_detached (is_not_attached prev) (event_of prev current) ≡ is_not_attached current)
unfolding event_of
event_of-Alternating prev current = elim (Bool-cases (is_not_attached prev)) [
  | inl p ↦ elim (Bool-cases (is_not_attached current)) [
    | inl q ↦ rw (p, q) (tt, refl)
    | inr q ↦ rw (p, q) ((refl, tt), refl)
  ]
  | inr p ↦ elim (Bool-cases (is_not_attached current)) [
    | inl q ↦ rw (p, q) ((refl, tt), refl)
    | inr q ↦ rw (p, q) (tt, refl)
  ]
]

-- What one step gives is in turn, and `last` is the state that the events so far leave.
abbrev IsTurn : Monitor → Monitor × Option UdcEvent → Type 0
IsTurn m r =
    IsAlternating (is_not_attached m.last) (emit r.1 [])
    × (next_detached (is_not_attached m.last) r.1 ≡ is_not_attached r.0.last)

settle-Turn : (m : Monitor) (s : Text) (n : ℕ) → IsTurn m (settle m s n)
unfolding settle
settle-Turn m s n = elim (Bool-cases (ltb n 3)) [
  | inl e ↦ simp e (tt, refl)
  | inr e ↦ simp e (event_of-Alternating m.last s)
]

poll-Turn : (m : Monitor) (s : Text) → IsTurn m (poll m s)
unfolding poll
poll-Turn m s = elim (Bool-cases (text_eq s m.last)) [
  | inl e ↦ simp e (tt, refl)
  | inr e ↦ elim (Bool-cases (text_eq s m.candidate)) [
    | inl f ↦ simp (e, f) (settle-Turn m s (suc m.stable))
    | inr f ↦ simp (e, f) (settle-Turn m s 1)
  ]
]

polls-after : (m : Monitor) (ss : List Text) → IsAlternating (is_not_attached m.last) (polls m ss).1
unfolding polls
polls-after m [] = tt
polls-after m (s ∷ ss) =
    let (now, next) = poll-Turn m s in
    Alternating-emit (is_not_attached m.last) (poll m s).1 (polls (poll m s).0 ss).1 now
      (rw next (polls-after (poll m s).0 ss))

-- Whatever the controller's state does, plug and unplug events take turns; the first is a plug
-- where the device was detached at the start and an unplug otherwise.
pub polls-Alternating :
    (state : Text) (ss : List Text)
    → IsAlternating (is_not_attached state) (polls (start state) ss).1
unfolding start
polls-Alternating state ss = polls-after (start state) ss
