-- ===== src/Heartbeat/Reported.antt =====
-- internal/agent/heartbeat.go: the heartbeats that the loop of Start sends, and the changes of state.
use ivault.Common.{
  ℕ, zero, suc, ◌≡◌, refl, ap, ◌∙◌, Bool, true, false, Option, none, some, List, [], ◌∷◌, ◌++◌, inl,
  inr, arith, Bool-cases, All, ◌*◌, ◌+◌, ◌<◌, ◌≤◌, ◌⊎◌, if◌then◌else◌, length, Option-cases,
}
use ivault.State.{State, state_eq}
use ivault.Heartbeat.Trigger.{
  Phase, waiting, preparing, sending, stopped, Heart, Event, change, handler_runs, ticked,
  triggered, reads_state, answered, cancelled, new_heart, set_state, after_call, at_select,
  read_state, back, step, run, IsReported, is_quiet, is_at_rest, is_stopped,
}

-- A call of the handler is to come, the channel holds a value, a heartbeat is about to read the
-- state, or the loop is over: or else the newest heartbeat is true.
abbrev IsUpToDate : Heart → Type 0
IsUpToDate h = is_quiet h ≡ true → IsReported h

abbrev Kept : Option Heart → Type 0
Kept none = Unit
Kept (some h) = IsUpToDate h

Kept-set_state : (s : State) (h : Heart) → IsUpToDate h → IsUpToDate (set_state s h)
unfolding set_state
Kept-set_state s h u = elim (Bool-cases (state_eq h.current s)) [
  | inl e ↦ rw e u
  | inr e ↦ rw e (λ bad. ground arith)
]

Kept-after_call : (n : ℕ) (h : Heart) → Kept (after_call n h)
Kept-after_call zero h = tt
Kept-after_call (suc n) h = λ bad. ground arith

Kept-at_select : (p : Phase) (h : Heart) → is_at_rest h.phase ≡ false → Kept (at_select p h)
Kept-at_select waiting h away = λ bad. ground arith
Kept-at_select preparing h away = tt
Kept-at_select sending h away = tt
Kept-at_select stopped h away = tt

Kept-read_state : (p : Phase) (h : Heart) → Kept (read_state p h)
Kept-read_state preparing h = λ quiet. (h.reported, refl)
Kept-read_state waiting h = tt
Kept-read_state sending h = tt
Kept-read_state stopped h = tt

Kept-back : (p : Phase) (h : Heart) → h.phase ≡ p → IsUpToDate h → Kept (back p h)
Kept-back sending h here u = λ quiet. u (ground arith)
Kept-back waiting h here u = tt
Kept-back preparing h here u = tt
Kept-back stopped h here u = tt

Kept-step : (e : Event) (h : Heart) → IsUpToDate h → Kept (step e h)
unfolding step
Kept-step (change s) h u = Kept-set_state s h u
Kept-step handler_runs h u = Kept-after_call h.calls h
Kept-step ticked h u = Kept-at_select h.phase (record h { phase = preparing }) refl
Kept-step triggered h u = elim (Bool-cases h.trigger) [
  | inl e ↦ rw e (Kept-at_select h.phase (record h { phase = preparing; trigger = false }) refl)
  | inr e ↦ rw e tt
]
Kept-step reads_state h u = Kept-read_state h.phase h
Kept-step answered h u = Kept-back h.phase h refl u
Kept-step cancelled h u = Kept-at_select h.phase (record h { phase = stopped }) refl

Kept-run : (es : List Event) (h : Heart) → IsUpToDate h → Kept (run es h)
unfolding run
Kept-run [] h u = u
Kept-run (e ∷ es) h u =
    elim (step e h) as (λ o. Kept o → Kept (elim o [ none ↦ none | some h' ↦ run es h' ])) [
      | none ↦ λ k. tt
      | some h' ↦ λ k. Kept-run es h' k
    ]
      (Kept-step e h u)

run-append :
    (es more : List Event) (h h' : Heart) → run es h ≡ some h' → run (es ++ more) h ≡ run more h'
unfolding run
run-append [] more h h' ran = cc ran
run-append (e ∷ es) more h h' ran =
    elim (step e h)
        as (λ o.
          elim o [ none ↦ none | some h₁ ↦ run es h₁ ] ≡ some h'
          → elim o [ none ↦ none | some h₁ ↦ run (es ++ more) h₁ ] ≡ run more h') [
            | none ↦ λ r. cc r
            | some h₁ ↦ λ r. run-append es more h₁ h' r
          ]
      ran

-- However the steps of the heartbeat loop and of the goroutines that change the state interleave:
-- when every handler of a transition has run, the channel holds no value, and the loop waits at its
-- select or for an answer, the newest heartbeat carries the state in which the device is.
pub run-IsReported :
    (s : State) (es : List Event) (h : Heart)
    → run es (new_heart s) ≡ some h
    → is_quiet h ≡ true
    → IsReported h
unfolding new_heart
run-IsReported s es h ran quiet =
    let kept = Kept-run es (new_heart s) (λ bad. cc bad) in (rw ran at kept) quiet

-- The loop's own steps and the handlers', without a tick, a new state or the end of the context.
abbrev pub is_own : Event → Bool
is_own handler_runs = true
is_own triggered = true
is_own reads_state = true
is_own answered = true
is_own _ = false

-- The steps that the handlers and the loop can still take by themselves: each call of the handler may
-- fill the channel, and a value in the channel is a heartbeat of three steps.
abbrev pub phase_steps : Phase → ℕ
phase_steps waiting = 0
phase_steps preparing = 2
phase_steps sending = 1
phase_steps stopped = 0

abbrev pub own_steps : Heart → ℕ
own_steps h = 4 * h.calls + (if h.trigger then 3 else 0) + phase_steps h.phase

-- The same state, a loop that goes on as before, and fewer steps to take.
abbrev IsNearer : Heart → Heart → Type 0
IsNearer h h' =
    (h'.current ≡ h.current)
    × (is_stopped h'.phase ≡ is_stopped h.phase)
    × (own_steps h' < own_steps h)

Nearer-step : (e : Event) (h h' : Heart) → is_own e ≡ true → step e h ≡ some h' → IsNearer h h'
unfolding step
Nearer-step handler_runs h h' own ran = ground arith
Nearer-step triggered h h' own ran = ground arith
Nearer-step reads_state h h' own ran = ground arith
Nearer-step answered h h' own ran = ground arith
Nearer-step (change s) h h' own ran = cc own
Nearer-step ticked h h' own ran = cc own
Nearer-step cancelled h h' own ran = cc own

-- Where neither a handler nor the loop can take a step by itself, nothing is under way.
step_or_quiet :
    (s : State) (n : ℕ) (b : Bool) (p : Phase) (r : List State)
    → is_stopped p ≡ false
    → let h : Heart = record { current = s; calls = n; trigger = b; phase = p; reported = r } in
      ((e : Event) × (h' : Heart) × (is_own e ≡ true) × (step e h ≡ some h')) ⊎ (is_quiet h ≡ true)
unfolding step
step_or_quiet s (suc n) b p r alive = inl (handler_runs, _, refl, refl)
step_or_quiet s zero b preparing r alive = inl (reads_state, _, refl, refl)
step_or_quiet s zero b sending r alive = inl (answered, _, refl, refl)
step_or_quiet s zero true waiting r alive = inl (triggered, _, refl, refl)
step_or_quiet s zero false waiting r alive = inr refl
step_or_quiet s n b stopped r alive = cc alive

-- These steps keep the state and the loop, and each uses up one of the steps left.
own_run :
    (more : List Event) (h h' : Heart)
    → All (λ e. is_own e ≡ true) more
    → run more h ≡ some h'
    → (h'.current ≡ h.current)
      × (is_stopped h'.phase ≡ is_stopped h.phase)
      × (length more + own_steps h' ≤ own_steps h)
unfolding run
own_run [] h h' own ran = ground arith
own_run (e ∷ more) h h' own ran = elim (Option-cases (step e h)) [
  | inl refused ↦ cc (rw (refused, run) at ran)
  | inr (h₁, taken) ↦
      let (same, alive, fewer) = Nearer-step e h h₁ own.0 taken in
      let (same', alive', fewer') = own_run more h₁ h' own.1 (rw (taken, run) at ran) in
      (same' ∙ same, alive' ∙ alive, omega arith)
]

-- As long as the context is not over: from any point that the interleaving has come to, the handlers
-- and the loop take at most `own_steps` steps, in whatever order, without another tick or change of
-- state; and after any of them, either one more of these steps can be taken, or the newest heartbeat
-- carries the state in which the device was at that point and still is.
pub run_reports :
    (s : State) (es more : List Event) (h h' : Heart)
    → run es (new_heart s) ≡ some h
    → is_stopped h.phase ≡ false
    → All (λ e. is_own e ≡ true) more
    → run more h ≡ some h'
    → (length more + own_steps h' ≤ own_steps h)
      × (((e : Event) × (next : Heart) × (is_own e ≡ true) × (step e h' ≡ some next))
          ⊎ ((older : List State) × (h'.reported ≡ h.current ∷ older)))
run_reports s es more h h' ran alive own on =
    let (same, alive', fewer) = own_run more h h' own on in
    let all = run-append es more (new_heart s) h ran ∙ on in
    (
      fewer,
      elim (step_or_quiet h'.current h'.calls h'.trigger h'.phase h'.reported (alive' ∙ alive)) [
        | inl further ↦ inl further
        | inr quiet ↦
            let (older, newest) = run-IsReported s (es ++ more) h' all quiet in
            inr (older, newest ∙ ap (λ c. c ∷ older) same)
      ],
    )
