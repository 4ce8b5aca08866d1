-- ===== src/Gadget/Steady.antt =====
-- What the poller of internal/gadget/monitor.go has seen before it emits an event.
use mathlib.Core.Path.{subst}
use ivault.Common.{
  ℕ, zero, suc, ◌<◌, ◌≡◌, refl, sym, Option, some, List, [], ◌∷◌, inl, inr, arith, ltb, Bool-cases,
}
use ivault.Common.Text.{Text, text_eq, text_eq_iff}
use ivault.Gadget.{UdcEvent, Monitor, start, settle, poll, debounce_samples}

-- The monitor after polls; the latest poll comes first.
unfoldable pub after : Text → List Text → Monitor
unfolding start poll
after state [] = start state
after state (s ∷ earlier) = (poll (after state earlier) s).0

-- The latest n polls all read s.
abbrev pub HasHeld : Text → ℕ → List Text → Type 0
HasHeld s zero polls = Unit
HasHeld s (suc n) [] = ⊥
HasHeld s (suc n) (p ∷ polls) = (p ≡ s) × HasHeld s n polls

abbrev IsSettling : Monitor → List Text → Type 0
IsSettling m polls = (m.stable < 3) × HasHeld m.candidate m.stable polls

-- A poll keeps the count right, and an event needs three equal polls.
abbrev IsSteady : Text → List Text → Monitor × Option UdcEvent → Type 0
IsSteady s polls r =
    IsSettling r.0 (s ∷ polls) × ((e : UdcEvent) → r.1 ≡ some e → HasHeld s 3 (s ∷ polls))

settle-Steady :
    (m : Monitor) (s : Text) (n : ℕ) (polls : List Text)
    → n < 4
    → HasHeld s n (s ∷ polls)
    → IsSteady s polls (settle m s n)
unfolding settle
settle-Steady m s n polls b h = elim (Bool-cases (ltb n 3)) [
  | inl e ↦ simp e ((ground arith, h), λ u k. ground arith)
  | inr e ↦ simp e (
    (omega arith, tt),
    λ u k. let three : n ≡ 3 = ground arith in subst (λ c. HasHeld s c (s ∷ polls)) three h,
  )
]

poll-Steady :
    (m : Monitor) (s : Text) (polls : List Text) → IsSettling m polls → IsSteady s polls (poll m s)
unfolding poll
poll-Steady m s polls (b, h) = elim (Bool-cases (text_eq s m.last)) [
  | inl e ↦ simp e ((omega arith, tt), λ u k. ground arith)
  | inr e ↦ elim (Bool-cases (text_eq s m.candidate)) [
    | inl f ↦
        simp (e, f)
          (settle-Steady m s (suc m.stable) polls (omega arith)
            (refl, subst (λ c. HasHeld c m.stable polls) (sym ((text_eq_iff s m.candidate).0 f)) h))
    | inr f ↦ simp (e, f) (settle-Steady m s 1 polls (omega arith) (refl, tt))
  ]
]

after-Settling : (state : Text) (polls : List Text) → IsSettling (after state polls) polls
unfolding after
after-Settling state [] = (omega arith, tt)
after-Settling state (s ∷ polls) =
    (poll-Steady (after state polls) s polls (after-Settling state polls)).0

-- A poll emits an event only where the last three polls, it included, read the same state: a state
-- that is gone within two polls is never reported.
pub poll-HasHeld :
    (state s : Text) (polls : List Text) (e : UdcEvent)
    → (poll (after state polls) s).1 ≡ some e
    → HasHeld s debounce_samples (s ∷ polls)
poll-HasHeld state s polls e =
    (poll-Steady (after state polls) s polls (after-Settling state polls)).1 e
