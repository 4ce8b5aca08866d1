-- ===== src/Provision/Waiting.antt =====
-- internal/provision/provision.go: the wait for the portal's host, in milliseconds. net/url parses the
-- endpoint; the resolver and the dialler are the input, attempt by attempt.
use ivault.Common.{
  ℕ, zero, suc, ◌+◌, ◌*◌, ◌<◌, ◌≤◌, ◌≡◌, refl, ◌⊎◌, inl, inr, true, false, Option, none, some, [],
  ltb, arith, Bool-cases, Option-cases, if◌then◌else◌,
}
use ivault.Common.Text.{Text, codes, text_eq}

pub record Url : Type 0 where
  pub scheme : Text
  pub hostname : Text
  pub port : Text

abbrev pub default_port : Text → Text
unfolding text_eq
default_port scheme = if text_eq scheme (codes "http") then codes "80" else codes "443"

-- endpointHostPort
unfoldable pub endpoint_host_port : Option Url → Text × Text
unfolding text_eq default_port
endpoint_host_port none = ([], [])
endpoint_host_port (some u) =
    if text_eq u.hostname []
    then ([], [])
    else (u.hostname, if text_eq u.port [] then default_port u.scheme else u.port)

-- One attempt: the milliseconds of the lookup and its error, those of the dial and its error.
pub record Try : Type 0 where
  pub lookup_ms : ℕ
  pub lookup_error : Option Text
  pub dial_ms : ℕ
  pub dial_error : Option Text

-- nil at an attempt, or an error: no host, or the time is over, with the last error.
pub data Waited : Type 0 where
  up_at : ℕ → Waited
  no_host : Waited
  timed_out : Option Text → Waited

abbrev pub attempt_error : Try → Option Text
attempt_error t = elim t.lookup_error [ some e ↦ some e | none ↦ t.dial_error ]

-- Until the next attempt, with the sleep of two seconds.
abbrev pub pause : Try → ℕ
pause t = elim t.lookup_error [
  | some e ↦ t.lookup_ms + 2000
  | none ↦ t.lookup_ms + t.dial_ms + 2000
]

module _ (tries : ℕ → Try) (timeout : ℕ) where
  -- The loop; the first number is the fuel, the second the attempt, then the time that has passed.
  unfoldable pub poll_network : ℕ → ℕ → ℕ → Option Text → Option Waited
  poll_network zero i elapsed last = none
  poll_network (suc n) i elapsed last =
      let err = attempt_error (tries i) in
      let rest = poll_network n (i + 1) (elapsed + pause (tries i)) err in
      if ltb elapsed timeout
      then elim err [ none ↦ some (up_at i) | some e ↦ rest ]
      else some (timed_out last)

  -- waitForNetwork on the parsed endpoint.
  unfoldable pub wait_for_network : ℕ → Option Url → Option Waited
  unfolding endpoint_host_port poll_network text_eq
  wait_for_network fuel url =
      if text_eq (endpoint_host_port url).0 [] then some no_host else poll_network fuel 1 0 none

  pause_long : (t : Try) → 2000 ≤ pause t
  pause_long t = elim (Option-cases t.lookup_error) [
    | inl e ↦ rw e (omega arith)
    | inr (x, e) ↦ rw e (omega arith)
  ]

  -- `m` attempts from attempt `i` on: the milliseconds they take, and that each meets an error.
  unfoldable pub spent : ℕ → ℕ → ℕ
  spent i zero = 0
  spent i (suc m) = pause (tries i) + spent (i + 1) m

  abbrev pub AllFail : ℕ → ℕ → Type 0
  AllFail i zero = Unit
  AllFail i (suc m) = ((e : Text) × (attempt_error (tries i) ≡ some e)) × AllFail (i + 1) m

  -- The host is up at the first attempt without an error, and that attempt is in time; or the time is
  -- over, and every attempt has met an error.
  abbrev pub IsPolled : ℕ → ℕ → Waited → Type 0
  IsPolled i elapsed (up_at k) =
      (m : ℕ) × (k ≡ i + m)
      × (elapsed + spent i m < timeout)
      × (attempt_error (tries k) ≡ none)
      × AllFail i m
  IsPolled i elapsed no_host = ⊥
  IsPolled i elapsed (timed_out last) = (m : ℕ) × (timeout ≤ elapsed + spent i m) × AllFail i m

  Polled-later :
      (i elapsed : ℕ) (w : Waited) (e : Text)
      → attempt_error (tries i) ≡ some e
      → IsPolled (i + 1) (elapsed + pause (tries i)) w
      → IsPolled i elapsed w
  unfolding spent
  Polled-later i elapsed (up_at k) e bad (m, at, time, good, before) =
      (suc m, omega (arith, at), omega (arith, time), good, ((e, bad), before))
  Polled-later i elapsed no_host e bad w = w
  Polled-later i elapsed (timed_out last) e bad (m, time, before) =
      (suc m, omega (arith, time), ((e, bad), before))

  -- The first attempt, with what the attempts after it come to where there is time.
  poll_network_first :
      (n i elapsed : ℕ) (last : Option Text)
      → ((e : Text)
          → elapsed < timeout
          → attempt_error (tries i) ≡ some e
          → (w : Waited) × (poll_network n (i + 1) (elapsed + pause (tries i)) (some e) ≡ some w)
            × IsPolled (i + 1) (elapsed + pause (tries i)) w)
      → (w : Waited) × (poll_network (suc n) i elapsed last ≡ some w) × IsPolled i elapsed w
  unfolding poll_network spent
  poll_network_first n i elapsed last later = elim (Bool-cases (ltb elapsed timeout)) [
    | inr over ↦ (timed_out last, simp over refl, (0, ground (arith, over), tt))
    | inl time ↦ elim (Option-cases (attempt_error (tries i))) [
      | inl good ↦
          (up_at i, simp (time, good) refl, (0, omega arith, ground (arith, time), good, tt))
      | inr (e, bad) ↦
          let (w, ends, good) = later e (ground (arith, time)) bad in
          (w, simp (time, bad) ends, Polled-later i elapsed w e bad good)
    ]
  ]

  poll_network_ends :
      (n i elapsed : ℕ) (last : Option Text)
      → timeout ≤ elapsed + 2000 * n
      → (w : Waited) × (poll_network (suc n) i elapsed last ≡ some w) × IsPolled i elapsed w
  poll_network_ends zero i elapsed last h =
      poll_network_first zero i elapsed last (λ e time bad. absurd (omega (arith, h, time)))
  poll_network_ends (suc n) i elapsed last h =
      poll_network_first (suc n) i elapsed last (λ e time bad.
        poll_network_ends n (i + 1) (elapsed + pause (tries i)) (some e)
          (omega (arith, h, pause_long (tries i))))

  -- The wait for the network makes at most one attempt for each two seconds of the time given and one
  -- more, whatever the resolver and the network answer and however long they take. Where the endpoint
  -- has a host, it returns nil at the first attempt at which the name resolves and the host can be
  -- dialled, if that attempt begins in time, or else an error, once the time is over and every
  -- attempt has met an error; without a host it returns an error at once.
  pub wait_for_network_ends :
      (n : ℕ) (url : Option Url)
      → timeout ≤ 2000 * n
      → (w : Waited) × (wait_for_network (suc n) url ≡ some w)
        × (((text_eq (endpoint_host_port url).0 [] ≡ true) × (w ≡ no_host))
            ⊎ ((text_eq (endpoint_host_port url).0 [] ≡ false) × IsPolled 1 0 w))
  unfolding wait_for_network
  wait_for_network_ends n url h = elim (Bool-cases (text_eq (endpoint_host_port url).0 [])) [
    | inl e ↦ (no_host, simp e refl, inl (e, refl))
    | inr e ↦
        let (w, ends, good) = poll_network_ends n 1 0 none (omega (arith, h)) in
        (w, simp e ends, inr (e, good))
  ]
