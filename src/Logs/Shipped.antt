-- ===== src/Logs/Shipped.antt =====
-- internal/agent/logs.go: the batches that the collector sends, while lines are written, the portal
-- sets the level, and the loop pushes, in any order.
use ivault.Common.{ℕ, ◌≡◌, refl, ap, ◌∙◌, List, [], ◌∷◌, ◌++◌, inl, inr, Bool-cases, if◌then◌else◌}
use ivault.Common.Text.{Text}
use ivault.Logs.{
  LogEntry, LogCollector, entry_of, level_rank, trim_buffer, write, push, set_log_ship_level,
}
use ivault.Logs.Newest.{is_low, write_skip, write_keep, trim-append}

pub data Event : Type 0 where
  wrote : Text → Text → Event
  levelled : Text → Event
  pushed : Event

-- The batches, an empty one where `push` finds nothing to send.
unfoldable pub ship : List Event → LogCollector → List (List LogEntry)
unfolding write push set_log_ship_level
ship [] c = []
ship (wrote now line ∷ es) c = ship es (write now line c)
ship (levelled level ∷ es) c = ship es (set_log_ship_level level c)
ship (pushed ∷ es) c = let (batch, c') = push c in batch ∷ ship es c'

-- The level after the portal's answer.
abbrev pub new_level : Text → ℕ → ℕ
unfolding level_rank
new_level [] level = level
new_level (b ∷ t) level = level_rank (b ∷ t)

unfoldable pub add_entry : Text × Text → ℕ → List LogEntry → List LogEntry
unfolding entry_of
add_entry l level es = if is_low l level then es else es ++ entry_of l.0 l.1 ∷ []

-- Without a limit on what is held: each batch is cut to its newest entries when it is sent.
unfoldable pub batches : List Event → ℕ → List LogEntry → List (List LogEntry)
unfolding trim_buffer add_entry
batches [] level held = []
batches (wrote now line ∷ es) level held = batches es level (add_entry (now, line) level held)
batches (levelled t ∷ es) level held = batches es (new_level t level) held
batches (pushed ∷ es) level held = trim_buffer held ∷ batches es level []

-- A collector that holds the newest of these entries.
abbrev Holds : ℕ → List LogEntry → LogCollector → Type 0
Holds level held c = (c.ship_level ≡ level) × (c.buffer ≡ trim_buffer held)

Holds-write :
    (l : Text × Text) (held : List LogEntry) (c : LogCollector)
    → c.buffer ≡ trim_buffer held
    → Holds c.ship_level (add_entry l c.ship_level held) (write l.0 l.1 c)
unfolding add_entry
Holds-write l held c h = elim (Bool-cases (is_low l c.ship_level)) [
  | inl e ↦ rw (write_skip l [] c e, e) (refl, h)
  | inr e ↦
      rw (write_keep l [] c e, e)
        (
          refl,
          ap (λ es. trim_buffer (es ++ entry_of l.0 l.1 ∷ [])) h
              ∙ trim-append held (entry_of l.0 l.1),
        )
]

Holds-level :
    (t : Text) (level : ℕ) (held : List LogEntry) (c : LogCollector)
    → Holds level held c
    → Holds (new_level t level) held (set_log_ship_level t c)
unfolding set_log_ship_level
Holds-level [] level held c h = h
Holds-level (b ∷ t) level held c h = (refl, h.1)

none_held : [] ≡ trim_buffer []
unfolding trim_buffer
none_held = refl

ship_held :
    (es : List Event) (held : List LogEntry) (c : LogCollector)
    → c.buffer ≡ trim_buffer held
    → ship es c ≡ batches es c.ship_level held
unfolding ship batches
ship_held [] held c h = refl
ship_held (wrote now line ∷ es) held c h =
    let (level, kept) = Holds-write (now, line) held c h in
    ship_held es (add_entry (now, line) c.ship_level held) (write now line c) kept
    ∙ ap (λ k. batches es k (add_entry (now, line) c.ship_level held)) level
ship_held (levelled t ∷ es) held c h =
    let (level, kept) = Holds-level t c.ship_level held c (refl, h) in
    ship_held es held (set_log_ship_level t c) kept ∙ ap (λ k. batches es k held) level
ship_held (pushed ∷ es) held c h =
    ap (λ b. b ∷ ship es (record c { buffer = [] })) h
    ∙ ap (λ bs. trim_buffer held ∷ bs) (ship_held es [] (record c { buffer = [] }) none_held)

-- However writes, levels from the portal and pushes follow one another, the collector sends the
-- batches that a collector without a limit would send, each cut to its newest 1000 entries: since
-- the push before, every entry that reached the level of its time, once and in order.
pub ship-batches :
    (es : List Event) (level : ℕ)
    → ship es (record { buffer = []; ship_level = level }) ≡ batches es level []
ship-batches es level = ship_held es [] (record { buffer = []; ship_level = level }) none_held
