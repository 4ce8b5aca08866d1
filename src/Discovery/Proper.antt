-- ===== src/Discovery/Proper.antt =====
-- What the table of internal/agent/discovery.go holds.
use mathlib.Core.Path.{subst}
use ivault.Common.{
  ℕ, ◌+◌, ◌≤◌, ◌≡◌, ◌⊎◌, refl, sym, false, ◌||◌, List, [], ◌∷◌, ◌++◌, select, inl, inr, arith, All,
  All-append, Bool-cases,
}
use ivault.Common.Text.{Text, codes, text_eq, text_eq_iff}
use ivault.Common.Assoc.{lookup, insert}
use ivault.Common.Sorting.{All-select}
use ivault.Discovery.{
  DiscoveredDevice, Table, Host, Event, found, scanned, listed, is_among, local_self_addrs,
  is_self_addr, address, service_name, add_service, device_or, touch, process_entry, scan_address,
  day, is_recent, get_devices, step, run,
}

-- Shares of known kinds, each once.
abbrev pub IsOnce : List Text → Type 0
IsOnce [] = Unit
IsOnce (s ∷ ss) = (is_among s ss ≡ false) × IsOnce ss

abbrev pub IsShare : Text → Type 0
IsShare s = (s ≡ codes "smb") ⊎ (s ≡ codes "nfs")

-- An address that some snapshot with `P` does not show to be this host's own.
abbrev pub IsForeign : Host → (List Text → Type 0) → Text → Type 0
IsForeign host P ip = (self : List Text) × P self × (is_self_addr host self ip ≡ false)

-- The snapshot that a scan took has `P`.
abbrev pub TakesSnapshot : (List Text → Type 0) → ℕ × Event → Type 0
TakesSnapshot P (now, found addrs svc e) = P (local_self_addrs addrs)
TakesSnapshot P (now, scanned addrs reached ip) = P (local_self_addrs addrs)
TakesSnapshot P (now, listed) = Unit

-- A device under its own address, which a scan has found not to be this host's.
pub record IsProper (host : Host) (P : List Text → Type 0) (e : Text × DiscoveredDevice)
    : Type 0 where
  pub keyed : e.1.ip ≡ e.0
  pub foreign : IsForeign host P e.0
  pub shares : All IsShare e.1.services
  pub once : IsOnce e.1.services

is_among-append :
    (s x : Text) (ss : List Text) → is_among s (ss ++ x ∷ []) ≡ (is_among s ss || text_eq x s)
unfolding is_among
is_among-append s x [] = ground arith
is_among-append s x (t ∷ ss) = ground (arith, is_among-append s x ss)

Once-append :
    (x : Text) (ss : List Text) → is_among x ss ≡ false → IsOnce ss → IsOnce (ss ++ x ∷ [])
unfolding is_among
Once-append x [] h once = (refl, tt)
Once-append x (t ∷ ss) h once = (
  ground (arith, is_among-append t x ss, h, once.0, text_eq_iff t x, text_eq_iff x t),
  Once-append x ss (ground (arith, h)) once.1,
)

added :
    (s : Text) (ss : List Text)
    → IsShare s ⊎ (s ≡ [])
    → All IsShare ss
    → IsOnce ss
    → All IsShare (add_service s ss) × IsOnce (add_service s ss)
unfolding add_service
added [] ss kind shares once = (shares, once)
added (c ∷ s) ss (inr e) shares once = absurd cc
added (c ∷ s) ss (inl share) shares once = elim (Bool-cases (is_among (c ∷ s) ss)) [
  | inl h ↦ rw h (shares, once)
  | inr h ↦
      rw h (All-append IsShare ss ((c ∷ s) ∷ []) shares (share, tt), Once-append (c ∷ s) ss h once)
]

module _ (host : Host) (P : List Text → Type 0) where
  Proper-insert :
      (ip : Text) (dev : DiscoveredDevice) (t : Table)
      → IsProper host P (ip, dev)
      → All (IsProper host P) t
      → All (IsProper host P) (insert ip dev t)
  unfolding insert
  Proper-insert ip dev [] new h = (new, tt)
  Proper-insert ip dev ((k, v) ∷ t) new h = elim (Bool-cases (text_eq k ip)) [
    | inl e ↦ rw e (new, h.1)
    | inr e ↦ rw e (h.0, Proper-insert ip dev t new h.1)
  ]

  -- What the table has under an address, or a new device.
  Proper-device_or :
      (ip : Text) (new : DiscoveredDevice) (t : Table)
      → IsProper host P (ip, new)
      → All (IsProper host P) t
      → IsProper host P (ip, device_or new (lookup ip t))
  unfolding lookup
  Proper-device_or ip new [] fresh h = fresh
  Proper-device_or ip new ((k, v) ∷ t) fresh h = elim (Bool-cases (text_eq k ip)) [
    | inr e ↦ rw e (Proper-device_or ip new t fresh h.1)
    | inl e ↦ rw e (subst (λ a. IsProper host P (a, v)) ((text_eq_iff k ip).0 e) h.0)
  ]

  Proper-touch :
      (now : ℕ) (service : Text) (new : DiscoveredDevice) (t : Table)
      → IsShare service ⊎ (service ≡ [])
      → IsProper host P (new.ip, new)
      → All (IsProper host P) t
      → All (IsProper host P) (touch now service new t)
  unfolding touch
  Proper-touch now service new t kind fresh h =
      let dev = device_or new (lookup new.ip t) in
      let old = Proper-device_or new.ip new t fresh h in
      let (shares, once) = added service dev.services kind old.shares old.once in
      Proper-insert new.ip _ t
        (record { keyed = old.keyed; foreign = old.foreign; shares = shares; once = once }) h

  service_name-Share : (svc : Text) → IsShare (service_name svc) ⊎ (service_name svc ≡ [])
  unfolding service_name
  service_name-Share svc = elim (Bool-cases (text_eq svc (codes "_smb._tcp"))) [
    | inl e ↦ rw e (inl (inl refl))
    | inr e ↦ elim (Bool-cases (text_eq svc (codes "_nfs._tcp"))) [
      | inl f ↦ rw (e, f) (inl (inr refl))
      | inr f ↦ rw (e, f) (inr refl)
    ]
  ]

  Proper-step :
      (now : ℕ) (e : Event) (t : Table)
      → TakesSnapshot P (now, e)
      → All (IsProper host P) t
      → All (IsProper host P) (step host (now, e) t)
  unfolding step process_entry scan_address get_devices
  Proper-step now (found addrs svc e) t p h = elim (Bool-cases (text_eq (address e) [])) [
    | inl none_there ↦ rw none_there h
    | inr some_there ↦ elim (Bool-cases (is_self_addr host (local_self_addrs addrs) (address e))) [
      | inl own ↦ rw (some_there, own) h
      | inr foreign ↦
          rw (some_there, foreign)
            (Proper-touch now (service_name svc) _ t (service_name-Share svc)
              (record {
                keyed = refl;
                foreign = (local_self_addrs addrs, p, foreign);
                shares = tt;
                once = tt;
              })
              h)
    ]
  ]
  Proper-step now (scanned addrs reached ip) t p h =
      elim (Bool-cases (is_self_addr host (local_self_addrs addrs) ip)) [
        | inl own ↦ rw own h
        | inr foreign ↦ elim (Bool-cases reached) [
          | inr closed ↦ rw (foreign, closed) h
          | inl there ↦
              rw (foreign, there)
                (Proper-touch now (codes "smb") _ t (inl (inl refl))
                  (record {
                    keyed = refl;
                    foreign = (local_self_addrs addrs, p, foreign);
                    shares = (inl refl, tt);
                    once = (refl, tt);
                  })
                  h)
        ]
      ]
  Proper-step now listed t p h = All-select (IsProper host P) (is_recent now) t h

  Proper-run :
      (es : List (ℕ × Event)) (t : Table)
      → All (TakesSnapshot P) es
      → All (IsProper host P) t
      → All (IsProper host P) (run host es t)
  unfolding run
  Proper-run [] t ps h = h
  Proper-run ((now, e) ∷ es) t ps h =
      Proper-run es (step host (now, e) t) ps.1 (Proper-step now e t ps.0 h)

-- What is reported of one device.
abbrev pub IsReported : Host → (List Text → Type 0) → ℕ → DiscoveredDevice → Type 0
IsReported host P now dev =
    IsForeign host P dev.ip
    × All IsShare dev.services
    × IsOnce dev.services
    × (now ≤ dev.last_seen + day)

reported :
    (host : Host) (P : List Text → Type 0) (now : ℕ) (t : Table)
    → All (IsProper host P) t
    → All (IsReported host P now) (get_devices now t).1
unfolding get_devices select
reported host P now [] h = tt
reported host P now ((ip, dev) ∷ t) h = elim (Bool-cases (is_recent now (ip, dev))) [
  | inr e ↦ rw e (reported host P now t h.1)
  | inl e ↦ rw e (
    (
      subst (IsForeign host P) (sym (h.0).keyed) (h.0).foreign,
      (h.0).shares,
      (h.0).once,
      ground (arith, e),
    ),
    reported host P now t h.1,
  )
]

-- Whatever mDNS, the scans and the readers of the list do, in any order, every device that is then
-- reported was seen within a day, offers smb and nfs at most once each and nothing else, and has an
-- address that isSelfAddr tells apart from this host's own, by the snapshot that some scan took of
-- them. `P` is any property that all these snapshots have, such as to contain the addresses that the
-- host keeps; a snapshot is empty where the interfaces cannot be read.
pub get_devices-Reported :
    (host : Host) (P : List Text → Type 0) (es : List (ℕ × Event)) (now : ℕ)
    → All (TakesSnapshot P) es
    → All (IsReported host P now) (get_devices now (run host es [])).1
get_devices-Reported host P es now ps =
    reported host P now (run host es []) (Proper-run host P es [] ps tt)
