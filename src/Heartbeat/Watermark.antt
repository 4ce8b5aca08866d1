-- ===== src/Heartbeat/Watermark.antt =====
-- The watermark of the file delta (internal/agent/heartbeat.go).
use ivault.Common.{
  ℕ, zero, suc, ◌≡◌, ◌≢◌, refl, ap, sym, ◌∙◌, Bool, true, false, List, [], ◌∷◌, ◌++◌, map, take,
  drop, select, inl, inr, arith, All, Bool-cases, if◌then◌else◌,
}
use ivault.Common.Text.{Text, text_eq, text_eq_iff, text_eq_refl, text_lt, text_lt_irrefl}
use ivault.Common.Sorting.{text_le_trans, text_lt_asymm, All-map}
use ivault.Db.{Db, File, set_config}
use ivault.Db.Config.{get_config-set_config}
use ivault.Db.Queries.{FileChange, to_change, changed_rows, change_key, get_files_changed_since}
use ivault.Db.Delta.{after, select_none, select-append, changed_rows-later, changed_rows-newer}
use ivault.Tz.{config_or_empty}
use ivault.Heartbeat.{new_watermark, watermark_key, file_delta, acknowledge, put}

abbrev raised : Text → Text → Text
raised w u = if text_lt w u then u else w

raised_ge : (w u : Text) → (text_lt (raised w u) w ≡ false) × (text_lt (raised w u) u ≡ false)
raised_ge w u = elim (Bool-cases (text_lt w u)) [
  | inl e ↦ rw e (text_lt_asymm w u e, text_lt_irrefl u)
  | inr e ↦ rw e (text_lt_irrefl w, e)
]

-- The new watermark is not earlier than the old one, nor than any change that was sent.
new_watermark_ge : (w : Text) (cs : List FileChange) → text_lt (new_watermark w cs) w ≡ false
unfolding new_watermark
new_watermark_ge w [] = text_lt_irrefl w
new_watermark_ge w (c ∷ cs) =
    text_le_trans w (raised w c.updated_at) (new_watermark (raised w c.updated_at) cs)
      (raised_ge w c.updated_at).0 (new_watermark_ge (raised w c.updated_at) cs)

new_watermark_bound :
    (w : Text) (fs : List File)
    → All (λ (f : File). text_lt (new_watermark w (map to_change fs)) (change_key f) ≡ false) fs
unfolding new_watermark to_change
new_watermark_bound w [] = tt
new_watermark_bound w (f ∷ fs) =
    let u = change_key f in
    (
      text_le_trans u (raised w u) (new_watermark (raised w u) (map to_change fs)) (raised_ge w u).1
          (new_watermark_ge (raised w u) (map to_change fs)),
      new_watermark_bound (raised w u) fs,
    )

take-drop : (n : ℕ) (fs : List File) → fs ≡ take n fs ++ drop n fs
take-drop zero fs = refl
take-drop (suc n) [] = refl
take-drop (suc n) (f ∷ fs) = ap (λ r. f ∷ r) (take-drop n fs)

-- The rows after the new watermark: of those that were not sent, the ones that are newer than it.
changed_rows-next :
    (files : List File) (w : Text) (n : ℕ)
    → let rows = changed_rows files w in
      let v = new_watermark w (map to_change (take n rows)) in
      changed_rows files v ≡ select (after v) (drop n rows)
changed_rows-next files w n =
    let rows = changed_rows files w in
    let v = new_watermark w (map to_change (take n rows)) in
    changed_rows-later files w v (new_watermark_ge w (map to_change (take n rows)))
    ∙ ap (select (after v)) (take-drop n rows)
    ∙ select-append (after v) (take n rows) (drop n rows)
    ∙ ap (λ r. r ++ select (after v) (drop n rows))
        (select_none v (take n rows) (new_watermark_bound w (take n rows)))

pub config_or_empty-put :
    (saved : Text → Bool) (k v : Text) (d : Db)
    → saved k ≡ true
    → config_or_empty (put saved k v d) k ≡ v
unfolding put config_or_empty
config_or_empty-put saved k v d h = ground (arith, get_config-set_config d k k v, text_eq_refl k)

files-acknowledge :
    (saved : Text → Bool) (cs : List FileChange) (d : Db) → (acknowledge saved cs d).files ≡ d.files
unfolding acknowledge put set_config
files-acknowledge saved [] d = refl
files-acknowledge saved (c ∷ cs) d = ground arith

module _ (saved : Text → Bool) (kept : saved watermark_key ≡ true) where
  watermark-acknowledge :
      (cs : List FileChange) (d : Db)
      → config_or_empty (acknowledge saved cs d) watermark_key
        ≡ new_watermark (config_or_empty d watermark_key) cs
  unfolding acknowledge
  watermark-acknowledge [] d = unfold new_watermark in refl
  watermark-acknowledge (c ∷ cs) d =
      let w = config_or_empty d watermark_key in
      let v = new_watermark w (c ∷ cs) in
      elim (Bool-cases (text_eq v w)) [
        | inl e ↦ rw e (sym ((text_eq_iff v w).0 e))
        | inr e ↦ rw e (config_or_empty-put saved watermark_key v d kept)
      ]

-- After a delta that the portal acknowledged the next one starts with the rows that were not sent
-- and are newer than the newest that was; a row that was not sent and ties with the newest that was
-- is not in it.
pub file_delta-acknowledge :
    (saved : Text → Bool) (d : Db)
    → saved watermark_key ≡ true
    → let rows = changed_rows d.files (config_or_empty d watermark_key) in
      let sent = file_delta true d in
      let v = new_watermark (config_or_empty d watermark_key) sent in
      (sent ≡ map to_change (take 200 rows))
      × (file_delta true (acknowledge saved sent d)
          ≡ map to_change (take 200 (select (after v) (drop 200 rows))))
unfolding file_delta get_files_changed_since
file_delta-acknowledge saved d kept =
    let w = config_or_empty d watermark_key in
    let sent = file_delta true d in
    (
      refl,
      ap (λ (fs : List File). map to_change (take 200 fs))
          (ap (λ v. changed_rows (acknowledge saved sent d).files v)
              (watermark-acknowledge saved kept sent d)
            ∙ ap (λ (fs : List File). changed_rows fs (new_watermark w sent))
                (files-acknowledge saved sent d)
            ∙ changed_rows-next d.files w 200),
    )

newer_changes :
    (w : Text) (n : ℕ) (fs : List File)
    → All (λ (f : File). text_lt w (change_key f) ≡ true) fs
    → All (λ (c : FileChange). text_lt w c.updated_at ≡ true) (map to_change (take n fs))
unfolding to_change
newer_changes w zero fs h = tt
newer_changes w (suc n) [] h = tt
newer_changes w (suc n) (f ∷ fs) h = (h.0, newer_changes w n fs h.1)

-- A delta carries only changes newer than the watermark.
newer_delta :
    (d : Db)
    → All
        (λ (c : FileChange). text_lt (config_or_empty d watermark_key) c.updated_at ≡ true)
        (file_delta true d)
unfolding file_delta get_files_changed_since
newer_delta d =
    let w = config_or_empty d watermark_key in
    newer_changes w 200 (changed_rows d.files w) (changed_rows-newer d.files w)

-- A later heartbeat: what the other threads have made of the database by then, and whether the portal
-- acknowledges its delta.
pub record Round : Type 0 where
  pub change : Db → Db
  pub acknowledged : Bool

-- Only the acknowledgement writes the watermark.
abbrev pub KeepsWatermark : Round → Type 0
KeepsWatermark r =
    (d : Db) → config_or_empty (r.change d) watermark_key ≡ config_or_empty d watermark_key

-- The deltas of the heartbeats, in order.
unfoldable pub deltas : (Text → Bool) → List Round → Db → List (List FileChange)
unfolding file_delta acknowledge
deltas saved [] d = []
deltas saved (r ∷ rs) d =
    let now = r.change d in
    let sent = file_delta true now in
    sent ∷ deltas saved rs (if r.acknowledged then acknowledge saved sent now else now)

module _ (saved : Text → Bool) (kept : saved watermark_key ≡ true) (t : Text) where
  -- No change of the time `t` is in a delta from a watermark that is not below it.
  past_delta :
      (d : Db)
      → text_lt (config_or_empty d watermark_key) t ≡ false
      → All (λ (c : FileChange). c.updated_at ≢ t) (file_delta true d)
  past_delta d past =
      All-map (file_delta true d)
        (λ (c : FileChange) h same.
          cc (ap (text_lt (config_or_empty d watermark_key)) same, past, h))
        (newer_delta d)

  past_acknowledge :
      (acknowledged : Bool) (d : Db)
      → text_lt (config_or_empty d watermark_key) t ≡ false
      → let sent = file_delta true d in
        text_lt
          (config_or_empty (if acknowledged then acknowledge saved sent d else d) watermark_key)
          t
        ≡ false
  past_acknowledge false d past = past
  past_acknowledge true d past =
      let w = config_or_empty d watermark_key in
      let v = new_watermark w (file_delta true d) in
      ap (λ u. text_lt u t) (watermark-acknowledge saved kept (file_delta true d) d)
      ∙ text_le_trans t w v past (new_watermark_ge w (file_delta true d))

  past_deltas :
      (rs : List Round) (d : Db)
      → All KeepsWatermark rs
      → text_lt (config_or_empty d watermark_key) t ≡ false
      → All (All (λ (c : FileChange). c.updated_at ≢ t)) (deltas saved rs d)
  unfolding deltas
  past_deltas [] d keep past = tt
  past_deltas (r ∷ rs) d keep past =
      let now = r.change d in
      let here = ap (λ w. text_lt w t) (keep.0 d) ∙ past in
      (
        past_delta now here,
        past_deltas rs (if r.acknowledged then acknowledge saved (file_delta true now) now else now)
            keep.1 (past_acknowledge r.acknowledged now here),
      )

-- A row beyond the batch that ties with the newest row sent is never sent, as long as it is not
-- changed again: after the acknowledgement no change of its time is in any delta, however many
-- heartbeats follow, whichever are acknowledged, and whatever the other threads do to the database
-- in between, where they leave the watermark alone.
pub acknowledge_loses_tie :
    (saved : Text → Bool) (d : Db) (f : File) (rest : List File) (rs : List Round)
    → saved watermark_key ≡ true
    → drop 200 (changed_rows d.files (config_or_empty d watermark_key)) ≡ f ∷ rest
    → change_key f ≡ new_watermark (config_or_empty d watermark_key) (file_delta true d)
    → All KeepsWatermark rs
    → All
        (All (λ (c : FileChange). c.updated_at ≢ change_key f))
        (deltas saved rs (acknowledge saved (file_delta true d) d))
acknowledge_loses_tie saved d f rest rs kept e tie keep =
    let sent = file_delta true d in
    let v = new_watermark (config_or_empty d watermark_key) sent in
    past_deltas saved kept (change_key f) rs (acknowledge saved sent d) keep (
      ap (λ w. text_lt w (change_key f)) (watermark-acknowledge saved kept sent d)
      ∙ ap (text_lt v) tie
      ∙ text_lt_irrefl v)
