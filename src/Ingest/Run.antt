-- ===== src/Ingest/Run.antt =====
-- internal/ingest/ingest.go: Run, from Process on the provision file to the end of the walk.
use ivault.Common.{ℕ, ◌≡◌, refl, Bool, true, false, Option, none, some, List, [], ◌∷◌, All}
use ivault.Common.Text.{Text}
use ivault.Common.Assoc.{Assoc}
use ivault.Db.{get_config}
use ivault.Ingest.{load_filters}
use ivault.Ingest.Drive.{Statfs, record_usage, record_label, read_volume_label}
use ivault.Ingest.Walk.{Entry, Fault, IngestResult, no_result, walk}
use ivault.Provision.{World, Site, Result, absent, done, failed, process}
use ivault.Provision.Outcomes.{process_unparsed}

-- What a cycle meets: Process's surroundings, statfs, the outputs of findmnt and blkid, the driver's
-- answers to the config statements, the time, the id of the session, and the entries of the drive.
pub record Mounted : Type 0 where
  pub world : World
  pub statfs : Option Statfs
  pub source : Option Text
  pub blkid : Text → Option Text
  pub saved : Text → Bool
  pub now : Text
  pub session : ℕ
  pub entries : List Entry

-- What a run changes: the provision file, the configuration files, the tables and the upload queue.
pub record Stock : Type 0 where
  pub site : Site
  pub queue : Assoc Text

-- (nil, false, error), or the counts with the answer of Process and the walk's error.
pub data Ended : Type 0 where
  not_provisioned : Ended
  walked : IngestResult → Bool → Option Fault → Ended

abbrev pub is_done : Result → Bool
is_done absent = false
is_done done = true
is_done failed = false

module _ (sha256 : Text → Text) (path : Text) where
  -- From the drive's usage on.
  unfoldable pub ingest_drive : Mounted → Bool → Stock → Stock × Ended
  unfolding record_usage record_label read_volume_label load_filters get_config walk
  ingest_drive m provisioned s =
      let d₁ = record_usage m.saved m.now m.statfs s.site.db in
      let d₂ = record_label m.saved m.now (read_volume_label m.source m.blkid) d₁ in
      let filters = load_filters (get_config d₂) in
      let (c, fault) =
        walk sha256 filters m.session m.entries
          (record { db = d₂; queue = s.queue; result = no_result }) in
      (
        record { site = record s.site { db = c.db }; queue = c.queue },
        walked c.result provisioned fault,
      )

  unfoldable pub after_process : Mounted → Result → Stock → Stock × Ended
  unfolding ingest_drive
  after_process m failed s = (s, not_provisioned)
  after_process m absent s = ingest_drive m (is_done absent) s
  after_process m done s = ingest_drive m (is_done done) s

  unfoldable pub ingest : Mounted → Stock → Stock × Ended
  unfolding process after_process
  ingest m s =
      let r = process m.world path s.site in after_process m r.result (record s { site = r.site })

  -- The cycles one after another, with what each comes to.
  unfoldable pub ingests : List Mounted → Stock → List Ended × Stock
  unfolding ingest
  ingests [] s = ([], s)
  ingests (m ∷ ms) s = let (s', e) = ingest m s in let (es, last) = ingests ms s' in (e ∷ es, last)

  ingest_unparsed :
      (m : Mounted) (bytes : Text) (s : Stock)
      → s.site.provision ≡ some bytes
      → m.world.visible ≡ true
      → m.world.parse bytes ≡ none
      → ingest m s ≡ (s, not_provisioned)
  unfolding ingest after_process
  ingest_unparsed m bytes s there visible unparsed =
      rw (process_unparsed m.world path bytes s.site there visible unparsed) refl

  -- A provision file that is there and that no cycle can parse stops the ingest for good: however
  -- many cycles come, whatever is on the drive and whatever else answers, each returns Process's
  -- error, and the provision file, the configuration, the tables and the upload queue stay as they
  -- are.
  pub ingests_stuck :
      (bytes : Text) (ms : List Mounted) (s : Stock)
      → s.site.provision ≡ some bytes
      → All (λ m. (m.world.visible ≡ true) × (m.world.parse bytes ≡ none)) ms
      → let (es, last) = ingests ms s in All (λ e. e ≡ not_provisioned) es × (last ≡ s)
  unfolding ingests
  ingests_stuck bytes [] s there h = (tt, refl)
  ingests_stuck bytes (m ∷ ms) s there ((visible, unparsed), h) =
      let (failures, same) = ingests_stuck bytes ms s there h in
      rw (ingest_unparsed m bytes s there visible unparsed) ((refl, failures), same)
