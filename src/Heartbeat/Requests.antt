-- ===== src/Heartbeat/Requests.antt =====
-- internal/agent/heartbeat.go: what the portal's commands make the agent do: the test of a
-- destination, the search for shares, the factory reset. A destination's JSON decodes by `decode`.
use ivault.Common.{
  ℕ, Bool, true, false, not, ◌&&◌, Option, none, some, List, [], ◌∷◌, ◌++◌, map, select,
  if◌then◌else◌,
}
use ivault.Common.Text.{Text, codes, text_eq, has_prefix, trim_space}
use ivault.Common.Lines.{scan_lines, split_text}
use ivault.Config.{Config}
use ivault.Upload.{Destination}
use ivault.Upload.Reach.{Tools, test_reachable}
use ivault.Upload.Rclone.{env_pair, env_unless_empty}

-- The first destination of the set with the id.
unfoldable pub find_target : (Text → Option Destination) → Text → List Text → Option Destination
unfolding text_eq
find_target decode id [] = none
find_target decode id (raw ∷ raws) =
    let rest = find_target decode id raws in
    elim (decode raw) [ none ↦ rest | some d ↦ if text_eq d.id id then some d else rest ]

-- The body of reportTestResult, and the path of its URL.
pub record TestResult : Type 0 where
  pub success : Bool
  pub message : Text
  pub latency_ms : ℕ

pub record Post (A : Type 0) : Type 0 where
  pub url : Text
  pub body : A

abbrev pub device_url : Config → Text → Text
device_url cfg path =
    cfg.cloud_endpoint ++ codes "/api/devices/" ++ cfg.device_id ++ codes "/" ++ path

unfoldable pub report_test_result : Config → Text → ℕ × Option Text → Post TestResult
report_test_result cfg id (latency, err) = record {
  url = device_url cfg (codes "destinations/" ++ id ++ codes "/test-result");
  body = elim err [
    | none ↦ record {
      success = true;
      message = codes "Successfully reached the destination.";
      latency_ms = latency;
    }
    | some e ↦ record {
      success = false;
      message = codes "Failed to connect: " ++ e;
      latency_ms = latency;
    }
  ];
}

-- testDestination: what it posts, if anything.
unfoldable pub run_destination_test :
    (Text → Option Destination) → Tools → Config → Text → List Text → Option (Post TestResult)
unfolding find_target test_reachable report_test_result
run_destination_test decode t cfg id raws = elim (find_target decode id raws) [
  | none ↦ none
  | some d ↦ some (report_test_result cfg id (test_reachable t d))
]

-- The request of discover_shares.
pub record ShareRequest : Type 0 where
  pub host : Text
  pub username : Text
  pub password : Text
  pub domain : Text

-- The share that a line of rclone's listing names, if it is one to test.
abbrev pub last_part : List Text → Option Text
last_part [] = none
last_part (p ∷ []) = none
last_part (p ∷ q ∷ []) = some q
last_part (p ∷ q ∷ r ∷ ps) = last_part (q ∷ r ∷ ps)

abbrev pub is_offered : Text → Bool
unfolding text_eq has_prefix
is_offered share =
    not (text_eq share [])
    && not (has_prefix share (codes "@"))
    && not (text_eq share (codes "relay-storage"))

unfoldable pub shares_of : List Text → List Text
unfolding split_text trim_space
shares_of [] = []
shares_of (line ∷ lines) =
    let rest = shares_of lines in
    elim (last_part (split_text line (codes " -1 "))) [
      | none ↦ rest
      | some p ↦ if is_offered (trim_space p) then trim_space p ∷ rest else rest
    ]

-- The agent's own obscurePassword, which keeps what rclone printed whatever its error.
unfoldable pub obscure_or_blank : Tools → Text → Text
unfolding trim_space
obscure_or_blank t p = trim_space (t.run (codes "rclone" ∷ codes "obscure" ∷ p ∷ []) []).out

-- The variables of the remote.
unfoldable pub smb_env : Tools → ShareRequest → List Text
unfolding env_pair obscure_or_blank
smb_env t q =
    env_pair (codes "TYPE") (codes "smb")
    ++ env_pair (codes "HOST") q.host
    ++ env_pair (codes "USER") q.username
    ++ env_pair (codes "PASS") (obscure_or_blank t q.password)
    ++ env_unless_empty (codes "DOMAIN") q.domain

-- testWriteAccessNatively; `temp` is the name of the temporary file, where it can be made. The
-- deletion after a copy that succeeds is a call without a result.
unfoldable pub has_write_access : Tools → Option Text → ShareRequest → Text → Bool
unfolding smb_env
has_write_access t none q share = false
has_write_access t (some temp) q share =
    elim (t.run
      (codes "rclone"
        ∷ codes "copyto"
        ∷ codes "--config"
        ∷ codes "/dev/null"
        ∷ codes "--retries"
        ∷ codes "1"
        ∷ codes "--low-level-retries"
        ∷ codes "1"
        ∷ temp
        ∷ (codes "REMOTE:" ++ share ++ codes "/write_test.txt")
        ∷ [])
      (smb_env t q)).err [ none ↦ true | some e ↦ false ]

-- listSharesNatively: the shares, or an error's text. `order` is the order in which the goroutines
-- of the write tests come to the mutex.
unfoldable pub list_shares :
    Tools → Option Text → (List Text → List Text) → ShareRequest → List Text × Text
unfolding smb_env scan_lines shares_of has_write_access
list_shares t temp order q =
    let r =
      t.run
        (codes "rclone" ∷ codes "lsd" ∷ codes "REMOTE:" ∷ codes "--config" ∷ codes "/dev/null" ∷ [])
        (smb_env t q) in
    elim r.err [
      | some e ↦ ([], e ++ codes ": " ++ r.out)
      | none ↦ (select (has_write_access t temp q) (order (shares_of (scan_lines r.out))), [])
    ]

pub record ShareScan : Type 0 where
  pub shares : List Text
  pub error : Text

-- runShareDiscovery: what it posts; `parse` is encoding/json.
unfoldable pub run_share_discovery :
    (Text → Option ShareRequest)
    → Tools
    → Option Text
    → (List Text → List Text)
    → Config
    → Text
    → Option (Post ShareScan)
unfolding list_shares
run_share_discovery parse t temp order cfg req_json = elim (parse req_json) [
  | none ↦ none
  | some q ↦
      let (shares, err) = list_shares t temp order q in
      some (record {
        url = device_url cfg (codes "share-scan-result");
        body = record { shares = shares; error = err };
      })
]

-- The calls of runFactoryReset; their errors are ignored.
pub data ResetCall : Type 0 where
  remove remove_all : Text → ResetCall
  reboot_hardware : ResetCall

abbrev pub config_calls : List ResetCall
config_calls = remove (codes "/etc/ivault/config.json") ∷ []

abbrev pub database_calls : Text → List ResetCall
database_calls [] = []
database_calls (c ∷ path) =
    remove (c ∷ path)
    ∷ remove ((c ∷ path) ++ codes "-wal")
    ∷ remove ((c ∷ path) ++ codes "-shm")
    ∷ []

-- `entries` is what ReadDir lists, `none` for its error.
abbrev pub queue_calls : Text → Option (List Text) → List ResetCall
queue_calls [] entries = []
queue_calls (c ∷ queue) none = []
queue_calls (c ∷ queue) (some names) =
    map (λ name. remove_all ((c ∷ queue) ++ codes "/" ++ name)) names

unfoldable pub factory_reset_calls : Config → Option (List Text) → List ResetCall
factory_reset_calls cfg entries =
    config_calls
    ++ database_calls cfg.db_path
    ++ queue_calls cfg.upload_queue entries
    ++ (reboot_hardware ∷ [])
