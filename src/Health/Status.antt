-- ===== src/Health/Status.antt =====
-- What lib/servers/health-service.js keeps of a server, and its constants.
use tmux_web_panel.Base.{
  ℕ, ◌-◌, Bool, false, Option, none, some, List, [], ◌∷◌, Text, text, text_eq, nat_eq, option_eq,
  ◌==◌, min, if◌then◌else◌, or_else, get_elem?,
}
use tmux_web_panel.Base.Dict.{Dict}

pub data ServerState : Type 0 where
  unknown checking online degraded offline auth_required host_key_error disabled : ServerState

pub record Capability : Type 0 where
  pub available : Bool
  pub version : Option Text
  pub reason : Option Text
  pub level : Option Text

abbrev pub no_capability : Capability
no_capability = record { available = false; version = none; reason = none; level = none }

pub record Capabilities : Type 0 where
  pub ssh : Capability
  pub tmux : Capability
  pub metrics : Capability
  pub files : Capability
  pub process_stats : Option Capability

pub record Workspace : Type 0 where
  pub provider : Text
  pub transport : Text
  pub persistence : Text

pub record Facts : Type 0 where
  pub hostname : Option Text
  pub platform : Option Text
  pub arch : Option Text
  pub version : Option Text

pub record AppError : Type 0 where
  pub code : Text
  pub message : Text

pub record Status : Type 0 where
  pub server_id : Text
  pub state : ServerState
  pub latency_ms : Option ℕ
  pub checked_at : Option ℕ
  pub last_online_at : Option ℕ
  pub error : Option AppError
  pub facts : Facts
  pub capabilities : Capabilities
  pub workspace : Workspace
  pub node_version : Option (Option Text)

-- What the registry knows of a server, as far as it is read here.
pub record Server : Type 0 where
  pub id : Text
  pub is_local : Bool
  pub enabled : Bool

pub record Entry : Type 0 where
  pub status : Status
  pub in_flight : Option ℕ
  pub generation : ℕ
  pub next_poll_at : ℕ
  pub failure_count : ℕ

pub record Service : Type 0 where
  pub objects : List Entry
  pub entries : Dict Text ℕ
  pub viewed_server_id : Option Text

abbrev pub viewed_poll_ms : ℕ
viewed_poll_ms = 5000

abbrev pub idle_poll_ms : ℕ
idle_poll_ms = 30000

-- FAILURE_BACKOFF_MS at the index that _settle computes from the count of failures.
unfoldable pub failure_backoff : ℕ → ℕ
failure_backoff failures =
    or_else (get_elem? (30000 ∷ 60000 ∷ 120000 ∷ 300000 ∷ []) (min (failures - 1) 3)) 0

unfoldable pub state_for_error : AppError → ServerState
state_for_error err =
    if err.code == text "SSH_AUTH_REQUIRED"
    then auth_required
    else if err.code == text "SSH_HOST_KEY_UNKNOWN"
    then host_key_error
    else if err.code == text "SSH_HOST_KEY_CHANGED"
    then host_key_error
    else offline

abbrev pub empty_capabilities : Capabilities
empty_capabilities = record {
  ssh = no_capability;
  tmux = no_capability;
  metrics = record no_capability { level = some (text "none") };
  files = no_capability;
  process_stats = none;
}

abbrev pub unavailable_workspace : Bool → Workspace
unavailable_workspace is_local = record {
  provider = text "unavailable";
  transport = if is_local then text "local" else text "ssh";
  persistence = text "none";
}
