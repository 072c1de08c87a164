-- ===== src/Errors.antt =====
-- AppError of lib/servers/errors.js: the codes that the servers answer with, and what each means
-- by default. The error envelopes and the request ids are not modelled.
use tmux_web_panel.Base.{ℕ, zero, suc, Bool, true, false, Option, [], ◌∷◌, Text, text, or_else}

pub data ErrorCode : Type 0 where
  server_not_found server_in_use server_offline server_disabled server_exists server_immutable :
      ErrorCode
  ssh_auth_required ssh_host_key_unknown ssh_host_key_changed ssh_timeout node_not_installed
        node_not_running :
      ErrorCode
  node_auth_failed node_incompatible workspace_unavailable session_not_found window_not_found
        pane_not_found :
      ErrorCode
  provider_changed connection_limit terminal_busy validation_error unsupported internal : ErrorCode

pub record Preset : Type 0 where
  pub status : ℕ
  pub retryable : Bool
  pub action : Text

abbrev preset : ℕ → Bool → Text → Preset
preset status retryable action = record { status = status; retryable = retryable; action = action }

-- DEFAULTS.
unfoldable pub preset_of : ErrorCode → Preset
preset_of server_not_found = preset 404 false (text "open_server_list")
preset_of server_in_use = preset 409 false (text "confirm_force_close")
preset_of server_offline = preset 503 true (text "retry_probe")
preset_of server_disabled = preset 409 false (text "enable_server")
preset_of server_exists = preset 409 false (text "edit_connection")
preset_of server_immutable = preset 400 false (text "none")
preset_of ssh_auth_required = preset 502 false (text "edit_connection")
preset_of ssh_host_key_unknown = preset 502 false (text "confirm_host_key")
preset_of ssh_host_key_changed = preset 502 false (text "verify_host_key")
preset_of ssh_timeout = preset 504 true (text "retry_probe")
preset_of node_not_installed = preset 503 true (text "install_node")
preset_of node_not_running = preset 503 true (text "start_node")
preset_of node_auth_failed = preset 502 true (text "retry_probe")
preset_of node_incompatible = preset 502 false (text "upgrade_node")
preset_of workspace_unavailable = preset 409 true (text "retry_probe")
preset_of session_not_found = preset 404 false (text "refresh_workspace")
preset_of window_not_found = preset 404 false (text "refresh_workspace")
preset_of pane_not_found = preset 404 false (text "refresh_workspace")
preset_of provider_changed = preset 409 true (text "refresh_workspace")
preset_of connection_limit = preset 429 true (text "close_other_clients")
preset_of terminal_busy = preset 503 true (text "retry")
preset_of validation_error = preset 400 false (text "fix_input")
preset_of unsupported = preset 501 false (text "none")
preset_of internal = preset 500 true (text "retry")

pub record AppError : Type 0 where
  pub code : ErrorCode
  pub message : Text
  pub status : ℕ
  pub retryable : Bool
  pub action : Text
  pub details : Option Text

-- The options of the constructor; a status of 0 and an empty text count as missing.
pub record Options : Type 0 where
  pub status : ℕ
  pub retryable : Option Bool
  pub action : Text
  pub details : Option Text

abbrev or_status : ℕ → ℕ → ℕ
or_status zero d = d
or_status (suc s) d = suc s

abbrev or_filled : Text → Text → Text
or_filled [] d = d
or_filled (c ∷ t) d = c ∷ t

-- The constructor, of a code that is none if the table does not have it.
unfoldable pub app_error : Option ErrorCode → (code_text message : Text) → Options → AppError
unfolding preset_of
app_error code code_text message o =
    let known : ErrorCode = or_else code internal in
    let p = preset_of known in
    record {
      code = known;
      message = or_filled message code_text;
      status = or_status o.status p.status;
      retryable = or_else o.retryable p.retryable;
      action = or_filled o.action p.action;
      details = o.details;
    }
