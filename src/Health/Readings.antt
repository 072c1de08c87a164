-- ===== src/Health/Readings.antt =====
-- The statuses that lib/servers/health-service.js makes of what a probe has read: of a node's
-- description of itself, and of a machine without the panel. The mosh capabilities and the paths
-- are not modelled.
use tmux_web_panel.Base.{ℕ, Bool, true, not, Option, none, some, Text, text, if◌then◌else◌, or_else}
use tmux_web_panel.Base.Texts.{truthy}
use tmux_web_panel.Health.Status.{
  online, degraded, Capability, no_capability, Status, unavailable_workspace,
}

-- A node's description of itself; what it leaves out is none.
pub record NodeInfo : Type 0 where
  pub hostname : Option Text
  pub platform : Option Text
  pub arch : Option Text
  pub version : Option Text
  pub tmux : Option Capability
  pub metrics : Option Capability
  pub files : Option Capability
  pub process_stats : Option Capability

abbrev no_metrics : Capability
no_metrics = record no_capability { level = some (text "none") }

-- statusFromNodeInfo.
unfoldable pub status_from_node_info :
    Text → NodeInfo → (is_local : Bool) → (latency_ms now : ℕ) → Status
status_from_node_info server_id info is_local latency_ms now =
    let tmux = or_else info.tmux (record no_capability { reason = some (text "unknown") }) in
    let transport : Text = if is_local then text "local" else text "ssh" in
    record {
      server_id = server_id;
      state = if tmux.available then online else degraded;
      latency_ms = some latency_ms;
      checked_at = some now;
      last_online_at = some now;
      error = none;
      facts = record {
        hostname = truthy info.hostname;
        platform = truthy info.platform;
        arch = truthy info.arch;
        version = truthy info.version;
      };
      capabilities = record {
        ssh = record no_capability { available = not is_local };
        tmux = record {
          available = tmux.available;
          version = truthy tmux.version;
          reason = truthy tmux.reason;
          level = none;
        };
        metrics = or_else info.metrics no_metrics;
        files = or_else info.files no_capability;
        process_stats = some (or_else info.process_stats no_capability);
      };
      workspace =
          if tmux.available
          then record { provider = text "tmux"; transport = transport; persistence = text "tmux" }
          else unavailable_workspace is_local;
      node_version = some (truthy info.version);
    }

-- What the detection script says of a machine without the panel.
pub record BasicFacts : Type 0 where
  pub hostname : Option Text
  pub platform : Option Text
  pub arch : Option Text
  pub tmux : Option Capability

abbrev missing : Capability
missing = record no_capability { reason = some (text "node_not_installed") }

-- statusFromBasic; that no panel is installed there is a node without a version.
unfoldable pub status_from_basic : Text → BasicFacts → (latency_ms now : ℕ) → Status
status_from_basic server_id facts latency_ms now =
    let tmux = or_else facts.tmux no_capability in
    record {
      server_id = server_id;
      state = online;
      latency_ms = some latency_ms;
      checked_at = some now;
      last_online_at = some now;
      error = none;
      facts = record {
        hostname = facts.hostname;
        platform = facts.platform;
        arch = facts.arch;
        version = none;
      };
      capabilities = record {
        ssh = record no_capability { available = true };
        tmux = tmux;
        metrics = record missing { level = some (text "none") };
        files = missing;
        process_stats = some missing;
      };
      workspace =
          if tmux.available
          then record { provider = text "tmux"; transport = text "ssh"; persistence = text "tmux" }
          else record {
            provider = text "ssh";
            transport = text "ssh";
            persistence = text "process-memory";
          };
      node_version = none;
    }
