-- ===== src/Registry/Declared.antt =====
-- What holds of every declaration that normalizeServerInput of lib/servers/registry.js lets through.
use tmux_web_panel.Base.{
  ◌≡◌, ◌⊎◌, inl, inr, refl, Bool, true, false, ◌&&◌, ◌||◌, Option, none, some, Text, text, text_eq,
  nat_eq, ltb,
}
use tmux_web_panel.AgentEvents.Event.{string}
use tmux_web_panel.Registry.Failure.{Failure, Result, ok, fail}
use tmux_web_panel.Registry.Strings.{
  is_valid_host, ssh_config_host_re, user_re, proxy_jump_re, is_empty,
}
use tmux_web_panel.Registry.Input.{
  AuthMethod, agent, password_auth, Secret, Declaration, Reach, Route, any_text, is_none_text,
  is_bad_password,
}
use tmux_web_panel.Registry.Disk.{is_revision}
use tmux_web_panel.Registry.Clean.{IsClean, IsCleanOrNone}

abbrev pub IsSecret : Secret → Type 0
IsSecret s =
    (is_bad_password (some (string s.password)) ≡ false)
    × ((is_empty s.password ≡ false) × (is_revision s.revision ≡ true))

abbrev pub IsSecretOrNone : Option Secret → Type 0
IsSecretOrNone none = Unit
IsSecretOrNone (some s) = IsSecret s

-- A login with a password has a user and a password, and one with an agent has no password.
abbrev pub IsLogin : AuthMethod → Option Text → Option Secret → Type 0
IsLogin agent user secret = secret ≡ none
IsLogin password_auth user none = true ≡ false
IsLogin password_auth user (some s) = (is_none_text user ≡ false) × IsSecret s

abbrev pub IsReach : (Text → Bool) → Reach → Type 0
IsReach is_ipv6 r =
    IsCleanOrNone (text "ssh.configHost") 253 ssh_config_host_re r.config_host
    × (IsCleanOrNone (text "address.host") 253 (is_valid_host is_ipv6) r.host
        × (IsCleanOrNone (text "address.user") 32 user_re r.user
            × ((is_none_text r.config_host && is_none_text r.host) ≡ false)))

abbrev pub IsRoute : Route → Type 0
IsRoute r =
    IsCleanOrNone (text "ssh.identityFile") 512 any_text r.identity_file
    × (IsCleanOrNone (text "ssh.proxyJump") 253 proxy_jump_re r.proxy_jump
        × IsCleanOrNone (text "ssh.knownHostAlias") 253 ssh_config_host_re r.known_host_alias)

abbrev pub reach_of : Declaration → Reach
reach_of d = record {
  config_host = d.ssh.config_host;
  host = d.address.host;
  user = d.address.user;
}

abbrev pub route_of : Declaration → Route
route_of d = record {
  identity_file = d.ssh.identity_file;
  proxy_jump = d.ssh.proxy_jump;
  known_host_alias = d.ssh.known_host_alias;
}

pub record IsDeclared (is_ipv6 : Text → Bool) (d : Declaration) : Type 0 where
  pub clean_name : IsClean (text "name") 64 any_text d.name
  pub port_in_range : (ltb d.address.port 1 || ltb 65535 d.address.port) ≡ false
  pub reach : IsReach is_ipv6 (reach_of d)
  pub route : IsRoute (route_of d)
  pub login : IsLogin d.ssh.auth_method d.address.user d.ssh.secret

pub Result-cases {ℓ} :
    {A : Type ℓ} (r : Result A) → ((a : A) × (r ≡ ok a)) ⊎ ((f : Failure) × (r ≡ fail f))
Result-cases (ok a) = inl (a, refl)
Result-cases (fail f) = inr (f, refl)
