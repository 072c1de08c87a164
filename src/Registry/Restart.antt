-- ===== src/Registry/Restart.antt =====
-- The servers of lib/servers/registry.js survive a restart.
use tmux_web_panel.Base.{
  ℕ, ◌≡◌, refl, Bool, true, false, not, ◌&&◌, ◌||◌, Option, none, some, Text, text, text_eq, nat_eq,
  arith, ltb,
}
use tmux_web_panel.Base.Tests.{is_some, or_else}
use tmux_web_panel.Base.Equality.{text_beq}
use tmux_web_panel.Base.Int.{ℤ, pos}
use tmux_web_panel.AgentEvents.Event.{Value, number, string}
use tmux_web_panel.Registry.Failure.{ok}
use tmux_web_panel.Registry.Strings.{
  require_clean_string, normalize_port, is_valid_host, ssh_config_host_re, user_re, proxy_jump_re,
}
use tmux_web_panel.Registry.Input.{
  Api, api_ssh, api_direct, Terminal, terminal_ssh, terminal_direct, terminal_mosh, Transport,
  AuthMethod, agent, password_auth, Secret, Input, body, choices, previous_of, any_text,
  is_none_text, needs_password, is_truthy, is_bad_password, choose_secret, choose_auth_method,
  refuse_secrets, normalize_reach, normalize_route, normalize_login, normalize_input, api_choice,
  terminal_choice, normalize_server_input, normalize_transport, default_transport,
}
use tmux_web_panel.Registry.Store.{Server}
use tmux_web_panel.Registry.Disk.{nullable, api_text, terminal_text, auth_text, disk_input}
use tmux_web_panel.Registry.Clean.{IsCleanOrNone}
use tmux_web_panel.Registry.Declared.{IsLogin, IsReach, IsRoute, reach_of, route_of, IsDeclared}

-- What was written of a string that is clean or null is read back as it was.
pub require_clean_string-nullable :
    (field : Text) (max : ℕ) (valid : Text → Bool) (required : Bool) (o : Option Text)
    → IsCleanOrNone field max valid o
    → (required && is_none_text o) ≡ false
    → require_clean_string (some (nullable o)) field max valid required ≡ ok o
unfolding require_clean_string
require_clean_string-nullable field max valid true none c r = ground (arith, r)
require_clean_string-nullable field max valid false none c r = refl
require_clean_string-nullable field max valid true (some t) c r = c.0
require_clean_string-nullable field max valid false (some t) c r = c.1

api_choice-api_text : (a old : Api) → api_choice (some (string (api_text a))) old ≡ ok a
unfolding api_choice text_beq
api_choice-api_text api_ssh old = refl
api_choice-api_text api_direct old = refl

terminal_choice-terminal_text :
    (t old : Terminal) → terminal_choice (some (string (terminal_text t))) old ≡ ok t
unfolding terminal_choice text_beq
terminal_choice-terminal_text terminal_ssh old = refl
terminal_choice-terminal_text terminal_direct old = refl
terminal_choice-terminal_text terminal_mosh old = refl

choose_auth_method-auth_text :
    (m : AuthMethod) (given : Bool) (old : Option AuthMethod)
    → choose_auth_method (some (string (auth_text m))) given old ≡ ok m
unfolding choose_auth_method text_beq
choose_auth_method-auth_text agent given old = refl
choose_auth_method-auth_text password_auth given old = refl

normalize_transport-texts :
    (t : Transport) (old : Option Transport)
    → normalize_transport
        (choices (some (string (api_text t.api))) (some (string (terminal_text t.terminal))))
        old
      ≡ ok t
unfolding normalize_transport
normalize_transport-texts t old =
    let api = api_choice-api_text t.api (or_else old default_transport).api in
    let terminal =
      terminal_choice-terminal_text t.terminal (or_else old default_transport).terminal in
    rw (api, terminal)

-- The password that a server is read with, before its revision is restored.
abbrev pub password_value : Option Secret → Option Value
password_value none = none
password_value (some p) = some (string p.password)

abbrev pub renewed : Text → Option Secret → Option Secret
renewed revision none = none
renewed revision (some p) = some (record { password = p.password; revision = revision })

choose_secret-renewed :
    (method : AuthMethod) (user : Option Text) (secret : Option Secret) (revision : Text)
    → IsLogin method user secret
    → choose_secret method (password_value secret) none revision ≡ renewed revision secret
unfolding choose_secret
choose_secret-renewed agent user none revision h = refl
choose_secret-renewed agent user (some p) revision h = ground (arith, h)
choose_secret-renewed password_auth user none revision h = ground (arith, h)
choose_secret-renewed password_auth user (some p) revision h = ground (arith, h)

login_user :
    (method : AuthMethod) (user : Option Text) (secret : Option Secret)
    → IsLogin method user secret
    → (needs_password method && is_none_text user) ≡ false
login_user agent user secret h = refl
login_user password_auth user none h = ground (arith, h)
login_user password_auth user (some p) h = h.0

login_password :
    (method : AuthMethod) (user : Option Text) (secret : Option Secret)
    → IsLogin method user secret
    → is_bad_password (password_value secret) ≡ false
unfolding is_bad_password
login_password method user none h = refl
login_password agent user (some p) h = ground (arith, h)
login_password password_auth user (some p) h = h.1.0

login_secret_given :
    (method : AuthMethod) (user : Option Text) (secret : Option Secret) (revision : Text)
    → IsLogin method user secret
    → (needs_password method && not (is_some (renewed revision secret))) ≡ false
login_secret_given agent user secret revision h = refl
login_secret_given password_auth user none revision h = ground (arith, h)
login_secret_given password_auth user (some p) revision h = refl

module _ (is_ipv6 : Text → Bool) (to_integer : Value → Option ℤ) (revision : Text) (s : Server)
    (password : Option Value) where
  read_reach :
      IsReach is_ipv6 (reach_of s.declaration)
      → normalize_reach is_ipv6 to_integer revision (disk_input s password none) (previous_of none)
        ≡ ok (reach_of s.declaration)
  unfolding normalize_reach previous_of
  read_reach h =
      let config =
        require_clean_string-nullable (text "ssh.configHost") 253 ssh_config_host_re false
          s.declaration.ssh.config_host h.0 refl in
      let host =
        require_clean_string-nullable (text "address.host") 253 (is_valid_host is_ipv6)
          (is_none_text s.declaration.ssh.config_host) s.declaration.address.host h.1.0 h.1.1.1 in
      let user =
        require_clean_string-nullable (text "address.user") 32 user_re false
          s.declaration.address.user h.1.1.0 refl in
      rw (config, host, user)

  read_route :
      IsRoute (route_of s.declaration)
      → normalize_route is_ipv6 to_integer revision (disk_input s password none) (previous_of none)
        ≡ ok (route_of s.declaration)
  unfolding normalize_route previous_of
  read_route h =
      let identity =
        require_clean_string-nullable (text "ssh.identityFile") 512 any_text false
          s.declaration.ssh.identity_file h.0 refl in
      let jump =
        require_clean_string-nullable (text "ssh.proxyJump") 253 proxy_jump_re false
          s.declaration.ssh.proxy_jump h.1.0 refl in
      let alias =
        require_clean_string-nullable (text "ssh.knownHostAlias") 253 ssh_config_host_re false
          s.declaration.ssh.known_host_alias h.1.1 refl in
      rw (identity, jump, alias)

-- What load makes of a server on disk, with its password in the clear.
abbrev pub read_input : Server → Input
read_input s = disk_input s (password_value s.declaration.ssh.secret) none

module _ (is_ipv6 : Text → Bool) (to_integer : Value → Option ℤ) (revision : Text)
    (s : Server) where
  read_login :
      IsLogin s.declaration.ssh.auth_method s.declaration.address.user s.declaration.ssh.secret
      → normalize_login is_ipv6 to_integer revision
          (read_input s)
          (previous_of none)
          s.declaration.address.user
        ≡ ok (record {
          auth_method = s.declaration.ssh.auth_method;
          secret = renewed revision s.declaration.ssh.secret;
        })
  unfolding normalize_login previous_of refuse_secrets
  read_login h =
      let ssh = s.declaration.ssh in
      let user = s.declaration.address.user in
      let method =
        choose_auth_method-auth_text ssh.auth_method (is_truthy (password_value ssh.secret)) none in
      let good = login_password ssh.auth_method user ssh.secret h in
      let named = login_user ssh.auth_method user ssh.secret h in
      let given = login_secret_given ssh.auth_method user ssh.secret revision h in
      let chosen = choose_secret-renewed ssh.auth_method user ssh.secret revision h in
      rw (method, good, named, chosen, given)

  normalize_port-pos :
      (n : ℕ)
      → (ltb n 1 || ltb 65535 n) ≡ false
      → normalize_port to_integer (some (number (pos n))) ≡ ok n
  unfolding normalize_port
  normalize_port-pos n h = rw h

  pub read_declaration :
      IsDeclared is_ipv6 s.declaration
      → normalize_server_input is_ipv6 to_integer revision (body (read_input s)) none
        ≡ ok (record (s.declaration) {
          ssh = record (s.declaration.ssh) { secret = renewed revision s.declaration.ssh.secret };
        })
  unfolding normalize_server_input normalize_input previous_of
  read_declaration h =
      let name : require_clean_string (some (string s.declaration.name)) (text "name") 64 any_text
            true
          ≡ ok (some s.declaration.name) =
        require_clean_string-nullable (text "name") 64 any_text true (some s.declaration.name)
          h.clean_name refl in
      let port : normalize_port to_integer (some (number (pos s.declaration.address.port)))
          ≡ ok s.declaration.address.port =
        normalize_port-pos s.declaration.address.port h.port_in_range in
      let reach =
        read_reach is_ipv6 to_integer revision s (password_value s.declaration.ssh.secret)
          h.reach in
      let route =
        read_route is_ipv6 to_integer revision s (password_value s.declaration.ssh.secret)
          h.route in
      let login = read_login h.login in
      let transport = normalize_transport-texts s.declaration.transport none in
      rw (name, reach, route, login, port, transport)
