-- ===== src/Registry/Input.antt =====
-- normalizeTransport and normalizeServerInput of lib/servers/registry.js. An input is the record of
-- the members that the source reads; a member that is `undefined` is `none`, and where `address`
-- or `ssh` is missing, null or no object, all of its members are.
pub mod Types
pub use Types.*
use tmux_web_panel.Base.{
  ℕ, zero, suc, Bool, true, false, not, ◌&&◌, ◌||◌, Option, none, some, List, [], ◌∷◌, Text, text,
  text_eq, nat_eq, option_eq, ◌==◌, if◌then◌else◌, ltb, length, any, or_else,
}
use tmux_web_panel.Base.Tests.{is_some}
use tmux_web_panel.Base.Int.{ℤ, pos, negsuc}
use tmux_web_panel.Base.Texts.{or_text, truthy}
use tmux_web_panel.AgentEvents.Event.{Value, null, bool, number, string, array, object}
use tmux_web_panel.Registry.Failure.{Result, ok, fail, field_error, reject_if, ◌>>=◌, ◌>>◌}
use tmux_web_panel.Registry.Strings.{
  require_clean_string, normalize_port, is_valid_host, ssh_config_host_re, user_re, proxy_jump_re,
  is_empty,
}

abbrev pub default_transport : Transport
default_transport = record { api = api_ssh; terminal = terminal_ssh }

unfoldable pub api_choice : Option Value → Api → Result Api
api_choice none previous = ok previous
api_choice (some (string t)) previous =
    if t == text "ssh"
    then ok api_ssh
    else if t == text "direct"
    then ok api_direct
    else field_error (text "transport.api")
api_choice (some _) previous = field_error (text "transport.api")

unfoldable pub terminal_choice : Option Value → Terminal → Result Terminal
terminal_choice none previous = ok previous
terminal_choice (some (string t)) previous =
    if t == text "ssh"
    then ok terminal_ssh
    else if t == text "direct"
    then ok terminal_direct
    else if t == text "mosh"
    then ok terminal_mosh
    else field_error (text "transport.terminal")
terminal_choice (some _) previous = field_error (text "transport.terminal")

unfoldable pub normalize_transport : TransportInput → Option Transport → Result Transport
unfolding api_choice terminal_choice
normalize_transport no_transport previous = ok (or_else previous default_transport)
normalize_transport bad_transport previous = field_error (text "transport")
normalize_transport (choices api terminal) previous =
    let old : Transport = or_else previous default_transport in
    do
      a ← api_choice api old.api
      t ← terminal_choice terminal old.terminal
      ok (record { api = a; terminal = t })

-- What stood in the declaration is taken where the input says nothing.
abbrev pub given_or : Option Value → Option Text → Option Value
given_or none none = none
given_or none (some t) = some (string t)
given_or (some v) old = some v

abbrev pub is_truthy : Option Value → Bool
is_truthy none = false
is_truthy (some null) = false
is_truthy (some (bool b)) = b
is_truthy (some (number (pos zero))) = false
is_truthy (some (number (pos (suc n)))) = true
is_truthy (some (number (negsuc n))) = true
is_truthy (some (string t)) = not (is_empty t)
is_truthy (some (array xs)) = true
is_truthy (some (object fs)) = true

abbrev pub auth_method_or : Bool → Option AuthMethod → AuthMethod
auth_method_or true old = password_auth
auth_method_or false old = or_else old agent

unfoldable pub choose_auth_method : Option Value → Bool → Option AuthMethod → Result AuthMethod
choose_auth_method none given old = ok (auth_method_or given old)
choose_auth_method (some null) given old = ok (auth_method_or given old)
choose_auth_method (some (string t)) given old =
    if t == text "agent"
    then ok agent
    else if t == text "password"
    then ok password_auth
    else field_error (text "ssh.authMethod")
choose_auth_method (some _) given old = field_error (text "ssh.authMethod")

-- Not a string of 1024 characters at most without NUL and line breaks.
unfoldable pub is_bad_password : Option Value → Bool
is_bad_password none = false
is_bad_password (some (string t)) =
    ltb 1024 (length t) || any (λ c. c == 0 || (c == b'\r' || c == b'\n')) t
is_bad_password (some _) = true

abbrev pub string_of : Option Value → Option Text
string_of (some (string t)) = some t
string_of _ = none

abbrev pub password_of : Option Secret → Option Text
password_of none = none
password_of (some s) = some s.password

-- The password and its revision: the old revision stays with the same password.
unfoldable pub choose_secret :
    AuthMethod → Option Value → Option Secret → (revision : Text) → Option Secret
choose_secret agent input old revision = none
choose_secret password_auth input old revision =
    elim (truthy (or_text (string_of input) (password_of old))) [
      | none ↦ none
      | some p ↦ elim old [
        | none ↦ some (record { password = p; revision = revision })
        | some s ↦ some (record {
          password = p;
          revision = if p == s.password && not (is_empty s.revision) then s.revision else revision;
        })
      ]
    ]

abbrev pub needs_password : AuthMethod → Bool
needs_password agent = false
needs_password password_auth = true

abbrev pub is_none_text : Option Text → Bool
is_none_text none = true
is_none_text (some t) = false

abbrev pub choose_enabled : Option Value → Bool → Result Bool
choose_enabled none old = ok old
choose_enabled (some (bool b)) old = ok b
choose_enabled (some _) old = field_error (text "enabled")

abbrev pub any_text : Text → Bool
any_text t = true

unfoldable pub previous_of : Option Declaration → Previous
previous_of none = record {
  exists_already = false;
  name = [];
  host = none;
  port = none;
  user = none;
  config_host = none;
  identity_file = none;
  proxy_jump = none;
  known_host_alias = none;
  auth_method = none;
  secret = none;
  transport = none;
  enabled = true;
}
previous_of (some d) = record {
  exists_already = true;
  name = d.name;
  host = d.address.host;
  port = some (number (pos d.address.port));
  user = d.address.user;
  config_host = d.ssh.config_host;
  identity_file = d.ssh.identity_file;
  proxy_jump = d.ssh.proxy_jump;
  known_host_alias = d.ssh.known_host_alias;
  auth_method = some d.ssh.auth_method;
  secret = d.ssh.secret;
  transport = some d.transport;
  enabled = d.enabled;
}

-- The secrets that a declaration may not hold.
unfoldable pub refuse_secrets : Input → Result (Unit {0})
refuse_secrets i = do
  reject_if (is_some i.ssh.passphrase || is_some i.passphrase) (text "passphrase")
  reject_if (is_some i.ssh.private_key || is_some i.private_key) (text "privateKey")
  reject_if (is_some i.ssh.token || is_some i.token) (text "token")

abbrev pub value_or : Option Value → Option Value → Option Value
value_or none old = old
value_or (some v) old = some v

module _ (is_ipv6 : Text → Bool) (to_integer : Value → Option ℤ) (revision : Text) where
  unfoldable pub normalize_reach : Input → Previous → Result Reach
  unfolding require_clean_string is_valid_host ssh_config_host_re user_re
  normalize_reach i old = do
    config_host ←
        require_clean_string (given_or i.ssh.config_host old.config_host) (text "ssh.configHost")
          253 ssh_config_host_re false
    host ←
        require_clean_string (given_or i.address.host old.host) (text "address.host") 253
          (is_valid_host is_ipv6) (is_none_text config_host)
    user ←
        require_clean_string (given_or i.address.user old.user) (text "address.user") 32 user_re
          false
    ok (record { config_host = config_host; host = host; user = user })

  unfoldable pub normalize_route : Input → Previous → Result Route
  unfolding require_clean_string ssh_config_host_re proxy_jump_re
  normalize_route i old = do
    identity_file ←
        require_clean_string (given_or i.ssh.identity_file old.identity_file)
          (text "ssh.identityFile") 512 any_text false
    proxy_jump ←
        require_clean_string (given_or i.ssh.proxy_jump old.proxy_jump) (text "ssh.proxyJump") 253
          proxy_jump_re false
    known_host_alias ←
        require_clean_string (given_or i.ssh.known_host_alias old.known_host_alias)
          (text "ssh.knownHostAlias") 253 ssh_config_host_re false
    ok (record {
      identity_file = identity_file;
      proxy_jump = proxy_jump;
      known_host_alias = known_host_alias;
    })

  unfoldable pub normalize_login : Input → Previous → Option Text → Result Login
  unfolding refuse_secrets is_bad_password choose_auth_method choose_secret
  normalize_login i old user = do
    refuse_secrets i
    reject_if (is_some i.password || is_some i.ssh.encrypted_password) (text "ssh.password")
    auth_method ← choose_auth_method i.ssh.auth_method (is_truthy i.ssh.password) old.auth_method
    reject_if (is_bad_password i.ssh.password) (text "ssh.password")
    reject_if (needs_password auth_method && is_none_text user) (text "address.user")
    reject_if
        (needs_password auth_method
          && not (is_some (choose_secret auth_method i.ssh.password old.secret revision)))
        (text "ssh.password")
    ok (record {
      auth_method = auth_method;
      secret = choose_secret auth_method i.ssh.password old.secret revision;
    })

  unfoldable pub normalize_input : Input → Previous → Result Declaration
  unfolding require_clean_string normalize_reach normalize_route normalize_login normalize_port
      normalize_transport
  normalize_input i old = do
    name ← require_clean_string i.name (text "name") 64 any_text (not old.exists_already)
    reach ← normalize_reach i old
    route ← normalize_route i old
    login ← normalize_login i old reach.user
    enabled ← choose_enabled i.enabled old.enabled
    port ← normalize_port to_integer (value_or i.address.port old.port)
    transport ← normalize_transport i.transport old.transport
    ok (record {
      name = or_else name old.name;
      address = record { host = reach.host; port = port; user = reach.user };
      ssh = record {
        config_host = reach.config_host;
        identity_file = route.identity_file;
        proxy_jump = route.proxy_jump;
        known_host_alias = route.known_host_alias;
        auth_method = login.auth_method;
        secret = login.secret;
      };
      transport = transport;
      enabled = enabled;
    })

  unfoldable pub normalize_server_input : Body → Option Declaration → Result Declaration
  unfolding normalize_input previous_of
  normalize_server_input not_an_object existing = field_error (text "body")
  normalize_server_input (body i) existing = normalize_input i (previous_of existing)
