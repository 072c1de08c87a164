-- ===== src/Registry/Samples.antt =====
-- The requests, servers and parameters of the tests of lib/servers/registry.js.
use tmux_web_panel.Base.{
  ◌≡◌, refl, Bool, true, false, Option, none, some, [], ◌∷◌, Text, text, text_eq,
}
use tmux_web_panel.Base.Int.{ℤ}
use tmux_web_panel.AgentEvents.Event.{Value, string}
use tmux_web_panel.Registry.Input.{
  api_ssh, terminal_ssh, password_auth, Declaration, Input, body, no_transport,
}
use tmux_web_panel.Registry.Store.{Server, Memory, no_file, Store, Op, create}

abbrev pub no_ipv6 : Text → Bool
no_ipv6 t = false

abbrev pub no_integer : Value → Option ℤ
no_integer v = none

-- A cipher for the tests.
abbrev pub encrypt : Text → Text → Text
encrypt id p = b'#' ∷ p

abbrev pub decrypt : Text → Value → Option Text
decrypt id (string (c ∷ p)) = some p
decrypt id _ = none

abbrev pub decrypts : (id p : Text) → decrypt id (string (encrypt id p)) ≡ some p
decrypts id p = refl

abbrev pub revision : Text
revision = text "0123456789abcdef0123456789abcdef"

abbrev pub request : Text → Text → Input
request name host = record {
  name = some (string name);
  id = none;
  names_connection = true;
  address = record { host = some (string host); port = none; user = some (string (text "me")) };
  ssh = record {
    config_host = none;
    identity_file = none;
    proxy_jump = none;
    known_host_alias = none;
    auth_method = none;
    password = some (string (text "pw"));
    encrypted_password = none;
    password_revision = none;
    passphrase = none;
    private_key = none;
    token = none;
  };
  transport = no_transport;
  enabled = none;
  password = none;
  passphrase = none;
  private_key = none;
  token = none;
}

abbrev pub declared : Text → Text → Declaration
declared name host = record {
  name = name;
  address = record { host = some host; port = 22; user = some (text "me") };
  ssh = record {
    config_host = none;
    identity_file = none;
    proxy_jump = none;
    known_host_alias = none;
    auth_method = password_auth;
    secret = some (record { password = text "pw"; revision = revision });
  };
  transport = record { api = api_ssh; terminal = terminal_ssh };
  enabled = true;
}

abbrev pub server : Text → Text → Text → Server
server id name host = record {
  id = id;
  declaration = declared name host;
  created_at = text "t0";
  updated_at = text "t0";
}

abbrev pub one_server : Memory
one_server = record {
  servers = (text "box", server (text "box") (text "Box") (text "box.lan")) ∷ [];
  local_name = none;
}

abbrev pub store_of : Memory → Store
store_of m = record {
  memory = m;
  load_errors = [];
  write_block = none;
  file = no_file;
  pending = [];
}

abbrev pub create_box : Op
create_box = create (body (request (text "Box") (text "box.lan")))
