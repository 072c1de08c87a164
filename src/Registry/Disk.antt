-- ===== src/Registry/Disk.antt =====
-- load, _serialize, _persist, _commit, _snapshot and _restore of lib/servers/registry.js. A write is
-- settled after the operation that asked for it, and the writes wait in line.
use tmux_web_panel.Base.{
  Bool, true, false, ◌&&◌, ◌||◌, Option, none, some, Text, text, text_eq, nat_eq, ◌==◌,
  if◌then◌else◌, length, map, every, leb,
}
use tmux_web_panel.Base.Int.{ℤ, pos}
use tmux_web_panel.Base.Dict.{Dict, get, has, values}
use tmux_web_panel.Base.Texts.{is_digit}
use tmux_web_panel.AgentEvents.Event.{Value, null, bool, number, string}
use tmux_web_panel.Registry.Failure.{Result, ok, fail, field_error, reject_if, ◌>>=◌, ◌>>◌}
use tmux_web_panel.Registry.Strings.{require_clean_string, id_re}
use tmux_web_panel.Registry.Input.{
  Api, api_ssh, api_direct, Terminal, terminal_ssh, terminal_direct, terminal_mosh, AuthMethod,
  agent, password_auth, Secret, Declaration, Input, not_an_object, body, choices,
  normalize_server_input,
}
use tmux_web_panel.Registry.Store.{local_server_id, Server, Memory, DiskEntry, File, parsed}

abbrev pub nullable : Option Text → Value
nullable none = null
nullable (some t) = string t

abbrev pub api_text : Api → Text
api_text api_ssh = text "ssh"
api_text api_direct = text "direct"

abbrev pub terminal_text : Terminal → Text
terminal_text terminal_ssh = text "ssh"
terminal_text terminal_direct = text "direct"
terminal_text terminal_mosh = text "mosh"

abbrev pub auth_text : AuthMethod → Text
auth_text agent = text "agent"
auth_text password_auth = text "password"

-- A password is written encrypted, bound to the id of its server; `encrypt` is the cipher with the
-- key and the random bytes of one write.
abbrev pub encrypted : (Text → Text → Text) → Text → Option Secret → Option Value
encrypted encrypt id none = none
encrypted encrypt id (some s) = some (string (encrypt id s.password))

abbrev pub revision_value : Option Secret → Option Value
revision_value none = none
revision_value (some s) = some (string s.revision)

-- What JSON.parse gives of a server that was written, with its password as it is or encrypted.
abbrev pub disk_input : Server → (password encrypted_password : Option Value) → Input
disk_input s password encrypted_password = record {
  name = some (string s.declaration.name);
  id = some (string s.id);
  names_connection = true;
  address = record {
    host = some (nullable s.declaration.address.host);
    port = some (number (pos s.declaration.address.port));
    user = some (nullable s.declaration.address.user);
  };
  ssh = record {
    config_host = some (nullable s.declaration.ssh.config_host);
    identity_file = some (nullable s.declaration.ssh.identity_file);
    proxy_jump = some (nullable s.declaration.ssh.proxy_jump);
    known_host_alias = some (nullable s.declaration.ssh.known_host_alias);
    auth_method = some (string (auth_text s.declaration.ssh.auth_method));
    password = password;
    encrypted_password = encrypted_password;
    password_revision = revision_value s.declaration.ssh.secret;
    passphrase = none;
    private_key = none;
    token = none;
  };
  transport =
      choices (some (string (api_text s.declaration.transport.api)))
        (some (string (terminal_text s.declaration.transport.terminal)));
  enabled = some (bool s.declaration.enabled);
  password = none;
  passphrase = none;
  private_key = none;
  token = none;
}

unfoldable pub disk_entry : (Text → Text → Text) → Server → DiskEntry
disk_entry encrypt s = record {
  content = body (disk_input s none (encrypted encrypt s.id s.declaration.ssh.secret));
  created_at = some (string s.created_at);
  updated_at = some (string s.updated_at);
}

unfoldable pub serialize : (Text → Text → Text) → Memory → File
unfolding disk_entry
serialize encrypt m = parsed m.local_name (map (disk_entry encrypt) (values m.servers))

-- `/^[a-f0-9]{32}$/`
unfoldable pub is_revision : Text → Bool
is_revision t = every (λ c. (leb b'a' c && leb c b'f') || is_digit c) t && (length t == 32)

unfoldable pub restored_revision : Option Value → Text → Text
unfolding is_revision
restored_revision (some (string t)) made = if is_revision t then t else made
restored_revision _ made = made

-- Only a record on disk can restore a revision.
unfoldable pub restore_revision : Option Value → Declaration → Declaration
unfolding restored_revision
restore_revision revision d = elim d.ssh.secret [
  | none ↦ d
  | some s ↦ record d {
    ssh = record (d.ssh) {
      secret =
          some (record { password = s.password; revision = restored_revision revision s.revision });
    };
  }
]

abbrev pub string_or : Option Value → Text → Text
string_or (some (string t)) now = t
string_or _ now = now

-- What became of one entry: a server, or the field at fault and whether the file may not be
-- written any more.
pub data Loaded : Type 0 where
  loaded : Server → Loaded
  faulty : (field : Text) (unreadable_password : Bool) → Loaded

abbrev pub loaded_or : Result Server → Loaded
loaded_or (ok s) = loaded s
loaded_or (fail f) = faulty f.field false

abbrev pub required_id : Option Text → Result Text
required_id none = field_error (text "id")
required_id (some id) = ok id

unfoldable pub check_id : Option Text → Dict Text Server → Result Text
unfolding get
check_id id servers = do
  known ← required_id id
  reject_if (known == local_server_id) (text "id")
  reject_if (has known servers) (text "id")
  ok known

module _ (is_ipv6 : Text → Bool) (to_integer : Value → Option ℤ) (revision now : Text) where
  unfoldable pub load_plain : Text → Input → DiskEntry → Result Server
  unfolding normalize_server_input restore_revision
  load_plain id i entry = do
    d ← normalize_server_input is_ipv6 to_integer revision (body i) none
    ok (record {
      id = id;
      declaration = restore_revision i.ssh.password_revision d;
      created_at = string_or entry.created_at now;
      updated_at = string_or entry.updated_at now;
    })

  module _ (decrypt : Text → Value → Option Text) where
    unfoldable pub load_secret : Text → Input → DiskEntry → Option Value → Loaded
    unfolding load_plain
    load_secret id i entry none = loaded_or (load_plain id i entry)
    load_secret id i entry (some secret) = elim (decrypt id secret) [
      | none ↦ faulty (text "ssh.password") true
      | some password ↦ loaded_or (
          load_plain id
            (record i {
              ssh = record (i.ssh) { password = some (string password); encrypted_password = none };
            })
            entry)
    ]

    unfoldable pub load_entry : Dict Text Server → DiskEntry → Loaded
    unfolding require_clean_string id_re check_id load_secret
    load_entry servers entry = elim entry.content [
      | not_an_object ↦ faulty (text "id") false
      | body i ↦ elim (require_clean_string i.id (text "id") 64 id_re true) [
        | fail f ↦ faulty f.field false
        | ok id ↦ elim (check_id id servers) [
          | fail f ↦ faulty f.field false
          | ok known ↦ load_secret known i entry i.ssh.encrypted_password
        ]
      ]
    ]
