-- ===== src/Registry/Store.antt =====
-- The class ServerRegistry of lib/servers/registry.js. The file `servers.json` is what JSON.parse
-- gives of it; the cipher, the random revisions and the clock are arguments. A write is settled
-- after the operation that asked for it, and the writes wait in line.
use tmux_web_panel.Base.{
  ℕ, zero, suc, Bool, true, false, not, ◌||◌, Option, none, some, List, [], ◌∷◌, ◌++◌, Text, text,
  text_eq, nat_eq, ◌==◌, if◌then◌else◌, length,
}
use tmux_web_panel.Base.Int.{ℤ}
use tmux_web_panel.Base.Dict.{Dict, get, set, delete, has}
use tmux_web_panel.Base.Texts.{decimal}
use tmux_web_panel.AgentEvents.Event.{Value, string}
use tmux_web_panel.Errors.{ErrorCode, server_exists, server_immutable, server_not_found, internal}
use tmux_web_panel.Registry.Failure.{Result, ok, fail, field_error, ◌>>=◌, ◌>>◌}
use tmux_web_panel.Registry.Strings.{require_clean_string, id_re, slugify}
use tmux_web_panel.Registry.Input.{
  Declaration, Body, not_an_object, body, normalize_server_input, any_text,
}

abbrev pub local_server_id : Text
local_server_id = text "local"

pub record Server : Type 0 where
  pub id : Text
  pub declaration : Declaration
  pub created_at : Text
  pub updated_at : Text

-- What a snapshot holds: the remote servers and the name of the local one.
pub record Memory : Type 0 where
  pub servers : Dict Text Server
  pub local_name : Option Text

pub record DiskEntry : Type 0 where
  pub content : Body
  pub created_at : Option Value
  pub updated_at : Option Value

pub data File : Type 0 where
  no_file unreadable unparseable : File
  parsed : (local_name : Option Text) (entries : List DiskEntry) → File

pub record Store : Type 0 where
  pub memory : Memory
  pub load_errors : List (Option Text × Text)
  pub write_block : Option Text
  pub file : File
  -- The snapshots of the operations whose write is not settled yet, the oldest first.
  pub pending : List Memory

-- `fresh` is the first number that is tried behind the base, and the fuel bounds the tries.
unfoldable pub fresh_id : ℕ → Text → Dict Text Server → (n : ℕ) → (id : Text) → Option Text
unfolding get decimal
fresh_id zero base servers n id = none
fresh_id (suc fuel) base servers n id =
    let next = fresh_id fuel base servers (suc n) (base ++ (b'-' ∷ decimal n)) in
    if has id servers || id == local_server_id then next else some id

-- Every round but the last meets another id that is taken, and the local one is taken too.
unfoldable pub generate_id : Text → Dict Text Server → Option Text
unfolding fresh_id slugify
generate_id name servers =
    fresh_id (suc (suc (length servers))) (slugify name) servers 2 (slugify name)

abbrev pub fail_with {ℓ} : {A : Type ℓ} → ErrorCode → Result A
fail_with code = fail (record { code = code; field = [] })

abbrev pub id_of : Body → Option Value
id_of not_an_object = none
id_of (body i) = i.id

abbrev name_of : Body → Option Value
name_of not_an_object = none
name_of (body i) = i.name

abbrev names_connection_of : Body → Bool
names_connection_of not_an_object = false
names_connection_of (body i) = i.names_connection

-- A `patch` that is falsy is the empty object, which the caller passes on as such.
abbrev pub is_other_id : Text → Option Value → Bool
is_other_id id none = false
is_other_id id (some (string t)) = not (t == id)
is_other_id id (some v) = true

abbrev pub found : Option Server → Result Server
found none = fail_with server_not_found
found (some s) = ok s

abbrev generated : Option Text → Result Text
generated none = fail_with internal
generated (some id) = ok id

unfoldable pub choose_id : Option Text → Text → Dict Text Server → Result Text
unfolding get generate_id
choose_id none name servers = generated (generate_id name servers)
choose_id (some id) name servers =
    if id == local_server_id
    then field_error (text "id")
    else if has id servers
    then fail_with server_exists
    else ok id

pub data Op : Type 0 where
  create : Body → Op
  update : Text → Body → Op
  remove : Text → Op

unfoldable pub rename_local : Body → Memory → Result Memory
unfolding require_clean_string
rename_local patch m = do
  name ← require_clean_string (name_of patch) (text "name") 64 any_text true
  (if names_connection_of patch then fail_with server_immutable else ok tt)
  ok (record m { local_name = name })

unfoldable pub remove_server : Text → Memory → Result Memory
unfolding get delete
remove_server id m =
    if id == local_server_id
    then fail_with server_immutable
    else do existing ← found (get id m.servers); ok (record m { servers = delete id m.servers })

module _ (is_ipv6 : Text → Bool) (to_integer : Value → Option ℤ) where
  unfoldable pub create_server : (revision now : Text) → Body → Memory → Result (Memory × Server)
  unfolding normalize_server_input require_clean_string id_re choose_id set
  create_server revision now input m = do
    declaration ← normalize_server_input is_ipv6 to_integer revision input none
    wanted ← require_clean_string (id_of input) (text "id") 64 id_re false
    id ← choose_id wanted declaration.name m.servers
    ok (
      record m {
        servers =
            set id
              (record { id = id; declaration = declaration; created_at = now; updated_at = now })
              m.servers;
      },
      record { id = id; declaration = declaration; created_at = now; updated_at = now },
    )

  unfoldable pub update_server : (revision now : Text) → Text → Body → Memory → Result Memory
  unfolding get normalize_server_input set
  update_server revision now id patch m = do
    existing ← found (get id m.servers)
    (if is_other_id id (id_of patch) then fail_with server_immutable else ok tt)
    declaration ←
        normalize_server_input is_ipv6 to_integer revision patch (some existing.declaration)
    ok (record m {
      servers =
          set id
            (record {
              id = id;
              declaration = declaration;
              created_at = existing.created_at;
              updated_at = now;
            })
            m.servers;
    })

  -- The checks of an operation and its change of the memory, before anything is written.
  unfoldable pub change : (revision now : Text) → Op → Memory → Result Memory
  unfolding create_server rename_local update_server remove_server
  change revision now (create input) m = do made ← create_server revision now input m; ok made.0
  change revision now (update id patch) m =
      if id == local_server_id then rename_local patch m else update_server revision now id patch m
  change revision now (remove id) m = remove_server id m
