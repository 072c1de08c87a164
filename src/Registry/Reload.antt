-- ===== src/Registry/Reload.antt =====
-- What lib/servers/registry.js writes is loaded again, server by server.
use tmux_web_panel.Base.{
  ◌≡◌, inl, inr, refl, Bool, true, false, Option, none, some, Text, text, text_eq, nat_eq, ◌==◌,
  arith,
}
use tmux_web_panel.Base.Tests.{Option-cases}
use tmux_web_panel.Base.Int.{ℤ}
use tmux_web_panel.Base.Dict.{Dict, get}
use tmux_web_panel.AgentEvents.Event.{Value, string}
use tmux_web_panel.Registry.Failure.{ok}
use tmux_web_panel.Registry.Strings.{require_clean_string, id_re}
use tmux_web_panel.Registry.Input.{AuthMethod, agent, password_auth, Secret, Declaration}
use tmux_web_panel.Registry.Store.{Server, local_server_id}
use tmux_web_panel.Registry.Disk.{
  disk_input, disk_entry, is_revision, restore_revision, restored_revision, load_plain, load_secret,
  check_id, load_entry, loaded, encrypted, revision_value,
}
use tmux_web_panel.Registry.Clean.{IsClean}
use tmux_web_panel.Registry.Declared.{IsLogin, IsDeclared}
use tmux_web_panel.Registry.Restart.{
  require_clean_string-nullable, renewed, read_input, read_declaration,
}

-- The revision on disk takes the place of the one that was made in between.
known_revision :
    (method : AuthMethod) (user : Option Text) (p : Secret)
    → IsLogin method user (some p)
    → is_revision p.revision ≡ true
known_revision agent user p h = ground (arith, h)
known_revision password_auth user p h = h.1.1.1

restored_secret :
    (d : Declaration) (secret : Option Secret) (revision : Text)
    → IsLogin d.ssh.auth_method d.address.user secret
    → restore_revision
        (revision_value secret)
        (record d { ssh = record (d.ssh) { secret = renewed revision secret } })
      ≡ record d { ssh = record (d.ssh) { secret = secret } }
unfolding restore_revision restored_revision
restored_secret d none revision h = refl
restored_secret d (some p) revision h =
    let known = known_revision d.ssh.auth_method d.address.user p h in rw known

restore_revision-renewed :
    (is_ipv6 : Text → Bool) (s : Server) (revision : Text)
    → IsDeclared is_ipv6 s.declaration
    → restore_revision (read_input s).ssh.password_revision (record (s.declaration) {
      ssh = record (s.declaration.ssh) { secret = renewed revision s.declaration.ssh.secret };
    })
      ≡ s.declaration
unfolding restore_revision
restore_revision-renewed is_ipv6 s revision h =
    restored_secret s.declaration s.declaration.ssh.secret revision h.login

-- A server with an id of the right form, which is not the local one's, and a declaration that passes.
pub record IsLoadable (is_ipv6 : Text → Bool) (s : Server) : Type 0 where
  pub clean_id : IsClean (text "id") 64 id_re s.id
  pub remote : (s.id == local_server_id) ≡ false
  pub declared : IsDeclared is_ipv6 s.declaration

check_id-absent :
    (id : Text) (servers : Dict Text Server)
    → (id == local_server_id) ≡ false
    → get id servers ≡ none
    → check_id (some id) servers ≡ ok id
unfolding check_id
check_id-absent id servers l a = rw (l, a)

module _ (is_ipv6 : Text → Bool) (to_integer : Value → Option ℤ) (revision now : Text)
    (encrypt : Text → Text → Text) (decrypt : Text → Value → Option Text)
    (decrypts : (id p : Text) → decrypt id (string (encrypt id p)) ≡ some p) where
  load_plain-read_input :
      (s : Server)
      → IsDeclared is_ipv6 s.declaration
      → load_plain is_ipv6 to_integer revision now s.id (read_input s) (disk_entry encrypt s) ≡ ok s
  unfolding load_plain disk_entry
  load_plain-read_input s h =
      let read = read_declaration is_ipv6 to_integer revision s h in
      let restored = restore_revision-renewed is_ipv6 s revision h in rw (read, restored)

  load_secret-disk_entry :
      (s : Server)
      → IsDeclared is_ipv6 s.declaration
      → load_secret is_ipv6 to_integer revision now decrypt s.id
          (disk_input s none (encrypted encrypt s.id s.declaration.ssh.secret))
          (disk_entry encrypt s)
          (encrypted encrypt s.id s.declaration.ssh.secret)
        ≡ loaded s
  unfolding load_secret
  load_secret-disk_entry s h =
      let plain = load_plain-read_input s h in
      elim (Option-cases s.declaration.ssh.secret) [
        | inl e ↦ ground (arith, e, plain)
        | inr (p, e) ↦ ground (arith, e, plain, decrypts s.id p.password)
      ]

  pub load_entry-disk_entry :
      (s : Server) (servers : Dict Text Server)
      → IsLoadable is_ipv6 s
      → get s.id servers ≡ none
      → load_entry is_ipv6 to_integer revision now decrypt servers (disk_entry encrypt s) ≡ loaded s
  unfolding load_entry disk_entry
  load_entry-disk_entry s servers h absent =
      let id : require_clean_string (some (string s.id)) (text "id") 64 id_re true
          ≡ ok (some s.id) =
        require_clean_string-nullable (text "id") 64 id_re true (some s.id) h.clean_id refl in
      let checked : check_id (some s.id) servers ≡ ok s.id =
        check_id-absent s.id servers h.remote absent in
      let read = load_secret-disk_entry s h.declared in ground (arith, id, checked, read)
