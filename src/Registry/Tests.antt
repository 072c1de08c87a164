-- ===== src/Registry/Tests.antt =====
-- Runs of lib/servers/registry.js on concrete requests and files.
use tmux_web_panel.Base.{◌≡◌, refl, true, false, none, some, [], ◌∷◌, Text, text, text_eq, ◌==◌}
use tmux_web_panel.Base.Equality.{text_beq}
use tmux_web_panel.Base.Dict.{get, set, delete}
use tmux_web_panel.Base.Texts.{trim, trim_start, trim_end, is_space, decimal, digits}
use tmux_web_panel.Registry.Failure.{ok}
use tmux_web_panel.Registry.Strings.{
  require_clean_string, clean_text, normalize_port, is_valid_host, bare_host, cut_zone, hostname_re,
  user_re, id_re, first_then, slugify, to_lower_case, dash_others, strip_front, strip_back,
  join_dashes,
}
use tmux_web_panel.Registry.Input.{
  body, normalize_server_input, normalize_input, normalize_reach, normalize_route, normalize_login,
  normalize_transport, previous_of, refuse_secrets, is_bad_password, choose_auth_method,
  choose_secret,
}
use tmux_web_panel.Registry.Store.{
  no_file, remove, change, create_server, choose_id, generate_id, fresh_id, remove_server,
  local_server_id,
}
use tmux_web_panel.Registry.Disk.{serialize, disk_entry, load_entry, is_revision, faulty}
use tmux_web_panel.Registry.Writes.{load, perform, done, empty_memory}
use tmux_web_panel.Registry.Declared.{IsDeclared}
use tmux_web_panel.Registry.FreshId.{generate_id-IsFree}
use tmux_web_panel.Registry.Atomic.{
  all_or_nothing, overlapped, perform-all_or_nothing, settle-start_overlap,
}
use tmux_web_panel.Registry.Survival.{AreLoadable, load-serialize}
use tmux_web_panel.Registry.Sound.{IsSound, change-IsSound}
use tmux_web_panel.Registry.Lost.{load_entry-create_server}
use tmux_web_panel.Registry.Samples.{
  no_ipv6, no_integer, encrypt, decrypt, revision, request, declared, server, one_server, store_of,
  create_box,
}

slug : slugify (text " My  Box! (2) ") ≡ text "my-box-2"
unfolding slugify trim trim_start trim_end is_space to_lower_case dash_others strip_front strip_back
    join_dashes
slug = refl

created :
    create_server no_ipv6 no_integer revision
      (text "t0")
      (body (request (text "Box") (text "box.lan")))
      empty_memory
    ≡ ok (one_server, server (text "box") (text "Box") (text "box.lan"))
unfolding create_server normalize_server_input normalize_input normalize_reach normalize_route
    normalize_login normalize_transport normalize_port previous_of refuse_secrets is_bad_password
    choose_auth_method choose_secret require_clean_string clean_text trim trim_start trim_end
    is_space is_valid_host bare_host cut_zone hostname_re user_re first_then choose_id generate_id
    fresh_id slugify to_lower_case dash_others strip_front strip_back join_dashes get set text_beq
created = refl

taken_name : generate_id (text "Box") one_server.servers ≡ some (text "box-2")
unfolding generate_id fresh_id slugify trim trim_start trim_end is_space to_lower_case dash_others
    strip_front strip_back join_dashes get text_beq decimal digits
taken_name = refl

generate_id-IsFree_example :
    (id : Text) × ((generate_id (text "Box") one_server.servers ≡ some id)
      × ((get id one_server.servers ≡ none) × ((id == local_server_id) ≡ false)))
generate_id-IsFree_example = generate_id-IsFree (text "Box") one_server.servers

changed : change no_ipv6 no_integer revision (text "t0") create_box empty_memory ≡ ok one_server
unfolding change create_server normalize_server_input normalize_input normalize_reach
    normalize_route normalize_login normalize_transport normalize_port previous_of refuse_secrets
    is_bad_password choose_auth_method choose_secret require_clean_string clean_text trim trim_start
    trim_end is_space is_valid_host bare_host cut_zone hostname_re user_re first_then choose_id
    generate_id fresh_id slugify to_lower_case dash_others strip_front strip_back join_dashes get
    set text_beq
changed = refl

changed_back :
    change no_ipv6 no_integer revision (text "t0") (remove (text "box")) one_server
    ≡ ok empty_memory
unfolding change remove_server get text_beq delete
changed_back = refl

-- The write fails, and the server is gone from the memory again.
perform-all_or_nothing_example :
    perform no_ipv6 no_integer encrypt revision (text "t0") create_box false (store_of empty_memory)
    ≡ all_or_nothing encrypt
        (change no_ipv6 no_integer revision (text "t0") create_box empty_memory)
        none
        false
        (store_of empty_memory)
perform-all_or_nothing_example =
    perform-all_or_nothing no_ipv6 no_integer encrypt revision (text "t0") create_box false
      (store_of empty_memory) refl

-- A server is created and at once removed: both writes fail and the server stays in the memory; the
-- first fails alone, and the second is answered as done.
settle-start_overlap_example :
    (((overlapped no_ipv6 no_integer encrypt revision
          (text "t0")
          create_box
          (remove (text "box"))
          false
          false
          (store_of empty_memory)).0.memory
        ≡ one_server)
      × ((overlapped no_ipv6 no_integer encrypt revision
            (text "t0")
            create_box
            (remove (text "box"))
            false
            false
            (store_of empty_memory)).0.file
          ≡ no_file))
    × (((overlapped no_ipv6 no_integer encrypt revision
            (text "t0")
            create_box
            (remove (text "box"))
            false
            true
            (store_of empty_memory)).1
          ≡ some done)
        × (((overlapped no_ipv6 no_integer encrypt revision
                (text "t0")
                create_box
                (remove (text "box"))
                false
                true
                (store_of empty_memory)).0.memory
              ≡ empty_memory)
            × ((overlapped no_ipv6 no_integer encrypt revision
                  (text "t0")
                  create_box
                  (remove (text "box"))
                  false
                  true
                  (store_of empty_memory)).0.file
                ≡ serialize encrypt empty_memory)))
settle-start_overlap_example =
    settle-start_overlap no_ipv6 no_integer encrypt revision (text "t0") create_box
      (remove (text "box")) (store_of empty_memory) one_server empty_memory refl refl changed
      changed_back

box_declared : IsDeclared no_ipv6 (declared (text "Box") (text "box.lan"))
unfolding clean_text trim trim_start trim_end is_space is_valid_host bare_host cut_zone hostname_re
    user_re first_then is_bad_password is_revision
box_declared = record {
  clean_name = (refl, refl);
  port_in_range = refl;
  reach = (tt, ((refl, refl), ((refl, refl), refl)));
  route = (tt, (tt, tt));
  login = (refl, (refl, (refl, refl)));
}

one_server-AreLoadable : AreLoadable no_ipv6 one_server.servers
unfolding clean_text trim trim_start trim_end is_space id_re first_then text_beq
one_server-AreLoadable =
    ((refl, record { clean_id = (refl, refl); remote = refl; declared = box_declared }), tt)

load-serialize_example :
    load no_ipv6 no_integer (text "r") (text "t9") decrypt (serialize encrypt one_server) ≡ record {
      memory = one_server;
      load_errors = [];
      write_block = none;
      file = serialize encrypt one_server;
      pending = [];
    }
unfolding get
load-serialize_example =
    load-serialize no_ipv6 no_integer (text "r") (text "t9") encrypt decrypt (λ id p. refl)
      one_server (refl, tt) one_server-AreLoadable

change-IsSound_example : IsSound no_ipv6 one_server
unfolding is_revision
change-IsSound_example =
    change-IsSound no_ipv6 no_integer revision (text "t0") create_box empty_memory one_server refl
      changed (record { distinct = tt; entries = tt })

hidden_created :
    create_server no_ipv6 no_integer revision
      (text "t0")
      (body (request (text "_lab") (text "box.lan")))
      empty_memory
    ≡ ok (
      record {
        servers = (text "_lab", server (text "_lab") (text "_lab") (text "box.lan")) ∷ [];
        local_name = none;
      },
      server (text "_lab") (text "_lab") (text "box.lan"),
    )
unfolding create_server normalize_server_input normalize_input normalize_reach normalize_route
    normalize_login normalize_transport normalize_port previous_of refuse_secrets is_bad_password
    choose_auth_method choose_secret require_clean_string clean_text trim trim_start trim_end
    is_space is_valid_host bare_host cut_zone hostname_re user_re first_then choose_id generate_id
    fresh_id slugify to_lower_case dash_others strip_front strip_back join_dashes get set text_beq
hidden_created = refl

load_entry-create_server_example :
    load_entry no_ipv6 no_integer revision
      (text "t9")
      decrypt
      []
      (disk_entry encrypt (server (text "_lab") (text "_lab") (text "box.lan")))
    ≡ faulty (text "id") false
unfolding slugify trim trim_start trim_end is_space to_lower_case dash_others strip_front strip_back
    join_dashes
load_entry-create_server_example =
    load_entry-create_server no_ipv6 no_integer revision (text "t0") revision (text "t9") encrypt
      decrypt (body (request (text "_lab") (text "box.lan"))) empty_memory
      (
        record {
          servers = (text "_lab", server (text "_lab") (text "_lab") (text "box.lan")) ∷ [];
          local_name = none;
        },
        server (text "_lab") (text "_lab") (text "box.lan"),
      )
      [] hidden_created refl refl
