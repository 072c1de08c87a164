-- ===== src/Registry/Sound.antt =====
-- Every operation of lib/servers/registry.js keeps the servers well formed.
use tmux_web_panel.Base.{
  ◌≡◌, inl, inr, refl, sym, subst, Bool, true, false, Option, none, some, Text, text, text_eq, ◌==◌,
  arith, All,
}
use tmux_web_panel.Base.Tests.{Bool-cases, Option-cases}
use tmux_web_panel.Base.Int.{ℤ}
use tmux_web_panel.Base.Dict.{
  Dict, get, set, delete, HasDistinctKeys, set-HasDistinctKeys, delete-HasDistinctKeys, All-set,
  All-delete, All-get,
}
use tmux_web_panel.AgentEvents.Event.{Value}
use tmux_web_panel.Registry.Failure.{ok}
use tmux_web_panel.Registry.Strings.{require_clean_string, id_re}
use tmux_web_panel.Registry.Input.{Body, normalize_server_input}
use tmux_web_panel.Registry.Store.{
  Server, Memory, Op, create, update, remove, local_server_id, choose_id, create_server,
  rename_local, update_server, remove_server, change, id_of,
}
use tmux_web_panel.Registry.Disk.{is_revision}
use tmux_web_panel.Registry.Declared.{IsDeclared, Result-cases}
use tmux_web_panel.Registry.Accepted.{normalize_server_input-IsDeclared}
use tmux_web_panel.Registry.FreshId.{generate_id-IsFree}

-- The server stands under its id, which is not the local one's, and its declaration passes.
abbrev pub IsEntry : (Text → Bool) → Text × Server → Type 0
IsEntry is_ipv6 p =
    (p.0 ≡ p.1.id) × (((p.0 == local_server_id) ≡ false) × IsDeclared is_ipv6 p.1.declaration)

pub record IsSound (is_ipv6 : Text → Bool) (m : Memory) : Type 0 where
  pub distinct : HasDistinctKeys m.servers
  pub entries : All (IsEntry is_ipv6) m.servers

choose_id-free :
    (wanted : Option Text) (name : Text) (servers : Dict Text Server) (id : Text)
    → choose_id wanted name servers ≡ ok id
    → ((id == local_server_id) ≡ false) × (get id servers ≡ none)
unfolding choose_id
choose_id-free (some w) name servers id h = ground (arith, h)
choose_id-free none name servers id h =
    let fresh = generate_id-IsFree name servers in
    let same : id ≡ fresh.0 = ground (arith, h, fresh.1.0) in
    subst (λ x. ((x == local_server_id) ≡ false) × (get x servers ≡ none)) (sym same)
      (fresh.1.1.1, fresh.1.1.0)

module _ (is_ipv6 : Text → Bool) (to_integer : Value → Option ℤ) (revision now : Text) where
  -- What create made: a declaration that passed, and an id that was free.
  pub record Made (input : Body) (m : Memory) (made : Memory × Server) : Type 0 where
    pub wanted : Option Text
    pub declared :
        normalize_server_input is_ipv6 to_integer revision input none ≡ ok made.1.declaration
    pub wanted_passed : require_clean_string (id_of input) (text "id") 64 id_re false ≡ ok wanted
    pub id_chosen : choose_id wanted made.1.declaration.name m.servers ≡ ok made.1.id
    pub stored : made.0 ≡ record m { servers = set made.1.id made.1 m.servers }

  pub create_server-Made :
      (input : Body) (m : Memory) (made : Memory × Server)
      → create_server is_ipv6 to_integer revision now input m ≡ ok made
      → Made input m made
  unfolding create_server
  create_server-Made input m made h =
      elim (Result-cases (normalize_server_input is_ipv6 to_integer revision input none)) [
        | inr (f, p) ↦ ground (arith, h, p)
        | inl (d, p) ↦
            elim (Result-cases (require_clean_string (id_of input) (text "id") 64 id_re false)) [
              | inr (f, q) ↦ ground (arith, h, p, q)
              | inl (w, q) ↦ elim (Result-cases (choose_id w d.name m.servers)) [
                | inr (f, r) ↦ ground (arith, h, p, q, r)
                | inl (id, r) ↦
                    let server : Server = record {
                      id = id;
                      declaration = d;
                      created_at = now;
                      updated_at = now;
                    } in
                    let same : made ≡ (record m { servers = set id server m.servers }, server) =
                      ground (arith, h, p, q, r) in
                    subst (Made input m) (sym same) (record {
                      wanted = w;
                      declared = p;
                      wanted_passed = q;
                      id_chosen = r;
                      stored = refl;
                    })
              ]
            ]
      ]

  create_server-IsSound :
      (input : Body) (m : Memory) (made : Memory × Server)
      → is_revision revision ≡ true
      → create_server is_ipv6 to_integer revision now input m ≡ ok made
      → IsSound is_ipv6 m
      → IsSound is_ipv6 made.0
  create_server-IsSound input m made r h v =
      let c = create_server-Made input m made h in
      let free = choose_id-free c.wanted made.1.declaration.name m.servers made.1.id c.id_chosen in
      let declared =
        normalize_server_input-IsDeclared is_ipv6 to_integer revision input none made.1.declaration
          tt r c.declared in
      subst (IsSound is_ipv6) (sym c.stored) (record {
        distinct = set-HasDistinctKeys made.1.id made.1 m.servers v.distinct;
        entries =
            All-set (IsEntry is_ipv6) made.1.id made.1 m.servers (refl, (free.0, declared))
              v.entries;
      })

  update_server-IsSound :
      (id : Text) (patch : Body) (m n : Memory)
      → is_revision revision ≡ true
      → (id == local_server_id) ≡ false
      → update_server is_ipv6 to_integer revision now id patch m ≡ ok n
      → IsSound is_ipv6 m
      → IsSound is_ipv6 n
  unfolding update_server
  update_server-IsSound id patch m n r l h v = elim (Option-cases (get id m.servers)) [
    | inl e ↦ ground (arith, h, e)
    | inr (old, e) ↦
        elim (Result-cases
          (normalize_server_input is_ipv6 to_integer revision patch (some old.declaration))) [
            | inr (f, p) ↦ ground (arith, h, e, p)
            | inl (d, p) ↦
                let before = All-get (IsEntry is_ipv6) id old m.servers e v.entries in
                let declared =
                  normalize_server_input-IsDeclared is_ipv6 to_integer revision patch
                    (some old.declaration) d before.1.1 r p in
                let server : Server = record {
                  id = id;
                  declaration = d;
                  created_at = old.created_at;
                  updated_at = now;
                } in
                let same : n ≡ record m { servers = set id server m.servers } =
                  ground (arith, h, e, p) in
                subst (IsSound is_ipv6) (sym same) (record {
                  distinct = set-HasDistinctKeys id server m.servers v.distinct;
                  entries =
                      All-set (IsEntry is_ipv6) id server m.servers (refl, (l, declared)) v.entries;
                })
          ]
  ]

  remove_server-IsSound :
      (id : Text) (m n : Memory) → remove_server id m ≡ ok n → IsSound is_ipv6 m → IsSound is_ipv6 n
  unfolding remove_server
  remove_server-IsSound id m n h v =
      let same : n ≡ record m { servers = delete id m.servers } = ground (arith, h) in
      subst (IsSound is_ipv6) (sym same) (record {
        distinct = delete-HasDistinctKeys id m.servers v.distinct;
        entries = All-delete (IsEntry is_ipv6) id m.servers v.entries;
      })

  rename_local-IsSound :
      (patch : Body) (m n : Memory)
      → rename_local patch m ≡ ok n
      → IsSound is_ipv6 m
      → IsSound is_ipv6 n
  unfolding rename_local
  rename_local-IsSound patch m n h v =
      let same : n.servers ≡ m.servers = ground (arith, h) in
      record {
        distinct = subst HasDistinctKeys (sym same) v.distinct;
        entries = subst (All (IsEntry is_ipv6)) (sym same) v.entries;
      }

  -- Whatever the request is, an operation whose checks pass leaves servers with distinct ids, none of
  -- them the local server's, each with a declaration that passes the checks, if it found such
  -- servers and the random revision has the form of one.
  pub change-IsSound :
      (op : Op) (m n : Memory)
      → is_revision revision ≡ true
      → change is_ipv6 to_integer revision now op m ≡ ok n
      → IsSound is_ipv6 m
      → IsSound is_ipv6 n
  unfolding change
  change-IsSound (create input) m n r h v =
      elim (Result-cases (create_server is_ipv6 to_integer revision now input m)) [
        | inr (f, p) ↦ ground (arith, h, p)
        | inl (made, p) ↦
            let same : n ≡ made.0 = ground (arith, h, p) in
            subst (IsSound is_ipv6) (sym same) (create_server-IsSound input m made r p v)
      ]
  change-IsSound (update id patch) m n r h v = elim (Bool-cases (id == local_server_id)) [
    | inl e ↦ rename_local-IsSound patch m n (ground (arith, h, e)) v
    | inr e ↦ update_server-IsSound id patch m n r e (ground (arith, h, e)) v
  ]
  change-IsSound (remove id) m n r h v = remove_server-IsSound id m n h v
