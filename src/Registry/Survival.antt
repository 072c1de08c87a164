-- ===== src/Registry/Survival.antt =====
-- The servers of lib/servers/registry.js survive a restart.
use tmux_web_panel.Base.{
  ◌≡◌, inl, inr, refl, sym, ap, ◌∙◌, subst, Bool, Option, none, some, [], ◌∷◌, ◌++◌, Text, text_eq,
  ◌==◌, arith, map, append_assoc, append-nil, All,
}
use tmux_web_panel.Base.Tests.{Bool-cases}
use tmux_web_panel.Base.Equality.{text_beq_iff, beq_refl}
use tmux_web_panel.Base.Int.{ℤ}
use tmux_web_panel.Base.Texts.{truthy}
use tmux_web_panel.Base.Dict.{Dict, get, set, values, HasDistinctKeys}
use tmux_web_panel.AgentEvents.Event.{Value, string}
use tmux_web_panel.Registry.Store.{Server, Memory}
use tmux_web_panel.Registry.Disk.{disk_entry, serialize}
use tmux_web_panel.Registry.Writes.{Gathered, gather, load_entries, load}
use tmux_web_panel.Registry.Reload.{IsLoadable, load_entry-disk_entry}

-- Every server stands under its own id, and can be loaded.
abbrev pub AreLoadable : (Text → Bool) → Dict Text Server → Type 0
AreLoadable is_ipv6 servers = All (λ p. (p.0 ≡ p.1.id) × IsLoadable is_ipv6 p.1) servers

get-append_middle :
    (k : Text) (v : Server) (acc rest : Dict Text Server)
    → (get k (acc ++ (k, v) ∷ rest) ≡ none → ⊥)
unfolding get
get-append_middle k v [] rest h = ground (arith, h, beq_refl k)
get-append_middle k v ((j, w) ∷ acc) rest h = ground (arith, h, get-append_middle k v acc rest)

get-append_absent :
    (k : Text) (v : Server) (acc rest : Dict Text Server)
    → HasDistinctKeys (acc ++ (k, v) ∷ rest)
    → get k acc ≡ none
unfolding get
get-append_absent k v [] rest d = refl
get-append_absent k v ((j, w) ∷ acc) rest d = elim (Bool-cases (k == j)) [
  | inl e ↦
      let same : j ≡ k = sym ((text_beq_iff k j).0 e) in
      elim (get-append_middle k v acc rest
        (subst (λ x. get x (acc ++ (k, v) ∷ rest) ≡ none) same d.0)) [ ]
  | inr e ↦ ground (arith, e, get-append_absent k v acc rest d.1)
]

set-absent :
    (k : Text) (v : Server) (servers : Dict Text Server)
    → get k servers ≡ none
    → set k v servers ≡ servers ++ (k, v) ∷ []
unfolding get set
set-absent k v [] h = refl
set-absent k v ((j, w) ∷ servers) h = ground (arith, h, set-absent k v servers)

abbrev gathered : Dict Text Server → Gathered
gathered servers = record { servers = servers; errors = []; block = none }

module _ (is_ipv6 : Text → Bool) (to_integer : Value → Option ℤ) (revision now : Text)
    (encrypt : Text → Text → Text) (decrypt : Text → Value → Option Text)
    (decrypts : (id p : Text) → decrypt id (string (encrypt id p)) ≡ some p) where
  load_entries-values :
      (rest acc : Dict Text Server)
      → HasDistinctKeys (acc ++ rest)
      → AreLoadable is_ipv6 rest
      → load_entries is_ipv6 to_integer revision now decrypt
          (map (disk_entry encrypt) (values rest))
          (gathered acc)
        ≡ gathered (acc ++ rest)
  unfolding load_entries gather
  load_entries-values [] acc d l = ap gathered (sym (append-nil acc))
  load_entries-values ((k, s) ∷ rest) acc d l =
      let absent = get-append_absent k s acc rest d in
      let whole = append_assoc acc ((k, s) ∷ []) rest in
      let one =
        load_entry-disk_entry is_ipv6 to_integer revision now encrypt decrypt decrypts s acc l.0.1
          (subst (λ x. get x acc ≡ none) l.0.0 absent) in
      let put : set s.id s acc ≡ acc ++ (k, s) ∷ [] =
        subst (λ x. set x s acc ≡ acc ++ (k, s) ∷ []) l.0.0 (set-absent k s acc absent) in
      let more =
        load_entries-values rest (acc ++ (k, s) ∷ []) (subst HasDistinctKeys (sym whole) d) l.1 in
      ap
        (λ r.
          load_entries is_ipv6 to_integer revision now decrypt
            (map (disk_entry encrypt) (values rest))
            (gather (disk_entry encrypt s) r (gathered acc)))
        one
      ∙ ap
          (λ x.
            load_entries is_ipv6 to_integer revision now decrypt
              (map (disk_entry encrypt) (values rest)) (gathered x))
          put
      ∙ more
      ∙ ap gathered whole

  -- What was written of servers that can be loaded is loaded with nothing lost and no complaint:
  -- the same servers in the same order with their passwords and revisions, and the same name of
  -- the local server, where an empty one counts as none, whatever new revision, clock and reading of numbers the loading uses. The
  -- cipher decrypts what it encrypted under the same id.
  pub load-serialize :
      (m : Memory)
      → HasDistinctKeys m.servers
      → AreLoadable is_ipv6 m.servers
      → load is_ipv6 to_integer revision now decrypt (serialize encrypt m) ≡ record {
        memory = record m { local_name = truthy m.local_name };
        load_errors = [];
        write_block = none;
        file = serialize encrypt m;
        pending = [];
      }
  unfolding load serialize
  load-serialize m d l =
      ap
        (λ g. record {
          memory = record { servers = g.servers; local_name = truthy m.local_name };
          load_errors = g.errors;
          write_block = g.block;
          file = serialize encrypt m;
          pending = [];
        })
        (load_entries-values m.servers [] d l)
