-- ===== src/Links.antt =====
-- LinkPool of lib/hub/link-pool.js: the connections that the hub keeps to its servers. Links and
-- basic hosts are told apart by numbers, and what the pool opens and ends is a list of effects. The
-- key of a server's connection fields is a field of the server, and how a pairing ends an argument.
pub mod Balance
pub mod Accounts
pub mod Runs
pub mod Tests
use tmux_web_panel.Base.{
  ℕ, suc, ◌-◌, Bool, true, false, not, ◌&&◌, Option, none, some, List, [], ◌∷◌, ◌++◌, Text, text,
  text_eq, ◌==◌, ltb, if◌then◌else◌, ◌⊎◌, inl, inr,
}
use tmux_web_panel.Base.Dict.{Dict, get, set, delete}

abbrev pub not_installed_ttl_ms : ℕ
not_installed_ttl_ms = 30000

pub record Server : Type 0 where
  pub id : Text
  pub is_local : Bool
  pub enabled : Bool
  pub connection_key : Text

pub record Entry : Type 0 where
  pub fingerprint : Text
  pub server : Server
  pub link : ℕ
  pub basic : Option ℕ
  pub not_installed_at : Option ℕ

pub record Pool : Type 0 where
  pub entries : Dict Text Entry
  pub next : ℕ

pub data Effect : Type 0 where
  opens closes opens_basic : ℕ → Effect
  ends_basic : ℕ → Text → Effect
  reaps_basic : ℕ → Effect

pub data Error : Type 0 where
  is_local_server is_disabled unsupported pairing_failed : Error

-- _close.
unfoldable pub close : Entry → Text → List Effect
close entry reason =
    closes entry.link ∷ (elim entry.basic [ none ↦ [] | some b ↦ ends_basic b reason ∷ [] ])

-- A new entry in place of what the pool has.
unfoldable pub replace : Server → Pool → Pool × List Effect × Entry
unfolding close
replace server p =
    let entry : Entry = record {
      fingerprint = server.connection_key;
      server = server;
      link = p.next;
      basic = none;
      not_installed_at = none;
    } in
    (
      record { entries = set server.id entry p.entries; next = suc p.next },
      (elim (get server.id p.entries) [
        | none ↦ []
        | some cached ↦ close cached (text "server_reconfigured")
      ])
          ++ opens p.next ∷ [],
      entry,
    )

-- The entry of a server whose connection fields are the cached ones gets the server's new data.
unfoldable pub renamed : Server → Entry → Pool → Pool × List Effect × Entry
renamed server cached p =
    let entry = record cached { server = server } in
    (record p { entries = set server.id entry p.entries }, [], entry)

-- The cached entry if the connection fields are still its own, and a new one otherwise.
unfoldable pub current : Server → Pool → Pool × List Effect × Entry
unfolding replace renamed
current server p = elim (get server.id p.entries) [
  | none ↦ replace server p
  | some cached ↦
      if cached.fingerprint == server.connection_key
      then renamed server cached p
      else replace server p
]

-- _entry, of a server that the registry has.
unfoldable pub entry_for : Bool → Server → Pool → Pool × List Effect × (Error ⊎ Entry)
unfolding current
entry_for allow_disabled server p =
    if server.is_local
    then (p, [], inl is_local_server)
    else if not allow_disabled && not server.enabled
    then (p, [], inl is_disabled)
    else (let (p', effects, entry) = current server p in (p', effects, inr entry))

abbrev put : Text → Entry → Pool → Pool
put id entry p = record p { entries = set id entry p.entries }

-- `basic`; `can_host` is whether the pool was made with a way to create basic hosts.
unfoldable pub basic_host : Bool → Bool → Server → Pool → Pool × List Effect × (Error ⊎ ℕ)
unfolding entry_for
basic_host can_host allow_disabled server p =
    let (p', effects, result) = entry_for allow_disabled server p in
    elim result [
      | inl e ↦ (p', effects, inl e)
      | inr entry ↦ elim entry.basic [
        | some b ↦ (p', effects, inr b)
        | none ↦
            if can_host
            then (
              record (put server.id (record entry { basic = some p'.next }) p') {
                next = suc p'.next;
              },
              effects ++ opens_basic p'.next ∷ [],
              inr p'.next,
            )
            else (p', effects, inl unsupported)
      ]
    ]

pub data Mode : Type 0 where
  node basic : Mode

-- How `link.ensure()` ends.
pub data Pairing : Type 0 where
  paired not_installed failed : Pairing

-- `mode`: whether the link is ready, and what pairing would come to, are arguments. A pairing is
-- taken to end before the entry is touched by another call.
unfoldable pub mode :
    Bool → Bool → Pairing → ℕ → Server → Pool → Pool × List Effect × (Error ⊎ Mode)
unfolding entry_for
mode force ready pairing now server p =
    let (p', effects, result) = entry_for false server p in
    elim result [
      | inl e ↦ (p', effects, inl e)
      | inr entry ↦
          if ready
          then (p', effects, inr node)
          else if not force && (elim entry.not_installed_at [
            | none ↦ false
            | some t ↦ ltb (now - t) not_installed_ttl_ms
          ])
          then (p', effects, inr basic)
          else (elim pairing [
            | paired ↦
                (put server.id (record entry { not_installed_at = none }) p', effects, inr node)
            | not_installed ↦ (
              put server.id (record entry { not_installed_at = some now }) p',
              effects,
              inr basic,
            )
            | failed ↦ (p', effects, inl pairing_failed)
          ])
    ]

unfoldable pub recheck : Text → Pool → Pool
recheck id p = elim (get id p.entries) [
  | none ↦ p
  | some entry ↦ put id (record entry { not_installed_at = none }) p
]

unfoldable pub invalidate : Text → Pool → Pool × List Effect
unfolding close
invalidate id p = (
  record p { entries = delete id p.entries },
  (elim (get id p.entries) [ none ↦ [] | some entry ↦ close entry (text "server_reconfigured") ]),
)

unfoldable pub reap_basic : Dict Text Entry → List Effect
reap_basic [] = []
reap_basic ((id, entry) ∷ es) =
    (elim entry.basic [ none ↦ [] | some b ↦ reaps_basic b ∷ [] ]) ++ reap_basic es

unfoldable pub close_each : Dict Text Entry → List Effect
unfolding close
close_each [] = []
close_each ((id, entry) ∷ es) = close entry (text "server_shutdown") ++ close_each es

unfoldable pub close_all : Pool → Pool × List Effect
unfolding close_each
close_all p = (record p { entries = [] }, close_each p.entries)
