-- ===== src/Registry/Writes.antt =====
-- load, _persist, _commit, _snapshot and _restore of lib/servers/registry.js. A write is settled
-- after the operation that asked for it, and the writes wait in line, so a second operation may run
-- before the first one's write is settled.
use tmux_web_panel.Base.{
  Bool, true, false, Option, none, some, List, [], ◌∷◌, ◌++◌, Text, text, text_eq,
}
use tmux_web_panel.Base.Int.{ℤ}
use tmux_web_panel.Base.Dict.{Dict, set}
use tmux_web_panel.Base.Texts.{truthy}
use tmux_web_panel.AgentEvents.Event.{Value, string}
use tmux_web_panel.Errors.{internal}
use tmux_web_panel.Registry.Failure.{Failure, Result, ok, fail}
use tmux_web_panel.Registry.Input.{not_an_object, body}
use tmux_web_panel.Registry.Store.{
  Server, Memory, DiskEntry, File, no_file, unreadable, unparseable, parsed, Store, Op, change,
}
use tmux_web_panel.Registry.Disk.{serialize, load_entry, Loaded, loaded, faulty}

-- What the loop over the entries has gathered.
pub record Gathered : Type 0 where
  pub servers : Dict Text Server
  pub errors : List (Option Text × Text)
  pub block : Option Text

abbrev pub nothing_gathered : Gathered
nothing_gathered = record { servers = []; errors = []; block = none }

abbrev given_id : DiskEntry → Option Text
given_id entry = elim entry.content [
  | not_an_object ↦ none
  | body i ↦ elim i.id [ some (string t) ↦ some t | _ ↦ none ]
]

abbrev block_or : Bool → Option Text → Option Text
block_or true old = some (text "password_unreadable")
block_or false old = old

unfoldable pub gather : DiskEntry → Loaded → Gathered → Gathered
unfolding set
gather entry (loaded s) g = record g { servers = set s.id s g.servers }
gather entry (faulty field unreadable_password) g = record {
  servers = g.servers;
  errors = g.errors ++ (given_id entry, field) ∷ [];
  block = block_or unreadable_password g.block;
}

abbrev pub empty_memory : Memory
empty_memory = record { servers = []; local_name = none }

abbrev blocked_store : Text → File → Store
blocked_store reason file = record {
  memory = empty_memory;
  load_errors = (none, reason) ∷ [];
  write_block = some reason;
  file = file;
  pending = [];
}

module _ (is_ipv6 : Text → Bool) (to_integer : Value → Option ℤ) (revision now : Text)
    (decrypt : Text → Value → Option Text) where
  unfoldable pub load_entries : List DiskEntry → Gathered → Gathered
  unfolding load_entry gather
  load_entries [] g = g
  load_entries (entry ∷ rest) g =
      load_entries rest
        (gather entry (load_entry is_ipv6 to_integer revision now decrypt g.servers entry) g)

  unfoldable pub load : File → Store
  unfolding load_entries
  load no_file = record {
    memory = empty_memory;
    load_errors = [];
    write_block = none;
    file = no_file;
    pending = [];
  }
  load unreadable = blocked_store (text "file_unreadable") unreadable
  load unparseable = blocked_store (text "file_unparseable") unparseable
  load (parsed name entries) =
      let g = load_entries entries nothing_gathered in
      record {
        memory = record { servers = g.servers; local_name = truthy name };
        load_errors = g.errors;
        write_block = g.block;
        file = parsed name entries;
        pending = [];
      }

-- How an operation comes back to its caller.
pub data Answer : Type 0 where
  done : Answer
  failed : Failure → Answer

-- What is answered at once: `none` where the operation waits for its write.
module _ (is_ipv6 : Text → Bool) (to_integer : Value → Option ℤ) where
  abbrev begin : Result Memory → Store → Store × Option Answer
  begin (fail f) s = (s, some (failed f))
  begin (ok m) s = elim s.write_block [
    | some reason ↦ (s, some (failed (record { code = internal; field = [] })))
    | none ↦ (record s { memory = m; pending = s.pending ++ s.memory ∷ [] }, none)
  ]

  -- The part of an operation up to its wait: the checks, the snapshot, the change of the memory and
  -- the request to write. A refused write restores the snapshot that was just taken.
  unfoldable pub start : (revision now : Text) → Op → Store → Store × Option Answer
  unfolding change
  start revision now op s = begin (change is_ipv6 to_integer revision now op s.memory) s

-- The oldest write is carried out: it writes what the memory holds by then. A write that fails
-- restores the snapshot of its operation.
unfoldable pub settle : (Text → Text → Text) → (written : Bool) → Store → Store × Option Answer
unfolding serialize
settle encrypt written s = elim s.pending [
  | [] ↦ (s, none)
  | snapshot ∷ rest ↦ elim written [
    | true ↦ (record s { file = serialize encrypt s.memory; pending = rest }, some done)
    | false ↦ (
      record s { memory = snapshot; pending = rest },
      some (failed (record { code = internal; field = text "write" })),
    )
  ]
]

-- One operation with nothing else at work.
unfoldable pub perform :
    (Text → Bool)
    → (Value → Option ℤ)
    → (Text → Text → Text)
    → (revision now : Text) → Op
    → (written : Bool) → Store
    → Store × Answer
unfolding start settle
perform is_ipv6 to_integer encrypt revision now op written s =
    let begun = start is_ipv6 to_integer revision now op s in
    elim begun.1 [
      | some answer ↦ (begun.0, answer)
      | none ↦
          let settled = settle encrypt written begun.0 in
          elim settled.1 [ some answer ↦ (settled.0, answer) | none ↦ (settled.0, done) ]
    ]
