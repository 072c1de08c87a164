-- ===== src/Notifications.antt =====
-- NotificationStore of lib/notifications.js. Ids are drawn outside and the clock is an argument.
-- The file holds what was written last; a JSON value that is written reads back as it was.
pub mod Reading
pub mod Reaping
pub mod Saving
pub mod Tests
use tmux_web_panel.Base.{
  ℕ, suc, ◌+◌, ◌-◌, ◌*◌, Bool, true, false, not, ◌&&◌, Option, none, some, List, [], ◌∷◌, Text,
  text, text_eq, ◌==◌, ltb, nat_beq, if◌then◌else◌, keep, find, count_if, any, length, or_else,
  is_some,
}
use tmux_web_panel.Base.Int.{ℤ}
use tmux_web_panel.Base.Texts.{truthy, int_text}

abbrev pub read_ttl_ms : ℕ
read_ttl_ms = 60 * 60 * 1000

-- `number|string`; a number is an integer.
pub data WindowIndex : Type 0 where
  index : ℤ → WindowIndex
  label : Text → WindowIndex

-- `String(windowIndex)`.
unfoldable pub index_text : WindowIndex → Text
unfolding int_text
index_text (index z) = int_text z
index_text (label t) = t

pub record Notification : Type 0 where
  pub id : Text
  pub type : Text
  pub state : Text
  pub source : Text
  pub event : Text
  pub session : Text
  pub window_index : WindowIndex
  pub window_id : Text
  pub window_name : Text
  pub command : Text
  pub pane_id : Text
  pub reason : Text
  pub timestamp : ℕ
  pub read : Bool
  pub read_at : Option ℕ

-- What `add` is given; a missing field is `none`.
pub record Entry : Type 0 where
  pub type : Option Text
  pub state : Option Text
  pub source : Option Text
  pub event : Option Text
  pub session : Text
  pub window_index : WindowIndex
  pub window_id : Option Text
  pub window_name : Option Text
  pub prev_command : Option Text
  pub pane_id : Option Text
  pub reason : Option Text

-- The two timers are kept as whether they run.
pub record Store : Type 0 where
  pub notifications : List Notification
  pub persist_scheduled : Bool
  pub reaping : Bool
  pub disk : Option (List Notification)

unfoldable pub schedule_persist : Store → Store
schedule_persist s = record s { persist_scheduled = true }

unfoldable pub start_reaper : Store → Store
start_reaper s = if s.reaping then s else record s { reaping = true }

unfoldable pub stop_reaper : Store → Store
stop_reaper s = if s.reaping then record s { reaping = false } else s

abbrev or_empty : Option Text → Text
or_empty o = or_else (truthy o) []

unfoldable pub notification_of : Text → ℕ → Entry → Notification
notification_of id now entry = record {
  id = id;
  type = or_else (truthy entry.type) (text "command-complete");
  state = or_empty entry.state;
  source = or_empty entry.source;
  event = or_empty entry.event;
  session = entry.session;
  window_index = entry.window_index;
  window_id = or_empty entry.window_id;
  window_name = or_empty entry.window_name;
  command = or_empty entry.prev_command;
  pane_id = or_empty entry.pane_id;
  reason = or_empty entry.reason;
  timestamp = now;
  read = false;
  read_at = none;
}

unfoldable pub add : Text → ℕ → Entry → Store → Store × Notification
unfolding schedule_persist notification_of
add id now entry s =
    let n = notification_of id now entry in
    (schedule_persist (record s { notifications = n ∷ s.notifications }), n)

abbrev pub as_read : ℕ → Notification → Notification
as_read now n = record n { read = true; read_at = some now }

-- Marks the first notification with the id.
unfoldable pub mark_first : Text → ℕ → List Notification → List Notification
mark_first id now [] = []
mark_first id now (n ∷ ns) = if n.id == id then as_read now n ∷ ns else n ∷ mark_first id now ns

unfoldable pub mark_read : Text → ℕ → Store → Store × Bool
unfolding mark_first schedule_persist
mark_read id now s = elim (find (λ n. n.id == id) s.notifications) [
  | none ↦ (s, false)
  | some n ↦
      if n.read
      then (s, true)
      else (schedule_persist (record s { notifications = mark_first id now s.notifications }), true)
]

unfoldable pub is_unread_in : Text → Text → Notification → Bool
unfolding index_text
is_unread_in session win_idx n =
    not n.read && (n.session == session && index_text n.window_index == win_idx)

-- The loop of markReadByWindow: the list with its matches marked, and how many there were.
unfoldable pub mark_window : Text → Text → ℕ → List Notification → List Notification × ℕ
unfolding is_unread_in
mark_window session win_idx now [] = ([], 0)
mark_window session win_idx now (n ∷ ns) =
    let (ns', count) = mark_window session win_idx now ns in
    if is_unread_in session win_idx n then (as_read now n ∷ ns', suc count) else (n ∷ ns', count)

unfoldable pub mark_read_by_window : Text → WindowIndex → ℕ → Store → Store × ℕ
unfolding index_text mark_window schedule_persist
mark_read_by_window session window_index now s =
    let (ns, count) = mark_window session (index_text window_index) now s.notifications in
    let s' = record s { notifications = ns } in
    (if ltb 0 count then schedule_persist s' else s', count)

unfoldable pub clear_all : Store → Store
unfolding schedule_persist
clear_all s = schedule_persist (record s { notifications = [] })

abbrev pub unread : List Notification → List Notification
unread = keep (λ n. not n.read)

unfoldable pub unread_count : Store → ℕ
unread_count s = length (unread s.notifications)

-- The filter of _reap. A read time that is missing counts as 0, as `now - null` does.
unfoldable pub is_kept : ℕ → Notification → Bool
is_kept now n = if not n.read then true else ltb (now - or_else n.read_at 0) read_ttl_ms

unfoldable pub reap : ℕ → Store → Store
unfolding is_kept schedule_persist
reap now s =
    let ns = keep (is_kept now) s.notifications in
    let s' = record s { notifications = ns } in
    if nat_beq (length ns) (length s.notifications) then s' else schedule_persist s'

-- The constructor: an empty store, filled from the file if that holds a list, and reaped.
unfoldable pub load : ℕ → Option (List Notification) → Store
unfolding reap
load now none = record {
  notifications = [];
  persist_scheduled = false;
  reaping = false;
  disk = none;
}
load now (some saved) = reap now (record {
  notifications = saved;
  persist_scheduled = false;
  reaping = false;
  disk = some saved;
})

-- The timer of _schedulePersist fires; a failed write is ignored.
unfoldable pub persist_fires : Bool → Store → Store
persist_fires written s = record s {
  persist_scheduled = false;
  disk = if written then some s.notifications else s.disk;
}
