-- ===== src/Panes/Runtime.antt =====
-- PaneRuntime of lib/hub/basic/pane-runtime.js: one shell, many subscribers. A method returns the
-- new state with what it did to the outside, in order. The clock, and whether a call of the
-- terminal process throws, are arguments; subscribers are told apart by number.
pub mod Events
pub mod Exits
pub mod Expiry
pub mod Focus
use tmux_web_panel.Base.{
  ℕ, ◌+◌, ◌-◌, Bool, true, false, not, ◌&&◌, ◌||◌, Option, none, some, List, [], ◌∷◌, ◌++◌, map,
  Text, text, ltb, leb, nat_beq, nat_eq, ◌==◌, if◌then◌else◌, max, any, keep, or_else, option_eq,
}
use tmux_web_panel.Base.Int.{ℤ, pos, negsuc, ltb_ℤ, pos_part}
use tmux_web_panel.Panes.Utf8.{Chars}
use tmux_web_panel.Panes.Ring.{Ring, empty, push, read}

abbrev pub default_detached_ttl_ms : ℕ
default_detached_ttl_ms = 1800000

abbrev pub max_dimension : ℕ
max_dimension = 2000

pub record ExitInfo : Type 0 where
  pub code : Option ℕ
  pub signal : Option ℕ

pub data Signal : Type 0 where
  hup default_signal kill : Signal

pub data Effect : Type 0 where
  spawns : (cols rows : ℕ) → Effect
  sends : ℕ → Chars → Effect
  tells_exit : ℕ → ExitInfo → Text → Effect
  writes : Chars → Effect
  resizes : (cols rows : ℕ) → Effect
  kills : Signal → Effect
  reports_exit : Effect

pub record Runtime : Type 0 where
  pub cols : ℕ
  pub rows : ℕ
  pub subscribers : List ℕ
  pub output : Ring
  pub detached_ttl_ms : ℕ
  pub last_activity_at : ℕ
  pub detached_at : Option ℕ
  pub has_pty : Bool
  pub exited : Bool
  pub exit_info : Option ExitInfo
  pub destroyed : Bool
  pub exit_notified : Bool
  pub focus_epoch : ℤ
  pub focus_owner : Option ℕ
  pub kill_timer : Bool

unfoldable pub init : (cols rows buffer_bytes detached_ttl_ms now : ℕ) → Runtime
unfolding empty
init cols rows buffer_bytes detached_ttl_ms now = record {
  cols = cols;
  rows = rows;
  subscribers = [];
  output = empty buffer_bytes;
  detached_ttl_ms = detached_ttl_ms;
  last_activity_at = now;
  detached_at = none;
  has_pty = false;
  exited = false;
  exit_info = none;
  destroyed = false;
  exit_notified = false;
  focus_epoch = negsuc 0;
  focus_owner = none;
  kill_timer = false;
}

unfoldable pub is_alive : Runtime → Bool
is_alive r = r.has_pty && (not r.exited && not r.destroyed)

unfoldable pub start : Runtime → Runtime × List Effect
start r =
    if r.has_pty || (r.exited || r.destroyed)
    then (r, [])
    else (record r { has_pty = true }, spawns r.cols r.rows ∷ [])

-- _fanout; a socket that throws is ignored, and the others still get the data.
abbrev pub fanout : Chars → List ℕ → List Effect
fanout t [] = []
fanout t (s ∷ ss) = sends s t ∷ fanout t ss

abbrev pub tell_all : ExitInfo → Text → List ℕ → List Effect
tell_all info reason [] = []
tell_all info reason (s ∷ ss) = tells_exit s info reason ∷ tell_all info reason ss

unfoldable pub broadcast_exit : ExitInfo → Text → Runtime → Runtime × List Effect
broadcast_exit info reason r =
    if r.exit_notified
    then (r, [])
    else (record r { exit_notified = true; subscribers = [] }, tell_all info reason r.subscribers)

-- The handler of the process's output.
unfoldable pub on_data : Chars → ℕ → Runtime → Runtime × List Effect
on_data t now r =
    (record r { last_activity_at = now; output = push t r.output }, fanout t r.subscribers)

-- The handler of its end.
unfoldable pub on_exit : ExitInfo → Runtime → Runtime × List Effect
unfolding broadcast_exit
on_exit info r =
    let (r', told) =
      broadcast_exit info (text "remote_shell_exit")
        (record r { exited = true; exit_info = some info; kill_timer = false }) in
    (r', told ++ reports_exit ∷ [])

-- A `Set` keeps its order, and a known member keeps its place.
abbrev pub add_member : ℕ → List ℕ → List ℕ
add_member s ss = if any (λ x. x == s) ss then ss else ss ++ s ∷ []

abbrev pub remove_member : ℕ → List ℕ → List ℕ
remove_member s ss = keep (λ x. not (x == s)) ss

-- `none` is the thrown PANE_NOT_FOUND; otherwise the replay is returned.
unfoldable pub subscribe : ℕ → ℕ → Runtime → Runtime × List Effect × Option Chars
unfolding start read
subscribe s now r =
    if r.exited || r.destroyed
    then (r, [], none)
    else (let (r', effects) = start r in
        (
          record r' {
            subscribers = add_member s r.subscribers;
            detached_at = none;
            last_activity_at = now;
          },
          effects,
          some (read r.output),
        ))

unfoldable pub unsubscribe : ℕ → ℕ → Runtime → Runtime
unsubscribe s now r =
    let left = remove_member s r.subscribers in
    let owned = option_eq.equals r.focus_owner (some s) in
    record r {
      subscribers = left;
      focus_owner = if owned then none else r.focus_owner;
      focus_epoch = if owned then negsuc 0 else r.focus_epoch;
      detached_at = elim left [ [] ↦ some now | x ∷ xs ↦ r.detached_at ];
    }

unfoldable pub write : Chars → ℕ → Runtime → Runtime × List Effect × Bool
unfolding is_alive
write t now r =
    if is_alive r
    then (record r { last_activity_at = now }, writes t ∷ [], true)
    else (r, [], false)

-- A dimension from a client: `none` is a value that is no integer.
unfoldable pub valid_dimension : Option ℤ → Option ℕ
valid_dimension (some (pos n)) = if leb n 0 || ltb max_dimension n then none else some n
valid_dimension _ = none

-- The size change at the end of `resize`; `works` is false if the process refuses the size.
unfoldable pub apply_size : Bool → ℕ → ℕ → Runtime → Runtime × List Effect × Bool
unfolding is_alive
apply_size works cols rows r =
    if cols == r.cols && rows == r.rows
    then (r, [], true)
    else (let r' = record r { cols = cols; rows = rows } in
        if is_alive r then (r', resizes cols rows ∷ [], works) else (r', [], true))

-- `if (this._focusOwner && subscriber && this._focusOwner !== subscriber)`.
abbrev pub is_other : Option ℕ → Option ℕ → Bool
is_other (some owner) (some s) = not (owner == s)
is_other _ _ = false

unfoldable pub resize_to :
    Bool → ℕ → ℕ → Option ℤ → Option ℕ → Runtime → Runtime × List Effect × Bool
unfolding apply_size
resize_to works cols rows none subscriber r =
    if is_other r.focus_owner subscriber then (r, [], false) else apply_size works cols rows r
resize_to works cols rows (some epoch) subscriber r =
    if ltb_ℤ epoch r.focus_epoch
    then (r, [], false)
    else apply_size works cols rows (record r { focus_epoch = epoch; focus_owner = subscriber })

unfoldable pub resize :
    Bool → Option ℤ → Option ℤ → Option ℤ → Option ℕ → Runtime → Runtime × List Effect × Bool
unfolding valid_dimension resize_to
resize works cols rows epoch subscriber r = elim (valid_dimension cols) [
  | none ↦ (r, [], false)
  | some c ↦ elim (valid_dimension rows) [
    | none ↦ (r, [], false)
    | some n ↦ resize_to works c n epoch subscriber r
  ]
]

-- `none` is an epoch that is no integer.
unfoldable pub note_focus : ℕ → Option ℤ → Runtime → Runtime × Bool
note_focus s none r = (r, false)
note_focus s (some epoch) r =
    if ltb_ℤ epoch r.focus_epoch
    then (r, false)
    else (record r { focus_epoch = epoch; focus_owner = some s }, true)

-- `now - idleSince >= ttl` is written as a sum, which agrees with it also where the clock went back
-- and the difference is negative.
unfoldable pub is_expired : ℕ → Runtime → Bool
is_expired now r = elim r.subscribers [
  | s ∷ ss ↦ false
  | [] ↦ elim r.detached_at [
    | none ↦ false
    | some at ↦ leb (max at r.last_activity_at + r.detached_ttl_ms) now
  ]
]

abbrev pub no_exit_info : ExitInfo
no_exit_info = record { code = none; signal = none }

-- The reason that is kept beside code and signal is never read again, and is left out.
-- `hup_works` is false if the first signal throws, and then the default one is tried.
unfoldable pub destroy : Bool → Text → Runtime → Runtime × List Effect
unfolding broadcast_exit
destroy hup_works reason r =
    let info = or_else r.exit_info no_exit_info in
    let (r', told) =
      broadcast_exit info reason
        (record r { kill_timer = false; destroyed = true; exit_info = some info }) in
    if not r.has_pty || r.exited then (record r' { exited = true }, told) else (
      record r' { kill_timer = true },
      told ++ (if hup_works then kills hup ∷ [] else kills hup ∷ kills default_signal ∷ []),
    )

-- The escalation timer.
unfoldable pub kill_timer_fires : Runtime → Runtime × List Effect
kill_timer_fires r = (record r { kill_timer = false }, if r.exited then [] else kills kill ∷ [])
