-- ===== src/Tmux/Lines.antt =====
-- parseSessions, parseWindows, parsePanes, parsePaneCommands and parsePaneAddress of lib/tmux.js.
-- A field that a short line lacks is `none`. `Number(t)` of a field is kept as the field's text:
-- no function here looks into the number.
use tmux_web_panel.Base.{
  Bool, Option, none, some, List, [], Text, text, nat_eq, text_eq, option_eq, ◌==◌, if◌then◌else◌,
  ltb, length, map, get_elem?,
}
use tmux_web_panel.Base.Texts.{split, trim, or_text, truthy}
use tmux_web_panel.Tmux.Fields.{split_tmux_fields}
use tmux_web_panel.Tmux.Names.{is_empty, or_empty, command_name, window_name}

-- `Number(x)` where `x` is a field, `undefined` included.
pub data Number : Type 0 where
  number_of : Option Text → Number
  zero_number : Number

pub record Session : Type 0 where
  pub id : Option Text
  pub name : Option Text
  pub windows : Number
  pub attached : Bool
  pub last_activity : Option Text

pub record Window : Type 0 where
  pub id : Option Text
  pub index : Number
  pub name : Text
  pub active : Bool
  pub width : Number
  pub height : Number
  pub bell : Bool
  pub activity : Number

pub record Pane : Type 0 where
  pub id : Option Text
  pub x : Number
  pub y : Number
  pub width : Number
  pub height : Number
  pub active : Bool
  pub command : Text
  pub label : Text

pub record PaneCommand : Type 0 where
  pub window_index : Number
  pub pane_id : Option Text
  pub command : Text
  pub path : Text
  pub pid : Number

pub record PaneAddress : Type 0 where
  pub pane_id : Text
  pub session_id : Option Text
  pub session_name : Option Text
  pub window_id : Text
  pub window_index : Number

abbrev pub is_one : Option Text → Bool
is_one field = field == some (text "1")

-- `output.trim().split('\n')`, or no line for an output of spaces.
unfoldable pub lines : Text → List Text
unfolding trim split
lines output = if is_empty (trim output) then [] else split b'\n' (trim output)

unfoldable pub parse_session : Text → Session
unfolding split_tmux_fields split
parse_session line =
    let fields = split_tmux_fields line 5 1 in
    let legacy = split b'|' line in
    if ltb (length fields) 5
    then record {
      id = none;
      name = get_elem? legacy 0;
      windows = number_of (get_elem? legacy 1);
      attached = is_one (get_elem? legacy 2);
      last_activity = get_elem? legacy 3;
    }
    else record {
      id = get_elem? fields 0;
      name = get_elem? fields 1;
      windows = number_of (get_elem? fields 2);
      attached = is_one (get_elem? fields 3);
      last_activity = get_elem? fields 4;
    }

unfoldable pub parse_sessions : Text → List Session
unfolding lines parse_session
parse_sessions output = map parse_session (lines output)

unfoldable pub parse_window : Text → Window
unfolding split_tmux_fields window_name
parse_window line =
    let fields = split_tmux_fields line 8 2 in
    record {
      id = get_elem? fields 0;
      index = number_of (get_elem? fields 1);
      name = window_name (get_elem? fields 2);
      active = is_one (get_elem? fields 3);
      width = number_of (get_elem? fields 4);
      height = number_of (get_elem? fields 5);
      bell = is_one (get_elem? fields 6);
      activity = number_of (get_elem? fields 7);
    }

unfoldable pub parse_windows : Text → List Window
unfolding lines parse_window
parse_windows output = map parse_window (lines output)

unfoldable pub parse_pane : Text → Pane
unfolding split_tmux_fields command_name
parse_pane line =
    let fields = split_tmux_fields line 8 6 in
    record {
      id = get_elem? fields 0;
      x = number_of (get_elem? fields 1);
      y = number_of (get_elem? fields 2);
      width = number_of (get_elem? fields 3);
      height = number_of (get_elem? fields 4);
      active = is_one (get_elem? fields 5);
      command = command_name (get_elem? fields 6);
      label = or_empty (get_elem? fields 7);
    }

unfoldable pub parse_panes : Text → List Pane
unfolding lines parse_pane
parse_panes output = map parse_pane (lines output)

abbrev pub pid_number : Option Text → Number
pid_number field = elim (truthy field) [ none ↦ zero_number | some t ↦ number_of (some t) ]

unfoldable pub parse_pane_command : Text → PaneCommand
unfolding split_tmux_fields command_name
parse_pane_command line =
    let fields = split_tmux_fields line 5 3 in
    record {
      window_index = number_of (get_elem? fields 0);
      pane_id = get_elem? fields 1;
      command = command_name (get_elem? fields 2);
      path = or_empty (get_elem? fields 3);
      pid = pid_number (get_elem? fields 4);
    }

unfoldable pub parse_pane_commands : Text → List PaneCommand
unfolding lines parse_pane_command
parse_pane_commands output = map parse_pane_command (lines output)

abbrev address : Option Text → Option Text → List Text → Option PaneAddress
address (some pane) (some window) fields = some (record {
  pane_id = pane;
  session_id = or_text (get_elem? fields 1) (get_elem? fields 2);
  session_name = get_elem? fields 2;
  window_id = window;
  window_index = number_of (get_elem? fields 4);
})
address _ _ fields = none

unfoldable pub parse_pane_address : Text → Option PaneAddress
unfolding split_tmux_fields trim
parse_pane_address output =
    let fields = split_tmux_fields (trim output) 5 2 in
    if is_empty (trim output)
    then none
    else address (truthy (get_elem? fields 0)) (truthy (get_elem? fields 3)) fields
