-- ===== src/AgentEvents/Event.antt =====
-- The first half of lib/agent-events.js: the tables, normalizeAgentEvent and the two keys.
-- A JSON value is a `Value`; its numbers are integers, and a missing member is `null`, which every
-- reader here treats alike. The tables are read at their own keys; names that every object
-- inherits, such as "constructor", are not in the model.
use Prim.Native.String.{String}
use tmux_web_panel.Base.{
  ℕ, Bool, false, Option, none, some, List, [], ◌∷◌, ◌++◌, Text, text, text_eq, ◌==◌, if◌then◌else◌,
  or_else, zero,
}
use tmux_web_panel.Base.Int.{ℤ}
use tmux_web_panel.Base.Dict.{Dict, get}
use tmux_web_panel.Base.Texts.{trim, int_text, parse_int, truthy}

mutual
  pub data Value : Type 0 where
    null : Value
    bool : Bool → Value
    number : ℤ → Value
    string : Text → Value
    array : Items → Value
    object : Fields → Value

  pub data Items : Type 0 where
    no_items : Items
    item : (first : Value) (rest : Items) → Items

  pub data Fields : Type 0 where
    end : Fields
    field : Text → Value → Fields → Fields

pub data State : Type 0 where
  agent_stopped waiting_attention session_ended process_exited failed : State

abbrev pub default_dedupe_ms : ℕ
default_dedupe_ms = 10000

-- DEDUPE_WINDOWS, which has every state.
abbrev pub dedupe_window : State → ℕ
dedupe_window agent_stopped = 10000
dedupe_window waiting_attention = 120000
dedupe_window session_ended = 30000
dedupe_window process_exited = 30000
dedupe_window failed = 30000

-- STATE_PRIORITY.
abbrev pub state_priority : State → ℕ
state_priority session_ended = 50
state_priority failed = 40
state_priority waiting_attention = 30
state_priority agent_stopped = 20
state_priority process_exited = 10

abbrev pub state_text : State → Text
state_text agent_stopped = text "agent_stopped"
state_text waiting_attention = text "waiting_attention"
state_text session_ended = text "session_ended"
state_text process_exited = text "process_exited"
state_text failed = text "failed"

-- EVENT_STATE.
abbrev pub event_states : Dict Text State
event_states =
    (text "Stop", agent_stopped)
    ∷ (text "agent_stop", agent_stopped)
    ∷ (text "agent_stopped", agent_stopped)
    ∷ (text "command_complete", agent_stopped)
    ∷ (text "bell", agent_stopped)
    ∷ (text "SessionEnd", session_ended)
    ∷ (text "session_end", session_ended)
    ∷ (text "session_ended", session_ended)
    ∷ (text "PermissionRequest", waiting_attention)
    ∷ (text "permission_wait", waiting_attention)
    ∷ (text "waiting_attention", waiting_attention)
    ∷ (text "Notification", waiting_attention)
    ∷ (text "notification", waiting_attention)
    ∷ (text "StopFailure", failed)
    ∷ (text "stop_failure", failed)
    ∷ (text "failed", failed)
    ∷ (text "process_exit", process_exited)
    ∷ (text "process_exited", process_exited)
    ∷ []

abbrev pub member : Text → Fields → Value
member k end = null
member k (field j v fs) = if k == j then v else member k fs

-- asObject: the members of an object, and none for anything else.
abbrev pub as_object : Value → Fields
as_object (object fs) = fs
as_object _ = end

-- `a || b` for values.
abbrev pub or_value : Value → Value → Value
or_value null b = b
or_value (bool false) b = b
or_value (number (ℤ.pos zero)) b = b
or_value (string []) b = b
or_value a b = a

-- `a ?? b`.
abbrev pub or_present : Value → Value → Value
or_present null b = b
or_present a b = a

unfoldable pub first_string : List Value → Text
unfolding trim int_text
first_string [] = []
first_string (string t ∷ vs) = elim (trim t) [ [] ↦ first_string vs | c ∷ u ↦ c ∷ u ]
first_string (number z ∷ vs) = int_text z
first_string (_ ∷ vs) = first_string vs

-- A fractional number, of which the source says null, is outside the model's numbers.
unfoldable pub parse_window_index : Value → Option ℤ
unfolding trim parse_int
parse_window_index (number z) = some z
parse_window_index (string t) = parse_int (trim t)
parse_window_index _ = none

pub record Event : Type 0 where
  pub source : Text
  pub event : Text
  pub state : State
  pub session : Text
  pub window_id : Text
  pub window_index : Option ℤ
  pub window_name : Text
  pub pane_id : Text
  pub session_id : Text
  pub cwd : Text
  pub tty : Text
  pub command : Text
  pub reason : Text
  pub hook_event_name : Text
  pub notification_type : Text
  pub priority : ℕ
  pub timestamp : ℕ

-- `EVENT_STATE[a] || EVENT_STATE[b] || EVENT_STATE[c] || 'waiting_attention'`.
unfoldable pub state_of : Text → Text → Text → State
unfolding get
state_of a b c = elim (get a event_states) [
  | some s ↦ s
  | none ↦ elim (get b event_states) [
    | some s ↦ s
    | none ↦ or_else (get c event_states) waiting_attention
  ]
]

unfoldable pub normalize_agent_event : ℕ → Value → Event
unfolding first_string parse_window_index state_of
normalize_agent_event now input =
    let raw : Fields = as_object input in
    let m : String → Value = λ k. member (text k) raw in
    let tmux : Fields = as_object (or_value (m "tmux") (or_value (m "pane") (m "window"))) in
    let t : String → Value = λ k. member (text k) tmux in
    let hook = first_string (m "hook_event_name" ∷ m "hookEventName" ∷ []) in
    let event = first_string (m "event" ∷ string hook ∷ m "type" ∷ []) in
    let state = state_of event hook (first_string (m "state" ∷ [])) in
    record {
      source = first_string (m "agent" ∷ m "source" ∷ m "cli" ∷ string (text "agent") ∷ []);
      event = or_else (truthy (some event)) (state_text state);
      state = state;
      session =
          first_string (
            m "session" ∷ m "tmux_session" ∷ m "tmuxSession" ∷ t "session" ∷ t "tmux_session" ∷ []);
      window_id = first_string (m "windowId" ∷ m "window_id" ∷ t "windowId" ∷ t "window_id" ∷ []);
      window_index = parse_window_index (
          or_present (m "windowIndex")
            (or_present (m "window_index") (or_present (t "windowIndex") (t "window_index"))));
      window_name =
          first_string (m "windowName" ∷ m "window_name" ∷ t "windowName" ∷ t "window_name" ∷ []);
      pane_id = first_string (m "paneId" ∷ m "pane_id" ∷ t "paneId" ∷ t "pane_id" ∷ []);
      session_id = first_string (m "session_id" ∷ m "sessionId" ∷ []);
      cwd = first_string (m "cwd" ∷ []);
      tty = first_string (m "tty" ∷ m "TTY" ∷ []);
      command = first_string (m "prevCommand" ∷ m "command" ∷ m "tool_name" ∷ m "name" ∷ []);
      reason = first_string (m "reason" ∷ m "stopReason" ∷ m "message" ∷ m "closeReason" ∷ []);
      hook_event_name = hook;
      notification_type = first_string (m "notificationType" ∷ []);
      priority = state_priority state;
      timestamp = now;
    }

-- `session:index` if there are both.
unfoldable pub window_key : Text → Option ℤ → Text
unfolding int_text
window_key [] index = []
window_key (c ∷ session) none = []
window_key (c ∷ session) (some z) = (c ∷ session) ++ b':' ∷ int_text z

abbrev first_filled : List Text → Text
first_filled [] = text "unknown"
first_filled ([] ∷ ts) = first_filled ts
first_filled ((c ∷ t) ∷ ts) = c ∷ t

unfoldable pub location_key : Event → Text
unfolding window_key
location_key e = first_filled (
    e.pane_id
    ∷ e.window_id
    ∷ window_key e.session e.window_index
    ∷ e.session_id
    ∷ e.tty
    ∷ e.cwd
    ∷ [])

unfoldable pub dedupe_key : Event → Text
unfolding location_key
dedupe_key e = state_text e.state ++ b':' ∷ location_key e
