-- ===== src/Monitor/Completions.antt =====
-- _detectCompletions of lib/monitor.js: which panes and windows have finished since the last round.
use tmux_web_panel.Base.{
  ℕ, Bool, false, not, ◌&&◌, Option, none, some, List, [], ◌∷◌, ◌++◌, Text, text, text_eq, nat_eq,
  bool_eq, ◌==◌, if◌then◌else◌, any, find, option_eq,
}
use tmux_web_panel.Base.Dict.{Dict, get, set}
use tmux_web_panel.Base.Texts.{decimal}

pub record PaneCommand : Type 0 where
  pub window_index : ℕ
  pub pane_id : Text
  pub command : Text

pub record WindowDetail : Type 0 where
  pub id : Text
  pub index : ℕ
  pub bell : Bool

pub record Session : Type 0 where
  pub name : Text
  pub window_details : List WindowDetail
  pub pane_commands : List PaneCommand

abbrev pub shell_commands : List Text
shell_commands =
    text "zsh"
    ∷ text "bash"
    ∷ text "fish"
    ∷ text "sh"
    ∷ text "dash"
    ∷ text "ksh"
    ∷ text "csh"
    ∷ text "tcsh"
    ∷ []

unfoldable pub is_shell : Text → Bool
is_shell c = any (λ s. s == c) shell_commands

pub data Source : Type 0 where
  command bell : Source

pub record CompletedPane : Type 0 where
  pub session : Text
  pub window_index : ℕ
  pub pane_id : Text
  pub prev_command : Text

pub record CompletedWindow : Type 0 where
  pub session : Text
  pub window_index : ℕ
  pub window_id : Option Text
  pub prev_command : Text
  pub source : Source

-- What one round remembers for the next.
pub record Memory : Type 0 where
  pub commands : Dict Text Text
  pub bells : Dict Text Bool

-- The variables of the loops.
pub record Found : Type 0 where
  pub memory : Memory
  pub windows : List CompletedWindow
  pub panes : List CompletedPane

-- `${session.name}:${pc.windowIndex}:${pc.paneId}`
unfoldable pub pane_key : Text → PaneCommand → Text
unfolding decimal
pane_key session pc = session ++ b':' ∷ decimal pc.window_index ++ b':' ∷ pc.pane_id

-- The command that a pane has come back from, if it was not at a shell before and is now.
unfoldable pub finished : Memory → Text → PaneCommand → Option Text
unfolding is_shell pane_key
finished old session pc = elim (get (pane_key session pc) old.commands) [
  | none ↦ none
  | some prev ↦ if not (is_shell prev) && is_shell pc.command then some prev else none
]

abbrev pub id_of : Option WindowDetail → Option Text
id_of none = none
id_of (some w) = some w.id

abbrev pub command_of : Option PaneCommand → Text
command_of none = []
command_of (some pc) = pc.command

-- The entries that the loops push.
abbrev pub of_command : Session → PaneCommand → Text → CompletedWindow
of_command s pc prev = record {
  session = s.name;
  window_index = pc.window_index;
  window_id = id_of (find (λ w. w.index == pc.window_index) s.window_details);
  prev_command = prev;
  source = command;
}

abbrev pub of_bell : Session → WindowDetail → CompletedWindow
of_bell s w = record {
  session = s.name;
  window_index = w.index;
  window_id = some w.id;
  prev_command = command_of (find (λ pc. pc.window_index == w.index) s.pane_commands);
  source = bell;
}

-- One round of the loop over the panes; `done` holds the windows that are already in the list.
unfoldable pub pane_step : Memory → Session → PaneCommand → List ℕ × Found → List ℕ × Found
unfolding finished pane_key
pane_step old session pc (done, found) =
    let remembered = record found.memory {
      commands = set (pane_key session.name pc) pc.command found.memory.commands;
    } in
    elim (finished old session.name pc) [
      | none ↦ (done, record found { memory = remembered })
      | some prev ↦
          let panes =
            found.panes
            ++ record {
              session = session.name;
              window_index = pc.window_index;
              pane_id = pc.pane_id;
              prev_command = prev;
            }
              ∷ [] in
          if any (λ i. i == pc.window_index) done
          then (done, record found { memory = remembered; panes = panes })
          else (
            done ++ pc.window_index ∷ [],
            record found {
              memory = remembered;
              panes = panes;
              windows = found.windows ++ of_command session pc prev ∷ [];
            },
          )
    ]

unfoldable pub pane_loop : Memory → Session → List PaneCommand → List ℕ × Found → List ℕ × Found
unfolding pane_step
pane_loop old session [] x = x
pane_loop old session (pc ∷ pcs) x = pane_loop old session pcs (pane_step old session pc x)

-- The bell of a window has just been raised.
unfoldable pub rings : Memory → WindowDetail → Bool
rings old w = option_eq.equals (get w.id old.bells) (some false) && w.bell

unfoldable pub window_step : Memory → Session → List ℕ → WindowDetail → Found → Found
unfolding rings
window_step old session done w found =
    let remembered = record found.memory { bells = set w.id w.bell found.memory.bells } in
    if rings old w && not (any (λ i. i == w.index) done)
    then record found { memory = remembered; windows = found.windows ++ of_bell session w ∷ [] }
    else record found { memory = remembered }

unfoldable pub window_loop : Memory → Session → List ℕ → List WindowDetail → Found → Found
unfolding window_step
window_loop old session done [] found = found
window_loop old session done (w ∷ ws) found =
    window_loop old session done ws (window_step old session done w found)

unfoldable pub session_step : Memory → Session → Found → Found
unfolding pane_loop window_loop
session_step old session found =
    let (done, found') = pane_loop old session session.pane_commands ([], found) in
    window_loop old session done session.window_details found'

unfoldable pub session_loop : Memory → List Session → Found → Found
unfolding session_step
session_loop old [] found = found
session_loop old (s ∷ ss) found = session_loop old ss (session_step old s found)

abbrev pub nothing : Found
nothing = record { memory = record { commands = []; bells = [] }; windows = []; panes = [] }

unfoldable pub detect_completions : Memory → List Session → Found
unfolding session_loop
detect_completions old sessions = session_loop old sessions nothing
