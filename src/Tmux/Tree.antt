-- ===== src/Tmux/Tree.antt =====
-- parseTree of lib/tmux.js.
use tmux_web_panel.Base.{
  ℕ, Bool, not, Option, none, some, List, [], ◌∷◌, ◌++◌, Text, nat_eq, text_eq, option_eq, ◌==◌,
  if◌then◌else◌, map, keep, any,
}
use tmux_web_panel.Base.Dict.{Dict, get, set}
use tmux_web_panel.Base.Texts.{split, starts_with}
use tmux_web_panel.Tmux.Fields.{field_sep, drop}
use tmux_web_panel.Tmux.Lines.{Session, Window, Pane, parse_sessions, parse_windows, parse_panes}

pub record Tree : Type 0 where
  pub sessions : List Session
  pub windows_by_session : Dict Text (List Window)
  pub panes_by_window : Dict Text (List Pane)

pub record WindowTree : Type 0 where
  pub window : Window
  pub panes : List Pane

pub record SessionTree : Type 0 where
  pub session : Session
  pub window_list : List WindowTree

abbrev pub empty_tree : Tree
empty_tree = record { sessions = []; windows_by_session = []; panes_by_window = [] }

-- What stands before the first separator and behind it.
unfoldable pub cut_sep : Text → Option (Text × Text)
unfolding starts_with
cut_sep [] = none
cut_sep (c ∷ t) =
    let later = cut_sep t in
    if starts_with (c ∷ t) field_sep
    then some ([], drop 2 t)
    else elim later [ none ↦ none | some (before, rest) ↦ some (c ∷ before, rest) ]

abbrev pub listed {ℓ} : {A : Type ℓ} → Option (List A) → List A
listed none = []
listed (some xs) = xs

abbrev pub same_pane : Pane → Pane → Bool
same_pane other pane = other.id == pane.id

-- `list-panes -a` repeats a linked window's panes for every session holding it.
unfoldable pub push_panes : List Pane → List Pane → List Pane
push_panes known parsed =
    known ++ keep (λ pane. not (any (λ other. same_pane other pane) known)) parsed

unfoldable pub add_line : ℕ → Option (Text × Text) → Tree → Tree
unfolding parse_windows parse_panes push_panes
add_line kind none tree = tree
add_line kind (some (parent, body)) tree =
    if kind == b'W'
    then record tree {
      windows_by_session =
          set parent (listed (get parent tree.windows_by_session) ++ parse_windows body)
            tree.windows_by_session;
    }
    else if kind == b'P'
    then record tree {
      panes_by_window =
          set parent (push_panes (listed (get parent tree.panes_by_window)) (parse_panes body))
            tree.panes_by_window;
    }
    else tree

-- One line: its kind, a separator, and what belongs to the kind.
unfoldable pub read_line : Text → Tree → Tree
unfolding starts_with parse_sessions cut_sep add_line
read_line [] tree = tree
read_line (kind ∷ line) tree =
    if starts_with line field_sep
    then if kind == b'S'
      then record tree { sessions = tree.sessions ++ parse_sessions (drop 3 line) }
      else add_line kind (cut_sep (drop 3 line)) tree
    else tree

unfoldable pub read_lines : List Text → Tree → Tree
unfolding read_line
read_lines [] tree = tree
read_lines (line ∷ rest) tree = read_lines rest (read_line line tree)

abbrev pub get_listed {ℓ} : {A : Type ℓ} → Option Text → Dict Text (List A) → List A
get_listed none m = []
get_listed (some k) m = listed (get k m)

unfoldable pub assemble : Tree → List SessionTree
assemble tree =
    map
      (λ session. record {
        session = session;
        window_list =
            map
              (λ window. record {
                window = window;
                panes = get_listed window.id tree.panes_by_window;
              })
              (get_listed session.id tree.windows_by_session);
      })
      tree.sessions

unfoldable pub parse_tree : Text → List SessionTree
unfolding split read_lines assemble
parse_tree output = assemble (read_lines (split b'\n' output) empty_tree)
