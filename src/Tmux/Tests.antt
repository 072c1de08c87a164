-- ===== src/Tmux/Tests.antt =====
-- Runs of the parsers of lib/tmux.js on concrete lines.
use tmux_web_panel.Base.{
  ◌≡◌, refl, inl, true, nat_eq, some, [], ◌∷◌, ◌++◌, Text, text, All, map, arith,
}
use tmux_web_panel.Base.Texts.{starts_with, includes, trim, trim_start, trim_end, is_space, split}
use tmux_web_panel.AgentEvents.Event.{string}
use tmux_web_panel.Tmux.Fields.{split_sep, join_sep, gather, split_tmux_fields}
use tmux_web_panel.Tmux.Joined.{split_tmux_fields-join_sep}
use tmux_web_panel.Tmux.Names.{
  command_name, window_name, split_path, strip_exe, validate_pane_label,
}
use tmux_web_panel.Tmux.Lines.{number_of, parse_pane, parse_pane_command, parse_panes, lines}
use tmux_web_panel.Tmux.Tree.{parse_tree}
use tmux_web_panel.Tmux.Repeats.{ListsDistinctPanes, parse_tree-ListsDistinctPanes}
use tmux_web_panel.Tmux.RoundTrip.{parse_pane_command-ends_open}
use tmux_web_panel.Tmux.Output.{
  PaneRow, IsPrintable, printed, pane_line, pane_of, parse_panes-printed,
}

native_command : command_name (some (text "C:\\Users\\me\\bin\\claude.EXE")) ≡ text "claude"
unfolding command_name split_path strip_exe
native_command = refl

chosen_name : window_name (some (text "a/b.exe")) ≡ text "a/b.exe"
unfolding window_name
chosen_name = refl

separator_in_name :
    split_tmux_fields (text "$1=:=a=:=b=:=2=:=1=:=99") 5 1
    ≡ text "$1" ∷ text "a=:=b" ∷ text "2" ∷ text "1" ∷ text "99" ∷ []
unfolding split_tmux_fields split_sep join_sep starts_with
separator_in_name = refl

split_tmux_fields-join_sep_example :
    split_tmux_fields
      (join_sep (text "$1" ∷ text "a=:=b" ∷ text "2" ∷ text "1" ∷ text "99" ∷ []))
      5
      1
    ≡ text "$1" ∷ text "a=:=b" ∷ text "2" ∷ text "1" ∷ text "99" ∷ []
unfolding split_sep starts_with
split_tmux_fields-join_sep_example =
    split_tmux_fields-join_sep (text "$1" ∷ []) (text "a=:=b")
      (text "2" ∷ text "1" ∷ text "99" ∷ []) ((refl, refl), tt) (inl refl)
      ((refl, refl), ((refl, refl), refl))

-- Two panes, one with a separator in its command and one without a label.
abbrev logs : PaneRow
logs = record {
  number = text "5";
  x = text "0";
  y = text "1";
  width = text "80";
  height = text "24";
  active = text "1";
  command = text "a=:=b";
  label = text "logs=:";
}

abbrev unlabelled : PaneRow
unlabelled = record logs { number = text "6"; command = text "zsh"; label = [] }

logs-IsPrintable : IsPrintable logs
unfolding validate_pane_label includes starts_with trim_end is_space
logs-IsPrintable = record {
  accepted = refl;
  trimmed = refl;
  closed = refl;
  plain = ground arith;
  unbroken = ground arith;
}

unlabelled-IsPrintable : IsPrintable unlabelled
unfolding validate_pane_label includes starts_with trim_end is_space
unlabelled-IsPrintable = record {
  accepted = refl;
  trimmed = refl;
  closed = refl;
  plain = ground arith;
  unbroken = ground arith;
}

parse_panes-printed_example :
    parse_panes (printed (map pane_line (logs ∷ unlabelled ∷ [])))
    ≡ map pane_of (logs ∷ unlabelled ∷ [])
parse_panes-printed_example =
    parse_panes-printed (logs ∷ unlabelled ∷ []) (logs-IsPrintable, (unlabelled-IsPrintable, tt))

-- A label that ends in a space is accepted, and read without it.
spaced_label :
    (validate_pane_label (string (text "a ")) ≡ true)
    × (map (λ p. p.label) (parse_panes (pane_line (record unlabelled { label = text "a " })))
        ≡ text "a" ∷ [])
unfolding validate_pane_label includes starts_with parse_panes parse_pane lines split trim
    trim_start trim_end is_space join_sep split_tmux_fields split_sep gather command_name
spaced_label = (refl, refl)

parse_pane_command-ends_open_example :
    parse_pane_command
      (join_sep (text "0" ∷ text "%5" ∷ text "sh" ∷ text "/srv/a=:" ∷ text "42" ∷ []))
    ≡ record {
      window_index = number_of (some (text "0"));
      pane_id = some (text "%5");
      command = command_name (some (text "sh"));
      path = text "/srv/a";
      pid = number_of (some (text ":=42"));
    }
parse_pane_command-ends_open_example =
    parse_pane_command-ends_open (text "0") (text "%5") (text "sh") (text "/srv/a") (text "42")
      (refl, (refl, (refl, (refl, (refl, tt)))))

abbrev linked : Text
linked =
    text "S=:=$1=:=a=:=1=:=1=:=9"
    ++ (b'\n'
        ∷ (text "W=:=$1=:=@1=:=0=:=w=:=1=:=80=:=24=:=0=:=7"
            ++ (b'\n'
                ∷ (text "P=:=@1=:=%1=:=0=:=0=:=80=:=24=:=1=:=sh=:=x"
                    ++ (b'\n' ∷ text "P=:=@1=:=%1=:=0=:=0=:=80=:=24=:=1=:=sh=:=x")))))

parse_tree-ListsDistinctPanes_example : All ListsDistinctPanes (parse_tree linked)
parse_tree-ListsDistinctPanes_example = parse_tree-ListsDistinctPanes linked
