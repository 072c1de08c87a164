-- ===== src/Ports/Tests.antt =====
-- Runs of lib/ports.js on concrete outputs of `ss` and `ps`.
use tmux_web_panel.Base.{
  ℕ, ◌≡◌, ◌↔◌, refl, true, nat_eq, text_eq, Option, none, some, List, [], ◌∷◌, ◌++◌, Text, text,
  if◌then◌else◌,
}
use tmux_web_panel.Base.Dict.{Dict, get, set}
use tmux_web_panel.Base.Equality.{text_beq}
use tmux_web_panel.Base.Texts.{
  split, trim, trim_start, trim_end, is_space, starts_with, all_digits, value_from,
}
use tmux_web_panel.Ports.{
  has_pid, parse_ss_output, parse_ss_lines, port_match, pid_match, span_digits, parse_ps_lines,
  build_process_tree, add_processes, kids_of, get_descendant_pids, descend, add_kids, split_spaces,
  scan_ports,
}
use tmux_web_panel.Ports.Search.{Descends, get_descendant_pids-Descends}
use tmux_web_panel.Ports.Shown.{ListensOn}
use tmux_web_panel.Ports.Reads.{scan_ports-ListensOn}

abbrev number : Text → Option ℕ
number t = if all_digits t then some (value_from 0 t) else none

abbrev ss : Text
ss =
    text "LISTEN 0 511 *:3000 *:* users:((\"node\",pid=42,fd=18))"
    ++ (b'\n' ∷ text "LISTEN 0 128 [::]:22 [::]:* users:((\"sshd\",pid=7,fd=3))")

abbrev ps : Text
ps = text "  7     1" ++ (b'\n' ∷ (text " 40     9" ++ (b'\n' ∷ text " 42    40")))

abbrev panes : Dict Text ℕ
panes = (text "%1", 9) ∷ (text "%2", 7) ∷ []

sockets_read : parse_ss_output ss ≡ record { port = 3000; pid = 42 } ∷ []
unfolding parse_ss_output parse_ss_lines port_match pid_match span_digits trim trim_start trim_end
    is_space split starts_with
sockets_read = refl

tree_read : build_process_tree number (some ps) ≡ (1, 7 ∷ []) ∷ (9, 40 ∷ []) ∷ (40, 42 ∷ []) ∷ []
unfolding build_process_tree parse_ps_lines add_processes kids_of get set trim trim_start trim_end
    is_space split split_spaces
tree_read = refl

-- A process that is its own parent is found once.
own_parent : get_descendant_pids 5 ((5, 5 ∷ 6 ∷ []) ∷ []) ≡ some (5 ∷ 6 ∷ [])
unfolding get_descendant_pids descend add_kids kids_of get
own_parent = refl

get_descendant_pids-Descends_example :
    (found : List ℕ) × ((get_descendant_pids 9 ((9, 40 ∷ []) ∷ (40, 42 ∷ 9 ∷ []) ∷ []) ≡ some found)
      × ((k : ℕ) → (has_pid k found ≡ true) ↔ Descends ((9, 40 ∷ []) ∷ (40, 42 ∷ 9 ∷ []) ∷ []) 9 k))
get_descendant_pids-Descends_example =
    get_descendant_pids-Descends 9 ((9, 40 ∷ []) ∷ (40, 42 ∷ 9 ∷ []) ∷ [])

scan_ports-ListensOn_example :
    (ports : List ℕ) × ((get (text "%1") (scan_ports number (some ss) (some ps) panes)
        ≡ some (some ports))
      × ((port : ℕ) → (has_pid port ports ≡ true) ↔ ListensOn number ss (some ps) 9 port))
unfolding get text_beq
scan_ports-ListensOn_example =
    scan_ports-ListensOn number ss (some ps) panes (text "%1") 9 (refl, (refl, tt)) refl
