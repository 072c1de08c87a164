-- ===== src/Ports.antt =====
-- lib/ports.js: which ports the processes of a pane listen on. The outputs of `ss` and `ps` are
-- arguments, `none` where the command failed. `number` stands for `Number(text)` where that is
-- a finite number, and `none` where it is not: the ids that `ps` prints are natural numbers.
pub mod Rounds
pub mod Search
pub mod Scan
pub mod Shown
pub mod Kin
pub mod Reads
pub mod Tests
use tmux_web_panel.Base.{
  ℕ, zero, suc, ◌+◌, Bool, true, false, not, ◌&&◌, ◌||◌, Option, none, some, List, [], ◌∷◌, ◌++◌,
  Text, text, nat_eq, text_eq, ◌==◌, if◌then◌else◌, leb, ltb, any, keep, length, or_else,
}
use tmux_web_panel.Base.Dict.{Dict, get, set}
use tmux_web_panel.Base.Texts.{split, trim, is_space, is_digit, value_from, starts_with, push_head}

abbrev pub is_nil {ℓ} : {A : Type ℓ} → List A → Bool
is_nil [] = true
is_nil (x ∷ xs) = false

abbrev pub has_pid : ℕ → List ℕ → Bool
has_pid pid pids = any (λ p. p == pid) pids

pub record Socket : Type 0 where
  pub port : ℕ
  pub pid : ℕ

abbrev pub port_range_min : ℕ
port_range_min = 1024

abbrev pub port_range_max : ℕ
port_range_max = 65535

-- The digits at the front of a text, and what follows them.
unfoldable pub span_digits : Text → Text × Text
span_digits [] = ([], [])
span_digits (c ∷ t) =
    let rest = span_digits t in if is_digit c then (c ∷ rest.0, rest.1) else ([], c ∷ t)

abbrev begins_with_space : Text → Bool
unfolding is_space
begins_with_space [] = false
begins_with_space (c ∷ t) = is_space c

-- `/(?:\*|\[?[^\s\]]*\]?):(\d+)\s/`: what stands in front of the colon may be empty, so the first
-- colon with digits and a space behind it is the match.
unfoldable pub port_match : Text → Option ℕ
unfolding span_digits begins_with_space
port_match [] = none
port_match (c ∷ t) =
    let later = port_match t in
    let number = span_digits t in
    if c == b':' && (not (is_nil number.0) && begins_with_space number.1)
    then some (value_from 0 number.0)
    else later

abbrev drop_four : Text → Text
drop_four (a ∷ b ∷ c ∷ d ∷ t) = t
drop_four _ = []

-- `/pid=(\d+)/`
unfoldable pub pid_match : Text → Option ℕ
unfolding span_digits starts_with
pid_match [] = none
pid_match (c ∷ t) =
    let later = pid_match t in
    let number = span_digits (drop_four (c ∷ t)) in
    if starts_with (c ∷ t) (text "pid=") && not (is_nil number.0)
    then some (value_from 0 number.0)
    else later

abbrev socket_of : Option ℕ → Option ℕ → List Socket
socket_of none pid = []
socket_of (some port) none = []
socket_of (some port) (some pid) =
    if leb port port_range_min || ltb port_range_max port
    then []
    else record { port = port; pid = pid } ∷ []

unfoldable pub parse_ss_lines : List Text → List Socket
unfolding port_match pid_match
parse_ss_lines [] = []
parse_ss_lines (line ∷ rest) = socket_of (port_match line) (pid_match line) ++ parse_ss_lines rest

unfoldable pub parse_ss_output : Text → List Socket
unfolding trim split parse_ss_lines
parse_ss_output output =
    if is_nil (trim output) then [] else parse_ss_lines (split b'\n' (trim output))

-- `line.split(/\s+/)`: a space that another space follows ends no part.
unfoldable pub split_spaces : Text → List Text
unfolding begins_with_space is_space
split_spaces [] = [] ∷ []
split_spaces (c ∷ t) =
    let rest = split_spaces t in
    if is_space c then (if begins_with_space t then rest else [] ∷ rest) else push_head c rest

pub record Process : Type 0 where
  pub child_pid : ℕ
  pub parent_pid : ℕ

module _ (number : Text → Option ℕ) where
  abbrev process_of : List Text → List Process
  process_of (child ∷ parent ∷ _) = elim (number child) [
    | none ↦ []
    | some c ↦ elim (number parent) [
      | none ↦ []
      | some p ↦ record { child_pid = c; parent_pid = p } ∷ []
    ]
  ]
  process_of _ = []

  unfoldable pub parse_ps_lines : List Text → List Process
  unfolding trim split_spaces
  parse_ps_lines [] = []
  parse_ps_lines (line ∷ rest) = process_of (split_spaces (trim line)) ++ parse_ps_lines rest

-- The parent's children, in the order in which they were added.
abbrev pub ProcessTree : Type 0
ProcessTree = Dict ℕ (List ℕ)

unfoldable pub kids_of : ProcessTree → ℕ → List ℕ
unfolding get
kids_of tree pid = or_else (get pid tree) []

unfoldable pub add_processes : List Process → ProcessTree → ProcessTree
unfolding set kids_of
add_processes [] tree = tree
add_processes (p ∷ rest) tree =
    add_processes rest (set p.parent_pid (kids_of tree p.parent_pid ++ p.child_pid ∷ []) tree)

unfoldable pub build_process_tree : (Text → Option ℕ) → Option Text → ProcessTree
unfolding trim split parse_ps_lines add_processes
build_process_tree number none = []
build_process_tree number (some stdout) =
    add_processes (parse_ps_lines number (split b'\n' (trim stdout))) []

-- The inner loop of getDescendantPids: the children that are new go to the set and to the queue.
unfoldable pub add_kids : List ℕ → List ℕ → List ℕ → List ℕ × List ℕ
add_kids [] queue found = (queue, found)
add_kids (child ∷ kids) queue found =
    let seen = add_kids kids queue found in
    let new = add_kids kids (queue ++ child ∷ []) (found ++ child ∷ []) in
    if has_pid child found then seen else new

-- The outer loop, on fuel: `none` where the fuel is spent before the queue is empty.
unfoldable pub descend : ℕ → ProcessTree → List ℕ → List ℕ → Option (List ℕ)
unfolding kids_of add_kids
descend fuel tree [] found = some found
descend zero tree (current ∷ queue) found = none
descend (suc fuel) tree (current ∷ queue) found =
    let next = add_kids (kids_of tree current) queue found in descend fuel tree next.0 next.1

abbrev pub all_kids : ProcessTree → List ℕ
all_kids [] = []
all_kids ((parent, kids) ∷ tree) = kids ++ all_kids tree

-- Every process but the first is queued when it is found, so there are at most as many rounds as
-- children in the tree, and one more.
unfoldable pub get_descendant_pids : ℕ → ProcessTree → Option (List ℕ)
unfolding descend
get_descendant_pids pid tree = descend (suc (length (all_kids tree))) tree (pid ∷ []) []

-- A `Set` that a port is added to.
abbrev pub add_port : ℕ → List ℕ → List ℕ
add_port port ports = if has_pid port ports then ports else ports ++ port ∷ []

unfoldable pub add_ports : List Socket → ℕ → List ℕ → List ℕ → List ℕ
add_ports [] pid descendants ports = ports
add_ports (entry ∷ rest) pid descendants ports =
    add_ports rest pid descendants (
      if entry.pid == pid || has_pid entry.pid descendants
      then add_port entry.port ports
      else ports)

unfoldable pub filter_ports_for_pid : List Socket → ℕ → List ℕ → List ℕ
unfolding add_ports
filter_ports_for_pid all_ports pid descendants = add_ports all_ports pid descendants []

-- The ports of each pane; `none` for a pane where the search did not end.
unfoldable pub pane_ports : List Socket → ProcessTree → ℕ → Option (List ℕ)
unfolding get_descendant_pids filter_ports_for_pid
pane_ports all_ports tree pid = elim (get_descendant_pids pid tree) [
  | none ↦ none
  | some descendants ↦ some (filter_ports_for_pid all_ports pid descendants)
]

unfoldable pub scan_panes :
    (ℕ → Option (List ℕ)) → Dict Text ℕ → Dict Text (Option (List ℕ)) → Dict Text (Option (List ℕ))
unfolding set
scan_panes ports [] result = result
scan_panes ports ((pane, pid) ∷ rest) result = scan_panes ports rest (set pane (ports pid) result)

unfoldable pub scan_ports :
    (Text → Option ℕ) → Option Text → Option Text → Dict Text ℕ → Dict Text (Option (List ℕ))
unfolding scan_panes pane_ports build_process_tree parse_ss_output
scan_ports number none ps pane_pids = scan_panes (λ pid. some []) pane_pids []
scan_ports number (some ss) ps pane_pids =
    scan_panes (pane_ports (parse_ss_output ss) (build_process_tree number ps)) pane_pids []
