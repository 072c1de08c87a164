-- ===== src/Ports/Reads.antt =====
-- What scanPorts of lib/ports.js says of each pane, by the lines of `ss` and `ps`.
use tmux_web_panel.Base.{
  ℕ, ◌≡◌, ◌↔◌, inl, inr, refl, sym, subst, true, Option, some, List, nat_eq, text_eq, Text,
}
use tmux_web_panel.Base.Lists.{In}
use tmux_web_panel.Base.Dict.{Dict, get, HasDistinctKeys}
use tmux_web_panel.Ports.{Socket, has_pid, parse_ss_output, build_process_tree, scan_ports}
use tmux_web_panel.Ports.Scan.{Listens, scan_ports-Listens}
use tmux_web_panel.Ports.Shown.{
  lines_of, Shows, ListensOn, parse_ss_lines-Shows, Shows-parse_ss_lines, parse_ss_output-lines,
}
use tmux_web_panel.Ports.Kin.{Descends-IsBelow}

module _ (number : Text → Option ℕ) (ps : Option Text) where
  Listens-ListensOn :
      (ss : Text) (pid port : ℕ)
      → Listens (parse_ss_output ss) (build_process_tree number ps) pid port
        ↔ ListensOn number ss ps pid port
  Listens-ListensOn ss pid port = (
    (λ (s, (i, (e, below))).
        let (line, (j, shows)) =
          parse_ss_lines-Shows s (lines_of ss) (subst (In s) (parse_ss_output-lines ss) i) in
        (
          line,
          (
            s.pid,
            (
              j,
              (
                subst (λ p. Shows line p s.pid) e shows,
                elim below [
                  | inl same ↦ inl same
                  | inr d ↦ inr ((Descends-IsBelow number ps pid s.pid).0 d)
                ],
              ),
            ),
          ),
        )),
    (λ (line, (q, (j, (shows, below)))).
        let s : Socket = record { port = port; pid = q } in
        (
          s,
          (
            subst (In s) (sym (parse_ss_output-lines ss))
                (Shows-parse_ss_lines port q line (lines_of ss) j shows),
            (
              refl,
              elim below [
                | inl same ↦ inl same
                | inr d ↦ inr ((Descends-IsBelow number ps pid q).1 d)
              ],
            ),
          ),
        )),
  )

-- Where `ss` ran, every pane that is asked about gets exactly the ports that a line of `ss` shows with
-- its process or with one below it. Of a line it is the first number behind a colon and before a space,
-- if that is above 1024 and at most 65535, and the first pid; below a process are its children by the
-- first two numbers of the lines of `ps`, and what is below these, and nothing if `ps` failed. The panes
-- are the keys of a `Map`.
pub scan_ports-ListensOn :
    (number : Text → Option ℕ) (ss : Text) (ps : Option Text) (panes : Dict Text ℕ) (pane : Text)
    (pid : ℕ)
    → HasDistinctKeys panes
    → get pane panes ≡ some pid
    → (ports : List ℕ) × ((get pane (scan_ports number (some ss) ps panes) ≡ some (some ports))
        × ((port : ℕ) → (has_pid port ports ≡ true) ↔ ListensOn number ss ps pid port))
scan_ports-ListensOn number ss ps panes pane pid d h =
    let (ports, (found, iff)) = scan_ports-Listens number ss ps panes pane pid d h in
    (
      ports,
      (
        found,
        λ port. (
          (λ x. (Listens-ListensOn number ps ss pid port).0 ((iff port).0 x)),
          (λ x. (iff port).1 ((Listens-ListensOn number ps ss pid port).1 x)),
        ),
      ),
    )
