-- ===== src/Ports/Scan.antt =====
-- scanPorts of lib/ports.js gives each pane the ports of its processes.
use tmux_web_panel.Base.{
  ℕ, ◌≡◌, ◌↔◌, ◌⊎◌, inl, inr, refl, sym, ap, ◌∙◌, Bool, true, ◌&&◌, ◌||◌, Option, none, some, List,
  [], ◌∷◌, arith, nat_eq, text_eq, Text, ◌==◌, any,
}
use tmux_web_panel.Base.Lists.{In, here, there}
use tmux_web_panel.Base.Tests.{nat_beq_iff, Bool-cases}
use tmux_web_panel.Base.Equality.{text_beq_iff}
use tmux_web_panel.Base.Dict.{Dict, get, set, get-set, HasDistinctKeys}
use tmux_web_panel.Ports.{
  Socket, has_pid, ProcessTree, parse_ss_output, build_process_tree, add_ports, add_port,
  filter_ports_for_pid, pane_ports, scan_panes, scan_ports,
}
use tmux_web_panel.Ports.Rounds.{has_pid-append}
use tmux_web_panel.Ports.Search.{Descends, get_descendant_pids-Descends}

-- A process listens on the port that is the first one or stands below it.
abbrev pub Listens : List Socket → ProcessTree → ℕ → ℕ → Type 0
Listens sockets tree pid port =
    (s : Socket) × (In s sockets × ((s.port ≡ port) × ((s.pid ≡ pid) ⊎ Descends tree pid s.pid)))

has_pid-add_port :
    (port new : ℕ) (ports : List ℕ)
    → has_pid port (add_port new ports) ≡ (has_pid port ports || (new == port))
has_pid-add_port port new ports =
    ground (arith, has_pid-append port ports (new ∷ []), nat_beq_iff new port)

abbrev is_match : ℕ → ℕ → List ℕ → Socket → Bool
is_match port pid descendants s = s.port == port && (s.pid == pid || has_pid s.pid descendants)

has_pid-add_ports :
    (port pid : ℕ) (descendants : List ℕ) (sockets : List Socket) (ports : List ℕ)
    → has_pid port (add_ports sockets pid descendants ports)
      ≡ (has_pid port ports || any (is_match port pid descendants) sockets)
unfolding add_ports
has_pid-add_ports port pid ds [] ports = ground arith
has_pid-add_ports port pid ds (s ∷ rest) ports = ground (
  arith,
  has_pid-add_ports port pid ds rest ports,
  has_pid-add_ports port pid ds rest (add_port s.port ports),
  has_pid-add_port port s.port ports,
)

pub any-In {ℓ} :
    {A : Type ℓ} (p : A → Bool) (xs : List A) → any p xs ≡ true → (x : A) × (In x xs × (p x ≡ true))
any-In p [] h = ground arith
any-In p (x ∷ xs) h = elim (Bool-cases (p x)) [
  | inl e ↦ (x, (here, e))
  | inr e ↦ let rest = any-In p xs (ground (arith, e, h)) in (rest.0, (there rest.1.0, rest.1.1))
]

pub In-any {ℓ} :
    {A : Type ℓ} (p : A → Bool) (xs : List A) {x : A} → In x xs → p x ≡ true → any p xs ≡ true
In-any p [] i h = elim i [ ]
In-any p (x ∷ xs) here h = ground (arith, h)
In-any p (x ∷ xs) (there i) h = ground (arith, In-any p xs i h)

-- The test of filterPortsForPid, with a set that holds what stands below the first process.
module _ (tree : ProcessTree) (pid : ℕ) (ds : List ℕ)
    (iff : (k : ℕ) → (has_pid k ds ≡ true) ↔ Descends tree pid k) (port : ℕ) (s : Socket) where
  is_match-Listens :
      is_match port pid ds s ≡ true → (s.port ≡ port) × ((s.pid ≡ pid) ⊎ Descends tree pid s.pid)
  is_match-Listens m = (
    ground (arith, nat_beq_iff s.port port, m),
    elim (Bool-cases (s.pid == pid)) [
      | inl same ↦ inl ((nat_beq_iff s.pid pid).0 same)
      | inr other ↦ inr ((iff s.pid).0 (ground (arith, other, m)))
    ],
  )

  Listens-is_match :
      s.port ≡ port → (s.pid ≡ pid) ⊎ Descends tree pid s.pid → is_match port pid ds s ≡ true
  Listens-is_match e (inl f) = ground (arith, nat_beq_iff s.port port, nat_beq_iff s.pid pid)
  Listens-is_match e (inr d) =
      let found = (iff s.pid).1 d in ground (arith, nat_beq_iff s.port port, found)

pub pane_ports-Listens :
    (sockets : List Socket) (tree : ProcessTree) (pid : ℕ)
    → (ports : List ℕ) × ((pane_ports sockets tree pid ≡ some ports)
        × ((port : ℕ) → (has_pid port ports ≡ true) ↔ Listens sockets tree pid port))
unfolding pane_ports filter_ports_for_pid
pane_ports-Listens sockets tree pid =
    let search = get_descendant_pids-Descends pid tree in
    let ds = search.0 in
    let iff = search.1.1 in
    let sum = λ (port : ℕ). has_pid-add_ports port pid ds sockets [] in
    (
      filter_ports_for_pid sockets pid ds,
      (
        ground (arith, search.1.0),
        λ port. (
          (λ h.
              let found = any-In (is_match port pid ds) sockets (sym (sum port) ∙ h) in
              (found.0, (found.1.0, is_match-Listens tree pid ds iff port found.0 found.1.1))),
          (λ l.
              sum port
              ∙ In-any (is_match port pid ds) sockets l.1.0
                  (Listens-is_match tree pid ds iff port l.0 l.1.1.0 l.1.1.1)),
        ),
      ),
    )

get-scan_panes_absent :
    (ports : ℕ → Option (List ℕ)) (pane : Text) (pids : Dict Text ℕ)
    (result : Dict Text (Option (List ℕ)))
    → get pane pids ≡ none
    → get pane (scan_panes ports pids result) ≡ get pane result
unfolding scan_panes get
get-scan_panes_absent ports pane [] result h = refl
get-scan_panes_absent ports pane ((p, pid) ∷ rest) result h = ground (
  arith,
  get-scan_panes_absent ports pane rest (set p (ports pid) result),
  get-set pane p (ports pid) result,
)

get-scan_panes :
    (ports : ℕ → Option (List ℕ)) (pane : Text) (pid : ℕ) (pids : Dict Text ℕ)
    (result : Dict Text (Option (List ℕ)))
    → HasDistinctKeys pids
    → get pane pids ≡ some pid
    → get pane (scan_panes ports pids result) ≡ some (ports pid)
unfolding scan_panes get
get-scan_panes ports pane pid [] result d h = ground arith
get-scan_panes ports pane pid ((p, q) ∷ rest) result d h = elim (Bool-cases (pane == p)) [
  | inl e ↦ ground (
    arith,
    e,
    text_beq_iff pane p,
    get-scan_panes_absent ports pane rest (set p (ports q) result),
    get-set pane p (ports q) result,
    d.0,
  )
  | inr e ↦ ground (arith, e, get-scan_panes ports pane pid rest (set p (ports q) result) d.1)
]

-- Where `ss` ran, every pane that is asked about gets the ports on which its process or a process
-- below it listens, and no others; the panes are the keys of a `Map`.
pub scan_ports-Listens :
    (number : Text → Option ℕ) (ss : Text) (ps : Option Text) (panes : Dict Text ℕ) (pane : Text)
    (pid : ℕ)
    → HasDistinctKeys panes
    → get pane panes ≡ some pid
    → (ports : List ℕ) × ((get pane (scan_ports number (some ss) ps panes) ≡ some (some ports))
        × ((port : ℕ)
            → (has_pid port ports ≡ true)
              ↔ Listens (parse_ss_output ss) (build_process_tree number ps) pid port))
unfolding scan_ports
scan_ports-Listens number ss ps panes pane pid d h =
    let sockets = parse_ss_output ss in
    let tree = build_process_tree number ps in
    let one = pane_ports-Listens sockets tree pid in
    (
      one.0,
      (get-scan_panes (pane_ports sockets tree) pane pid panes [] d h ∙ ap some one.1.0, one.1.1),
    )
