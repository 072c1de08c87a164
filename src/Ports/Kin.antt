-- ===== src/Ports/Kin.antt =====
-- The process tree of lib/ports.js has the children that the lines of `ps` name.
use tmux_web_panel.Base.{
  ℕ, ◌≡◌, ◌↔◌, inl, inr, refl, sym, ap, ◌∙◌, subst, Bool, true, ◌&&◌, ◌||◌, Option, none, some,
  List, [], ◌∷◌, ◌++◌, arith, nat_eq, text_eq, Text, ◌==◌, any, if◌then◌else◌,
}
use tmux_web_panel.Base.Lists.{In, here, there}
use tmux_web_panel.Base.Tests.{nat_beq_iff, Bool-cases, Option-cases}
use tmux_web_panel.Base.Texts.{trim}
use tmux_web_panel.Base.Dict.{get, set, get-set}
use tmux_web_panel.Ports.{
  Process, has_pid, ProcessTree, split_spaces, process_of, parse_ps_lines, kids_of, add_processes,
  build_process_tree,
}
use tmux_web_panel.Ports.Rounds.{has_pid-append}
use tmux_web_panel.Ports.Search.{Descends, direct, further}
use tmux_web_panel.Ports.Scan.{any-In, In-any}
use tmux_web_panel.Ports.Shown.{
  lines_of, ps_lines, Names, IsChild, IsBelow, a_child, a_descendant, In-append-cases, In-left,
  In-right, In-one,
}

module _ (number : Text → Option ℕ) where
  process_of-Names :
      (p : Process) (parts : List Text)
      → In p (process_of number parts)
      → (c : Text) × ((q : Text) × ((rest : List Text) × ((parts ≡ c ∷ q ∷ rest)
              × ((number c ≡ some p.child_pid) × (number q ≡ some p.parent_pid)))))
  process_of-Names p [] h = elim h [ ]
  process_of-Names p (c ∷ []) h = elim h [ ]
  process_of-Names p (c ∷ q ∷ rest) h = elim (Option-cases (number c)) [
    | inl no_child ↦
        let gone : process_of number (c ∷ q ∷ rest) ≡ [] = rw (no_child, process_of) refl in
        elim (subst (In p) gone h) [ ]
    | inr (n, e) ↦ elim (Option-cases (number q)) [
      | inl no_parent ↦
          let gone : process_of number (c ∷ q ∷ rest) ≡ [] =
            rw (e, process_of) (rw no_parent refl) in
          elim (subst (In p) gone h) [ ]
      | inr (m, f) ↦
          let one : process_of number (c ∷ q ∷ rest)
              ≡ record { child_pid = n; parent_pid = m } ∷ [] =
            rw (e, process_of) (rw f refl) in
          let same = In-one (subst (In p) one h) in
          (
            c,
            (
              q,
              (
                rest,
                (
                  refl,
                  (
                    e ∙ ap (λ x. some x.child_pid) (sym same),
                    f ∙ ap (λ x. some x.parent_pid) (sym same),
                  ),
                ),
              ),
            ),
          )
    ]
  ]

  Names-process_of :
      (child parent : ℕ) (c q : Text) (rest : List Text)
      → number c ≡ some child
      → number q ≡ some parent
      → In (record { child_pid = child; parent_pid = parent }) (process_of number (c ∷ q ∷ rest))
  Names-process_of child parent c q rest e f = rw (e, process_of) (rw f here)

  parse_ps_lines-Names :
      (p : Process) (ls : List Text)
      → In p (parse_ps_lines number ls)
      → (line : Text) × (In line ls × Names number line p.child_pid p.parent_pid)
  unfolding parse_ps_lines
  parse_ps_lines-Names p [] h = elim h [ ]
  parse_ps_lines-Names p (line ∷ ls) h =
      let parts = split_spaces (trim line) in
      elim (In-append-cases (process_of number parts) (parse_ps_lines number ls) h) [
        | inl i ↦ (line, (here, process_of-Names p parts i))
        | inr i ↦ let r = parse_ps_lines-Names p ls i in (r.0, (there r.1.0, r.1.1))
      ]

  Names-parse_ps_lines :
      (child parent : ℕ) (line : Text) (ls : List Text)
      → In line ls
      → Names number line child parent
      → In (record { child_pid = child; parent_pid = parent }) (parse_ps_lines number ls)
  unfolding parse_ps_lines
  Names-parse_ps_lines child parent line [] i h = elim i [ ]
  Names-parse_ps_lines child parent line (_ ∷ ls) here (c, (q, (rest, (parts, (e, f))))) =
      In-left (process_of number (split_spaces (trim line))) (parse_ps_lines number ls) (
        subst (λ t. In (record { child_pid = child; parent_pid = parent }) (process_of number t))
          (sym parts) (Names-process_of child parent c q rest e f))
  Names-parse_ps_lines child parent line (l ∷ ls) (there i) h =
      In-right (process_of number (split_spaces (trim l))) (parse_ps_lines number ls)
        (Names-parse_ps_lines child parent line ls i h)

abbrev is_kid : ℕ → ℕ → Process → Bool
is_kid parent child p = p.parent_pid == parent && p.child_pid == child

kids_of-set :
    (q parent : ℕ) (kids : List ℕ) (tree : ProcessTree)
    → kids_of (set parent kids tree) q ≡ (if q == parent then kids else kids_of tree q)
unfolding kids_of
kids_of-set q parent kids tree = ground (arith, get-set q parent kids tree)

kids_of-add_processes :
    (parent child : ℕ) (ps : List Process) (tree : ProcessTree)
    → has_pid child (kids_of (add_processes ps tree) parent)
      ≡ (has_pid child (kids_of tree parent) || any (is_kid parent child) ps)
unfolding add_processes
kids_of-add_processes parent child [] tree = ground arith
kids_of-add_processes parent child (p ∷ ps) tree =
    let kids = kids_of tree p.parent_pid ++ p.child_pid ∷ [] in
    let rest = kids_of-add_processes parent child ps (set p.parent_pid kids tree) in
    let kept = kids_of-set parent p.parent_pid kids tree in
    elim (Bool-cases (parent == p.parent_pid)) [
      | inl same ↦
          let e = (nat_beq_iff parent p.parent_pid).0 same in
          let back = (nat_beq_iff p.parent_pid parent).1 (sym e) in
          let at = ap (λ q. has_pid child (kids_of tree q)) e in
          ground (
            arith,
            rest,
            kept,
            same,
            back,
            at,
            has_pid-append child (kids_of tree p.parent_pid) (p.child_pid ∷ []),
          )
      | inr other ↦ ground (
        arith,
        rest,
        kept,
        other,
        nat_beq_iff parent p.parent_pid,
        nat_beq_iff p.parent_pid parent,
      )
    ]

kid_lem : (parent k : ℕ) → is_kid parent k (record { child_pid = k; parent_pid = parent }) ≡ true
kid_lem parent k = ground (arith, (nat_beq_iff parent parent).1 refl, (nat_beq_iff k k).1 refl)

kids_of-build_process_tree :
    (number : Text → Option ℕ) (ps : Option Text) (parent k : ℕ)
    → has_pid k (kids_of (build_process_tree number ps) parent)
      ≡ any (is_kid parent k) (parse_ps_lines number (ps_lines ps))
unfolding build_process_tree kids_of get parse_ps_lines
kids_of-build_process_tree number none parent k = refl
kids_of-build_process_tree number (some out) parent k =
    kids_of-add_processes parent k (parse_ps_lines number (lines_of out)) []

module _ (number : Text → Option ℕ) (ps : Option Text) where
  kid-IsChild :
      (parent k : ℕ)
      → (has_pid k (kids_of (build_process_tree number ps) parent) ≡ true)
        ↔ IsChild number ps parent k
  kid-IsChild parent k =
      let all = parse_ps_lines number (ps_lines ps) in
      let e = kids_of-build_process_tree number ps parent k in
      (
        (λ h.
            let (p, (i, m)) = any-In (is_kid parent k) all (sym e ∙ h) in
            let same : (p.parent_pid ≡ parent) × (p.child_pid ≡ k) = (
              (nat_beq_iff p.parent_pid parent).0 (ground (arith, m)),
              (nat_beq_iff p.child_pid k).0 (ground (arith, m)),
            ) in
            let (line, (j, names)) = parse_ps_lines-Names number p (ps_lines ps) i in
            (
              line,
              (
                j,
                subst (λ c. Names number line c parent) same.1
                    (subst (λ q. Names number line p.child_pid q) same.0 names),
              ),
            )),
        (λ (line, (i, names)).
            e
            ∙ In-any (is_kid parent k) all
                (Names-parse_ps_lines number k parent line (ps_lines ps) i names)
                (kid_lem parent k)),
      )

  pub Descends-IsBelow :
      (pid k : ℕ) → Descends (build_process_tree number ps) pid k ↔ IsBelow number ps pid k
  Descends-IsBelow pid k = (to, from)
    where
      to : {k : ℕ} → Descends (build_process_tree number ps) pid k → IsBelow number ps pid k
      to {k} (direct h) = a_child ((kid-IsChild pid k).0 h)
      to {k} (further {c} d h) = a_descendant (to d) ((kid-IsChild c k).0 h)

      from : {k : ℕ} → IsBelow number ps pid k → Descends (build_process_tree number ps) pid k
      from {k} (a_child h) = direct ((kid-IsChild pid k).1 h)
      from {k} (a_descendant {c} d h) = further (from d) ((kid-IsChild c k).1 h)
