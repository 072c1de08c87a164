-- ===== src/Tmux/Repeats.antt =====
-- parseTree of lib/tmux.js lists no pane of a window twice.
use tmux_web_panel.Base.{
  ℕ, zero, suc, ◌≤◌, ◌≡◌, ◌⊎◌, inl, inr, refl, sym, subst, Bool, true, false, not, ◌&&◌, ◌||◌,
  append-nil, Bool-cases, Option, none, some, List, [], ◌∷◌, ◌++◌, Text, nat_eq, text_eq, option_eq,
  ◌==◌, arith, map, any, every, All, length, Option-cases,
}
use tmux_web_panel.Base.Dict.{Dict, get, set, get-set}
use tmux_web_panel.Base.Equality.{option_beq_iff}
use tmux_web_panel.Base.Texts.{split, starts_with, trim, trim_start, trim_end, push_head}
use tmux_web_panel.Tmux.Fields.{field_sep, drop}
use tmux_web_panel.Tmux.Lines.{Session, Window, Pane, parse_panes, lines}
use tmux_web_panel.Tmux.Tree.{
  Tree, WindowTree, SessionTree, empty_tree, cut_sep, listed, same_pane, push_panes, add_line,
  read_line, read_lines, get_listed, assemble, parse_tree,
}

abbrev pub HasDistinctIds : List Pane → Type 0
HasDistinctIds [] = Unit
HasDistinctIds (p ∷ ps) = (any (λ q. same_pane q p) ps ≡ false) × HasDistinctIds ps

-- No line break stands in the text.
abbrev IsLine : Text → Type 0
IsLine t = every (λ c. not (c == b'\n')) t ≡ true

IsLine-drop : (n : ℕ) (t : Text) → IsLine t → IsLine (drop n t)
IsLine-drop zero t h = h
IsLine-drop (suc n) [] h = refl
IsLine-drop (suc n) (c ∷ t) h = IsLine-drop n t (ground arith)

trim_start-IsLine : (t : Text) → IsLine t → IsLine (trim_start t)
unfolding trim_start
trim_start-IsLine [] h = refl
trim_start-IsLine (c ∷ t) h = ground (arith, trim_start-IsLine t)

trim_end-IsLine : (t : Text) → IsLine t → IsLine (trim_end t)
unfolding trim_end
trim_end-IsLine [] h = refl
trim_end-IsLine (c ∷ t) h = ground (arith, trim_end-IsLine t)

split-IsLine : (t : Text) → IsLine t → split b'\n' t ≡ t ∷ []
unfolding split
split-IsLine [] h = refl
split-IsLine (c ∷ t) h = ground (arith, split-IsLine t)

All-push_head :
    (c : ℕ) (ps : List Text) → (c == b'\n') ≡ false → All IsLine ps → All IsLine (push_head c ps)
All-push_head c [] e h = ground arith
All-push_head c (p ∷ ps) e h = ground arith

split-AllLines : (t : Text) → All IsLine (split b'\n' t)
unfolding split
split-AllLines [] = (refl, tt)
split-AllLines (c ∷ t) = ground (arith, split-AllLines t, All-push_head c (split b'\n' t))

abbrev IsBodyLine : Option (Text × Text) → Type 0
IsBodyLine none = Unit
IsBodyLine (some (parent, body)) = IsLine body

cut_sep-IsBodyLine : (t : Text) → IsLine t → IsBodyLine (cut_sep t)
unfolding cut_sep
cut_sep-IsBodyLine [] h = tt
cut_sep-IsBodyLine (c ∷ t) h = ground (arith, cut_sep-IsBodyLine t, IsLine-drop 2 t)

-- The text of one line gives one pane at most.
length-parse_panes : (t : Text) → IsLine t → length (parse_panes t) ≤ 1
unfolding parse_panes lines trim
length-parse_panes t h =
    let one = split-IsLine (trim t) (trim_end-IsLine (trim_start t) (trim_start-IsLine t h)) in
    ground (arith, one)

any-append : (p : Pane → Bool) (xs ys : List Pane) → any p (xs ++ ys) ≡ (any p xs || any p ys)
any-append p [] ys = refl
any-append p (x ∷ xs) ys = ground (arith, any-append p xs ys)

HasDistinctIds-append :
    (known : List Pane) (p : Pane)
    → HasDistinctIds known
    → any (λ q. same_pane q p) known ≡ false
    → HasDistinctIds (known ++ p ∷ [])
HasDistinctIds-append [] p d a = (refl, tt)
HasDistinctIds-append (k ∷ known) p d a = ground (
  arith,
  any-append (λ q. same_pane q k) known (p ∷ []),
  HasDistinctIds-append known p d.1,
  option_beq_iff k.id p.id,
  option_beq_iff p.id k.id,
)

push_panes-HasDistinctIds :
    (known parsed : List Pane)
    → HasDistinctIds known
    → length parsed ≤ 1
    → HasDistinctIds (push_panes known parsed)
unfolding push_panes
push_panes-HasDistinctIds known [] d l = subst HasDistinctIds (sym (append-nil known)) d
push_panes-HasDistinctIds known (p ∷ []) d l =
    ground (arith, append-nil known, HasDistinctIds-append known p d)
push_panes-HasDistinctIds known (p ∷ q ∷ ps) d l = ground arith

abbrev HaveDistinctIds : Dict Text (List Pane) → Type 0
HaveDistinctIds m = (window : Text) → HasDistinctIds (listed (get window m))

set-HaveDistinctIds :
    (k : Text) (ps : List Pane) (m : Dict Text (List Pane))
    → HaveDistinctIds m
    → HasDistinctIds ps
    → HaveDistinctIds (set k ps m)
set-HaveDistinctIds k ps m d h window = ground (arith, get-set window k ps m, d window)

-- What a line does to the panes.
read_line-panes :
    (line : Text) (tree : Tree)
    → IsLine line
    → ((read_line line tree).panes_by_window ≡ tree.panes_by_window)
      ⊎ ((parent : Text) × ((body : Text) × (IsLine body
              × ((read_line line tree).panes_by_window
                  ≡ set parent
                      (push_panes (listed (get parent tree.panes_by_window)) (parse_panes body))
                      tree.panes_by_window))))
unfolding read_line add_line
read_line-panes [] tree h = inl refl
read_line-panes (kind ∷ line) tree h = elim (Option-cases (cut_sep (drop 3 line))) [
  | inl e ↦ inl (ground (arith, e))
  | inr ((parent, body), e) ↦
      let cut = cut_sep-IsBodyLine (drop 3 line) (IsLine-drop 3 line (ground arith)) in
      let body_line : IsLine body = subst IsBodyLine e cut in
      elim (Bool-cases (starts_with line field_sep && (kind == b'P'))) [
        | inl t ↦ inr (parent, (body, (body_line, ground (arith, e, t))))
        | inr t ↦ inl (ground (arith, e, t))
      ]
]

read_line-HaveDistinctIds :
    (line : Text) (tree : Tree)
    → IsLine line
    → HaveDistinctIds tree.panes_by_window
    → HaveDistinctIds (read_line line tree).panes_by_window
read_line-HaveDistinctIds line tree h d = elim (read_line-panes line tree h) [
  | inl e ↦ subst HaveDistinctIds (sym e) d
  | inr (parent, (body, (l, e))) ↦ subst HaveDistinctIds (sym e) (
      set-HaveDistinctIds parent
        (push_panes (listed (get parent tree.panes_by_window)) (parse_panes body))
        tree.panes_by_window d
        (push_panes-HasDistinctIds (listed (get parent tree.panes_by_window)) (parse_panes body)
          (d parent) (length-parse_panes body l)))
]

read_lines-HaveDistinctIds :
    (ls : List Text) (tree : Tree)
    → All IsLine ls
    → HaveDistinctIds tree.panes_by_window
    → HaveDistinctIds (read_lines ls tree).panes_by_window
unfolding read_lines
read_lines-HaveDistinctIds [] tree h d = d
read_lines-HaveDistinctIds (l ∷ ls) tree h d =
    read_lines-HaveDistinctIds ls (read_line l tree) h.1 (read_line-HaveDistinctIds l tree h.0 d)

abbrev pub ListsDistinctPanes : SessionTree → Type 0
ListsDistinctPanes s = All (λ w. HasDistinctIds w.panes) s.window_list

window_list-distinct :
    (m : Dict Text (List Pane)) (ws : List Window)
    → HaveDistinctIds m
    → All
        (λ (w : WindowTree). HasDistinctIds w.panes)
        (map (λ window. record { window = window; panes = get_listed window.id m }) ws)
window_list-distinct m [] d = tt
window_list-distinct m (w ∷ ws) d = (get_listed-distinct w.id, window_list-distinct m ws d)
  where
    get_listed-distinct : (id : Option Text) → HasDistinctIds (get_listed id m)
    get_listed-distinct none = tt
    get_listed-distinct (some id) = d id

assemble-distinct :
    (ss : List Session) (ws : Dict Text (List Window)) (m : Dict Text (List Pane))
    → HaveDistinctIds m
    → All ListsDistinctPanes
        (assemble (record { sessions = ss; windows_by_session = ws; panes_by_window = m }))
unfolding assemble
assemble-distinct [] ws m d = tt
assemble-distinct (s ∷ ss) ws m d =
    (window_list-distinct m (get_listed s.id ws) d, assemble-distinct ss ws m d)

-- Whatever tmux prints, each window of each session lists every pane id once at most, although
-- the output repeats the panes of a window that several sessions hold.
pub parse_tree-ListsDistinctPanes : (output : Text) → All ListsDistinctPanes (parse_tree output)
unfolding parse_tree get
parse_tree-ListsDistinctPanes output =
    let tree = read_lines (split b'\n' output) empty_tree in
    assemble-distinct tree.sessions tree.windows_by_session tree.panes_by_window (
      read_lines-HaveDistinctIds (split b'\n' output) empty_tree (split-AllLines output)
        (λ window. tt))
