-- ===== src/Monitor/Ended.antt =====
-- What two rounds of _detectCompletions of lib/monitor.js report, the second against the first.
use tmux_web_panel.Base.{
  ℕ, zero, suc, ◌+◌, ◌/◌, ◌%◌, ◌≡◌, refl, sym, ap, ◌∙◌, Bool, true, false, not, ◌&&◌, Option, none,
  some, List, [], ◌∷◌, ◌++◌, Text, text_eq, nat_eq, ◌==◌, arith, every, All, if◌then◌else◌,
  Bool-cases, inl, inr, ltb, append_assoc,
}
use tmux_web_panel.Base.Dict.{get, get-set}
use tmux_web_panel.Base.Texts.{decimal, digits}
use tmux_web_panel.Base.Decimal.{decimal_injective}
use tmux_web_panel.Base.Equality.{text_beq, text_beq_iff}
use tmux_web_panel.Base.Tests.{nat_beq_iff}
use tmux_web_panel.Monitor.Completions.{
  PaneCommand, WindowDetail, Session, CompletedPane, Memory, Found, is_shell, pane_key, finished,
  pane_step, pane_loop, window_step, window_loop, session_step, session_loop, detect_completions,
  nothing,
}
use tmux_web_panel.Monitor.Edges.{report_of, finished_panes, finished_in, detect_completions-panes}

-- No colon stands in the text: tmux allows none in the name of a session.
abbrev pub HasNoColon : Text → Type 0
HasNoColon t = every (λ c. not (c == b':')) t ≡ true

-- The command of a pane that is met last of those that `same` holds of.
module _ (same : Text → PaneCommand → Bool) where
  abbrev last_in : Text → List PaneCommand → Option Text → Option Text
  last_in name [] old = old
  last_in name (pc ∷ pcs) old = last_in name pcs (if same name pc then some pc.command else old)

  abbrev last_command : List Session → Option Text → Option Text
  last_command [] old = old
  last_command (s ∷ ss) old = last_command ss (last_in s.name s.pane_commands old)

-- The session, the window and the pane are the same.
abbrev pub is_pane : Text → PaneCommand → Text → PaneCommand → Bool
is_pane name pc n p = name == n && (pc.window_index == p.window_index && pc.pane_id == p.pane_id)

-- The command that a pane has come back from: in the round before it was seen at something else than
-- a shell, and now it is at a shell.
abbrev pub ended : List Session → Text → PaneCommand → Option Text
ended before name pc = elim (last_command (is_pane name pc) before none) [
  | none ↦ none
  | some prev ↦ elim (is_shell prev) [
    | true ↦ none
    | false ↦ elim (is_shell pc.command) [ true ↦ some prev | false ↦ none ]
  ]
]

abbrev pub ended_panes : List Session → Text → List PaneCommand → List CompletedPane
ended_panes before name [] = []
ended_panes before name (pc ∷ pcs) =
    report_of name pc (ended before name pc) ++ ended_panes before name pcs

abbrev pub ended_in : List Session → List Session → List CompletedPane
ended_in before [] = []
ended_in before (s ∷ ss) = ended_panes before s.name s.pane_commands ++ ended_in before ss

cut_eq :
    (a a' b b' : Text)
    → HasNoColon a
    → HasNoColon a'
    → text_beq (a ++ b':' ∷ b) (a' ++ b':' ∷ b') ≡ (text_beq a a' && text_beq b b')
unfolding text_beq
cut_eq [] [] b b' h k = refl
cut_eq [] (c ∷ a') b b' h k = ground (arith, k)
cut_eq (c ∷ a) [] b b' h k = ground (arith, h)
cut_eq (c ∷ a) (d ∷ a') b b' h k = ground (arith, cut_eq a a' b b', h, k)

digits-HasNoColon : (fuel n : ℕ) (acc : Text) → HasNoColon acc → HasNoColon (digits fuel n acc)
unfolding digits
digits-HasNoColon zero n acc h = h
digits-HasNoColon (suc fuel) n acc h = elim (Bool-cases (ltb n 10)) [
  | inl small ↦ ground (arith, small, h)
  | inr large ↦
      let digit : HasNoColon ((48 + n % 10) ∷ acc) = ground (arith, h) in
      rw large (digits-HasNoColon fuel (n / 10) ((48 + n % 10) ∷ acc) digit)
]

decimal-HasNoColon : (n : ℕ) → HasNoColon (decimal n)
unfolding decimal
decimal-HasNoColon n = digits-HasNoColon (n + 1) n [] refl

decimal_eq : (m n : ℕ) → text_beq (decimal m) (decimal n) ≡ (m == n)
decimal_eq m n = elim (Bool-cases (text_beq (decimal m) (decimal n))) [
  | inl same ↦
      let e = decimal_injective m n ((text_beq_iff (decimal m) (decimal n)).0 same) in
      same ∙ sym ((nat_beq_iff m n).1 e)
  | inr other ↦ elim (Bool-cases (m == n)) [
    | inl e ↦
        let same = (text_beq_iff (decimal m) (decimal n)).1 (ap decimal ((nat_beq_iff m n).0 e)) in
        absurd (ground (arith, same, other))
    | inr new ↦ other ∙ sym new
  ]
]

pane_key-nested :
    (name : Text) (pc : PaneCommand)
    → pane_key name pc ≡ name ++ b':' ∷ (decimal pc.window_index ++ b':' ∷ pc.pane_id)
unfolding pane_key
pane_key-nested name pc = append_assoc name (b':' ∷ decimal pc.window_index) (b':' ∷ pc.pane_id)

pane_key_eq :
    (name n : Text) (pc p : PaneCommand)
    → HasNoColon name
    → HasNoColon n
    → text_beq (pane_key name pc) (pane_key n p) ≡ is_pane name pc n p
pane_key_eq name n pc p h k =
    let i = decimal pc.window_index in
    let j = decimal p.window_index in
    ap (λ t. text_beq t (pane_key n p)) (pane_key-nested name pc)
    ∙ ap (text_beq (name ++ b':' ∷ (i ++ b':' ∷ pc.pane_id))) (pane_key-nested n p)
    ∙ cut_eq name n (i ++ b':' ∷ pc.pane_id) (j ++ b':' ∷ p.pane_id) h k
    ∙ ap (λ b. name == n && b)
        (cut_eq i j pc.pane_id p.pane_id (decimal-HasNoColon pc.window_index)
            (decimal-HasNoColon p.window_index)
          ∙ ap (λ b. b && pc.pane_id == p.pane_id) (decimal_eq pc.window_index p.window_index))

abbrev has_key : Text → Text → PaneCommand → Bool
has_key key n p = key == pane_key n p

pane_step-commands :
    (key : Text) (old : Memory) (s : Session) (pc : PaneCommand) (x : List ℕ × Found)
    → get key (pane_step old s pc x).1.memory.commands
      ≡ (if has_key key s.name pc then some pc.command else get key x.1.memory.commands)
unfolding pane_step
pane_step-commands key old s pc (done, found) =
    ground (arith, get-set key (pane_key s.name pc) pc.command found.memory.commands)

pane_loop-commands :
    (key : Text) (old : Memory) (s : Session) (pcs : List PaneCommand) (x : List ℕ × Found)
    → get key (pane_loop old s pcs x).1.memory.commands
      ≡ last_in (has_key key) s.name pcs (get key x.1.memory.commands)
unfolding pane_loop
pane_loop-commands key old s [] x = refl
pane_loop-commands key old s (pc ∷ pcs) x =
    pane_loop-commands key old s pcs (pane_step old s pc x)
    ∙ ap (last_in (has_key key) s.name pcs) (pane_step-commands key old s pc x)

window_loop-commands :
    (old : Memory) (s : Session) (done : List ℕ) (ws : List WindowDetail) (found : Found)
    → (window_loop old s done ws found).memory.commands ≡ found.memory.commands
unfolding window_loop window_step
window_loop-commands old s done [] found = refl
window_loop-commands old s done (w ∷ ws) found =
    ground (arith, window_loop-commands old s done ws (window_step old s done w found))

session_loop-commands :
    (key : Text) (old : Memory) (ss : List Session) (found : Found)
    → get key (session_loop old ss found).memory.commands
      ≡ last_command (has_key key) ss (get key found.memory.commands)
unfolding session_loop session_step
session_loop-commands key old [] found = refl
session_loop-commands key old (s ∷ ss) found =
    let x = pane_loop old s s.pane_commands ([], found) in
    session_loop-commands key old ss (window_loop old s x.0 s.window_details x.1)
    ∙ ap (last_command (has_key key) ss) (
        ap (get key) (window_loop-commands old s x.0 s.window_details x.1)
        ∙ pane_loop-commands key old s s.pane_commands ([], found))

abbrev pub HaveNames : List Session → Type 0
HaveNames = All (λ s. HasNoColon s.name)

module _ (name : Text) (pc : PaneCommand) (h : HasNoColon name) where
  last_in-key :
      (n : Text) (pcs : List PaneCommand) (old : Option Text)
      → HasNoColon n
      → last_in (has_key (pane_key name pc)) n pcs old ≡ last_in (is_pane name pc) n pcs old
  last_in-key n [] old k = refl
  last_in-key n (p ∷ pcs) old k =
      ap (λ b. last_in (has_key (pane_key name pc)) n pcs (if b then some p.command else old))
        (pane_key_eq name n pc p h k)
      ∙ last_in-key n pcs (if is_pane name pc n p then some p.command else old) k

  last_command-key :
      (ss : List Session) (old : Option Text)
      → HaveNames ss
      → last_command (has_key (pane_key name pc)) ss old ≡ last_command (is_pane name pc) ss old
  last_command-key [] old k = refl
  last_command-key (s ∷ ss) old k =
      last_command-key ss (last_in (has_key (pane_key name pc)) s.name s.pane_commands old) k.1
      ∙ ap (last_command (is_pane name pc) ss) (last_in-key s.name s.pane_commands old k.0)

  finished-ended :
      (old : Memory) (before : List Session)
      → HaveNames before
      → finished (detect_completions old before).memory name pc ≡ ended before name pc
  unfolding finished detect_completions get
  finished-ended old before k =
      let e =
        session_loop-commands (pane_key name pc) old before nothing
        ∙ last_command-key before none k in
      ground (arith, e)

finished_panes-ended :
    (old : Memory) (before : List Session) (name : Text) (pcs : List PaneCommand)
    → HaveNames before
    → HasNoColon name
    → finished_panes (detect_completions old before).memory name pcs ≡ ended_panes before name pcs
finished_panes-ended old before name [] h k = refl
finished_panes-ended old before name (pc ∷ pcs) h k =
    ap (λ o. report_of name pc o ++ finished_panes (detect_completions old before).memory name pcs)
      (finished-ended name pc k old before h)
    ∙ ap (◌++◌ (report_of name pc (ended before name pc)))
        (finished_panes-ended old before name pcs h k)

finished_in-ended :
    (old : Memory) (before after : List Session)
    → HaveNames before
    → HaveNames after
    → finished_in (detect_completions old before).memory after ≡ ended_in before after
finished_in-ended old before [] h k = refl
finished_in-ended old before (s ∷ after) h k =
    ap (λ ps. ps ++ finished_in (detect_completions old before).memory after)
      (finished_panes-ended old before s.name s.pane_commands h k.0)
    ∙ ap (◌++◌ (ended_panes before s.name s.pane_commands))
        (finished_in-ended old before after h k.1)

-- A round reports exactly the panes that the round before it saw at a command which is no shell, and
-- that are at a shell now, each once and with that command, in the order of the sessions. A pane is the
-- same one if its session, its window and its id are, as long as no name of a session has a colon;
-- where the round before saw one twice, its last command counts.
pub detect_completions-ended :
    (old : Memory) (before after : List Session)
    → HaveNames before
    → HaveNames after
    → (detect_completions (detect_completions old before).memory after).panes
      ≡ ended_in before after
detect_completions-ended old before after h k =
    detect_completions-panes (detect_completions old before).memory after
    ∙ finished_in-ended old before after h k
