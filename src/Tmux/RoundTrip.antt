-- ===== src/Tmux/RoundTrip.antt =====
-- The parsers of lib/tmux.js on lines whose names the validators of the panel accept.
use tmux_web_panel.Base.{
  ℕ, ◌≡◌, inl, inr, refl, ap, ◌∙◌, Bool, true, false, not, ◌&&◌, ◌||◌, some, List, [], ◌∷◌, ◌++◌,
  Text, text, nat_eq, ◌==◌, arith, every, All, append_assoc, subst,
}
use tmux_web_panel.Base.Tests.{nat_beq_iff, Bool-cases}
use tmux_web_panel.Base.Texts.{starts_with, includes, is_space}
use tmux_web_panel.AgentEvents.Event.{string}
use tmux_web_panel.Tmux.Fields.{field_sep, split_sep, join_sep}
use tmux_web_panel.Tmux.Parts.{ends_open, IsWhole, IsField, AreLastFields}
use tmux_web_panel.Tmux.Joined.{split_tmux_fields-join_sep}
use tmux_web_panel.Tmux.Names.{
  is_name_char, session_name_re, window_name_re, validate_session_name, validate_window_name,
  validate_pane_label, command_name, window_name,
}
use tmux_web_panel.Tmux.Lines.{
  number_of, is_one, parse_session, parse_window, parse_pane, parse_pane_command,
}

-- No colon stands in the text, as in every id, index and number that tmux prints.
abbrev pub HasNoColon : Text → Type 0
HasNoColon t = every (λ c. not (c == b':')) t ≡ true

starts_with-HasNoColon : (c : ℕ) (t : Text) → HasNoColon t → starts_with (c ∷ t) field_sep ≡ false
unfolding starts_with
starts_with-HasNoColon c [] h = ground arith
starts_with-HasNoColon c (d ∷ t) h = ground arith

ends_open-HasNoColon : (t : Text) → HasNoColon t → ends_open t ≡ false
ends_open-HasNoColon [] h = refl
ends_open-HasNoColon (a ∷ []) h = refl
ends_open-HasNoColon (a ∷ b ∷ []) h = ground arith
ends_open-HasNoColon (a ∷ b ∷ c ∷ t) h = ends_open-HasNoColon (b ∷ c ∷ t) (ground arith)

HasNoColon-IsWhole : (t : Text) → HasNoColon t → IsWhole t
unfolding split_sep
HasNoColon-IsWhole [] h = refl
HasNoColon-IsWhole (c ∷ t) h = ground (arith, HasNoColon-IsWhole t, starts_with-HasNoColon c t)

HasNoColon-IsField : (t : Text) → HasNoColon t → IsField t
HasNoColon-IsField t h = (HasNoColon-IsWhole t h, ends_open-HasNoColon t h)

All-IsField : (ts : List Text) → All HasNoColon ts → All IsField ts
All-IsField [] h = tt
All-IsField (t ∷ ts) h = (HasNoColon-IsField t h.0, All-IsField ts h.1)

HasNoColon-AreLastFields : (ts : List Text) → All HasNoColon ts → AreLastFields ts
HasNoColon-AreLastFields [] h = tt
HasNoColon-AreLastFields (t ∷ []) h = HasNoColon-IsWhole t h.0
HasNoColon-AreLastFields (t ∷ u ∷ ts) h =
    (HasNoColon-IsField t h.0, HasNoColon-AreLastFields (u ∷ ts) h.1)

includes-IsWhole : (t : Text) → includes t field_sep ≡ false → IsWhole t
unfolding includes split_sep
includes-IsWhole [] h = refl
includes-IsWhole (c ∷ t) h = ground (arith, includes-IsWhole t)

Bool-and : (a b : Bool) → (a && b) ≡ true → (a ≡ true) × (b ≡ true)
Bool-and a b h = ground arith

colon_is_no_name : (is_name_char b':' || is_space b':') ≡ false
unfolding is_space
colon_is_no_name = refl

name_char_no_colon : (c : ℕ) → (is_name_char c || is_space c) ≡ true → (c == b':') ≡ false
name_char_no_colon c h = elim (Bool-cases (c == b':')) [
  | inl e ↦
      let same : c ≡ b':' = (nat_beq_iff c b':').0 e in
      let absurd : (is_name_char b':' || is_space b':') ≡ true =
        subst (λ d. (is_name_char d || is_space d) ≡ true) same h in
      ground (arith, absurd, colon_is_no_name)
  | inr e ↦ e
]

name_chars-HasNoColon :
    (t : Text) → every (λ d. is_name_char d || is_space d) t ≡ true → HasNoColon t
name_chars-HasNoColon [] h = refl
name_chars-HasNoColon (c ∷ t) h =
    let p =
      Bool-and (is_name_char c || is_space c) (every (λ d. is_name_char d || is_space d) t) h in
    let rest = name_chars-HasNoColon t p.1 in
    let first = name_char_no_colon c p.0 in rw (first, rest)

session_name_re-HasNoColon : (t : Text) → session_name_re t ≡ true → HasNoColon t
unfolding session_name_re
session_name_re-HasNoColon [] h = refl
session_name_re-HasNoColon (c ∷ t) h =
    let p = Bool-and (is_name_char c) (every (λ d. is_name_char d || is_space d) t) h in
    let rest = name_chars-HasNoColon t p.1 in
    let first = name_char_no_colon c (rw p.0) in rw (first, rest)

window_name_re-HasNoColon : (t : Text) → window_name_re t ≡ true → HasNoColon t
unfolding window_name_re
window_name_re-HasNoColon [] h = refl
window_name_re-HasNoColon (c ∷ t) h = ground (arith, window_name_re-HasNoColon t)

-- A name with no colon is no path of Windows.
window_name-HasNoColon : (t : Text) → HasNoColon t → window_name (some t) ≡ t
unfolding window_name
window_name-HasNoColon [] h = refl
window_name-HasNoColon (a ∷ []) h = refl
window_name-HasNoColon (a ∷ b ∷ []) h = refl
window_name-HasNoColon (a ∷ b ∷ c ∷ t) h = ground arith

-- A window whose name validateWindowName accepts is read back as it was printed, the name included, if
-- no colon stands in its other fields.
pub parse_window-join_sep :
    (id index name active width height bell activity : Text)
    → validate_window_name (string name) ≡ true
    → All HasNoColon (id ∷ index ∷ active ∷ width ∷ height ∷ bell ∷ activity ∷ [])
    → parse_window (join_sep (id ∷ index ∷ name ∷ active ∷ width ∷ height ∷ bell ∷ activity ∷ []))
      ≡ record {
        id = some id;
        index = number_of (some index);
        name = name;
        active = is_one (some active);
        width = number_of (some width);
        height = number_of (some height);
        bell = is_one (some bell);
        activity = number_of (some activity);
      }
unfolding parse_window validate_window_name
parse_window-join_sep id index name active width height bell activity v h =
    let plain = window_name_re-HasNoColon name (ground arith) in
    let whole = HasNoColon-IsField name plain in
    let fields =
      split_tmux_fields-join_sep (id ∷ index ∷ []) name
        (active ∷ width ∷ height ∷ bell ∷ activity ∷ [])
        (HasNoColon-IsField id h.0, (HasNoColon-IsField index h.1.0, tt)) (inl whole.1)
        (HasNoColon-AreLastFields (active ∷ width ∷ height ∷ bell ∷ activity ∷ []) h.1.1) in
    rw (fields, window_name-HasNoColon name plain)

-- A session whose name validateSessionName accepts is read back as it was printed, if no colon stands
-- in its other fields.
pub parse_session-join_sep :
    (id name windows attached last : Text)
    → validate_session_name (string name) ≡ true
    → All HasNoColon (id ∷ windows ∷ attached ∷ last ∷ [])
    → parse_session (join_sep (id ∷ name ∷ windows ∷ attached ∷ last ∷ [])) ≡ record {
      id = some id;
      name = some name;
      windows = number_of (some windows);
      attached = is_one (some attached);
      last_activity = some last;
    }
unfolding parse_session validate_session_name
parse_session-join_sep id name windows attached last v h =
    let plain = session_name_re-HasNoColon name (ground arith) in
    let whole = HasNoColon-IsField name plain in
    let fields =
      split_tmux_fields-join_sep (id ∷ []) name (windows ∷ attached ∷ last ∷ [])
        (HasNoColon-IsField id h.0, tt) (inl whole.1)
        (HasNoColon-AreLastFields (windows ∷ attached ∷ last ∷ []) h.1) in
    rw fields

-- A label that validatePaneLabel accepts is read back as it was printed, and so are the place and
-- the size of its pane, in which no colon stands, whatever the command in front of the label is,
-- unless the command ends in `=:`.
pub parse_pane-join_sep :
    (id x y width height active command label : Text)
    → validate_pane_label (string label) ≡ true
    → ends_open command ≡ false
    → All HasNoColon (id ∷ x ∷ y ∷ width ∷ height ∷ active ∷ [])
    → parse_pane (join_sep (id ∷ x ∷ y ∷ width ∷ height ∷ active ∷ command ∷ label ∷ [])) ≡ record {
      id = some id;
      x = number_of (some x);
      y = number_of (some y);
      width = number_of (some width);
      height = number_of (some height);
      active = is_one (some active);
      command = command_name (some command);
      label = label;
    }
unfolding parse_pane validate_pane_label
parse_pane-join_sep id x y width height active command label v c h =
    let whole = includes-IsWhole label (ground arith) in
    let fields =
      split_tmux_fields-join_sep (id ∷ x ∷ y ∷ width ∷ height ∷ active ∷ []) command (label ∷ [])
        (All-IsField (id ∷ x ∷ y ∷ width ∷ height ∷ active ∷ []) h) (inl c) whole in
    rw fields

open_tail-IsWhole : (t : Text) → HasNoColon t → IsWhole (text ":=" ++ t)
unfolding split_sep starts_with
open_tail-IsWhole [] h = refl
open_tail-IsWhole (c ∷ t) h = ground (arith, HasNoColon-IsWhole (c ∷ t) h)

open_end :
    (path pid : Text)
    → (path ++ text "=:") ++ (field_sep ++ pid) ≡ path ++ (field_sep ++ (text ":=" ++ pid))
open_end path pid = append_assoc path (text "=:") (field_sep ++ pid)

-- A working directory that ends in `=:` is read without these two characters, and the field of the
-- pid behind it begins with `:=`, if no colon stands in the rest of the line's fields.
pub parse_pane_command-ends_open :
    (index pane command path pid : Text)
    → All HasNoColon (index ∷ pane ∷ command ∷ path ∷ pid ∷ [])
    → parse_pane_command (join_sep (index ∷ pane ∷ command ∷ (path ++ text "=:") ∷ pid ∷ []))
      ≡ record {
        window_index = number_of (some index);
        pane_id = some pane;
        command = command_name (some command);
        path = path;
        pid = number_of (some (text ":=" ++ pid));
      }
unfolding parse_pane_command join_sep
parse_pane_command-ends_open index pane command path pid h =
    let rest = HasNoColon-IsField path h.1.1.1.0 in
    let line =
      ap (λ l. index ++ (field_sep ++ (pane ++ (field_sep ++ (command ++ (field_sep ++ l))))))
        (open_end path pid) in
    let fields =
      split_tmux_fields-join_sep (index ∷ pane ∷ command ∷ []) path ((text ":=" ++ pid) ∷ [])
        (All-IsField (index ∷ pane ∷ command ∷ []) (h.0, (h.1.0, (h.1.1.0, tt)))) (inl rest.1)
        (open_tail-IsWhole pid h.1.1.1.1.0) in
    ap parse_pane_command line ∙ rw fields
