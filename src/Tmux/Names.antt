-- ===== src/Tmux/Names.antt =====
-- The validators of lib/tmux.js, commandName and windowName. A validator takes any JSON value, as
-- a request carries one; only a string passes.
use tmux_web_panel.Base.{
  ℕ, ◌-◌, ◌^◌, Bool, true, false, not, ◌&&◌, ◌||◌, List, [], ◌∷◌, Text, nat_eq, ◌==◌, if◌then◌else◌,
  ltb, leb, length, every, keep, Option, none, some,
}
use tmux_web_panel.Base.Texts.{includes, trim, is_space, is_digit, value_from, push_head}
use tmux_web_panel.AgentEvents.Event.{Value, string}
use tmux_web_panel.Tmux.Fields.{field_sep}

abbrev pub is_empty {ℓ} : {A : Type ℓ} → List A → Bool
is_empty [] = true
is_empty (x ∷ xs) = false

abbrev pub is_letter : ℕ → Bool
is_letter c = (leb b'A' c && leb c b'Z') || (leb b'a' c && leb c b'z')

-- `[\w\-\u4e00-\u9fff]`
abbrev pub is_name_char : ℕ → Bool
is_name_char c =
    is_letter c || (is_digit c || (c == b'_' || (c == b'-' || (leb 0x4e00 c && leb c 0x9fff))))

-- SESSION_NAME_RE
unfoldable pub session_name_re : Text → Bool
unfolding is_space
session_name_re [] = false
session_name_re (c ∷ t) = is_name_char c && every (λ d. is_name_char d || is_space d) t

-- WINDOW_NAME_RE
unfoldable pub window_name_re : Text → Bool
window_name_re t = every (λ c. not (leb c 0x1f || c == b':')) t

-- A mark in front of a decimal number: PANE_ID_RE, WINDOW_ID_RE and SESSION_ID_RE.
unfoldable pub id_re : ℕ → Text → Bool
id_re mark [] = false
id_re mark (c ∷ t) = c == mark && (not (is_empty t) && every is_digit t)

unfoldable pub window_index_re : Text → Bool
window_index_re t = not (is_empty t) && every is_digit t

unfoldable pub validate_session_name : Value → Bool
unfolding session_name_re trim
validate_session_name (string name) = not (is_empty (trim name)) && session_name_re name
validate_session_name _ = false

unfoldable pub validate_session_id : Value → Bool
unfolding id_re
validate_session_id (string id) = id_re b'$' id
validate_session_id _ = false

unfoldable pub validate_window_name : Value → Bool
unfolding window_name_re trim
validate_window_name (string name) = not (is_empty (trim name)) && window_name_re name
validate_window_name _ = false

unfoldable pub validate_pane_id : Value → Bool
unfolding id_re
validate_pane_id (string id) = id_re b'%' id
validate_pane_id _ = false

abbrev pub pane_label_max_len : ℕ
pane_label_max_len = 32

unfoldable pub validate_pane_label : Value → Bool
unfolding includes
validate_pane_label (string label) =
    if ltb pane_label_max_len (length label)
    then false
    else if includes label field_sep
    then false
    else every (λ c. not (leb c 0x1f)) label
validate_pane_label _ = false

-- The least natural number that is rounded to Infinity, the ties included.
unfoldable pub least_infinite : ℕ
least_infinite = 2 ^ 1024 - 2 ^ 970

-- A text of digits is a natural number, unless it is so long that `Number` gives Infinity.
unfoldable pub validate_window_index : Value → Bool
unfolding window_index_re least_infinite
validate_window_index (string index) =
    window_index_re index && ltb (value_from 0 index) least_infinite
validate_window_index _ = false

unfoldable pub validate_window_id : Value → Bool
unfolding id_re
validate_window_id (string id) = id_re b'@' id
validate_window_id _ = false

abbrev pub is_slash : ℕ → Bool
is_slash c = c == b'\\' || c == b'/'

-- `text.split(/[\\/]+/)`; the empty parts it leaves out are dropped by the filter behind it.
unfoldable pub split_path : Text → List Text
split_path [] = [] ∷ []
split_path (c ∷ t) = if is_slash c then [] ∷ split_path t else push_head c (split_path t)

abbrev pub last_or : Text → List Text → Text
last_or d [] = d
last_or d (p ∷ ps) = last_or p ps

-- `.replace(/\.exe$/i, '')`
unfoldable pub strip_exe : Text → Text
strip_exe [] = []
strip_exe (c ∷ t) =
    let rest = strip_exe t in
    elim t [
      | x ∷ y ∷ z ∷ [] ↦
          if c == b'.'
            && ((x == b'e' || x == b'E') && ((y == b'x' || y == b'X') && (z == b'e' || z == b'E')))
          then []
          else c ∷ rest
      | _ ↦ c ∷ rest
    ]

-- A value that is missing, or was not printed, is the empty text.
abbrev pub or_empty : Option Text → Text
or_empty none = []
or_empty (some t) = t

unfoldable pub command_name : Option Text → Text
unfolding split_path strip_exe
command_name raw =
    let t = or_empty raw in strip_exe (last_or t (keep (λ p. not (is_empty p)) (split_path t)))

-- `/^[A-Za-z]:[\\/]/`
abbrev pub is_drive_path : Text → Bool
is_drive_path (a ∷ b ∷ c ∷ t) = is_letter a && (b == b':' && is_slash c)
is_drive_path _ = false

unfoldable pub window_name : Option Text → Text
unfolding command_name
window_name raw = let t = or_empty raw in if is_drive_path t then command_name (some t) else t
