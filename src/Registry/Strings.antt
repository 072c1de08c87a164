-- ===== src/Registry/Strings.antt =====
-- The checks of lib/servers/registry.js on single values: isValidHost, requireCleanString,
-- normalizePort and slugify. `undefined` is `none`.
use tmux_web_panel.Base.{
  ℕ, zero, suc, ◌+◌, Bool, true, false, not, ◌&&◌, ◌||◌, Option, none, some, [], ◌∷◌, Text, text,
  nat_eq, ◌==◌, if◌then◌else◌, leb, ltb, length, every, any,
}
use tmux_web_panel.Base.Int.{ℤ, pos}
use tmux_web_panel.Base.Texts.{trim, is_digit}
use tmux_web_panel.AgentEvents.Event.{Value, null, number, string}
use tmux_web_panel.Registry.Failure.{Result, ok, field_error}

abbrev pub is_empty : Text → Bool
is_empty [] = true
is_empty (c ∷ t) = false

abbrev pub is_lower : ℕ → Bool
is_lower c = leb b'a' c && leb c b'z'

abbrev pub is_upper : ℕ → Bool
is_upper c = leb b'A' c && leb c b'Z'

-- `[A-Za-z0-9._-]`
abbrev pub is_word : ℕ → Bool
is_word c = is_lower c || (is_upper c || (is_digit c || (c == b'.' || (c == b'_' || c == b'-'))))

-- `[a-z0-9._-]`
abbrev pub is_slug : ℕ → Bool
is_slug c = is_lower c || (is_digit c || (c == b'.' || (c == b'_' || c == b'-')))

-- A first character of one kind, and `max` characters of another behind it at most.
unfoldable pub first_then : (ℕ → Bool) → (ℕ → Bool) → ℕ → Text → Bool
first_then p q max [] = false
first_then p q max (c ∷ t) = p c && (every q t && leb (length t) max)

unfoldable pub id_re : Text → Bool
unfolding first_then
id_re t = first_then (λ c. is_lower c || is_digit c) is_slug 63 t

unfoldable pub hostname_re : Text → Bool
unfolding first_then
hostname_re t = first_then is_word is_word 252 t

unfoldable pub user_re : Text → Bool
unfolding first_then
user_re t = first_then is_word is_word 31 t

unfoldable pub ssh_config_host_re : Text → Bool
unfolding first_then
ssh_config_host_re t = first_then (λ c. is_word c && not (c == b'-')) is_word 252 t

unfoldable pub proxy_jump_re : Text → Bool
unfolding first_then
proxy_jump_re t =
    first_then (λ c. (is_word c && not (c == b'-')) || (c == b'@' || c == b'['))
      (λ c. is_word c || (c == b'@' || (c == b':' || (c == b',' || (c == b'[' || c == b']'))))) 252
      t

-- The part in front of the first '%', and the part behind it if there is one.
unfoldable pub cut_zone : Text → Text × Text
cut_zone [] = ([], [])
cut_zone (c ∷ t) = let rest = cut_zone t in if c == b'%' then ([], t) else (c ∷ rest.0, rest.1)

abbrev drop_last : Text → Text
drop_last [] = []
drop_last (c ∷ []) = []
drop_last (c ∷ d ∷ t) = c ∷ drop_last (d ∷ t)

abbrev ends_in : ℕ → Text → Bool
ends_in e [] = false
ends_in e (c ∷ []) = c == e
ends_in e (c ∷ d ∷ t) = ends_in e (d ∷ t)

-- The value without its brackets; a lone '[' does not end in ']'.
unfoldable pub bare_host : Text → Text
bare_host [] = []
bare_host (c ∷ t) = if c == b'[' && ends_in b']' t then drop_last t else c ∷ t

abbrev pub begins_with_dash : Text → Bool
begins_with_dash [] = false
begins_with_dash (c ∷ t) = c == b'-'

-- `isIPv6` is node's.
unfoldable pub is_valid_host : (Text → Bool) → Text → Bool
unfolding bare_host cut_zone hostname_re user_re
is_valid_host is_ipv6 value =
    let bare = bare_host value in
    let zone = (cut_zone bare).1 in
    if is_empty value || begins_with_dash value
    then false
    else if is_ipv6 (cut_zone bare).0
    then is_empty zone || user_re zone
    else if any (λ c. c == b':') bare
    then false
    else hostname_re bare

abbrev pub is_control : ℕ → Bool
is_control c = leb c 0x1f || c == 0x7f

-- `null` of the source is `none` in the result.
unfoldable pub clean_text : Text → ℕ → (Text → Bool) → Bool → Text → Result (Option Text)
unfolding trim
clean_text field max valid required value =
    if is_empty (trim value)
    then (if required then field_error field else ok none)
    else if ltb max (length (trim value))
        || (any is_control (trim value) || not (valid (trim value)))
    then field_error field
    else ok (some (trim value))

-- `pattern` and `validate` are one test here; both answer with the same error.
unfoldable pub require_clean_string :
    Option Value → Text → ℕ → (Text → Bool) → Bool → Result (Option Text)
unfolding clean_text
require_clean_string none field max valid required = if required then field_error field else ok none
require_clean_string (some null) field max valid required =
    if required then field_error field else ok none
require_clean_string (some (string t)) field max valid required =
    clean_text field max valid required t
require_clean_string (some _) field max valid required = field_error field

abbrev port_in_range : Option ℤ → Result ℕ
port_in_range (some (pos n)) =
    if ltb n 1 || ltb 65535 n then field_error (text "address.port") else ok n
port_in_range _ = field_error (text "address.port")

-- `to_integer` stands for `Number(String(value).trim())` of a value that is no number, `none`
-- where that is no integer.
unfoldable pub normalize_port : (Value → Option ℤ) → Option Value → Result ℕ
normalize_port to_integer none = ok 22
normalize_port to_integer (some null) = ok 22
normalize_port to_integer (some (string [])) = ok 22
normalize_port to_integer (some (number n)) = port_in_range (some n)
normalize_port to_integer (some v) = port_in_range (to_integer v)

-- `toLowerCase`, as far as the replacement behind it sees it: the other letters that change stay
-- outside `[a-z0-9._-]`. U+0130 becomes an i and a mark, and U+212A is the sign for kelvin.
unfoldable pub to_lower_case : Text → Text
to_lower_case [] = []
to_lower_case (c ∷ t) =
    let rest = to_lower_case t in
    if is_upper c
    then (c + 32) ∷ rest
    else if c == 0x130
    then b'i' ∷ 0x307 ∷ rest
    else if c == 0x212a
    then b'k' ∷ rest
    else c ∷ rest

-- `.replace(/[^a-z0-9._-]+/g, '-')`: of a run of other characters the last one becomes the dash.
unfoldable pub dash_others : Text → Text
dash_others [] = []
dash_others (c ∷ t) =
    let rest = dash_others t in
    if is_slug c
    then c ∷ rest
    else elim t [ [] ↦ b'-' ∷ rest | d ∷ u ↦ if is_slug d then b'-' ∷ rest else rest ]

unfoldable pub strip_front : Text → Text
strip_front [] = []
strip_front (c ∷ t) = let rest = strip_front t in if c == b'-' then rest else c ∷ t

unfoldable pub strip_back : Text → Text
strip_back [] = []
strip_back (c ∷ t) = elim (strip_back t) [
  | [] ↦ if c == b'-' then [] else c ∷ []
  | d ∷ u ↦ c ∷ d ∷ u
]

-- `.replace(/-{2}/g, '-')`
unfoldable pub join_dashes : Text → Text
join_dashes [] = []
join_dashes (c ∷ t) =
    let rest = join_dashes t in if c == b'-' && begins_with_dash t then rest else c ∷ rest

abbrev pub take : ℕ → Text → Text
take zero t = []
take (suc n) [] = []
take (suc n) (c ∷ t) = c ∷ take n t

abbrev or_server : Text → Text
or_server [] = text "server"
or_server (c ∷ t) = c ∷ t

unfoldable pub slugify : Text → Text
unfolding trim to_lower_case dash_others strip_front strip_back join_dashes
slugify name =
    or_server
      (take 48 (join_dashes (strip_back (strip_front (dash_others (to_lower_case (trim name)))))))
