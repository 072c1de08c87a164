-- ===== src/Base/Texts.antt =====
-- The string methods that the program calls, over code units.
use tmux_web_panel.Base.Tests.{if◌then◌else◌, ltb, leb, nat_beq}
use tmux_web_panel.Base.Equality.{Text}
use tmux_web_panel.Base.Int.{ℤ, pos, negsuc}
use Prim.Native.Nat.{ℕ, zero, suc, ◌+◌, ◌-◌, ◌*◌, ◌/◌, ◌%◌}
use mathlib.Core.Bool.{Bool, true, false, ◌&&◌, ◌||◌}
use mathlib.Core.Option.{Option, none, some}
use mathlib.Core.List.{List, [], ◌∷◌}

abbrev pub push_head : ℕ → List Text → List Text
push_head c [] = (c ∷ []) ∷ []
push_head c (p ∷ ps) = (c ∷ p) ∷ ps

-- `s.split(c)` for a separator of one character; the empty text has one empty part.
unfoldable pub split : ℕ → Text → List Text
split c [] = [] ∷ []
split c (x ∷ xs) = if nat_beq x c then [] ∷ split c xs else push_head x (split c xs)

unfoldable pub starts_with : Text → Text → Bool
starts_with s [] = true
starts_with [] (p ∷ ps) = false
starts_with (x ∷ xs) (p ∷ ps) = nat_beq x p && starts_with xs ps

unfoldable pub includes : Text → Text → Bool
unfolding starts_with
includes [] p = starts_with [] p
includes (x ∷ xs) p = starts_with (x ∷ xs) p || includes xs p

-- A string that is absent or empty is false in a condition.
abbrev pub truthy : Option Text → Option Text
truthy none = none
truthy (some []) = none
truthy (some (x ∷ xs)) = some (x ∷ xs)

-- `a || b` for optional strings.
abbrev pub or_text : Option Text → Option Text → Option Text
or_text (some (x ∷ xs)) b = some (x ∷ xs)
or_text _ b = b

-- `String(n)` of a natural number. Every division by ten takes a digit, so `n + 1` rounds are enough.
unfoldable pub digits : ℕ → ℕ → Text → Text
digits zero n acc = acc
digits (suc fuel) n acc =
    let more = digits fuel (n / 10) ((48 + n % 10) ∷ acc) in
    if ltb n 10 then (48 + n) ∷ acc else more

unfoldable pub decimal : ℕ → Text
unfolding digits
decimal n = digits (n + 1) n []

-- `String(z)` of an integer.
unfoldable pub int_text : ℤ → Text
unfolding decimal
int_text (pos n) = decimal n
int_text (negsuc n) = b'-' ∷ decimal (suc n)

-- What `trim` takes off at either end.
unfoldable pub is_space : ℕ → Bool
is_space c =
    (leb 9 c && leb c 13)
    || (nat_beq c 32
        || (nat_beq c 160
            || (nat_beq c 0x1680
                || ((leb 0x2000 c && leb c 0x200a)
                    || (nat_beq c 0x2028
                        || (nat_beq c 0x2029
                            || (nat_beq c 0x202f
                                || (nat_beq c 0x205f
                                    || (nat_beq c 0x3000 || nat_beq c 0xfeff)))))))))

unfoldable pub trim_start : Text → Text
unfolding is_space
trim_start [] = []
trim_start (c ∷ t) = if is_space c then trim_start t else c ∷ t

-- A text without its trailing spaces: a space is dropped if only spaces follow it.
unfoldable pub trim_end : Text → Text
unfolding is_space
trim_end [] = []
trim_end (c ∷ t) = elim (trim_end t) [ [] ↦ if is_space c then [] else c ∷ [] | d ∷ u ↦ c ∷ d ∷ u ]

unfoldable pub trim : Text → Text
unfolding trim_start trim_end
trim t = trim_end (trim_start t)

abbrev pub is_digit : ℕ → Bool
is_digit c = leb b'0' c && leb c b'9'

abbrev pub all_digits : Text → Bool
all_digits [] = true
all_digits (c ∷ t) = is_digit c && all_digits t

abbrev pub value_from : ℕ → Text → ℕ
value_from acc [] = acc
value_from acc (c ∷ t) = value_from (acc * 10 + (c - b'0')) t

abbrev pub negate : ℕ → ℤ
negate zero = pos 0
negate (suc n) = negsuc n

abbrev digits_value : Text → Option ℕ
digits_value [] = none
digits_value (c ∷ t) = if all_digits (c ∷ t) then some (value_from 0 (c ∷ t)) else none

abbrev map_option : (ℕ → ℤ) → Option ℕ → Option ℤ
map_option f none = none
map_option f (some n) = some (f n)

-- The integer of a text that matches /^-?\d+$/.
unfoldable pub parse_int : Text → Option ℤ
parse_int [] = none
parse_int (c ∷ t) =
    if nat_beq c b'-'
    then map_option negate (digits_value t)
    else map_option pos (digits_value (c ∷ t))
