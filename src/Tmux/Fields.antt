-- ===== src/Tmux/Fields.antt =====
-- FIELD_SEP and splitTmuxFields of lib/tmux.js.
use tmux_web_panel.Base.{
  ℕ, zero, suc, ◌-◌, List, [], ◌∷◌, ◌++◌, Text, text, if◌then◌else◌, length, leb,
}
use tmux_web_panel.Base.Texts.{starts_with, push_head}

abbrev pub field_sep : Text
field_sep = text "=:="

abbrev pub take {ℓ} : {A : Type ℓ} → ℕ → List A → List A
take zero xs = []
take (suc n) [] = []
take (suc n) (x ∷ xs) = x ∷ take n xs

abbrev pub drop {ℓ} : {A : Type ℓ} → ℕ → List A → List A
drop zero xs = xs
drop (suc n) [] = []
drop (suc n) (x ∷ xs) = drop n xs

-- `xs.slice(from, to)` for bounds that are not negative.
abbrev pub slice {ℓ} : {A : Type ℓ} → ℕ → ℕ → List A → List A
slice from to xs = drop from (take to xs)

-- `s.split(FIELD_SEP)`, from the left; `skip` counts what is left of a separator that was met.
unfoldable pub split_sep : ℕ → Text → List Text
unfolding starts_with
split_sep skip [] = [] ∷ []
split_sep (suc skip) (c ∷ s) = split_sep skip s
split_sep zero (c ∷ s) =
    let found = [] ∷ split_sep 2 s in
    let more = push_head c (split_sep zero s) in
    if starts_with (c ∷ s) field_sep then found else more

-- `parts.join(FIELD_SEP)`.
unfoldable pub join_sep : List Text → Text
join_sep [] = []
join_sep (p ∷ []) = p
join_sep (p ∷ q ∷ r) = p ++ (field_sep ++ join_sep (q ∷ r))

-- The parts at `text_index` and behind it that are too many for `count` fields become one text.
unfoldable pub gather : List Text → ℕ → ℕ → List Text
unfolding join_sep
gather parts count text_index =
    let trailing = (count - text_index) - 1 in
    if leb (length parts) count
    then parts
    else take text_index parts
      ++ (join_sep (slice text_index (length parts - trailing) parts)
          ∷ drop (length parts - trailing) parts)

unfoldable pub split_tmux_fields : Text → ℕ → ℕ → List Text
unfolding split_sep gather
split_tmux_fields line count text_index = gather (split_sep 0 line) count text_index
