-- ===== src/Tmux/Parts.antt =====
-- `split(FIELD_SEP)` and `join(FIELD_SEP)` in lib/tmux.js, as they undo each other.
use tmux_web_panel.Base.{
  ℕ, zero, suc, ◌≤◌, ◌≡◌, inl, inr, refl, ap, ◌∙◌, Bool, true, false, ◌&&◌, List, [], ◌∷◌, ◌++◌,
  Text, arith, nat_eq, ◌==◌, length, Bool-cases,
}
use tmux_web_panel.Base.Texts.{starts_with, push_head}
use tmux_web_panel.Tmux.Fields.{field_sep, drop, split_sep, join_sep}

-- The text ends in `=:`, so that a separator behind it is found two places too early.
abbrev pub ends_open : Text → Bool
ends_open [] = false
ends_open (a ∷ []) = false
ends_open (a ∷ b ∷ []) = a == b'=' && b == b':'
ends_open (a ∷ b ∷ c ∷ t) = ends_open (b ∷ c ∷ t)

-- The text holds no separator.
abbrev pub IsWhole : Text → Type 0
IsWhole t = split_sep 0 t ≡ t ∷ []

abbrev pub IsField : Text → Type 0
IsField t = IsWhole t × (ends_open t ≡ false)

-- Fields up to the end of a line; the last one may end as it likes.
abbrev pub AreLastFields : List Text → Type 0
AreLastFields [] = Unit
AreLastFields (t ∷ []) = IsWhole t
AreLastFields (t ∷ u ∷ r) = IsField t × AreLastFields (u ∷ r)

ends_open-tail : (c : ℕ) (t : Text) → ends_open (c ∷ t) ≡ false → ends_open t ≡ false
ends_open-tail c [] h = refl
ends_open-tail c (a ∷ []) h = refl
ends_open-tail c (a ∷ b ∷ t) h = h

starts_with-closed :
    (c : ℕ) (t s : Text)
    → ends_open (c ∷ t) ≡ false
    → starts_with (c ∷ (t ++ (field_sep ++ s))) field_sep ≡ starts_with (c ∷ t) field_sep
unfolding starts_with
starts_with-closed c [] s h = ground arith
starts_with-closed c (a ∷ []) s h = ground arith
starts_with-closed c (a ∷ b ∷ t) s h = ground arith

length-starts_with_sep : (c : ℕ) (t : Text) → starts_with (c ∷ t) field_sep ≡ true → 2 ≤ length t
unfolding starts_with
length-starts_with_sep c [] h = ground arith
length-starts_with_sep c (a ∷ []) h = ground arith
length-starts_with_sep c (a ∷ b ∷ t) h = ground arith

push_head-append :
    (c : ℕ) (ps qs : List Text) → 1 ≤ length ps → push_head c (ps ++ qs) ≡ push_head c ps ++ qs
push_head-append c [] qs h = ground arith
push_head-append c (p ∷ ps) qs h = refl

length-push_head : (c : ℕ) (ps : List Text) → 1 ≤ length (push_head c ps)
length-push_head c [] = omega arith
length-push_head c (p ∷ ps) = omega arith

pub length-split_sep : (k : ℕ) (t : Text) → 1 ≤ length (split_sep k t)
unfolding split_sep
length-split_sep k [] = omega arith
length-split_sep (suc k) (c ∷ t) = length-split_sep k t
length-split_sep zero (c ∷ t) = ground (arith, length-push_head c (split_sep 0 t))

split_sep-sep : (s : Text) → split_sep 0 (field_sep ++ s) ≡ [] ∷ split_sep 0 s
unfolding split_sep starts_with
split_sep-sep s = refl

pub split_sep-append :
    (k : ℕ) (t s : Text)
    → k ≤ length t
    → ends_open t ≡ false
    → split_sep k (t ++ (field_sep ++ s)) ≡ split_sep k t ++ split_sep 0 s
unfolding split_sep
split_sep-append zero [] s l h = split_sep-sep s
split_sep-append (suc k) [] s l h = ground arith
split_sep-append (suc k) (c ∷ t) s l h = split_sep-append k t s (omega arith) (ends_open-tail c t h)
split_sep-append zero (c ∷ t) s l h =
    let same = starts_with-closed c t s h in
    elim (Bool-cases (starts_with (c ∷ t) field_sep)) [
      | inl e ↦
          let rest = split_sep-append 2 t s (length-starts_with_sep c t e) (ends_open-tail c t h) in
          ground (arith, same, rest, e)
      | inr e ↦
          let rest = split_sep-append 0 t s (omega arith) (ends_open-tail c t h) in
          let front = push_head-append c (split_sep 0 t) (split_sep 0 s) (length-split_sep 0 t) in
          ground (arith, same, rest, front, e)
    ]

-- Joining what was split gives the text back.
join_sep-push_head :
    (c : ℕ) (ps : List Text) → 1 ≤ length ps → join_sep (push_head c ps) ≡ c ∷ join_sep ps
unfolding join_sep
join_sep-push_head c [] h = ground arith
join_sep-push_head c (p ∷ []) h = refl
join_sep-push_head c (p ∷ q ∷ ps) h = refl

join_sep-empty : (ps : List Text) → 1 ≤ length ps → join_sep ([] ∷ ps) ≡ field_sep ++ join_sep ps
unfolding join_sep
join_sep-empty [] h = ground arith
join_sep-empty (p ∷ ps) h = refl

starts_with-sep :
    (c : ℕ) (t : Text) → starts_with (c ∷ t) field_sep ≡ true → c ∷ t ≡ field_sep ++ drop 2 t
unfolding starts_with
starts_with-sep c [] h = ground arith
starts_with-sep c (a ∷ []) h = ground arith
starts_with-sep c (a ∷ b ∷ t) h = ground arith

pub join_sep-split_sep : (k : ℕ) (t : Text) → join_sep (split_sep k t) ≡ drop k t
unfolding split_sep join_sep
join_sep-split_sep zero [] = refl
join_sep-split_sep (suc k) [] = refl
join_sep-split_sep (suc k) (c ∷ t) = join_sep-split_sep k t
join_sep-split_sep zero (c ∷ t) = elim (Bool-cases (starts_with (c ∷ t) field_sep)) [
  | inl e ↦ ground (
    arith,
    e,
    join_sep-split_sep 2 t,
    starts_with-sep c t e,
    join_sep-empty (split_sep 2 t) (length-split_sep 2 t),
  )
  | inr e ↦ ground (
    arith,
    e,
    join_sep-split_sep 0 t,
    join_sep-push_head c (split_sep 0 t) (length-split_sep 0 t),
  )
]

-- A separator closes the first part, and the parts of the rest follow.
pub split_sep-IsField :
    (t s : Text) → IsField t → split_sep 0 (t ++ (field_sep ++ s)) ≡ t ∷ split_sep 0 s
split_sep-IsField t s h = ground (arith, split_sep-append 0 t s (omega arith) h.1, h.0)

pub split_sep-AreLastFields :
    (t : Text) (ts : List Text) → AreLastFields (t ∷ ts) → split_sep 0 (join_sep (t ∷ ts)) ≡ t ∷ ts
unfolding join_sep
split_sep-AreLastFields t [] h = h
split_sep-AreLastFields t (u ∷ r) h =
    split_sep-IsField t (join_sep (u ∷ r)) h.0 ∙ ap (λ x. t ∷ x) (split_sep-AreLastFields u r h.1)
