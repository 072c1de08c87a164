-- ===== src/Tmux/Joined.antt =====
-- What splitTmuxFields of lib/tmux.js reads back from a line whose fields were joined.
use tmux_web_panel.Base.{
  ℕ, zero, suc, ◌+◌, ◌-◌, ◌≤◌, ◌≡◌, ◌⊎◌, refl, sym, ap, ◌∙◌, false, List, [], ◌∷◌, ◌++◌, Text,
  arith, nat_eq, length, length-append, All, append_assoc, append-nil,
}
use tmux_web_panel.Tmux.Fields.{
  field_sep, take, drop, slice, split_sep, join_sep, gather, split_tmux_fields,
}
use tmux_web_panel.Tmux.Parts.{
  ends_open, IsField, AreLastFields, join_sep-split_sep, split_sep-IsField, split_sep-AreLastFields,
  split_sep-append, length-split_sep,
}

join_sep-cons :
    (p : Text) (ps : List Text)
    → 1 ≤ length ps
    → join_sep (p ∷ ps) ≡ p ++ (field_sep ++ join_sep ps)
unfolding join_sep
join_sep-cons p [] h = ground arith
join_sep-cons p (q ∷ ps) h = refl

split_sep-before :
    (before rest : List Text)
    → All IsField before
    → 1 ≤ length rest
    → split_sep 0 (join_sep (before ++ rest)) ≡ before ++ split_sep 0 (join_sep rest)
split_sep-before [] rest h l = refl
split_sep-before (b ∷ bs) rest h l =
    ap (split_sep 0) (join_sep-cons b (bs ++ rest) (omega (arith, length-append bs rest)))
    ∙ split_sep-IsField b (join_sep (bs ++ rest)) h.0
    ∙ ap (λ x. b ∷ x) (split_sep-before bs rest h.1 l)

split_sep-text :
    (t : Text) (after : List Text)
    → (ends_open t ≡ false) ⊎ (after ≡ [])
    → AreLastFields after
    → split_sep 0 (join_sep (t ∷ after)) ≡ split_sep 0 t ++ after
unfolding join_sep
split_sep-text t [] o h = sym (append-nil (split_sep 0 t))
split_sep-text t (a ∷ as_) o h =
    split_sep-append 0 t (join_sep (a ∷ as_)) (omega arith) (ground arith)
    ∙ ap (λ x. split_sep 0 t ++ x) (split_sep-AreLastFields a as_ h)

module _ {ℓ} {A : Type ℓ} where
  take-append : (xs ys : List A) (n : ℕ) → n ≡ length xs → take n (xs ++ ys) ≡ xs
  take-append [] ys zero h = refl
  take-append [] ys (suc n) h = ground arith
  take-append (x ∷ xs) ys zero h = ground arith
  take-append (x ∷ xs) ys (suc n) h = ap (λ r. x ∷ r) (take-append xs ys n (omega arith))

  drop-append : (xs ys : List A) (n : ℕ) → n ≡ length xs → drop n (xs ++ ys) ≡ ys
  drop-append [] ys zero h = refl
  drop-append [] ys (suc n) h = ground arith
  drop-append (x ∷ xs) ys zero h = ground arith
  drop-append (x ∷ xs) ys (suc n) h = drop-append xs ys n (omega arith)

gather-long :
    (parts : List Text) (count i n : ℕ)
    → count + 1 ≤ length parts
    → n ≡ length parts - ((count - i) - 1)
    → gather parts count i ≡ take i parts ++ (join_sep (slice i n parts) ∷ drop n parts)
unfolding gather
gather-long parts count i n l e = ground (arith, e)

-- The middle of three lists is cut out at its two ends.
slice-append {ℓ} :
    {A : Type ℓ} (xs ys zs : List A) (n : ℕ)
    → n ≡ length xs + length ys
    → slice (length xs) n (xs ++ (ys ++ zs)) ≡ ys
slice-append xs ys zs n e =
    ap (λ l. drop (length xs) (take n l)) (sym (append_assoc xs ys zs))
    ∙ ap (drop (length xs)) (take-append (xs ++ ys) zs n (e ∙ sym (length-append xs ys)))
    ∙ drop-append xs ys (length xs) refl

drop-append_two {ℓ} :
    {A : Type ℓ} (xs ys zs : List A) (n : ℕ)
    → n ≡ length xs + length ys
    → drop n (xs ++ (ys ++ zs)) ≡ zs
drop-append_two xs ys zs n e =
    ap (drop n) (sym (append_assoc xs ys zs))
    ∙ drop-append (xs ++ ys) zs n (e ∙ sym (length-append xs ys))

gather-many :
    (before ps after : List Text)
    → 2 ≤ length ps
    → gather (before ++ (ps ++ after)) (length before + suc (length after)) (length before)
      ≡ before ++ (join_sep ps ∷ after)
gather-many before ps after l =
    let n = length before + length ps in
    let whole = length-append before (ps ++ after) in
    let rest = length-append ps after in
    let front = take-append before (ps ++ after) (length before) refl in
    let middle = slice-append before ps after n refl in
    let end = drop-append_two before ps after n refl in
    gather-long (before ++ (ps ++ after)) (length before + suc (length after)) (length before) n
      (omega (arith, whole, rest)) (omega (arith, whole, rest))
    ∙ rw (front, middle, end)

gather-append :
    (before middle after : List Text)
    → 1 ≤ length middle
    → gather (before ++ (middle ++ after)) (length before + suc (length after)) (length before)
      ≡ before ++ (join_sep middle ∷ after)
unfolding gather join_sep
gather-append before [] after l = ground arith
gather-append before (p ∷ []) after l = ground (arith, length-append before (p ∷ after))
gather-append before (p ∷ q ∷ middle) after l =
    gather-many before (p ∷ q ∷ middle) after (omega arith)

-- The fields around a free text are read back exactly, whatever the text holds, and so is the
-- text: the fields before it hold no separator and do not end in `=:`, nor do those behind it but
-- the last, which only holds no separator; the text does not end in `=:` unless it is the last.
pub split_tmux_fields-join_sep :
    (before : List Text) (t : Text) (after : List Text)
    → All IsField before
    → (ends_open t ≡ false) ⊎ (after ≡ [])
    → AreLastFields after
    → split_tmux_fields
        (join_sep (before ++ t ∷ after))
        (length before + suc (length after))
        (length before)
      ≡ before ++ t ∷ after
unfolding split_tmux_fields
split_tmux_fields-join_sep before t after b o a =
    ap (λ parts. gather parts (length before + suc (length after)) (length before))
      (split_sep-before before (t ∷ after) b (omega arith)
        ∙ ap (λ x. before ++ x) (split_sep-text t after o a))
    ∙ gather-append before (split_sep 0 t) after (length-split_sep 0 t)
    ∙ ap (λ x. before ++ (x ∷ after)) (join_sep-split_sep 0 t)
