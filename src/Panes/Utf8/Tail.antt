-- ===== src/Panes/Utf8/Tail.antt =====
-- utf8Tail cuts between characters, stays within its budget and wastes less than one character.
use tmux_web_panel.Base.{
  ◌⊎◌, ℕ, zero, suc, ◌+◌, ◌-◌, ◌/◌, ◌%◌, ◌<◌, ◌≤◌, ◌≡◌, refl, List, [], ◌∷◌, ◌++◌, leb, arith,
  Bool-cases, inl, inr, length, length-append, ◌∙◌, ap, leb→le, subst, sym, map,
}
use tmux_web_panel.Panes.Utf8.{
  Chars, IsValid, IsWellFormed, replaced, encode_char, encode, byte_length, drop, skip_continuation,
  utf8_tail,
}
use tmux_web_panel.Panes.Utf8.Codec.{
  is_continuation-byte, decode-encode, replaced-IsValid, map-replaced, IsWellFormed-IsValid,
}

skip_continuation-drop :
    (c k : ℕ) (bs : List ℕ)
    → c < 0x110000
    → k < length (encode_char c)
    → skip_continuation (drop (suc k) (encode_char c ++ bs)) ≡ skip_continuation bs
unfolding encode_char skip_continuation
skip_continuation-drop c zero bs h l = ground (
  arith,
  is_continuation-byte (128 + c % 64),
  is_continuation-byte (128 + c / 64 % 64),
  is_continuation-byte (128 + c / 4096 % 64),
)
skip_continuation-drop c (suc zero) bs h l =
    ground (arith, is_continuation-byte (128 + c % 64), is_continuation-byte (128 + c / 64 % 64))
skip_continuation-drop c (suc (suc zero)) bs h l =
    ground (arith, is_continuation-byte (128 + c % 64))
skip_continuation-drop c (suc (suc (suc k))) bs h l = ground arith

drop-append : (xs bs : List ℕ) (k : ℕ) → drop (length xs + k) (xs ++ bs) ≡ drop k bs
drop-append [] bs k = let e : 0 + k ≡ k = omega arith in rw e
drop-append (x ∷ xs) bs k =
    let e : suc (length xs) + k ≡ suc (length xs + k) = omega arith in rw e (drop-append xs bs k)

skip_continuation-char :
    (c : ℕ) (bs : List ℕ)
    → c < 0x110000
    → skip_continuation (encode_char c ++ bs) ≡ encode_char c ++ bs
unfolding encode_char skip_continuation
skip_continuation-char c bs h = ground (
  arith,
  is_continuation-byte c,
  is_continuation-byte (192 + c / 64),
  is_continuation-byte (224 + c / 4096),
  is_continuation-byte (240 + c / 262144),
)

skip_continuation-encode : (t : Chars) → IsValid t → skip_continuation (encode t) ≡ encode t
unfolding encode skip_continuation
skip_continuation-encode [] h = refl
skip_continuation-encode (c ∷ t) (h, hs) =
    skip_continuation-char (replaced c) (encode t) (replaced-IsValid c h)

length-encode_char : (c : ℕ) → (0 < length (encode_char c)) × (length (encode_char c) ≤ 4)
unfolding encode_char
length-encode_char c = ground arith

-- Where the cut of a text after `k` bytes falls.
record Cut (t : Chars) (k : ℕ) : Type 0 where
  before : Chars
  after : Chars
  whole : t ≡ before ++ after
  bytes : skip_continuation (drop k (encode t)) ≡ encode after
  most : length (encode after) ≤ length (encode t) - k
  least : length (encode t) ≤ length (encode after) + k + 3

Cut-later :
    (c j : ℕ) (t : Chars)
    → length (encode_char (replaced c)) ≤ suc j
    → Cut t (suc j - length (encode_char (replaced c)))
    → Cut (c ∷ t) (suc j)
unfolding encode
Cut-later c j t h r = record {
  before = c ∷ r.before;
  after = r.after;
  whole = ap (◌∷◌ c) r.whole;
  bytes =
      let e : suc j
          ≡ length (encode_char (replaced c)) + (suc j - length (encode_char (replaced c))) =
        omega arith in
      ap (λ n. skip_continuation (drop n (encode_char (replaced c) ++ encode t))) e
      ∙ ap skip_continuation (
          drop-append (encode_char (replaced c)) (encode t)
            (suc j - length (encode_char (replaced c))))
      ∙ r.bytes;
  most = omega (arith, r.most, length-append (encode_char (replaced c)) (encode t));
  least = omega (arith, r.least, length-append (encode_char (replaced c)) (encode t));
}

cut : (t : Chars) (k : ℕ) → IsValid t → Cut t k
unfolding encode skip_continuation
cut [] k h = record {
  before = [];
  after = [];
  whole = refl;
  bytes = ap skip_continuation (drop-nil k);
  most = omega arith;
  least = omega arith;
}
  where
    drop-nil : (k : ℕ) → drop k [] ≡ []
    drop-nil zero = refl
    drop-nil (suc k) = refl
cut (c ∷ t) zero h = record {
  before = [];
  after = c ∷ t;
  whole = refl;
  bytes = skip_continuation-encode (c ∷ t) h;
  most = omega arith;
  least = omega arith;
}
cut (c ∷ t) (suc j) h = elim (Bool-cases (leb (length (encode_char (replaced c))) (suc j))) [
  | inl past ↦
      Cut-later c j t (leb→le _ _ past) (cut t (suc j - length (encode_char (replaced c))) h.1)
  | inr inside ↦ record {
    before = c ∷ [];
    after = t;
    whole = refl;
    bytes =
        skip_continuation-drop (replaced c) j (encode t) (replaced-IsValid c h.0) (ground arith)
        ∙ skip_continuation-encode t h.1;
    most = ground (arith, length-append (encode_char (replaced c)) (encode t));
    least = omega (
      arith,
      length-append (encode_char (replaced c)) (encode t),
      length-encode_char (replaced c),
    );
  }
]

IsValid-after : (before after : Chars) → IsValid (before ++ after) → IsValid after
IsValid-after [] after h = h
IsValid-after (c ∷ before) after h = IsValid-after before after h.1

IsWellFormed-after : (before after : Chars) → IsWellFormed (before ++ after) → IsWellFormed after
IsWellFormed-after [] after h = h
IsWellFormed-after (c ∷ before) after h = IsWellFormed-after before after h.1

-- What utf8Tail returns of a text: the whole text if that fits, and otherwise the end of it, with
-- every lone surrogate replaced, which wastes at most three bytes of the budget.
pub record IsTail (t : Chars) (max_bytes : ℕ) (tail : Chars) : Type 0 where
  pub dropped : Chars
  pub kept : Chars
  pub whole : t ≡ dropped ++ kept
  pub fits : byte_length tail ≤ max_bytes
  pub filled :
      ((byte_length t ≤ max_bytes) × (tail ≡ t) × (kept ≡ t))
      ⊎ ((max_bytes < byte_length t)
          × (max_bytes ≤ byte_length tail + 3)
          × (tail ≡ map replaced kept))

replaced_twice : (c : ℕ) → replaced (replaced c) ≡ replaced c
unfolding replaced
replaced_twice c = ground arith

encode-replaced : (t : Chars) → encode (map replaced t) ≡ encode t
unfolding encode
encode-replaced [] = refl
encode-replaced (c ∷ t) =
    ap (λ d. encode_char d ++ encode (map replaced t)) (replaced_twice c)
    ∙ ap (λ bs. encode_char (replaced c) ++ bs) (encode-replaced t)

-- Of every text of Unicode code points, utf8Tail returns the whole if it fits into the budget of
-- bytes. If not, it returns an end of the text that fits and leaves at most three bytes of the budget,
-- in which U+FFFD stands for each lone surrogate.
pub utf8_tail-IsTail :
    (t : Chars) (max_bytes : ℕ) → IsValid t → IsTail t max_bytes (utf8_tail t max_bytes)
unfolding utf8_tail byte_length
utf8_tail-IsTail t max_bytes h = elim (Bool-cases (leb (length (encode t)) max_bytes)) [
  | inl small ↦ rw small record {
    dropped = [];
    kept = t;
    whole = refl;
    fits = leb→le _ _ small;
    filled = inl (leb→le _ _ small, refl, refl);
  }
  | inr large ↦
      let r = cut t (length (encode t) - max_bytes) h in
      let valid = IsValid-after r.before r.after (subst IsValid r.whole h) in
      let same = ap length (encode-replaced r.after) in
      rw (large, r.bytes, decode-encode r.after valid)
        record {
          dropped = r.before;
          kept = r.after;
          whole = r.whole;
          fits = ground (arith, r.most, same);
          filled = inr (ground arith, ground (arith, r.least, same), refl);
        }
]

-- Of a text without lone surrogates it returns an end as it stands.
pub utf8_tail-IsWellFormed :
    (t : Chars) (max_bytes : ℕ)
    → IsWellFormed t
    → (dropped : Chars) × (t ≡ dropped ++ utf8_tail t max_bytes)
utf8_tail-IsWellFormed t max_bytes h =
    let r = utf8_tail-IsTail t max_bytes (IsWellFormed-IsValid t h) in
    (
      r.dropped,
      elim r.filled [
        | inl small ↦ r.whole ∙ ap (◌++◌ r.dropped) (small.2 ∙ sym small.1)
        | inr large ↦
            let kept = IsWellFormed-after r.dropped r.kept (subst IsWellFormed r.whole h) in
            r.whole ∙ ap (◌++◌ r.dropped) (sym (large.2 ∙ map-replaced r.kept kept))
      ],
    )
