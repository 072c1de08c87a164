-- ===== src/Panes/Utf8/Codec.antt =====
-- Decoding gives back what was encoded, but for lone surrogates, and the two kinds of byte are told apart.
use tmux_web_panel.Base.{
  ℕ, zero, suc, ◌/◌, ◌<◌, ◌≡◌, refl, Bool, true, ◌&&◌, List, [], ◌∷◌, ◌++◌, nat_beq, arith, ◌∙◌, ap,
  map,
}
use tmux_web_panel.Base.Equality.{bool_beq, bool_beq_iff}
use tmux_web_panel.Panes.Utf8.{
  Chars, IsValid, IsWellFormed, replaced, encode_char, encode, decode_from, decode, is_continuation,
}

-- A test of all numbers below a bound, and what its success says of each.
holds_below : (ℕ → Bool) → ℕ → Bool
holds_below test zero = true
holds_below test (suc bound) = holds_below test bound && test bound

holds_below_lem :
    (test : ℕ → Bool) (bound b : ℕ) → b < bound → holds_below test bound ≡ true → test b ≡ true
unfolding holds_below
holds_below_lem test zero b l h = absurd (omega arith)
holds_below_lem test (suc bound) b l h = ground (arith, holds_below_lem test bound b)

continuation_table : holds_below (λ b. bool_beq (is_continuation b) (nat_beq (b / 64) 2)) 256 ≡ true
unfolding holds_below is_continuation
continuation_table = refl

-- A byte is a continuation byte when its upper two bits are 10.
pub is_continuation-byte : (b : ℕ) → b < 256 → is_continuation b ≡ nat_beq (b / 64) 2
is_continuation-byte b h = (bool_beq_iff _ _).0 (holds_below_lem _ 256 b h continuation_table)

decode_from-char :
    (c : ℕ) (bs : List ℕ)
    → c < 0x110000
    → decode_from 0 0 (encode_char c ++ bs) ≡ c ∷ decode_from 0 0 bs
unfolding encode_char decode_from
decode_from-char c bs h = ground arith

pub replaced-IsValid : (c : ℕ) → c < 0x110000 → replaced c < 0x110000
unfolding replaced
replaced-IsValid c h = ground arith

pub decode-encode : (t : Chars) → IsValid t → decode (encode t) ≡ map replaced t
unfolding decode encode
decode-encode [] h = refl
decode-encode (c ∷ t) (h, hs) =
    decode_from-char (replaced c) (encode t) (replaced-IsValid c h)
    ∙ ap (◌∷◌ (replaced c)) (decode-encode t hs)

pub map-replaced : (t : Chars) → IsWellFormed t → map replaced t ≡ t
unfolding replaced
map-replaced [] h = refl
map-replaced (c ∷ t) (h, hs) = rw (h.1) (ap (◌∷◌ c) (map-replaced t hs))

pub IsWellFormed-IsValid : (t : Chars) → IsWellFormed t → IsValid t
IsWellFormed-IsValid [] h = tt
IsWellFormed-IsValid (c ∷ t) (h, hs) = (h.0, IsWellFormed-IsValid t hs)
