-- ===== src/Panes/Utf8.antt =====
-- utf8Tail of lib/hub/basic/pane-runtime.js, with the two Buffer conversions that it calls.
-- Output is the list of its Unicode code points, as the iterator of a JavaScript string gives them: a
-- surrogate in it stands alone. The decoder reads well-formed bytes, which is all that utf8Tail hands
-- it; malformed input is not modelled.
pub mod Codec
pub mod Tail
use Prim.Native.Nat.{bit_and}
use tmux_web_panel.Base.{
  ℕ, zero, suc, ◌+◌, ◌-◌, ◌*◌, ◌/◌, ◌%◌, ◌<◌, ◌≡◌, Bool, false, ◌&&◌, List, [], ◌∷◌, ◌++◌, ltb, leb,
  nat_beq, if◌then◌else◌, length, All,
}

abbrev pub Chars : Type 0
Chars = List ℕ

abbrev pub IsValid : Chars → Type 0
IsValid = All (λ c. c < 0x110000)

-- A surrogate is a code point, but no character that UTF-8 can write.
abbrev pub is_surrogate : ℕ → Bool
is_surrogate c = leb 0xd800 c && ltb c 0xe000

-- Texts without lone surrogates.
abbrev pub IsWellFormed : Chars → Type 0
IsWellFormed = All (λ c. (c < 0x110000) × (is_surrogate c ≡ false))

-- What stands for a lone surrogate in its place: U+FFFD.
unfoldable pub replaced : ℕ → ℕ
replaced c = if is_surrogate c then 0xfffd else c

unfoldable pub encode_char : ℕ → List ℕ
encode_char c =
    if ltb c 0x80
    then c ∷ []
    else if ltb c 0x800
    then (192 + c / 64) ∷ (128 + c % 64) ∷ []
    else if ltb c 0x10000
    then (224 + c / 4096) ∷ (128 + c / 64 % 64) ∷ (128 + c % 64) ∷ []
    else (240 + c / 262144) ∷ (128 + c / 4096 % 64) ∷ (128 + c / 64 % 64) ∷ (128 + c % 64) ∷ []

-- `Buffer.from(text, 'utf8')`.
unfoldable pub encode : Chars → List ℕ
unfolding encode_char replaced
encode [] = []
encode (c ∷ t) = encode_char (replaced c) ++ encode t

-- `Buffer.byteLength(text, 'utf8')`.
unfoldable pub byte_length : Chars → ℕ
unfolding encode
byte_length t = length (encode t)

-- One byte of a decoder that waits for `n` more bytes of a character and has read `acc` of it.
unfoldable pub advance : ℕ → ℕ → ℕ → List ℕ × ℕ × ℕ
advance zero acc b =
    if ltb b 128
    then (b ∷ [], 0, 0)
    else if ltb b 224
    then ([], 1, b - 192)
    else if ltb b 240
    then ([], 2, b - 224)
    else ([], 3, b - 240)
advance (suc zero) acc b = ((acc * 64 + (b - 128)) ∷ [], 0, 0)
advance (suc (suc n)) acc b = ([], suc n, acc * 64 + (b - 128))

unfoldable pub decode_from : ℕ → ℕ → List ℕ → Chars
unfolding advance
decode_from n acc [] = []
decode_from n acc (b ∷ bs) = let (out, n', acc') = advance n acc b in out ++ decode_from n' acc' bs

-- `buf.toString('utf8')`.
unfoldable pub decode : List ℕ → Chars
unfolding decode_from
decode bs = decode_from 0 0 bs

unfoldable pub is_continuation : ℕ → Bool
is_continuation b = nat_beq (bit_and b 0xc0) 0x80

abbrev pub drop : ℕ → List ℕ → List ℕ
drop zero bs = bs
drop (suc n) [] = []
drop (suc n) (b ∷ bs) = drop n bs

-- The loop that moves `start` to the next lead byte, on the bytes from `start` on.
unfoldable pub skip_continuation : List ℕ → List ℕ
unfolding is_continuation
skip_continuation [] = []
skip_continuation (b ∷ bs) = if is_continuation b then skip_continuation bs else b ∷ bs

unfoldable pub utf8_tail : Chars → ℕ → Chars
unfolding encode decode skip_continuation
utf8_tail t max_bytes =
    let buf = encode t in
    if leb (length buf) max_bytes
    then t
    else decode (skip_continuation (drop (length buf - max_bytes) buf))
