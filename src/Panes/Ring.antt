-- ===== src/Panes/Ring.antt =====
-- OutputRing of lib/hub/basic/pane-runtime.js.
pub mod Bounds
use tmux_web_panel.Base.{ℕ, ◌+◌, ◌-◌, ◌*◌, ◌/◌, Bool, List, [], ◌∷◌, ◌++◌, ltb, leb, if◌then◌else◌}
use tmux_web_panel.Panes.Utf8.{Chars, byte_length, utf8_tail}

abbrev pub default_buffer_bytes : ℕ
default_buffer_bytes = 256 * 1024

pub record Ring : Type 0 where
  pub max_bytes : ℕ
  pub chunks : List Chars
  pub bytes : ℕ

unfoldable pub empty : ℕ → Ring
empty max_bytes = record { max_bytes = max_bytes; chunks = []; bytes = 0 }

-- The loop that drops whole chunks from the front, down to the last one.
unfoldable pub trim : ℕ → List Chars → ℕ → List Chars × ℕ
trim max_bytes [] bytes = ([], bytes)
trim max_bytes (c ∷ []) bytes = (c ∷ [], bytes)
trim max_bytes (c ∷ d ∷ rest) bytes =
    let shorter = trim max_bytes (d ∷ rest) (bytes - byte_length c) in
    if ltb max_bytes bytes then shorter else (c ∷ d ∷ rest, bytes)

unfoldable pub push : Chars → Ring → Ring
unfolding trim
push [] r = r
push (c ∷ t) r =
    let size = byte_length (c ∷ t) in
    if leb r.max_bytes size
    then (let kept = utf8_tail (c ∷ t) (r.max_bytes / 2) in
        record r { chunks = kept ∷ []; bytes = byte_length kept })
    else (let (chunks, bytes) = trim r.max_bytes (r.chunks ++ (c ∷ t) ∷ []) (r.bytes + size) in
        record r { chunks = chunks; bytes = bytes })

-- `chunks.join('')`.
abbrev pub join : List Chars → Chars
join [] = []
join (c ∷ cs) = c ++ join cs

unfoldable pub read : Ring → Chars
read r = join r.chunks

unfoldable pub clear : Ring → Ring
clear r = record r { chunks = []; bytes = 0 }
