-- ===== src/Pins.antt =====
-- PinStore of lib/pins.js: the pinned windows. The file is its list of ids once it has been written;
-- its writes come one after the other, and `written` says whether the file system took one.
pub mod Wanted
pub mod Tests
use tmux_web_panel.Base.{
  Bool, true, not, Option, some, List, [], ◌∷◌, ◌++◌, Text, text_eq, ◌==◌, if◌then◌else◌, any,
  every, keep, or_else,
}

pub record Store : Type 0 where
  pub pins : List Text
  pub loaded : Bool
  pub disk : Option (List Text)

abbrev pub is_pinned : Text → List Text → Bool
is_pinned id pins = any (λ p. p == id) pins

-- `load`; `disk` is the ids that the file marks, and no file leaves the pins as they are.
unfoldable pub load : Store → Store
load s = record s { pins = or_else s.disk s.pins; loaded = true }

unfoldable pub has : Text → Store → Bool
has id s = is_pinned id s.pins

unfoldable pub write : Bool → Store → Store
write written s = if written then record s { disk = some s.pins } else s

unfoldable pub set : Bool → Text → (pinned : Bool) → Store → Store
unfolding write
set written id pinned s = write written (record s {
  pins =
      if pinned
      then (if is_pinned id s.pins then s.pins else s.pins ++ id ∷ [])
      else keep (λ p. not (p == id)) s.pins;
})

-- `sweep`: the file is written only if a pin went.
unfoldable pub sweep : Bool → List Text → Store → Store
unfolding write
sweep written live s =
    let s' = record s { pins = keep (λ p. is_pinned p live) s.pins } in
    if every (λ p. is_pinned p live) s.pins then s' else write written s'
