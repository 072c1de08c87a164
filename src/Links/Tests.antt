-- ===== src/Links/Tests.antt =====
-- Runs of lib/hub/link-pool.js on concrete inputs.
use tmux_web_panel.Base.{◌+◌, ◌≡◌, refl, true, false, List, [], ◌∷◌, text}
use tmux_web_panel.Base.Dict.{get, set, delete}
use tmux_web_panel.Base.Equality.{text_beq}
use tmux_web_panel.Links.{
  Server, opens, closes, entry_for, current, replace, renamed, close, invalidate, not_installed,
  mode,
}
use tmux_web_panel.Links.Balance.{opened, closed, held}
use tmux_web_panel.Links.Runs.{Call, uses, pairs, invalidates, run, step, empty, run-accounted}

abbrev box : Server
box = record { id = text "box"; is_local = false; enabled = true; connection_key = text "k1" }

-- The server is reached, gets another address, and is removed.
abbrev calls : List Call
calls =
    uses false box
    ∷ pairs false false not_installed 5 box
    ∷ uses false (record box { connection_key = text "k2" })
    ∷ invalidates (text "box")
    ∷ []

run-accounted_example :
    opened 0 (run calls empty).1 ≡ closed 0 (run calls empty).1 + held 0 (run calls empty).0.entries
run-accounted_example = run-accounted 0 calls

calls_effects : (run calls empty).1 ≡ opens 0 ∷ closes 0 ∷ opens 1 ∷ closes 1 ∷ []
unfolding run step entry_for current replace renamed close mode invalidate get set delete text_beq
calls_effects = refl
