-- ===== src/Pins/Tests.antt =====
-- Runs of lib/pins.js on concrete calls.
use tmux_web_panel.Base.{◌≡◌, refl, true, false, none, some, List, [], ◌∷◌, text}
use tmux_web_panel.Base.Equality.{text_beq}
use tmux_web_panel.Pins.{has, load, set, sweep, write}
use tmux_web_panel.Pins.Wanted.{Call, sets, sweeps, run, step, restart, wanted, has-restart}

abbrev calls : List Call
calls =
    sets (text "@1") true
    ∷ sets (text "@2") true
    ∷ sets (text "@3") true
    ∷ sets (text "@1") false
    ∷ sweeps (text "@1" ∷ text "@3" ∷ [])
    ∷ []

left : (run calls (restart none)).disk ≡ some (text "@3" ∷ [])
unfolding run step restart load set sweep write text_beq
left = refl

has-restart_example :
    has (text "@3") (restart (run calls (restart (some (text "@9" ∷ [])))).disk) ≡ true
unfolding wanted text_beq
has-restart_example = has-restart (some (text "@9" ∷ [])) calls (text "@3")
