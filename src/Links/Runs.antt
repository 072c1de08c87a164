-- ===== src/Links/Runs.antt =====
-- Runs of the pool of lib/hub/link-pool.js.
use tmux_web_panel.Base.{ℕ, ◌+◌, ◌≡◌, refl, Bool, List, [], ◌∷◌, ◌++◌, Text, text_eq, nat_eq, arith}
use tmux_web_panel.Base.Dict.{Dict, HasDistinctKeys}
use tmux_web_panel.Links.{
  Server, Entry, Pool, Effect, Pairing, entry_for, basic_host, mode, recheck, invalidate,
  reap_basic, close_all,
}
use tmux_web_panel.Links.Balance.{opened, closed, held, Moves, invalidate-Moves, close_all-Moves}
use tmux_web_panel.Links.Accounts.{
  entry_for-Moves, basic_host-Moves, mode-Moves, recheck-Moves, still-Moves, Moves-trans,
}

-- The calls of a pool.
pub data Call : Type 0 where
  uses : Bool → Server → Call
  hosts : Bool → Bool → Server → Call
  pairs : Bool → Bool → Pairing → ℕ → Server → Call
  rechecks invalidates : Text → Call
  reaps closes_all : Call

unfoldable pub step : Call → Pool → Pool × List Effect
step (uses allow server) p = let (p', effects, result) = entry_for allow server p in (p', effects)
step (hosts can allow server) p =
    let (p', effects, result) = basic_host can allow server p in (p', effects)
step (pairs force ready pairing now server) p =
    let (p', effects, result) = mode force ready pairing now server p in (p', effects)
step (rechecks id) p = (recheck id p, [])
step (invalidates id) p = invalidate id p
step reaps p = (p, reap_basic p.entries)
step closes_all p = close_all p

unfoldable pub run : List Call → Pool → Pool × List Effect
unfolding step
run [] p = (p, [])
run (c ∷ cs) p =
    let (p', effects) = step c p in let (p'', later) = run cs p' in (p'', effects ++ later)

reaps-none :
    (n : ℕ) (es : Dict Text Entry) → (opened n (reap_basic es) ≡ 0) × (closed n (reap_basic es) ≡ 0)
unfolding reap_basic
reaps-none n [] = (refl, refl)
reaps-none n ((id, e) ∷ es) = ground (arith, reaps-none n es)

step-Moves :
    (n : ℕ) (c : Call) (p : Pool) → HasDistinctKeys p.entries → Moves n p (step c p).1 (step c p).0
unfolding step
step-Moves n (uses allow server) p d = entry_for-Moves n allow server p d
step-Moves n (hosts can allow server) p d = basic_host-Moves n can allow server p d
step-Moves n (pairs force ready pairing now server) p d =
    mode-Moves n force ready pairing now server p d
step-Moves n (rechecks id) p d = recheck-Moves n id p d
step-Moves n (invalidates id) p d = invalidate-Moves n id p d
step-Moves n reaps p d = record { accounted = omega (arith, reaps-none n p.entries); distinct = d }
step-Moves n closes_all p d = close_all-Moves n p

run-Moves :
    (n : ℕ) (cs : List Call) (p : Pool)
    → HasDistinctKeys p.entries
    → Moves n p (run cs p).1 (run cs p).0
unfolding run
run-Moves n [] p d = still-Moves n p d
run-Moves n (c ∷ cs) p d =
    let m = step-Moves n c p d in
    Moves-trans n p (step c p).0 (run cs (step c p).0).0 (step c p).1 (run cs (step c p).0).1 m
      (run-Moves n cs (step c p).0 m.distinct)

abbrev pub empty : Pool
empty = record { entries = []; next = 0 }

-- Whatever calls a new pool gets, each link has been opened as often as it has been closed and is
-- held by entries of the pool, counted together: no open link is lost, and none is closed that the
-- pool did not open.
pub run-accounted :
    (n : ℕ) (cs : List Call)
    → let (p, effects) = run cs empty in opened n effects ≡ closed n effects + held n p.entries
run-accounted n cs = omega (arith, (run-Moves n cs empty tt).accounted)
