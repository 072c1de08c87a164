-- ===== src/Consoles.antt =====
-- Class ConsoleReaper of lib/terminal/console-reaper.js. An entry carries a number that tells it from
-- the others, as the source compares them as objects. A sweep is the entries that it took up, while it
-- waits for the list of consoles; a window that is still open has no end.
pub mod Safety
pub mod Kept
pub mod Tests
use tmux_web_panel.Base.{
  ℕ, zero, suc, ◌+◌, Bool, true, false, not, ◌&&◌, ◌||◌, Option, none, some, List, [], ◌∷◌, ◌++◌,
  nat_eq, ◌==◌, if◌then◌else◌, leb, ltb, keep, any, length,
}
use tmux_web_panel.Base.Tests.{is_some}

abbrev pub max_attempts : ℕ
max_attempts = 3

pub record Window : Type 0 where
  pub from : ℕ
  pub to : Option ℕ

pub record Entry : Type 0 where
  pub key : ℕ
  pub window : Window
  pub ended_at : ℕ
  pub attempts : ℕ

pub record Console : Type 0 where
  pub pid : ℕ
  pub created_at : ℕ

pub record Reaper : Type 0 where
  pub delay_ms : ℕ
  pub next : ℕ
  pub ended : List Entry
  pub has_timer : Bool
  pub sweep : Option (List Entry)

abbrev pub is_nil {ℓ} : {A : Type ℓ} → List A → Bool
is_nil [] = true
is_nil (x ∷ xs) = false

abbrev pub before_end : ℕ → Option ℕ → Bool
before_end n none = true
before_end n (some to) = leb n to

unfoldable pub within : Console → Window → Bool
within c w = leb w.from c.created_at && before_end c.created_at w.to

abbrev pub is_among : ℕ → List Entry → Bool
is_among key entries = any (λ e. e.key == key) entries

-- One sweep at a time: anything that ends during one waits for the next.
unfoldable pub schedule : Reaper → Reaper
schedule r =
    if r.has_timer || (is_some r.sweep || is_nil r.ended) then r else record r { has_timer = true }

unfoldable pub client_ended : Window → (now : ℕ) → Reaper → Reaper
unfolding schedule
client_ended w now r = schedule (record r {
  next = suc r.next;
  ended = r.ended ++ record { key = r.next; window = w; ended_at = now; attempts = 0 } ∷ [];
})

abbrev pub more_attempts : List Entry → List Entry → List Entry
more_attempts entries [] = []
more_attempts entries (e ∷ es) =
    (if is_among e.key entries then record e { attempts = suc e.attempts } else e)
    ∷ more_attempts entries es

unfoldable pub postpone : List Entry → List Entry → List Entry
postpone entries ended = keep (λ e. ltb e.attempts max_attempts) (more_attempts entries ended)

-- The timer fires, and the sweep runs up to its wait for the list.
unfoldable pub begin_sweep : (now : ℕ) → Reaper → Reaper
unfolding schedule
begin_sweep now r =
    let ready = keep (λ e. leb (e.ended_at + r.delay_ms) now) r.ended in
    if is_nil ready
    then schedule (record r { has_timer = false })
    else record r { has_timer = false; sweep = some ready }

-- The console might be another's: several stand in the window, or a client that still runs, or one
-- that ended and is not taken up yet, could own it.
unfoldable pub is_someone_elses :
    List Window → (ended ready : List Entry) → (only : Console) → (others : List Console) → Bool
unfolding within
is_someone_elses live ended ready only others =
    not (is_nil others)
    || (any (λ w. within only w) live
        || any (λ e. not (is_among e.key ready) && within only e.window) ended)

-- The loop over the entries of a sweep: which of them wait for another one, and which consoles
-- are ended, in order.
unfoldable pub decide :
    List Window
    → (ended ready : List Entry) → List Console
    → (todo postponed : List Entry) → (killed : List ℕ) → List Entry × List ℕ
unfolding within is_someone_elses
decide live ended ready consoles [] postponed killed = (postponed, killed)
decide live ended ready consoles (e ∷ todo) postponed killed =
    elim (keep (λ c. within c e.window) consoles) [
      | [] ↦ decide live ended ready consoles todo postponed killed
      | only ∷ others ↦
          let wait = decide live ended ready consoles todo (postponed ++ e ∷ []) killed in
          let gone = decide live ended ready consoles todo postponed killed in
          let end = decide live ended ready consoles todo postponed (killed ++ only.pid ∷ []) in
          if is_someone_elses live ended ready only others
          then wait
          else if any (λ p. p == only.pid) killed
          then gone
          else end
    ]

-- The list has come, or failed to; the pids of the consoles that are ended.
unfoldable pub finish_sweep : Option (List Console) → List Window → Reaper → Reaper × List ℕ
unfolding schedule postpone decide
finish_sweep answer live r = elim r.sweep [
  | none ↦ (r, [])
  | some ready ↦ elim answer [
    | none ↦ (schedule (record r { ended = postpone ready r.ended; sweep = none }), [])
    | some consoles ↦
        let decided = decide live r.ended ready consoles ready [] [] in
        let left = keep (λ e. not (is_among e.key ready) || is_among e.key decided.0) r.ended in
        (schedule (record r { ended = postpone decided.0 left; sweep = none }), decided.1)
  ]
]

-- What happens to a reaper. The timer fires only where it is set.
pub data Event : Type 0 where
  ends : (window : Window) (now : ℕ) → Event
  fires : (now : ℕ) → Event
  answers : Option (List Console) → List Window → Event

unfoldable pub step : Event → Reaper → Reaper × List ℕ
unfolding client_ended begin_sweep finish_sweep
step (ends w now) r = (client_ended w now r, [])
step (fires now) r = if r.has_timer then (begin_sweep now r, []) else (r, [])
step (answers answer live) r = finish_sweep answer live r

unfoldable pub run : List Event → Reaper → Reaper
unfolding step
run [] r = r
run (event ∷ events) r = run events (step event r).0

abbrev pub init : ℕ → Reaper
init delay_ms = record {
  delay_ms = delay_ms;
  next = 0;
  ended = [];
  has_timer = false;
  sweep = none;
}
