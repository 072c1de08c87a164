-- ===== src/Consoles/Kept.antt =====
-- Nothing that lib/terminal/console-reaper.js still owes is forgotten, and nothing is tried for ever.
use tmux_web_panel.Base.{
  ℕ, suc, ◌+◌, ◌≡◌, refl, sym, subst, inl, inr, Bool, true, false, not, ◌&&◌, ◌||◌, Option, none,
  some, List, [], ◌∷◌, ◌++◌, arith, nat_eq, leb, ltb, keep, All,
}
use tmux_web_panel.Base.Lists.{All-append}
use tmux_web_panel.Base.Tests.{is_some, Bool-cases, Option-cases}
use tmux_web_panel.Consoles.{
  max_attempts, Window, Entry, Console, Reaper, is_nil, is_among, schedule, client_ended,
  more_attempts, postpone, begin_sweep, decide, finish_sweep, Event, ends, fires, answers, step,
  run, init,
}

abbrev pub MayTry : Entry → Type 0
MayTry e = ltb e.attempts max_attempts ≡ true

-- Every entry may be tried again; where one is left, the timer runs or a sweep does, and never both.
pub record IsKept (r : Reaper) : Type 0 where
  pub may_try : All MayTry r.ended
  pub awaited : (is_nil r.ended || (r.has_timer || is_some r.sweep)) ≡ true
  pub one_at_a_time : (r.has_timer && is_some r.sweep) ≡ false

keep-All {ℓ} : {A : Type ℓ} (p : A → Bool) (xs : List A) → All (λ x. p x ≡ true) (keep p xs)
keep-All p [] = tt
keep-All p (x ∷ xs) = ground (arith, keep-All p xs)

postpone-MayTry : (entries ended : List Entry) → All MayTry (postpone entries ended)
unfolding postpone
postpone-MayTry entries ended =
    keep-All (λ e. ltb e.attempts max_attempts) (more_attempts entries ended)

schedule-IsKept :
    (r : Reaper)
    → All MayTry r.ended
    → (r.has_timer && is_some r.sweep) ≡ false
    → IsKept (schedule r)
unfolding schedule
schedule-IsKept r m o = elim (Bool-cases (r.has_timer || (is_some r.sweep || is_nil r.ended))) [
  | inl e ↦
      let same : schedule r ≡ r = ground (arith, e) in
      subst IsKept (sym same)
        (record { may_try = m; awaited = ground (arith, e); one_at_a_time = o })
  | inr e ↦
      let same : schedule r ≡ record r { has_timer = true } = ground (arith, e) in
      subst IsKept (sym same)
        (record { may_try = m; awaited = ground arith; one_at_a_time = ground (arith, e) })
]

client_ended-IsKept : (w : Window) (now : ℕ) (r : Reaper) → IsKept r → IsKept (client_ended w now r)
unfolding client_ended
client_ended-IsKept w now r k =
    let entry : Entry = record { key = r.next; window = w; ended_at = now; attempts = 0 } in
    schedule-IsKept (record r { next = suc r.next; ended = r.ended ++ entry ∷ [] })
      (All-append MayTry r.ended (entry ∷ []) k.may_try (refl, tt)) k.one_at_a_time

begin_sweep-IsKept :
    (now : ℕ) (r : Reaper) → r.has_timer ≡ true → IsKept r → IsKept (begin_sweep now r)
unfolding begin_sweep
begin_sweep-IsKept now r t k =
    let ready = keep (λ e. leb (e.ended_at + r.delay_ms) now) r.ended in
    elim (Bool-cases (is_nil ready)) [
      | inl e ↦
          let same : begin_sweep now r ≡ schedule (record r { has_timer = false }) =
            ground (arith, e) in
          subst IsKept (sym same) (schedule-IsKept (record r { has_timer = false }) k.may_try refl)
      | inr e ↦
          let same : begin_sweep now r ≡ record r { has_timer = false; sweep = some ready } =
            ground (arith, e) in
          subst IsKept (sym same)
            (record { may_try = k.may_try; awaited = ground arith; one_at_a_time = refl })
    ]

-- A reaper whose sweep is over.
abbrev swept : List Entry → Reaper → Reaper
swept ended r = record r { ended = ended; sweep = none }

swept-IsKept :
    (entries ended : List Entry) (r : Reaper) → IsKept (schedule (swept (postpone entries ended) r))
swept-IsKept entries ended r =
    schedule-IsKept (swept (postpone entries ended) r) (postpone-MayTry entries ended)
      (ground arith)

finish_sweep-IsKept :
    (answer : Option (List Console)) (live : List Window) (r : Reaper)
    → IsKept r
    → IsKept (finish_sweep answer live r).0
unfolding finish_sweep
finish_sweep-IsKept answer live r k = elim (Option-cases r.sweep) [
  | inl e ↦
      let same : (finish_sweep answer live r).0 ≡ r = ground (arith, e) in subst IsKept (sym same) k
  | inr (ready, e) ↦ elim (Option-cases answer) [
    | inl a ↦
        let same : (finish_sweep answer live r).0 ≡ schedule (swept (postpone ready r.ended) r) =
          ground (arith, e, a) in
        subst IsKept (sym same) (swept-IsKept ready r.ended r)
    | inr (consoles, a) ↦
        let decided = decide live r.ended ready consoles ready [] [] in
        let left = keep (λ e. not (is_among e.key ready) || is_among e.key decided.0) r.ended in
        let same : (finish_sweep answer live r).0 ≡ schedule (swept (postpone decided.0 left) r) =
          ground (arith, e, a) in
        subst IsKept (sym same) (swept-IsKept decided.0 left r)
  ]
]

step-IsKept : (event : Event) (r : Reaper) → IsKept r → IsKept (step event r).0
unfolding step
step-IsKept (ends w now) r k = client_ended-IsKept w now r k
step-IsKept (answers answer live) r k = finish_sweep-IsKept answer live r k
step-IsKept (fires now) r k = elim (Bool-cases r.has_timer) [
  | inl e ↦
      let same : (step (fires now) r).0 ≡ begin_sweep now r = ground (arith, e) in
      subst IsKept (sym same) (begin_sweep-IsKept now r e k)
  | inr e ↦ let same : (step (fires now) r).0 ≡ r = ground (arith, e) in subst IsKept (sym same) k
]

run_from-IsKept : (events : List Event) (r : Reaper) → IsKept r → IsKept (run events r)
unfolding run
run_from-IsKept [] r k = k
run_from-IsKept (event ∷ events) r k =
    run_from-IsKept events (step event r).0 (step-IsKept event r k)

-- Over any run of clients that end, timers that fire and lists that come or fail, every entry that is
-- left has been tried less than three times, and where one is left the timer is set or a sweep
-- waits for its list, but not both.
pub run-IsKept : (events : List Event) (delay_ms : ℕ) → IsKept (run events (init delay_ms))
run-IsKept events delay_ms =
    run_from-IsKept events (init delay_ms)
      (record { may_try = tt; awaited = refl; one_at_a_time = refl })
