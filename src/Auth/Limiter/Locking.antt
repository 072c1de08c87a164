-- ===== src/Auth/Limiter/Locking.antt =====
-- When the limiter locks an address, and how long the lock holds.
use tmux_web_panel.Base.{
  ◌⊎◌, ℕ, suc, ◌+◌, ◌≤◌, ◌<◌, ◌≡◌, refl, Option, none, some, List, [], ◌∷◌, arith, Text, text_eq,
  ◌==◌, All, length, subst, ◌≢◌, Bool-cases, inl, inr, leb, ◌∙◌,
}
use tmux_web_panel.Base.Equality.{text_beq_iff}
use tmux_web_panel.Base.Dict.{get, get-delete, get-set_self}
use tmux_web_panel.Auth.Limiter.{
  Config, Entry, State, is_stale, is_blocked, current, counted, record_failure, record_success,
}
use tmux_web_panel.Auth.Limiter.Invariant.{Call, asks, fails, succeeds, step, run, get-step_other}

unfoldable pub fail_at : Config → Text → List ℕ → State → State
fail_at c ip [] s = s
fail_at c ip (t ∷ ts) s = fail_at c ip ts (record_failure c ip t s)

abbrev last_of : ℕ → List ℕ → ℕ
last_of t [] = t
last_of t (u ∷ us) = last_of u us

abbrev pub InWindow : Config → ℕ → ℕ → Type 0
InWindow c start t = (start ≤ t) × (t ≤ start + c.window_ms)

get-record_failure :
    (c : Config) (ip : Text) (now : ℕ) (s : State)
    → get ip (record_failure c ip now s) ≡ some (counted c now (current c ip now s).1)
unfolding record_failure
get-record_failure c ip now s = get-set_self ip _ _

current_live :
    (c : Config) (ip : Text) (now start k : ℕ) (s : State)
    → get ip s ≡ some (record { count = k; window_start = start; locked_until = none })
    → InWindow c start now
    → (current c ip now s).1 ≡ record { count = k; window_start = start; locked_until = none }
unfolding current is_stale
current_live c ip now start k s e w = ground arith

fail_at_locks :
    (c : Config) (ip : Text) (start k t : ℕ) (ts : List ℕ) (s : State)
    → get ip s ≡ some (record { count = k; window_start = start; locked_until = none })
    → All (InWindow c start) (t ∷ ts)
    → k + suc (length ts) ≡ c.max_failures
    → get ip (fail_at c ip (t ∷ ts) s)
      ≡ some (record {
        count = 0;
        window_start = last_of t ts;
        locked_until = some (last_of t ts + c.lock_ms);
      })
unfolding fail_at counted
fail_at_locks c ip start k t [] s e (w, _) n =
    ground (arith, get-record_failure c ip t s, current_live c ip t start k s e w)
fail_at_locks c ip start k t (u ∷ us) s e (w, ws) n =
    fail_at_locks c ip start (suc k) u us (record_failure c ip t s)
      (ground (arith, get-record_failure c ip t s, current_live c ip t start k s e w)) ws
      (omega arith)

-- The failure that reaches the limit inside one window locks the address, and until the lock time
-- has passed after it `is_blocked` answers the end of that lock.
pub is_blocked-fail_at :
    (c : Config) (ip : Text) (start now : ℕ) (ts : List ℕ) (s : State)
    → get ip s ≡ none
    → All (InWindow c start) ts
    → suc (length ts) ≡ c.max_failures
    → now < last_of start ts + c.lock_ms
    → (is_blocked c ip now (fail_at c ip (start ∷ ts) s)).1 ≡ some (last_of start ts + c.lock_ms)
unfolding is_blocked is_stale fail_at current counted
is_blocked-fail_at c ip start now [] s e w n b = ground (arith, get-record_failure c ip start s)
is_blocked-fail_at c ip start now (t ∷ ts) s e w n b = ground (
  arith,
  fail_at_locks c ip start 1 t ts (record_failure c ip start s)
      (ground (arith, get-record_failure c ip start s)) w (omega arith),
)

abbrev CountsAtMost : ℕ → Option Entry → Type 0
CountsAtMost k none = Unit
CountsAtMost k (some entry) = (entry.count ≤ k) × (entry.locked_until ≡ none)

record_failure-CountsAtMost :
    (c : Config) (ip : Text) (k t : ℕ) (s : State)
    → CountsAtMost k (get ip s)
    → k + 1 < c.max_failures
    → CountsAtMost (suc k) (get ip (record_failure c ip t s))
unfolding current counted is_stale
record_failure-CountsAtMost c ip k t s h n = ground (arith, get-record_failure c ip t s)

fail_at-CountsAtMost :
    (c : Config) (ip : Text) (k : ℕ) (ts : List ℕ) (s : State)
    → CountsAtMost k (get ip s)
    → k + length ts < c.max_failures
    → CountsAtMost (k + length ts) (get ip (fail_at c ip ts s))
unfolding fail_at
fail_at-CountsAtMost c ip k [] s h n = ground arith
fail_at-CountsAtMost c ip k (t ∷ ts) s h n =
    subst (λ m. CountsAtMost m (get ip (fail_at c ip ts (record_failure c ip t s)))) (omega arith)
      (fail_at-CountsAtMost c ip (suc k) ts (record_failure c ip t s)
        (record_failure-CountsAtMost c ip k t s h (omega arith)) (omega arith))

-- Fewer failures than the limit never lock an address that had no entry, however they are spaced.
pub is_blocked-few_failures :
    (c : Config) (ip : Text) (now : ℕ) (ts : List ℕ) (s : State)
    → get ip s ≡ none
    → length ts < c.max_failures
    → (is_blocked c ip now (fail_at c ip ts s)).1 ≡ none
unfolding is_blocked
is_blocked-few_failures c ip now ts s e n =
    ground (arith, fail_at-CountsAtMost c ip 0 ts s (rw e tt) (omega arith))

-- The address holds a lock that was set at `w` or later.
abbrev pub HoldsLock : Config → Text → ℕ → State → Type 0
HoldsLock c ip w s =
    (entry : Entry) × (u : ℕ) × (get ip s ≡ some entry)
    × (entry.locked_until ≡ some (u + c.lock_ms))
    × (w ≤ u)

-- A call that cannot lift the lock set at `w`: one for another address, or a question or a failure
-- of this address while that lock runs.
abbrev pub DuringLock : Config → Text → ℕ → Call → Type 0
DuringLock c ip w (asks j now) = (ip ≢ j) ⊎ ((w ≤ now) × (now < w + c.lock_ms))
DuringLock c ip w (fails j now) = (ip ≢ j) ⊎ ((w ≤ now) × (now < w + c.lock_ms))
DuringLock c ip w (succeeds j) = ip ≢ j

own_failure-HoldsLock :
    (c : Config) (ip : Text) (w now : ℕ) (s : State)
    → w ≤ now
    → now < w + c.lock_ms
    → HoldsLock c ip w s
    → HoldsLock c ip w (record_failure c ip now s)
unfolding current is_stale counted
own_failure-HoldsLock c ip w now s a b (entry, u, e, l, d) =
    elim (Bool-cases (leb c.max_failures (entry.count + 1))) [
      | inl full ↦ (
        record { count = 0; window_start = now; locked_until = some (now + c.lock_ms) },
        now,
        ground (arith, get-record_failure c ip now s),
        refl,
        a,
      )
      | inr room ↦ (
        record entry { count = entry.count + 1 },
        u,
        ground (arith, get-record_failure c ip now s),
        l,
        d,
      )
    ]

own_call :
    (c : Config) (ip j : Text) (w now : ℕ)
    → (ip ≢ j) ⊎ ((w ≤ now) × (now < w + c.lock_ms))
    → ip ≡ j
    → (w ≤ now) × (now < w + c.lock_ms)
own_call c ip j w now d e = ground (arith, d)

step-HoldsLock :
    (c : Config) (ip : Text) (w : ℕ) (x : Call) (s : State)
    → DuringLock c ip w x
    → HoldsLock c ip w s
    → HoldsLock c ip w (step c x s)
unfolding step is_blocked is_stale record_success
step-HoldsLock c ip w (asks j now) s d (entry, u, e, l, b) =
    (entry, u, ground (arith, get-delete ip j s, text_beq_iff ip j), l, b)
step-HoldsLock c ip w (fails j now) s d h = elim (Bool-cases (ip == j)) [
  | inl same ↦
      let eq : ip ≡ j = (text_beq_iff ip j).0 same in
      rw (← eq) (
        own_failure-HoldsLock c ip w now s (own_call c ip j w now d eq).0
          (own_call c ip j w now d eq).1 h)
  | inr other ↦ (h.0, h.1, get-step_other c ip (fails j now) s other ∙ h.2, h.3, h.4)
]
step-HoldsLock c ip w (succeeds j) s d (entry, u, e, l, b) =
    (entry, u, ground (arith, get-delete ip j s, text_beq_iff ip j), l, b)

run-HoldsLock :
    (c : Config) (ip : Text) (w : ℕ) (xs : List Call) (s : State)
    → All (DuringLock c ip w) xs
    → HoldsLock c ip w s
    → HoldsLock c ip w (run c xs s)
unfolding run
run-HoldsLock c ip w [] s d h = h
run-HoldsLock c ip w (x ∷ xs) s d h =
    run-HoldsLock c ip w xs (step c x s) d.1 (step-HoldsLock c ip w x s d.0 h)

-- A lock set at `w` is not lifted or shortened by any calls for other addresses, nor by questions
-- and further failures of this address while it runs: until its end the address is refused, with a
-- lock end that is not before it. Only a success of the address would lift it.
pub is_blocked-run_locked :
    (c : Config) (ip : Text) (w now : ℕ) (xs : List Call) (s : State)
    → HoldsLock c ip w s
    → All (DuringLock c ip w) xs
    → now < w + c.lock_ms
    → (t : ℕ) × ((is_blocked c ip now (run c xs s)).1 ≡ some t) × (w + c.lock_ms ≤ t)
unfolding is_blocked is_stale
is_blocked-run_locked c ip w now xs s h d n =
    let (entry, u, e, l, b) = run-HoldsLock c ip w xs s d h in
    (u + c.lock_ms, ground arith, omega arith)
