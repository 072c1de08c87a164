-- ===== src/Auth/Limiter/Invariant.antt =====
-- What every entry of the login limiter satisfies, and that one address never affects another.
use tmux_web_panel.Base.{
  ℕ, ◌+◌, ◌<◌, ◌≡◌, refl, Option, none, some, List, [], ◌∷◌, arith, Text, text_eq, ◌==◌, All, false,
  Bool-cases, inl, inr, subst,
}
use tmux_web_panel.Base.Dict.{get, get-set, get-delete}
use tmux_web_panel.Auth.Limiter.{
  Config, Entry, State, is_stale, is_blocked, current, counted, record_failure, record_success,
}

-- The calls that a login handler makes, each with its time.
pub data Call : Type 0 where
  asks fails : Text → ℕ → Call
  succeeds : Text → Call

abbrev pub address : Call → Text
address (asks ip now) = ip
address (fails ip now) = ip
address (succeeds ip) = ip

unfoldable pub step : Config → Call → State → State
step c (asks ip now) s = (is_blocked c ip now s).0
step c (fails ip now) s = record_failure c ip now s
step c (succeeds ip) s = record_success ip s

unfoldable pub run : Config → List Call → State → State
run c [] s = s
run c (x ∷ xs) s = run c xs (step c x s)

-- Below the limit while it counts, and a lock lasts exactly the lock time from the failure that
-- set it.
abbrev pub EndsAt : ℕ → Option ℕ → Type 0
EndsAt e none = Unit
EndsAt e (some t) = t ≡ e

pub record IsSound (c : Config) (entry : Entry) : Type 0 where
  pub below : entry.count < c.max_failures
  pub lock : EndsAt (entry.window_start + c.lock_ms) entry.locked_until

abbrev pub Invariant : Config → State → Type 0
Invariant c s = (ip : Text) (entry : Entry) → get ip s ≡ some entry → IsSound c entry

counted-IsSound :
    (c : Config) (now : ℕ) (entry : Entry)
    → 0 < c.max_failures
    → IsSound c entry
    → IsSound c (counted c now entry)
unfolding counted
counted-IsSound c now entry h s = record { below = ground arith; lock = ground (arith, s.lock) }

current-IsSound :
    (c : Config) (ip : Text) (now : ℕ) (s : State)
    → 0 < c.max_failures
    → Invariant c s
    → IsSound c (current c ip now s).1
unfolding current
current-IsSound c ip now s h inv = go (get ip s) refl
  where
    fresh : IsSound c (record { count = 0; window_start = now; locked_until = none })
    fresh = record { below = h; lock = tt }

    go : (o : Option Entry) → get ip s ≡ o → IsSound c (current c ip now s).1
    go none e = rw (e, current) fresh
    go (some entry) e = elim (Bool-cases (is_stale c entry now)) [
      | inl stale ↦ rw (e, current) (rw (stale) fresh)
      | inr live ↦ rw (e, current) (rw (live) (inv ip entry e))
    ]

get-current :
    (c : Config) (ip j : Text) (now : ℕ) (s : State)
    → (j == ip) ≡ false
    → get j (current c ip now s).0 ≡ get j s
unfolding current
get-current c ip j now s h = ground (arith, get-delete j ip s)

-- What an address is told depends on the calls for that address alone.
pub get-step_other :
    (c : Config) (j : Text) (x : Call) (s : State)
    → (j == address x) ≡ false
    → get j (step c x s) ≡ get j s
unfolding step is_blocked record_failure record_success
get-step_other c j (asks ip now) s h = ground (arith, get-delete j ip s)
get-step_other c j (fails ip now) s h = rw get-set (rw h (get-current c ip j now s h))
get-step_other c j (succeeds ip) s h = ground (arith, get-delete j ip s)

current-origin :
    (c : Config) (ip j : Text) (now : ℕ) (s : State) {entry : Entry}
    → get j (current c ip now s).0 ≡ some entry
    → get j s ≡ some entry
unfolding current
current-origin c ip j now s h = ground (arith, get-delete j ip s)

step-Invariant :
    (c : Config) (x : Call) (s : State)
    → 0 < c.max_failures
    → Invariant c s
    → Invariant c (step c x s)
unfolding step is_blocked record_failure record_success
step-Invariant c (asks ip now) s h inv j entry e = inv j entry (ground (arith, get-delete j ip s))
step-Invariant c (fails ip now) s h inv j entry e = elim (Bool-cases (j == ip)) [
  | inl same ↦
      subst (IsSound c)
        (ground (arith, get-set j ip (counted c now (current c ip now s).1) (current c ip now s).0))
        (counted-IsSound c now (current c ip now s).1 h (current-IsSound c ip now s h inv))
  | inr other ↦ inv j entry (
      current-origin c ip j now s (
        ground (arith, get-set j ip (counted c now (current c ip now s).1) (current c ip now s).0)))
]
step-Invariant c (succeeds ip) s h inv j entry e = inv j entry (ground (arith, get-delete j ip s))

-- Whatever calls come, at whatever times, every entry stays below the limit, and a lock lasts
-- exactly the lock time from the failure that set it; the limit must be positive.
pub run-Invariant :
    (c : Config) (xs : List Call) (s : State)
    → 0 < c.max_failures
    → Invariant c s
    → Invariant c (run c xs s)
unfolding run
run-Invariant c [] s h inv = inv
run-Invariant c (x ∷ xs) s h inv = run-Invariant c xs (step c x s) h (step-Invariant c x s h inv)

-- The answers to one address depend on its own calls alone: any calls for other addresses leave
-- them as they were.
pub is_blocked-run_others :
    (c : Config) (j : Text) (now : ℕ) (xs : List Call) (s : State)
    → All (λ x. (j == address x) ≡ false) xs
    → (is_blocked c j now (run c xs s)).1 ≡ (is_blocked c j now s).1
unfolding run is_blocked
is_blocked-run_others c j now [] s h = refl
is_blocked-run_others c j now (x ∷ xs) s (h, hs) =
    ground (arith, is_blocked-run_others c j now xs (step c x s) hs, get-step_other c j x s h)
