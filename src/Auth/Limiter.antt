-- ===== src/Auth/Limiter.antt =====
-- createLoginRateLimiter of lib/auth.js. The closure's Map is the state; times are milliseconds.
pub mod Invariant
pub mod Locking
use tmux_web_panel.Base.{
  ℕ, suc, ◌+◌, ◌-◌, ◌*◌, Bool, Option, none, some, Text, text_eq, ltb, leb, if◌then◌else◌,
}
use tmux_web_panel.Base.Dict.{Dict, get, set, delete}

pub record Config : Type 0 where
  pub window_ms : ℕ
  pub max_failures : ℕ
  pub lock_ms : ℕ

abbrev pub default_config : Config
default_config = record { window_ms = 15 * 60 * 1000; max_failures = 5; lock_ms = 10 * 60 * 1000 }

pub record Entry : Type 0 where
  pub count : ℕ
  pub window_start : ℕ
  pub locked_until : Option ℕ

abbrev pub State : Type 0
State = Dict Text Entry

-- The two tests of clearIfStale. A clock that went back makes the difference negative, and then
-- the source's comparison is false, as it is here with the difference cut at 0.
unfoldable pub is_stale : Config → Entry → ℕ → Bool
is_stale c entry now = elim entry.locked_until [
  | none ↦ ltb c.window_ms (now - entry.window_start)
  | some t ↦ leb t now
]

unfoldable pub is_blocked : Config → Text → ℕ → State → State × Option ℕ
unfolding is_stale
is_blocked c ip now s = elim (get ip s) [
  | none ↦ (s, none)
  | some entry ↦ if is_stale c entry now then (delete ip s, none) else (s, entry.locked_until)
]

abbrev pub fresh_entry : ℕ → Entry
fresh_entry now = record { count = 0; window_start = now; locked_until = none }

-- The entry that a failure counts on. A stale one is deleted first, so that the entry written back
-- stands last in the map.
unfoldable pub current : Config → Text → ℕ → State → State × Entry
unfolding is_stale
current c ip now s = elim (get ip s) [
  | none ↦ (s, fresh_entry now)
  | some entry ↦ if is_stale c entry now then (delete ip s, fresh_entry now) else (s, entry)
]

unfoldable pub counted : Config → ℕ → Entry → Entry
counted c now entry =
    if leb c.max_failures (entry.count + 1)
    then record { count = 0; window_start = now; locked_until = some (now + c.lock_ms) }
    else record entry { count = entry.count + 1 }

unfoldable pub record_failure : Config → Text → ℕ → State → State
unfolding current counted
record_failure c ip now s = let (s', entry) = current c ip now s in set ip (counted c now entry) s'

unfoldable pub record_success : Text → State → State
record_success ip s = delete ip s
