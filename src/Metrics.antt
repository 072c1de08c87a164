-- ===== src/Metrics.antt =====
-- Class MetricsService of lib/metrics/service.js, over a type of snapshots that the collector makes;
-- a snapshot brings no time of its own. A sample is asked for and comes later, and `none` stands for a
-- collector that threw. A point of the history is the good sample that it is made of.
pub mod Latest
pub mod Tests
use tmux_web_panel.Base.{
  ℕ, zero, suc, ◌+◌, ◌-◌, Bool, true, false, not, ◌&&◌, Option, none, some, List, [], ◌∷◌, ◌++◌,
  if◌then◌else◌, ltb, length,
}

abbrev pub sample_min_interval_ms : ℕ
sample_min_interval_ms = 2000

abbrev pub failure_cache_ms : ℕ
failure_cache_ms = 5000

unfoldable pub history_points : ℕ
history_points = 900

abbrev pub drop {ℓ} : {A : Type ℓ} → ℕ → List A → List A
drop zero xs = xs
drop (suc n) [] = []
drop (suc n) (x ∷ xs) = drop n xs

module _ {ℓ} (A : Type ℓ) where
  pub record Good : Type ℓ where
    pub sampled_at : ℕ
    pub snapshot : A

  -- What a caller gets: a sample, or that there is none, with the last one that there was.
  pub data Sample : Type ℓ where
    good : Good → Sample
    degraded : (last : Option Good) → Sample

  pub record Cache : Type ℓ where
    pub at : ℕ
    pub sample : Sample

  pub record Service : Type ℓ where
    pub cache : Option Cache
    pub history : List Good
    pub in_flight : Bool

  -- What a call of current comes to at once: a cached sample, or the wait for the one in flight.
  pub data Answer : Type ℓ where
    served : Sample → Answer
    waits : Answer

module _ {ℓ} {A : Type ℓ} where
  -- `stale.ok ? stale.data : stale.last || null`
  abbrev pub last_of : Option (Cache A) → Option (Good A)
  last_of none = none
  last_of (some c) = elim c.sample [ good g ↦ some g | degraded last ↦ last ]

  abbrev pub lifetime : Sample A → ℕ
  lifetime (good g) = sample_min_interval_ms
  lifetime (degraded last) = failure_cache_ms

  -- `this._now() - cached.at < ttl`
  abbrev is_fresh : ℕ → Cache A → Bool
  is_fresh now c = ltb now (c.at + lifetime c.sample)

  abbrev join : Service A → Service A × Answer A
  join s = (record s { in_flight = true }, waits)

  unfoldable pub current : (force : Bool) → (now : ℕ) → Service A → Service A × Answer A
  current force now s = elim s.cache [
    | none ↦ join s
    | some c ↦ if not force && is_fresh now c then (s, served c.sample) else join s
  ]

  unfoldable pub push_history : Good A → List (Good A) → List (Good A)
  unfolding history_points
  push_history g history =
      let longer = history ++ g ∷ [] in
      if ltb history_points (length longer)
      then drop (length longer - history_points) longer
      else longer

  unfoldable pub sample_of : (now : ℕ) → Option A → Option (Cache A) → Sample A
  sample_of now none cache = degraded (last_of cache)
  sample_of now (some snapshot) cache = good (record { sampled_at = now; snapshot = snapshot })

  abbrev remember : Sample A → List (Good A) → List (Good A)
  unfolding push_history
  remember (good g) history = push_history g history
  remember (degraded last) history = history

  -- The sample in flight has come.
  unfoldable pub sampled : (now : ℕ) → Option A → Service A → Service A
  unfolding sample_of remember
  sampled now answer s =
      let sample = sample_of now answer s.cache in
      if s.in_flight
      then record {
        cache = some (record { at = now; sample = sample });
        history = remember sample s.history;
        in_flight = false;
      }
      else s
