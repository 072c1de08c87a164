-- ===== src/AgentEvents/Dedupe.antt =====
-- One happening is announced once, although several reporters tell of it.
use tmux_web_panel.Base.{
  ℕ, zero, suc, ◌+◌, ◌-◌, ◌≤◌, ◌<◌, ◌≡◌, refl, Bool, true, false, ◌&&◌, none, some, List, [], ◌∷◌,
  arith, Text, text_eq, ltb, leb, max, length, get_elem?, get_elem?-set_elem, get_elem?-append_last,
  Option-cases, Bool-cases, inl, inr,
}
use tmux_web_panel.Base.Dict.{Dict, get, retain, get-set_self, get-retain-some}
use tmux_web_panel.Notifications
use tmux_web_panel.AgentEvents.Event.{
  Value, Event, State, normalize_agent_event, location_key, dedupe_key, dedupe_window,
  agent_stopped, waiting_attention, session_ended, process_exited, failed,
}
use tmux_web_panel.AgentEvents.Service.{
  Seen, Service, max_ttl, is_recent, prune, lookup, accept, by_location, by_key, ingest,
  duplicate_of, add_source, entry_of,
}

-- The place remembers something of this time that is at least as urgent.
abbrev Remembers : Text → ℕ → ℕ → Service → Type 0
Remembers place now priority s =
    (ref : ℕ) × (old : Seen) × (get place s.locations ≡ some ref)
    × (get_elem? s.heap ref ≡ some old)
    × (old.timestamp ≡ now)
    × (priority ≤ old.priority)

accept-Remembers :
    (notify : Bool) (id : Text) (now : ℕ) (e : Event) (s : Service)
    → Remembers (location_key e) now e.priority (accept notify id now e s).0
unfolding accept
accept-Remembers notify id now e s = (
  length s.heap,
  record { timestamp = now; sources = e.source ∷ []; priority = e.priority },
  ground (arith, get-set_self (location_key e) (length s.heap) s.locations),
  ground (
    arith,
    get_elem?-append_last s.heap
        (record { timestamp = now; sources = e.source ∷ []; priority = e.priority }),
  ),
  refl,
  omega arith,
)

lookup-some :
    (heap : List Seen) (m : Dict Text ℕ) (k : Text) (ref : ℕ) (old : Seen)
    → lookup heap m k ≡ some (ref, old)
    → (get k m ≡ some ref) × (get_elem? heap ref ≡ some old)
unfolding lookup
lookup-some heap m k ref old h = ground arith

-- The test of the second guard.
abbrev holds_back : ℕ → Event → Seen → Bool
holds_back now e old =
    ltb (now - old.timestamp) (dedupe_window e.state) && leb e.priority old.priority

urgent_of_holds_back :
    (now : ℕ) (e : Event) (old : Seen) → holds_back now e old ≡ true → e.priority ≤ old.priority
urgent_of_holds_back now e old h = ground arith

by_location-Remembers :
    (notify : Bool) (id : Text) (now : ℕ) (e : Event) (s : Service)
    → Remembers (location_key e) now e.priority (by_location notify id now e s).0
unfolding by_location
by_location-Remembers notify id now e s =
    elim (Option-cases (lookup s.heap s.locations (location_key e))) [
      | inl missed ↦ rw (missed, by_location) (accept-Remembers notify id now e s)
      | inr ((ref, old), found) ↦ elim (Bool-cases (holds_back now e old)) [
        | inl hit ↦
            let (at, there) = lookup-some s.heap s.locations (location_key e) ref old found in
            rw (found, by_location)
              (rw hit (
                ref,
                record old { timestamp = now; sources = add_source e.source old.sources },
                at,
                get_elem?-set_elem s.heap ref old _ there,
                refl,
                urgent_of_holds_back now e old hit,
              ))
        | inr pass ↦ rw (found, by_location) (rw pass (accept-Remembers notify id now e s))
      ]
    ]

by_key-Remembers :
    (notify : Bool) (id : Text) (now : ℕ) (e : Event) (s : Service)
    → Remembers (location_key e) now e.priority (by_key notify id now e s).0
unfolding by_key
by_key-Remembers notify id now e s = elim (Option-cases (lookup s.heap s.seen (dedupe_key e))) [
  | inl missed ↦ rw (missed, by_key) (by_location-Remembers notify id now e s)
  | inr ((ref, old), found) ↦
      elim (Bool-cases (ltb (now - old.timestamp) (dedupe_window e.state))) [
        | inl hit ↦
            let (at, there) = lookup-some s.heap s.seen (dedupe_key e) ref old found in
            rw (found, by_key)
              (rw hit (
                ref,
                record {
                  timestamp = now;
                  sources = add_source e.source old.sources;
                  priority = max old.priority e.priority;
                },
                get-set_self (location_key e) ref s.locations,
                get_elem?-set_elem s.heap ref old _ there,
                refl,
                omega arith,
              ))
        | inr pass ↦ rw (found, by_key) (rw pass (by_location-Remembers notify id now e s))
      ]
]

prune-Remembers :
    (place : Text) (now later priority : ℕ) (s : Service)
    → later ≤ now + max_ttl
    → Remembers place now priority s
    → Remembers place now priority (prune later s)
unfolding prune
prune-Remembers place now later priority s h (ref, old, at, there, time, urgent) = (
  ref,
  old,
  get-retain-some (λ k r. is_recent s.heap later r) place ref s.locations at (ground arith),
  there,
  time,
  urgent,
)

by_key-duplicate :
    (notify : Bool) (id : Text) (now later priority : ℕ) (e : Event) (s : Service)
    → later < now + dedupe_window e.state
    → e.priority ≤ priority
    → Remembers (location_key e) now priority s
    → ((by_key notify id later e s).1 ≡ duplicate_of e)
      × ((by_key notify id later e s).0.store ≡ s.store)
unfolding by_key by_location lookup
by_key-duplicate notify id now later priority e s h u (ref, old, at, there, time, urgent) =
    ground arith

dedupe_window-le-max_ttl : (state : State) → dedupe_window state ≤ max_ttl
dedupe_window-le-max_ttl agent_stopped = omega arith
dedupe_window-le-max_ttl waiting_attention = omega arith
dedupe_window-le-max_ttl session_ended = omega arith
dedupe_window-le-max_ttl process_exited = omega arith
dedupe_window-le-max_ttl failed = omega arith

-- After any report from a place, whether it was announced or not, a further report from that place
-- within the window of its own state and of no higher priority is a duplicate: it makes no
-- notification, and the notification store stays as it was. So several reporters of one happening
-- announce it once, and each report renews the window.
pub ingest_again :
    (n₁ n₂ : Bool) (id₁ id₂ : Text) (now later : ℕ) (v₁ v₂ : Value) (s : Service)
    → location_key (normalize_agent_event later v₂) ≡ location_key (normalize_agent_event now v₁)
    → (normalize_agent_event later v₂).priority ≤ (normalize_agent_event now v₁).priority
    → later < now + dedupe_window (normalize_agent_event later v₂).state
    → let s' = (ingest n₁ id₁ now v₁ s).0 in
      ((ingest n₂ id₂ later v₂ s').1 ≡ duplicate_of (normalize_agent_event later v₂))
      × ((ingest n₂ id₂ later v₂ s').0.store ≡ s'.store)
unfolding ingest
ingest_again n₁ n₂ id₁ id₂ now later v₁ v₂ s place urgent soon =
    let e₁ = normalize_agent_event now v₁ in
    let e₂ = normalize_agent_event later v₂ in
    let s₁ = prune now s in
    let s' = (by_key n₁ id₁ now e₁ s₁).0 in
    by_key-duplicate n₂ id₂ now later e₁.priority e₂ (prune later s') soon urgent (
      rw place (
        prune-Remembers (location_key e₁) now later e₁.priority s'
          (omega (arith, dedupe_window-le-max_ttl e₂.state)) (by_key-Remembers n₁ id₁ now e₁ s₁)))

-- Every remembered report is older than the longest window.
abbrev pub IsSilent : ℕ → List Seen → Type 0
IsSilent now [] = Unit
IsSilent now (seen ∷ heap) = (seen.timestamp + max_ttl < now) × IsSilent now heap

is_recent-IsSilent :
    (now : ℕ) (heap : List Seen) (ref : ℕ) → IsSilent now heap → is_recent heap now ref ≡ false
is_recent-IsSilent now [] ref h = refl
is_recent-IsSilent now (seen ∷ heap) zero h = ground arith
is_recent-IsSilent now (seen ∷ heap) (suc ref) h = is_recent-IsSilent now heap ref h.1

get-retain-IsSilent :
    (now : ℕ) (heap : List Seen) (k : Text) (m : Dict Text ℕ)
    → IsSilent now heap
    → get k (retain (λ j ref. is_recent heap now ref) m) ≡ none
unfolding get retain
get-retain-IsSilent now heap k [] h = refl
get-retain-IsSilent now heap k ((j, ref) ∷ m) h =
    ground (arith, is_recent-IsSilent now heap ref h, get-retain-IsSilent now heap k m h)

-- After two minutes without a report the next one is announced: it is no duplicate, and its
-- notification is put in front of the store's list.
pub ingest_after_silence :
    (id : Text) (now : ℕ) (v : Value) (s : Service) (store : Notifications.Store)
    → IsSilent now s.heap
    → s.store ≡ some store
    → let (s', result) = ingest true id now v s in
      let (store', n) = Notifications.add id now (entry_of (normalize_agent_event now v)) store in
      (result.duplicate ≡ false) × (result.notification ≡ some n) × (s'.store ≡ some store')
unfolding ingest prune by_key by_location lookup accept
ingest_after_silence id now v s store h e =
    let event = normalize_agent_event now v in
    ground (
      arith,
      get-retain-IsSilent now s.heap (dedupe_key event) s.seen h,
      get-retain-IsSilent now s.heap (location_key event) s.locations h,
    )
