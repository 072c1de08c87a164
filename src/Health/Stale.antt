-- ===== src/Health/Stale.antt =====
-- Late results of probes in lib/servers/health-service.js.
use tmux_web_panel.Base.{
  ℕ, suc, ◌<◌, ◌≡◌, ◌≢◌, refl, Bool, true, false, none, some, List, [], ◌∷◌, Text, text_eq, nat_eq,
  arith, nat_beq_iff, length, get_elem?, get_elem?-set_elem, ap, ◌∙◌, All, get_elem?-append_last,
  option_eq,
}
use tmux_web_panel.Base.Equality.{beq_refl}
use tmux_web_panel.Base.Dict.{get, get-delete, get-set_self}
use tmux_web_panel.Health.Status.{Entry, Status, Server, Service}
use tmux_web_panel.Health.Service.{
  Outcome, succeeds, fails, entry_of, object_at, put_object, get_status, invalidate, invalidated,
  forget, set_viewed_server, probe, failed_status, settled, settle, release, finish, tick,
  fresh_entry,
}
use tmux_web_panel.Health.Places.{Holds, entry_of-Holds, get_elem?-set_elem_at}
use tmux_web_panel.Health.Keeps.{
  probe-Holds, invalidate-Holds, forget-Holds, finish-Holds, tick-Holds,
}

-- Everything that happens to the service.
pub data Event : Type 0 where
  probes : Bool → ℕ → ℕ → Server → Event
  finishes : (run ref generation : ℕ) → Server → Outcome → ℕ → Event
  invalidates forgets looks views : Text → Event
  ticks : ℕ → ℕ → List Server → Event

unfoldable pub step : Event → Service → Service
step (probes force run now server) s = (probe force run now server s).0
step (finishes run ref generation server o now) s = (finish run ref generation server o now s).0
step (invalidates id) s = invalidate id s
step (forgets id) s = forget id s
step (looks id) s = (get_status id s).0
step (views id) s = set_viewed_server id s
step (ticks run now servers) s = (tick run now servers s).0

unfoldable pub run_all : List Event → Service → Service
unfolding step
run_all [] s = s
run_all (e ∷ es) s = run_all es (step e s)

abbrev pub Spares : Text → Event → Type 0
Spares id (forgets j) = id ≢ j
Spares id _ = Unit

views-Holds :
    (id j : Text) (ref g : ℕ) (s : Service)
    → Holds id ref g s
    → Holds id ref g (set_viewed_server j s)
unfolding set_viewed_server
views-Holds id [] ref g s h = record {
  place = h.place;
  entry = h.entry;
  there = h.there;
  since = h.since;
}
views-Holds id (c ∷ j) ref g s h = record {
  place = h.place;
  entry = h.entry;
  there = h.there;
  since = h.since;
}

looks-Holds :
    (id j : Text) (ref g : ℕ) (s : Service) → Holds id ref g s → Holds id ref g (get_status j s).0
unfolding get_status
looks-Holds id j ref g s h = entry_of-Holds id j ref g s h

step-Holds :
    (id : Text) (ref g : ℕ) (e : Event) (s : Service)
    → Spares id e
    → Holds id ref g s
    → Holds id ref g (step e s)
unfolding step
step-Holds id ref g (probes force run now server) s n h =
    probe-Holds id ref g force run now server s h
step-Holds id ref g (finishes run r generation server o now) s n h =
    finish-Holds id ref g run r generation server o now s h
step-Holds id ref g (invalidates j) s n h = invalidate-Holds id j ref g s h
step-Holds id ref g (forgets j) s n h = forget-Holds id j ref g s n h
step-Holds id ref g (looks j) s n h = looks-Holds id j ref g s h
step-Holds id ref g (views j) s n h = views-Holds id j ref g s h
step-Holds id ref g (ticks run now servers) s n h = tick-Holds id ref g run now servers s h

run_all-Holds :
    (id : Text) (ref g : ℕ) (es : List Event) (s : Service)
    → All (Spares id) es
    → Holds id ref g s
    → Holds id ref g (run_all es s)
unfolding run_all
run_all-Holds id ref g [] s n h = h
run_all-Holds id ref g (e ∷ es) s n h =
    run_all-Holds id ref g es (step e s) n.1 (step-Holds id ref g e s n.0 h)

invalidate-next :
    (id : Text) (ref g : ℕ) (s : Service)
    → Holds id ref g s
    → Holds id ref (suc g) (invalidate id s)
unfolding invalidate invalidated entry_of
invalidate-next id ref g s h = record {
  place = ground (arith, h.place);
  entry = invalidated id h.entry;
  there = ground (
    arith,
    h.place,
    h.there,
    get_elem?-set_elem_at s.objects ref ref h.entry (invalidated id h.entry) h.there,
  );
  since = ground (arith, h.since);
}

settle-stale :
    (id : Text) (ref g generation : ℕ) (status : Status) (failed : Bool) (now : ℕ) (s : Service)
    → generation < g
    → Holds id ref g s
    → settle id generation status failed now s ≡ (s, [])
unfolding settle
settle-stale id ref g generation status failed now s l h =
    ground (arith, h.place, h.there, h.since, nat_beq_iff h.entry.generation generation)

release-status :
    (id : Text) (ref g r run : ℕ) (s : Service)
    → Holds id ref g s
    → (get_status id (release id r run s)).1 ≡ (get_status id s).1
unfolding release get_status entry_of
release-status id ref g r run s h =
    let entry = object_at id r s in
    ground (
      arith,
      h.place,
      h.there,
      nat_beq_iff ref r,
      get_elem?-set_elem_at s.objects ref r h.entry (record entry { in_flight = none }) h.there,
    )

finish-stale :
    (ref g run r generation : ℕ) (server : Server) (o : Outcome) (now : ℕ) (s : Service)
    → generation < g
    → Holds server.id ref g s
    → ((finish run r generation server o now s).1 ≡ [])
      × ((get_status server.id (finish run r generation server o now s).0).1
          ≡ (get_status server.id s).1)
unfolding finish
finish-stale ref g run r generation server (succeeds status) now s l h =
    let p = settle-stale server.id ref g generation status false now s l h in
    (
      ap (λ x. x.1) p,
      ap (λ x. (get_status server.id (release server.id r run x.0)).1) p
          ∙ release-status server.id ref g r run s h,
    )
finish-stale ref g run r generation server (fails err) now s l h =
    let status = failed_status now server err (object_at server.id r s).status in
    let p = settle-stale server.id ref g generation status true now s l h in
    (
      ap (λ x. x.1) p,
      ap (λ x. (get_status server.id (release server.id r run x.0)).1) p
          ∙ release-status server.id ref g r run s h,
    )

-- Whatever a probe finds that began on a server's entry before the entry was invalidated, and
-- whatever happens between the invalidation and its end short of forgetting the server, nothing of
-- it is published and the server's status stays as it is.
pub finish-invalidated :
    (ref generation run r : ℕ) (es : List Event) (server : Server) (o : Outcome) (now : ℕ)
    (s : Service)
    → Holds server.id ref generation s
    → All (Spares server.id) es
    → let s' = run_all es (invalidate server.id s) in
      ((finish run r generation server o now s').1 ≡ [])
      × ((get_status server.id (finish run r generation server o now s').0).1
          ≡ (get_status server.id s').1)
finish-invalidated ref generation run r es server o now s h n =
    finish-stale ref (suc generation) run r generation server o now
      (run_all es (invalidate server.id s)) (omega arith)
      (run_all-Holds server.id ref (suc generation) es (invalidate server.id s) n
        (invalidate-next server.id ref generation s h))

forget-none : (id : Text) (s : Service) → get id (forget id s).entries ≡ none
unfolding forget
forget-none id s = ground (arith, get-delete id id s.entries, beq_refl id)

entry_of-new :
    (id : Text) (s : Service)
    → get id s.entries ≡ none
    → (get id (entry_of id s).0.entries ≡ some (length s.objects))
      × (get_elem? (entry_of id s).0.objects (length s.objects) ≡ some (fresh_entry id))
unfolding entry_of
entry_of-new id s e = ground (
  arith,
  get-set_self id (length s.objects) s.entries,
  get_elem?-append_last s.objects (fresh_entry id),
)

-- A result of the entry's own generation is applied.
pub settle-current :
    (id : Text) (ref generation now : ℕ) (status : Status) (failed : Bool) (entry : Entry)
    (s : Service)
    → get id s.entries ≡ some ref
    → get_elem? s.objects ref ≡ some entry
    → entry.generation ≡ generation
    → settle id generation status failed now s
      ≡ (put_object ref (settled id s.viewed_server_id status failed now entry) s, status ∷ [])
unfolding settle
settle-current id ref generation now status failed entry s p t g =
    ground (arith, nat_beq_iff entry.generation generation)

status_at :
    (id : Text) (ref : ℕ) (entry : Entry) (s : Service)
    → get id s.entries ≡ some ref
    → get_elem? s.objects ref ≡ some entry
    → (get_status id s).1 ≡ entry.status
unfolding get_status entry_of
status_at id ref entry s p t = ground arith

-- A server that is forgotten and looked at again gets an entry in generation 0, so the result of a
-- probe that began in generation 0 of the forgotten entry is published and becomes the status of
-- the new entry.
pub finish-forgotten :
    (run r now : ℕ) (server : Server) (status : Status) (s : Service)
    → let s' = (get_status server.id (forget server.id s)).0 in
      let (s'', published) = finish run r 0 server (succeeds status) now s' in
      (published ≡ status ∷ []) × ((get_status server.id s'').1 ≡ status)
unfolding finish get_status settled
finish-forgotten run r now server status s =
    let id = server.id in
    let ref = length (forget id s).objects in
    let s' = (entry_of id (forget id s)).0 in
    let (p, t) = entry_of-new id (forget id s) (forget-none id s) in
    let next = settled id s'.viewed_server_id status false now (fresh_entry id) in
    let u = get_elem?-set_elem s'.objects ref (fresh_entry id) next t in
    let q = settle-current id ref 0 now status false (fresh_entry id) s' p t refl in
    let h : Holds id ref 0 (put_object ref next s') = record {
      place = p;
      entry = next;
      there = u;
      since = omega arith;
    } in
    (
      ap (λ x. x.1) q,
      ap (λ x. (get_status id (release id r run x.0)).1) q
          ∙ release-status id ref 0 r run (put_object ref next s') h
          ∙ status_at id ref next (put_object ref next s') p u,
    )
