-- ===== src/Health/Keeps.antt =====
-- Every operation of lib/servers/health-service.js but the forgetting of a server keeps its object
-- and never lowers its generation.
use tmux_web_panel.Base.{
  ℕ, suc, ◌≤◌, ◌≡◌, ◌≢◌, Bool, true, false, none, some, List, [], ◌∷◌, Text, text_eq, arith,
  nat_beq, nat_eq, option_eq, Option-cases, Bool-cases, inl, inr,
}
use tmux_web_panel.Base.Equality.{text_beq_iff}
use tmux_web_panel.Base.Dict.{get, get-delete}
use tmux_web_panel.Health.Status.{Entry, Status, Server, Service}
use tmux_web_panel.Health.Service.{
  Outcome, succeeds, fails, entry_of, object_at, invalidate, invalidated, forget, begin,
  probe_object, probe, failed_status, settled, settle, release, finish, is_due, due, probe_all,
  tick,
}
use tmux_web_panel.Health.Places.{Holds, entry_of-Holds, put_object-Holds}

begin-generation :
    (run now : ℕ) (server : Server) (entry : Entry)
    → (begin run now server entry).0.generation ≡ entry.generation
unfolding begin
begin-generation run now server entry = ground arith

probe_object-generation :
    (force : Bool) (run now : ℕ) (server : Server) (entry : Entry)
    → entry.generation ≤ (probe_object force run now server entry).0.generation
unfolding probe_object
probe_object-generation force run now server entry = ground (
  arith,
  begin-generation run now server entry,
  begin-generation run now server
      (record entry { generation = suc entry.generation; in_flight = none }),
)

pub probe-Holds :
    (id : Text) (ref g : ℕ) (force : Bool) (run now : ℕ) (server : Server) (s : Service)
    → Holds id ref g s
    → Holds id ref g (probe force run now server s).0
unfolding probe
probe-Holds id ref g force run now server s h =
    let x = entry_of server.id s in
    let entry = object_at server.id x.1 x.0 in
    put_object-Holds id server.id ref g x.1 (probe_object force run now server entry).0 x.0
      (probe_object-generation force run now server entry) (entry_of-Holds id server.id ref g s h)

pub invalidate-Holds :
    (id j : Text) (ref g : ℕ) (s : Service) → Holds id ref g s → Holds id ref g (invalidate j s)
unfolding invalidate invalidated
invalidate-Holds id j ref g s h =
    let x = entry_of j s in
    put_object-Holds id j ref g x.1 (invalidated j (object_at j x.1 x.0)) x.0 (omega arith)
      (entry_of-Holds id j ref g s h)

pub forget-Holds :
    (id j : Text) (ref g : ℕ) (s : Service)
    → id ≢ j
    → Holds id ref g s
    → Holds id ref g (forget j s)
unfolding forget
forget-Holds id j ref g s n h = elim (Option-cases (get j s.entries)) [
  | inl e ↦ record {
    place = ground (arith, get-delete id j s.entries, text_beq_iff id j, h.place);
    entry = h.entry;
    there = ground (arith, h.there);
    since = h.since;
  }
  | inr (r, e) ↦
      let entry = object_at j r s in
      let k =
        put_object-Holds id j ref g r (record entry { generation = suc entry.generation }) s
          (omega arith) h in
      record {
        place = ground (arith, get-delete id j s.entries, text_beq_iff id j, h.place);
        entry = k.entry;
        there = ground (arith, k.there);
        since = k.since;
      }
]

settle-Holds :
    (id j : Text) (ref g generation : ℕ) (status : Status) (failed : Bool) (now : ℕ) (s : Service)
    → Holds id ref g s
    → Holds id ref g (settle j generation status failed now s).0
unfolding settle settled
settle-Holds id j ref g generation status failed now s h = elim (Option-cases (get j s.entries)) [
  | inl e ↦ record {
    place = ground (arith, h.place);
    entry = h.entry;
    there = ground (arith, h.there);
    since = h.since;
  }
  | inr (r, e) ↦
      let k =
        put_object-Holds id j ref g r
          (settled j s.viewed_server_id status failed now (object_at j r s)) s (omega arith) h in
      elim (Bool-cases (nat_beq (object_at j r s).generation generation)) [
        | inl same ↦ record {
          place = ground (arith, k.place);
          entry = k.entry;
          there = ground (arith, k.there);
          since = k.since;
        }
        | inr other ↦ record {
          place = ground (arith, h.place);
          entry = h.entry;
          there = ground (arith, h.there);
          since = h.since;
        }
      ]
]

release-Holds :
    (id j : Text) (ref g r run : ℕ) (s : Service)
    → Holds id ref g s
    → Holds id ref g (release j r run s)
unfolding release
release-Holds id j ref g r run s h =
    let entry = object_at j r s in
    let k = put_object-Holds id j ref g r (record entry { in_flight = none }) s (omega arith) h in
    elim (Bool-cases (option_eq.equals entry.in_flight (some run))) [
      | inl own ↦ record {
        place = ground (arith, k.place);
        entry = k.entry;
        there = ground (arith, k.there);
        since = k.since;
      }
      | inr other ↦ record {
        place = ground (arith, h.place);
        entry = h.entry;
        there = ground (arith, h.there);
        since = h.since;
      }
    ]

pub finish-Holds :
    (id : Text) (ref g run r generation : ℕ) (server : Server) (o : Outcome) (now : ℕ) (s : Service)
    → Holds id ref g s
    → Holds id ref g (finish run r generation server o now s).0
unfolding finish
finish-Holds id ref g run r generation server (succeeds status) now s h =
    release-Holds id server.id ref g r run (settle server.id generation status false now s).0
      (settle-Holds id server.id ref g generation status false now s h)
finish-Holds id ref g run r generation server (fails err) now s h =
    let status = failed_status now server err (object_at server.id r s).status in
    release-Holds id server.id ref g r run (settle server.id generation status true now s).0
      (settle-Holds id server.id ref g generation status true now s h)

is_due-Holds :
    (id : Text) (ref g now : ℕ) (server : Server) (s : Service)
    → Holds id ref g s
    → Holds id ref g (is_due now server s).0
unfolding is_due
is_due-Holds id ref g now server s h =
    let k = entry_of-Holds id server.id ref g s h in
    elim (Bool-cases server.enabled) [
      | inl e ↦ record {
        place = ground (arith, k.place);
        entry = k.entry;
        there = ground (arith, k.there);
        since = k.since;
      }
      | inr e ↦ record {
        place = ground (arith, h.place);
        entry = h.entry;
        there = ground (arith, h.there);
        since = h.since;
      }
    ]

due-Holds :
    (id : Text) (ref g now : ℕ) (servers : List Server) (s : Service)
    → Holds id ref g s
    → Holds id ref g (due now servers s).0
unfolding due
due-Holds id ref g now [] s h = h
due-Holds id ref g now (server ∷ servers) s h =
    due-Holds id ref g now servers (is_due now server s).0 (is_due-Holds id ref g now server s h)

probe_all-Holds :
    (id : Text) (ref g run now : ℕ) (servers : List Server) (s : Service)
    → Holds id ref g s
    → Holds id ref g (probe_all run now servers s).0
unfolding probe_all
probe_all-Holds id ref g run now [] s h = h
probe_all-Holds id ref g run now (server ∷ servers) s h =
    probe_all-Holds id ref g (suc run) now servers (probe false run now server s).0
      (probe-Holds id ref g false run now server s h)

pub tick-Holds :
    (id : Text) (ref g run now : ℕ) (servers : List Server) (s : Service)
    → Holds id ref g s
    → Holds id ref g (tick run now servers s).0
unfolding tick
tick-Holds id ref g run now servers s h =
    probe_all-Holds id ref g run now (due now servers s).1 (due now servers s).0
      (due-Holds id ref g now servers s h)
