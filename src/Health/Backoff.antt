-- ===== src/Health/Backoff.antt =====
-- When lib/servers/health-service.js asks a failed server again.
use tmux_web_panel.Base.{
  ℕ, suc, ◌+◌, ◌≤◌, ◌≡◌, refl, true, none, some, Text, text_eq, nat_eq, option_eq, arith, leb,
  get_elem?, get_elem?-set_elem, ap, ◌∙◌,
}
use tmux_web_panel.Base.Dict.{get}
use tmux_web_panel.Health.Status.{Entry, Server, Service, AppError, failure_backoff}
use tmux_web_panel.Health.Service.{
  fails, entry_of, object_at, put_object, failed_status, settled, release, finish, is_due,
}
use tmux_web_panel.Health.Stale.{settle-current}

failure_backoff_bounds : (n : ℕ) → (30000 ≤ failure_backoff n) × (failure_backoff n ≤ 300000)
unfolding failure_backoff
failure_backoff_bounds n = ground arith

due_at :
    (t ref : ℕ) (server : Server) (entry : Entry) (s : Service)
    → server.enabled ≡ true
    → get server.id s.entries ≡ some ref
    → get_elem? s.objects ref ≡ some entry
    → entry.in_flight ≡ none
    → (is_due t server s).1 ≡ leb entry.next_poll_at t
unfolding is_due entry_of
due_at t ref server entry s e p q n = ground arith

release-own :
    (id : Text) (ref run : ℕ) (entry : Entry) (s : Service)
    → get_elem? s.objects ref ≡ some entry
    → entry.in_flight ≡ some run
    → release id ref run s ≡ put_object ref (record entry { in_flight = none }) s
unfolding release
release-own id ref run entry s q f = ground (arith, option_eq.equals_iff entry.in_flight (some run))

-- After a probe of an enabled server has failed, the server is due again exactly when its backoff
-- has passed, which is between thirty seconds and five minutes. The probe is the one in flight and
-- the entry is still in its generation.
pub is_due-failed :
    (run ref now t : ℕ) (server : Server) (err : AppError) (entry : Entry) (s : Service)
    → server.enabled ≡ true
    → get server.id s.entries ≡ some ref
    → get_elem? s.objects ref ≡ some entry
    → entry.in_flight ≡ some run
    → let backoff = failure_backoff (suc entry.failure_count) in
      ((is_due t server (finish run ref entry.generation server (fails err) now s).0).1
        ≡ leb (now + backoff) t)
      × (30000 ≤ backoff)
      × (backoff ≤ 300000)
unfolding finish settled
is_due-failed run ref now t server err entry s e p q f =
    let id = server.id in
    let status = failed_status now server err (object_at id ref s).status in
    let next = settled id s.viewed_server_id status true now entry in
    let s' = put_object ref next s in
    let q' = get_elem?-set_elem s.objects ref entry next q in
    (
      ap (λ x. (is_due t server (release id ref run x.0)).1)
            (settle-current id ref entry.generation now status true entry s p q refl)
          ∙ ap (λ x. (is_due t server x).1) (release-own id ref run next s' q' f)
          ∙ due_at t ref server (record next { in_flight = none })
              (put_object ref (record next { in_flight = none }) s') e p
              (get_elem?-set_elem s'.objects ref next (record next { in_flight = none }) q') refl,
      (failure_backoff_bounds (suc entry.failure_count)).0,
      (failure_backoff_bounds (suc entry.failure_count)).1,
    )
