-- ===== src/Monitor/Told.antt =====
-- What a round of lib/monitor.js leaves alone when it tells the sockets something.
use tmux_web_panel.Base.{
  ℕ, ◌≡◌, refl, List, [], ◌∷◌, Text, text_eq, nat_beq, arith, Bool-cases, inl, inr, ◌∙◌,
}
use tmux_web_panel.Monitor.{
  Monitor, Outcome, Round, reading, detecting, over, Arrival, read, detected, throws, broadcast,
  broadcast_all, report, fail_round, resume,
}

-- What is told to the sockets changes neither the generation nor the statuses of the servers.
pub record IsTold (m m' : Monitor) : Type 0 where
  pub generation : m'.generation ≡ m.generation
  pub statuses : m'.server_statuses ≡ m.server_statuses

IsTold-trans : {a b c : Monitor} → IsTold a b → IsTold b c → IsTold a c
IsTold-trans h k = record {
  generation = k.generation ∙ h.generation;
  statuses = k.statuses ∙ h.statuses;
}

broadcast-IsTold : (message : Text) (m : Monitor) → IsTold m (broadcast message m).0
unfolding broadcast
broadcast-IsTold message m = record { generation = refl; statuses = refl }

broadcast_all-IsTold : (messages : List Text) (m : Monitor) → IsTold m (broadcast_all messages m).0
broadcast_all-IsTold [] m = record { generation = refl; statuses = refl }
broadcast_all-IsTold (message ∷ messages) m =
    IsTold-trans (broadcast-IsTold message m)
      (broadcast_all-IsTold messages (broadcast message m).0)

report-IsTold : (o : Outcome) (m : Monitor) → IsTold m (report o m).0
unfolding report broadcast
report-IsTold o m = record { generation = ground arith; statuses = ground arith }

fail_round-IsTold : (began : ℕ) (error : Text) (m : Monitor) → IsTold m (fail_round began error m).0
unfolding fail_round broadcast
fail_round-IsTold began error m = record { generation = ground arith; statuses = ground arith }

pub resume-IsTold :
    (round : Round) (arrival : Arrival) (m : Monitor) → IsTold m (resume round arrival m).1.0
unfolding resume
resume-IsTold (reading began) (read changes) m = elim (Bool-cases (nat_beq began m.generation)) [
  | inl same ↦ rw same (broadcast_all-IsTold changes m)
  | inr old ↦ rw old (record { generation = refl; statuses = refl })
]
resume-IsTold (reading began) (detected o) m = record { generation = refl; statuses = refl }
resume-IsTold (reading began) (throws error) m = fail_round-IsTold began error m
resume-IsTold (detecting began) (read changes) m = record { generation = refl; statuses = refl }
resume-IsTold (detecting began) (detected o) m = report-IsTold o m
resume-IsTold (detecting began) (throws error) m = fail_round-IsTold began error m
resume-IsTold over arrival m = record { generation = refl; statuses = refl }
