-- ===== src/Links/Balance.antt =====
-- No link of lib/hub/link-pool.js is left open behind the pool's back, and none is closed twice.
use tmux_web_panel.Base.{
  ℕ, ◌+◌, ◌≡◌, refl, Bool, false, Option, none, some, List, [], ◌∷◌, Text, text_eq, nat_eq, ◌==◌,
  arith, if◌then◌else◌, count_if,
}
use tmux_web_panel.Base.Equality.{text_beq_iff}
use tmux_web_panel.Base.Dict.{
  Dict, get, set, delete, HasDistinctKeys, set-HasDistinctKeys, delete-HasDistinctKeys,
}
use tmux_web_panel.Links.{
  Server, Entry, Pool, Effect, opens, closes, close, replace, invalidate, close_each, close_all,
}

abbrev pub is_open : ℕ → Effect → Bool
is_open n (opens k) = k == n
is_open n _ = false

abbrev pub is_close : ℕ → Effect → Bool
is_close n (closes k) = k == n
is_close n _ = false

abbrev pub opened : ℕ → List Effect → ℕ
opened n effects = count_if (is_open n) effects

abbrev pub closed : ℕ → List Effect → ℕ
closed n effects = count_if (is_close n) effects

abbrev pub held : ℕ → Dict Text Entry → ℕ
held n es = count_if (λ p. p.1.link == n) es

abbrev held_at : ℕ → Option Entry → ℕ
held_at n none = 0
held_at n (some entry) = if entry.link == n then 1 else 0

held-set :
    (n : ℕ) (id : Text) (entry : Entry) (es : Dict Text Entry)
    → held n (set id entry es) + held_at n (get id es) ≡ held n es + held_at n (some entry)
unfolding get set
held-set n id entry [] = ground arith
held-set n id entry ((j, e) ∷ es) = ground (arith, held-set n id entry es)

delete-absent : (id : Text) (es : Dict Text Entry) → get id es ≡ none → delete id es ≡ es
unfolding get delete
delete-absent id [] h = refl
delete-absent id ((j, e) ∷ es) h = ground (arith, delete-absent id es)

held-delete :
    (n : ℕ) (id : Text) (es : Dict Text Entry)
    → HasDistinctKeys es
    → held n (delete id es) + held_at n (get id es) ≡ held n es
unfolding get delete
held-delete n id [] h = ground arith
held-delete n id ((j, e) ∷ es) h =
    ground (
      arith,
      held-delete n id es h.1,
      text_beq_iff id j,
      delete-absent j es h.0,
      delete-absent id es,
    )

closed-close_each : (n : ℕ) (es : Dict Text Entry) → closed n (close_each es) ≡ held n es
unfolding close_each close
closed-close_each n [] = refl
closed-close_each n ((id, e) ∷ es) = ground (arith, closed-close_each n es)

opened-close_each : (n : ℕ) (es : Dict Text Entry) → opened n (close_each es) ≡ 0
unfolding close_each close
opened-close_each n [] = refl
opened-close_each n ((id, e) ∷ es) = ground (arith, opened-close_each n es)

-- What an operation opens and closes accounts for what the pool holds after it.
pub record Moves (n : ℕ) (p : Pool) (effects : List Effect) (after : Pool) : Type 0 where
  pub accounted : opened n effects + held n p.entries ≡ closed n effects + held n after.entries
  pub distinct : HasDistinctKeys after.entries

pub replace-Moves :
    (n : ℕ) (server : Server) (p : Pool)
    → HasDistinctKeys p.entries
    → Moves n p (replace server p).1 (replace server p).0
unfolding replace close
replace-Moves n server p d =
    let entry = (replace server p).2 in
    record {
      accounted = ground (arith, held-set n server.id entry p.entries);
      distinct = set-HasDistinctKeys server.id entry p.entries d;
    }

pub put-Moves :
    (n : ℕ) (id : Text) (old entry : Entry) (next : ℕ) (p : Pool)
    → get id p.entries ≡ some old
    → entry.link ≡ old.link
    → HasDistinctKeys p.entries
    → Moves n p [] (record { entries = set id entry p.entries; next = next })
put-Moves n id old entry next p e l d = record {
  accounted = ground (arith, held-set n id entry p.entries, e, l);
  distinct = set-HasDistinctKeys id entry p.entries d;
}

pub invalidate-Moves :
    (n : ℕ) (id : Text) (p : Pool)
    → HasDistinctKeys p.entries
    → Moves n p (invalidate id p).1 (invalidate id p).0
unfolding invalidate close
invalidate-Moves n id p d = record {
  accounted = ground (arith, held-delete n id p.entries d);
  distinct = delete-HasDistinctKeys id p.entries d;
}

pub close_all-Moves : (n : ℕ) (p : Pool) → Moves n p (close_all p).1 (close_all p).0
unfolding close_all
close_all-Moves n p = record {
  accounted = omega (arith, closed-close_each n p.entries, opened-close_each n p.entries);
  distinct = tt;
}
