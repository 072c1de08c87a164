-- ===== src/Panes/Runtime/Events.antt =====
-- The events of a pane's life, and the invariant that ties its end to its subscriber set.
use tmux_web_panel.Base.{
  ◌⊎◌, ℕ, ◌+◌, ◌≤◌, ◌≡◌, refl, Bool, false, not, ◌||◌, Option, none, some, List, [], ◌∷◌, ◌++◌,
  Text, nat_eq, ◌==◌, arith, any, keep, count_if,
}
use tmux_web_panel.Base.Int.{ℤ}
use tmux_web_panel.Panes.Utf8.{Chars}
use tmux_web_panel.Panes.Runtime.{
  Runtime, ExitInfo, Effect, sends, tells_exit, start, fanout, tell_all, broadcast_exit, on_data,
  on_exit, add_member, subscribe, unsubscribe, write, valid_dimension, apply_size, resize_to,
  resize, note_focus, destroy, kill_timer_fires,
}

-- Everything that happens to a pane.
pub data Event : Type 0 where
  starts : Event
  outputs : Chars → ℕ → Event
  ends : ExitInfo → Event
  subscribes unsubscribes : ℕ → ℕ → Event
  types : Chars → ℕ → Event
  resizes_to : Bool → Option ℤ → Option ℤ → Option ℤ → Option ℕ → Event
  focuses : ℕ → Option ℤ → Event
  destroys : Bool → Text → Event
  escalates : Event

unfoldable pub step : Event → Runtime → Runtime × List Effect
step starts r = start r
step (outputs t now) r = on_data t now r
step (ends info) r = on_exit info r
step (subscribes s now) r = let (r', effects, replay) = subscribe s now r in (r', effects)
step (unsubscribes s now) r = (unsubscribe s now r, [])
step (types t now) r = let (r', effects, done) = write t now r in (r', effects)
step (resizes_to works cols rows epoch s) r =
    let (r', effects, done) = resize works cols rows epoch s r in (r', effects)
step (focuses s epoch) r = ((note_focus s epoch r).0, [])
step (destroys hup_works reason) r = destroy hup_works reason r
step escalates r = kill_timer_fires r

unfoldable pub run : List Event → Runtime → Runtime × List Effect
run [] r = (r, [])
run (e ∷ es) r =
    let (r', effects) = step e r in let (r'', later) = run es r' in (r'', effects ++ later)

abbrev pub is_exit_of : ℕ → Effect → Bool
is_exit_of s (tells_exit x info reason) = x == s
is_exit_of s _ = false

-- Anything that a subscriber sees.
abbrev pub reaches : ℕ → Effect → Bool
reaches s (tells_exit x info reason) = x == s
reaches s (sends x t) = x == s
reaches s _ = false

abbrev pub times : ℕ → List ℕ → ℕ
times s ss = count_if (λ x. x == s) ss

pub count_if-append {ℓ} :
    {A : Type ℓ} (p : A → Bool) (xs ys : List A)
    → count_if p (xs ++ ys) ≡ count_if p xs + count_if p ys
count_if-append p [] ys = omega arith
count_if-append p (x ∷ xs) ys = ground (arith, count_if-append p xs ys)

-- Who is told of the end, and when.
pub record Inv (r : Runtime) : Type 0 where
  pub over : r.exit_notified ≡ (r.exited || r.destroyed)
  pub released : (r.exit_notified ≡ false) ⊎ (r.subscribers ≡ [])
  pub distinct : (s : ℕ) → times s r.subscribers ≤ 1

times-absent : (s : ℕ) (ss : List ℕ) → any (λ x. x == s) ss ≡ false → times s ss ≡ 0
times-absent s [] h = refl
times-absent s (x ∷ ss) h = ground (arith, times-absent s ss)

times-add_member : (s x : ℕ) (ss : List ℕ) → times s ss ≤ 1 → times s (add_member x ss) ≤ 1
times-add_member s x ss h =
    ground (arith, times-absent x ss, count_if-append (λ y. y == s) ss (x ∷ []))

times-keep : (s : ℕ) (p : ℕ → Bool) (ss : List ℕ) → times s (keep p ss) ≤ times s ss
times-keep s p [] = omega arith
times-keep s p (x ∷ ss) = ground (arith, times-keep s p ss)

pub count-tell_all :
    (s : ℕ) (info : ExitInfo) (reason : Text) (ss : List ℕ)
    → count_if (is_exit_of s) (tell_all info reason ss) ≡ times s ss
count-tell_all s info reason [] = refl
count-tell_all s info reason (x ∷ ss) = ground (arith, count-tell_all s info reason ss)

pub count-fanout : (s : ℕ) (t : Chars) (ss : List ℕ) → count_if (is_exit_of s) (fanout t ss) ≡ 0
count-fanout s t [] = refl
count-fanout s t (x ∷ ss) = count-fanout s t ss

pub step-Inv : (e : Event) (r : Runtime) → Inv r → Inv (step e r).0
unfolding step start on_data on_exit broadcast_exit subscribe unsubscribe write resize
    valid_dimension resize_to apply_size note_focus destroy kill_timer_fires
step-Inv starts r v = ground arith
step-Inv (outputs t now) r v = ground arith
step-Inv (ends info) r v = record {
  over = ground arith;
  released = ground arith;
  distinct = λ x. ground (arith, v.distinct x);
}
step-Inv (subscribes s now) r v = record {
  over = ground arith;
  released = ground arith;
  distinct = λ x. ground (arith, v.distinct x, times-add_member x s r.subscribers (v.distinct x));
}
step-Inv (unsubscribes s now) r v = record {
  over = v.over;
  released = ground (arith, v.released);
  distinct = λ x. omega (arith, v.distinct x, times-keep x (λ y. not (y == s)) r.subscribers);
}
step-Inv (types t now) r v = ground arith
step-Inv (resizes_to works cols rows epoch s) r v = ground arith
step-Inv (focuses s none) r v = v
step-Inv (focuses s (some epoch)) r v = ground arith
step-Inv (destroys hup_works reason) r v = record {
  over = ground arith;
  released = ground arith;
  distinct = λ x. ground (arith, v.distinct x);
}
step-Inv escalates r v = ground arith
