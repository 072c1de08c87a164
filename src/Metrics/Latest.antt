-- ===== src/Metrics/Latest.antt =====
-- The history of lib/metrics/service.js is the last samples that were good, and what a caller is told
-- of the last sample is true.
use tmux_web_panel.Base.{
  ℕ, zero, suc, ◌+◌, ◌-◌, ◌≤◌, ◌≡◌, refl, sym, ap, ◌∙◌, subst, inl, inr, Bool, true, false, Option,
  none, some, List, [], ◌∷◌, ◌++◌, arith, if◌then◌else◌, ltb, length, length-append, append-nil,
}
use tmux_web_panel.Base.Tests.{Bool-cases}
use tmux_web_panel.Metrics.{
  Good, Sample, good, degraded, Service, last_of, drop, history_points, current, push_history,
  remember, sample_of, sampled,
}

pub data Event {ℓ} (A : Type ℓ) : Type ℓ where
  asks : (force : Bool) (now : ℕ) → Event A
  comes : (now : ℕ) (answer : Option A) → Event A

suc_add : (n m : ℕ) → suc (n + m) ≡ suc n + m
suc_add n m = omega arith

module _ {ℓ} {A : Type ℓ} where
  -- The service after an event, and what the callers that wait are given.
  unfoldable pub step : Event A → Service A → Service A × List (Sample A)
  unfolding current sampled sample_of
  step (asks force now) s = ((current force now s).0, [])
  step (comes now answer) s =
      if s.in_flight then (sampled now answer s, sample_of now answer s.cache ∷ []) else (s, [])

  unfoldable pub run : List (Event A) → Service A × List (Sample A) → Service A × List (Sample A)
  unfolding step
  run [] r = r
  run (event ∷ events) r = let after = step event r.0 in run events (after.0, r.1 ++ after.1)

  abbrev pub init : Service A
  init = record { cache = none; history = []; in_flight = false }

  -- The good samples among those that were given, in order.
  abbrev pub goods : List (Sample A) → List (Good A)
  goods [] = []
  goods (good g ∷ samples) = g ∷ goods samples
  goods (degraded last ∷ samples) = goods samples

  abbrev pub final : List (Good A) → Option (Good A)
  final [] = none
  final (g ∷ []) = some g
  final (g ∷ h ∷ gs) = final (h ∷ gs)

  abbrev pub last_points : List (Good A) → List (Good A)
  last_points gs = drop (length gs - history_points) gs

  goods-append : (xs ys : List (Sample A)) → goods (xs ++ ys) ≡ goods xs ++ goods ys
  goods-append [] ys = refl
  goods-append (good g ∷ xs) ys = ap (λ r. g ∷ r) (goods-append xs ys)
  goods-append (degraded last ∷ xs) ys = goods-append xs ys

  final-append : (gs : List (Good A)) (g : Good A) → final (gs ++ g ∷ []) ≡ some g
  final-append [] g = refl
  final-append (h ∷ []) g = refl
  final-append (h ∷ i ∷ gs) g = final-append (i ∷ gs) g

  drop-append :
      (n : ℕ) (xs ys : List (Good A)) → n ≤ length xs → drop n (xs ++ ys) ≡ drop n xs ++ ys
  drop-append zero xs ys h = refl
  drop-append (suc n) [] ys h = ground (arith, h)
  drop-append (suc n) (x ∷ xs) ys h = drop-append n xs ys (omega (arith, h))

  length-drop : (n : ℕ) (xs : List (Good A)) → length (drop n xs) ≡ length xs - n
  length-drop zero xs = omega arith
  length-drop (suc n) [] = omega arith
  length-drop (suc n) (x ∷ xs) = omega (arith, length-drop n xs)

  drop-one : (n : ℕ) (xs : List (Good A)) → drop 1 (drop n xs) ≡ drop (suc n) xs
  drop-one zero xs = refl
  drop-one (suc n) [] = refl
  drop-one (suc n) (x ∷ xs) = drop-one n xs

  short :
      (gs : List (Good A)) → ltb history_points (length gs) ≡ false → length gs - history_points ≡ 0
  unfolding history_points
  short gs e = ground (arith, e)

  push_history-trim :
      (g : Good A) (h : List (Good A)) → push_history g h ≡ last_points (h ++ g ∷ [])
  unfolding push_history
  push_history-trim g h = elim (Bool-cases (ltb history_points (length (h ++ g ∷ [])))) [
    | inl e ↦ rw e
    | inr e ↦ rw (e, short (h ++ g ∷ []) e)
  ]

  drop-nil : (n : ℕ) → drop {A = Good A} n [] ≡ []
  drop-nil zero = refl
  drop-nil (suc n) = refl

  drop-drop : (m n : ℕ) (xs : List (Good A)) → drop m (drop n xs) ≡ drop (n + m) xs
  drop-drop m zero xs = ap (λ j. drop j xs) (omega arith)
  drop-drop m (suc n) [] = drop-nil m ∙ sym (drop-nil (suc n + m))
  drop-drop m (suc n) (x ∷ xs) = drop-drop m n xs ∙ ap (λ j. drop j (x ∷ xs)) (suc_add n m)

  over : List (Good A) → ℕ
  over gs = length gs - history_points

  over_add :
      (g : Good A) (gs : List (Good A))
      → over gs + over (drop (over gs) gs ++ g ∷ []) ≡ over (gs ++ g ∷ [])
  unfolding over
  over_add g gs = omega (
    arith,
    length-append (drop (over gs) gs) (g ∷ []),
    length-append gs (g ∷ []),
    length-drop (over gs) gs,
  )

  last_points-push :
      (g : Good A) (gs : List (Good A))
      → last_points (last_points gs ++ g ∷ []) ≡ last_points (gs ++ g ∷ [])
  unfolding over
  last_points-push g gs =
      let k = over gs in
      ap (drop (over (drop k gs ++ g ∷ []))) (sym (drop-append k gs (g ∷ []) (omega arith)))
      ∙ drop-drop (over (drop k gs ++ g ∷ [])) k (gs ++ g ∷ [])
      ∙ ap (λ j. drop j (gs ++ g ∷ [])) (over_add g gs)

  -- What holds between the service and all that was given so far.
  goods-none :
      (given : List (Sample A)) (last : Option (Good A))
      → goods (given ++ degraded last ∷ []) ≡ goods given
  goods-none given last = goods-append given (degraded last ∷ []) ∙ append-nil (goods given)

  abbrev IsTrue : Service A → List (Sample A) → Type ℓ
  IsTrue s given = (s.history ≡ last_points (goods given)) × (last_of s.cache ≡ final (goods given))

  history-current :
      (force : Bool) (now : ℕ) (s : Service A) → (current force now s).0.history ≡ s.history
  unfolding current
  history-current force now s = ground arith

  cache-current : (force : Bool) (now : ℕ) (s : Service A) → (current force now s).0.cache ≡ s.cache
  unfolding current
  cache-current force now s = ground arith

  sampled-IsTrue :
      (now : ℕ) (answer : Option A) (s : Service A) (given : List (Sample A))
      → s.in_flight ≡ true
      → IsTrue s given
      → IsTrue (sampled now answer s) (given ++ sample_of now answer s.cache ∷ [])
  unfolding sampled sample_of remember
  sampled-IsTrue now (some snapshot) s given e (p, q) =
      let g : Good A = record { sampled_at = now; snapshot = snapshot } in
      (
        rw (e) (
            push_history-trim g s.history
            ∙ ap (λ h. last_points (h ++ g ∷ [])) p
            ∙ last_points-push g (goods given)
            ∙ ap last_points (sym (goods-append given (good g ∷ [])))),
        rw (e) (
            sym (final-append (goods given) g) ∙ ap final (sym (goods-append given (good g ∷ [])))),
      )
  sampled-IsTrue now none s given e (p, q) =
      let last = last_of s.cache in
      (
        rw (e) (p ∙ ap last_points (sym (goods-none given last))),
        rw (e) (q ∙ ap final (sym (goods-none given last))),
      )

  step-IsTrue :
      (event : Event A) (s : Service A) (given : List (Sample A))
      → IsTrue s given
      → IsTrue (step event s).0 (given ++ (step event s).1)
  unfolding step
  step-IsTrue (asks force now) s given (p, q) =
      subst (IsTrue (current force now s).0) (sym (append-nil given))
        (history-current force now s ∙ p, ap last_of (cache-current force now s) ∙ q)
  step-IsTrue (comes now answer) s given h =
      let taken : Bool → Service A × List (Sample A) =
        λ b. if b then (sampled now answer s, sample_of now answer s.cache ∷ []) else (s, []) in
      elim (Bool-cases s.in_flight) [
        | inl e ↦
            subst (λ b. IsTrue (taken b).0 (given ++ (taken b).1)) (sym e)
              (sampled-IsTrue now answer s given e h)
        | inr e ↦
            subst (λ b. IsTrue (taken b).0 (given ++ (taken b).1)) (sym e)
              (subst (IsTrue s) (sym (append-nil given)) h)
      ]

  run-IsTrue :
      (events : List (Event A)) (s : Service A) (given : List (Sample A))
      → IsTrue s given
      → IsTrue (run events (s, given)).0 (run events (s, given)).1
  unfolding run
  run-IsTrue [] s given h = h
  run-IsTrue (event ∷ events) s given h =
      run-IsTrue events (step event s).0 (given ++ (step event s).1) (step-IsTrue event s given h)

  -- A service that starts with nothing and meets requests and samples in any order has a history that
  -- is the last 900, in order, of the good samples that the callers who waited were given, and it keeps
  -- as the last good sample, which goes with a failure, the last of them, however many failures came
  -- since.
  pub run-last_points :
      (events : List (Event A))
      → ((run events (init, [])).0.history ≡ last_points (goods (run events (init, [])).1))
        × (last_of (run events (init, [])).0.cache ≡ final (goods (run events (init, [])).1))
  unfolding history_points
  run-last_points events = run-IsTrue events init [] (refl, refl)
