-- ===== src/Ports/Search.antt =====
-- getDescendantPids of lib/ports.js ends, and finds the processes below a process and no others.
use tmux_web_panel.Base.{
  ℕ, zero, suc, ◌+◌, ◌≤◌, ◌≡◌, ◌↔◌, inl, inr, refl, sym, ap, ◌∙◌, subst, true, Option, some, List,
  [], ◌∷◌, ◌++◌, arith, nat_eq, ◌==◌, length, append_assoc, append-nil,
}
use tmux_web_panel.Base.Tests.{nat_beq_iff, Bool-cases}
use tmux_web_panel.Ports.{
  has_pid, ProcessTree, kids_of, all_kids, add_kids, descend, get_descendant_pids,
}
use tmux_web_panel.Ports.Rounds.{
  has_pid-append, kids_of-all_kids, missing, missing-nil, add_kids-Added,
}

-- The process stands below the first one: a child, or below a child.
pub data Descends (tree : ProcessTree) (pid : ℕ) : ℕ → Type 0 where
  direct : {c : ℕ} → has_pid c (kids_of tree pid) ≡ true → Descends tree pid c
  further :
      {c d : ℕ} → Descends tree pid c → has_pid d (kids_of tree c) ≡ true → Descends tree pid d

-- The processes that were taken from the queue have all their children in the set.
abbrev Closed : ProcessTree → List ℕ → List ℕ → Type 0
Closed tree found [] = Unit
Closed tree found (p ∷ ps) =
    ((k : ℕ) → has_pid k (kids_of tree p) ≡ true → has_pid k found ≡ true) × Closed tree found ps

Closed-more :
    (tree : ProcessTree) (found more done : List ℕ)
    → Closed tree found done
    → Closed tree (found ++ more) done
Closed-more tree found more [] c = tt
Closed-more tree found more (p ∷ ps) c = (
  λ k h. let before = c.0 k h in ground (arith, before, has_pid-append k found more),
  Closed-more tree found more ps c.1,
)

Closed-append :
    (tree : ProcessTree) (found ps : List ℕ) (p : ℕ)
    → Closed tree found ps
    → ((k : ℕ) → has_pid k (kids_of tree p) ≡ true → has_pid k found ≡ true)
    → Closed tree found (ps ++ p ∷ [])
Closed-append tree found [] p c h = (h, tt)
Closed-append tree found (q ∷ ps) p c h = (c.0, Closed-append tree found ps p c.1 h)

Closed-In :
    (tree : ProcessTree) (found done : List ℕ) (p k : ℕ)
    → Closed tree found done
    → has_pid p done ≡ true
    → has_pid k (kids_of tree p) ≡ true
    → has_pid k found ≡ true
Closed-In tree found [] p k c m h = ground arith
Closed-In tree found (q ∷ done) p k c m h = elim (Bool-cases (q == p)) [
  | inl same ↦
      let at : p ≡ q = sym ((nat_beq_iff q p).0 same) in
      c.0 k (subst (λ r. has_pid k (kids_of tree r) ≡ true) at h)
  | inr other ↦ Closed-In tree found done p k c.1 (ground (arith, other, m)) h
]

-- The set holds processes below the first only.
abbrev Sound : ProcessTree → ℕ → List ℕ → Type 0
Sound tree pid found = (k : ℕ) → has_pid k found ≡ true → Descends tree pid k

-- What the search leaves when it ends.
abbrev Finished : ProcessTree → ℕ → Option (List ℕ) → Type 0
Finished tree pid result =
    (found : List ℕ) × ((result ≡ some found)
      × (Closed tree found (pid ∷ found) × Sound tree pid found))

-- A child of the first process, or of one below it, is below it.
kid-Descends :
    (tree : ProcessTree) (pid current k : ℕ) (found : List ℕ)
    → Sound tree pid found
    → has_pid current (pid ∷ found) ≡ true
    → has_pid k (kids_of tree current) ≡ true
    → Descends tree pid k
kid-Descends tree pid current k found s m h = elim (Bool-cases (pid == current)) [
  | inl same ↦
      let at : current ≡ pid = sym ((nat_beq_iff pid current).0 same) in
      direct (subst (λ r. has_pid k (kids_of tree r) ≡ true) at h)
  | inr other ↦ further (s current (ground (arith, other, m))) h
]

Sound-append :
    (tree : ProcessTree) (pid current : ℕ) (found new : List ℕ)
    → Sound tree pid found
    → has_pid current (pid ∷ found) ≡ true
    → ((k : ℕ) → has_pid k new ≡ true → has_pid k (kids_of tree current) ≡ true)
    → Sound tree pid (found ++ new)
Sound-append tree pid current found new s m h k a = elim (Bool-cases (has_pid k found)) [
  | inl old ↦ s k old
  | inr other ↦
      let fresh = has_pid-append k found new in
      kid-Descends tree pid current k found s m (h k (ground (arith, fresh, other, a)))
]

descend-Finished :
    (fuel : ℕ) (tree : ProcessTree) (pid : ℕ) (queue found done : List ℕ)
    → done ++ queue ≡ pid ∷ found
    → Closed tree found done
    → Sound tree pid found
    → length queue + missing found (all_kids tree) ≤ fuel
    → Finished tree pid (descend fuel tree queue found)
unfolding descend
descend-Finished fuel tree pid [] found done e c s l =
    (found, (refl, (subst (Closed tree found) (sym (append-nil done) ∙ e) c, s)))
descend-Finished zero tree pid (current ∷ queue) found done e c s l = ground arith
descend-Finished (suc fuel) tree pid (current ∷ queue) found done e c s l =
    let kids = kids_of tree current in
    let after = add_kids kids queue found in
    let a = add_kids-Added kids queue found (all_kids tree) (kids_of-all_kids tree current) in
    let at : has_pid current (done ++ current ∷ queue) ≡ true =
      ground (arith, has_pid-append current done (current ∷ queue), nat_beq_iff current current) in
    let known : has_pid current (pid ∷ found) ≡ true = subst (λ r. has_pid current r ≡ true) e at in
    let split : (done ++ current ∷ []) ++ after.0 ≡ pid ∷ after.1 =
      ap (λ r. (done ++ current ∷ []) ++ r) a.queued
      ∙ sym (append_assoc (done ++ current ∷ []) queue a.new)
      ∙ ap (λ r. r ++ a.new) (append_assoc done (current ∷ []) queue ∙ e)
      ∙ ap (λ r. pid ∷ r) (sym a.stored) in
    let closed : Closed tree after.1 (done ++ current ∷ []) =
      Closed-append tree after.1 done current
        (subst (λ r. Closed tree r done) (sym a.stored) (Closed-more tree found a.new done c))
        a.all_stored in
    let sound : Sound tree pid after.1 =
      subst (Sound tree pid) (sym a.stored)
        (Sound-append tree pid current found a.new s known a.new_kids) in
    descend-Finished fuel tree pid after.0 after.1 (done ++ current ∷ []) split closed sound
      (omega (arith, a.left, l))

Descends-found :
    (tree : ProcessTree) (pid : ℕ) (found : List ℕ) {k : ℕ}
    → Closed tree found (pid ∷ found)
    → Descends tree pid k
    → has_pid k found ≡ true
Descends-found tree pid found {k} c (direct h) = c.0 k h
Descends-found tree pid found {k} c (further {c = p} d h) =
    let before = Descends-found tree pid found c d in
    Closed-In tree found (pid ∷ found) p k c (ground (arith, before)) h

-- The search ends, with the processes below the first one and no others.
pub get_descendant_pids-Descends :
    (pid : ℕ) (tree : ProcessTree)
    → (found : List ℕ) × ((get_descendant_pids pid tree ≡ some found)
        × ((k : ℕ) → (has_pid k found ≡ true) ↔ Descends tree pid k))
unfolding get_descendant_pids
get_descendant_pids-Descends pid tree =
    let f =
      descend-Finished (suc (length (all_kids tree))) tree pid (pid ∷ []) [] [] refl tt
        (λ k h. ground arith) (omega (arith, missing-nil (all_kids tree))) in
    (f.0, (f.1.0, λ k. (f.1.1.1 k, Descends-found tree pid f.0 f.1.1.0)))
