-- ===== src/Ports/Rounds.antt =====
-- One round of getDescendantPids of lib/ports.js: what becomes of the queue and of the set.
use tmux_web_panel.Base.{
  ℕ, suc, ◌+◌, ◌≤◌, ◌≡◌, inl, inr, refl, sym, ◌∙◌, subst, true, false, not, ◌||◌, List, [], ◌∷◌,
  ◌++◌, arith, nat_eq, ◌==◌, length, length-append, count_if, append_assoc, append-nil,
}
use tmux_web_panel.Base.Tests.{nat_beq_iff, Bool-cases}
use tmux_web_panel.Base.Dict.{get}
use tmux_web_panel.Ports.{has_pid, ProcessTree, kids_of, all_kids, add_kids}

pub has_pid-append :
    (p : ℕ) (xs ys : List ℕ) → has_pid p (xs ++ ys) ≡ (has_pid p xs || has_pid p ys)
has_pid-append p [] ys = refl
has_pid-append p (x ∷ xs) ys = ground (arith, has_pid-append p xs ys)

pub kids_of-all_kids :
    (tree : ProcessTree) (pid k : ℕ)
    → has_pid k (kids_of tree pid) ≡ true
    → has_pid k (all_kids tree) ≡ true
unfolding kids_of get
kids_of-all_kids [] pid k h = h
kids_of-all_kids ((parent, kids) ∷ tree) pid k h =
    ground (arith, kids_of-all_kids tree pid k, has_pid-append k kids (all_kids tree))

-- How many of the numbers are not found yet.
abbrev pub missing : List ℕ → List ℕ → ℕ
missing found universe = count_if (λ p. not (has_pid p found)) universe

missing-le :
    (k : ℕ) (found universe : List ℕ) → missing (found ++ k ∷ []) universe ≤ missing found universe
missing-le k found [] = omega arith
missing-le k found (u ∷ us) = ground (arith, missing-le k found us, has_pid-append u found (k ∷ []))

missing-less :
    (k : ℕ) (found universe : List ℕ)
    → has_pid k universe ≡ true
    → has_pid k found ≡ false
    → suc (missing (found ++ k ∷ []) universe) ≤ missing found universe
missing-less k found [] h a = ground arith
missing-less k found (u ∷ us) h a = ground (
  arith,
  missing-less k found us,
  missing-le k found us,
  has_pid-append u found (k ∷ []),
  nat_beq_iff u k,
)

pub missing-nil : (universe : List ℕ) → missing [] universe ≤ length universe
missing-nil [] = omega arith
missing-nil (u ∷ us) = ground (arith, missing-nil us)

-- What the inner loop leaves: the same new numbers at the end of the queue and of the set, all of
-- them children, with every child in the set, and no more to do than before.
pub record Added (kids queue found universe : List ℕ) (after : List ℕ × List ℕ) : Type 0 where
  pub new : List ℕ
  pub queued : after.0 ≡ queue ++ new
  pub stored : after.1 ≡ found ++ new
  pub all_stored : (k : ℕ) → has_pid k kids ≡ true → has_pid k after.1 ≡ true
  pub new_kids : (k : ℕ) → has_pid k new ≡ true → has_pid k kids ≡ true
  pub left : length after.0 + missing after.1 universe ≤ length queue + missing found universe

module _ (child : ℕ) (kids queue found universe : List ℕ) (after : List ℕ × List ℕ) where
  stored-has_pid :
      (new : List ℕ) (k : ℕ)
      → after.1 ≡ found ++ new
      → has_pid k found ≡ true
      → has_pid k after.1 ≡ true
  stored-has_pid new k e h = ground (arith, e, has_pid-append k found new)

  Added-seen :
      has_pid child found ≡ true
      → Added kids queue found universe after
      → Added (child ∷ kids) queue found universe after
  Added-seen e a = record {
    new = a.new;
    queued = a.queued;
    stored = a.stored;
    all_stored = λ k m. elim (Bool-cases (child == k)) [
      | inl same ↦
          let at : child ≡ k = (nat_beq_iff child k).0 same in
          stored-has_pid a.new k a.stored (subst (λ p. has_pid p found ≡ true) at e)
      | inr other ↦ a.all_stored k (ground (arith, other, m))
    ];
    new_kids = λ k m. let among = a.new_kids k m in ground (arith, among);
    left = a.left;
  }

  Added-new :
      has_pid child found ≡ false
      → has_pid child universe ≡ true
      → Added kids (queue ++ child ∷ []) (found ++ child ∷ []) universe after
      → Added (child ∷ kids) queue found universe after
  Added-new e u a = record {
    new = child ∷ a.new;
    queued = a.queued ∙ append_assoc queue (child ∷ []) a.new;
    stored = a.stored ∙ append_assoc found (child ∷ []) a.new;
    all_stored = λ k m. elim (Bool-cases (child == k)) [
      | inl same ↦
          let place = has_pid-append k found (child ∷ a.new) in
          let whole = a.stored ∙ append_assoc found (child ∷ []) a.new in
          ground (arith, same, place, whole)
      | inr other ↦ a.all_stored k (ground (arith, other, m))
    ];
    new_kids = λ k m. elim (Bool-cases (child == k)) [
      | inl same ↦ ground (arith, same)
      | inr other ↦
          let among = a.new_kids k (ground (arith, other, m)) in ground (arith, among, other)
    ];
    left =
        ground
          (arith, a.left, missing-less child found universe u e, length-append queue (child ∷ []));
  }

pub add_kids-Added :
    (kids queue found universe : List ℕ)
    → ((k : ℕ) → has_pid k kids ≡ true → has_pid k universe ≡ true)
    → Added kids queue found universe (add_kids kids queue found)
unfolding add_kids
add_kids-Added [] queue found universe h = record {
  new = [];
  queued = sym (append-nil queue);
  stored = sym (append-nil found);
  all_stored = λ k e. ground arith;
  new_kids = λ k e. ground arith;
  left = omega arith;
}
add_kids-Added (child ∷ kids) queue found universe h = elim (Bool-cases (has_pid child found)) [
  | inl e ↦
      let rest = add_kids-Added kids queue found universe (λ k a. h k (ground (arith, a))) in
      let step : add_kids (child ∷ kids) queue found ≡ add_kids kids queue found =
        ground (arith, e) in
      subst (Added (child ∷ kids) queue found universe) (sym step)
        (Added-seen child kids queue found universe (add_kids kids queue found) e rest)
  | inr e ↦
      let rest =
        add_kids-Added kids (queue ++ child ∷ []) (found ++ child ∷ []) universe
          (λ k a. h k (ground (arith, a))) in
      let step : add_kids (child ∷ kids) queue found
          ≡ add_kids kids (queue ++ child ∷ []) (found ++ child ∷ []) =
        ground (arith, e) in
      subst (Added (child ∷ kids) queue found universe) (sym step) (
        Added-new child kids queue found universe
          (add_kids kids (queue ++ child ∷ []) (found ++ child ∷ [])) e
          (h child (ground (arith, nat_beq_iff child child))) rest)
]
