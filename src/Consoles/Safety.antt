-- ===== src/Consoles/Safety.antt =====
-- A sweep of lib/terminal/console-reaper.js ends no console that a client still needs.
use tmux_web_panel.Base.{
  ℕ, ◌≡◌, refl, sym, subst, ◌⊎◌, inl, inr, false, not, ◌&&◌, ◌||◌, some, List, [], ◌∷◌, ◌++◌, arith,
  nat_eq, ◌==◌, keep, any, All,
}
use tmux_web_panel.Base.Lists.{All-append, In, here, there}
use tmux_web_panel.Base.Tests.{Bool-cases, nat_beq_iff}
use tmux_web_panel.Consoles.{
  Window, Entry, Console, Reaper, within, is_among, is_someone_elses, decide, finish_sweep,
}

-- The pid of the only console that was created in the window of an entry of the sweep, and in no
-- window of a client that still runs or of one that ended and is not taken up yet.
abbrev pub IsOwned : List Window → (ended ready : List Entry) → List Console → ℕ → Type 0
IsOwned live ended ready consoles pid =
    (e : Entry) × ((c : Console) × (In e ready
        × ((keep (λ x. within x e.window) consoles ≡ c ∷ [])
            × ((c.pid ≡ pid)
                × ((any (λ w. within c w) live ≡ false)
                    × (any (λ f. not (is_among f.key ready) && within c f.window) ended
                        ≡ false))))))

-- No pid stands twice.
abbrev pub HasNoRepeats : List ℕ → Type 0
HasNoRepeats [] = Unit
HasNoRepeats (p ∷ ps) = (any (λ q. q == p) ps ≡ false) × HasNoRepeats ps

any-last :
    (p q : ℕ) (ps : List ℕ) → any (λ x. x == q) (ps ++ p ∷ []) ≡ (any (λ x. x == q) ps || (p == q))
any-last p q [] = ground arith
any-last p q (x ∷ ps) = ground (arith, any-last p q ps)

HasNoRepeats-last :
    (p : ℕ) (ps : List ℕ)
    → HasNoRepeats ps
    → any (λ q. q == p) ps ≡ false
    → HasNoRepeats (ps ++ p ∷ [])
HasNoRepeats-last p [] d h = (refl, tt)
HasNoRepeats-last p (q ∷ ps) d h =
    ground
      (arith, d, h, any-last p q ps, HasNoRepeats-last p ps d.1, nat_beq_iff p q, nat_beq_iff q p)

List-cases {ℓ} :
    {A : Type ℓ} (xs : List A) → (xs ≡ []) ⊎ ((x : A) × ((rest : List A) × (xs ≡ x ∷ rest)))
List-cases [] = inl refl
List-cases (x ∷ rest) = inr (x, (rest, refl))

module _ (live : List Window) (ended ready : List Entry) (consoles : List Console) where
  abbrev IsRight : List Entry × List ℕ → Type 0
  IsRight decided = All (IsOwned live ended ready consoles) decided.1 × HasNoRepeats decided.1

  owner :
      (e : Entry) (only : Console) (others : List Console)
      → In e ready
      → keep (λ x. within x e.window) consoles ≡ only ∷ others
      → is_someone_elses live ended ready only others ≡ false
      → IsOwned live ended ready consoles only.pid
  unfolding is_someone_elses
  owner e only [] i k s = (e, (only, (i, (k, (refl, (ground (arith, s), ground (arith, s)))))))
  owner e only (o ∷ others) i k s = ground (arith, s)

  decide-IsRight :
      (todo postponed : List Entry) (killed : List ℕ)
      → ((e : Entry) → In e todo → In e ready)
      → All (IsOwned live ended ready consoles) killed
      → HasNoRepeats killed
      → IsRight (decide live ended ready consoles todo postponed killed)
  unfolding decide
  decide-IsRight [] postponed killed i a d = (a, d)
  decide-IsRight (e ∷ todo) postponed killed i a d =
      let later = λ (f : Entry) (m : In f todo). i f (there m) in
      let skip = decide-IsRight todo postponed killed later a d in
      let wait = decide-IsRight todo (postponed ++ e ∷ []) killed later a d in
      elim (List-cases (keep (λ x. within x e.window) consoles)) [
        | inl k ↦
            let same : decide live ended ready consoles (e ∷ todo) postponed killed
                ≡ decide live ended ready consoles todo postponed killed =
              ground (arith, k) in
            subst IsRight (sym same) skip
        | inr (only, (others, k)) ↦
            elim (Bool-cases (is_someone_elses live ended ready only others)) [
              | inl t ↦
                  let same : decide live ended ready consoles (e ∷ todo) postponed killed
                      ≡ decide live ended ready consoles todo (postponed ++ e ∷ []) killed =
                    ground (arith, k, t) in
                  subst IsRight (sym same) wait
              | inr t ↦ elim (Bool-cases (any (λ p. p == only.pid) killed)) [
                | inl g ↦
                    let same : decide live ended ready consoles (e ∷ todo) postponed killed
                        ≡ decide live ended ready consoles todo postponed killed =
                      ground (arith, k, t, g) in
                    subst IsRight (sym same) skip
                | inr g ↦
                    let same : decide live ended ready consoles (e ∷ todo) postponed killed
                        ≡ decide live ended ready consoles todo postponed
                            (killed ++ only.pid ∷ []) =
                      ground (arith, k, t, g) in
                    let mine = owner e only others (i e here) k t in
                    let end =
                      decide-IsRight todo postponed (killed ++ only.pid ∷ []) later
                        (All-append (IsOwned live ended ready consoles) killed (only.pid ∷ []) a
                          (mine, tt))
                        (HasNoRepeats-last only.pid killed d g) in
                    subst IsRight (sym same) end
              ]
            ]
      ]

-- A sweep that took up `ready` ends a console once at most, and only one that is alone in the window
-- of an entry of the sweep and could belong to no client that still runs, nor to one that has
-- ended and is not taken up yet.
pub finish_sweep-IsOwned :
    (consoles : List Console) (live : List Window) (r : Reaper) (ready : List Entry)
    → r.sweep ≡ some ready
    → All (IsOwned live r.ended ready consoles) (finish_sweep (some consoles) live r).1
      × HasNoRepeats (finish_sweep (some consoles) live r).1
unfolding finish_sweep
finish_sweep-IsOwned consoles live r ready e =
    let right = decide-IsRight live r.ended ready consoles ready [] [] (λ f m. m) tt tt in
    let same : (finish_sweep (some consoles) live r).1
        ≡ (decide live r.ended ready consoles ready [] []).1 =
      ground (arith, e) in
    subst (λ pids. All (IsOwned live r.ended ready consoles) pids × HasNoRepeats pids) (sym same)
      right
