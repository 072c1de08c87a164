-- ===== src/Pins/Wanted.antt =====
-- The pins of lib/pins.js as the set that its calls describe, whatever the order of its list.
use tmux_web_panel.Base.{
  ◌≡◌, refl, ap, ◌∙◌, inl, inr, Bool, true, false, not, ◌&&◌, ◌||◌, Option, List, [], ◌∷◌, ◌++◌,
  Text, text_eq, ◌==◌, arith, if◌then◌else◌, every, keep, or_else,
}
use tmux_web_panel.Base.Tests.{Bool-cases}
use tmux_web_panel.Base.Equality.{text_beq_iff}
use tmux_web_panel.Pins.{Store, is_pinned, load, has, write, set, sweep}

pub data Call : Type 0 where
  sets : (id : Text) (pinned : Bool) → Call
  sweeps : (live : List Text) → Call

-- A call whose write is taken.
unfoldable pub step : Call → Store → Store
unfolding set sweep
step (sets id pinned) s = set true id pinned s
step (sweeps live) s = sweep true live s

unfoldable pub run : List Call → Store → Store
unfolding step
run [] s = s
run (c ∷ cs) s = run cs (step c s)

-- A process that starts with a file.
unfoldable pub restart : Option (List Text) → Store
unfolding load
restart disk = load (record { pins = []; loaded = false; disk = disk })

-- What the calls make of a set of ids, with no list in sight: the last word on each id.
unfoldable pub wanted : List Call → (Text → Bool) → Text → Bool
wanted [] p id = p id
wanted (sets k pinned ∷ cs) p id = wanted cs (λ i. if i == k then pinned else p i) id
wanted (sweeps live ∷ cs) p id = wanted cs (λ i. p i && is_pinned i live) id

wanted-ext :
    (cs : List Call) (p q : Text → Bool) (id : Text)
    → ((i : Text) → p i ≡ q i)
    → wanted cs p id ≡ wanted cs q id
unfolding wanted
wanted-ext [] p q id h = h id
wanted-ext (sets k pinned ∷ cs) p q id h =
    wanted-ext cs (λ i. if i == k then pinned else p i) (λ i. if i == k then pinned else q i) id
      (λ i. ap (λ b. if i == k then pinned else b) (h i))
wanted-ext (sweeps live ∷ cs) p q id h =
    wanted-ext cs (λ i. p i && is_pinned i live) (λ i. q i && is_pinned i live) id
      (λ i. ap (λ b. b && is_pinned i live) (h i))

is_pinned-append :
    (i k : Text) (ps : List Text) → is_pinned i (ps ++ k ∷ []) ≡ (is_pinned i ps || (k == i))
is_pinned-append i k [] = ground arith
is_pinned-append i k (p ∷ ps) = ground (arith, is_pinned-append i k ps)

is_pinned-without :
    (i k : Text) (ps : List Text)
    → is_pinned i (keep (λ p. not (p == k)) ps) ≡ (if i == k then false else is_pinned i ps)
is_pinned-without i k [] = ground arith
is_pinned-without i k (p ∷ ps) =
    ground (arith, is_pinned-without i k ps, text_beq_iff i k, text_beq_iff p k, text_beq_iff p i)

is_pinned-live :
    (i : Text) (live ps : List Text)
    → is_pinned i (keep (λ p. is_pinned p live) ps) ≡ (is_pinned i ps && is_pinned i live)
is_pinned-live i live [] = refl
is_pinned-live i live (p ∷ ps) = elim (Bool-cases (p == i)) [
  | inl e ↦
      let same : is_pinned p live ≡ is_pinned i live =
        ap (λ x. is_pinned x live) ((text_beq_iff p i).0 e) in
      ground (arith, is_pinned-live i live ps, same, e)
  | inr e ↦ ground (arith, is_pinned-live i live ps, e)
]

every-keep :
    (live ps : List Text)
    → every (λ p. is_pinned p live) ps ≡ true
    → keep (λ p. is_pinned p live) ps ≡ ps
every-keep live [] h = refl
every-keep live (p ∷ ps) h = ground (arith, h, every-keep live ps)

has-step :
    (c : Call) (s : Store) (i : Text)
    → is_pinned i (step c s).pins ≡ wanted (c ∷ []) (λ j. is_pinned j s.pins) i
unfolding step set sweep write wanted
has-step (sets k true) s i =
    ground (arith, is_pinned-append i k s.pins, text_beq_iff i k, text_beq_iff k i)
has-step (sets k false) s i = is_pinned-without i k s.pins
has-step (sweeps live) s i = ground (arith, is_pinned-live i live s.pins)

has-run :
    (cs : List Call) (s : Store) (i : Text)
    → is_pinned i (run cs s).pins ≡ wanted cs (λ j. is_pinned j s.pins) i
unfolding run wanted
has-run [] s i = refl
has-run (sets k pinned ∷ cs) s i =
    has-run cs (step (sets k pinned) s) i
    ∙ wanted-ext cs (λ j. is_pinned j (step (sets k pinned) s).pins)
        (λ j. if j == k then pinned else is_pinned j s.pins) i (λ j. has-step (sets k pinned) s j)
has-run (sweeps live ∷ cs) s i =
    has-run cs (step (sweeps live) s) i
    ∙ wanted-ext cs (λ j. is_pinned j (step (sweeps live) s).pins)
        (λ j. is_pinned j s.pins && is_pinned j live) i (λ j. has-step (sweeps live) s j)

-- The file holds the pins, where no file stands for none.
abbrev IsInStep : Store → Type 0
IsInStep s = or_else s.disk [] ≡ s.pins

step-IsInStep : (c : Call) (s : Store) → IsInStep s → IsInStep (step c s)
unfolding step set sweep write
step-IsInStep (sets k pinned) s h = refl
step-IsInStep (sweeps live) s h = elim (Bool-cases (every (λ p. is_pinned p live) s.pins)) [
  | inl e ↦ ground (arith, e, h, every-keep live s.pins)
  | inr e ↦ ground (arith, e)
]

run-IsInStep : (cs : List Call) (s : Store) → IsInStep s → IsInStep (run cs s)
unfolding run
run-IsInStep [] s h = h
run-IsInStep (c ∷ cs) s h = run-IsInStep cs (step c s) (step-IsInStep c s h)

-- A process that is started with a file, called in any way with every write taken, and started
-- again, has exactly the pins that the calls leave of those in the first file.
pub has-restart :
    (disk : Option (List Text)) (cs : List Call) (id : Text)
    → has id (restart (run cs (restart disk)).disk)
      ≡ wanted cs (λ i. is_pinned i (or_else disk [])) id
unfolding has restart load
has-restart disk cs id =
    ap (is_pinned id) (run-IsInStep cs (restart disk) refl) ∙ has-run cs (restart disk) id
