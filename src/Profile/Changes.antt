-- ===== src/Profile/Changes.antt =====
-- What one operation of a patch in kernel/profile.js does to the list of plugins.
use tmux_web_panel.Base.{
  ℕ, suc, ◌≡◌, refl, ap, Bool, true, false, Option, none, some, List, [], ◌∷◌, ◌++◌, map, Text,
  text_eq, ◌==◌, arith, if◌then◌else◌, find, length, subst, sym, append-nil, Option-cases, inl, inr,
  Bool-cases,
}
use tmux_web_panel.Base.Equality.{text_beq_iff}
use tmux_web_panel.AgentEvents.Event.{Value}
use tmux_web_panel.Profile.Entries.{Entry, ok, has_id}
use tmux_web_panel.Profile.Patch.{
  Anchor, at_end, nowhere, after, before, insert, change, find_index, insert_at, place_of, changed,
  change_first, apply_op,
}
use tmux_web_panel.Profile.Unique.{apply_op-insert}

abbrev pub lookup : Text → List Entry → Option Entry
lookup id es = find (λ e. e.id == id) es

abbrev pub map_option {ℓ κ} : {A : Type ℓ} {B : Type κ} → (A → B) → Option A → Option B
map_option f none = none
map_option f (some a) = some (f a)

change_first-lookup :
    (j id : Text) (c : Option Value) (d : Option Bool) (u : Option (Text × Text)) (es : List Entry)
    → lookup j (change_first id (changed c d u) es)
      ≡ (if id == j then map_option (changed c d u) (lookup j es) else lookup j es)
unfolding change_first changed
change_first-lookup j id c d u [] = ground arith
change_first-lookup j id c d u (e ∷ es) = ground (
  arith,
  change_first-lookup j id c d u es,
  text_beq_iff e.id id,
  text_beq_iff id j,
  text_beq_iff e.id j,
)

change_first-ids :
    (id : Text) (c : Option Value) (d : Option Bool) (u : Option (Text × Text)) (es : List Entry)
    → map (λ e. e.id) (change_first id (changed c d u) es) ≡ map (λ e. e.id) es
unfolding change_first changed
change_first-ids id c d u [] = refl
change_first-ids id c d u (e ∷ es) = ground (arith, change_first-ids id c d u es)

-- A change that is accepted keeps the ids and their order, changes the entry that its id names by
-- the members it holds, and leaves what every other id names as it was.
pub apply_op-change :
    (id : Text) (c : Option Value) (d : Option Bool) (u : Option (Text × Text))
    (es next : List Entry)
    → apply_op (change id c d u) es ≡ ok next
    → (map (λ e. e.id) next ≡ map (λ e. e.id) es)
      × ((j : Text)
          → lookup j next
            ≡ (if id == j then map_option (changed c d u) (lookup j es) else lookup j es))
unfolding apply_op
apply_op-change id c d u es next h =
    let e : next ≡ change_first id (changed c d u) es = ground arith in
    subst
      (λ xs.
        (map (λ x. x.id) xs ≡ map (λ x. x.id) es)
        × ((j : Text)
            → lookup j xs
              ≡ (if id == j then map_option (changed c d u) (lookup j es) else lookup j es)))
      (sym e) (change_first-ids id c d u es, λ j. change_first-lookup j id c d u es)

-- The neighbour that an anchor asks for.
abbrev pub IsAnchored : Anchor → List Entry → List Entry → Type 0
IsAnchored at_end pre post = post ≡ []
IsAnchored nowhere pre post = true ≡ false
IsAnchored (after t) pre post =
    (e : Entry) × (rest : List Entry) × (pre ≡ rest ++ e ∷ []) × (e.id ≡ t)
IsAnchored (before t) pre post = (e : Entry) × (rest : List Entry) × (post ≡ e ∷ rest) × (e.id ≡ t)

-- `next` is `es` with `x` put in, beside its anchor.
pub record IsInserted (x : Entry) (anchor : Anchor) (es next : List Entry) : Type 0 where
  pub pre : List Entry
  pub post : List Entry
  pub old : es ≡ pre ++ post
  pub new : next ≡ pre ++ x ∷ post
  pub anchored : IsAnchored anchor pre post

insert_at_end : (x : Entry) (es : List Entry) → insert_at (length es) x es ≡ es ++ x ∷ []
unfolding insert_at
insert_at_end x [] = refl
insert_at_end x (e ∷ es) = ap (◌∷◌ e) (insert_at_end x es)

insert_at_before :
    (x : Entry) (t : Text) (i : ℕ) (es : List Entry)
    → find_index t es ≡ some i
    → IsInserted x (before t) es (insert_at i x es)
unfolding find_index insert_at
insert_at_before x t i [] h = ground arith
insert_at_before x t i (e ∷ es) h = elim (Bool-cases (e.id == t)) [
  | inl same ↦
      let k : ◌≡◌ {A = ℕ} 0 i = ground arith in
      subst (λ i. IsInserted x (before t) (e ∷ es) (insert_at i x (e ∷ es))) k
        record {
          pre = [];
          post = e ∷ es;
          old = refl;
          new = refl;
          anchored = (e, es, refl, (text_beq_iff e.id t).0 same);
        }
  | inr other ↦ elim (Option-cases (find_index t es)) [
    | inl missing ↦ absurd (ground arith)
    | inr (j, p) ↦
        let k : suc j ≡ i = ground arith in
        let r = insert_at_before x t j es p in
        subst (λ i. IsInserted x (before t) (e ∷ es) (insert_at i x (e ∷ es))) k
          record {
            pre = e ∷ r.pre;
            post = r.post;
            old = ap (◌∷◌ e) r.old;
            new = ap (◌∷◌ e) r.new;
            anchored = r.anchored;
          }
  ]
]

insert_at_after :
    (x : Entry) (t : Text) (i : ℕ) (es : List Entry)
    → find_index t es ≡ some i
    → IsInserted x (after t) es (insert_at (suc i) x es)
unfolding find_index insert_at
insert_at_after x t i [] h = ground arith
insert_at_after x t i (e ∷ es) h = elim (Bool-cases (e.id == t)) [
  | inl same ↦
      let k : ◌≡◌ {A = ℕ} 0 i = ground arith in
      subst (λ i. IsInserted x (after t) (e ∷ es) (insert_at (suc i) x (e ∷ es))) k
        record {
          pre = e ∷ [];
          post = es;
          old = refl;
          new = refl;
          anchored = (e, [], refl, (text_beq_iff e.id t).0 same);
        }
  | inr other ↦ elim (Option-cases (find_index t es)) [
    | inl missing ↦ absurd (ground arith)
    | inr (j, p) ↦
        let k : suc j ≡ i = ground arith in
        let r = insert_at_after x t j es p in
        subst (λ i. IsInserted x (after t) (e ∷ es) (insert_at (suc i) x (e ∷ es))) k
          record {
            pre = e ∷ r.pre;
            post = r.post;
            old = ap (◌∷◌ e) r.old;
            new = ap (◌∷◌ e) r.new;
            anchored = (r.anchored.0, e ∷ r.anchored.1, ap (◌∷◌ e) r.anchored.2, r.anchored.3);
          }
  ]
]

insert_at-IsInserted :
    (x : Entry) (anchor : Anchor) (i : ℕ) (es : List Entry)
    → place_of anchor es ≡ some i
    → IsInserted x anchor es (insert_at i x es)
insert_at-IsInserted x at_end i es h =
    let k : length es ≡ i = ground arith in
    subst (λ i. IsInserted x at_end es (insert_at i x es)) k
      record {
        pre = es;
        post = [];
        old = sym (append-nil es);
        new = insert_at_end x es;
        anchored = refl;
      }
insert_at-IsInserted x nowhere i es h = absurd (ground arith)
insert_at-IsInserted x (after t) i es h = elim (Option-cases (find_index t es)) [
  | inl missing ↦ absurd (ground arith)
  | inr (j, p) ↦
      let k : suc j ≡ i = ground arith in
      subst (λ i. IsInserted x (after t) es (insert_at i x es)) k (insert_at_after x t j es p)
]
insert_at-IsInserted x (before t) i es h = insert_at_before x t i es h

-- An insertion that is accepted has an id that was free, keeps the other entries and their order,
-- and stands where its anchor says: at the end, or directly after or before an entry of that id.
pub apply_op-IsInserted :
    (x : Entry) (anchor : Anchor) (es next : List Entry)
    → apply_op (insert x anchor) es ≡ ok next
    → (has_id x.id es ≡ false) × IsInserted x anchor es next
apply_op-IsInserted x anchor es next h =
    let (i, n, p, e) = apply_op-insert x anchor es next h in
    (n, subst (IsInserted x anchor es) (sym e) (insert_at-IsInserted x anchor i es p))
