-- ===== src/Profile/Unique.antt =====
-- No two plugins of an application of kernel/profile.js have one id.
use tmux_web_panel.Base.{
  ℕ, zero, suc, ◌+◌, ◌≤◌, ◌≡◌, refl, ap, Bool, true, false, Option, some, List, [], ◌∷◌, Text,
  text_eq, ◌==◌, arith, if◌then◌else◌, any, count_if, subst, Option-cases, Bool-cases, inl, inr,
  ◌∙◌, sym,
}
use tmux_web_panel.Base.Equality.{text_beq_iff}
use tmux_web_panel.AgentEvents.Event.{Value}
use tmux_web_panel.Profile.Entries.{
  Entry, Result, ok, fail, then_do, Paths, has_id, assert_unique_from, assert_unique_ids,
  normalize_all, read_profile,
}
use tmux_web_panel.Profile.Patch.{
  Anchor, Op, insert, change, insert_at, changed, change_first, apply_op, apply_patch, apply_layers,
  resolve_entries, place_of,
}

abbrev pub times : Text → List Entry → ℕ
times id es = count_if (λ e. e.id == id) es

abbrev pub IsUnique : List Entry → Type 0
IsUnique es = (id : Text) → times id es ≤ 1

abbrev was_seen : Text → List Text → Bool
was_seen id seen = any (λ t. t == id) seen

seen_same : (j id : Text) (seen : List Text) → (j == id) ≡ true → was_seen j seen ≡ was_seen id seen
seen_same j id seen h = ap (λ x. was_seen x seen) ((text_beq_iff j id).0 h)

assert_unique_from-times :
    (id : Text) (seen : List Text) (es : List Entry)
    → assert_unique_from seen es ≡ ok tt
    → times id es + (if was_seen id seen then 1 else 0) ≤ 1
unfolding assert_unique_from
assert_unique_from-times id seen [] h = ground arith
assert_unique_from-times id seen (e ∷ es) h =
    ground (arith, assert_unique_from-times id (e.id ∷ seen) es, seen_same e.id id seen)

assert_unique_ids-IsUnique : (es : List Entry) → assert_unique_ids es ≡ ok tt → IsUnique es
unfolding assert_unique_ids
assert_unique_ids-IsUnique es h id = omega (arith, assert_unique_from-times id [] es h)

times-insert_at :
    (id : Text) (i : ℕ) (x : Entry) (es : List Entry)
    → times id (insert_at i x es) ≡ (if x.id == id then 1 else 0) + times id es
unfolding insert_at
times-insert_at id zero x es = ground arith
times-insert_at id (suc i) x [] = ground arith
times-insert_at id (suc i) x (e ∷ es) = ground (arith, times-insert_at id i x es)

times-absent : (id : Text) (es : List Entry) → has_id id es ≡ false → times id es ≡ 0
times-absent id [] h = refl
times-absent id (e ∷ es) h = ground (arith, times-absent id es)

times-change_first :
    (j id : Text) (c : Option Value) (d : Option Bool) (u : Option (Text × Text)) (es : List Entry)
    → times j (change_first id (changed c d u) es) ≡ times j es
unfolding change_first changed
times-change_first j id c d u [] = refl
times-change_first j id c d u (e ∷ es) = ground (arith, times-change_first j id c d u es)

insert-IsUnique :
    (i : ℕ) (x : Entry) (es : List Entry)
    → has_id x.id es ≡ false
    → IsUnique es
    → IsUnique (insert_at i x es)
insert-IsUnique i x es h k id = elim (Bool-cases (x.id == id)) [
  | inl same ↦ ground (
    arith,
    times-insert_at id i x es,
    times-absent id es (ap (λ t. has_id t es) (sym ((text_beq_iff x.id id).0 same)) ∙ h),
  )
  | inr other ↦ ground (arith, times-insert_at id i x es, k id)
]

-- An insertion that succeeds has a new id and a place.
pub apply_op-insert :
    (x : Entry) (anchor : Anchor) (es next : List Entry)
    → apply_op (insert x anchor) es ≡ ok next
    → (i : ℕ) × (has_id x.id es ≡ false) × (place_of anchor es ≡ some i) × (next ≡ insert_at i x es)
unfolding apply_op
apply_op-insert x anchor es next h = elim (Option-cases (place_of anchor es)) [
  | inl none_there ↦ absurd (ground arith)
  | inr (i, e) ↦ (i, ground arith, e, ground arith)
]

apply_op-IsUnique :
    (op : Op) (es next : List Entry) → apply_op op es ≡ ok next → IsUnique es → IsUnique next
unfolding apply_op
apply_op-IsUnique (insert x anchor) es next h k =
    let (i, n, p, e) = apply_op-insert x anchor es next h in
    subst IsUnique (sym e) (insert-IsUnique i x es n k)
apply_op-IsUnique (change j c d u) es next h k =
    λ id. ground (arith, times-change_first id j c d u es, k id)

pub ok_then {ℓ κ} :
    {A : Type ℓ} {B : Type κ} (r : Result A) (f : A → Result B) (b : B)
    → then_do r f ≡ ok b
    → (a : A) × (r ≡ ok a) × (f a ≡ ok b)
ok_then (ok a) f b h = (a, refl, h)
ok_then (fail e) f b h = ground arith

apply_patch-IsUnique :
    (ops : List Op) (es next : List Entry)
    → apply_patch ops es ≡ ok next
    → IsUnique es
    → IsUnique next
unfolding apply_patch
apply_patch-IsUnique [] es next h k = subst IsUnique (ground arith) k
apply_patch-IsUnique (op ∷ ops) es next h k =
    let (mid, p, q) = ok_then (apply_op op es) (apply_patch ops) next h in
    apply_patch-IsUnique ops mid next q (apply_op-IsUnique op es mid p k)

apply_layers-IsUnique :
    (layers : List (List Op)) (es next : List Entry)
    → apply_layers layers es ≡ ok next
    → IsUnique es
    → IsUnique next
unfolding apply_layers
apply_layers-IsUnique [] es next h k = subst IsUnique (ground arith) k
apply_layers-IsUnique (ops ∷ layers) es next h k =
    let (mid, p, q) = ok_then (apply_patch ops es) (apply_layers layers) next h in
    apply_layers-IsUnique layers mid next q (apply_patch-IsUnique ops es mid p k)

read_profile-IsUnique :
    (os : Paths) (file root : Text) (plugins : List Value) (es : List Entry)
    → read_profile os file root plugins ≡ ok es
    → IsUnique es
unfolding read_profile
read_profile-IsUnique os file root plugins es h =
    let check : List Entry → Result (List Entry) =
      λ xs. then_do (assert_unique_ids xs) (λ _. ok xs) in
    let (xs, p, q) = ok_then (normalize_all os file root plugins) check es h in
    let (u, v, w) = ok_then (assert_unique_ids xs) (λ _. ok xs) es q in
    subst IsUnique (ground (arith, w)) (assert_unique_ids-IsUnique xs v)

-- However an application is put together, from whatever profile and through whatever patches, its
-- plugins have distinct ids: a profile or a patch that would give two the same one is refused.
pub resolve_entries-IsUnique :
    (os : Paths) (file root : Text) (plugins : List Value) (layers : List (List Op))
    (es : List Entry)
    → resolve_entries os file root plugins layers ≡ ok es
    → IsUnique es
unfolding resolve_entries
resolve_entries-IsUnique os file root plugins layers es h =
    let (base, p, q) = ok_then (read_profile os file root plugins) (apply_layers layers) es h in
    apply_layers-IsUnique layers base es q (read_profile-IsUnique os file root plugins base p)
