-- ===== src/Profile/Patch.antt =====
-- The operations of a patch in kernel/profile.js, and how patches are applied.
use tmux_web_panel.Base.{
  ℕ, zero, suc, ◌+◌, Bool, Option, none, some, List, [], ◌∷◌, Text, text, text_eq, nat_eq, ◌==◌,
  if◌then◌else◌, length,
}
use tmux_web_panel.AgentEvents.Event.{Value, Fields, null, string, object}
use tmux_web_panel.Profile.Entries.{
  Entry, Paths, Result, already_exists, bad_use, both_anchors, disabled_of, fail, field_of, has_id,
  known_keys, needs_id, no_anchor, no_target, normalize_entry, not_a_mapping, ok, or_old,
  read_profile, resolve_use, then_do, unknown_key, use_of,
}

pub data Anchor : Type 0 where
  at_end nowhere : Anchor
  after before : Text → Anchor

-- A change holds the members that the operation names.
pub data Op : Type 0 where
  insert : Entry → Anchor → Op
  change :
      (id : Text) (config : Option Value) (disabled : Option Bool) (use_name : Option (Text × Text))
      → Op

-- `op.after` and `op.before` with the reading that applyPatch gives them: a null `after` is no
-- anchor at all, and what is no text is found nowhere.
abbrev anchor_of : Option Value → Option Value → Result Anchor
anchor_of none none = ok at_end
anchor_of (some null) none = ok at_end
anchor_of (some (string t)) none = ok (after t)
anchor_of (some v) none = ok nowhere
anchor_of none (some (string t)) = ok (before t)
anchor_of none (some v) = ok nowhere
anchor_of (some v) (some w) = fail both_anchors

abbrev text_of : Option Value → Result Text
text_of (some (string t)) = ok t
text_of _ = fail needs_id

abbrev new_use : Paths → (file root : Text) → Option Value → Result (Option (Text × Text))
new_use os file root none = ok none
new_use os file root (some v) =
    then_do (use_of bad_use (some v)) (λ u. ok (some (u, resolve_use os u file root)))

unfoldable pub normalize_insert : Paths → (file root : Text) → Fields → Value → Result Op
unfolding normalize_entry
normalize_insert os file root fs v =
    if known_keys (text "insert" ∷ text "after" ∷ text "before" ∷ []) fs
    then then_do (anchor_of (field_of (text "after") fs) (field_of (text "before") fs))
        (λ anchor. then_do (normalize_entry os file root v) (λ x. ok (insert x anchor)))
    else fail unknown_key

unfoldable pub normalize_change : Paths → (file root : Text) → Fields → Result Op
unfolding resolve_use
normalize_change os file root fs =
    if known_keys (text "id" ∷ text "config" ∷ text "use" ∷ text "disabled" ∷ []) fs
    then then_do (text_of (field_of (text "id") fs)) (λ id.
      then_do (disabled_of (field_of (text "disabled") fs)) (λ d.
        then_do (new_use os file root (field_of (text "use") fs))
          (λ u. ok (change id (field_of (text "config") fs) d u))))
    else fail unknown_key

unfoldable pub normalize_op : Paths → (file root : Text) → Value → Result Op
unfolding normalize_insert normalize_change
normalize_op os file root (object fs) = elim (field_of (text "insert") fs) [
  | some v ↦ normalize_insert os file root fs v
  | none ↦ normalize_change os file root fs
]
normalize_op os file root _ = fail not_a_mapping

-- findIndex.
unfoldable pub find_index : Text → List Entry → Option ℕ
find_index id [] = none
find_index id (e ∷ es) =
    let rest = find_index id es in
    if e.id == id then some 0 else (elim rest [ none ↦ none | some i ↦ some (suc i) ])

-- `[...next.slice(0, index), entry, ...next.slice(index)]`.
unfoldable pub insert_at : ℕ → Entry → List Entry → List Entry
insert_at zero x es = x ∷ es
insert_at (suc i) x [] = x ∷ []
insert_at (suc i) x (e ∷ es) = e ∷ insert_at i x es

abbrev pub place_of : Anchor → List Entry → Option ℕ
place_of at_end es = some (length es)
place_of nowhere es = none
place_of (after id) es = elim (find_index id es) [ none ↦ none | some i ↦ some (i + 1) ]
place_of (before id) es = find_index id es

unfoldable pub changed : Option Value → Option Bool → Option (Text × Text) → Entry → Entry
changed config disabled u e = record e {
  config = or_old config e.config;
  disabled = or_old disabled e.disabled;
  use_name = (elim u [ none ↦ e.use_name | some p ↦ p.0 ]);
  module_url = (elim u [ none ↦ e.module_url | some p ↦ p.1 ]);
}

-- The first entry with the id, which `find` returns and the loop writes to.
unfoldable pub change_first : Text → (Entry → Entry) → List Entry → List Entry
change_first id f [] = []
change_first id f (e ∷ es) = if e.id == id then f e ∷ es else e ∷ change_first id f es

unfoldable pub apply_op : Op → List Entry → Result (List Entry)
unfolding find_index insert_at change_first changed
apply_op (insert x anchor) es =
    if has_id x.id es
    then fail already_exists
    else (elim (place_of anchor es) [ none ↦ fail no_anchor | some i ↦ ok (insert_at i x es) ])
apply_op (change id config disabled u) es =
    if has_id id es then ok (change_first id (changed config disabled u) es) else fail no_target

unfoldable pub apply_patch : List Op → List Entry → Result (List Entry)
unfolding apply_op
apply_patch [] es = ok es
apply_patch (op ∷ ops) es = then_do (apply_op op es) (apply_patch ops)

-- The layers of resolveEntries over the profile.
unfoldable pub apply_layers : List (List Op) → List Entry → Result (List Entry)
unfolding apply_patch
apply_layers [] es = ok es
apply_layers (ops ∷ layers) es = then_do (apply_patch ops es) (apply_layers layers)

unfoldable pub resolve_entries :
    Paths → (file root : Text) → List Value → List (List Op) → Result (List Entry)
unfolding read_profile apply_layers
resolve_entries os file root plugins layers =
    then_do (read_profile os file root plugins) (apply_layers layers)
