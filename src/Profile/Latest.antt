-- ===== src/Profile/Latest.antt =====
-- What the patches of kernel/profile.js leave of a plugin's settings.
use tmux_web_panel.Base.{
  ℕ, zero, suc, ◌≡◌, refl, ap, ◌∙◌, sym, Bool, false, Option, none, some, List, [], ◌∷◌, ◌++◌, Text,
  text_eq, ◌==◌, arith, if◌then◌else◌, Option-cases, inl, inr,
}
use tmux_web_panel.Base.Equality.{text_beq_iff}
use tmux_web_panel.AgentEvents.Event.{Value}
use tmux_web_panel.Profile.Entries.{Entry, ok, has_id}
use tmux_web_panel.Profile.Patch.{
  Anchor, Op, insert, change, insert_at, changed, apply_op, apply_patch, apply_layers,
}
use tmux_web_panel.Profile.Unique.{apply_op-insert, ok_then}
use tmux_web_panel.Profile.Changes.{lookup, map_option, apply_op-change}

-- The plugin that an operation is about.
abbrev pub subject : Op → Text
subject (insert x anchor) = x.id
subject (change id config disabled use_name) = id

-- What an operation says of a setting, if it says anything.
abbrev pub told_config : Op → Option Value
told_config (insert x anchor) = some x.config
told_config (change id config disabled use_name) = config

abbrev pub told_disabled : Op → Option Bool
told_disabled (insert x anchor) = some x.disabled
told_disabled (change id config disabled use_name) = disabled

-- The name of the plugin's code, and the module that it comes to.
abbrev pub told_use : Op → Option (Text × Text)
told_use (insert x anchor) = some (x.use_name, x.module_url)
told_use (change id config disabled use_name) = use_name

abbrev pub newest {ℓ} : {A : Type ℓ} → Option A → Option A → Option A
newest none old = old
newest (some v) old = some v

-- What is said last of a plugin's setting, by the operations in their order or else before them.
abbrev pub said_last {ℓ} : {A : Type ℓ} → (Op → Option A) → Text → List Op → Option A → Option A
said_last told j [] old = old
said_last told j (op ∷ ops) old =
    said_last told j ops (if subject op == j then newest (told op) old else old)

abbrev pub all_ops : List (List Op) → List Op
all_ops [] = []
all_ops (ops ∷ layers) = ops ++ all_ops layers

lookup-insert_at :
    (j : Text) (i : ℕ) (x : Entry) (es : List Entry)
    → has_id x.id es ≡ false
    → lookup j (insert_at i x es) ≡ (if x.id == j then some x else lookup j es)
unfolding insert_at
lookup-insert_at j zero x es h = refl
lookup-insert_at j (suc i) x [] h = refl
lookup-insert_at j (suc i) x (e ∷ es) h = ground (
  arith,
  lookup-insert_at j i x es,
  text_beq_iff e.id j,
  text_beq_iff x.id j,
  text_beq_iff e.id x.id,
)

lookup-has_id : (j : Text) (es : List Entry) → lookup j es ≡ none → has_id j es ≡ false
lookup-has_id j [] h = refl
lookup-has_id j (e ∷ es) h = ground (arith, lookup-has_id j es)

change-has_id :
    (id : Text) (c : Option Value) (d : Option Bool) (u : Option (Text × Text))
    (es next : List Entry)
    → apply_op (change id c d u) es ≡ ok next
    → (e : Entry) × (lookup id es ≡ some e)
unfolding apply_op
change-has_id id c d u es next h = elim (Option-cases (lookup id es)) [
  | inl missing ↦ absurd (ground (arith, lookup-has_id id es missing, h))
  | inr found ↦ found
]

said_last-append {ℓ} :
    {A : Type ℓ} (told : Op → Option A) (j : Text) (xs ys : List Op) (old : Option A)
    → said_last told j (xs ++ ys) old ≡ said_last told j ys (said_last told j xs old)
said_last-append told j [] ys old = refl
said_last-append told j (x ∷ xs) ys old =
    said_last-append told j xs ys (if subject x == j then newest (told x) old else old)

-- A setting of an entry, with what the operations say of it.
module _ {ℓ} {A : Type ℓ} (setting : Entry → A) (told : Op → Option A)
    (inserts : (x : Entry) (anchor : Anchor) → told (insert x anchor) ≡ some (setting x))
    (changes : (id : Text) (c : Option Value) (d : Option Bool) (u : Option (Text × Text))
        (e : Entry)
      → some (setting (changed c d u e)) ≡ newest (told (change id c d u)) (some (setting e)))
    (j : Text) where
  apply_op-newest :
      (op : Op) (es next : List Entry)
      → apply_op op es ≡ ok next
      → map_option setting (lookup j next) ≡ (
          if subject op == j
          then newest (told op) (map_option setting (lookup j es))
          else map_option setting (lookup j es))
  apply_op-newest (insert x anchor) es next h =
      let (i, n, p, e) = apply_op-insert x anchor es next h in
      ground (arith, e, lookup-insert_at j i x es n, inserts x anchor)
  apply_op-newest (change id c d u) es next h =
      let (e, found) = change-has_id id c d u es next h in
      ground (
        arith,
        (apply_op-change id c d u es next h).1 j,
        found,
        text_beq_iff id j,
        changes id c d u e,
      )

  apply_patch-said_last :
      (ops : List Op) (es next : List Entry)
      → apply_patch ops es ≡ ok next
      → map_option setting (lookup j next) ≡ said_last told j ops (map_option setting (lookup j es))
  unfolding apply_patch
  apply_patch-said_last [] es next h =
      ap (λ xs. map_option setting (lookup j xs)) (ground (arith, h))
  apply_patch-said_last (op ∷ ops) es next h =
      let (mid, p, q) = ok_then (apply_op op es) (apply_patch ops) next h in
      apply_patch-said_last ops mid next q ∙ ap (said_last told j ops) (apply_op-newest op es mid p)

  apply_layers-said_last :
      (layers : List (List Op)) (es next : List Entry)
      → apply_layers layers es ≡ ok next
      → map_option setting (lookup j next)
        ≡ said_last told j (all_ops layers) (map_option setting (lookup j es))
  unfolding apply_layers
  apply_layers-said_last [] es next h =
      ap (λ xs. map_option setting (lookup j xs)) (ground (arith, h))
  apply_layers-said_last (ops ∷ layers) es next h =
      let (mid, p, q) = ok_then (apply_patch ops es) (apply_layers layers) next h in
      apply_layers-said_last layers mid next q
      ∙ ap (said_last told j (all_ops layers)) (apply_patch-said_last ops es mid p)
      ∙ sym (said_last-append told j ops (all_ops layers) (map_option setting (lookup j es)))

-- Where the patches of all layers are accepted, each setting of each plugin is what was said of it
-- last, by an insertion or a change of that plugin in any layer, or what it was before, if no operation
-- says anything of it. A plugin that is in neither place has no settings. This holds of the
-- configuration, of whether it is disabled, and of its code, each for itself.
pub apply_layers-latest :
    (layers : List (List Op)) (es next : List Entry) (j : Text)
    → apply_layers layers es ≡ ok next
    → (map_option (λ e. e.config) (lookup j next)
        ≡ said_last told_config j (all_ops layers) (map_option (λ e. e.config) (lookup j es)))
      × (map_option (λ e. e.disabled) (lookup j next)
          ≡ said_last told_disabled j (all_ops layers) (map_option (λ e. e.disabled) (lookup j es)))
      × (map_option (λ e. (e.use_name, e.module_url)) (lookup j next)
          ≡ said_last told_use j
              (all_ops layers)
              (map_option (λ e. (e.use_name, e.module_url)) (lookup j es)))
unfolding changed
apply_layers-latest layers es next j h = (
  apply_layers-said_last (λ e. e.config) told_config (λ x a. refl) (λ id c d u e. config c d u e) j
      layers es next h,
  apply_layers-said_last (λ e. e.disabled) told_disabled (λ x a. refl)
      (λ id c d u e. disabled c d u e) j layers es next h,
  apply_layers-said_last (λ e. (e.use_name, e.module_url)) told_use (λ x a. refl)
      (λ id c d u e. code c d u e) j layers es next h,
)
  where
    config :
        (c : Option Value) (d : Option Bool) (u : Option (Text × Text)) (e : Entry)
        → some (changed c d u e).config ≡ newest c (some e.config)
    config none d u e = refl
    config (some v) d u e = refl

    disabled :
        (c : Option Value) (d : Option Bool) (u : Option (Text × Text)) (e : Entry)
        → some (changed c d u e).disabled ≡ newest d (some e.disabled)
    disabled c none u e = refl
    disabled c (some b) u e = refl

    code :
        (c : Option Value) (d : Option Bool) (u : Option (Text × Text)) (e : Entry)
        → some ((changed c d u e).use_name, (changed c d u e).module_url)
          ≡ newest u (some (e.use_name, e.module_url))
    code c d none e = refl
    code c d (some p) e = refl
