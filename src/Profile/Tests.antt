-- ===== src/Profile/Tests.antt =====
-- Runs of kernel/profile.js on concrete inputs.
use tmux_web_panel.Base.{◌≡◌, refl, true, false, none, some, List, [], ◌∷◌, text, text_eq}
use tmux_web_panel.Base.Equality.{text_beq}
use tmux_web_panel.AgentEvents.Event.{Value, null, bool, string, object, field, end}
use tmux_web_panel.Profile.Entries.{
  Entry, ok, Paths, read_profile, normalize_all, normalize_entry, assert_unique_ids,
  assert_unique_from, is_id, is_dotted, resolve_use,
}
use tmux_web_panel.Profile.Patch.{
  Op, insert, change, before, apply_op, resolve_entries, apply_layers, apply_patch, normalize_op,
  insert_at, find_index, change_first, changed, normalize_change,
}
use tmux_web_panel.Profile.Unique.{IsUnique, resolve_entries-IsUnique}
use tmux_web_panel.Profile.Changes.{lookup, map_option}
use tmux_web_panel.Profile.Latest.{
  said_last, told_config, told_disabled, told_use, all_ops, apply_layers-latest,
}

abbrev os : Paths
os = record {
  is_absolute = λ t. false;
  resolve_from = λ file u. u;
  to_href = λ t. t;
  builtin_path = λ root id. id;
  exists = λ t. true;
}

abbrev http : Entry
http = record {
  id = text "http";
  use_name = text "http";
  module_url = text "http";
  config = null;
  disabled = false;
}

abbrev auth : Entry
auth = record http { id = text "auth" }

abbrev plugin : Value
plugin =
    object
      (field (text "id") (string (text "http")) (field (text "use") (string (text "http")) end))

abbrev patch : List Op
patch = insert auth (before (text "http")) ∷ change (text "http") none (some true) none ∷ []

abbrev patched : List Entry
patched = auth ∷ record http { disabled = true } ∷ []

resolve_entries_run : resolve_entries os [] [] (plugin ∷ []) (patch ∷ []) ≡ ok patched
unfolding resolve_entries read_profile normalize_all normalize_entry assert_unique_ids
    assert_unique_from apply_layers apply_patch apply_op insert_at find_index change_first changed
    is_id is_dotted resolve_use text_beq
resolve_entries_run = refl

resolve_entries-IsUnique_example : IsUnique patched
resolve_entries-IsUnique_example =
    resolve_entries-IsUnique os [] [] (plugin ∷ []) (patch ∷ []) patched resolve_entries_run

-- A second layer, which sets the configuration that the first one has left.
abbrev later_patch : List Op
later_patch = change (text "http") (some (string (text "port"))) none none ∷ []

abbrev configured : List Entry
configured = auth ∷ record http { disabled = true; config = string (text "port") } ∷ []

layers_run : apply_layers (patch ∷ later_patch ∷ []) (http ∷ []) ≡ ok configured
unfolding apply_layers apply_patch apply_op insert_at find_index change_first changed text_beq
layers_run = refl

apply_layers-latest_example :
    (map_option (λ e. e.config) (lookup (text "http") configured)
      ≡ said_last told_config
          (text "http")
          (all_ops (patch ∷ later_patch ∷ []))
          (map_option (λ e. e.config) (lookup (text "http") (http ∷ []))))
    × (map_option (λ e. e.disabled) (lookup (text "http") configured)
        ≡ said_last told_disabled
            (text "http")
            (all_ops (patch ∷ later_patch ∷ []))
            (map_option (λ e. e.disabled) (lookup (text "http") (http ∷ []))))
    × (map_option (λ e. (e.use_name, e.module_url)) (lookup (text "http") configured)
        ≡ said_last told_use
            (text "http")
            (all_ops (patch ∷ later_patch ∷ []))
            (map_option (λ e. (e.use_name, e.module_url)) (lookup (text "http") (http ∷ []))))
apply_layers-latest_example =
    apply_layers-latest (patch ∷ later_patch ∷ []) (http ∷ []) configured (text "http") layers_run

-- A patch that disables a plugin, as it is read from its document.
normalize_op_run :
    normalize_op os [] []
      (object (field (text "id") (string (text "http")) (field (text "disabled") (bool true) end)))
    ≡ ok (change (text "http") none (some true) none)
unfolding normalize_op normalize_change text_beq
normalize_op_run = refl
