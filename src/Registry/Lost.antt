-- ===== src/Registry/Lost.antt =====
-- An id that lib/servers/registry.js makes and does not load again.
use tmux_web_panel.Base.{
  ℕ, zero, suc, ◌≡◌, inl, inr, refl, sym, subst, Bool, true, false, ◌||◌, Option, none, some, [],
  ◌∷◌, ◌++◌, Text, text, nat_eq, text_eq, ◌==◌, arith, if◌then◌else◌, length,
}
use tmux_web_panel.Base.Tests.{Bool-cases}
use tmux_web_panel.Base.Int.{ℤ}
use tmux_web_panel.Base.Dict.{Dict, has}
use tmux_web_panel.Base.Texts.{trim, trim_start, trim_end, is_space, decimal}
use tmux_web_panel.AgentEvents.Event.{Value, string}
use tmux_web_panel.Registry.Failure.{ok, field_error}
use tmux_web_panel.Registry.Strings.{clean_text, require_clean_string, id_re, first_then, slugify}
use tmux_web_panel.Registry.Input.{Body}
use tmux_web_panel.Registry.Store.{
  Server, Memory, local_server_id, fresh_id, generate_id, choose_id, create_server, id_of,
}
use tmux_web_panel.Registry.Disk.{disk_entry, load_entry, faulty}
use tmux_web_panel.Registry.Sound.{create_server-Made}

-- The first character is '.' or '_', which slugify lets stand and ID_RE does not.
abbrev pub begins_oddly : Text → Bool
begins_oddly [] = false
begins_oddly (c ∷ t) = c == b'.' || c == b'_'

begins_oddly-append : (s t : Text) → begins_oddly s ≡ true → begins_oddly (s ++ t) ≡ true
begins_oddly-append [] t h = ground (arith, h)
begins_oddly-append (c ∷ s) t h = h

fresh_id-begins_oddly :
    (fuel : ℕ) (base : Text) (servers : Dict Text Server) (n : ℕ) (id made : Text)
    → begins_oddly base ≡ true
    → begins_oddly id ≡ true
    → fresh_id fuel base servers n id ≡ some made
    → begins_oddly made ≡ true
unfolding fresh_id
fresh_id-begins_oddly zero base servers n id made b i h = ground (arith, h)
fresh_id-begins_oddly (suc fuel) base servers n id made b i h =
    elim (Bool-cases (has id servers || id == local_server_id)) [
      | inl e ↦
          fresh_id-begins_oddly fuel base servers (suc n) (base ++ (b'-' ∷ decimal n)) made b
            (begins_oddly-append base (b'-' ∷ decimal n) b) (ground (arith, e, h))
      | inr e ↦
          let same : id ≡ made = ground (arith, e, h) in subst (λ x. begins_oddly x ≡ true) same i
    ]

odd_no_space : (c : ℕ) → (c == b'.' || c == b'_') ≡ true → is_space c ≡ false
unfolding is_space
odd_no_space c h = ground (arith, h)

trim_start-begins_oddly : (t : Text) → begins_oddly t ≡ true → trim_start t ≡ t
unfolding trim_start
trim_start-begins_oddly [] h = refl
trim_start-begins_oddly (c ∷ t) h = let plain = odd_no_space c h in rw plain

trim_end-begins_oddly : (t : Text) → begins_oddly t ≡ true → begins_oddly (trim_end t) ≡ true
unfolding trim_end
trim_end-begins_oddly [] h = h
trim_end-begins_oddly (c ∷ t) h =
    let plain = odd_no_space c h in
    elim (trim_end t)
      as (λ r.
        begins_oddly (elim r [ [] ↦ if is_space c then [] else c ∷ [] | d ∷ u ↦ c ∷ d ∷ u ])
        ≡ true) [ [] ↦ rw (plain, h) | d ∷ u ↦ h ]

trim-begins_oddly : (t : Text) → begins_oddly t ≡ true → begins_oddly (trim t) ≡ true
unfolding trim
trim-begins_oddly t h =
    subst (λ x. begins_oddly (trim_end x) ≡ true) (sym (trim_start-begins_oddly t h))
      (trim_end-begins_oddly t h)

id_re-begins_oddly : (t : Text) → begins_oddly t ≡ true → id_re t ≡ false
unfolding id_re first_then
id_re-begins_oddly [] h = refl
id_re-begins_oddly (c ∷ t) h = ground (arith, h)

require_clean_string-begins_oddly :
    (t : Text)
    → begins_oddly t ≡ true
    → require_clean_string (some (string t)) (text "id") 64 id_re true ≡ field_error (text "id")
unfolding require_clean_string clean_text
require_clean_string-begins_oddly t h =
    let refused = id_re-begins_oddly (trim t) (trim-begins_oddly t h) in ground (arith, refused)

choose_id-begins_oddly :
    (wanted : Option Text) (name : Text) (servers : Dict Text Server) (id : Text)
    → wanted ≡ none
    → choose_id wanted name servers ≡ ok id
    → begins_oddly (slugify name) ≡ true
    → begins_oddly id ≡ true
unfolding choose_id generate_id
choose_id-begins_oddly (some w) name servers id n h odd = ground (arith, n)
choose_id-begins_oddly none name servers id n h odd =
    fresh_id-begins_oddly (suc (suc (length servers))) (slugify name) servers 2 (slugify name) id
      odd odd (ground (arith, h))

no_id_wanted :
    (v : Option Value) (wanted : Option Text)
    → v ≡ none
    → require_clean_string v (text "id") 64 id_re false ≡ ok wanted
    → wanted ≡ none
unfolding require_clean_string
no_id_wanted none wanted n h = ground (arith, h)
no_id_wanted (some v) wanted n h = ground (arith, n)

module _ (is_ipv6 : Text → Bool) (to_integer : Value → Option ℤ)
    (revision now later_revision later : Text) (encrypt : Text → Text → Text)
    (decrypt : Text → Value → Option Text) where
  -- A server that is created with no id of its own, and whose name makes an id that begins with '.' or
  -- '_', is refused when its entry is loaded again, whatever the other servers are.
  pub load_entry-create_server :
      (input : Body) (m : Memory) (made : Memory × Server) (servers : Dict Text Server)
      → create_server is_ipv6 to_integer revision now input m ≡ ok made
      → id_of input ≡ none
      → begins_oddly (slugify made.1.declaration.name) ≡ true
      → load_entry is_ipv6 to_integer later_revision later decrypt servers
          (disk_entry encrypt made.1)
        ≡ faulty (text "id") false
  unfolding load_entry disk_entry
  load_entry-create_server input m made servers h absent odd =
      let c = create_server-Made is_ipv6 to_integer revision now input m made h in
      let id =
        choose_id-begins_oddly c.wanted made.1.declaration.name m.servers made.1.id
          (no_id_wanted (id_of input) c.wanted absent c.wanted_passed) c.id_chosen odd in
      let refused = require_clean_string-begins_oddly made.1.id id in ground (arith, refused)
