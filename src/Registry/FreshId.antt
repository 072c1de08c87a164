-- ===== src/Registry/FreshId.antt =====
-- The id that lib/servers/registry.js makes from a name is found, and nobody has it yet.
use tmux_web_panel.Base.{
  ℕ, zero, suc, ◌≤◌, ◌<◌, ◌≡◌, inl, inr, refl, ap, ◌∙◌, Bool, true, false, not, ◌||◌, none, some,
  List, [], ◌∷◌, ◌++◌, Text, arith, nat_eq, text_eq, ◌==◌, any, keep, length, append-nil,
}
use tmux_web_panel.Base.Tests.{Bool-cases}
use tmux_web_panel.Base.Equality.{text_beq_iff}
use tmux_web_panel.Base.Decimal.{decimal_injective}
use tmux_web_panel.Base.Dict.{Dict, get, has, keys}
use tmux_web_panel.Base.Texts.{decimal}
use tmux_web_panel.Registry.Strings.{slugify}
use tmux_web_panel.Registry.Store.{Server, local_server_id, fresh_id, generate_id}

abbrev is_in : Text → List Text → Bool
is_in t ts = any (λ u. u == t) ts

abbrev without : Text → List Text → List Text
without t ts = keep (λ u. not (u == t)) ts

length-without : (t : Text) (ts : List Text) → length (without t ts) ≤ length ts
length-without t [] = omega arith
length-without t (u ∷ us) = ground (arith, length-without t us)

length-without_less :
    (t : Text) (ts : List Text) → is_in t ts ≡ true → suc (length (without t ts)) ≤ length ts
length-without_less t [] h = ground arith
length-without_less t (u ∷ us) h = ground (arith, length-without t us, length-without_less t us)

is_in-without :
    (t u : Text) (ts : List Text)
    → (t == u) ≡ false
    → is_in u ts ≡ true
    → is_in u (without t ts) ≡ true
is_in-without t u [] n h = h
is_in-without t u (v ∷ vs) n h =
    ground (arith, is_in-without t u vs, text_beq_iff v t, text_beq_iff v u, text_beq_iff t u)

has-is_in :
    (id : Text) (servers : Dict Text Server)
    → has id servers ≡ true
    → is_in id (keys servers) ≡ true
unfolding get
has-is_in id [] h = h
has-is_in id ((k, s) ∷ servers) h =
    ground (arith, has-is_in id servers, text_beq_iff k id, text_beq_iff id k)

-- The ids that are tried: the base, and the base with a number.
abbrev numbered : Text → ℕ → Text
numbered base n = base ++ (b'-' ∷ decimal n)

append-cancel : (base s t : Text) → base ++ s ≡ base ++ t → s ≡ t
append-cancel [] s t h = h
append-cancel (c ∷ base) s t h = append-cancel base s t (ground (arith, h))

numbered_injective : (base : Text) (m n : ℕ) → numbered base m ≡ numbered base n → m ≡ n
numbered_injective base m n h =
    let tails = append-cancel base (b'-' ∷ decimal m) (b'-' ∷ decimal n) h in
    decimal_injective m n (ground (arith, tails))

beq_false : (s t : Text) → ((s ≡ t) → ⊥) → (s == t) ≡ false
beq_false s t differ = elim (Bool-cases (s == t)) [
  | inl e ↦ elim (differ ((text_beq_iff s t).0 e)) [ ]
  | inr e ↦ e
]

numbered_later : (base : Text) (m n : ℕ) → m < n → (numbered base m == numbered base n) ≡ false
numbered_later base m n l =
    beq_false (numbered base m) (numbered base n)
      (λ e. let same = numbered_injective base m n e in omega (arith, same, l))

numbered_base : (base : Text) (n : ℕ) → (base == numbered base n) ≡ false
numbered_base base n = beq_false base (numbered base n) (λ e.
    let tails = append-cancel base [] (b'-' ∷ decimal n) (append-nil base ∙ e) in
    ground (arith, tails))

abbrev is_taken : Dict Text Server → Text → Bool
is_taken servers id = has id servers || id == local_server_id

-- Every later candidate that is taken stands in the list.
abbrev TakenLater : Dict Text Server → Text → ℕ → List Text → Type 0
TakenLater servers base n ts =
    (k : ℕ) → n ≤ k → is_taken servers (numbered base k) ≡ true → is_in (numbered base k) ts ≡ true

abbrev IsFree : Dict Text Server → Text → Type 0
IsFree servers id = (get id servers ≡ none) × ((id == local_server_id) ≡ false)

fresh_id-IsFree :
    (fuel : ℕ) (base : Text) (servers : Dict Text Server) (n : ℕ) (id : Text) (ts : List Text)
    → length ts < fuel
    → (is_taken servers id ≡ true → is_in id ts ≡ true)
    → TakenLater servers base n (without id ts)
    → (free : Text) × ((fresh_id fuel base servers n id ≡ some free) × IsFree servers free)
unfolding fresh_id
fresh_id-IsFree zero base servers n id ts l t later = ground arith
fresh_id-IsFree (suc fuel) base servers n id ts l t later =
    elim (Bool-cases (is_taken servers id)) [
      | inl e ↦
          let next = numbered base n in
          let rest =
            fresh_id-IsFree fuel base servers (suc n) next (without id ts)
              (omega (arith, length-without_less id ts (t e))) (later n (omega arith))
              (λ k le taken.
                is_in-without next (numbered base k) (without id ts)
                  (numbered_later base n k (omega arith)) (later k (omega arith) taken)) in
          (rest.0, (ground (arith, e, rest.1.0), rest.1.1))
      | inr e ↦ (id, (ground (arith, e), (ground (arith, e), ground (arith, e))))
    ]

length-keys : (servers : Dict Text Server) → length (keys servers) ≡ length servers
length-keys [] = refl
length-keys (s ∷ servers) = ap suc (length-keys servers)

taken-is_in :
    (servers : Dict Text Server) (id : Text)
    → is_taken servers id ≡ true
    → is_in id (local_server_id ∷ keys servers) ≡ true
taken-is_in servers id h = ground (
  arith,
  h,
  has-is_in id servers,
  text_beq_iff id local_server_id,
  text_beq_iff local_server_id id,
)

-- Whatever the name and the servers are, the search for an id ends with one, no server has it, and
-- it is not the id of the local server.
pub generate_id-IsFree :
    (name : Text) (servers : Dict Text Server)
    → (id : Text) × ((generate_id name servers ≡ some id)
        × ((get id servers ≡ none) × ((id == local_server_id) ≡ false)))
unfolding generate_id
generate_id-IsFree name servers =
    let base = slugify name in
    let ts = local_server_id ∷ keys servers in
    fresh_id-IsFree (suc (suc (length servers))) base servers 2 base ts
      (omega (arith, length-keys servers)) (taken-is_in servers base)
      (λ k le taken.
        is_in-without base (numbered base k) ts (numbered_base base k)
          (taken-is_in servers (numbered base k) taken))
