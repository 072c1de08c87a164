-- ===== src/Base/Dict.antt =====
-- A JavaScript `Map` with the order of its entries: a new key goes to the end, a known key keeps
-- its place. A plain object used as a dictionary is modelled by the same functions.
use mathlib.Core.Path.{◌≡◌, refl, sym, subst}
use mathlib.Core.Bool.{Bool, true}
use mathlib.Core.Logic.{inl, inr}
use mathlib.Core.Option.{Option, none, some}
use mathlib.Core.List.{List, [], ◌∷◌, map}
use native.Mathlib.Omega.{arith}
use tmux_web_panel.Base.Tests.{if◌then◌else◌, is_some, Bool-cases}
use tmux_web_panel.Base.Lists.{All}
use tmux_web_panel.Base.Equality.{Eq, ◌==◌, beq_refl}

abbrev pub Dict {ℓ κ} : Type ℓ → Type κ → Type (ℓ ⊔ κ)
Dict K V = List (K × V)

module _ {ℓ κ} {K : Type ℓ} {V : Type κ} ⦃e : Eq K⦄ where
  unfoldable pub get : K → Dict K V → Option V
  get k [] = none
  get k ((j, v) ∷ m) = if k == j then some v else get k m

  unfoldable pub set : K → V → Dict K V → Dict K V
  set k v [] = (k, v) ∷ []
  set k v ((j, w) ∷ m) = if k == j then (k, v) ∷ m else (j, w) ∷ set k v m

  unfoldable pub delete : K → Dict K V → Dict K V
  delete k [] = []
  delete k ((j, w) ∷ m) = if k == j then delete k m else (j, w) ∷ delete k m

  -- The entries that pass a test: a loop that deletes the others.
  unfoldable pub retain : (K → V → Bool) → Dict K V → Dict K V
  retain p [] = []
  retain p ((j, w) ∷ m) = if p j w then (j, w) ∷ retain p m else retain p m

  abbrev pub has : K → Dict K V → Bool
  has k m = is_some (get k m)

  -- No key stands twice, which holds of every `Map`.
  abbrev pub HasDistinctKeys : Dict K V → Type κ
  HasDistinctKeys [] = Unit
  HasDistinctKeys ((j, w) ∷ m) = (get j m ≡ none) × HasDistinctKeys m

  pub get-set :
      (j k : K) (v : V) (m : Dict K V) → get j (set k v m) ≡ (if j == k then some v else get j m)
  unfolding get set
  get-set j k v [] = refl
  get-set j k v ((i, w) ∷ m) =
      ground (arith, e.equals_iff j k, e.equals_iff k i, e.equals_iff j i, get-set j k v m)

  pub get-delete :
      (j k : K) (m : Dict K V) → get j (delete k m) ≡ (if j == k then none else get j m)
  unfolding get delete
  get-delete j k [] = ground arith
  get-delete j k ((i, w) ∷ m) =
      ground (arith, e.equals_iff j k, e.equals_iff k i, e.equals_iff j i, get-delete j k m)

  pub get-retain-none :
      (p : K → V → Bool) (j : K) (m : Dict K V) → get j m ≡ none → get j (retain p m) ≡ none
  unfolding get retain
  get-retain-none p j [] h = refl
  get-retain-none p j ((i, w) ∷ m) h = ground (arith, get-retain-none p j m)

  -- An entry that passes the test is still found, and it is the one that was found before.
  pub get-retain-some :
      (p : K → V → Bool) (j : K) (v : V) (m : Dict K V)
      → get j m ≡ some v
      → p j v ≡ true
      → get j (retain p m) ≡ some v
  unfolding get retain
  get-retain-some p j v [] h t = h
  get-retain-some p j v ((i, w) ∷ m) h t = ground (arith, e.equals_iff j i, get-retain-some p j v m)

  abbrev pub kept : (K → V → Bool) → K → Option V → Option V
  kept p k none = none
  kept p k (some v) = if p k v then some v else none

  pub get-retain :
      (p : K → V → Bool) (j : K) (m : Dict K V)
      → HasDistinctKeys m
      → get j (retain p m) ≡ kept p j (get j m)
  unfolding get retain
  get-retain p j [] h = refl
  get-retain p j ((i, w) ∷ m) h =
      ground (arith, e.equals_iff j i, get-retain p j m h.1, get-retain-none p j m)

  pub set-HasDistinctKeys :
      (k : K) (v : V) (m : Dict K V) → HasDistinctKeys m → HasDistinctKeys (set k v m)
  unfolding get set
  set-HasDistinctKeys k v [] h = (refl, tt)
  set-HasDistinctKeys k v ((i, w) ∷ m) h =
      ground
        (arith, e.equals_iff k i, e.equals_iff i k, get-set i k v m, set-HasDistinctKeys k v m h.1)

  pub delete-HasDistinctKeys :
      (k : K) (m : Dict K V) → HasDistinctKeys m → HasDistinctKeys (delete k m)
  unfolding delete
  delete-HasDistinctKeys k [] h = tt
  delete-HasDistinctKeys k ((i, w) ∷ m) h =
      ground (arith, get-delete i k m, delete-HasDistinctKeys k m h.1)

  pub retain-HasDistinctKeys :
      (p : K → V → Bool) (m : Dict K V) → HasDistinctKeys m → HasDistinctKeys (retain p m)
  unfolding retain
  retain-HasDistinctKeys p [] h = tt
  retain-HasDistinctKeys p ((i, w) ∷ m) h =
      ground (arith, get-retain-none p i m, retain-HasDistinctKeys p m h.1)

  pub All-set {μ} :
      (P : K × V → Type μ) (k : K) (v : V) (m : Dict K V) → P (k, v) → All P m → All P (set k v m)
  unfolding set
  All-set P k v [] p h = (p, tt)
  All-set P k v ((i, w) ∷ m) p h = ground (arith, p, h, All-set P k v m p h.1)

  pub All-delete {μ} : (P : K × V → Type μ) (k : K) (m : Dict K V) → All P m → All P (delete k m)
  unfolding delete
  All-delete P k [] h = tt
  All-delete P k ((i, w) ∷ m) h = ground (arith, h, All-delete P k m h.1)

  pub All-get {μ} :
      (P : K × V → Type μ) (k : K) (v : V) (m : Dict K V) → get k m ≡ some v → All P m → P (k, v)
  unfolding get
  All-get P k v [] g h = ground (arith, g)
  All-get P k v ((i, w) ∷ m) g h = elim (Bool-cases (k == i)) [
    | inl t ↦
        let at : i ≡ k = sym ((e.equals_iff k i).0 t) in
        let is : w ≡ v = ground (arith, t, g) in
        subst (λ x. P (x, v)) at (subst (λ x. P (i, x)) is h.0)
    | inr t ↦ All-get P k v m (ground (arith, t, g)) h.1
  ]

  pub get-set_self : (k : K) (v : V) (m : Dict K V) → get k (set k v m) ≡ some v
  get-set_self k v m = rw (get-set k k v m, beq_refl k)

abbrev pub keys {ℓ κ} : {K : Type ℓ} {V : Type κ} → Dict K V → List K
keys m = map (λ p. p.0) m

abbrev pub values {ℓ κ} : {K : Type ℓ} {V : Type κ} → Dict K V → List V
values m = map (λ p. p.1) m
