-- ===== src/Links/Accounts.antt =====
-- Every operation of lib/hub/link-pool.js accounts for the links that it opens and closes.
use tmux_web_panel.Base.{
  ℕ, suc, ◌+◌, ◌≡◌, refl, Bool, false, not, ◌&&◌, none, some, List, [], ◌∷◌, ◌++◌, Text, text_eq,
  nat_eq, ◌==◌, arith, inl, inr, ◌⊎◌, count_if, subst, sym, Option-cases, Bool-cases,
}
use tmux_web_panel.Base.Dict.{get, set, HasDistinctKeys, get-set_self}
use tmux_web_panel.Links.{
  Error, is_local_server, is_disabled, Server, Entry, Pool, Effect, opens_basic, Pairing, replace,
  renamed, current, entry_for, basic_host, mode, recheck,
}
use tmux_web_panel.Links.Balance.{is_open, is_close, Moves, replace-Moves, put-Moves}

count_if-append {ℓ} :
    {A : Type ℓ} (t : A → Bool) (xs ys : List A)
    → count_if t (xs ++ ys) ≡ count_if t xs + count_if t ys
count_if-append t [] ys = omega arith
count_if-append t (x ∷ xs) ys = ground (arith, count_if-append t xs ys)

pub Moves-trans :
    (n : ℕ) (p q r : Pool) (xs ys : List Effect)
    → Moves n p xs q
    → Moves n q ys r
    → Moves n p (xs ++ ys) r
Moves-trans n p q r xs ys a b = record {
  accounted = omega (
    arith,
    a.accounted,
    b.accounted,
    count_if-append (is_open n) xs ys,
    count_if-append (is_close n) xs ys,
  );
  distinct = b.distinct;
}

pub still-Moves : (n : ℕ) (p : Pool) → HasDistinctKeys p.entries → Moves n p [] p
still-Moves n p d = record { accounted = omega arith; distinct = d }

renamed-Moves :
    (n : ℕ) (server : Server) (cached : Entry) (p : Pool)
    → get server.id p.entries ≡ some cached
    → HasDistinctKeys p.entries
    → Moves n p (renamed server cached p).1 (renamed server cached p).0
unfolding renamed
renamed-Moves n server cached p e d =
    put-Moves n server.id cached (record cached { server = server }) p.next p e refl d

current-Moves :
    (n : ℕ) (server : Server) (p : Pool)
    → HasDistinctKeys p.entries
    → Moves n p (current server p).1 (current server p).0
unfolding current
current-Moves n server p d = elim (Option-cases (get server.id p.entries)) [
  | inl e ↦
      let q : current server p ≡ replace server p = ground arith in
      subst (λ x. Moves n p x.1 x.0) (sym q) (replace-Moves n server p d)
  | inr (cached, e) ↦ elim (Bool-cases (cached.fingerprint == server.connection_key)) [
    | inl same ↦
        let q : current server p ≡ renamed server cached p = ground arith in
        subst (λ x. Moves n p x.1 x.0) (sym q) (renamed-Moves n server cached p e d)
    | inr other ↦
        let q : current server p ≡ replace server p = ground arith in
        subst (λ x. Moves n p x.1 x.0) (sym q) (replace-Moves n server p d)
  ]
]

replace-there :
    (server : Server) (p : Pool)
    → get server.id (replace server p).0.entries ≡ some (replace server p).2
unfolding replace
replace-there server p = get-set_self server.id (replace server p).2 p.entries

renamed-there :
    (server : Server) (cached : Entry) (p : Pool)
    → get server.id (renamed server cached p).0.entries ≡ some (renamed server cached p).2
unfolding renamed
renamed-there server cached p = get-set_self server.id (renamed server cached p).2 p.entries

current-there :
    (server : Server) (p : Pool)
    → get server.id (current server p).0.entries ≡ some (current server p).2
unfolding current
current-there server p = elim (Option-cases (get server.id p.entries)) [
  | inl e ↦ ground (arith, replace-there server p)
  | inr (cached, e) ↦ ground (arith, replace-there server p, renamed-there server cached p)
]

pub entry_for-Moves :
    (n : ℕ) (allow : Bool) (server : Server) (p : Pool)
    → HasDistinctKeys p.entries
    → Moves n p (entry_for allow server p).1 (entry_for allow server p).0
unfolding entry_for
entry_for-Moves n allow server p d = elim (Bool-cases server.is_local) [
  | inl l ↦
      let q : entry_for allow server p ≡ (p, [], inl is_local_server) = ground arith in
      subst (λ x. Moves n p x.1 x.0) (sym q) (still-Moves n p d)
  | inr l ↦ elim (Bool-cases (not allow && not server.enabled)) [
    | inl off ↦
        let q : entry_for allow server p ≡ (p, [], inl is_disabled) = ground arith in
        subst (λ x. Moves n p x.1 x.0) (sym q) (still-Moves n p d)
    | inr on ↦
        let c = current server p in
        let q : entry_for allow server p ≡ (c.0, c.1, inr c.2) = ground arith in
        subst (λ x. Moves n p x.1 x.0) (sym q) (current-Moves n server p d)
  ]
]

entry_for-there :
    (allow : Bool) (server : Server) (p : Pool) (entry : Entry)
    → (entry_for allow server p).2 ≡ inr entry
    → get server.id (entry_for allow server p).0.entries ≡ some entry
unfolding entry_for
entry_for-there allow server p entry h = ground (arith, current-there server p)

-- A write to the entry that was just read, which keeps its link.
write_back-Moves :
    (n next : ℕ) (allow : Bool) (server : Server) (entry after : Entry) (p : Pool)
    → HasDistinctKeys p.entries
    → (entry_for allow server p).2 ≡ inr entry
    → after.link ≡ entry.link
    → Moves n p
        (entry_for allow server p).1
        (record { entries = set server.id after (entry_for allow server p).0.entries; next = next })
write_back-Moves n next allow server entry after p d h l =
    let c = entry_for allow server p in
    let m = entry_for-Moves n allow server p d in
    let k =
      put-Moves n server.id entry after next c.0 (entry_for-there allow server p entry h) l
        m.distinct in
    record { accounted = omega (arith, m.accounted, k.accounted); distinct = k.distinct }

pub basic_host-Moves :
    (n : ℕ) (can allow : Bool) (server : Server) (p : Pool)
    → HasDistinctKeys p.entries
    → Moves n p (basic_host can allow server p).1 (basic_host can allow server p).0
unfolding basic_host
basic_host-Moves n can allow server p d = go (entry_for allow server p).2 refl
  where
    go :
        (o : Error ⊎ Entry)
        → (entry_for allow server p).2 ≡ o
        → Moves n p (basic_host can allow server p).1 (basic_host can allow server p).0
    go (inl e) h =
        let m = entry_for-Moves n allow server p d in
        record { accounted = ground (arith, m.accounted); distinct = ground (arith, m.distinct) }
    go (inr entry) h =
        let c = entry_for allow server p in
        let m = entry_for-Moves n allow server p d in
        let k =
          write_back-Moves n (suc c.0.next) allow server entry
            (record entry { basic = some c.0.next }) p d h refl in
        record {
          accounted = ground (
            arith,
            m.accounted,
            k.accounted,
            count_if-append (is_open n) c.1 (opens_basic c.0.next ∷ []),
            count_if-append (is_close n) c.1 (opens_basic c.0.next ∷ []),
          );
          distinct = ground (arith, m.distinct, k.distinct);
        }

pub mode-Moves :
    (n : ℕ) (force ready : Bool) (pairing : Pairing) (now : ℕ) (server : Server) (p : Pool)
    → HasDistinctKeys p.entries
    → Moves n p (mode force ready pairing now server p).1 (mode force ready pairing now server p).0
unfolding mode
mode-Moves n force ready pairing now server p d = go (entry_for false server p).2 refl
  where
    go :
        (o : Error ⊎ Entry)
        → (entry_for false server p).2 ≡ o
        → Moves n p
            (mode force ready pairing now server p).1
            (mode force ready pairing now server p).0
    go (inl e) h =
        let m = entry_for-Moves n false server p d in
        record { accounted = ground (arith, m.accounted); distinct = ground (arith, m.distinct) }
    go (inr entry) h =
        let c = entry_for false server p in
        let m = entry_for-Moves n false server p d in
        let j =
          write_back-Moves n c.0.next false server entry (record entry { not_installed_at = none })
            p d h refl in
        let k =
          write_back-Moves n c.0.next false server entry
            (record entry { not_installed_at = some now }) p d h refl in
        record {
          accounted = ground (arith, m.accounted, j.accounted, k.accounted);
          distinct = ground (arith, m.distinct, j.distinct, k.distinct);
        }

pub recheck-Moves :
    (n : ℕ) (id : Text) (p : Pool) → HasDistinctKeys p.entries → Moves n p [] (recheck id p)
unfolding recheck
recheck-Moves n id p d = elim (Option-cases (get id p.entries)) [
  | inl e ↦ record { accounted = ground arith; distinct = ground arith }
  | inr (entry, e) ↦
      let k = put-Moves n id entry (record entry { not_installed_at = none }) p.next p e refl d in
      record { accounted = ground (arith, k.accounted); distinct = ground (arith, k.distinct) }
]
