-- ===== src/Panes/Ring/Bounds.antt =====
-- The ring never exceeds its budget, and what it replays is the end of what was written.
use tmux_web_panel.Base.{
  ℕ, ◌+◌, ◌-◌, ◌/◌, ◌≤◌, ◌<◌, ◌≡◌, refl, sym, ap, ◌∙◌, List, [], ◌∷◌, ◌++◌, ltb, leb, arith, All,
  Bool-cases, inl, inr, append_assoc, append-nil, subst,
}
use tmux_web_panel.Panes.Utf8.{Chars, IsValid, IsWellFormed, byte_length, utf8_tail}
use tmux_web_panel.Panes.Utf8.Tail.{utf8_tail-IsTail, utf8_tail-IsWellFormed}
use tmux_web_panel.Panes.Ring.{Ring, empty, trim, push, join, read}

abbrev pub total : List Chars → ℕ
total [] = 0
total (c ∷ cs) = byte_length c + total cs

-- The count is that of the chunks, and within the budget.
pub record IsRing (r : Ring) : Type 0 where
  pub counted : r.bytes ≡ total r.chunks
  pub bounded : r.bytes ≤ r.max_bytes

total-snoc : (cs : List Chars) (c : Chars) → total (cs ++ c ∷ []) ≡ total cs + byte_length c
total-snoc [] c = omega arith
total-snoc (d ∷ cs) c = omega (arith, total-snoc cs c)

trim-counted :
    (max_bytes : ℕ) (cs : List Chars) (bytes : ℕ)
    → bytes ≡ total cs
    → (trim max_bytes cs bytes).1 ≡ total (trim max_bytes cs bytes).0
unfolding trim
trim-counted max_bytes [] bytes h = h
trim-counted max_bytes (c ∷ []) bytes h = h
trim-counted max_bytes (c ∷ d ∷ rest) bytes h =
    ground (arith, trim-counted max_bytes (d ∷ rest) (bytes - byte_length c))

-- The last chunk fits by itself, so the loop ends within the budget.
trim-bounded :
    (max_bytes : ℕ) (cs : List Chars) (last : Chars) (bytes : ℕ)
    → byte_length last ≤ max_bytes
    → bytes ≡ total (cs ++ last ∷ [])
    → (trim max_bytes (cs ++ last ∷ []) bytes).1 ≤ max_bytes
unfolding trim
trim-bounded max_bytes [] last bytes l h = omega arith
trim-bounded max_bytes (c ∷ []) last bytes l h = ground arith
trim-bounded max_bytes (c ∷ d ∷ cs) last bytes l h =
    ground (arith, trim-bounded max_bytes (d ∷ cs) last (bytes - byte_length c))

push-IsRing : (t : Chars) (r : Ring) → IsValid t → IsRing r → IsRing (push t r)
unfolding push
push-IsRing [] r v h = h
push-IsRing (c ∷ t) r v h = elim (Bool-cases (leb r.max_bytes (byte_length (c ∷ t)))) [
  | inl large ↦
      let tail = utf8_tail-IsTail (c ∷ t) (r.max_bytes / 2) v in
      rw large record { counted = omega arith; bounded = omega (arith, tail.fits) }
  | inr small ↦
      let same : r.bytes + byte_length (c ∷ t) ≡ total (r.chunks ++ (c ∷ t) ∷ []) =
        omega (arith, total-snoc r.chunks (c ∷ t), h.counted) in
      rw small record {
        counted = trim-counted r.max_bytes _ _ same;
        bounded =
            trim-bounded r.max_bytes r.chunks (c ∷ t) (r.bytes + byte_length (c ∷ t)) (ground arith)
              same;
      }
]

abbrev pub push_all : List Chars → Ring → Ring
push_all [] r = r
push_all (t ∷ ts) r = push_all ts (push t r)

-- `tail` is the end of `whole`.
pub record IsSuffix (tail whole : Chars) : Type 0 where
  pub dropped : Chars
  pub eq : whole ≡ dropped ++ tail

trim-IsSuffix :
    (max_bytes : ℕ) (cs : List Chars) (bytes : ℕ)
    → IsSuffix (join (trim max_bytes cs bytes).0) (join cs)
unfolding trim
trim-IsSuffix max_bytes [] bytes = record { dropped = []; eq = refl }
trim-IsSuffix max_bytes (c ∷ []) bytes = record { dropped = []; eq = refl }
trim-IsSuffix max_bytes (c ∷ d ∷ rest) bytes = elim (Bool-cases (ltb max_bytes bytes)) [
  | inl over ↦
      let r = trim-IsSuffix max_bytes (d ∷ rest) (bytes - byte_length c) in
      rw over
        (record { dropped = c ++ r.dropped; eq = ap (◌++◌ c) r.eq ∙ sym (append_assoc c _ _) })
  | inr fits ↦ rw fits (record { dropped = []; eq = refl })
]

join-snoc : (cs : List Chars) (c : Chars) → join (cs ++ c ∷ []) ≡ join cs ++ c
join-snoc [] c = append-nil c
join-snoc (d ∷ cs) c = ap (◌++◌ d) (join-snoc cs c) ∙ sym (append_assoc d (join cs) c)

IsSuffix-trans : {a b c : Chars} → IsSuffix a b → IsSuffix b c → IsSuffix a c
IsSuffix-trans {a} h k = record {
  dropped = k.dropped ++ h.dropped;
  eq = k.eq ∙ ap (◌++◌ k.dropped) h.eq ∙ sym (append_assoc k.dropped h.dropped a);
}

IsSuffix-append_right : {a b : Chars} (t : Chars) → IsSuffix a b → IsSuffix (a ++ t) (b ++ t)
IsSuffix-append_right {a} t h = record {
  dropped = h.dropped;
  eq = ap (λ s. s ++ t) h.eq ∙ append_assoc h.dropped a t;
}

push-IsSuffix : (t : Chars) (r : Ring) → IsWellFormed t → IsSuffix (read (push t r)) (read r ++ t)
unfolding push read
push-IsSuffix [] r v = record { dropped = []; eq = append-nil (join r.chunks) }
push-IsSuffix (c ∷ t) r v = elim (Bool-cases (leb r.max_bytes (byte_length (c ∷ t)))) [
  | inl large ↦
      let tail = utf8_tail-IsWellFormed (c ∷ t) (r.max_bytes / 2) v in
      let kept = utf8_tail (c ∷ t) (r.max_bytes / 2) in
      rw large record {
        dropped = join r.chunks ++ tail.0;
        eq =
            ap (◌++◌ (join r.chunks)) tail.1
            ∙ sym (append_assoc (join r.chunks) tail.0 kept)
            ∙ ap (◌++◌ (join r.chunks ++ tail.0)) (sym (append-nil kept));
      }
  | inr small ↦
      rw (small, ← join-snoc r.chunks (c ∷ t))
        (trim-IsSuffix r.max_bytes (r.chunks ++ (c ∷ t) ∷ []) (r.bytes + byte_length (c ∷ t)))
]

-- However much a pane prints, its replay buffer counts its bytes exactly and stays within its
-- budget.
pub push_all-IsRing :
    (ts : List Chars) (max_bytes : ℕ) → All IsValid ts → IsRing (push_all ts (empty max_bytes))
unfolding empty
push_all-IsRing ts max_bytes v = go ts (empty max_bytes) v (omega arith)
  where
    go : (ts : List Chars) (r : Ring) → All IsValid ts → IsRing r → IsRing (push_all ts r)
    go [] r v h = h
    go (t ∷ ts) r (v, vs) h = go ts (push t r) vs (push-IsRing t r v h)

-- As long as no lone surrogate is printed, the replay is always the end of what was printed: nothing
-- is reordered, repeated or cut out of the middle.
pub read-push_all-IsSuffix :
    (ts : List Chars) (r : Ring)
    → All IsWellFormed ts
    → IsSuffix (read (push_all ts r)) (read r ++ join ts)
read-push_all-IsSuffix [] r v = record { dropped = []; eq = append-nil (read r) }
read-push_all-IsSuffix (t ∷ ts) r v = IsSuffix-trans (read-push_all-IsSuffix ts (push t r) v.1) (
    subst (IsSuffix (read (push t r) ++ join ts)) (append_assoc (read r) t (join ts))
      (IsSuffix-append_right (join ts) (push-IsSuffix t r v.0)))

trim_fits :
    (max_bytes : ℕ) (cs : List Chars) (bytes : ℕ)
    → bytes ≤ max_bytes
    → (trim max_bytes cs bytes).0 ≡ cs
unfolding trim
trim_fits max_bytes [] bytes h = refl
trim_fits max_bytes (c ∷ []) bytes h = refl
trim_fits max_bytes (c ∷ d ∷ rest) bytes h = ground arith

-- Output that fits beside what is kept drops nothing: the replay grows by exactly that output.
pub read-push_fits :
    (t : Chars) (r : Ring)
    → r.bytes + byte_length t ≤ r.max_bytes
    → byte_length t < r.max_bytes
    → read (push t r) ≡ read r ++ t
unfolding push read
read-push_fits [] r h l = sym (append-nil (join r.chunks))
read-push_fits (c ∷ t) r h l = elim (Bool-cases (leb r.max_bytes (byte_length (c ∷ t)))) [
  | inl large ↦ absurd (ground arith)
  | inr small ↦
      rw (small, trim_fits r.max_bytes (r.chunks ++ (c ∷ t) ∷ []) (r.bytes + byte_length (c ∷ t)) h)
        (join-snoc r.chunks (c ∷ t))
]
