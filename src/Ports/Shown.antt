-- ===== src/Ports/Shown.antt =====
-- What the lines of `ss` and `ps` say, by the patterns of lib/ports.js, and that its reading of `ss` keeps
-- just that.
use tmux_web_panel.Base.{
  ℕ, ◌≤◌, ◌<◌, ◌≡◌, ◌⊎◌, inl, inr, refl, sym, ap, subst, true, false, ◌||◌, Option, none, some,
  List, [], ◌∷◌, ◌++◌, arith, nat_eq, text_eq, Text, leb, ltb,
}
use tmux_web_panel.Base.Lists.{In, here, there}
use tmux_web_panel.Base.Tests.{Bool-cases}
use tmux_web_panel.Base.Texts.{split, trim}
use tmux_web_panel.Ports.{
  Socket, is_nil, port_match, pid_match, socket_of, parse_ss_lines, parse_ss_output, split_spaces,
}

-- The lines of an output.
abbrev pub lines_of : Text → List Text
lines_of output = split b'\n' (trim output)

abbrev pub ps_lines : Option Text → List Text
ps_lines none = []
ps_lines (some output) = lines_of output

-- A line of `ss` shows a port above 1024, and a process that holds it: the patterns of the
-- source find these two numbers first.
abbrev pub Shows : Text → ℕ → ℕ → Type 0
Shows line port pid =
    (port_match line ≡ some port) × ((pid_match line ≡ some pid) × ((1024 < port) × (port ≤ 65535)))

module _ (number : Text → Option ℕ) where
  -- The first two words of a line of `ps` are the numbers of a process and of its parent.
  abbrev pub Names : Text → ℕ → ℕ → Type 0
  Names line child parent =
      (c : Text) × ((p : Text) × ((rest : List Text) × ((split_spaces (trim line) ≡ c ∷ p ∷ rest)
            × ((number c ≡ some child) × (number p ≡ some parent)))))

  abbrev pub IsChild : Option Text → ℕ → ℕ → Type 0
  IsChild ps parent child = (line : Text) × (In line (ps_lines ps) × Names line child parent)

  -- A process is a child of the first one, or of one below it.
  pub data IsBelow (ps : Option Text) (pid : ℕ) : ℕ → Type 0 where
    a_child : {c : ℕ} → IsChild ps pid c → IsBelow ps pid c
    a_descendant : {c d : ℕ} → IsBelow ps pid c → IsChild ps c d → IsBelow ps pid d

  -- A line of `ss` shows the port with the process or with one below it.
  abbrev pub ListensOn : Text → Option Text → ℕ → ℕ → Type 0
  ListensOn ss ps pid port =
      (line : Text) × ((q : ℕ) × (In line (lines_of ss)
          × (Shows line port q × ((q ≡ pid) ⊎ IsBelow ps pid q))))

pub In-append-cases {ℓ} :
    {A : Type ℓ} {a : A} (xs ys : List A) → In a (xs ++ ys) → In a xs ⊎ In a ys
In-append-cases [] ys h = inr h
In-append-cases (x ∷ xs) ys here = inl here
In-append-cases (x ∷ xs) ys (there h) = elim (In-append-cases xs ys h) [
  | inl i ↦ inl (there i)
  | inr i ↦ inr i
]

pub In-left {ℓ} : {A : Type ℓ} {a : A} (xs ys : List A) → In a xs → In a (xs ++ ys)
In-left [] ys h = elim h [ ]
In-left (x ∷ xs) ys here = here
In-left (x ∷ xs) ys (there h) = there (In-left xs ys h)

pub In-right {ℓ} : {A : Type ℓ} {a : A} (xs ys : List A) → In a ys → In a (xs ++ ys)
In-right [] ys h = h
In-right (x ∷ xs) ys h = there (In-right xs ys h)

pub In-one {ℓ} : {A : Type ℓ} {a b : A} → In a (b ∷ []) → a ≡ b
In-one here = refl
In-one (there h) = elim h [ ]

socket_of-Shows :
    (s : Socket) (o u : Option ℕ)
    → In s (socket_of o u)
    → (o ≡ some s.port) × ((u ≡ some s.pid) × ((1024 < s.port) × (s.port ≤ 65535)))
socket_of-Shows s none u h = elim h [ ]
socket_of-Shows s (some port) none h = elim h [ ]
socket_of-Shows s (some port) (some pid) h = elim (Bool-cases (leb port 1024 || ltb 65535 port)) [
  | inl out ↦
      let gone : socket_of (some port) (some pid) ≡ [] = rw out refl in
      elim (subst (In s) gone h) [ ]
  | inr kept ↦
      let one : socket_of (some port) (some pid) ≡ record { port = port; pid = pid } ∷ [] =
        rw kept refl in
      let e = In-one (subst (In s) one h) in
      (
        ap (λ x. some x.port) (sym e),
        (ap (λ x. some x.pid) (sym e), (ground (arith, e, kept), ground (arith, e, kept))),
      )
]

Shows-socket_of :
    (port pid : ℕ)
    → 1024 < port
    → port ≤ 65535
    → In (record { port = port; pid = pid }) (socket_of (some port) (some pid))
Shows-socket_of port pid h k =
    let kept : (leb port 1024 || ltb 65535 port) ≡ false = ground (arith, h, k) in rw kept here

pub parse_ss_lines-Shows :
    (s : Socket) (ls : List Text)
    → In s (parse_ss_lines ls)
    → (line : Text) × (In line ls × Shows line s.port s.pid)
unfolding parse_ss_lines
parse_ss_lines-Shows s [] h = elim h [ ]
parse_ss_lines-Shows s (line ∷ ls) h =
    elim (In-append-cases (socket_of (port_match line) (pid_match line)) (parse_ss_lines ls) h) [
      | inl i ↦ (line, (here, socket_of-Shows s (port_match line) (pid_match line) i))
      | inr i ↦ let r = parse_ss_lines-Shows s ls i in (r.0, (there r.1.0, r.1.1))
    ]

pub Shows-parse_ss_lines :
    (port pid : ℕ) (line : Text) (ls : List Text)
    → In line ls
    → Shows line port pid
    → In (record { port = port; pid = pid }) (parse_ss_lines ls)
unfolding parse_ss_lines
Shows-parse_ss_lines port pid line [] i h = elim i [ ]
Shows-parse_ss_lines port pid line (_ ∷ ls) here h =
    In-left (socket_of (port_match line) (pid_match line)) (parse_ss_lines ls)
      (rw (h.0, h.1.0) (Shows-socket_of port pid h.1.1.0 h.1.1.1))
Shows-parse_ss_lines port pid line (l ∷ ls) (there i) h =
    In-right (socket_of (port_match l) (pid_match l)) (parse_ss_lines ls)
      (Shows-parse_ss_lines port pid line ls i h)

-- The empty output has no line that shows a socket either.
pub parse_ss_output-lines : (ss : Text) → parse_ss_output ss ≡ parse_ss_lines (lines_of ss)
unfolding parse_ss_output
parse_ss_output-lines ss = elim (Bool-cases (is_nil (trim ss))) [
  | inl nothing ↦
      rw nothing (sym (ap (λ t. parse_ss_lines (split b'\n' t)) (blank (trim ss) nothing)))
  | inr lines ↦ rw lines refl
]
  where
    blank : (t : Text) → is_nil t ≡ true → t ≡ []
    blank [] h = refl
    blank (c ∷ t) h = absurd (ground (arith, h))
