-- ===== src/Api/Streams/Open.antt =====
-- apps/api/routes/ws.py: the open streams, and what they and the registry know of a socket.
use mach.Prelude.{
  ℕ, suc, ◌+◌, ◌≡◌, refl, Bool, true, false, List, [], ◌∷◌, Option, some, length, ◌==◌,
  if◌then◌else◌, Bool-cases, inl, inr, arith, ap, ◌∙◌,
}
use mach.Text.{Text, eq_text}
use mach.Text.Laws.{eq-eq_text}
use mach.Dict.{lookup, store}
use mach.Dict.Laws.{lookup-store}
use mach.Api.Streams.{Registry, or_empty, sockets, among, discard_socket, get_active_ws_count}

-- The handlers between their registration and their end, each with its symbol.
abbrev pub Open : Type 0
Open = List (Text × ℕ)

abbrev pub sockets_of : Text → Open → List ℕ
sockets_of s [] = []
sockets_of s ((t, w) ∷ rest) =
    let others = sockets_of s rest in if eq_text s t then w ∷ others else others

abbrev pub opened : ℕ → Open → Bool
opened w [] = false
opened w ((t, v) ∷ rest) = let others = opened w rest in if w == v then true else others

-- The end of the handler of a socket.
abbrev pub without : ℕ → Open → Open
without w [] = []
without w ((t, v) ∷ rest) =
    let others = without w rest in if w == v then others else (t, v) ∷ others

-- Replacing the set of a symbol changes the count by the difference.
pub get_active_ws_count-store :
    (symbol : Text) (ws : List ℕ) (d : Registry)
    → get_active_ws_count (store symbol ws d) + length (sockets symbol d)
      ≡ get_active_ws_count d + length ws
unfolding get_active_ws_count store sockets lookup
get_active_ws_count-store symbol ws [] = omega arith
get_active_ws_count-store symbol ws ((t, vs) ∷ d) = elim (Bool-cases (eq_text symbol t)) [
  | inl e ↦ ground arith
  | inr e ↦ ground (arith, get_active_ws_count-store symbol ws d)
]

or_empty_if :
    (b : Bool) (ws : List ℕ) (o : Option (List ℕ))
    → or_empty (if b then some ws else o) ≡ (if b then ws else or_empty o)
or_empty_if true ws o = refl
or_empty_if false ws o = refl

pub sockets-store :
    (s symbol : Text) (ws : List ℕ) (d : Registry)
    → sockets s (store symbol ws d) ≡ (if eq_text s symbol then ws else sockets s d)
unfolding sockets
sockets-store s symbol ws d =
    ap or_empty (lookup-store s symbol ws d) ∙ or_empty_if (eq_text s symbol) ws (lookup s d)

pub fresh-sockets_of :
    (s : Text) (w : ℕ) (os : Open) → opened w os ≡ false → among w (sockets_of s os) ≡ false
unfolding among
fresh-sockets_of s w [] h = refl
fresh-sockets_of s w ((t, v) ∷ os) h = ground (arith, fresh-sockets_of s w os)

pub sockets_of-without :
    (s : Text) (w : ℕ) (os : Open)
    → sockets_of s (without w os) ≡ discard_socket w (sockets_of s os)
unfolding discard_socket
sockets_of-without s w [] = refl
sockets_of-without s w ((t, v) ∷ os) = ground (arith, sockets_of-without s w os)

-- No socket has two open handlers.
abbrev pub IsDistinct : Open → Type 0
IsDistinct [] = Unit
IsDistinct ((t, w) ∷ os) = (opened w os ≡ false) × IsDistinct os

opened-without : (v w : ℕ) (os : Open) → opened v os ≡ false → opened v (without w os) ≡ false
opened-without v w [] h = refl
opened-without v w ((t, u) ∷ os) h = ground (arith, opened-without v w os)

pub without-IsDistinct : (w : ℕ) (os : Open) → IsDistinct os → IsDistinct (without w os)
without-IsDistinct w [] h = tt
without-IsDistinct w ((t, v) ∷ os) (h, hs) = elim (Bool-cases (w == v)) [
  | inl e ↦ rw e (without-IsDistinct w os hs)
  | inr e ↦ rw e (opened-without v w os h, without-IsDistinct w os hs)
]

without_fresh : (w : ℕ) (os : Open) → opened w os ≡ false → without w os ≡ os
without_fresh w [] h = refl
without_fresh w ((t, v) ∷ os) h = ground (arith, without_fresh w os)

pub length-without :
    (symbol : Text) (w : ℕ) (os : Open)
    → IsDistinct os
    → among w (sockets_of symbol os) ≡ true
    → suc (length (without w os)) ≡ length os
unfolding among
length-without symbol w [] h m = absurd (ground arith)
length-without symbol w ((t, v) ∷ os) (h, hs) m = elim (Bool-cases (w == v)) [
  | inl e ↦ ground (arith, without_fresh w os)
  | inr e ↦ ground (arith, length-without symbol w os hs)
]

pub length-sockets_of :
    (symbol : Text) (w : ℕ) (os : Open)
    → IsDistinct os
    → among w (sockets_of symbol os) ≡ true
    → suc (length (sockets_of symbol (without w os))) ≡ length (sockets_of symbol os)
unfolding among
length-sockets_of symbol w [] h m = absurd (ground arith)
length-sockets_of symbol w ((t, v) ∷ os) (h, hs) m = elim (Bool-cases (w == v)) [
  | inl e ↦ ground (arith, without_fresh w os, fresh-sockets_of symbol w os)
  | inr e ↦ ground (arith, length-sockets_of symbol w os hs)
]

-- A socket is open under one symbol only.
pub elsewhere :
    (s symbol : Text) (w : ℕ) (os : Open)
    → IsDistinct os
    → eq_text s symbol ≡ false
    → among w (sockets_of symbol os) ≡ true
    → among w (sockets_of s os) ≡ false
unfolding among
elsewhere s symbol w [] h other m = refl
elsewhere s symbol w ((t, v) ∷ os) (h, hs) other m = elim (Bool-cases (w == v)) [
  | inl e ↦
      let gone : opened w os ≡ false = ground arith in
      elim (Bool-cases (eq_text symbol t)) [
        | inl f ↦ rw (← eq-eq_text symbol t f, other) (fresh-sockets_of s w os gone)
        | inr f ↦ absurd (let here = rw f at m in ground (arith, fresh-sockets_of symbol w os gone))
      ]
  | inr e ↦ ground (arith, elsewhere s symbol w os hs other)
]

pub discard_fresh : (w : ℕ) (vs : List ℕ) → among w vs ≡ false → discard_socket w vs ≡ vs
unfolding among discard_socket
discard_fresh w [] h = refl
discard_fresh w (v ∷ vs) h = ground (arith, discard_fresh w vs)
