-- ===== src/Monitor/Session/Line.antt =====
-- The line that readline leaves in its buffer is a string of the memory.
use vukernelprogramming.Prelude.{
  ℕ, Bool-cases, leb, ltb, ◌&&◌, ◌||◌, ◌==◌, suc, ◌+◌, ◌-◌, ◌≤◌, ◌<◌, ◌≡◌, ◌≢◌, refl, true, false,
  List, [], ◌∷◌, arith, length, inl, inr, ◌⊎◌, ◌∙◌,
}
use vukernelprogramming.Memory.{Mem, CString, within}
use vukernelprogramming.Readline.{buflen}
use vukernelprogramming.Readline.Edit.{Typed, edit, edit_all, Holds}
use vukernelprogramming.Monitor.Run.{Apart}
use vukernelprogramming.Monitor.Session.{with_buffer, in_order, Bytes}

abbrev pub NonZero : Typed → Type 0
NonZero [] = Unit {0}
NonZero (c ∷ cs) = (c ≢ 0) × NonZero cs

edit-NonZero : (c : ℕ) (cs : Typed) → c < 256 → NonZero cs → NonZero (edit c cs)
edit-NonZero c [] l n = elim (Bool-cases (leb b' ' c)) [
  | inl char ↦ rw char ((λ z. absurd (ground arith)), tt)
  | inr other ↦ rw other tt
]
edit-NonZero c (d ∷ ds) l n = elim (Bool-cases (c == 8 || c == 0x7f)) [
  | inl gone ↦ rw gone n.1
  | inr kept ↦ elim (Bool-cases (leb b' ' c && ltb (length (d ∷ ds)) 1023)) [
    | inl char ↦ rw (kept, char) ((λ z. absurd (ground arith)), n)
    | inr other ↦ rw (kept, other) n
  ]
]

pub edit_all-NonZero : (ks : List ℕ) (cs : Typed) → Bytes ks → NonZero cs → NonZero (edit_all ks cs)
edit_all-NonZero [] cs b n = n
edit_all-NonZero (k ∷ ks) cs b n = edit_all-NonZero ks (edit k cs) b.1 (edit-NonZero k cs b.0 n)

pub length-in_order :
    (cs : Typed) (rest : List ℕ) → length (in_order cs rest) ≡ length cs + length rest
length-in_order [] rest = omega arith
length-in_order (c ∷ cs) rest = omega (arith, length-in_order cs (c ∷ rest))

-- the first bytes of a buffer as a string of the memory
pub in_order-CString :
    (m buf : Mem) (place : ℕ) (cs : Typed) (rest : List ℕ)
    → ((i : ℕ) → i < buflen → m (place + i) ≡ buf i)
    → length cs < buflen
    → Holds buf cs
    → NonZero cs
    → CString m (place + length cs) rest
    → CString m place (in_order cs rest)
in_order-CString m buf place [] rest same l h n s =
    let e : place + 0 ≡ place = omega arith in rw e at s
in_order-CString m buf place (c ∷ cs) rest same l h n s =
    let e : place + suc (length cs) ≡ place + length cs + 1 = omega arith in
    in_order-CString m buf place cs (c ∷ rest) same (omega arith) h.1 n.1
      (same (length cs) (omega arith) ∙ h.0, n.0, rw e at s)

pub with_buffer-inside :
    (m buf : Mem) (place i : ℕ) → i < buflen → with_buffer m place buf (place + i) ≡ buf i
with_buffer-inside m buf place i l =
    let e : place + i - place ≡ i = omega arith in
    let w : within place buflen (place + i) ≡ true = ground arith in rw (w, e) refl

pub with_buffer-outside :
    (m buf : Mem) (place a : ℕ)
    → (a < place) ⊎ (place + buflen ≤ a)
    → with_buffer m place buf a ≡ m a
with_buffer-outside m buf place a o =
    let w : within place buflen a ≡ false = ground (arith, o) in rw w refl

pub Apart-less :
    (p n k : ℕ) (qs : List ℕ) (ws : List (List ℕ)) → k ≤ n → Apart p n qs ws → Apart p k qs ws
Apart-less p n k [] ws l a = tt
Apart-less p n k (q ∷ qs) [] l a = tt
Apart-less p n k (q ∷ qs) (w ∷ ws) l (inl b, a) = (inl b, Apart-less p n k qs ws l a)
Apart-less p n k (q ∷ qs) (w ∷ ws) l (inr b, a) = (inr (omega arith), Apart-less p n k qs ws l a)
