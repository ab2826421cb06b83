-- ===== src/Console/Ring/Queue.antt =====
-- The circular buffer is a queue of at most 511 bytes, and a write to a full one empties it.
use vukernelprogramming.Prelude.{
  ℕ, zero, suc, ◌+◌, ◌-◌, ◌≤◌, ◌<◌, ◌≡◌, refl, List, [], ◌∷◌, ◌++◌, ap, arith, leb, ◌==◌,
  if◌then◌else◌, ◌⊎◌, Bool-cases, inl, inr,
}
use vukernelprogramming.Prelude.Int.{ℤ}
use vukernelprogramming.Memory.{write}
use vukernelprogramming.Console.Ring.{Cons, consbufsize, wrap, byte_of, store, take_char}

pub record IsValid (s : Cons) : Type 0 where
  pub reads : s.rpos < consbufsize
  pub writes : s.wpos < consbufsize

-- steps from one position of the circle to another
abbrev pub distance : ℕ → ℕ → ℕ
distance p w = if leb p w then w - p else w + consbufsize - p

abbrev pub count : Cons → ℕ
count s = distance s.rpos s.wpos

-- `n` bytes of the circle from `p`
abbrev pub read_from : ℕ → (ℕ → ℕ) → ℕ → List ℕ
read_from zero buf p = []
read_from (suc n) buf p = buf p ∷ read_from n buf (wrap (p + 1))

-- the bytes that wait, oldest first
abbrev pub contents : Cons → List ℕ
contents s = read_from (count s) s.buf s.rpos

read_from-write :
    (n : ℕ) (buf : ℕ → ℕ) (p w v : ℕ)
    → p < consbufsize
    → w < consbufsize
    → n ≤ distance p w
    → read_from n (write buf w v) p ≡ read_from n buf p
unfolding write
read_from-write zero buf p w v lp lw h = refl
read_from-write (suc n) buf p w v lp lw h = ground (arith, read_from-write n buf (wrap (p + 1)) w v)

read_from-snoc :
    (n : ℕ) (buf : ℕ → ℕ) (p w : ℕ)
    → p < consbufsize
    → w < consbufsize
    → distance p w ≡ n
    → read_from (suc n) buf p ≡ read_from n buf p ++ (buf w ∷ [])
read_from-snoc zero buf p w lp lw h = ground arith
read_from-snoc (suc n) buf p w lp lw h =
    ap (λ l. buf p ∷ l) (read_from-snoc n buf (wrap (p + 1)) w (ground arith) lw (ground arith))

pub store-IsValid : (c : ℤ) (s : Cons) → IsValid s → IsValid (store c s)
unfolding store
store-IsValid c s v = ground arith

pub take_char-IsValid : (s : Cons) → IsValid s → IsValid (take_char s).1
unfolding take_char
take_char-IsValid s v = ground arith

-- While fewer than 511 bytes wait, a store puts the low byte of the character behind them.
pub contents-store :
    (c : ℤ) (s : Cons)
    → IsValid s
    → count s < 511
    → contents (store c s) ≡ contents s ++ (byte_of c ∷ [])
unfolding store
contents-store c s v room =
    let n : count (store c s) ≡ suc (count s) = ground arith in
    let same =
      read_from-write (count s) s.buf s.rpos s.wpos (byte_of c) v.reads v.writes (omega arith) in
    let more =
      read_from-snoc (count s) (write s.buf s.wpos (byte_of c)) s.rpos s.wpos v.reads v.writes
        refl in
    let here : write s.buf s.wpos (byte_of c) s.wpos ≡ byte_of c = ground arith in
    rw n (rw (more, same, here) refl)

-- A store into a buffer in which 511 bytes wait empties it: the code does not test whether the
-- write index meets the read index.
pub contents-store_full : (c : ℤ) (s : Cons) → IsValid s → count s ≡ 511 → contents (store c s) ≡ []
unfolding store
contents-store_full c s v full = let e : count (store c s) ≡ 0 = ground arith in rw e refl

-- A read returns the byte that waits longest and removes it, or 0 from an empty buffer, which it
-- leaves as it is.
pub contents-take_char :
    (s : Cons)
    → IsValid s
    → ((contents s ≡ []) × (take_char s ≡ (0, s)))
      ⊎ (contents s ≡ (take_char s).0 ∷ contents (take_char s).1)
unfolding take_char
contents-take_char s v = elim (Bool-cases (s.rpos == s.wpos)) [
  | inl empty ↦ inl ((let e : count s ≡ 0 = ground arith in rw e refl), rw (empty, take_char) refl)
  | inr some_wait ↦
      (let n : count s ≡ suc (distance (wrap (s.rpos + 1)) s.wpos) = ground arith in
        inr (rw (some_wait, take_char) (rw n refl)))
]
