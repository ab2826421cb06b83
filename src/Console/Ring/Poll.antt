-- ===== src/Console/Ring/Poll.antt =====
-- A poll of a device appends what the device has to the queue.
use vukernelprogramming.Prelude.{
  ℕ, zero, suc, ◌+◌, ◌≤◌, ◌<◌, ◌≡◌, refl, false, some, List, [], ◌∷◌, ◌++◌, ap, arith,
  if◌then◌else◌, length, Bool-cases, inl, inr, ◌∙◌, sym, length-append,
}
use mathlib.Core.List.{append-nil, append_assoc}
use vukernelprogramming.Prelude.Int.{ℤ, negsuc}
use vukernelprogramming.Console.Ring.{Cons, wrap, byte_of, is_zero, is_minus_one, feed, cons_intr}
use vukernelprogramming.Console.Ring.Queue.{
  IsValid, count, contents, read_from, store-IsValid, contents-store,
}

-- the bytes that a poll keeps of the ints that the device returns: all but 0
abbrev pub accepted : List ℤ → List ℕ
accepted [] = []
accepted (c ∷ cs) = if is_zero c then accepted cs else byte_of c ∷ accepted cs

module _ {D : Type 0} (proc : D → ℤ × D) where
  -- from the state `d` the device returns the ints `cs`, then -1, and ends in `d'`
  pub data Yields : D → List ℤ → D → Type 0 where
    stop : {d d' : D} → proc d ≡ (negsuc 0, d') → Yields d [] d'
    more :
        {d d' d'' : D} {c : ℤ} {cs : List ℤ}
        → proc d ≡ (c, d')
        → is_minus_one c ≡ false
        → Yields d' cs d''
        → Yields d (c ∷ cs) d''

length-read_from : (n : ℕ) (buf : ℕ → ℕ) (p : ℕ) → length (read_from n buf p) ≡ n
length-read_from zero buf p = refl
length-read_from (suc n) buf p = ap suc (length-read_from n buf (wrap (p + 1)))

pub count-contents : (s : Cons) → length (contents s) ≡ count s
count-contents s = length-read_from (count s) s.buf s.rpos

-- the state after one int, kept or dropped
feed-contents :
    (c : ℤ) (s : Cons)
    → IsValid s
    → count s + length (accepted (c ∷ [])) ≤ 511
    → IsValid (feed c s) × (contents (feed c s) ≡ contents s ++ accepted (c ∷ []))
unfolding feed
feed-contents c s v room = elim (Bool-cases (is_zero c)) [
  | inl drop ↦ rw drop (v, sym (append-nil (contents s)))
  | inr keep ↦
      let room' : count s + length (byte_of c ∷ []) ≤ 511 = rw keep at room in
      rw keep (store-IsValid c s v, contents-store c s v (omega arith))
]

accepted-cons : (c : ℤ) (cs : List ℤ) → accepted (c ∷ cs) ≡ accepted (c ∷ []) ++ accepted cs
accepted-cons c cs = elim (Bool-cases (is_zero c)) [
  | inl drop ↦ rw drop refl
  | inr keep ↦ rw keep refl
]

module _ {D : Type 0} (proc : D → ℤ × D) where
  -- If the device returns the ints `cs` and then -1, a poll with more fuel than that ends; if the
  -- queue has room for the characters other than 0, it ends with them behind those that waited.
  pub cons_intr-contents :
      (f : ℕ) {d d' : D} (s : Cons) {cs : List ℤ}
      → Yields proc d cs d'
      → IsValid s
      → length cs < f
      → count s + length (accepted cs) ≤ 511
      → (s' : Cons) × (cons_intr f proc d s ≡ some (d', s'))
        × IsValid s'
        × (contents s' ≡ contents s ++ accepted cs)
  unfolding cons_intr
  cons_intr-contents zero s y v fuel room = absurd (omega arith)
  cons_intr-contents (suc f) s (stop e) v fuel room =
      (s, rw e refl, v, sym (append-nil (contents s)))
  cons_intr-contents (suc f) s (more {c} {cs} e m y) v fuel room =
      let split =
        ap length (accepted-cons c cs) ∙ length-append (accepted (c ∷ [])) (accepted cs) in
      let (v1, e1) = feed-contents c s v (omega (arith, split)) in
      let n : count (feed c s) ≡ count s + length (accepted (c ∷ [])) =
        sym (count-contents (feed c s))
        ∙ ap length e1
        ∙ length-append (contents s) (accepted (c ∷ []))
        ∙ ap (λ k. k + length (accepted (c ∷ []))) (count-contents s) in
      let (s', eq, v', e') =
        cons_intr-contents f (feed c s) y v1 (omega arith) (omega (arith, split)) in
      (
        s',
        rw (e, m) eq,
        v',
        e'
            ∙ ap (λ l. l ++ accepted cs) e1
            ∙ append_assoc (contents s) (accepted (c ∷ [])) (accepted cs)
            ∙ ap (λ l. contents s ++ l) (sym (accepted-cons c cs)),
      )
