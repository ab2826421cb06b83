-- ===== src/Printf/Buffer/Bounds.antt =====
-- vsnprintf stays in its buffer and says how long the whole text is; vcprintf returns 0.

use vukernelprogramming.Prelude.{
  ℕ, zero, suc, ◌+◌, ◌-◌, ◌%◌, ◌<◌, ◌≤◌, ◌≡◌, ◌≢◌, refl, true, false, ◌||◌, some, List, [], ◌∷◌,
  ltb, leb, ◌==◌, if◌then◌else◌, arith, length, get_or, ◌∙◌, ap, subst, sym, Bool-cases, inl, inr,
}
use vukernelprogramming.Prelude.Int.{pos}
use vukernelprogramming.Memory.{Mem, write, within}
use vukernelprogramming.Printf.Number.Digits.{puts}
use vukernelprogramming.Printf.Format.{text, vprintfmt}
use vukernelprogramming.Printf.Format.Plain.{Text, vprintfmt-plain}
use vukernelprogramming.Printf.Buffer.{
  SprintBuf, sprintputch, terminate, vsnprintf, putch, vcprintf,
}

get_or-cons :
    (c : ℕ) (cs : List ℕ) (i : ℕ)
    → get_or (c ∷ cs) i 0 ≡ (if i == 0 then c else get_or cs (i - 1) 0)
get_or-cons c cs zero = refl
get_or-cons c cs (suc i) = let e : suc i - 1 ≡ i = omega arith in rw e (ground arith)

-- how many of `n` characters fit a room of `k`
abbrev pub fits : ℕ → ℕ → ℕ
fits n k = if leb n k then n else k

-- the buffer after the characters `cs`
abbrev pub Filled : List ℕ → SprintBuf → SprintBuf → ℕ → Type 0
Filled cs b r a =
    (r.cnt ≡ b.cnt + length cs)
    × (r.ebuf ≡ b.ebuf)
    × (r.buf ≡ b.buf + fits (length cs) (b.ebuf - b.buf))
    × (r.mem a ≡ (
        if within b.buf (fits (length cs) (b.ebuf - b.buf)) a
        then get_or cs (a - b.buf) 0 % 256
        else b.mem a))

stored : SprintBuf → ℕ → SprintBuf
stored b c = record b { cnt = b.cnt + 1; mem = write b.mem b.buf (c % 256); buf = b.buf + 1 }

counted : SprintBuf → SprintBuf
counted b = record b { cnt = b.cnt + 1 }

sprintputch-stored :
    (b : SprintBuf) (c : ℕ) → ltb b.buf b.ebuf ≡ true → sprintputch c b ≡ stored b c
unfolding sprintputch stored
sprintputch-stored b c e = simp (e, sprintputch)

sprintputch-counted :
    (b : SprintBuf) (c : ℕ) → ltb b.buf b.ebuf ≡ false → sprintputch c b ≡ counted b
unfolding sprintputch counted
sprintputch-counted b c e = simp (e, sprintputch)

fits-suc : (n p e : ℕ) → p < e → fits (suc n) (e - p) ≡ 1 + fits n (e - (p + 1))
fits-suc n p e h = ground arith

-- the byte at `a` once `c` stands at `p` and `cs` behind it
byte-cons :
    (c : ℕ) (cs : List ℕ) (p k a old : ℕ)
    → (if within (p + 1) k a
        then get_or cs (a - (p + 1)) 0 % 256
        else if a == p
        then c % 256
        else old)
      ≡ (if within p (1 + k) a then get_or (c ∷ cs) (a - p) 0 % 256 else old)
byte-cons c cs p k a old =
    let e : a - p - 1 ≡ a - (p + 1) = omega arith in rw (get_or-cons c cs (a - p), e) (ground arith)

Filled-stored :
    (c : ℕ) (cs : List ℕ) (b r : SprintBuf) (a : ℕ)
    → b.buf < b.ebuf
    → Filled cs (stored b c) r a
    → Filled (c ∷ cs) b r a
unfolding stored write
Filled-stored c cs b r a h (cnt, ebuf, buf, mem) =
    let e = fits-suc (length cs) b.buf b.ebuf h in
    (
      omega (arith, cnt),
      ebuf,
      omega (arith, buf, e),
      mem
          ∙ byte-cons c cs b.buf (fits (length cs) (b.ebuf - (b.buf + 1))) a (b.mem a)
          ∙ ap (λ k. if within b.buf k a then get_or (c ∷ cs) (a - b.buf) 0 % 256 else b.mem a)
              (sym e),
    )

Filled-counted :
    (c : ℕ) (cs : List ℕ) (b r : SprintBuf) (a : ℕ)
    → b.buf ≡ b.ebuf
    → Filled cs (counted b) r a
    → Filled (c ∷ cs) b r a
unfolding counted
Filled-counted c cs b r a h filled = ground arith

puts-Filled :
    (cs : List ℕ) (b : SprintBuf) (a : ℕ) → b.buf ≤ b.ebuf → Filled cs b (puts sprintputch cs b) a
unfolding stored counted write
puts-Filled [] b a h = ground arith
puts-Filled (c ∷ cs) b a h = elim (Bool-cases (ltb b.buf b.ebuf)) [
  | inl room ↦
      subst (λ x. Filled (c ∷ cs) b (puts sprintputch cs x) a) (sym (sprintputch-stored b c room))
        (Filled-stored c cs b (puts sprintputch cs (stored b c)) a (ground arith)
          (puts-Filled cs (stored b c) a (ground arith)))
  | inr full ↦
      subst (λ x. Filled (c ∷ cs) b (puts sprintputch cs x) a) (sym (sprintputch-counted b c full))
        (Filled-counted c cs b (puts sprintputch cs (counted b)) a (ground arith)
          (puts-Filled cs (counted b) a h))
]

vsnprintf-format :
    (cs : List ℕ) (f : ℕ) (m : Mem) (fmt : ℕ) (ap : List ℕ) (b : SprintBuf)
    → Text m fmt cs
    → m (fmt + length cs) ≡ 0
    → vprintfmt sprintputch m (length cs + suc f) text fmt ap b ≡ some (puts sprintputch cs b)
vsnprintf-format cs f m fmt ap b h z = vprintfmt-plain sprintputch m cs f fmt ap b h z

write-end :
    (m : Mem) (p k a v old : ℕ)
    → m a ≡ (if within p k a then v else old)
    → write m (p + k) 0 a ≡ (if within p k a then v else if a == p + k then 0 else old)
unfolding write
write-end m p k a v old h = rw (h) (ground arith)

terminate-mem :
    (cs : List ℕ) (b r : SprintBuf) (a : ℕ)
    → Filled cs b r a
    → b.buf ≤ b.ebuf
    → {n : ℕ} → b.ebuf - b.buf ≡ n
    → (terminate r).1 a ≡ (
        if within b.buf (fits (length cs) n) a
        then get_or cs (a - b.buf) 0 % 256
        else if a == b.buf + fits (length cs) n
        then 0
        else b.mem a)
unfolding terminate
terminate-mem cs b r a (cnt, ebuf, buf, mem) h {n} e =
    let whole : r.buf ≡ b.buf + fits (length cs) n = buf ∙ ap (λ k. b.buf + fits (length cs) k) e in
    subst
      (λ p. write r.mem p 0 a ≡ (
        if within b.buf (fits (length cs) n) a
        then get_or cs (a - b.buf) 0 % 256
        else if a == b.buf + fits (length cs) n
        then 0
        else b.mem a))
      (sym whole)
      (write-end r.mem b.buf (fits (length cs) n) a (get_or cs (a - b.buf) 0 % 256) (b.mem a) (
        mem
        ∙ ap
            (λ k.
              if within b.buf (fits (length cs) k) a
              then get_or cs (a - b.buf) 0 % 256
              else b.mem a)
            e))

-- A format of plain text: vsnprintf returns the number of its characters, puts as many as fit
-- before the last byte of the buffer, a NUL behind them, and changes nothing else.
pub vsnprintf-plain :
    (cs : List ℕ) (f : ℕ) (m : Mem) (buf n fmt : ℕ) (args : List ℕ) (a : ℕ)
    → buf ≢ 0
    → 0 < n
    → Text m fmt cs
    → m (fmt + length cs) ≡ 0
    → (m' : Mem) × (vsnprintf (length cs + suc f) m buf n fmt args ≡ some (pos (length cs), m'))
      × (m' a ≡ (
          if within buf (fits (length cs) (n - 1)) a
          then get_or cs (a - buf) 0 % 256
          else if a == buf + fits (length cs) (n - 1)
          then 0
          else m a))
unfolding vsnprintf
vsnprintf-plain cs f m buf n fmt args a nz pos_n h z =
    let b : SprintBuf = record { mem = m; buf = buf; ebuf = buf + n - 1; cnt = 0 } in
    let r = puts sprintputch cs b in
    let filled = puts-Filled cs b a (omega arith) in
    let ok : ((buf == 0) || ltb n 1) ≡ false = ground arith in
    let room : buf + n - 1 - buf ≡ n - 1 = omega arith in
    (
      (terminate r).1,
      rw (ok, vsnprintf-format cs f m fmt args b h z)
          (ap (λ k. some (pos k, (terminate r).1)) (omega (arith, filled.0))),
      terminate-mem cs b r a filled (omega arith) (omega arith),
    )

module _ {C : Type 0} (cputchar : ℕ → C → C) where
  puts-putch : (cs : List ℕ) (c : C) → puts (putch cputchar) cs (c, 0) ≡ (puts cputchar cs c, 0)
  unfolding putch
  puts-putch [] c = refl
  puts-putch (ch ∷ cs) c = puts-putch cs (cputchar ch c)

  -- A format of plain text: vcprintf prints its characters in order, and returns 0 however many
  -- they are.
  pub vcprintf-plain :
      (cs : List ℕ) (f : ℕ) (m : Mem) (fmt : ℕ) (args : List ℕ) (c : C)
      → Text m fmt cs
      → m (fmt + length cs) ≡ 0
      → vcprintf cputchar (length cs + suc f) m fmt args c ≡ some (0, puts cputchar cs c)
  unfolding vcprintf
  vcprintf-plain cs f m fmt args c h z =
      rw (vprintfmt-plain (putch cputchar) m cs f fmt args (c, 0) h z, puts-putch cs c) refl
