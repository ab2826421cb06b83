-- ===== src/Console/Keyboard/Decode.antt =====
-- What the keyboard driver returns and keeps, at each scan code in each state of the modifiers.
use Prim.Native.Nat.{bit_and, bit_xor}
use vukernelprogramming.Prelude.{
  ℕ, ◌+◌, ◌-◌, ◌*◌, ◌/◌, ◌%◌, ◌≤◌, ◌<◌, ◌≡◌, ◌≢◌, refl, Bool, true, false, ◌&&◌, ◌||◌, not, arith,
  ltb, leb, ◌==◌, if◌then◌else◌, passes, passes-at, subst, ◌↔◌,
}
use vukernelprogramming.Console.Keyboard.{decode}
use vukernelprogramming.Console.Keyboard.Maps.{shiftcode, togglecode, charcode, e0esc, capslock}

-- Ctrl, Alt and the pending escape are set
abbrev pub ctl_alt_e0 : ℕ → Bool
ctl_alt_e0 shift = bit_and shift 0x46 == 0x46

same : Bool → Bool → Bool
same true b = b
same false b = not b

-- the driver in a state `shift` below 128 reads the byte `code`
decode_ok : ℕ → ℕ → Bool
decode_ok code shift =
    let k = decode code shift in
    ltb k.shift 128
    && (ltb k.code 256
        && (((code == 0xE0) || (bit_and k.shift e0esc == 0))
            && ((ltb code 128 || (k.code == 0))
                && same k.reboot ((code == 0x53) && ctl_alt_e0 shift))))

-- each pair of a byte and a state, as one number
decode_table : passes (λ n. decode_ok (n / 128) (n % 128)) 32768 ≡ true
unfolding passes decode_ok same decode shiftcode togglecode charcode
decode_table = refl

at_pair :
    (p : ℕ → ℕ → Bool) (n a b : ℕ)
    → passes (λ i. p (i / 128) (i % 128)) n ≡ true
    → a * 128 + 128 ≤ n
    → b < 128
    → p a b ≡ true
at_pair p n a b h la lb =
    let e = passes-at (λ i. p (i / 128) (i % 128)) n (a * 128 + b) (omega arith) h in
    let ea : (a * 128 + b) / 128 ≡ a = omega arith in
    let eb : (a * 128 + b) % 128 ≡ b = omega arith in
    subst (λ i. p i b ≡ true) ea (subst (λ j. p ((a * 128 + b) / 128) j ≡ true) eb e)

-- In a state below 128 each scan code gives a character that fits a byte and a state below 128;
-- no code but 0xE0 leaves an escape pending; the release of a key gives no character; and the
-- machine is rebooted exactly at the code 0x53 with an escape pending while Ctrl and Alt are held.
pub decode_keeps :
    (code shift : ℕ)
    → code < 256
    → shift < 128
    → ((decode code shift).shift < 128)
      × ((decode code shift).code < 256)
      × (code ≢ 0xE0 → bit_and (decode code shift).shift e0esc ≡ 0)
      × (128 ≤ code → (decode code shift).code ≡ 0)
      × (((decode code shift).reboot ≡ true) ↔ ((code ≡ 0x53) × (ctl_alt_e0 shift ≡ true)))
decode_keeps code shift lc ls =
    let ok : decode_ok code shift ≡ true =
      at_pair decode_ok 32768 code shift decode_table (omega arith) ls in
    unfold decode_ok same in ground (arith, ok)

abbrev pub swap : ℕ → ℕ
swap c = if leb b'a' c && leb c b'z' then c - 32 else if leb b'A' c && leb c b'Z' then c + 32 else c

caps_ok : ℕ → ℕ → Bool
caps_ok code shift = (decode code (bit_xor shift capslock)).code == swap (decode code shift).code

caps_table : passes (λ n. caps_ok (n / 128) (n % 128)) 16384 ≡ true
unfolding passes caps_ok decode shiftcode togglecode charcode
caps_table = refl

-- The other state of CAPSLOCK changes the character of a pressed key by the case of its letter,
-- if it is one, and by nothing else.
pub decode-capslock :
    (code shift : ℕ)
    → code < 128
    → shift < 128
    → (decode code (bit_xor shift capslock)).code ≡ swap (decode code shift).code
decode-capslock code shift lc ls =
    let ok : caps_ok code shift ≡ true =
      at_pair caps_ok 16384 code shift caps_table (omega arith) ls in
    unfold caps_ok in ground (arith, ok)
