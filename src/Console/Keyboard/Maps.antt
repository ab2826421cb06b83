-- ===== src/Console/Keyboard/Maps.antt =====
-- The key tables of kern/console.c. C fills the entries that an initialiser leaves out with 0.
use vukernelprogramming.Prelude.{ℕ, ◌+◌, ◌-◌, ◌%◌, List, [], ◌∷◌, get_or, ◌==◌, if◌then◌else◌}

abbrev pub shift_bit : ℕ
shift_bit = 0x01

abbrev pub ctl : ℕ
ctl = 0x02

abbrev pub alt : ℕ
alt = 0x04

abbrev pub capslock : ℕ
capslock = 0x08

abbrev numlock : ℕ
numlock = 0x10

abbrev scrolllock : ℕ
scrolllock = 0x20

abbrev pub e0esc : ℕ
e0esc = 0x40

abbrev key_home : ℕ
key_home = 0xe0

abbrev key_end : ℕ
key_end = 0xe1

abbrev key_up : ℕ
key_up = 0xe2

abbrev key_dn : ℕ
key_dn = 0xe3

abbrev key_lf : ℕ
key_lf = 0xe4

abbrev key_rt : ℕ
key_rt = 0xe5

abbrev key_pgup : ℕ
key_pgup = 0xe6

abbrev key_pgdn : ℕ
key_pgdn = 0xe7

abbrev key_ins : ℕ
key_ins = 0xe8

abbrev pub key_del : ℕ
key_del = 0xe9

-- #define C(x) (x - '@'), in an array of uint8_t
abbrev control : ℕ → ℕ
control x = (x + 256 - b'@') % 256

-- the entries with a designator `[code] = …`
designated : List (ℕ × ℕ) → ℕ → ℕ → ℕ
designated [] code default = default
designated ((k, v) ∷ keys) code default =
    let rest = designated keys code default in if k == code then v else rest

-- an array of 256 bytes: the entries in a row from 0, and the designated ones
initialised : List ℕ → List (ℕ × ℕ) → ℕ → ℕ
unfolding designated
initialised row keys code = designated keys code (get_or row code 0)

unfoldable pub shiftcode : ℕ → ℕ
unfolding initialised
shiftcode code =
    initialised []
      ((0x1D, ctl)
        ∷ (0x2A, shift_bit)
        ∷ (0x36, shift_bit)
        ∷ (0x38, alt)
        ∷ (0x9D, ctl)
        ∷ (0xB8, alt)
        ∷ [])
      code

unfoldable pub togglecode : ℕ → ℕ
unfolding initialised
togglecode code = initialised [] ((0x3A, capslock) ∷ (0x45, numlock) ∷ (0x46, scrolllock) ∷ []) code

abbrev normalmap_row : List ℕ
normalmap_row =
    0 ∷ 0x1B ∷ b'1' ∷ b'2' ∷ b'3' ∷ b'4' ∷ b'5' ∷ b'6' ∷ b'7' ∷ b'8' ∷ b'9' ∷ b'0' ∷ b'-' ∷ b'=' ∷ 8
    ∷ 9 ∷ b'q' ∷ b'w' ∷ b'e' ∷ b'r' ∷ b't' ∷ b'y' ∷ b'u' ∷ b'i' ∷ b'o' ∷ b'p' ∷ b'[' ∷ b']' ∷ 10 ∷ 0
    ∷ b'a' ∷ b's' ∷ b'd' ∷ b'f' ∷ b'g' ∷ b'h' ∷ b'j' ∷ b'k' ∷ b'l' ∷ b';' ∷ 39 ∷ b'`' ∷ 0 ∷ 92
    ∷ b'z' ∷ b'x' ∷ b'c' ∷ b'v' ∷ b'b' ∷ b'n' ∷ b'm' ∷ b',' ∷ b'.' ∷ b'/' ∷ 0 ∷ b'*' ∷ 0 ∷ b' ' ∷ 0
    ∷ 0 ∷ 0 ∷ 0 ∷ 0 ∷ 0 ∷ 0 ∷ 0 ∷ 0 ∷ 0 ∷ 0 ∷ 0 ∷ 0 ∷ b'7' ∷ b'8' ∷ b'9' ∷ b'-' ∷ b'4' ∷ b'5' ∷ b'6'
    ∷ b'+' ∷ b'1' ∷ b'2' ∷ b'3' ∷ b'0' ∷ b'.' ∷ 0 ∷ 0 ∷ 0 ∷ 0 ∷ []

abbrev normalmap_keys : List (ℕ × ℕ)
normalmap_keys =
    (0xc7, key_home)
    ∷ (0x9c, 10)
    ∷ (0xb5, b'/')
    ∷ (0xc8, key_up)
    ∷ (0xc9, key_pgup)
    ∷ (0xcb, key_lf)
    ∷ (0xcd, key_rt)
    ∷ (0xcf, key_end)
    ∷ (0xd0, key_dn)
    ∷ (0xd1, key_pgdn)
    ∷ (0xd2, key_ins)
    ∷ (0xd3, key_del)
    ∷ []

unfoldable pub normalmap : ℕ → ℕ
unfolding initialised
normalmap code = initialised normalmap_row normalmap_keys code

abbrev shiftmap_row : List ℕ
shiftmap_row =
    0 ∷ 27 ∷ b'!' ∷ b'@' ∷ b'#' ∷ b'$' ∷ b'%' ∷ b'^' ∷ b'&' ∷ b'*' ∷ b'(' ∷ b')' ∷ b'_' ∷ b'+' ∷ 8
    ∷ 9 ∷ b'Q' ∷ b'W' ∷ b'E' ∷ b'R' ∷ b'T' ∷ b'Y' ∷ b'U' ∷ b'I' ∷ b'O' ∷ b'P' ∷ b'{' ∷ b'}' ∷ 10 ∷ 0
    ∷ b'A' ∷ b'S' ∷ b'D' ∷ b'F' ∷ b'G' ∷ b'H' ∷ b'J' ∷ b'K' ∷ b'L' ∷ b':' ∷ b'"' ∷ b'~' ∷ 0 ∷ b'|'
    ∷ b'Z' ∷ b'X' ∷ b'C' ∷ b'V' ∷ b'B' ∷ b'N' ∷ b'M' ∷ b'<' ∷ b'>' ∷ b'?' ∷ 0 ∷ b'*' ∷ 0 ∷ b' ' ∷ 0
    ∷ 0 ∷ 0 ∷ 0 ∷ 0 ∷ 0 ∷ 0 ∷ 0 ∷ 0 ∷ 0 ∷ 0 ∷ 0 ∷ 0 ∷ b'7' ∷ b'8' ∷ b'9' ∷ b'-' ∷ b'4' ∷ b'5' ∷ b'6'
    ∷ b'+' ∷ b'1' ∷ b'2' ∷ b'3' ∷ b'0' ∷ b'.' ∷ 0 ∷ 0 ∷ 0 ∷ 0 ∷ []

abbrev shiftmap_keys : List (ℕ × ℕ)
shiftmap_keys =
    (0xc7, key_home)
    ∷ (0x9c, 10)
    ∷ (0xb5, b'/')
    ∷ (0xc8, key_up)
    ∷ (0xc9, key_pgup)
    ∷ (0xcb, key_lf)
    ∷ (0xcd, key_rt)
    ∷ (0xcf, key_end)
    ∷ (0xd0, key_dn)
    ∷ (0xd1, key_pgdn)
    ∷ (0xd2, key_ins)
    ∷ (0xd3, key_del)
    ∷ []

unfoldable pub shiftmap : ℕ → ℕ
unfolding initialised
shiftmap code = initialised shiftmap_row shiftmap_keys code

abbrev ctlmap_row : List ℕ
ctlmap_row =
    0
    ∷ 0
    ∷ 0
    ∷ 0
    ∷ 0
    ∷ 0
    ∷ 0
    ∷ 0
    ∷ 0
    ∷ 0
    ∷ 0
    ∷ 0
    ∷ 0
    ∷ 0
    ∷ 0
    ∷ 0
    ∷ (control b'Q')
    ∷ (control b'W')
    ∷ (control b'E')
    ∷ (control b'R')
    ∷ (control b'T')
    ∷ (control b'Y')
    ∷ (control b'U')
    ∷ (control b'I')
    ∷ (control b'O')
    ∷ (control b'P')
    ∷ 0
    ∷ 0
    ∷ 13
    ∷ 0
    ∷ (control b'A')
    ∷ (control b'S')
    ∷ (control b'D')
    ∷ (control b'F')
    ∷ (control b'G')
    ∷ (control b'H')
    ∷ (control b'J')
    ∷ (control b'K')
    ∷ (control b'L')
    ∷ 0
    ∷ 0
    ∷ 0
    ∷ 0
    ∷ (control 92)
    ∷ (control b'Z')
    ∷ (control b'X')
    ∷ (control b'C')
    ∷ (control b'V')
    ∷ (control b'B')
    ∷ (control b'N')
    ∷ (control b'M')
    ∷ 0
    ∷ 0
    ∷ (control b'/')
    ∷ 0
    ∷ 0
    ∷ []

abbrev ctlmap_keys : List (ℕ × ℕ)
ctlmap_keys =
    (0x97, key_home)
    ∷ (0xb5, control b'/')
    ∷ (0xc8, key_up)
    ∷ (0xc9, key_pgup)
    ∷ (0xcb, key_lf)
    ∷ (0xcd, key_rt)
    ∷ (0xcf, key_end)
    ∷ (0xd0, key_dn)
    ∷ (0xd1, key_pgdn)
    ∷ (0xd2, key_ins)
    ∷ (0xd3, key_del)
    ∷ []

unfoldable pub ctlmap : ℕ → ℕ
unfolding initialised
ctlmap code = initialised ctlmap_row ctlmap_keys code

-- charcode[i], for an i below 4
unfoldable pub charcode : ℕ → ℕ → ℕ
unfolding normalmap shiftmap ctlmap
charcode i code = if i == 0 then normalmap code else if i == 1 then shiftmap code else ctlmap code
