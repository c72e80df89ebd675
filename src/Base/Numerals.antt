-- ===== src/Base/Numerals.antt =====
-- `strtoul`, `strtol` and `atoi` of <stdlib.h>, for a `long` of 32 bits.
use Prim.Native.Nat.{◌%◌, ℕ, ◌+◌, ◌-◌, ◌*◌}
use mathlib.Core.Bool.{Bool, true, false, ◌&&◌, ◌||◌}
use mathlib.Core.List.{[], ◌∷◌}
use demonstratortool.Base.Tests.{ltb, leb, ◌==◌, if◌then◌else◌}
use demonstratortool.Base.Text.{Bytes, is_space}

abbrev pub ulong_mod : ℕ
ulong_mod = 0x100000000

-- The value of a digit or letter, at least 36 for any other byte.
unfoldable pub digit_value : ℕ → ℕ
digit_value c =
    if leb b'0' c && leb c b'9'
    then c - b'0'
    else if leb b'a' c && leb c b'z'
    then c - b'a' + 10
    else if leb b'A' c && leb c b'Z'
    then c - b'A' + 10
    else 36

-- The digits of `base` at the front, after the value so far; and the rest behind them.
unfoldable pub read_digits : ℕ → ℕ → Bytes → ℕ × Bytes
unfolding digit_value
read_digits base acc [] = (acc, [])
read_digits base acc (c ∷ cs) =
    let more = read_digits base (acc * base + digit_value c) cs in
    if ltb (digit_value c) base then more else (acc, c ∷ cs)

unfoldable pub skip_spaces : Bytes → Bytes
unfolding is_space
skip_spaces [] = []
skip_spaces (c ∷ cs) = if is_space c then skip_spaces cs else c ∷ cs

-- The base that base 0 stands for, and the text behind a "0x".
unfoldable pub detect_base : ℕ → Bytes → ℕ × Bytes
unfolding digit_value
detect_base base s = elim s [
  | z ∷ x ∷ d ∷ rest ↦
      if z == b'0'
        && (x == b'x' || x == b'X')
        && ltb (digit_value d) 16
        && (base == 0 || base == 16)
      then (16, d ∷ rest)
      else if base == 0
      then (if z == b'0' then 8 else 10, z ∷ x ∷ d ∷ rest)
      else (base, z ∷ x ∷ d ∷ rest)
  | z ∷ rest ↦ (if base == 0 then (if z == b'0' then 8 else 10) else base, z ∷ rest)
  | [] ↦ (if base == 0 then 10 else base, [])
]

unfoldable pub strip_sign : Bytes → Bool × Bytes
strip_sign [] = (false, [])
strip_sign (c ∷ cs) =
    if c == b'-' then (true, cs) else if c == b'+' then (false, cs) else (false, c ∷ cs)

-- `strtoul(s, 0, base)`: the value, and whether `errno` is set to `ERANGE`.
unfoldable pub strtoul : Bytes → ℕ → ℕ × Bool
unfolding skip_spaces strip_sign detect_base read_digits
strtoul s base =
    let (negative, body) = strip_sign (skip_spaces s) in
    let (b, digits) = detect_base base body in
    let (v, rest) = read_digits b 0 digits in
    if leb ulong_mod v
    then (ulong_mod - 1, true)
    else (if negative && ltb 0 v then ulong_mod - v else v, false)

-- `atoi(s)`, as the 32-bit pattern of the `int`; digits beyond its range wrap.
unfoldable pub atoi : Bytes → ℕ
unfolding skip_spaces strip_sign read_digits
atoi s =
    let (negative, body) = strip_sign (skip_spaces s) in
    let v = (read_digits 10 0 body).0 % ulong_mod in
    if negative then (ulong_mod - v) % ulong_mod else v

-- Whether `strtol` and `strtoul` find a number: otherwise they set `end` to the start of the text.
unfoldable pub has_number : Bytes → ℕ → Bool
unfolding skip_spaces strip_sign detect_base digit_value
has_number s base =
    let (negative, body) = strip_sign (skip_spaces s) in
    let (b, digits) = detect_base base body in
    elim digits [ [] ↦ false | c ∷ rest ↦ ltb (digit_value c) b ]

-- `strtol(s, &end, base)` for a 32-bit `long`, as its bit pattern; out of range it is cut off.
unfoldable pub strtol : Bytes → ℕ → ℕ
unfolding skip_spaces strip_sign detect_base read_digits
strtol s base =
    let (negative, body) = strip_sign (skip_spaces s) in
    let (b, digits) = detect_base base body in
    let v = (read_digits b 0 digits).0 in
    if negative
    then (if ltb 0x80000000 v then 0x80000000 else (ulong_mod - v) % ulong_mod)
    else if ltb 0x7fffffff v
    then 0x7fffffff
    else v
