-- ===== src/Base/Text.antt =====
-- C texts as lists of bytes without their NUL, and the functions of <string.h> and <ctype.h>
-- (in the C locale) that the sources call.
use Prim.Native.Char.{code}
use Prim.Native.Nat.{ℕ}
use Prim.Native.String.{String}
use mathlib.Core.Path.{◌≡◌, refl}
use mathlib.Core.Logic.{◌↔◌, ◌≢◌, inl, inr}
use mathlib.Core.Bool.{Bool, true, false, ◌&&◌, ◌||◌}
use mathlib.Core.List.{List, [], ◌∷◌, ◌++◌}
use mathlib.Core.Option.{Option, none, some}
use native.Mathlib.Omega.{arith}
use demonstratortool.Base.Lists.{All}
use demonstratortool.Base.Tests.{
  leb, ◌==◌, if◌then◌else◌, ==_refl, ==_iff, Bool-cases, Option-cases,
}

abbrev pub Bytes : Type 0
Bytes = List ℕ

abbrev pub codes : String → Bytes
codes String.[] = []
codes (String.◌∷◌ c s) = code c ∷ codes s

-- `strcmp(a, b) == 0`
unfoldable pub streq : Bytes → Bytes → Bool
streq [] [] = true
streq [] (y ∷ ys) = false
streq (x ∷ xs) [] = false
streq (x ∷ xs) (y ∷ ys) = x == y && streq xs ys

-- `strncmp(s, prefix, strlen(prefix)) == 0`
unfoldable pub starts_with : Bytes → Bytes → Bool
starts_with s [] = true
starts_with [] (p ∷ ps) = false
starts_with (c ∷ cs) (p ∷ ps) = c == p && starts_with cs ps

-- `strchr(s, c)`: the text before the first `c`, and the text behind it.
unfoldable pub strchr : Bytes → ℕ → Option (Bytes × Bytes)
strchr [] c = none
strchr (x ∷ xs) c =
    if x == c
    then some ([], xs)
    else elim (strchr xs c) [ none ↦ none | some (before, after) ↦ some (x ∷ before, after) ]

unfoldable pub is_space : ℕ → Bool
is_space c = c == b' ' || (leb 9 c && leb c 13)

unfoldable pub is_alpha : ℕ → Bool
is_alpha c = (leb b'a' c && leb c b'z') || (leb b'A' c && leb c b'Z')

unfoldable pub is_digit : ℕ → Bool
is_digit c = leb b'0' c && leb c b'9'

unfoldable pub is_alnum : ℕ → Bool
unfolding is_alpha is_digit
is_alnum c = is_alpha c || is_digit c

pub streq_iff : (a b : Bytes) → (streq a b ≡ true) ↔ (a ≡ b)
unfolding streq
streq_iff [] [] = ground arith
streq_iff [] (y ∷ b) = ground arith
streq_iff (x ∷ a) [] = ground arith
streq_iff (x ∷ a) (y ∷ b) = ground (arith, streq_iff a b)

pub streq_refl : (a : Bytes) → streq a a ≡ true
streq_refl a = (streq_iff a a).1 refl

pub starts_with-append : (p s : Bytes) → starts_with (p ++ s) p ≡ true
unfolding starts_with
starts_with-append [] [] = refl
starts_with-append [] (c ∷ s) = refl
starts_with-append (x ∷ p) s = ground (arith, starts_with-append p s, ==_refl x)

-- `strchr` splits the text at a byte `c`, and the part before has none.
pub strchr-append :
    (s : Bytes) (c : ℕ) (before after : Bytes)
    → strchr s c ≡ some (before, after)
    → s ≡ before ++ c ∷ after
unfolding strchr
strchr-append [] c before after h = cc
strchr-append (x ∷ xs) c before after h = elim (Bool-cases (x == c)) [
  | inl e ↦ ground (arith, ==_iff x c)
  | inr e ↦ elim (Option-cases (strchr xs c)) [
    | inl n ↦ absurd (cc (rw (e, n, strchr) at h))
    | inr ((b, a), n) ↦ ground (arith, strchr-append xs c b a n)
  ]
]

-- No byte of a text is this one.
abbrev pub Lacks : ℕ → Bytes → Type 0
Lacks c s = All (λ x. x ≢ c) s

pub strchr-first : (c : ℕ) (s rest : Bytes) → Lacks c s → strchr (s ++ c ∷ rest) c ≡ some (s, rest)
unfolding strchr
strchr-first c [] rest h = rw (==_refl c) refl
strchr-first c (x ∷ s) rest h =
    let other : (x == c) ≡ false = ground arith in rw (other, strchr-first c s rest h.1) refl
