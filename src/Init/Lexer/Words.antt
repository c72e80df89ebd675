-- ===== src/Init/Lexer/Words.antt =====
-- Which bytes of an init.rc file `next_token` (android2.1_init/init/parser.c) reads as one text.
use demonstratortool.Base.{
  ℕ, ◌≡◌, sym, ap, ◌∙◌, ◌≢◌, ◌⊎◌, false, [], ◌∷◌, ◌++◌, arith, ◌==◌, All, Bytes,
}
use mathlib.Core.List.{append-nil, append_assoc}
use native.Mathlib.Nat.{add-zero}
use demonstratortool.Init.Lexer.{
  text, LexState, plain, quoted, go, step, scan_text, next_token, is_separator,
}

-- Bytes that stand for themselves outside quotes, and inside.
abbrev pub IsPlain : ℕ → Type 0
IsPlain c =
    (c ≢ 0) × (c ≢ b' ') × (c ≢ b'\t') × (c ≢ b'\r') × (c ≢ b'\n') × (c ≢ b'"') × (c ≢ b'\\')

abbrev pub IsQuotable : ℕ → Type 0
IsQuotable c = (c ≢ 0) × (c ≢ b'"')

step-quoted : (c next : ℕ) → IsQuotable c → step quoted c next ≡ go quoted (c ∷ []) 0
unfolding step
step-quoted c next h = ground arith

step-plain : (c next : ℕ) → IsPlain c → step plain c next ≡ go plain (c ∷ []) 0
unfolding step is_separator
step-plain c next h = ground arith

scan_text-close_quote :
    (rest out : Bytes) (line : ℕ)
    → scan_text quoted out line (b'"' ∷ rest) ≡ scan_text plain out line rest
unfolding scan_text step
scan_text-close_quote rest out line = rw (append-nil out, add-zero line)

scan_text-quoted :
    (w rest out : Bytes) (line : ℕ)
    → All IsQuotable w
    → scan_text quoted out line (w ++ b'"' ∷ rest) ≡ scan_text plain (out ++ w) line rest
unfolding scan_text
scan_text-quoted [] rest out line h =
    scan_text-close_quote rest out line
    ∙ ap (λ w. scan_text plain w line rest) (sym (append-nil out))
scan_text-quoted (c ∷ w) rest out line h =
    rw (step-quoted c _ h.0, scan_text, add-zero)
      (scan_text-quoted w rest (out ++ c ∷ []) line h.1 ∙ rw append_assoc)

scan_text-plain :
    (w rest out : Bytes) (line : ℕ)
    → All IsPlain w
    → scan_text plain out line (w ++ rest) ≡ scan_text plain (out ++ w) line rest
unfolding scan_text
scan_text-plain [] rest out line h = rw append-nil
scan_text-plain (c ∷ w) rest out line h =
    rw (step-plain c _ h.0, scan_text, add-zero)
      (scan_text-plain w rest (out ++ c ∷ []) line h.1 ∙ rw append_assoc)

scan_text-open_quote :
    (rest : Bytes) (line : ℕ)
    → scan_text plain [] line (b'"' ∷ rest) ≡ scan_text quoted [] line rest
unfolding scan_text step is_separator
scan_text-open_quote rest line = rw (add-zero line)

-- Bytes that end a word.
abbrev pub IsSeparator : ℕ → Type 0
IsSeparator c = (c ≡ b' ') ⊎ (c ≡ b'\t') ⊎ (c ≡ b'\r') ⊎ (c ≡ b'\n')

scan_text-separator :
    (sep : ℕ) (rest out : Bytes) (line : ℕ)
    → IsSeparator sep
    → scan_text plain out line (sep ∷ rest)
      ≡ (text, record { ptr = rest; text = out; line = line; nexttoken = sep == b'\n' })
unfolding scan_text step is_separator
scan_text-separator sep rest out line h = ground arith

-- When no token is kept, a word of plain bytes that does not begin a comment is read as itself,
-- up to the separator behind it; if that is a newline, it is kept for the next call, and the
-- line count stays.
pub next_token-word :
    (s : LexState) (c sep : ℕ) (w rest : Bytes)
    → s.nexttoken ≡ false
    → s.ptr ≡ (c ∷ w) ++ sep ∷ rest
    → All IsPlain (c ∷ w)
    → c ≢ b'#'
    → IsSeparator sep
    → next_token s
      ≡ (text, record { ptr = rest; text = c ∷ w; line = s.line; nexttoken = sep == b'\n' })
unfolding next_token is_separator
next_token-word s c sep w rest n p h hash k = ground (
  arith,
  scan_text-plain (c ∷ w) (sep ∷ rest) [] s.line h ∙ scan_text-separator sep rest (c ∷ w) s.line k,
)

-- When no token is kept, a text in quotes with a separator behind it is read as what stands
-- between the quotes, if that has no quote and no NUL: blanks, newlines, backslashes and `#`
-- included. If the separator is a newline, it is kept for the next call, and the line count
-- stays.
pub next_token-quoted :
    (s : LexState) (sep : ℕ) (w rest : Bytes)
    → s.nexttoken ≡ false
    → s.ptr ≡ b'"' ∷ (w ++ b'"' ∷ sep ∷ rest)
    → All IsQuotable w
    → IsSeparator sep
    → next_token s
      ≡ (text, record { ptr = rest; text = w; line = s.line; nexttoken = sep == b'\n' })
unfolding next_token is_separator
next_token-quoted s sep w rest n p h k = ground (
  arith,
  scan_text-open_quote (w ++ b'"' ∷ sep ∷ rest) s.line,
  scan_text-quoted w (sep ∷ rest) [] s.line h ∙ scan_text-separator sep rest w s.line k,
)
