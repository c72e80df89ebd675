-- ===== src/Init/Lexer/Escapes.antt =====
-- Escapes and line counts of `next_token` (android2.1_init/init/parser.c), as the code has them.
use demonstratortool.Base.{
  ℕ, ◌+◌, ◌≡◌, refl, sym, ap, ◌∙◌, ◌≢◌, ◌⊎◌, inl, inr, true, false, [], ◌∷◌, ◌++◌, arith, All,
  Bytes,
}
use native.Mathlib.Nat.{add-zero}
use mathlib.Core.List.{append-nil, append_assoc}
use demonstratortool.Init.Lexer.{
  text, newline, LexState, plain, escaped, go, step, peek, scan_text, skip_comment, next_token,
  is_separator,
}

-- The byte that a letter names behind a backslash.
abbrev pub IsEscape : ℕ → ℕ → Type 0
IsEscape c v = ((c ≡ b'n') × (v ≡ b'\n')) ⊎ ((c ≡ b'r') × (v ≡ b'\r')) ⊎ ((c ≡ b't') × (v ≡ b'\t'))

step-IsEscape : (c v next : ℕ) → IsEscape c v → step escaped c next ≡ go plain (v ∷ c ∷ []) 0
unfolding step is_separator
step-IsEscape c v next h = ground arith

scan_text-backslash :
    (rest out : Bytes) (line : ℕ)
    → scan_text plain out line (b'\\' ∷ rest) ≡ scan_text escaped out line rest
unfolding scan_text step is_separator
scan_text-backslash rest out line = rw (append-nil out, add-zero line)

scan_text_escape :
    (c v : ℕ) (rest out : Bytes) (line : ℕ)
    → IsEscape c v
    → scan_text plain out line (b'\\' ∷ c ∷ rest) ≡ scan_text plain (out ++ v ∷ c ∷ []) line rest
unfolding scan_text
scan_text_escape c v rest out line h =
    scan_text-backslash (c ∷ rest) out line
    ∙ rw (step-IsEscape c v (peek rest) h, scan_text, add-zero line)

scan_text_backslash :
    (rest out : Bytes) (line : ℕ)
    → scan_text plain out line (b'\\' ∷ b'\\' ∷ rest)
      ≡ scan_text escaped (out ++ b'\\' ∷ []) line rest
unfolding scan_text step is_separator
scan_text_backslash rest out line = simp (append-nil, add-zero)

step-letter : (c v next : ℕ) → IsEscape c v → step plain c next ≡ go plain (c ∷ []) 0
unfolding step is_separator
step-letter c v next h = ground arith

scan_text-letter :
    (c v : ℕ) (rest out : Bytes) (line : ℕ)
    → IsEscape c v
    → scan_text plain out line (c ∷ rest) ≡ scan_text plain (out ++ c ∷ []) line rest
unfolding scan_text
scan_text-letter c v rest out line h = rw (step-letter c v (peek rest) h, scan_text, add-zero line)

-- Behind a backslash, `n`, `r`, `t` and a second backslash write the byte that they stand for, but are then
-- read once more, as if there were no backslash in front of them.
pub scan_text-reread :
    (c v : ℕ) (rest out : Bytes) (line : ℕ)
    → IsEscape c v ⊎ ((c ≡ b'\\') × (v ≡ b'\\'))
    → scan_text plain out line (b'\\' ∷ c ∷ rest) ≡ scan_text plain (out ++ v ∷ []) line (c ∷ rest)
scan_text-reread c v rest out line (inl h) =
    scan_text_escape c v rest out line h
    ∙ ap (λ (t : Bytes). scan_text plain t line rest) (sym (append_assoc out (v ∷ []) (c ∷ [])))
    ∙ sym (scan_text-letter c v rest (out ++ v ∷ []) line h)
scan_text-reread c v rest out line (inr (e, f)) =
    rw (e, f)
      (scan_text_backslash rest out line ∙ sym (scan_text-backslash rest (out ++ b'\\' ∷ []) line))

-- A line that ends in a backslash, a carriage return and a newline is not continued: the text ends
-- at that newline.
pub scan_text_continuation :
    (rest out : Bytes) (line : ℕ)
    → scan_text plain out line (b'\\' ∷ b'\r' ∷ b'\n' ∷ rest)
      ≡ (text, record { ptr = rest; text = out; line = line + 1; nexttoken = true })
unfolding scan_text step is_separator
scan_text_continuation rest out line = simp (append-nil, add-zero)

skip_comment-append :
    (body rest : Bytes)
    → All (λ c. (c ≢ 0) × (c ≢ b'\n')) body
    → skip_comment (body ++ b'\n' ∷ rest) ≡ b'\n' ∷ rest
unfolding skip_comment
skip_comment-append [] rest h = refl
skip_comment-append (c ∷ body) rest h = ground (arith, skip_comment-append body rest h.1)

-- When no token is kept, a comment that ends in a newline gives two newline tokens, behind which
-- the line is two further on: it is counted where the comment begins, and again at the newline.
next_token_comment :
    (s : LexState) (body rest : Bytes)
    → s.nexttoken ≡ false
    → s.ptr ≡ b'#' ∷ (body ++ b'\n' ∷ rest)
    → All (λ c. (c ≢ 0) × (c ≢ b'\n')) body
    → let first = next_token s in
      let second = next_token first.1 in
      (first.0 ≡ newline)
      × (second.0 ≡ newline)
      × (second.1.ptr ≡ rest)
      × (second.1.line ≡ s.line + 2)
unfolding next_token is_separator
next_token_comment s body rest n p h = ground (arith, skip_comment-append body rest h)
