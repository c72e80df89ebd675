-- ===== src/Init/Lexer/Bounds.antt =====
-- What a call of `next_token` (android2.1_init/init/parser.c) consumes and writes.
use demonstratortool.Base.{
  ℕ, suc, ◌+◌, ◌*◌, ◌≤◌, ◌<◌, ◌≡◌, refl, ◌≢◌, false, [], ◌∷◌, ◌++◌, arith, ◌==◌, if◌then◌else◌,
  length, length-append, Bytes,
}
use demonstratortool.Init.Lexer.{
  eof, text, LexState, Mode, plain, quoted, escaped, continued, Action, go, step, peek, scan_text,
  skip_comment, scan, next_token, scan_text_cases, is_separator,
}

-- A step in a text writes at most one byte more than it has room for: behind a backslash there is
-- one byte of room from the backslash itself.
abbrev room : Mode → ℕ
room escaped = 1
room _ = 0

abbrev Fits : Mode → Action → Type 0
Fits m (go m' written lines) = length written + room m' ≤ 1 + room m
Fits m _ = Unit

step-Fits : (m : Mode) (c next : ℕ) → Fits m (step m c next)
unfolding step
step-Fits plain c next = ground arith
step-Fits quoted c next = ground arith
step-Fits escaped c next = ground arith
step-Fits continued c next = ground arith

go-Fits :
    (m m' : Mode) (c next : ℕ) (written : Bytes) (lines : ℕ)
    → step m c next ≡ go m' written lines
    → length written + room m' ≤ 1 + room m
go-Fits m m' c next written lines e = rw e at (step-Fits m c next)

-- What a text token holds and what is left behind it fit in what was there to read.
scan_text_fits :
    (m : Mode) (out : Bytes) (line : ℕ) (s : Bytes)
    → length (scan_text m out line s).1.text + length (scan_text m out line s).1.ptr
      ≤ length out + room m + length s
unfolding scan_text
scan_text_fits m out line [] = ground arith
scan_text_fits m out line (c ∷ cs) =
    scan_text_cases (λ r. length r.1.text + length r.1.ptr ≤ length out + room m + length (c ∷ cs))
      m out line c cs (λ _. omega arith) (λ _ _. omega arith) (λ _. omega arith)
      λ m' written lines e. omega (
        arith,
        scan_text_fits m' (out ++ written) (line + lines) cs,
        go-Fits m m' c (peek cs) written lines e,
        length-append out written,
      )

-- The first byte of a text is read: a text token leaves less behind it than there was.
scan_text_ptr :
    (m : Mode) (out : Bytes) (line : ℕ) (s : Bytes)
    → length (scan_text m out line s).1.ptr ≤ length s
unfolding scan_text
scan_text_ptr m out line [] = ground arith
scan_text_ptr m out line (c ∷ cs) =
    scan_text_cases (λ r. length r.1.ptr ≤ length (c ∷ cs)) m out line c cs (λ _. omega arith)
      (λ _ _. omega arith) (λ _. omega arith)
      λ m' written lines e. omega (arith, scan_text_ptr m' (out ++ written) (line + lines) cs)

length-skip_comment : (s : Bytes) → length (skip_comment s) ≤ length s
unfolding skip_comment
length-skip_comment [] = omega arith
length-skip_comment (c ∷ cs) = ground (arith, length-skip_comment cs)

-- A byte that starts a text does not end it.
scan_text_starts :
    (line c : ℕ) (cs : Bytes)
    → (c == 0) ≡ false
    → (c == b'\n') ≡ false
    → is_separator c ≡ false
    → length (scan_text plain [] line (c ∷ cs)).1.ptr ≤ length cs
unfolding step
scan_text_starts line c cs h0 h1 h2 =
    scan_text_cases (λ r. length r.1.ptr ≤ length cs) plain [] line c cs (λ e. ground arith)
      (λ _ _. omega arith) (λ e. ground arith)
      λ m' written lines e. omega (arith, scan_text_ptr m' written (line + lines) cs)

-- What the reader still has before it; a stored newline counts as half a byte.
abbrev pub size : LexState → ℕ
size s = 2 * length s.ptr + (if s.nexttoken then 1 else 0)

scan-progress :
    (s : LexState) (x : Bytes) → (scan s x).0 ≢ eof → suc (length (scan s x).1.ptr) ≤ length x
unfolding scan
scan-progress s [] h = absurd (h refl)
scan-progress s (c ∷ cs) h =
    ground (arith, scan-progress s cs, length-skip_comment cs, scan_text_starts s.line c cs)

-- A token that is not the end of the text brings the reader nearer to it.
pub next_token-progress : (s : LexState) → (next_token s).0 ≢ eof → size (next_token s).1 < size s
unfolding next_token
next_token-progress s h = ground (arith, scan-progress s s.ptr)

scan_in_place :
    (s : LexState) (x : Bytes)
    → (scan s x).0 ≡ text
    → length (scan s x).1.text + length (scan s x).1.ptr ≤ length x
unfolding scan
scan_in_place s [] h = cc
scan_in_place s (c ∷ cs) h =
    ground (arith, scan_in_place s cs, scan_text_fits plain [] s.line (c ∷ cs))

-- When `next_token` finds a text, the bytes that it has written and the bytes that are left to
-- read are together no more than it had to read: the text, which is written over the input, ends
-- no later than the read position.
pub next_token_in_place :
    (s : LexState)
    → (next_token s).0 ≡ text
    → length (next_token s).1.text + length (next_token s).1.ptr ≤ length s.ptr
unfolding next_token
next_token_in_place s h = ground (arith, scan_in_place s s.ptr)
