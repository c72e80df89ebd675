-- ===== src/Init/Lexer.antt =====
-- `next_token` of android2.1_init/init/parser.c. The text is rewritten in place there; the model
-- holds the bytes still to be read and the bytes written apart, and Lexer/Bounds shows that the
-- write position never passes the read position, so that no write changes a byte still to be read.
pub mod Bounds
pub mod Words
pub mod Escapes
use demonstratortool.Base.{
  ℕ, zero, suc, ◌+◌, ◌-◌, ◌*◌, ◌/◌, ◌%◌, ◌^◌, ◌≤◌, ◌<◌, String, ◌≡◌, refl, sym, ap, ◌∙◌, subst, ◌≢◌,
  ◌↔◌, ◌⊎◌, inl, inr, Bool, true, false, not, ◌&&◌, ◌||◌, Option, none, some, List, [], ◌∷◌, ◌++◌,
  map, arith, ltb, leb, ◌==◌, if◌then◌else◌, ==_iff, ==_refl, ltb_iff, leb_iff, Bool-cases,
  Option-cases, ◌>>=◌, >>=-eq-some, length, get_elem?, set, take, drop, All, length-append,
  length-set, get_elem?-set_self, get_elem?-set_ne, get_elem?-lt-length, All-append, All-get_elem?,
  All-set, Bytes, codes, streq, starts_with, strchr, is_space, is_alpha, is_digit, is_alnum,
  streq_iff, streq_refl, starts_with-append, strchr-append, ulong_mod, digit_value, strtoul,
}

-- `T_EOF`, `T_TEXT` and `T_NEWLINE`
pub data Token : Type 0 where
  eof text newline : Token

-- The fields of `struct parse_state` that the lexer uses: `ptr` as the bytes from there on,
-- `text`, `line`, and `nexttoken`, which is 0 or `T_NEWLINE`.
pub record LexState : Type 0 where
  pub ptr : Bytes
  pub text : Bytes
  pub line : ℕ
  pub nexttoken : Bool

-- Where the reader stands inside a text: in the loop behind `textresume`, inside quotes, behind a
-- backslash, or in the blanks behind a line continuation.
pub data Mode : Type 0 where
  plain quoted escaped continued : Mode

-- What one byte leads to: `goto textdone` at this byte, or behind it (with `nexttoken` set or
-- not), `return T_EOF`, or the next byte in some mode with bytes written and lines counted.
pub data Action : Type 0 where
  stop_here : Action
  stop_after : Bool → Action
  unterminated : Action
  go : Mode → Bytes → ℕ → Action

pub is_blank : ℕ → Bool
is_blank c = c == b' ' || c == b'\t'

pub is_separator : ℕ → Bool
unfolding is_blank
is_separator c = is_blank c || c == b'\r'

-- The `switch` behind `textresume`
pub plain_step : ℕ → Action
unfolding is_separator
plain_step c =
    if c == 0
    then stop_here
    else if is_separator c
    then stop_after false
    else if c == b'\n'
    then stop_after true
    else if c == b'"'
    then go quoted [] 0
    else if c == b'\\'
    then go escaped [] 0
    else go plain (c ∷ []) 0

-- The `switch` of `case '"'`
pub quoted_step : ℕ → Action
quoted_step c =
    if c == 0 then unterminated else if c == b'"' then go plain [] 0 else go quoted (c ∷ []) 0

-- `*s++ = c; break;`, after which the loop reads the same byte again
abbrev write_and_reread : ℕ → Action → Action
write_and_reread c (go m out lines) = go m (c ∷ out) lines
write_and_reread c stop_here = stop_here
write_and_reread c (stop_after b) = stop_after b
write_and_reread c unterminated = unterminated

-- The `switch` of `case '\\'`; `next` is `x[1]`.
pub escaped_step : ℕ → ℕ → Action
unfolding plain_step
escaped_step c next =
    if c == 0
    then stop_here
    else if c == b'n'
    then write_and_reread b'\n' (plain_step c)
    else if c == b'r'
    then write_and_reread b'\r' (plain_step c)
    else if c == b't'
    then write_and_reread b'\t' (plain_step c)
    else if c == b'\\'
    then write_and_reread b'\\' (plain_step c)
    else if c == b'\r'
    then (if not (next == b'\n') then go plain [] 0 else go continued [] 1)
    else if c == b'\n'
    then go continued [] 1
    else go plain (c ∷ []) 0

-- `while((*x == ' ') || (*x == '\t')) x++; continue;`
pub continued_step : ℕ → Action
unfolding is_blank plain_step
continued_step c = if is_blank c then go continued [] 0 else plain_step c

unfoldable pub step : Mode → ℕ → ℕ → Action
unfolding plain_step quoted_step escaped_step continued_step
step plain c next = plain_step c
step quoted c next = quoted_step c
step escaped c next = escaped_step c next
step continued c next = continued_step c

-- The byte at the read position; a NUL stands behind the last one.
abbrev pub peek : Bytes → ℕ
peek [] = 0
peek (c ∷ cs) = c

-- From inside a text to its end; `out` has been written, `s` is to be read.
pub scan_text : Mode → Bytes → ℕ → Bytes → Token × LexState
scan_text m out line [] = elim m [
  | quoted ↦ (eof, record { ptr = []; text = out; line = line; nexttoken = false })
  | _ ↦ (text, record { ptr = []; text = out; line = line; nexttoken = false })
]
scan_text m out line (c ∷ cs) = elim (step m c (peek cs)) [
  | stop_here ↦ (text, record { ptr = c ∷ cs; text = out; line = line; nexttoken = false })
  | stop_after b ↦ (text, record { ptr = cs; text = out; line = line; nexttoken = b })
  | unterminated ↦ (eof, record { ptr = c ∷ cs; text = out; line = line; nexttoken = false })
  | go m' written lines ↦ scan_text m' (out ++ written) (line + lines) cs
]

-- `while (*x && (*x != '\n')) x++;`
pub skip_comment : Bytes → Bytes
skip_comment [] = []
skip_comment (c ∷ cs) = if c == 0 || c == b'\n' then c ∷ cs else skip_comment cs

-- The loop in front of a token, from the position `x`
unfoldable pub scan : LexState → Bytes → Token × LexState
unfolding is_separator skip_comment scan_text step
scan s [] = (eof, record s { ptr = [] })
scan s (c ∷ cs) =
    let again = scan s cs in
    if c == 0
    then (eof, record s { ptr = c ∷ cs })
    else if c == b'\n'
    then (newline, record s { line = s.line + 1; ptr = cs })
    else if is_separator c
    then again
    else if c == b'#'
    then (newline, record s { line = s.line + 1; ptr = skip_comment (c ∷ cs) })
    else scan_text plain [] s.line (c ∷ cs)

unfoldable pub next_token : LexState → Token × LexState
unfolding scan
next_token s = if s.nexttoken then (newline, record s { nexttoken = false }) else scan s s.ptr

-- To prove something of the scan of a text, look at what its first byte leads to.
pub scan_text_cases {ℓ} :
    (P : Token × LexState → Type ℓ) (m : Mode) (out : Bytes) (line c : ℕ) (cs : Bytes)
    → (step m c (peek cs) ≡ stop_here
        → P (text, record { ptr = c ∷ cs; text = out; line = line; nexttoken = false }))
    → ((b : Bool)
        → step m c (peek cs) ≡ stop_after b
        → P (text, record { ptr = cs; text = out; line = line; nexttoken = b }))
    → (step m c (peek cs) ≡ unterminated
        → P (eof, record { ptr = c ∷ cs; text = out; line = line; nexttoken = false }))
    → ((m' : Mode) (written : Bytes) (lines : ℕ)
        → step m c (peek cs) ≡ go m' written lines
        → P (scan_text m' (out ++ written) (line + lines) cs))
    → P (scan_text m out line (c ∷ cs))
unfolding scan_text
scan_text_cases P m out line c cs here after open_quote on = split (step m c (peek cs)) refl
  where
    split : (a : Action) → step m c (peek cs) ≡ a → P (scan_text m out line (c ∷ cs))
    split stop_here e = rw (e, scan_text) (here e)
    split (stop_after b) e = rw (e, scan_text) (after b e)
    split unterminated e = rw (e, scan_text) (open_quote e)
    split (go m' written lines) e = rw (e, scan_text) (on m' written lines e)
