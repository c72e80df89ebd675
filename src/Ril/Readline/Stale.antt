-- ===== src/Ril/Readline/Stale.antt =====
-- Lines that are in the buffer already (`readline` of
-- android2.1_init/hard_ril/reference-ril/atchannel.c), the prompt for an SMS among them.
use demonstratortool.Base.{
  take-append, drop-append, drop-drop, drop-set, ℕ, ◌+◌, ◌≡◌, refl, sym, ap, ◌∙◌, ◌≢◌, ◌⊎◌, false,
  some, [], ◌∷◌, ◌++◌, arith, ◌==◌, length, set, take, drop, All, Bytes, codes,
}
use native.Mathlib.Nat.{add_assoc, add-zero}
use demonstratortool.Ril.Readline.{
  Reader, Source, got, memory, newlines, scan_eol, is_prompt, find_next_eol, skip_newlines,
  finish_line, take_line, readline,
}

-- A byte inside a line
abbrev pub IsInside : ℕ → Type 0
IsInside c = (c ≢ 0) × (c ≢ b'\r') × (c ≢ b'\n')

abbrev pub IsEol : ℕ → Type 0
IsEol c = (c ≡ b'\r') ⊎ (c ≡ b'\n')

scan_eol-append :
    (w rest : Bytes) (e : ℕ) → All IsInside w → IsEol e → scan_eol (w ++ e ∷ rest) ≡ some (length w)
unfolding scan_eol
scan_eol-append [] rest e h k = ground arith
scan_eol-append (c ∷ w) rest e h k = ground (arith, scan_eol-append w rest e h.1 k)

newlines-append :
    (nl : Bytes) (c : ℕ) (rest : Bytes)
    → All IsEol nl
    → IsInside c
    → newlines (nl ++ c ∷ rest) ≡ length nl
unfolding newlines
newlines-append [] c rest h k = ground arith
newlines-append (x ∷ nl) c rest h k = ground (arith, newlines-append nl c rest h.1 k)

is_prompt-append :
    (w rest : Bytes) (e : ℕ) → All IsInside w → IsEol e → is_prompt (w ++ e ∷ rest) ≡ false
unfolding is_prompt
is_prompt-append [] [] e h k = refl
is_prompt-append [] (a ∷ []) e h k = refl
is_prompt-append [] (a ∷ b ∷ rest) e h k = ground arith
is_prompt-append (x ∷ []) [] e h k = refl
is_prompt-append (x ∷ []) (a ∷ rest) e h k = ground arith
is_prompt-append (x ∷ y ∷ []) rest e h k = ground arith
is_prompt-append (x ∷ y ∷ z ∷ w) rest e h k = ground arith

find_next_eol-append :
    (w rest : Bytes) (e : ℕ)
    → All IsInside w
    → IsEol e
    → find_next_eol (w ++ e ∷ rest) ≡ some (length w)
unfolding find_next_eol
find_next_eol-append w rest e h k =
    rw (is_prompt-append w rest e h k) (scan_eol-append w rest e h k)

-- Behind a line that has been returned.
memory-finish_line :
    (r : Reader) (w rest : Bytes) (e : ℕ)
    → memory r ≡ w ++ e ∷ rest
    → drop (r.cur + length w + 1) (set r.buffer (r.cur + length w) 0) ≡ rest
memory-finish_line r w rest e m =
    drop-set (r.cur + length w + 1) (r.cur + length w) 0 r.buffer (omega arith)
    ∙ ap (λ (k : ℕ). drop k r.buffer) (add_assoc r.cur (length w) 1)
    ∙ sym (drop-drop r.cur (length w + 1) r.buffer)
    ∙ ap (λ (xs : Bytes). drop (length w + 1) xs) m
    ∙ sym (drop-drop (length w) 1 (w ++ e ∷ rest))
    ∙ ap (λ (xs : Bytes). drop 1 xs) (drop-append w (e ∷ rest))

skip_newlines_lem :
    (r : Reader) (nl rest : Bytes) (c : ℕ)
    → memory r ≡ nl ++ c ∷ rest
    → All IsEol nl
    → IsInside c
    → skip_newlines r ≡ record r { cur = r.cur + length nl }
unfolding skip_newlines
skip_newlines_lem r nl rest c m h k = simp (m, newlines-append nl c rest h k)

readline_found :
    (src : Source) (fuel : ℕ) (r r' : Reader) (x : ℕ) (xs : Bytes) (n : ℕ)
    → memory r ≡ x ∷ xs
    → x ≢ 0
    → skip_newlines r ≡ r'
    → find_next_eol (memory r') ≡ some n
    → readline src fuel r ≡ finish_line n r'
unfolding readline
readline_found src fuel r r' x xs n m ne s f =
    let test : (x == 0) ≡ false = ground arith in
    rw (m, readline, test) (ap (take_line src fuel) s ∙ rw (f, take_line))

first_byte :
    (nl : Bytes) (c : ℕ) (rest : Bytes)
    → All IsEol nl
    → IsInside c
    → (x : ℕ) × (xs : Bytes) × (nl ++ c ∷ rest ≡ x ∷ xs) × (x ≢ 0)
first_byte [] c rest h k = (c, rest, refl, k.0)
first_byte (x ∷ nl) c rest h k = (x, nl ++ c ∷ rest, refl, ground arith)

memory-skip :
    (r : Reader) (nl rest : Bytes)
    → memory r ≡ nl ++ rest
    → drop (r.cur + length nl) r.buffer ≡ rest
memory-skip r nl rest m =
    sym (drop-drop r.cur (length nl) r.buffer)
    ∙ ap (λ (xs : Bytes). drop (length nl) xs) m
    ∙ drop-append nl rest

-- When the buffer has a whole line, behind newlines perhaps, `readline` returns it, reads nothing, and
-- leaves what follows its newline.
readline_ready :
    (src : Source) (fuel : ℕ) (r : Reader) (nl : Bytes) (c : ℕ) (w rest : Bytes) (e : ℕ)
    → memory r ≡ nl ++ ((c ∷ w) ++ e ∷ rest)
    → All IsEol nl
    → All IsInside (c ∷ w)
    → IsEol e
    → (r' : Reader) × (readline src fuel r ≡ got (c ∷ w) r')
      × (memory r' ≡ rest)
      × (r'.reads ≡ r.reads)
unfolding finish_line
readline_ready src fuel r nl c w rest e m h k l =
    let line : Bytes = c ∷ w in
    let skipped : Reader = record r { cur = r.cur + length nl } in
    let (x, xs, starts, ne) = first_byte nl c (w ++ e ∷ rest) h k.0 in
    let here : memory skipped ≡ line ++ e ∷ rest = memory-skip r nl (line ++ e ∷ rest) m in
    let found : find_next_eol (memory skipped) ≡ some (length line) =
      ap find_next_eol here ∙ find_next_eol-append line rest e k l in
    let after : Reader = record skipped {
      buffer = set r.buffer (skipped.cur + length line) 0;
      cur = skipped.cur + length line + 1;
    } in
    (
      after,
      readline_found src fuel r skipped x xs (length line) (m ∙ starts) ne
            (skip_newlines_lem r nl (w ++ e ∷ rest) c m h k.0) found
          ∙ ap (λ (t : Bytes). got t after)
              (ap (λ (t : Bytes). take (length line) t) here ∙ take-append line (e ∷ rest)),
      memory-finish_line skipped line rest e here,
      refl,
    )

-- When the buffer has the prompt for an SMS, `readline` returns it and steps over the NUL behind it.
prompt_stale :
    (src : Source) (fuel : ℕ) (r : Reader) (stale : Bytes)
    → memory r ≡ b'>' ∷ b' ' ∷ 0 ∷ stale
    → (r' : Reader) × (readline src fuel r ≡ got (codes "> ") r')
      × (memory r' ≡ stale)
      × (r'.reads ≡ r.reads)
unfolding finish_line find_next_eol is_prompt
prompt_stale src fuel r stale m =
    let skip : skip_newlines r ≡ r =
      skip_newlines_lem r [] (b' ' ∷ 0 ∷ stale) b'>' m tt (omega arith) ∙ rw add-zero in
    let after : Reader = record r { buffer = set r.buffer (r.cur + 2) 0; cur = r.cur + 2 + 1 } in
    (
      after,
      readline_found src fuel r r b'>' (b' ' ∷ 0 ∷ stale) 2 m (omega arith) skip
            (ap find_next_eol m)
          ∙ ap (λ (t : Bytes). got t after) (ap (λ (t : Bytes). take 2 t) m),
      memory-finish_line r (codes "> ") stale 0 m,
      refl,
    )

-- Behind the prompt for an SMS, the next call returns what an earlier read has left in the buffer behind
-- the NUL, as a line, without a call of `read`.
pub readline_stale :
    (src : Source) (fuel : ℕ) (r : Reader) (c : ℕ) (w rest : Bytes) (e : ℕ)
    → memory r ≡ b'>' ∷ b' ' ∷ 0 ∷ ((c ∷ w) ++ e ∷ rest)
    → All IsInside (c ∷ w)
    → IsEol e
    → (r' : Reader) × (r'' : Reader) × (readline src fuel r ≡ got (codes "> ") r')
      × (readline src fuel r' ≡ got (c ∷ w) r'')
      × (r''.reads ≡ r.reads)
readline_stale src fuel r c w rest e m k l =
    let (r', first, left, none_read) = prompt_stale src fuel r ((c ∷ w) ++ e ∷ rest) m in
    let (r'', second, more, none_read') = readline_ready src fuel r' [] c w rest e left tt k l in
    (r', r'', first, second, none_read' ∙ none_read)
