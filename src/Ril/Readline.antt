-- ===== src/Ril/Readline.antt =====
-- The line buffer of android2.1_init/hard_ril/reference-ril/atchannel.c, byte by byte: `readline`.
pub mod Stale
use demonstratortool.Base.{
  ℕ, zero, suc, ◌+◌, ◌-◌, ◌*◌, ◌/◌, ◌%◌, ◌^◌, ◌≤◌, ◌<◌, String, ◌≡◌, refl, sym, ap, ◌∙◌, subst, ◌≢◌,
  ◌↔◌, ◌⊎◌, inl, inr, Bool, true, false, not, ◌&&◌, ◌||◌, Option, none, some, List, [], ◌∷◌, ◌++◌,
  map, arith, ltb, leb, ◌==◌, if◌then◌else◌, ==_iff, ==_refl, ltb_iff, leb_iff, Bool-cases,
  Option-cases, length, get_elem?, set, take, drop, All, length-append, length-map, length-tail-le,
  length-set, get_elem?-set_self, get_elem?-set_ne, get_elem?-lt-length, get_elem?-append_self,
  All-append, All-get_elem?, All-set, Bytes, codes, streq, starts_with, strchr, is_space, is_alpha,
  is_digit, is_alnum, streq_iff, streq_refl, starts_with-append, strchr-append, ulong_mod,
  digit_value, strtoul, atoi, strtol, has_number, skip_spaces,
}

abbrev pub max_at_response : ℕ
max_at_response = 8 * 1024

-- `s_ATBuffer` with all its bytes, `s_ATBufferCur` as an index, and the calls of `read` so far.
pub record Reader : Type 0 where
  pub buffer : Bytes
  pub cur : ℕ
  pub reads : ℕ

-- What the n-th call of `read` gives for so much room: some bytes, or none at the end or on an error; a
-- call that a signal interrupts is not counted.
pub record Source : Type 0 where
  pub read : ℕ → ℕ → Option Bytes

-- `read` gives at least one byte, and no more than there is room for.
pub record IsSource (src : Source) : Type 0 where
  pub some_bytes :
      (n room : ℕ) (s : Bytes)
      → src.read n room ≡ some s
      → 0 < room
      → (0 < length s) × (length s ≤ room)

-- A line, or NULL; a read outside of the buffer; or no end with this fuel.
pub data Read : Type 0 where
  got : Bytes → Reader → Read
  null : Reader → Read
  out_of_bounds no_fuel : Read

abbrev pub is_newline : ℕ → Bool
is_newline c = c == b'\r' || c == b'\n'

-- The number of newlines at the front.
unfoldable pub newlines : Bytes → ℕ
newlines [] = 0
newlines (c ∷ cs) = if is_newline c then suc (newlines cs) else 0

-- The text up to its NUL.
unfoldable pub text : Bytes → Bytes
text [] = []
text (c ∷ cs) = if c == 0 then [] else c ∷ text cs

-- The distance to the next newline, none if a NUL comes first.
unfoldable pub scan_eol : Bytes → Option ℕ
scan_eol [] = none
scan_eol (c ∷ cs) =
    if c == 0
    then none
    else if is_newline c
    then some 0
    else elim (scan_eol cs) [ none ↦ none | some n ↦ some (suc n) ]

unfoldable pub is_prompt : Bytes → Bool
is_prompt (a ∷ b ∷ c ∷ cs) = a == b'>' && b == b' ' && c == 0
is_prompt cs = false

-- `findNextEOL`: the prompt for an SMS has no newline behind it.
unfoldable pub find_next_eol : Bytes → Option ℕ
unfolding is_prompt scan_eol
find_next_eol cs = if is_prompt cs then some 2 else scan_eol cs

abbrev pub memory : Reader → Bytes
memory r = drop r.cur r.buffer

unfoldable pub skip_newlines : Reader → Reader
unfolding newlines
skip_newlines r = record r { cur = r.cur + newlines (memory r) }

-- `*s_ATBufferCur = '\0'` at the start of the buffer
unfoldable pub clear_buffer : Reader → Reader
clear_buffer r = record r { cur = 0; buffer = set r.buffer 0 0 }

-- `memmove(s_ATBuffer, s_ATBufferCur, len + 1)`
unfoldable pub move_up : Reader → Reader
unfolding text
move_up r = record r {
  cur = 0;
  buffer = (text (memory r) ++ 0 ∷ []) ++ drop (length (text (memory r)) + 1) r.buffer;
}

-- Bytes that `read` stores at an index, and the NUL behind them.
unfoldable pub store : ℕ → Bytes → Reader → Reader
store at s r = record r {
  buffer = take at r.buffer ++ ((s ++ 0 ∷ []) ++ drop (at + length s + 1) r.buffer);
  reads = r.reads + 1;
}

-- The line in front of a newline at this distance; the newline is overwritten.
unfoldable pub finish_line : ℕ → Reader → Read
finish_line n r =
    got (take n (memory r)) (record r { buffer = set r.buffer (r.cur + n) 0; cur = r.cur + n + 1 })

-- The loop that reads, with `p_read` as an index.
unfoldable pub read_loop : Source → ℕ → ℕ → Reader → Read
unfolding clear_buffer store skip_newlines find_next_eol finish_line
read_loop src zero p_read r = no_fuel
read_loop src (suc fuel) p_read r0 =
    let full = max_at_response - p_read == 0 in
    let r = if full then clear_buffer r0 else r0 in
    let at : ℕ = if full then 0 else p_read in
    elim (src.read r.reads (max_at_response - at)) [
      | none ↦ null (record r { reads = r.reads + 1 })
      | some s ↦
          let r' = skip_newlines (store at s r) in
          elim (find_next_eol (memory r')) [
            | some n ↦ finish_line n r'
            | none ↦ read_loop src fuel (at + length s) r'
          ]
    ]

-- `readline` for a buffer that is not consumed, behind the newlines: a whole line is returned, and a
-- partial one is moved up before the loop.
unfoldable pub take_line : Source → ℕ → Reader → Read
unfolding find_next_eol move_up text finish_line read_loop
take_line src fuel r = elim (find_next_eol (memory r)) [
  | some n ↦ finish_line n r
  | none ↦ read_loop src fuel (length (text (memory r))) (move_up r)
]

unfoldable pub readline : Source → ℕ → Reader → Read
unfolding clear_buffer read_loop take_line
readline src fuel r = elim (memory r) [
  | [] ↦ out_of_bounds
  | c ∷ cs ↦
      if c == 0 then read_loop src fuel 0 (clear_buffer r) else take_line src fuel (skip_newlines r)
]
