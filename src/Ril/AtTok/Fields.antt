-- ===== src/Ril/AtTok/Fields.antt =====
-- What the fields of an AT response are read as (at_tok_nextstr and at_tok_start of
-- android2.1_init/hard_ril/reference-ril/at_tok.c).
use demonstratortool.Base.{
  ℕ, zero, suc, ◌<◌, ◌≡◌, refl, ap, ◌∙◌, ◌≢◌, true, Option, none, some, List, [], ◌∷◌, ◌++◌, map,
  arith, if◌then◌else◌, length, All, Bytes, strchr, is_space, skip_spaces,
}
use demonstratortool.Ril.AtTok.{
  Cursor, strsep, take_tok, next_tok, skip_white_space, skip_next_comma, behind_comma, at_tok_start,
  at_tok_nextstr, at_tok_hasmore,
}

abbrev pub Lacks : ℕ → Bytes → Type 0
Lacks c s = All (λ x. x ≢ c) s

strchr-Lacks : (w rest : Bytes) (c : ℕ) → Lacks c w → strchr (w ++ c ∷ rest) c ≡ some (w, rest)
unfolding strchr
strchr-Lacks [] rest c h = ground arith
strchr-Lacks (x ∷ w) rest c h = ground (arith, strchr-Lacks w rest c h.1)

strsep-Lacks :
    (w rest : Bytes) (c : ℕ) → Lacks c w → strsep (some (w ++ c ∷ rest)) c ≡ (some w, some rest)
unfolding strsep
strsep-Lacks w rest c h = rw (strchr-Lacks w rest c h, strsep)

-- A text in quotes, as a field is written.
abbrev pub quote : Bytes → Bytes → Bytes
quote w rest = b'"' ∷ (w ++ b'"' ∷ rest)

-- A field in quotes is read as the text between them, whatever stands there, and the reader is
-- behind the next comma.
pub at_tok_nextstr-quote :
    (w rest : Bytes)
    → Lacks b'"' w
    → at_tok_nextstr (some (quote w rest))
      ≡ record { ok = true; cur = some (behind_comma rest); out = some (some w) }
unfolding at_tok_nextstr next_tok skip_white_space skip_spaces take_tok is_space skip_next_comma
at_tok_nextstr-quote w rest h = rw (strsep-Lacks w rest b'"' h)

-- A response line: fields in quotes, with commas between them.
pub fields_text : Bytes → List Bytes → Bytes
fields_text w [] = quote w []
fields_text w (v ∷ vs) = quote w (b',' ∷ fields_text v vs)

-- The texts that calls of `at_tok_nextstr` give as long as there is more to read.
pub read_all : ℕ → Cursor → List (Option Bytes)
read_all zero cur = []
read_all (suc fuel) cur =
    let answer = at_tok_nextstr cur in
    let rest = read_all fuel answer.cur in
    if at_tok_hasmore cur then elim answer.out [ none ↦ rest | some tok ↦ tok ∷ rest ] else []

read_all_end : (fuel : ℕ) → read_all fuel (some []) ≡ []
unfolding read_all at_tok_hasmore
read_all_end zero = refl
read_all_end (suc fuel) = refl

read_all-quote :
    (fuel : ℕ) (w rest : Bytes)
    → Lacks b'"' w
    → read_all (suc fuel) (some (quote w rest)) ≡ some w ∷ read_all fuel (some (behind_comma rest))
unfolding read_all at_tok_hasmore
read_all-quote fuel w rest h =
    rw (at_tok_nextstr-quote w rest h)
      (ap (λ a. some w ∷ read_all fuel a.cur) (at_tok_nextstr-quote w rest h))

-- Fields without quotes in them that are written in quotes, with commas between, are read back
-- one by one, and then there is no more to read, with any fuel above the number of fields less
-- one.
pub read_all-fields_text :
    (fuel : ℕ) (w : Bytes) (ws : List Bytes)
    → All (Lacks b'"') (w ∷ ws)
    → length ws < fuel
    → read_all fuel (some (fields_text w ws)) ≡ map some (w ∷ ws)
unfolding fields_text behind_comma
read_all-fields_text zero w ws h k = absurd (omega arith)
read_all-fields_text (suc fuel) w [] h k =
    read_all-quote fuel w [] h.0 ∙ ap (λ r. some w ∷ r) (read_all_end fuel)
read_all-fields_text (suc fuel) w (v ∷ vs) h k =
    read_all-quote fuel w (b',' ∷ fields_text v vs) h.0
    ∙ ap (λ r. some w ∷ r) (read_all-fields_text fuel v vs h.1 (omega arith))

-- The prefix of a response up to its first colon is skipped.
pub at_tok_start-append :
    (prefix rest : Bytes)
    → Lacks b':' prefix
    → at_tok_start (some (prefix ++ b':' ∷ rest)) ≡ (true, some rest)
unfolding at_tok_start
at_tok_start-append prefix rest h = rw (strchr-Lacks prefix rest b':' h, at_tok_start)
