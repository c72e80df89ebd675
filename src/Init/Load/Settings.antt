-- ===== src/Init/Load/Settings.antt =====
-- What `load_properties` of android2.1_init/init/property_service.c makes of a text.
use demonstratortool.Base.{
  ℕ, ◌≡◌, refl, sym, ap, ◌∙◌, ◌≢◌, inl, inr, true, false, Option, none, some, List, [], ◌∷◌, ◌++◌,
  arith, ◌==◌, Option-cases, All, All-append, Bytes, codes, starts_with, strchr, is_space,
  skip_spaces, Lacks, strchr-first, append-nil, append_assoc,
}
use demonstratortool.Init.Platform.{Platform}
use demonstratortool.Init.World.{World, Run}
use demonstratortool.Init.Load.{
  complete_lines, drop_trailing, trim_end, setting_of, settings, set_all, load_properties,
}

abbrev pub IsBlank : Bytes → Type 0
IsBlank s = All (λ c. (is_space c ≡ true) × (c ≢ b'\n')) s

-- The last byte is no blank.
abbrev pub EndsTight : ℕ → Bytes → Type 0
EndsTight c [] = is_space c ≡ false
EndsTight c (d ∷ ds) = EndsTight d ds

-- No blank at the start or at the end.
abbrev pub IsTight : Bytes → Type 0
IsTight [] = Unit
IsTight (c ∷ cs) = (is_space c ≡ false) × EndsTight c cs

-- A line of a file of properties: a name and a value with blanks around them, or a comment.
pub data Line : Type 0 where
  assign : Bytes → Bytes → Bytes → Bytes → Bytes → Bytes → Line
  comment : Bytes → Bytes → Line

abbrev pub text_of : Line → Bytes
text_of (assign a key b c value d) = (a ++ (key ++ b)) ++ b'=' ∷ (c ++ (value ++ d))
text_of (comment a s) = a ++ b'#' ∷ s

abbrev pub IsLine : Line → Type 0
IsLine (assign a key b c value d) =
    IsBlank a
    × IsBlank b
    × IsBlank c
    × IsBlank d
    × IsTight key
    × IsTight value
    × Lacks b'=' key
    × Lacks b'\n' key
    × Lacks b'\n' value
    × (starts_with key (codes "#") ≡ false)
IsLine (comment a s) = IsBlank a × Lacks b'\n' s

unfoldable pub text_lines : List Line → Bytes
text_lines [] = []
text_lines (l ∷ ls) = text_of l ++ b'\n' ∷ text_lines ls

unfoldable pub pairs : List Line → List (Bytes × Bytes)
pairs [] = []
pairs (assign a key b c value d ∷ ls) = (key, value) ∷ pairs ls
pairs (comment a s ∷ ls) = pairs ls

complete_lines-append :
    (cur l rest : Bytes)
    → Lacks b'\n' l
    → complete_lines cur (l ++ b'\n' ∷ rest) ≡ (cur ++ l) ∷ complete_lines [] rest
unfolding complete_lines
complete_lines-append cur [] rest h =
    ap (λ (t : Bytes). t ∷ complete_lines [] rest) (sym (append-nil cur))
complete_lines-append cur (c ∷ l) rest h =
    let other : (c == b'\n') ≡ false = ground arith in
    rw other (
      complete_lines-append (cur ++ c ∷ []) l rest h.1
      ∙ ap (λ (t : Bytes). t ∷ complete_lines [] rest) (append_assoc cur (c ∷ []) l))

skip_spaces-append : (a s : Bytes) → IsBlank a → skip_spaces (a ++ s) ≡ skip_spaces s
unfolding skip_spaces
skip_spaces-append [] s h = refl
skip_spaces-append (c ∷ a) s h = rw h.0.0 (skip_spaces-append a s h.1)

drop_trailing-blank : (b : Bytes) → IsBlank b → drop_trailing b ≡ []
unfolding drop_trailing
drop_trailing-blank [] h = refl
drop_trailing-blank (c ∷ b) h = rw (drop_trailing-blank b h.1, h.0.0) refl

drop_trailing-append : (s b : Bytes) → IsBlank b → drop_trailing (s ++ b) ≡ drop_trailing s
unfolding drop_trailing
drop_trailing-append [] b h = drop_trailing-blank b h
drop_trailing-append (c ∷ s) b h = rw (drop_trailing-append s b h) refl

drop_trailing-tight : (c : ℕ) (s : Bytes) → EndsTight c s → drop_trailing (c ∷ s) ≡ c ∷ s
unfolding drop_trailing
drop_trailing-tight c [] h = rw h refl
drop_trailing-tight c (d ∷ ds) h = rw (drop_trailing-tight d ds h) refl

drop_tail : (c : ℕ) (s : Bytes) → EndsTight c s → drop_trailing s ≡ s
drop_tail c [] h = unfold drop_trailing in refl
drop_tail c (d ∷ ds) h = drop_trailing-tight d ds h

skip_spaces-blank : (b : Bytes) → IsBlank b → skip_spaces b ≡ []
unfolding skip_spaces
skip_spaces-blank [] h = refl
skip_spaces-blank (c ∷ b) h = rw h.0.0 (skip_spaces-blank b h.1)

trimmed :
    (a s b : Bytes) → IsBlank a → IsBlank b → IsTight s → trim_end (skip_spaces (a ++ (s ++ b))) ≡ s
unfolding trim_end skip_spaces
trimmed a [] b h k t = rw (skip_spaces-append a b h, skip_spaces-blank b k) refl
trimmed a (c ∷ s) b h k t =
    rw (skip_spaces-append a (c ∷ (s ++ b)) h, t.0)
      (ap (λ (r : Bytes). c ∷ r) (drop_trailing-append s b k ∙ drop_tail c s t.1))

blank-Lacks : (c : ℕ) (s : Bytes) → is_space c ≡ false → IsBlank s → Lacks c s
blank-Lacks c [] n h = tt
blank-Lacks c (x ∷ s) n h =
    let other : x ≢ c = λ e. cc (ap is_space e, h.0.0, n) in (other, blank-Lacks c s n h.1)

newline-Lacks : (s : Bytes) → IsBlank s → Lacks b'\n' s
newline-Lacks [] h = tt
newline-Lacks (x ∷ s) h = (h.0.1, newline-Lacks s h.1)

Lacks-append : (c : ℕ) (s t : Bytes) → Lacks c s → Lacks c t → Lacks c (s ++ t)
Lacks-append c s t h k = All-append (λ x. x ≢ c) s t h k

no_comment :
    (a key b : Bytes)
    → IsBlank a
    → IsBlank b
    → IsTight key
    → starts_with key (codes "#") ≡ false
    → starts_with (skip_spaces (a ++ (key ++ b))) (codes "#") ≡ false
unfolding skip_spaces starts_with
no_comment a [] b h k t n = rw (skip_spaces-append a b h, skip_spaces-blank b k) refl
no_comment a (c ∷ key) b h k t n = rw (skip_spaces-append a (c ∷ (key ++ b)) h, t.0) n

strchr-behind :
    (c x : ℕ) (s key value : Bytes)
    → x ≢ c
    → strchr (x ∷ s) c ≡ some (key, value)
    → (before : Bytes) × (key ≡ x ∷ before) × (strchr s c ≡ some (before, value))
unfolding strchr
strchr-behind c x s key value n e =
    let other : (x == c) ≡ false = ground arith in
    elim (Option-cases (strchr s c)) [
      | inl k ↦ absurd (cc (rw (other, k, strchr) at e))
      | inr ((b, v), k) ↦
          let split : Option (Bytes × Bytes) = some (x ∷ b, v) in
          let same : split ≡ some (key, value) = (rw (other, k, strchr) at e) in (b, cc, cc)
    ]

is_comment :
    (a s key value : Bytes)
    → IsBlank a
    → strchr (a ++ b'#' ∷ s) b'=' ≡ some (key, value)
    → starts_with (skip_spaces key) (codes "#") ≡ true
unfolding skip_spaces starts_with
is_comment [] s key value h e =
    let (before, starts, found) = strchr-behind b'=' b'#' s key value (omega arith) e in
    rw starts refl
is_comment (c ∷ a) s key value h e =
    let other : c ≢ b'=' = (blank-Lacks b'=' (c ∷ a) refl h).0 in
    let (before, starts, found) = strchr-behind b'=' c (a ++ b'#' ∷ s) key value other e in
    rw (starts, h.0.0) (is_comment a s before value h.1 found)

setting_of-assign :
    (a key b c value d : Bytes)
    → IsLine (assign a key b c value d)
    → setting_of (text_of (assign a key b c value d)) ≡ some (key, value)
unfolding setting_of
setting_of-assign a key b c value d (ha, hb, hc, hd, tk, tv, no_eq, no_nl, no_nl', no_hash) =
    let front : Lacks b'=' (a ++ (key ++ b)) =
      Lacks-append b'=' a (key ++ b) (blank-Lacks b'=' a refl ha)
        (Lacks-append b'=' key b no_eq (blank-Lacks b'=' b refl hb)) in
    rw
      (
        setting_of,
        strchr-first b'=' (a ++ (key ++ b)) (c ++ (value ++ d)) front,
        no_comment a key b ha hb tk no_hash,
        trimmed a key b ha hb tk,
        trimmed c value d hc hd tv,
      )
      refl

setting_of-comment : (a s : Bytes) → IsBlank a → setting_of (text_of (comment a s)) ≡ none
unfolding setting_of
setting_of-comment a s h = elim (Option-cases (strchr (a ++ b'#' ∷ s) b'=')) [
  | inl e ↦ rw (setting_of, e) refl
  | inr ((key, value), e) ↦ rw (setting_of, e, is_comment a s key value h e) refl
]

text_of-Lacks : (l : Line) → IsLine l → Lacks b'\n' (text_of l)
text_of-Lacks (assign a key b c value d) (ha, hb, hc, hd, tk, tv, no_eq, no_nl, no_nl', no_hash) =
    let nl : ℕ = b'\n' in
    Lacks-append nl (a ++ (key ++ b)) (b'=' ∷ (c ++ (value ++ d)))
      (Lacks-append nl a (key ++ b) (newline-Lacks a ha)
        (Lacks-append nl key b no_nl (newline-Lacks b hb)))
      (
        omega arith,
        Lacks-append nl c (value ++ d) (newline-Lacks c hc)
            (Lacks-append nl value d no_nl' (newline-Lacks d hd)),
      )
text_of-Lacks (comment a s) h =
    Lacks-append b'\n' a (b'#' ∷ s) (newline-Lacks a h.0) (omega arith, h.1)

settings-pairs :
    (ls : List Line) → All IsLine ls → settings (complete_lines [] (text_lines ls)) ≡ pairs ls
unfolding settings complete_lines pairs text_lines
settings-pairs [] h = refl
settings-pairs (assign a key b c value d ∷ ls) h =
    let l : Line = assign a key b c value d in
    rw
      (
        complete_lines-append [] (text_of l) (text_lines ls) (text_of-Lacks l h.0),
        settings,
        setting_of-assign a key b c value d h.0,
      )
      (ap (λ (r : List (Bytes × Bytes)). (key, value) ∷ r) (settings-pairs ls h.1))
settings-pairs (comment a s ∷ ls) h =
    rw
      (
        complete_lines-append [] (text_of (comment a s)) (text_lines ls)
            (text_of-Lacks (comment a s) h.0),
        settings,
        setting_of-comment a s h.0.0,
      )
      (settings-pairs ls h.1)

-- A text of lines, each a name and a value with `=` between and blanks around them, or a comment,
-- sets the values in their order, without the blanks, and nothing else. The names have no `=` and do not
-- begin with `#`.
pub load_properties-text_lines :
    (p : Platform) (drain : World → Run World) (ls : List Line) (w : World)
    → All IsLine ls
    → load_properties p drain (text_lines ls) w ≡ set_all p drain (pairs ls) w
unfolding load_properties
load_properties-text_lines p drain ls w h =
    ap (λ (ps : List (Bytes × Bytes)). set_all p drain ps w) (settings-pairs ls h)
