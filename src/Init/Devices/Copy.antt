-- ===== src/Init/Devices/Copy.antt =====
-- How android2.1_init/init/devices.c copies a firmware file to a device.
use demonstratortool.Base.{
  append-nil, append_assoc, ℕ, zero, suc, ◌+◌, ◌-◌, ◌≤◌, ◌≡◌, refl, sym, ap, ◌∙◌, inl, inr, Bool,
  true, false, ◌||◌, Option, none, some, List, [], ◌∷◌, ◌++◌, map, arith, ◌==◌, if◌then◌else◌,
  Option-cases, length, take, All, length-append, Bytes, codes, length-take-le, take-all, pick_by,
}

-- What `write` to the data file returns: the count for the write with the index and the bytes, `none` for
-- an error.
abbrev pub Driver : Type 0
Driver = ℕ → Bytes → Option ℕ

-- A write takes at most what it is given.
pub record IsDriver (d : Driver) : Type 0 where
  pub at_most : (i : ℕ) (xs : Bytes) (k : ℕ) → d i xs ≡ some k → k ≤ length xs

-- Whether all writes of the page succeeded, the index of the next write, and the bytes that the driver took.
pub record Page : Type 0 where
  pub ok : Bool
  pub next : ℕ
  pub taken : Bytes

-- The inner loop: every write starts at the start of the buffer, since `nw` is 0 there.
unfoldable pub send_page : ℕ → Driver → Bytes → ℕ → ℕ → Bytes → Option Page
send_page zero d buf nr i taken =
    if nr == 0 then some (record { ok = true; next = i; taken = taken }) else none
send_page (suc fuel) d buf nr i taken =
    if nr == 0
    then some (record { ok = true; next = i; taken = taken })
    else elim (d i (take nr buf)) [
      | none ↦ some (record { ok = false; next = suc i; taken = taken })
      | some nw ↦
          let rest = send_page fuel d buf (nr - nw) (suc i) (taken ++ take nw buf) in
          if nw == 0 then some (record { ok = false; next = suc i; taken = taken }) else rest
    ]

-- What was written to the loading file behind the "1", and the bytes that the driver took.
pub record Loaded : Type 0 where
  pub mark : Bytes
  pub taken : Bytes

unfoldable pub transfer_end : Bool → Bytes → Loaded
transfer_end ok taken = record { mark = if ok then codes "0" else codes "-1"; taken = taken }

-- The outer loop, over what the reads of the file return: `none` is an error, and the end of the list is the
-- end of the file.
unfoldable pub copy_loop : Driver → ℕ → List (Option Bytes) → ℕ → Bytes → Option Loaded
unfolding send_page transfer_end
copy_loop d len_to_copy [] i taken = some (transfer_end true taken)
copy_loop d len_to_copy (none ∷ reads) i taken = some (transfer_end (len_to_copy == 0) taken)
copy_loop d len_to_copy (some buf ∷ reads) i taken =
    if (len_to_copy == 0) || (length buf == 0)
    then some (transfer_end true taken)
    else elim (send_page (length buf) d buf (length buf) i taken) [
      | none ↦ none
      | some p ↦
          let rest = copy_loop d (len_to_copy - length buf) reads p.next p.taken in
          if p.ok then rest else some (transfer_end false p.taken)
    ]

-- With the size that `fstat` returns; `some none` when it fails.
unfoldable pub load_firmware : Driver → Option ℕ → List (Option Bytes) → Option (Option Loaded)
unfolding copy_loop
load_firmware d none reads = some none
load_firmware d (some st_size) reads = elim (copy_loop d st_size reads 0 []) [
  | none ↦ none
  | some l ↦ some (some l)
]

-- Prefixes of one buffer, one behind another.
unfoldable pub prefixes : List ℕ → Bytes → Bytes
prefixes [] buf = []
prefixes (k ∷ ks) buf = take k buf ++ prefixes ks buf

unfoldable pub total : List ℕ → ℕ
total [] = 0
total (k ∷ ks) = k + total ks

-- What the driver returned for the writes from index `i` on, when each of them gives it the start of the
-- buffer again, as long as what is left of the page.
abbrev pub Answered : Driver → Bytes → ℕ → ℕ → List ℕ → Type 0
Answered d buf nr i [] = nr ≡ 0
Answered d buf nr i (k ∷ ks) = (d i (take nr buf) ≡ some k) × Answered d buf (nr - k) (suc i) ks

-- The bytes behind `taken` are prefixes of the buffer, with the lengths that the driver returned, as long
-- together as the rest of the page.
pub record Repeats (d : Driver) (buf : Bytes) (nr i : ℕ) (taken : Bytes) (p : Page) : Type 0 where
  pub counts : List ℕ
  pub answered : Answered d buf nr i counts
  pub writes : p.next ≡ i + length counts
  pub starts : p.taken ≡ taken ++ prefixes counts buf
  pub together : total counts ≡ nr

abbrev Sends : Driver → Bytes → ℕ → ℕ → Bytes → Option Page → Type 0
Sends d buf nr i taken r = (p : Page) × (r ≡ some p) × (p.ok ≡ true → Repeats d buf nr i taken p)

ends :
    (d : Driver) (buf : Bytes) (nr i : ℕ) (taken : Bytes)
    → nr ≡ 0
    → Sends d buf nr i taken (some (record { ok = true; next = i; taken = taken }))
unfolding prefixes total
ends d buf nr i taken e = (
  _,
  refl,
  λ k. record {
    counts = [];
    answered = e;
    writes = omega arith;
    starts = sym (append-nil taken);
    together = sym e;
  },
)

fails :
    (d : Driver) (buf : Bytes) (nr i : ℕ) (taken : Bytes)
    → Sends d buf nr i taken (some (record { ok = false; next = suc i; taken = taken }))
fails d buf nr i taken = (_, refl, λ k. cc)

goes_on :
    (d : Driver) (buf : Bytes) (nr nw i : ℕ) (taken : Bytes) (r : Option Page)
    → nw ≤ nr
    → d i (take nr buf) ≡ some nw
    → Sends d buf (nr - nw) (suc i) (taken ++ take nw buf) r
    → Sends d buf nr i taken r
unfolding prefixes total
goes_on d buf nr nw i taken r h w (p, e, k) = (
  p,
  e,
  λ o.
      let v = k o in
      record {
        counts = nw ∷ v.counts;
        answered = (w, v.answered);
        writes = omega (arith, v.writes);
        starts = v.starts ∙ append_assoc taken (take nw buf) (prefixes v.counts buf);
        together = omega (arith, v.together);
      },
)

-- With fuel for the rest of the page the inner loop comes to an end, whatever the driver takes, and when all
-- its writes succeeded then each of them gave the driver the start of the page again, as long as what was left
-- of it: what the driver took are prefixes of the page with the lengths that it returned, one behind another, as
-- long together as the page.
pub send_page-Repeats :
    (d : Driver)
    → IsDriver d
    → (fuel : ℕ) (buf : Bytes) (nr i : ℕ) (taken : Bytes) → nr ≤ fuel
    → (p : Page) × (send_page fuel d buf nr i taken ≡ some p)
      × (p.ok ≡ true → Repeats d buf nr i taken p)
unfolding send_page
send_page-Repeats d v zero buf nr i taken h =
    pick_by (Sends d buf nr i taken) (nr == 0) _ _ (λ t. ends d buf nr i taken (ground arith))
      (λ f. ground arith)
send_page-Repeats d v (suc fuel) buf nr i taken h =
    pick_by (Sends d buf nr i taken) (nr == 0) _ _ (λ t. ends d buf nr i taken (ground arith))
      (λ f. elim (Option-cases (d i (take nr buf))) [
        | inl e ↦ rw e (fails d buf nr i taken)
        | inr (nw, e) ↦ rw e (
            pick_by (Sends d buf nr i taken) (nw == 0) _ _ (λ t. fails d buf nr i taken)
              (λ g.
                goes_on d buf nr nw i taken _
                  (omega (arith, v.at_most i (take nr buf) nw e, length-take-le nr buf)) e
                  (send_page-Repeats d v fuel buf (nr - nw) (suc i) (taken ++ take nw buf)
                    (ground arith))))
      ])

-- The pages, one behind another.
unfoldable pub joined : List Bytes → Bytes
joined [] = []
joined (b ∷ bs) = b ++ joined bs

-- A driver that takes all it is given.
pub record IsWhole (d : Driver) : Type 0 where
  pub all_of : (i : ℕ) (xs : Bytes) → d i xs ≡ some (length xs)

send_page-goes_on :
    (fuel : ℕ) (d : Driver) (buf : Bytes) (nr i : ℕ) (taken : Bytes) (nw : ℕ)
    → (nr == 0) ≡ false
    → d i (take nr buf) ≡ some nw
    → (nw == 0) ≡ false
    → send_page (suc fuel) d buf nr i taken
      ≡ send_page fuel d buf (nr - nw) (suc i) (taken ++ take nw buf)
unfolding send_page
send_page-goes_on fuel d buf nr i taken nw f e g = rw (f, e, g) refl

send_page-done :
    (fuel : ℕ) (d : Driver) (buf : Bytes) (nr i : ℕ) (taken : Bytes)
    → nr ≡ 0
    → send_page fuel d buf nr i taken ≡ some (record { ok = true; next = i; taken = taken })
unfolding send_page
send_page-done zero d buf nr i taken e = rw e refl
send_page-done (suc fuel) d buf nr i taken e = rw e refl

send_page-whole :
    (d : Driver)
    → IsWhole d
    → (buf : Bytes) (i : ℕ) (taken : Bytes) → (length buf == 0) ≡ false
    → send_page (length buf) d buf (length buf) i taken
      ≡ some (record { ok = true; next = suc i; taken = taken ++ buf })
unfolding send_page
send_page-whole d v [] i taken f = cc
send_page-whole d v (x ∷ xs) i taken f =
    let n : ℕ = length (x ∷ xs) in
    let all : take n (x ∷ xs) ≡ x ∷ xs = take-all n (x ∷ xs) (omega arith) in
    send_page-goes_on (length xs) d (x ∷ xs) n i taken n f (ap (d i) all ∙ v.all_of i (x ∷ xs)) f
    ∙ send_page-done (length xs) d (x ∷ xs) (n - n) (suc i) (taken ++ take n (x ∷ xs)) (omega arith)
    ∙ ap (λ t. some (record { ok = true; next = suc i; taken = taken ++ t })) all

copy_loop-page :
    (d : Driver) (len : ℕ) (buf : Bytes) (reads : List (Option Bytes)) (i : ℕ) (taken : Bytes)
    (p : Page)
    → ((len == 0) || (length buf == 0)) ≡ false
    → send_page (length buf) d buf (length buf) i taken ≡ some p
    → p.ok ≡ true
    → copy_loop d len (some buf ∷ reads) i taken
      ≡ copy_loop d (len - length buf) reads p.next p.taken
unfolding copy_loop
copy_loop-page d len buf reads i taken p f e k = rw (f, e, k) refl

copy_loop-whole :
    (d : Driver)
    → IsWhole d
    → (pages : List Bytes) (i : ℕ) (taken : Bytes) → All (λ b. (length b == 0) ≡ false) pages
    → copy_loop d (length (joined pages)) (map some pages) i taken
      ≡ some (record { mark = codes "0"; taken = taken ++ joined pages })
unfolding joined copy_loop transfer_end
copy_loop-whole d v [] i taken h =
    ap (λ t. some (record { mark = codes "0"; taken = t })) (sym (append-nil taken))
copy_loop-whole d v (b ∷ bs) i taken h =
    let len : ℕ = length (b ++ joined bs) in
    let left : len - length b ≡ length (joined bs) = omega (arith, length-append b (joined bs)) in
    copy_loop-page d len b (map some bs) i taken _
      (ground (arith, length-append b (joined bs), h.0)) (send_page-whole d v b i taken h.0) refl
    ∙ ap (λ l. copy_loop d l (map some bs) (suc i) (taken ++ b)) left
    ∙ copy_loop-whole d v bs (suc i) (taken ++ b) h.1
    ∙ ap (λ t. some (record { mark = codes "0"; taken = t })) (append_assoc taken b (joined bs))

-- When no read fails or is empty before the size that `fstat` returned is read, and the driver takes all it
-- is given, then the driver gets the file, and the loading file gets "0".
pub load_firmware-whole :
    (d : Driver) (pages : List Bytes)
    → IsWhole d
    → All (λ b. (length b == 0) ≡ false) pages
    → load_firmware d (some (length (joined pages))) (map some pages)
      ≡ some (some (record { mark = codes "0"; taken = joined pages }))
unfolding load_firmware
load_firmware-whole d pages v h = rw (load_firmware, copy_loop-whole d v pages 0 [] h) refl
