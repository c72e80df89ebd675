-- ===== src/Ril/Channel/Pending.antt =====
-- What holds of a pending command while the reader thread handles lines
-- (`processLine` of android2.1_init/hard_ril/reference-ril/atchannel.c).
use demonstratortool.Base.{
  ℕ, zero, suc, ◌+◌, ◌≤◌, ◌≡◌, refl, sym, ap, ◌∙◌, subst, inl, inr, Bool, true, false, not, ◌||◌,
  Option, none, some, List, [], ◌∷◌, arith, if◌then◌else◌, Option-cases, length, take, drop, All,
  Bytes, streq,
}
use demonstratortool.Ril.Misc.{str_starts_with}
use demonstratortool.Ril.Channel.{
  process_pending, process_other, CommandType, no_result, numeric, singleline, multiline, AtError,
  AtResponse, wrote, Channel, Link, Run, done, endless, null_read, waiting, ◌>>=◌, emit, write_loop,
  write_ended, write_ctrl_z, is_empty, starts_with_digit, handle_unsolicited, add_intermediate,
  handle_final_response, keep_or_pass, with_prefix, process_by_type, process_line, sms_prompt,
}
use demonstratortool.Ril.Responses.{is_final_response_success, is_final_response_error}

-- A run that ends does so with a value of which `P` holds, and no run reads through a null pointer.
abbrev pub Ensures {ℓ} : {A : Type ℓ} → (A → Type 0) → Run A → Type 0
Ensures P (done a) = P a
Ensures P endless = Unit
Ensures P null_read = ⊥
Ensures P waiting = Unit

pub Ensures-bind {ℓ κ} :
    {A : Type ℓ} {B : Type κ} (P : A → Type 0) (Q : B → Type 0) (m : Run A) (f : A → Run B)
    → Ensures P m
    → ((a : A) → P a → Ensures Q (f a))
    → Ensures Q (m >>= f)
Ensures-bind P Q (done a) f h k = k a h
Ensures-bind P Q endless f h k = tt
Ensures-bind P Q null_read f h k = absurd h
Ensures-bind P Q waiting f h k = tt

pub weaken {ℓ} :
    {A : Type ℓ} (P Q : A → Type 0) (m : Run A) → ((a : A) → P a → Q a) → Ensures P m → Ensures Q m
weaken P Q (done a) k h = k a h
weaken P Q endless k h = tt
weaken P Q null_read k h = absurd h
weaken P Q waiting k h = tt

pub Ensures-if {ℓ} :
    {A : Type ℓ} (P : A → Type 0) (b : Bool) (m n : Run A)
    → (b ≡ true → Ensures P m)
    → (b ≡ false → Ensures P n)
    → Ensures P (if b then m else n)
Ensures-if P true m n h k = h refl
Ensures-if P false m n h k = k refl

-- The two ways of an `if` both have a property.
pub either_way :
    (P : Channel → Type 0) (b : Bool) (x y : Channel) → P x → P y → P (if b then x else y)
either_way P true x y h k = h
either_way P false x y h k = k

-- The intermediate lines that a command of a type may get.
abbrev pub IsAnswer : CommandType → Option Bytes → List Bytes → Type 0
IsAnswer no_result prefix xs = xs ≡ []
IsAnswer numeric prefix xs = (length xs ≤ 1) × All (λ l. starts_with_digit l ≡ true) xs
IsAnswer singleline none xs = ⊥
IsAnswer singleline (some p) xs = (length xs ≤ 1) × All (λ l. str_starts_with l p ≡ true) xs
IsAnswer multiline none xs = ⊥
IsAnswer multiline (some p) xs = All (λ l. str_starts_with l p ≡ true) xs

-- Success is told by the final response.
abbrev pub IsFinal : AtResponse → Type 0
IsFinal r = elim r.final_response [
  | none ↦ r.success ≡ false
  | some l ↦ r.success ≡ is_final_response_success l
]

pub record IsPending (type : CommandType) (prefix : Option Bytes) (c : Channel) : Type 0 where
  pub same_type : c.type ≡ type
  pub same_prefix : c.response_prefix ≡ prefix
  pub pending :
      (r : AtResponse) × (c.response ≡ some r) × IsAnswer type prefix r.intermediates × IsFinal r

-- A write leaves everything but the count of calls and the trace.
abbrev pub SameBut : Channel → Channel → Type 0
SameBut c c' = c' ≡ record c { writes = c'.writes; trace = c'.trace }

SameBut-trans : (c d e : Channel) → SameBut c d → SameBut d e → SameBut c e
SameBut-trans c d e h k =
    k ∙ ap (λ (x : Channel). record x { writes = e.writes; trace = e.trace }) h

write_loop-SameBut :
    (link : Link) (fuel : ℕ) (s : Bytes) (c : Channel)
    → Ensures (λ (r : Option AtError × Channel). SameBut c r.1) (write_loop link fuel s c)
unfolding write_loop
write_loop-SameBut link fuel [] c = refl
write_loop-SameBut link zero (x ∷ s) c = tt
write_loop-SameBut link (suc fuel) (x ∷ s) c = elim (Option-cases (link.write c.writes (x ∷ s))) [
  | inl e ↦ rw (e, write_loop) refl
  | inr (k, e) ↦
      let c' : Channel = emit (wrote (take k (x ∷ s))) (record c { writes = c.writes + 1 }) in
      rw (e, write_loop)
        (weaken (λ (r : Option AtError × Channel). SameBut c' r.1) _ _
          (λ r h. SameBut-trans c c' r.1 refl h) (write_loop-SameBut link fuel (drop k (x ∷ s)) c'))
]

pub write_ended-SameBut :
    (link : Link) (s : Bytes) (end : ℕ) (c : Channel)
    → Ensures (λ (r : Option AtError × Channel). SameBut c r.1) (write_ended link s end c)
unfolding write_ended
write_ended-SameBut link s end c =
    Ensures-if (λ (r : Option AtError × Channel). SameBut c r.1) (not c.fd_open || c.reader_closed)
      _ _ (λ _. refl)
      (λ _.
        Ensures-bind (λ (r : Option AtError × Channel). SameBut c r.1) _ _ _
          (write_loop-SameBut link (length s) s c) after)
  where
    after :
        (r : Option AtError × Channel)
        → SameBut c r.1
        → Ensures
            (λ (r' : Option AtError × Channel). SameBut c r'.1)
            (elim r.0 [ some e ↦ done (some e, r.1) | none ↦ write_loop link 1 (end ∷ []) r.1 ])
    after (some e, d) h = h
    after (none, d) h =
        weaken (λ (r' : Option AtError × Channel). SameBut d r'.1) _ _
          (λ r' k. SameBut-trans c d r'.1 h k) (write_loop-SameBut link 1 (end ∷ []) d)

pub handle_unsolicited-IsPending :
    (type : CommandType) (prefix : Option Bytes) (line : Bytes) (pdu : Option Bytes) (c : Channel)
    → IsPending type prefix c
    → IsPending type prefix (handle_unsolicited line pdu c)
unfolding handle_unsolicited
handle_unsolicited-IsPending type prefix line pdu c v =
    either_way (IsPending type prefix) c.has_unsol_handler _ c
      (record { same_type = v.same_type; same_prefix = v.same_prefix; pending = v.pending }) v

prefix_read :
    (P : Channel → Type 0) (line : Bytes) (f : Bool → Channel) (o : Option Bytes) (q : Bytes)
    → o ≡ some q
    → P (f (str_starts_with line q))
    → Ensures P (with_prefix o line f)
prefix_read P line f o q e h = subst (λ o'. Ensures P (with_prefix o' line f)) (sym e) h

keep_or_pass-IsPending :
    (type : CommandType) (prefix : Option Bytes) (line : Bytes) (r : AtResponse) (c : Channel)
    (b : Bool)
    → c.response ≡ some r
    → IsPending type prefix c
    → IsFinal r
    → (b ≡ true → IsAnswer type prefix (line ∷ r.intermediates))
    → IsPending type prefix (keep_or_pass line r c b)
unfolding add_intermediate
keep_or_pass-IsPending type prefix line r c false e v f k =
    handle_unsolicited-IsPending type prefix line none c v
keep_or_pass-IsPending type prefix line r c true e v f k = record {
  same_type = v.same_type;
  same_prefix = v.same_prefix;
  pending = (record r { intermediates = line ∷ r.intermediates }, refl, k refl, f);
}

is_empty-eq : (xs : List Bytes) → is_empty xs ≡ true → xs ≡ []
is_empty-eq [] h = refl
is_empty-eq (x ∷ xs) h = cc

process_by_type-IsPending :
    (type : CommandType) (prefix : Option Bytes) (line : Bytes) (r : AtResponse) (c : Channel)
    → IsPending type prefix c
    → c.response ≡ some r
    → IsAnswer type prefix r.intermediates
    → IsFinal r
    → Ensures (IsPending type prefix) (process_by_type type line r c)
unfolding process_by_type
process_by_type-IsPending no_result prefix line r c v e a f =
    handle_unsolicited-IsPending no_result prefix line none c v
process_by_type-IsPending numeric prefix line r c v e a f =
    keep_or_pass-IsPending numeric prefix line r c _ e v f
      λ t. ground (arith, is_empty-eq r.intermediates)
process_by_type-IsPending singleline none line r c v e a f = absurd a
process_by_type-IsPending singleline (some q) line r c v e a f =
    Ensures-if (IsPending singleline (some q)) (is_empty r.intermediates) _ _
      (λ t. prefix_read (IsPending singleline (some q)) line _ c.response_prefix q v.same_prefix (
        keep_or_pass-IsPending singleline (some q) line r c _ e v f
          (λ h. ground (arith, is_empty-eq r.intermediates))))
      (λ _. handle_unsolicited-IsPending singleline (some q) line none c v)
process_by_type-IsPending multiline none line r c v e a f = absurd a
process_by_type-IsPending multiline (some q) line r c v e a f =
    prefix_read (IsPending multiline (some q)) line _ c.response_prefix q v.same_prefix
      (keep_or_pass-IsPending multiline (some q) line r c _ e v f (λ h. (h, a)))

-- A write of a PDU, and the pending command without it.
after_write-IsPending :
    (type : CommandType) (prefix : Option Bytes) (c d : Channel)
    → SameBut c d
    → IsPending type prefix c
    → IsPending type prefix (record d { sms_pdu = none })
after_write-IsPending type prefix c d h v = record {
  same_type = ap (λ (x : Channel). x.type) h ∙ v.same_type;
  same_prefix = ap (λ (x : Channel). x.response_prefix) h ∙ v.same_prefix;
  pending = let (r, e, a, f) = v.pending in (r, ap (λ (x : Channel). x.response) h ∙ e, a, f);
}

final-IsPending :
    (type : CommandType) (prefix : Option Bytes) (b : Bool) (line : Bytes) (r : AtResponse)
    (c : Channel)
    → IsPending type prefix c
    → IsAnswer type prefix r.intermediates
    → b ≡ is_final_response_success line
    → IsPending type prefix (handle_final_response b line r c)
unfolding handle_final_response
final-IsPending type prefix b line r c v a e = record {
  same_type = v.same_type;
  same_prefix = v.same_prefix;
  pending = (record r { success = b; final_response = some line }, refl, a, e);
}

process_other-IsPending :
    (link : Link) (pdu : Option Bytes) (type : CommandType) (prefix : Option Bytes) (line : Bytes)
    (r : AtResponse) (c : Channel)
    → IsPending type prefix c
    → Ensures (IsPending type prefix) (process_by_type type line r c)
    → Ensures (IsPending type prefix) (process_other link pdu line r c)
unfolding process_other write_ctrl_z
process_other-IsPending link none type prefix line r c v h =
    subst (λ t. Ensures (IsPending type prefix) (process_by_type t line r c)) (sym v.same_type) h
process_other-IsPending link (some pdu) type prefix line r c v h =
    Ensures-if (IsPending type prefix) (streq line sms_prompt) _ _
      (λ _.
        Ensures-bind (λ (w : Option AtError × Channel). SameBut c w.1) (IsPending type prefix) _ _
          (write_ended-SameBut link pdu 26 c) (λ w k. after_write-IsPending type prefix c w.1 k v))
      (λ _.
        subst (λ t. Ensures (IsPending type prefix) (process_by_type t line r c)) (sym v.same_type)
          h)

-- A line that the reader thread handles while a command is pending leaves it pending, with the
-- intermediate lines that its type admits, and reads through no null pointer.
pub process_line-IsPending :
    (link : Link) (type : CommandType) (prefix : Option Bytes) (line : Bytes) (c : Channel)
    → IsPending type prefix c
    → Ensures (IsPending type prefix) (process_line link line c)
unfolding process_line process_pending
process_line-IsPending link type prefix line c v =
    let (r, e, a, f) = v.pending in
    rw (e, process_line)
      (Ensures-if (IsPending type prefix) (is_final_response_success line) _ _
        (λ t. final-IsPending type prefix true line r c v a (sym t))
        (λ t.
          Ensures-if (IsPending type prefix) (is_final_response_error line) _ _
            (λ _. final-IsPending type prefix false line r c v a (sym t))
            (λ _.
              process_other-IsPending link c.sms_pdu type prefix line r c v
                (process_by_type-IsPending type prefix line r c v e a f))))
