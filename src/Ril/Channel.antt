-- ===== src/Ril/Channel.antt =====
-- The AT channel of android2.1_init/hard_ril/reference-ril/atchannel.c: its state, what it does with a
-- line of the modem, and how it writes. The lock of the source is held by whoever runs here.
pub mod Writes
pub mod Pending
use demonstratortool.Ril.Responses.{
  starts_with_any, is_final_response_error, is_final_response_success, is_sms_unsolicited,
}
use demonstratortool.Base.{
  ℕ, zero, suc, ◌+◌, ◌-◌, ◌*◌, ◌/◌, ◌%◌, ◌^◌, ◌≤◌, ◌<◌, String, ◌≡◌, refl, sym, ap, ◌∙◌, subst, ◌≢◌,
  ◌↔◌, ◌⊎◌, inl, inr, Bool, true, false, not, ◌&&◌, ◌||◌, Option, none, some, List, [], ◌∷◌, ◌++◌,
  map, arith, ltb, leb, ◌==◌, if◌then◌else◌, ==_iff, ==_refl, ltb_iff, leb_iff, Bool-cases,
  Option-cases, length, get_elem?, set, take, drop, All, length-append, length-map, length-tail-le,
  length-set, get_elem?-set_self, get_elem?-set_ne, get_elem?-lt-length, get_elem?-append_self,
  All-append, All-get_elem?, All-set, Bytes, codes, streq, starts_with, strchr, is_space, is_alpha,
  is_digit, is_alnum, streq_iff, streq_refl, starts_with-append, strchr-append, ulong_mod,
  digit_value, strtoul, atoi, strtol, has_number, skip_spaces,
}
use demonstratortool.Ril.Misc.{str_starts_with}

-- `ATCommandType`
pub data CommandType : Type 0 where
  no_result numeric singleline multiline : CommandType

-- The codes `AT_ERROR_…` of atchannel.h
pub data AtError : Type 0 where
  generic command_pending channel_closed timeout invalid_thread invalid_response : AtError

-- `p_intermediates` with the line that came last at the head.
pub record AtResponse : Type 0 where
  pub success : Bool
  pub final_response : Option Bytes
  pub intermediates : List Bytes

-- What the channel does to the outside: bytes that the modem takes, and calls of the three callbacks,
-- an unsolicited line with the PDU behind it if it has one.
pub data Effect : Type 0 where
  wrote : Bytes → Effect
  unsolicited : Bytes → Option Bytes → Effect
  on_timeout on_reader_closed : Effect

-- The static variables: whether `s_fd` is open, `s_readerClosed`, which callbacks are set, `s_type`,
-- `s_responsePrefix`, `s_smsPDU`, `sp_response`; the calls of `write` so far; and the effects,
-- the last one first.
pub record Channel : Type 0 where
  pub fd_open : Bool
  pub reader_closed : Bool
  pub has_unsol_handler : Bool
  pub has_on_timeout : Bool
  pub has_on_reader_closed : Bool
  pub type : CommandType
  pub response_prefix : Option Bytes
  pub sms_pdu : Option Bytes
  pub response : Option AtResponse
  pub writes : ℕ
  pub trace : List Effect

-- The number of bytes that the n-th call of `write` takes, or none on an error; a call that a
-- signal interrupts is not counted, since it is made again.
pub record Link : Type 0 where
  pub write : ℕ → Bytes → Option ℕ

-- A call of `write` with something to write takes one byte at least, and no more than there are.
pub record IsLink (link : Link) : Type 0 where
  pub some_bytes :
      (n : ℕ) (s : Bytes) (k : ℕ)
      → link.write n s ≡ some k
      → 0 < length s
      → (0 < k) × (k ≤ length s)

-- A run ends with a value, writes for ever, reads through a null pointer, or waits for more to happen.
pub data Run {ℓ} (A : Type ℓ) : Type ℓ where
  done : A → Run A
  endless null_read waiting : Run A

infixl 5 ◌>>=◌
abbrev pub ◌>>=◌ {ℓ κ} : {A : Type ℓ} {B : Type κ} → Run A → (A → Run B) → Run B
done a >>= f = f a
endless >>= f = endless
null_read >>= f = null_read
waiting >>= f = waiting

abbrev pub emit : Effect → Channel → Channel
emit e c = record c { trace = e ∷ c.trace }

-- The loop of `writeline` and `writeCtrlZ` over a text. The result is the error, none if there is none.
unfoldable pub write_loop : Link → ℕ → Bytes → Channel → Run (Option AtError × Channel)
write_loop link fuel [] c = done (none, c)
write_loop link zero (x ∷ s) c = endless
write_loop link (suc fuel) (x ∷ s) c = elim (link.write c.writes (x ∷ s)) [
  | none ↦ done (some generic, record c { writes = c.writes + 1 })
  | some k ↦
      write_loop link fuel (drop k (x ∷ s))
        (emit (wrote (take k (x ∷ s))) (record c { writes = c.writes + 1 }))
]

-- A text and the byte behind it. Each call of `write` takes a byte, so the fuel is enough.
unfoldable pub write_ended : Link → Bytes → ℕ → Channel → Run (Option AtError × Channel)
unfolding write_loop
write_ended link s end c =
    if not c.fd_open || c.reader_closed
    then done (some channel_closed, c)
    else (write_loop link (length s) s c >>= λ (r : Option AtError × Channel). elim r.0 [
      | some e ↦ done (some e, r.1)
      | none ↦ write_loop link 1 (end ∷ []) r.1
    ])

unfoldable pub writeline : Link → Bytes → Channel → Run (Option AtError × Channel)
unfolding write_ended
writeline link s c = write_ended link s b'\r' c

unfoldable pub write_ctrl_z : Link → Bytes → Channel → Run (Option AtError × Channel)
unfolding write_ended
write_ctrl_z link s c = write_ended link s 26 c

unfoldable pub handle_unsolicited : Bytes → Option Bytes → Channel → Channel
handle_unsolicited line sms_pdu c =
    if c.has_unsol_handler then emit (unsolicited line sms_pdu) c else c

unfoldable pub add_intermediate : Bytes → AtResponse → Channel → Channel
add_intermediate line r c = record c {
  response = some (record r { intermediates = line ∷ r.intermediates });
}

unfoldable pub handle_final_response : Bool → Bytes → AtResponse → Channel → Channel
handle_final_response success line r c = record c {
  response = some (record r { success = success; final_response = some line });
}

-- `isdigit(line[0])`
unfoldable pub starts_with_digit : Bytes → Bool
unfolding is_digit
starts_with_digit [] = false
starts_with_digit (c ∷ cs) = is_digit c

abbrev pub is_empty : List Bytes → Bool
is_empty [] = true
is_empty (x ∷ xs) = false

-- `strStartsWith(line, s_responsePrefix)`, and what follows; the prefix may be a null pointer.
abbrev pub with_prefix : Option Bytes → Bytes → (Bool → Channel) → Run Channel
with_prefix none line f = null_read
with_prefix (some prefix) line f = done (f (str_starts_with line prefix))

-- An intermediate line of the command or, if it is none, an unsolicited one.
abbrev pub keep_or_pass : Bytes → AtResponse → Channel → Bool → Channel
keep_or_pass line r c true = add_intermediate line r c
keep_or_pass line r c false = handle_unsolicited line none c

-- The `switch (s_type)` of `processLine`
unfoldable pub process_by_type : CommandType → Bytes → AtResponse → Channel → Run Channel
unfolding add_intermediate handle_unsolicited starts_with_digit str_starts_with
process_by_type no_result line r c = done (handle_unsolicited line none c)
process_by_type numeric line r c =
    done (keep_or_pass line r c (is_empty r.intermediates && starts_with_digit line))
process_by_type singleline line r c =
    if is_empty r.intermediates
    then with_prefix c.response_prefix line (keep_or_pass line r c)
    else done (handle_unsolicited line none c)
process_by_type multiline line r c = with_prefix c.response_prefix line (keep_or_pass line r c)

abbrev pub sms_prompt : Bytes
sms_prompt = codes "> "

-- The branches of `processLine` behind the final responses: the prompt for the PDU of an SMS, if there
-- is one to send, and the lines of the command.
unfoldable pub process_other : Link → Option Bytes → Bytes → AtResponse → Channel → Run Channel
unfolding process_by_type write_ctrl_z
process_other link none line r c = process_by_type c.type line r c
process_other link (some pdu) line r c =
    if streq line sms_prompt
    then (write_ctrl_z link pdu c >>= λ (w : Option AtError × Channel).
        done (record w.1 { sms_pdu = none }))
    else process_by_type c.type line r c

-- `processLine` for a pending command.
unfoldable pub process_pending : Link → Bytes → AtResponse → Channel → Run Channel
unfolding process_other handle_final_response is_final_response_success is_final_response_error
process_pending link line r c =
    if is_final_response_success line
    then done (handle_final_response true line r c)
    else if is_final_response_error line
    then done (handle_final_response false line r c)
    else process_other link c.sms_pdu line r c

unfoldable pub process_line : Link → Bytes → Channel → Run Channel
unfolding process_pending handle_unsolicited
process_line link line c = elim c.response [
  | none ↦ done (handle_unsolicited line none c)
  | some r ↦ process_pending link line r c
]

-- `onReaderClosed`: without a callback nothing is noted.
unfoldable pub reader_ends : Channel → Channel
reader_ends c =
    if c.has_on_reader_closed && not c.reader_closed
    then emit on_reader_closed (record c { reader_closed = true })
    else c

-- `readerLoop` for what `readline` returns until it returns NULL.
unfoldable pub reader_loop : Link → List Bytes → Channel → Run Channel
unfolding process_line reader_ends is_sms_unsolicited handle_unsolicited
reader_loop link [] c = done (reader_ends c)
reader_loop link (line ∷ []) c =
    if is_sms_unsolicited line
    then done (reader_ends c)
    else (process_line link line c >>= λ c'. done (reader_ends c'))
reader_loop link (line ∷ line2 ∷ rest) c =
    let more = reader_loop link rest (handle_unsolicited line (some line2) c) in
    let next = process_line link line c >>= reader_loop link (line2 ∷ rest) in
    if is_sms_unsolicited line then more else next
