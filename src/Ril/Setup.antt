-- ===== src/Ril/Setup.antt =====
-- A data connection (requestSetupDataCall of
-- android2.1_init/hard_ril/reference-ril/reference-ril.c).
pub mod Ends
use demonstratortool.Base.{
  ℕ, zero, suc, ◌+◌, ◌<◌, ◌≡◌, Bool, true, false, ◌||◌, Option, none, some, List, [], ◌∷◌, ◌++◌,
  if◌then◌else◌, length, take, drop, Bytes, codes, streq, starts_with,
}
use demonstratortool.Ril.Telephony.{success, generic_failure}
use demonstratortool.Ril.Radio.{
  nothing, strings, wrote_to_qmi, started_dhcp, Radio, Modem, Outcome, done, no_fuel, ◌>>=◌, note,
  complete, send, checked, send_plain, has_failed,
}

-- The device `/dev/qmi`: whether it can be opened; the number of bytes that the n-th `write` takes, none
-- on an error; the text that the n-th `read` gives, up to a zero byte; and whether `system` gives a number
-- below 0. A call that a signal interrupts is made again, and not counted.
pub record Qmi : Type 0 where
  pub opens : Bool
  pub write : ℕ → Bytes → Option ℕ
  pub read : ℕ → Option Bytes
  pub dhcp_fails : Bool

-- A call of `write` with something to write takes one byte at least.
pub record IsQmi (q : Qmi) : Type 0 where
  pub some_bytes : (n : ℕ) (s : Bytes) (k : ℕ) → q.write n s ≡ some k → 0 < length s → 0 < k

-- The loop that writes the command; whether it comes to its end.
unfoldable pub qmi_write : Qmi → ℕ → ℕ → Bytes → Radio → Outcome (Bool × Radio)
qmi_write q fuel n [] r = done (true, r)
qmi_write q zero n (c ∷ s) r = no_fuel
qmi_write q (suc fuel) n (c ∷ s) r = elim (q.write n (c ∷ s)) [
  | none ↦ done (false, r)
  | some k ↦ qmi_write q fuel (n + 1) (drop k (c ∷ s)) (note (wrote_to_qmi (take k (c ∷ s))) r)
]

unfoldable pub is_up : Bytes → Bool
is_up status = starts_with status (codes "STATE=up") || streq status (codes "online")

-- The loop that waits, with the tries that are left: whether the interface is up, none if a `read` fails.
unfoldable pub qmi_wait : Qmi → ℕ → ℕ → Option Bool
qmi_wait q zero n = some false
qmi_wait q (suc left) n =
    let again = qmi_wait q left (n + 1) in
    elim (q.read n) [ none ↦ none | some status ↦ if is_up status then some true else again ]

abbrev pub qmi_tries : ℕ
qmi_tries = 10

abbrev fail : Radio → Radio
fail r = complete generic_failure nothing r

abbrev pub data_call_response : List (Option Bytes)
data_call_response = some (codes "1") ∷ some (codes "/dev/omap_csmi_tty1") ∷ []

abbrev succeed : Radio → Radio
succeed r = complete success (strings data_call_response) r

-- Behind the loop that waits.
unfoldable pub qmi_finish : Qmi → Option Bool → Radio → Radio
qmi_finish q none r = fail r
qmi_finish q (some false) r = fail r
qmi_finish q (some true) r =
    if q.dhcp_fails then fail (note started_dhcp r) else succeed (note started_dhcp r)

unfoldable pub qmi_connect : Qmi → Bytes → Radio → Outcome Radio
qmi_connect q apn r =
    let cmd = codes "up:" ++ apn in
    qmi_write q (length cmd) 0 cmd r >>= λ (w : Bool × Radio).
    done (if w.0 then qmi_finish q (qmi_wait q qmi_tries 0) w.1 else fail w.1)

abbrev context_command : Bytes → Bytes
context_command apn = codes "AT+CGDCONT=1,\"IP\",\"" ++ apn ++ codes "\",,0,0"

abbrev pub dial_up : Modem → Bytes → Radio → Radio
dial_up m apn r = send_plain m (codes "AT+CGACT=1,0") (
    send_plain m (codes "AT+CGEREP=1,0") (
      send_plain m (codes "AT+CGQMIN=1")
        (send_plain m (codes "AT+CGQREQ=1") (send_plain m (context_command apn) r))))

unfoldable pub modem_connect : Modem → Bytes → Radio → Outcome Radio
modem_connect m apn r =
    let (a, r') = send m (checked (codes "ATD*99***1#")) (dial_up m apn r) in
    has_failed a >>= λ failed. done (if failed then fail r' else succeed r')

unfoldable pub request_setup_data_call : Modem → Qmi → Bytes → Radio → Outcome Radio
request_setup_data_call m q apn r = if q.opens then qmi_connect q apn r else modem_connect m apn r
