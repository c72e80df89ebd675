-- ===== src/Ril/Calls/Listed.antt =====
-- The calls that requestGetCurrentCalls of android2.1_init/hard_ril/reference-ril/reference-ril.c reports.
use demonstratortool.Base.{
  ℕ, ◌^◌, ◌≤◌, ◌≡◌, refl, sym, ap, ◌∙◌, true, false, Option, none, some, List, [], ◌∷◌, ◌++◌, map,
  arith, ltb, All, Bytes, codes, pick, append-nil, append_assoc,
}
use demonstratortool.Ril.Channel.{AtResponse}
use demonstratortool.Ril.Commands.{Command}
use demonstratortool.Ril.Telephony.{Errno, success, CallInfo}
use demonstratortool.Ril.Radio.{
  call_list, Reply, completed, issued, notified, timed, at_closed, wrote_to_qmi, started_dhcp, Call,
  Radio, Modem, done, send, many_lines, has_failed, intermediates_of,
}
use demonstratortool.Ril.Calls.{
  no_line, Scan, first_scan, scan_line, scan_lines, is_erroneous_answer, answer_calls,
  request_get_current_calls,
}
use demonstratortool.Ril.Calls.Rendered.{clcc_line, IsCall, call_from_clcc_line-clcc_line}

-- A call with its number.
abbrev pub Numbered : Type 0
Numbered = CallInfo × Bytes

abbrev pub calls_of : List Numbered → List CallInfo
calls_of ps = map (λ (p : Numbered). p.0) ps

abbrev pub lines_of : List Numbered → List Bytes
lines_of ps = map (λ (p : Numbered). clcc_line p.0 p.1) ps

abbrev pub AreCalls : List Numbered → Type 0
AreCalls ps = All (λ (p : Numbered). IsCall p.0 p.1) ps

scan_line-clcc_line :
    (p : Numbered) (s : Scan)
    → IsCall p.0 p.1
    → (scan_line (clcc_line p.0 p.1) s).calls ≡ s.calls ++ p.0 ∷ []
unfolding scan_line
scan_line-clcc_line p s c = rw (call_from_clcc_line-clcc_line p.0 p.1 s.slot c) refl

scan_lines-lines_of :
    (ps : List Numbered) (s : Scan)
    → AreCalls ps
    → (scan_lines (lines_of ps) s).calls ≡ s.calls ++ calls_of ps
unfolding scan_lines
scan_lines-lines_of [] s c = sym (append-nil s.calls)
scan_lines-lines_of (p ∷ ps) s c =
    scan_lines-lines_of ps _ c.1
    ∙ ap (λ xs. xs ++ calls_of ps) (scan_line-clcc_line p s c.0)
    ∙ append_assoc s.calls (p.0 ∷ []) (calls_of ps)

-- The completion that came last.
unfoldable pub last_completion : List Call → Option (Errno × Reply)
last_completion [] = none
last_completion (completed e reply ∷ es) = some (e, reply)
last_completion (issued cmd ∷ es) = last_completion es
last_completion (notified u reply ∷ es) = last_completion es
last_completion (timed f ∷ es) = last_completion es
last_completion (at_closed ∷ es) = last_completion es
last_completion (wrote_to_qmi s ∷ es) = last_completion es
last_completion (started_dhcp ∷ es) = last_completion es

not_erroneous :
    (previous : ℕ) (s : Scan) (r : Radio)
    → 2 ^ 31 ≤ previous
    → is_erroneous_answer previous s r ≡ false
unfolding is_erroneous_answer
not_erroneous previous s r h =
    let none_before : ltb previous (2 ^ 31) ≡ false = ground arith in rw none_before refl

answer_calls-last :
    (previous : ℕ) (s : Scan) (r : Radio)
    → 2 ^ 31 ≤ previous
    → last_completion (answer_calls previous s r).trace ≡ some (success, call_list s.calls)
unfolding answer_calls last_completion
answer_calls-last previous s r h = rw (not_erroneous previous s r h) (
    pick (λ (r' : Radio). last_completion r'.trace ≡ some (success, call_list s.calls))
      s.need_repoll _ _ refl refl)

abbrev pub clcc : Command
clcc = many_lines (codes "AT+CLCC") (codes "+CLCC:")

answered :
    (m : Modem) (cmd : Command) (r : Radio) (p : AtResponse)
    → (m.answer r.sent cmd).error ≡ none
    → (m.answer r.sent cmd).response ≡ some p
    → p.success ≡ true
    → (has_failed (send m cmd r).0 ≡ done false)
      × (intermediates_of (send m cmd r).0 ≡ done p.intermediates)
unfolding has_failed intermediates_of send
answered m cmd r p e f s = (rw (e, f, s) refl, rw f refl)

-- If no call was incoming or waiting at the last poll, and the modem answers to `AT+CLCC` with success and a
-- line for each call, with its number in quotes, the request for the current calls is completed with
-- success and with exactly these calls in their order; where the numbers of each fit an `int`, its
-- flags are 0 or 1, its number has no quotes in it and begins with a digit or a plus, and the fields that
-- are not in the line are 0.
pub request_get_current_calls-lines_of :
    (m : Modem) (r : Radio) (p : AtResponse) (ps : List Numbered)
    → 2 ^ 31 ≤ r.incoming_or_waiting_line
    → (m.answer r.sent clcc).error ≡ none
    → (m.answer r.sent clcc).response ≡ some p
    → p.success ≡ true
    → p.intermediates ≡ lines_of ps
    → AreCalls ps
    → (r' : Radio) × (request_get_current_calls m r ≡ done r')
      × (last_completion r'.trace ≡ some (success, call_list (calls_of ps)))
unfolding request_get_current_calls
request_get_current_calls-lines_of m r p ps h e f s l c =
    let asked : Radio = record r { incoming_or_waiting_line = no_line } in
    let scan : Scan = scan_lines p.intermediates first_scan in
    let given : (has_failed (send m clcc asked).0 ≡ done false)
        × (intermediates_of (send m clcc asked).0 ≡ done p.intermediates) =
      answered m clcc asked p e f s in
    let listed : scan.calls ≡ calls_of ps =
      ap (λ lines. (scan_lines lines first_scan).calls) l ∙ scan_lines-lines_of ps first_scan c in
    (
      answer_calls r.incoming_or_waiting_line scan (send m clcc asked).1,
      rw (given.0, given.1) refl,
      answer_calls-last r.incoming_or_waiting_line scan (send m clcc asked).1 h
          ∙ ap (λ xs. some (success, call_list xs)) listed,
    )
