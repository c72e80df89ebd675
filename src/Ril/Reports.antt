-- ===== src/Ril/Reports.antt =====
-- Requests that report what one line says (requestQueryNetworkSelectionMode, requestSignalStrength and
-- requestSIM_IO of android2.1_init/hard_ril/reference-ril/reference-ril.c).
pub mod Ends
use demonstratortool.Base.{
  ℕ, zero, suc, Bool, true, false, not, ◌||◌, Option, none, some, List, [], ◌∷◌, ◌++◌,
  if◌then◌else◌, Bytes, codes,
}
use demonstratortool.Init.Options.{decimal}
use demonstratortool.Ril.AtTok.{
  Cursor, at_tok_start, at_tok_nextint, at_tok_nextstr, at_tok_hasmore,
}
use demonstratortool.Ril.Telephony.{success, generic_failure}
use demonstratortool.Ril.Radio.{
  nothing, numbers, sim_io_response, Reply, Radio, Answered, Modem, Outcome, done, ◌>>=◌, complete,
  send, one_line, has_failed, line_of,
}

-- A request that puts one command for one line and completes with what is read from the line.
abbrev pub answer_line : Answered → (Bytes → Option Reply) → (Bool → Radio) → Radio → Outcome Radio
answer_line a read fail r = has_failed a >>= λ failed.
    if failed
    then done (fail true)
    else (line_of a >>= λ line. elim (read line) [
      | none ↦ done (fail false)
      | some reply ↦ done (complete success reply r)
    ])

-- Numbers one after the other, as an array.
unfoldable pub ints_of : ℕ → List ℕ → Cursor → Option (List ℕ)
ints_of zero vs cur = some vs
ints_of (suc n) vs cur =
    let result = at_tok_nextint cur in
    let more : ℕ → Option (List ℕ) = λ v. ints_of n (vs ++ v ∷ []) result.cur in
    if not result.ok then none else elim result.out [ none ↦ none | some v ↦ more v ]

unfoldable pub ints_of_line : ℕ → Bytes → Option (List ℕ)
ints_of_line n line =
    let (started, cur) = at_tok_start (some line) in if started then ints_of n [] cur else none

abbrev pub numbers_of : Option (List ℕ) → Option Reply
numbers_of none = none
numbers_of (some vs) = some (numbers vs)

unfoldable pub request_query_network_selection_mode : Modem → Radio → Outcome Radio
request_query_network_selection_mode m r =
    let (a, r') = send m (one_line (codes "AT+COPS?") (codes "+COPS:")) r in
    answer_line a (λ line. numbers_of (ints_of_line 1 line))
      (λ _. complete generic_failure nothing r') r'

-- The request is completed where the command fails, and once more at the label `error`.
unfoldable pub request_signal_strength : Modem → Radio → Outcome Radio
request_signal_strength m r =
    let (a, r') = send m (one_line (codes "AT+CSQ") (codes "+CSQ:")) r in
    let once = complete generic_failure nothing r' in
    answer_line a (λ line. numbers_of (ints_of_line 2 line))
      (λ failed. if failed then complete generic_failure nothing once else once) r'

-- `RIL_SIM_IO`, without the fields that are not looked at.
pub record SimIo : Type 0 where
  pub command : ℕ
  pub fileid : ℕ
  pub p1 : ℕ
  pub p2 : ℕ
  pub p3 : ℕ
  pub data_text : Option Bytes

abbrev with_comma : ℕ → Bytes
with_comma n = b',' ∷ decimal n

unfoldable pub crsm_command : SimIo → Bytes
crsm_command args =
    codes "AT+CRSM="
    ++ decimal args.command
    ++ with_comma args.fileid
    ++ with_comma args.p1
    ++ with_comma args.p2
    ++ with_comma args.p3
    ++ elim args.data_text [ none ↦ [] | some s ↦ b',' ∷ s ]

unfoldable pub sim_io_of_line : Bytes → Option Reply
sim_io_of_line line =
    let (started, cur) = at_tok_start (some line) in
    let first = at_tok_nextint cur in
    let second = at_tok_nextint first.cur in
    let third = at_tok_nextstr second.cur in
    if not started || not first.ok || not second.ok then none else elim first.out [
      | none ↦ none
      | some sw1 ↦ elim second.out [
        | none ↦ none
        | some sw2 ↦
            if not (at_tok_hasmore second.cur)
            then some (sim_io_response sw1 sw2 none)
            else if not third.ok
            then none
            else elim third.out [ none ↦ none | some t ↦ some (sim_io_response sw1 sw2 t) ]
      ]
    ]

unfoldable pub request_sim_io : Modem → SimIo → Radio → Outcome Radio
request_sim_io m args r =
    let (a, r') = send m (one_line (crsm_command args) (codes "+CRSM:")) r in
    answer_line a sim_io_of_line (λ _. complete generic_failure nothing r') r'
