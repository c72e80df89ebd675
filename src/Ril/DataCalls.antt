-- ===== src/Ril/DataCalls.antt =====
-- The list of data calls (requestOrSendDataCallList of
-- android2.1_init/hard_ril/reference-ril/reference-ril.c).
pub mod Ends
use demonstratortool.Base.{
  ℕ, ◌+◌, Bool, true, false, not, ◌||◌, Option, none, some, List, [], ◌∷◌, leb, ◌==◌, if◌then◌else◌,
  length, get_elem?, set, Bytes, codes,
}
use demonstratortool.Ril.AtTok.{Cursor, at_tok_start, at_tok_nextint, at_tok_nextstr}
use demonstratortool.Ril.Fields.{int_field, finish, from_start}
use demonstratortool.Ril.Telephony.{success, generic_failure, DataCall}
use demonstratortool.Ril.Radio.{
  nothing, data_calls, data_call_list_changed, completed, notified, Radio, Modem, Outcome, done,
  ◌>>=◌, note, send, many_lines, has_failed, intermediates_of,
}

-- -1
abbrev minus_one : ℕ
minus_one = 0xffffffff

abbrev no_data_call : DataCall
no_data_call = record {
  cid = minus_one;
  activity = minus_one;
  pdp_type = [];
  apn = [];
  address = [];
}

unfoldable pub context_of_line : Bytes → Bool × DataCall
context_of_line line =
    from_start
      (int_field (λ v d. record d { cid = v })
        (int_field (λ v d. record d { activity = v }) finish))
      no_data_call line

-- The first loop: one entry for each line; none at the label `error`.
unfoldable pub contexts_of_lines : List Bytes → Option (List DataCall)
contexts_of_lines [] = some []
contexts_of_lines (line ∷ lines) =
    let (ok, d) = context_of_line line in
    let rest = contexts_of_lines lines in
    if not ok then none else elim rest [ none ↦ none | some ds ↦ some (d ∷ ds) ]

-- The first entry for a context, or the number of entries.
unfoldable pub find_cid : ℕ → List DataCall → ℕ
find_cid c [] = 0
find_cid c (d ∷ ds) = let i = find_cid c ds in if d.cid == c then 0 else i + 1

-- The three texts of a line of `AT+CGDCONT?`; none if one cannot be read. The tokens are
-- not NULL where they are read.
unfoldable pub details_of : Cursor → Option (Bytes × Bytes × Bytes)
details_of cur =
    let a = at_tok_nextstr cur in
    let b = at_tok_nextstr a.cur in
    let c = at_tok_nextstr b.cur in
    elim a.out [
      | none ↦ none
      | some none ↦ none
      | some (some x) ↦ elim b.out [
        | none ↦ none
        | some none ↦ none
        | some (some y) ↦ elim c.out [
          | none ↦ none
          | some none ↦ none
          | some (some z) ↦ some (x, y, z)
        ]
      ]
    ]

abbrev with_details : Bytes × Bytes × Bytes → DataCall → DataCall
with_details t d = record d { pdp_type = t.0; apn = t.1; address = t.2 }

unfoldable pub set_details : ℕ → Bytes × Bytes × Bytes → List DataCall → List DataCall
set_details i t ds = elim (get_elem? ds i) [ none ↦ ds | some d ↦ set ds i (with_details t d) ]

-- One line of the second loop. A context that is not among the entries is passed over.
unfoldable pub describe : Bytes → List DataCall → Option (List DataCall)
describe line ds =
    let (started, cur) = at_tok_start (some line) in
    let id = at_tok_nextint cur in
    if not started || not id.ok then none else elim id.out [
      | none ↦ none
      | some c ↦
          let i = find_cid c ds in
          if leb (length ds) i
          then some ds
          else elim (details_of id.cur) [ none ↦ none | some t ↦ some (set_details i t ds) ]
    ]

unfoldable pub describe_all : List Bytes → List DataCall → Option (List DataCall)
describe_all [] ds = some ds
describe_all (line ∷ lines) ds = elim (describe line ds) [
  | none ↦ none
  | some ds' ↦ describe_all lines ds'
]

-- The result is for the request, or, without one, an unsolicited response; on a failure with no data.
abbrev pub tell : Bool → Option (List DataCall) → Radio → Radio
tell true none r = note (completed generic_failure nothing) r
tell true (some ds) r = note (completed success (data_calls ds)) r
tell false none r = note (notified data_call_list_changed nothing) r
tell false (some ds) r = note (notified data_call_list_changed (data_calls ds)) r

-- Behind the first loop.
unfoldable pub send_details : Modem → Bool → List DataCall → Radio → Outcome Radio
send_details m has_token ds r =
    let (a, r') = send m (many_lines (codes "AT+CGDCONT?") (codes "+CGDCONT:")) r in
    has_failed a >>= λ failed.
    if failed
    then done (tell has_token none r')
    else (intermediates_of a >>= λ lines. done (tell has_token (describe_all lines ds) r'))

unfoldable pub request_or_send_data_call_list : Modem → Bool → Radio → Outcome Radio
request_or_send_data_call_list m has_token r =
    let (a, r') = send m (many_lines (codes "AT+CGACT?") (codes "+CGACT:")) r in
    has_failed a >>= λ failed.
    if failed
    then done (tell has_token none r')
    else (intermediates_of a >>= λ lines. elim (contexts_of_lines lines) [
      | none ↦ done (tell has_token none r')
      | some ds ↦ send_details m has_token ds r'
    ])
