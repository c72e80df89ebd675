-- ===== src/Ril/Responses.antt =====
-- What kind of line a modem sends (android2.1_init/hard_ril/reference-ril/atchannel.c).
use demonstratortool.Base.{Bool, false, ◌||◌, List, [], ◌∷◌, Bytes, codes}
use demonstratortool.Ril.Misc.{str_starts_with}

-- Whether a line starts with one of the texts.
unfoldable pub starts_with_any : Bytes → List Bytes → Bool
unfolding str_starts_with
starts_with_any line [] = false
starts_with_any line (p ∷ ps) = str_starts_with line p || starts_with_any line ps

unfoldable pub is_final_response_error : Bytes → Bool
unfolding starts_with_any
is_final_response_error line = starts_with_any line (
    codes "ERROR"
    ∷ codes "+CMS ERROR:"
    ∷ codes "+CME ERROR:"
    ∷ codes "NO CARRIER"
    ∷ codes "NO ANSWER"
    ∷ codes "NO DIALTONE"
    ∷ [])

unfoldable pub is_final_response_success : Bytes → Bool
unfolding starts_with_any
is_final_response_success line = starts_with_any line (codes "OK" ∷ codes "CONNECT" ∷ [])

unfoldable pub is_sms_unsolicited : Bytes → Bool
unfolding starts_with_any
is_sms_unsolicited line = starts_with_any line (codes "+CMT:" ∷ codes "+CDS:" ∷ codes "+CBM:" ∷ [])
