-- ===== src/Init/Uid.antt =====
-- `android_name_to_id` and `decode_uid` of android2.1_init/init/util.c.
use demonstratortool.Base.{
  ℕ, ◌-◌, List, [], ◌∷◌, if◌then◌else◌, Bytes, streq, is_alpha, ulong_mod, strtoul,
}
use demonstratortool.Init.Platform.{Platform}

-- `-1U`
abbrev pub no_id : ℕ
no_id = ulong_mod - 1

name_to_id : List (Bytes × ℕ) → Bytes → ℕ
name_to_id [] name = no_id
name_to_id ((n, aid) ∷ ids) name = if streq n name then aid else name_to_id ids name

unfoldable pub decode_uid : Platform → Bytes → ℕ
unfolding name_to_id
decode_uid p [] = no_id
decode_uid p (c ∷ cs) =
    if is_alpha c
    then name_to_id p.android_ids (c ∷ cs)
    else let (v, erange) = strtoul (c ∷ cs) 0 in if erange then no_id else v
