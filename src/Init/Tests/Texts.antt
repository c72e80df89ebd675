-- ===== src/Init/Tests/Texts.antt =====
-- Texts that android2.1_init/init/parser.c reads.
use demonstratortool.Base.{
  ◌+◌, ◌≤◌, ◌≡◌, refl, ap, ◌↔◌, inl, false, some, [], ◌∷◌, arith, length, Bytes, codes,
}
use demonstratortool.Init.Keywords.{Keyword, keyword_info, lookup_keyword}
use demonstratortool.Init.Keywords.Lookup.{lookup_keyword_iff}
use demonstratortool.Init.Lexer.{text, LexState, plain, scan_text, next_token}
use demonstratortool.Init.Lexer.Words.{next_token-word, next_token-quoted}
use demonstratortool.Init.Lexer.Bounds.{next_token_in_place}
use demonstratortool.Init.Lexer.Escapes.{scan_text-reread}
use demonstratortool.Init.Parser.{parse_config}
use demonstratortool.Init.Parser.Total.{parse_config-IsConfig}
use demonstratortool.Init.Config.{Config}
use demonstratortool.Init.Config.Valid.{IsConfig}
use demonstratortool.Init.Tests.Given.{device, boot_config, boot_config-IsConfig}

abbrev reader : Bytes → LexState
reader cs = record { ptr = cs; text = []; line = 7; nexttoken = false }

lookup_keyword_iff_example :
    (lookup_keyword (codes "setprop") ≡ Keyword.setprop)
    ↔ (codes "setprop" ≡ (keyword_info Keyword.setprop).name)
lookup_keyword_iff_example = lookup_keyword_iff (codes "setprop") Keyword.setprop (λ e. cc)

next_token-word_example :
    next_token (reader (codes "on boot"))
    ≡ (text, record { ptr = codes "boot"; text = codes "on"; line = 7; nexttoken = false })
next_token-word_example =
    next_token-word (reader (codes "on boot")) b'o' b' ' (codes "n") (codes "boot") refl refl
      (ground arith) (ground arith) (ground arith)

next_token-quoted_example :
    next_token (reader (codes "\"a #b\" c"))
    ≡ (text, record { ptr = codes "c"; text = codes "a #b"; line = 7; nexttoken = false })
next_token-quoted_example =
    next_token-quoted (reader (codes "\"a #b\" c")) b' ' (codes "a #b") (codes "c") refl refl
      (ground arith) (ground arith)

next_token_in_place_example :
    length (next_token (reader (codes "on boot"))).1.text
      + length (next_token (reader (codes "on boot"))).1.ptr
    ≤ 7
next_token_in_place_example =
    next_token_in_place (reader (codes "on boot")) (ap (λ r. r.0) next_token-word_example)

scan_text-reread_example :
    scan_text plain [] 7 (codes "\\nb") ≡ scan_text plain (b'\n' ∷ []) 7 (codes "nb")
scan_text-reread_example = scan_text-reread b'n' b'\n' (codes "b") [] 7 (inl (inl (refl, refl)))

abbrev init_rc : Bytes
init_rc = codes "on boot\n  start ril\nservice logd /system/bin/logd\n  oneshot\n  group log\n"

parse_config-IsConfig_example :
    (g' : Config) × (parse_config device init_rc boot_config ≡ some g') × IsConfig g'
parse_config-IsConfig_example =
    parse_config-IsConfig device init_rc boot_config boot_config-IsConfig
