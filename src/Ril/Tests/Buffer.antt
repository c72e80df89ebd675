-- ===== src/Ril/Tests/Buffer.antt =====
-- The buffer of android2.1_init/hard_ril/reference-ril/atchannel.c on concrete inputs.
use demonstratortool.Base.{◌≡◌, refl, inl, none, [], ◌∷◌, ◌++◌, arith, Bytes, codes}
use demonstratortool.Ril.Readline.{Reader, Source, got, readline}
use demonstratortool.Ril.Readline.Stale.{readline_stale}

-- Nothing more comes.
abbrev hung_up : Source
hung_up = record { read = λ n room. none }

abbrev buffer_of : Bytes → Reader
buffer_of s = record { buffer = s; cur = 1; reads = 4 }

abbrev two_lines : Reader
two_lines = buffer_of (0 ∷ codes "\r\nOK\r\nRING\r" ++ 0 ∷ [])

abbrev prompted : Reader
prompted = buffer_of (0 ∷ codes "> " ++ 0 ∷ codes "OK\r" ++ 0 ∷ [])

readline_stale_example :
    (r : Reader) × (r' : Reader) × (readline hung_up 1 prompted ≡ got (codes "> ") r)
    × (readline hung_up 1 r ≡ got (codes "OK") r')
    × (r'.reads ≡ prompted.reads)
readline_stale_example =
    readline_stale hung_up 1 prompted b'O' (codes "K") (0 ∷ []) b'\r' refl (omega arith) (inl refl)
