-- ===== src/Ril/Misc.antt =====
-- android2.1_init/hard_ril/reference-ril/misc.c.
use demonstratortool.Base.{
  ◌≡◌, refl, Bool, true, false, ◌&&◌, [], ◌∷◌, ◌++◌, arith, ◌==◌, ==_refl, Bytes,
}

-- `strStartsWith`
unfoldable pub str_starts_with : Bytes → Bytes → Bool
str_starts_with line [] = true
str_starts_with [] (p ∷ ps) = false
str_starts_with (c ∷ cs) (p ∷ ps) = c == p && str_starts_with cs ps

pub str_starts_with-append : (p s : Bytes) → str_starts_with (p ++ s) p ≡ true
unfolding str_starts_with
str_starts_with-append [] [] = refl
str_starts_with-append [] (c ∷ s) = refl
str_starts_with-append (x ∷ p) s = ground (arith, str_starts_with-append p s, ==_refl x)
