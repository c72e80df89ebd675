-- ===== src/Init/Keywords/Lookup.antt =====
-- `lookup_keyword` against the table of android2.1_init/init/keywords.h.
use demonstratortool.Base.{
  ℕ, ◌≡◌, refl, sym, ap, ◌∙◌, ◌≢◌, ◌↔◌, Bool, true, ◌&&◌, List, [], ◌∷◌, arith, Bytes, streq,
  streq_iff,
}
use demonstratortool.Init.Keywords.{
  case_w, case_u, case_t, case_s, case_r, case_o, case_m, case_l, case_k, case_i, case_h, case_g,
  case_e, case_d, case_c, first_match, Keyword, keyword_info, lookup_keyword,
}

-- Every keyword is found by its name.
lookup_keyword-name :
    (kw : Keyword) → kw ≢ Keyword.unknown → lookup_keyword (keyword_info kw).name ≡ kw
unfolding lookup_keyword keyword_info
lookup_keyword-name Keyword.unknown h = absurd (h refl)
lookup_keyword-name _ h = refl

-- Every entry stands under the letter that its keyword begins with.
is_case : ℕ → List (Bytes × Keyword) → Bool
is_case c [] = true
is_case c ((rest, kw) ∷ more) = streq (keyword_info kw).name (c ∷ rest) && is_case c more

first_match-name :
    (c : ℕ) (entries : List (Bytes × Keyword)) (s : Bytes) (kw : Keyword)
    → is_case c entries ≡ true
    → first_match s entries ≡ kw
    → kw ≢ Keyword.unknown
    → c ∷ s ≡ (keyword_info kw).name
unfolding is_case first_match
first_match-name c [] s kw h e ne = absurd (ne (sym e))
first_match-name c ((rest, k) ∷ more) s kw h e ne = ground (
  arith,
  streq_iff s rest,
  streq_iff (keyword_info k).name (c ∷ rest),
  first_match-name c more s kw,
)

lookup_keyword_sound :
    (s : Bytes) (kw : Keyword)
    → lookup_keyword s ≡ kw
    → kw ≢ Keyword.unknown
    → s ≡ (keyword_info kw).name
unfolding lookup_keyword
lookup_keyword_sound [] kw e ne = absurd (ne (sym e))
lookup_keyword_sound (c ∷ s) kw e ne = ground (
  arith,
  first_match-name b'c' case_c s kw (unfold is_case keyword_info streq in refl),
  first_match-name b'd' case_d s kw (unfold is_case keyword_info streq in refl),
  first_match-name b'e' case_e s kw (unfold is_case keyword_info streq in refl),
  first_match-name b'g' case_g s kw (unfold is_case keyword_info streq in refl),
  first_match-name b'h' case_h s kw (unfold is_case keyword_info streq in refl),
  first_match-name b'i' case_i s kw (unfold is_case keyword_info streq in refl),
  first_match-name b'k' case_k s kw (unfold is_case keyword_info streq in refl),
  first_match-name b'l' case_l s kw (unfold is_case keyword_info streq in refl),
  first_match-name b'm' case_m s kw (unfold is_case keyword_info streq in refl),
  first_match-name b'o' case_o s kw (unfold is_case keyword_info streq in refl),
  first_match-name b'r' case_r s kw (unfold is_case keyword_info streq in refl),
  first_match-name b's' case_s s kw (unfold is_case keyword_info streq in refl),
  first_match-name b't' case_t s kw (unfold is_case keyword_info streq in refl),
  first_match-name b'u' case_u s kw (unfold is_case keyword_info streq in refl),
  first_match-name b'w' case_w s kw (unfold is_case keyword_info streq in refl),
)

-- A text is looked up as a keyword other than `unknown` exactly if it is that keyword's name in
-- the table.
pub lookup_keyword_iff :
    (s : Bytes) (kw : Keyword)
    → kw ≢ Keyword.unknown
    → (lookup_keyword s ≡ kw) ↔ (s ≡ (keyword_info kw).name)
lookup_keyword_iff s kw ne =
    (λ e. lookup_keyword_sound s kw e ne, λ e. ap lookup_keyword e ∙ lookup_keyword-name kw ne)
