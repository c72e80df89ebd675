-- ===== src/Init/Parser/Total.antt =====
-- `parse_config` of android2.1_init/init/parser.c comes to an end, and keeps the configuration
-- valid.
use demonstratortool.Base.{
  ℕ, zero, suc, ◌+◌, ◌≤◌, ◌<◌, ◌≡◌, refl, sym, ◌∙◌, ◌≢◌, ◌⊎◌, inl, inr, none, some, List, [], ◌∷◌,
  ◌++◌, arith, Bool-cases, Option-cases, length, length-append, get_elem?-append_self, All-append,
  Bytes, streq_iff,
}
use demonstratortool.Init.Keywords.{Keyword, is_section, lookup_keyword}
use demonstratortool.Init.Lexer.{Token, eof, text, newline, LexState, next_token}
use demonstratortool.Init.Lexer.Bounds.{size, next_token-progress}
use demonstratortool.Init.Platform.{Platform}
use demonstratortool.Init.Config.{Service, Config, ErrorKind, svc_max_args}
use demonstratortool.Init.Config.Valid.{IsService, IsAction, IsConfig, HasNames-append, IsUnnamed}
use demonstratortool.Init.Parser.{
  valid_name, Context, no_op, in_service, parse_new_section, end_line, add_arg, parse_loop, initial,
  parse_config, find_by_name, service_find_by_name, parse_service, parse_action, new_service,
  parse_error,
}
use demonstratortool.Init.Parser.Lines.{IsIdle, IsParsed, parse_line-IsParsed}

find_by_name-none :
    (services : List Service) (name : Bytes) (i : ℕ)
    → find_by_name services name i ≡ none
    → IsUnnamed name services
unfolding find_by_name
find_by_name-none [] name i e = tt
find_by_name-none (s ∷ rest) name i e =
    ground (arith, streq_iff s.name name, find_by_name-none rest name (i + 1))

new_service-IsService :
    (name : Bytes) (args : List Bytes)
    → 1 ≤ length args
    → length args + 2 ≤ svc_max_args
    → IsService (new_service name args) × IsIdle (new_service name args)
unfolding new_service
new_service-IsService name args h k = ground arith

add_service-IsParsed :
    (g : Config) (svc : Service)
    → IsConfig g
    → IsService svc × IsIdle svc
    → IsUnnamed svc.name g.services
    → IsParsed (record g { services = g.services ++ svc ∷ [] }) (in_service (length g.services))
add_service-IsParsed g svc v k u = (
  record {
    services = All-append IsService g.services (svc ∷ []) v.services (k.0, tt);
    names = HasNames-append g.services svc v.names u;
    actions = v.actions;
  },
  λ other at.
      let same : some svc ≡ some other = sym (get_elem?-append_self g.services svc) ∙ at in
      ground arith,
)

parse_error-IsConfig :
    (g : Config) (line : ℕ) (kind : ErrorKind) → IsConfig g → IsConfig (parse_error g line kind)
unfolding parse_error
parse_error-IsConfig g line kind v = record {
  services = v.services;
  names = v.names;
  actions = v.actions;
}

parse_service-IsParsed :
    (g : Config) (line : ℕ) (args : List Bytes)
    → length args ≤ svc_max_args
    → IsConfig g
    → IsParsed (parse_service g line args).0 (parse_service g line args).1
unfolding parse_service
parse_service-IsParsed g line [] h v = (parse_error-IsConfig g line _ v, tt)
parse_service-IsParsed g line (k ∷ []) h v = (parse_error-IsConfig g line _ v, tt)
parse_service-IsParsed g line (k ∷ n ∷ []) h v = (parse_error-IsConfig g line _ v, tt)
parse_service-IsParsed g line (k ∷ n ∷ program ∷ rest) h v = elim (Bool-cases (valid_name n)) [
  | inr e ↦ rw e (parse_error-IsConfig g line _ v, tt)
  | inl e ↦ elim (Option-cases (service_find_by_name g.services n)) [
    | inr (j, f) ↦ rw (e, f) (parse_error-IsConfig g line _ v, tt)
    | inl f ↦
        rw (e, f)
          (add_service-IsParsed g (new_service n (program ∷ rest)) v
            (new_service-IsService n (program ∷ rest) (omega arith) (omega arith))
            (unfold service_find_by_name new_service in find_by_name-none g.services n 0 f))
  ]
]

parse_action-IsParsed :
    (g : Config) (line : ℕ) (args : List Bytes)
    → IsConfig g
    → IsParsed (parse_action g line args).0 (parse_action g line args).1
unfolding parse_action
parse_action-IsParsed g line (k ∷ n ∷ []) v = (
  record {
    services = v.services;
    names = v.names;
    actions = All-append IsAction g.actions _ v.actions (tt, tt);
  },
  tt,
)
parse_action-IsParsed g line (k ∷ n ∷ x ∷ rest) v = (parse_error-IsConfig g line _ v, tt)
parse_action-IsParsed g line (k ∷ []) v = (parse_error-IsConfig g line _ v, tt)
parse_action-IsParsed g line [] v = (parse_error-IsConfig g line _ v, tt)

parse_new_section-IsParsed :
    (g : Config) (kw : Keyword) (line : ℕ) (args : List Bytes)
    → length args ≤ svc_max_args
    → IsConfig g
    → IsParsed (parse_new_section g kw line args).0 (parse_new_section g kw line args).1
unfolding parse_new_section
parse_new_section-IsParsed g Keyword.service line args h v = parse_service-IsParsed g line args h v
parse_new_section-IsParsed g Keyword.on line args h v = parse_action-IsParsed g line args v
parse_new_section-IsParsed g _ line args h v = (v, tt)

end_line-IsParsed :
    (p : Platform) (g : Config) (c : Context) (line : ℕ) (args : List Bytes)
    → length args ≤ svc_max_args
    → IsParsed g c
    → IsParsed (end_line p g c line args).0 (end_line p g c line args).1
unfolding end_line
end_line-IsParsed p g c line [] h v = v
end_line-IsParsed p g c line (k ∷ rest) h v = elim (Bool-cases (is_section (lookup_keyword k))) [
  | inl e ↦ rw e (
      parse_new_section-IsParsed _ (lookup_keyword k) line (k ∷ rest) h
        (parse_line-IsParsed p g c line [] (omega arith) v).0)
  | inr e ↦ rw e (parse_line-IsParsed p g c line (k ∷ rest) h v)
]

length-add_arg :
    (args : List Bytes) (word : Bytes)
    → length args ≤ svc_max_args
    → length (add_arg args word) ≤ svc_max_args
unfolding add_arg
length-add_arg args word h = ground (arith, length-append args (word ∷ []))

Token-cases : (t : Token) → (t ≡ eof) ⊎ (t ≡ text) ⊎ (t ≡ newline)
Token-cases eof = inl refl
Token-cases text = inr (inl refl)
Token-cases newline = inr (inr refl)

smaller :
    (s : LexState) (t : Token) (fuel : ℕ)
    → (next_token s).0 ≡ t
    → t ≢ eof
    → size s < suc fuel
    → size (next_token s).1 < fuel
smaller s t fuel e k f = omega (arith, next_token-progress s (λ q. k (sym e ∙ q)))

-- The loop ends with a configuration that is valid, if its fuel is more than what is left to read.
parse_loop-IsConfig :
    (fuel : ℕ) (p : Platform) (s : LexState) (c : Context) (args : List Bytes) (g : Config)
    → size s < fuel
    → length args ≤ svc_max_args
    → IsParsed g c
    → (g' : Config) × (parse_loop fuel p s c args g ≡ some g') × IsConfig g'
unfolding parse_loop
parse_loop-IsConfig zero p s c args g f h v = absurd (omega arith)
parse_loop-IsConfig (suc fuel) p s c args g f h v = elim (Token-cases (next_token s).0) [
  | inl e ↦ (
    _,
    rw (e, parse_loop),
    (parse_line-IsParsed p g c (next_token s).1.line [] (omega arith) v).0,
  )
  | inr (inl e) ↦
      rw (e, parse_loop)
        (parse_loop-IsConfig fuel p (next_token s).1 c (add_arg args (next_token s).1.text) g
          (smaller s text fuel e (λ q. cc) f) (length-add_arg args _ h) v)
  | inr (inr e) ↦
      let after = end_line p g c (next_token s).1.line args in
      rw (e, parse_loop)
        (parse_loop-IsConfig fuel p (next_token s).1 after.1 [] after.0
          (smaller s newline fuel e (λ q. cc) f) (omega arith)
          (end_line-IsParsed p g c (next_token s).1.line args h v))
]

-- From a valid configuration, parsing comes to an end whatever the file holds, in a valid
-- configuration: service names are distinct, every service has a program, at most 62 arguments
-- and at most six supplementary groups, and every command has the arguments that its keyword
-- asks for.
pub parse_config-IsConfig :
    (p : Platform) (file : Bytes) (g : Config)
    → IsConfig g
    → (g' : Config) × (parse_config p file g ≡ some g') × IsConfig g'
unfolding parse_config
parse_config-IsConfig p file g v =
    parse_loop-IsConfig _ p (initial file) no_op [] g (omega arith) (omega arith) (v, tt)
