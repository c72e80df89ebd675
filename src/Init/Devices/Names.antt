-- ===== src/Init/Devices/Names.antt =====
-- The name behind the last `/` of the path of an event (android2.1_init/init/devices.c).
use demonstratortool.Base.{
  Lacks, zero, suc, sym, streq_iff, ℕ, ◌≤◌, ◌≡◌, refl, subst, inl, inr, Bool, true, false, not,
  ◌||◌, none, some, [], ◌∷◌, arith, ◌==◌, Bool-cases, Option-cases, length, drop, Bytes, codes,
  streq, length-drop, All-drop,
}
use demonstratortool.Init.Devices.{behind_last}

behind_last-none : (c : ℕ) (s : Bytes) → behind_last c s ≡ none → Lacks c s
unfolding behind_last
behind_last-none c [] e = tt
behind_last-none c (x ∷ s) e = elim (Option-cases (behind_last c s)) [
  | inl k ↦ elim (Bool-cases (x == c)) [
    | inl t ↦ cc
    | inr f ↦ (grind arith, behind_last-none c s k)
  ]
  | inr (r, k) ↦ cc
]

pub behind_last-Lacks : (c : ℕ) (s rest : Bytes) → behind_last c s ≡ some rest → Lacks c rest
unfolding behind_last
behind_last-Lacks c [] rest e = cc
behind_last-Lacks c (x ∷ s) rest e = elim (Option-cases (behind_last c s)) [
  | inl k ↦ elim (Bool-cases (x == c)) [
    | inl t ↦ (let same : s ≡ rest = cc in subst (Lacks c) same (behind_last-none c s k))
    | inr f ↦ cc
  ]
  | inr (r, k) ↦ (let same : r ≡ rest = cc in subst (Lacks c) same (behind_last-Lacks c s r k))
]

abbrev pub is_dots : Bytes → Bool
is_dots s = streq s (codes ".") || streq s (codes "..")

unfoldable pub ends_in_dot : Bytes → Bool
ends_in_dot [] = false
ends_in_dot (x ∷ []) = x == b'.'
ends_in_dot (x ∷ y ∷ s) = ends_in_dot (y ∷ s)

-- What is used of a name for an event with this path.
pub record IsName (event_path name : Bytes) : Type 0 where
  pub direct : Lacks b'/' name
  pub short : length name ≤ 64
  pub dotted : (not (ends_in_dot name) || ends_in_dot event_path) ≡ true

ends_in_dot-cons : (x : ℕ) (s : Bytes) → ends_in_dot s ≡ true → ends_in_dot (x ∷ s) ≡ true
unfolding ends_in_dot
ends_in_dot-cons x [] e = cc
ends_in_dot-cons x (y ∷ s) e = e

pub behind_last-ends_in_dot :
    (c : ℕ) (s rest : Bytes)
    → behind_last c s ≡ some rest
    → ends_in_dot rest ≡ true
    → ends_in_dot s ≡ true
unfolding behind_last
behind_last-ends_in_dot c [] rest e h = cc
behind_last-ends_in_dot c (x ∷ s) rest e h = elim (Option-cases (behind_last c s)) [
  | inl k ↦ elim (Bool-cases (x == c)) [
    | inl t ↦
        (let same : rest ≡ s = cc in
          ends_in_dot-cons x s (subst (λ r. ends_in_dot r ≡ true) same h))
    | inr f ↦ cc
  ]
  | inr (r, k) ↦
      (let same : rest ≡ r = cc in
        ends_in_dot-cons x s
          (behind_last-ends_in_dot c s r k (subst (λ t. ends_in_dot t ≡ true) same h)))
]

drop-ends_in_dot : (n : ℕ) (s : Bytes) → ends_in_dot (drop n s) ≡ true → ends_in_dot s ≡ true
drop-ends_in_dot zero s e = e
drop-ends_in_dot (suc n) [] e = e
drop-ends_in_dot (suc n) (x ∷ s) e = ends_in_dot-cons x s (drop-ends_in_dot n s e)

-- What follows, as a test.
pub implied : (a b : Bool) → (a ≡ true → b ≡ true) → (not a || b) ≡ true
implied true b h = h refl
implied false b h = refl

pub implies : (a b : Bool) → (not a || b) ≡ true → a ≡ true → b ≡ true
implies a b h k = ground arith

pub is_dots-ends_in_dot : (s : Bytes) → is_dots s ≡ true → ends_in_dot s ≡ true
unfolding ends_in_dot
is_dots-ends_in_dot s e = elim (Bool-cases (streq s (codes "."))) [
  | inl t ↦ subst (λ r. ends_in_dot r ≡ true) (sym ((streq_iff s (codes ".")).0 t)) refl
  | inr f ↦
      subst (λ r. ends_in_dot r ≡ true) (sym ((streq_iff s (codes "..")).0 (ground arith))) refl
]

pub drop-IsName :
    (path : Bytes) (n : ℕ) (name : Bytes) → IsName path name → IsName path (drop n name)
drop-IsName path n name v = record {
  direct = All-drop _ n name v.direct;
  short = omega (arith, length-drop n name, v.short);
  dotted =
      implied (ends_in_dot (drop n name)) (ends_in_dot path)
        λ e. implies (ends_in_dot name) (ends_in_dot path) v.dotted (drop-ends_in_dot n name e);
}
