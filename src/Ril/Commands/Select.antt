-- ===== src/Ril/Commands/Select.antt =====
-- Lines that are kept for a command as they come (android2.1_init/hard_ril/reference-ril/atchannel.c),
-- and in the order in which the issuer gets them.
use demonstratortool.Base.{
  ◌≡◌, refl, ap, ◌∙◌, inl, inr, Bool, true, false, not, ◌&&◌, ◌||◌, List, [], ◌∷◌, ◌++◌,
  if◌then◌else◌, Bool-cases, Bytes,
}
use mathlib.Core.List.{append-nil}
use demonstratortool.Ril.Channel.{is_empty}
use demonstratortool.Ril.Commands.{reverse_onto}

-- The lines that fit, all of them or the first one, and the others.
unfoldable pub select : (Bytes → Bool) → Bool → List Bytes → List Bytes
select test once [] = []
select test once (l ∷ ls) =
    if test l then l ∷ (if once then [] else select test once ls) else select test once ls

unfoldable pub reject : (Bytes → Bool) → Bool → List Bytes → List Bytes
reject test once [] = []
reject test once (l ∷ ls) =
    if test l then (if once then ls else reject test once ls) else l ∷ reject test once ls

-- Whether a line becomes a part of the answer.
abbrev pub keeps : (Bytes → Bool) → Bool → List Bytes → Bytes → Bool
keeps test once acc l = test l && (not once || is_empty acc)

-- The lines that a command has got behind those of before, with the last one first, and those passed on.
unfoldable pub answer_of : (Bytes → Bool) → Bool → List Bytes → List Bytes → List Bytes
answer_of test once acc [] = acc
answer_of test once acc (l ∷ ls) =
    answer_of test once (if keeps test once acc l then l ∷ acc else acc) ls

unfoldable pub passed_of : (Bytes → Bool) → Bool → List Bytes → List Bytes → List Bytes
passed_of test once acc [] = []
passed_of test once acc (l ∷ ls) =
    let kept = passed_of test once (l ∷ acc) ls in
    let passed = passed_of test once acc ls in if keeps test once acc l then kept else l ∷ passed

module _ (test : Bytes → Bool) where
  answer_of-all :
      (acc ls : List Bytes) → answer_of test false acc ls ≡ reverse_onto (select test false ls) acc
  unfolding answer_of select reverse_onto
  answer_of-all acc [] = refl
  answer_of-all acc (l ∷ ls) = elim (Bool-cases (test l)) [
    | inl e ↦ rw e (answer_of-all (l ∷ acc) ls)
    | inr e ↦ rw e (answer_of-all acc ls)
  ]

  answer_of-full : (x : Bytes) (acc ls : List Bytes) → answer_of test true (x ∷ acc) ls ≡ x ∷ acc
  unfolding answer_of
  answer_of-full x acc [] = refl
  answer_of-full x acc (l ∷ ls) = elim (Bool-cases (test l)) [
    | inl e ↦ rw e (answer_of-full x acc ls)
    | inr e ↦ rw e (answer_of-full x acc ls)
  ]

  answer_of-once :
      (ls : List Bytes) → answer_of test true [] ls ≡ reverse_onto (select test true ls) []
  unfolding answer_of select reverse_onto
  answer_of-once [] = refl
  answer_of-once (l ∷ ls) = elim (Bool-cases (test l)) [
    | inl e ↦ rw e (answer_of-full l [] ls)
    | inr e ↦ rw e (answer_of-once ls)
  ]

  passed_of-all : (acc ls : List Bytes) → passed_of test false acc ls ≡ reject test false ls
  unfolding passed_of reject
  passed_of-all acc [] = refl
  passed_of-all acc (l ∷ ls) = elim (Bool-cases (test l)) [
    | inl e ↦ rw e (passed_of-all (l ∷ acc) ls)
    | inr e ↦ rw e (ap (λ (r : List Bytes). l ∷ r) (passed_of-all acc ls))
  ]

  passed_of-full : (x : Bytes) (acc ls : List Bytes) → passed_of test true (x ∷ acc) ls ≡ ls
  unfolding passed_of
  passed_of-full x acc [] = refl
  passed_of-full x acc (l ∷ ls) = elim (Bool-cases (test l)) [
    | inl e ↦ rw e (ap (λ (r : List Bytes). l ∷ r) (passed_of-full x acc ls))
    | inr e ↦ rw e (ap (λ (r : List Bytes). l ∷ r) (passed_of-full x acc ls))
  ]

  passed_of-once : (ls : List Bytes) → passed_of test true [] ls ≡ reject test true ls
  unfolding passed_of reject
  passed_of-once [] = refl
  passed_of-once (l ∷ ls) = elim (Bool-cases (test l)) [
    | inl e ↦ rw e (passed_of-full l [] ls)
    | inr e ↦ rw e (ap (λ (r : List Bytes). l ∷ r) (passed_of-once ls))
  ]

reverse_onto_twice :
    (xs ys zs : List Bytes) → reverse_onto (reverse_onto xs ys) zs ≡ reverse_onto ys (xs ++ zs)
unfolding reverse_onto
reverse_onto_twice [] ys zs = refl
reverse_onto_twice (x ∷ xs) ys zs = reverse_onto_twice xs (x ∷ ys) zs

pub answer_of-select :
    (test : Bytes → Bool) (once : Bool) (ls : List Bytes)
    → reverse_onto (answer_of test once [] ls) [] ≡ select test once ls
unfolding reverse_onto
answer_of-select test false ls =
    rw (answer_of-all test [] ls) (reverse_onto_twice (select test false ls) [] [] ∙ append-nil _)
answer_of-select test true ls =
    rw (answer_of-once test ls) (reverse_onto_twice (select test true ls) [] [] ∙ append-nil _)

pub passed_of-reject :
    (test : Bytes → Bool) (once : Bool) (ls : List Bytes)
    → passed_of test once [] ls ≡ reject test once ls
passed_of-reject test false ls = passed_of-all test [] ls
passed_of-reject test true ls = passed_of-once test ls
