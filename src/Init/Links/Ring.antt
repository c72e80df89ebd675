-- ===== src/Init/Links/Ring.antt =====
-- When the links of a list head form a ring through distinct nodes, the operations of
-- android2.1_init/init/util.c act on it as those of a queue.
use demonstratortool.Base.{ℕ, true, List, [], ◌∷◌, ◌++◌, ◌≡◌, ◌≢◌, ◌↔◌, arith, All, sym, ap, ◌∙◌}
use demonstratortool.Init.Links.{Links, update, list_init, list_add_tail, list_remove, list_empty}

-- The links lead from `a` through `xs` to `b`, and back.
abbrev pub Segment : Links → ℕ → List ℕ → ℕ → Type 0
Segment l a [] b = (l.next a ≡ b) × (l.prev b ≡ a)
Segment l a (x ∷ xs) b = (l.next a ≡ x) × (l.prev x ≡ a) × Segment l x xs b

abbrev pub Without : ℕ → List ℕ → Type 0
Without x xs = All (λ y. y ≢ x) xs

abbrev pub IsDistinct : List ℕ → Type 0
IsDistinct [] = Unit
IsDistinct (x ∷ xs) = Without x xs × IsDistinct xs

-- The list with this head holds `xs`, in order.
pub record IsRing (l : Links) (head : ℕ) (xs : List ℕ) : Type 0 where
  pub linked : Segment l head xs head
  pub distinct : IsDistinct (head ∷ xs)

pub last-ne :
    (l : Links) (a : ℕ) (xs : List ℕ) (b x : ℕ)
    → Segment l a xs b
    → a ≢ x
    → Without x xs
    → l.prev b ≢ x
last-ne l a [] b x s h w = λ e. h (ground arith)
last-ne l a (y ∷ xs) b x s h w = last-ne l y xs b x s.2 w.0 w.1

-- A segment reads `next` at its nodes but the end, and `prev` at its nodes but the start.
Segment-cong :
    (l m : Links) (a : ℕ) (xs : List ℕ) (b : ℕ)
    → All (λ x. m.next x ≡ l.next x) (a ∷ xs)
    → All (λ x. m.prev x ≡ l.prev x) (b ∷ xs)
    → Segment l a xs b
    → Segment m a xs b
Segment-cong l m a [] b hn hp s = (hn.0 ∙ s.0, hp.0 ∙ s.1)
Segment-cong l m a (x ∷ xs) b hn hp s =
    (hn.0 ∙ s.0, hp.1.0 ∙ s.1, Segment-cong l m x xs b hn.1 (hp.0, hp.1.1) s.2)

-- A segment that ends at `b` takes one more node in front of `b`.
module _ (l m : Links) (b item : ℕ)
    (next_same : (j : ℕ) → j ≢ l.prev b → j ≢ item → m.next j ≡ l.next j)
    (prev_same : (j : ℕ) → j ≢ b → j ≢ item → m.prev j ≡ l.prev j)
    (next_last : m.next (l.prev b) ≡ item) (next_item : m.next item ≡ b)
    (prev_item : m.prev item ≡ l.prev b) (prev_end : m.prev b ≡ item) where
  Segment-append :
      (a : ℕ) (xs : List ℕ)
      → Segment l a xs b
      → IsDistinct (a ∷ xs)
      → Without b xs
      → Without item (a ∷ xs)
      → Segment m a (xs ++ item ∷ []) b
  Segment-append a [] s d nb ni =
      (ap m.next (sym s.1) ∙ next_last, prev_item ∙ s.1, (next_item, prev_end))
  Segment-append a (x ∷ xs) s d nb ni = (
    next_same a (λ e. last-ne l x xs b a s.2 d.0.0 d.0.1 (sym e)) ni.0 ∙ s.0,
    prev_same x nb.0 ni.1.0 ∙ s.1,
    Segment-append x xs s.2 d.1 nb.1 ni.1,
  )

Without-append : (x y : ℕ) (xs : List ℕ) → Without x xs → y ≢ x → Without x (xs ++ y ∷ [])
Without-append x y [] w h = (h, tt)
Without-append x y (z ∷ xs) w h = (w.0, Without-append x y xs w.1 h)

IsDistinct-append : (x : ℕ) (xs : List ℕ) → IsDistinct xs → Without x xs → IsDistinct (xs ++ x ∷ [])
IsDistinct-append x [] d w = (tt, tt)
IsDistinct-append x (y ∷ xs) d w =
    (Without-append y x xs d.0 (λ e. w.0 (sym e)), IsDistinct-append x xs d.1 w.1)

-- `list_init` makes an empty list.
pub list_init-IsRing : (l : Links) (head : ℕ) → IsRing (list_init l head) head []
unfolding list_init
list_init-IsRing l head = record { linked = (ground arith, ground arith); distinct = (tt, tt) }

-- Adding a node that is not in the list, nor its head, puts it behind the others.
pub list_add_tail-IsRing :
    (l : Links) (head item : ℕ) (xs : List ℕ)
    → IsRing l head xs
    → Without item (head ∷ xs)
    → IsRing (list_add_tail l head item) head (xs ++ item ∷ [])
unfolding list_add_tail
list_add_tail-IsRing l head item xs r w = record {
  linked =
      let apart : l.prev head ≢ item = last-ne l head xs head item r.linked w.0 w.1 in
      Segment-append l (list_add_tail l head item) head item (λ j h k. ground arith)
        (λ j h k. ground arith) (ground arith) (ground arith) (ground arith) (ground arith) head xs
        r.linked r.distinct r.distinct.0 w;
  distinct = IsDistinct-append item (head ∷ xs) r.distinct w;
}

-- A write at `k` leaves the links of the other nodes.
update-All :
    (f : ℕ → ℕ) (k v n : ℕ) (xs : List ℕ)
    → k ≡ n
    → Without n xs
    → All (λ x. update f k v x ≡ f x) xs
update-All f k v n [] e w = tt
update-All f k v n (x ∷ xs) e w = (ground arith, update-All f k v n xs e w.1)

Segment-remove :
    (l : Links) (head x : ℕ) (xs : List ℕ)
    → Segment l head (x ∷ xs) head
    → IsDistinct (head ∷ x ∷ xs)
    → Segment (list_remove l x) head xs head
unfolding list_remove
Segment-remove l head x [] s d = ground arith
Segment-remove l head x (y ∷ ys) s d = (ground arith, ground arith, rest)
  where
    before : update l.prev (l.next x) (l.prev x) x ≡ head
    before = ground arith

    next_same : All (λ j. (list_remove l x).next j ≡ l.next j) (y ∷ ys)
    next_same = update-All l.next _ _ head (y ∷ ys) before d.0.1

    prev_same : All (λ j. (list_remove l x).prev j ≡ l.prev j) (head ∷ ys)
    prev_same = update-All l.prev _ _ y (head ∷ ys) s.2.0 ((λ e. d.0.1.0 (sym e)), d.1.1.0)

    rest : Segment (list_remove l x) y ys head
    rest = Segment-cong l (list_remove l x) y ys head next_same prev_same s.2.2

-- Removing the first node leaves the others in order.
pub list_remove-IsRing :
    (l : Links) (head x : ℕ) (xs : List ℕ)
    → IsRing l head (x ∷ xs)
    → IsRing (list_remove l x) head xs
list_remove-IsRing l head x xs r = record {
  linked = Segment-remove l head x xs r.linked r.distinct;
  distinct = (r.distinct.0.1, r.distinct.1.1);
}

-- `list_empty` and `list_head` answer for the list that the ring holds.
pub list_empty-IsRing :
    (l : Links) (head : ℕ) (xs : List ℕ) → IsRing l head xs → (list_empty l head ≡ true) ↔ (xs ≡ [])
unfolding list_empty
list_empty-IsRing l head [] r = ground (arith, r.linked.0)
list_empty-IsRing l head (x ∷ xs) r = ground (arith, r.linked.0, r.distinct.0.0)
