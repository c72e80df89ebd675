-- ===== src/Init/Links/Requeue.antt =====
-- What `list_add_tail` of android2.1_init/init/util.c does to a node that stands in the list
-- already: `action_add_queue_tail` has no test for that.
use demonstratortool.Base.{ℕ, zero, suc, false, List, ◌∷◌, ◌≡◌, ◌≢◌, arith}
use demonstratortool.Init.Links.{Links, list_add_tail, list_remove, list_empty, list_head}
use demonstratortool.Init.Links.Ring.{IsRing, last-ne}

-- The list is read as if `x` were its first node, and removing `x` does not change that.
pub record IsStuck (l : Links) (head x : ℕ) : Type 0 where
  pub first : l.next head ≡ x
  pub back : l.prev x ≢ head
  pub apart : x ≢ head

pub list_remove-IsStuck :
    (l : Links) (head x : ℕ) → IsStuck l head x → IsStuck (list_remove l x) head x
unfolding list_remove
list_remove-IsStuck l head x s = ground arith

pub list_add_tail-IsStuck :
    (l : Links) (head x : ℕ) (xs : List ℕ)
    → IsRing l head (x ∷ xs)
    → IsStuck (list_add_tail l head x) head x
unfolding list_add_tail
list_add_tail-IsStuck l head x xs r =
    ground (arith, last-ne l x xs head head r.linked.2 r.distinct.0.0 r.distinct.0.1)

-- The links after the first node has been removed `n` times.
unfoldable pub remove_heads : Links → ℕ → ℕ → Links
remove_heads l head zero = l
remove_heads l head (suc n) = remove_heads (list_remove l (list_head l head)) head n

remove_heads-IsStuck :
    (l : Links) (head x n : ℕ) → IsStuck l head x → IsStuck (remove_heads l head n) head x
unfolding remove_heads list_head
remove_heads-IsStuck l head x zero s = s
remove_heads-IsStuck l head x (suc n) s =
    remove_heads-IsStuck (list_remove l (l.next head)) head x n
      (rw s.first (list_remove-IsStuck l head x s))

-- When the first node of a list is added once more, the list never becomes empty again: however
-- often its first node is removed, that node is still the first.
pub requeue_never_empties :
    (l : Links) (head x : ℕ) (xs : List ℕ) (n : ℕ)
    → IsRing l head (x ∷ xs)
    → let m = remove_heads (list_add_tail l head x) head n in
      (list_head m head ≡ x) × (list_empty m head ≡ false)
unfolding list_head list_empty
requeue_never_empties l head x xs n r =
    ground (arith, remove_heads-IsStuck _ head x n (list_add_tail-IsStuck l head x xs r))
