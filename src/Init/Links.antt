-- ===== src/Init/Links.antt =====
-- android2.1_init/init/util.c and init.h: the intrusive doubly linked lists. A node is a number,
-- and the heap maps each node to its two links.
pub mod Ring
pub mod Requeue
use demonstratortool.Base.{ℕ, ◌==◌, if◌then◌else◌, Bool}

-- The `next` and `prev` links of every `struct listnode`.
pub record Links : Type 0 where
  pub next : ℕ → ℕ
  pub prev : ℕ → ℕ

abbrev update : (ℕ → ℕ) → ℕ → ℕ → ℕ → ℕ
update f k v j = if j == k then v else f j

-- `node->next = v` and `node->prev = v`
abbrev set_next : Links → ℕ → ℕ → Links
set_next l node v = record l { next = update l.next node v }

abbrev set_prev : Links → ℕ → ℕ → Links
set_prev l node v = record l { prev = update l.prev node v }

unfoldable pub list_init : Links → ℕ → Links
list_init l node = let a = set_next l node node in set_prev a node node

unfoldable pub list_add_tail : Links → ℕ → ℕ → Links
list_add_tail l head item =
    let a = set_next l item head in
    let b = set_prev a item (a.prev head) in
    let c = set_next b (b.prev head) item in set_prev c head item

unfoldable pub list_remove : Links → ℕ → Links
list_remove l item =
    let a = set_prev l (l.next item) (l.prev item) in set_next a (a.prev item) (a.next item)

unfoldable pub list_empty : Links → ℕ → Bool
list_empty l head = head == l.next head

unfoldable pub list_head : Links → ℕ → ℕ
list_head l head = l.next head
