-- ===== src/Init/Tests/Lists.antt =====
-- Lists of two nodes (android2.1_init/init/util.c).
use demonstratortool.Base.{[], ◌∷◌, arith}
use demonstratortool.Init.Links.{Links, list_init, list_add_tail, list_remove}
use demonstratortool.Init.Links.Ring.{
  IsRing, list_init-IsRing, list_add_tail-IsRing, list_remove-IsRing,
}

abbrev no_nodes : Links
no_nodes = list_init (record { next = λ j. j; prev = λ j. j }) 0

abbrev one_node : Links
one_node = list_add_tail no_nodes 0 1

list_add_tail-IsRing_example : IsRing one_node 0 (1 ∷ [])
list_add_tail-IsRing_example =
    list_add_tail-IsRing no_nodes 0 1 [] (list_init-IsRing _ 0) (ground arith)

two_nodes : IsRing (list_add_tail one_node 0 2) 0 (1 ∷ 2 ∷ [])
two_nodes = list_add_tail-IsRing one_node 0 2 (1 ∷ []) list_add_tail-IsRing_example (ground arith)

list_remove-IsRing_example : IsRing (list_remove (list_add_tail one_node 0 2) 1) 0 (2 ∷ [])
list_remove-IsRing_example = list_remove-IsRing (list_add_tail one_node 0 2) 0 1 (2 ∷ []) two_nodes
