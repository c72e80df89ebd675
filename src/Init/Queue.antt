-- ===== src/Init/Queue.antt =====
-- The queue of pending actions and the triggers (android2.1_init/init/parser.c).
use demonstratortool.Base.{
  ℕ, ◌+◌, ◌-◌, Bool, false, not, ◌&&◌, Option, none, some, List, [], ◌∷◌, ltb, ◌==◌, if◌then◌else◌,
  length, drop, Bytes, codes, streq, starts_with, strchr,
}
use demonstratortool.Init.Links.{list_add_tail, list_remove, list_empty, list_head}
use demonstratortool.Init.Platform.{Platform}
use demonstratortool.Init.Config.{Action}
use demonstratortool.Init.Properties.{property_get}
use demonstratortool.Init.World.{World}

-- The action with an index goes to the end of the queue.
unfoldable pub action_add_queue_tail : ℕ → World → World
action_add_queue_tail i w = record w { queue = list_add_tail w.queue 0 (i + 1) }

-- The node at the head of the queue leaves it; the result is the index of its action.
unfoldable pub action_remove_queue_head : World → Option (ℕ × World)
action_remove_queue_head w =
    let node = list_head w.queue 0 in
    if list_empty w.queue 0
    then none
    else some (node - 1, record w { queue = list_remove w.queue node })

-- Every action of the list that passes a test is queued, in order; `i` is the first one's index.
unfoldable pub queue_matching : (Bytes → Bool) → List Action → ℕ → World → World
queue_matching test [] i w = w
queue_matching test (act ∷ rest) i w =
    queue_matching test rest (i + 1) (if test act.name then action_add_queue_tail i w else w)

-- `action_for_each_trigger(trigger, action_add_queue_tail)`
unfoldable pub queue_trigger : Bytes → World → World
queue_trigger trigger w = queue_matching (λ name. streq name trigger) w.actions 0 w

abbrev pub property_prefix : Bytes
property_prefix = codes "property:"

-- Whether the name of an action is "property:" and the property's name, "=", and its value.
unfoldable pub matches_property : Bytes → Bytes → Bytes → Bool
matches_property name value act =
    let test = drop (length property_prefix) act in
    starts_with act property_prefix
    && starts_with test name
    && (elim (drop (length name) test) [ [] ↦ false | c ∷ rest ↦ c == b'=' && streq rest value ])

unfoldable pub queue_property_triggers : Bytes → Bytes → World → World
queue_property_triggers name value w = queue_matching (matches_property name value) w.actions 0 w

-- Whether a property has the value that the name of an action asks for.
unfoldable pub holds_now : Platform → World → Bytes → Bool
holds_now p w act =
    starts_with act property_prefix && (elim (strchr (drop (length property_prefix) act) b'=') [
      | none ↦ false
      | some (name, wanted) ↦
          not (ltb p.prop_name_max (length name))
          && (elim (property_get p w.props name) [ none ↦ false | some v ↦ streq wanted v ])
    ])

unfoldable pub queue_all_property_triggers : Platform → World → World
queue_all_property_triggers p w = queue_matching (holds_now p w) w.actions 0 w
