-- ===== src/Init/Machine/Drain.antt =====
-- What `drain_action_queue` (android2.1_init/init/init.c) does with the queue.
use demonstratortool.Base.{
  get_elem?, ℕ, zero, suc, ◌+◌, ◌-◌, ◌<◌, ◌≡◌, refl, ap, ◌∙◌, Bool, true, false, Option, none, some,
  length, get_elem?, Bytes, List, [], ◌∷◌, arith,
}
use demonstratortool.Init.Links.{Links, list_empty, list_head, list_remove}
use demonstratortool.Init.Links.Ring.{IsRing}
use demonstratortool.Init.Links.Requeue.{IsStuck, list_remove-IsStuck, list_add_tail-IsStuck}
use demonstratortool.Init.Config.{Command}
use demonstratortool.Init.Keywords.{Keyword}
use demonstratortool.Init.Platform.{Platform}
use demonstratortool.Init.Queue.{action_add_queue_tail, action_remove_queue_head}
use demonstratortool.Init.Builtins.{last_read, run_commands}
use demonstratortool.Init.World.{World, Event, ran, no_fuel}
use demonstratortool.Init.Machine.{commands_at, drain_action_queue}

pop-some :
    (w : World) (x : ℕ)
    → list_head w.queue 0 ≡ x
    → list_empty w.queue 0 ≡ false
    → action_remove_queue_head w ≡ some (x - 1, record w { queue = list_remove w.queue x })
unfolding action_remove_queue_head
pop-some w x e h = rw (e, h)

-- Whether a command is one that acts on the kernel alone.
abbrev pub is_kernel_keyword : Keyword → Bool
is_kernel_keyword Keyword.class_start = false
is_kernel_keyword Keyword.class_stop = false
is_kernel_keyword Keyword.export = false
is_kernel_keyword Keyword.import = false
is_kernel_keyword Keyword.setprop = false
is_kernel_keyword Keyword.start = false
is_kernel_keyword Keyword.stop = false
is_kernel_keyword Keyword.restart = false
is_kernel_keyword Keyword.trigger = false
is_kernel_keyword Keyword.loglevel = false
is_kernel_keyword _ = true

abbrev pub HasArgs : Option ℕ → List Bytes → Type 0
HasArgs none args = Unit
HasArgs (some i) args = i < length args

-- A command that acts on the kernel alone and has the arguments that it reads.
pub record IsPlain (cmd : Command) : Type 0 where
  pub for_kernel : is_kernel_keyword cmd.func ≡ true
  pub has_args : HasArgs (last_read cmd.func (length cmd.args)) cmd.args

abbrev pub note : Option ℕ → Event → List Event → List Event
note none e t = t
note (some i) e t = e ∷ t

-- The calls of such commands, one after the other, with the last one first.
abbrev pub call_of : Command → List Event → List Event
call_of cmd t = note (last_read cmd.func (length cmd.args)) (ran cmd.func cmd.args) t

abbrev pub calls_of : List Command → List Event → List Event
calls_of [] t = t
calls_of (cmd ∷ rest) t = calls_of rest (call_of cmd t)

-- The same for the actions at these nodes.
abbrev pub calls_of_all : World → List ℕ → List Event → List Event
calls_of_all w [] t = t
calls_of_all w (x ∷ xs) t = calls_of_all w xs (calls_of (commands_at w (x - 1)) t)

drain-idle :
    (p : Platform) (fuel i : ℕ) (w w' : World)
    → action_remove_queue_head w ≡ some (i, w')
    → commands_at w' i ≡ []
    → drain_action_queue p (suc fuel) w ≡ drain_action_queue p fuel w'
unfolding drain_action_queue run_commands
drain-idle p fuel i w w' e c = rw (e, drain_action_queue, c)

pop-IsStuck :
    (w : World) (i : ℕ)
    → IsStuck w.queue 0 (i + 1)
    → action_remove_queue_head w ≡ some (i, record w { queue = list_remove w.queue (i + 1) })
unfolding list_head list_empty
pop-IsStuck w i s =
    let back : i + 1 - 1 ≡ i = omega arith in
    let nonempty : list_empty w.queue 0 ≡ false = ground (arith, s.first, s.apart) in
    pop-some w (i + 1) s.first nonempty
    ∙ ap (λ j. some (j, record w { queue = list_remove w.queue (i + 1) })) back

drain-IsStuck :
    (p : Platform) (fuel : ℕ) (w : World) (i : ℕ)
    → IsStuck w.queue 0 (i + 1)
    → commands_at w i ≡ []
    → drain_action_queue p fuel w ≡ no_fuel
unfolding drain_action_queue
drain-IsStuck p zero w i s e = refl
drain-IsStuck p (suc fuel) w i s e =
    let w' : World = record w { queue = list_remove w.queue (i + 1) } in
    drain-idle p fuel i w w' (pop-IsStuck w i s) e
    ∙ drain-IsStuck p fuel w' i (list_remove-IsStuck w.queue 0 (i + 1) s) e

-- When an action without commands is at the head of the queue and is queued once more, no amount
-- of fuel is enough for the loop.
pub drain_action_queue-requeue :
    (p : Platform) (fuel : ℕ) (w : World) (i : ℕ) (rest : List ℕ)
    → IsRing w.queue 0 ((i + 1) ∷ rest)
    → commands_at w i ≡ []
    → drain_action_queue p fuel (action_add_queue_tail i w) ≡ no_fuel
unfolding action_add_queue_tail
drain_action_queue-requeue p fuel w i rest r e =
    drain-IsStuck p fuel (action_add_queue_tail i w) i
      (list_add_tail-IsStuck w.queue 0 (i + 1) rest r) e
