-- ===== src/Ril/Commands/Interloper.antt =====
-- A second command while one is pending (android2.1_init/hard_ril/reference-ril/atchannel.c): the lock
-- is free while the first thread sleeps.
use demonstratortool.Base.{◌≡◌, refl, Bool, none, some, List, ◌∷◌}
use demonstratortool.Ril.Channel.{AtResponse, Channel, Link, done, null_read, command_pending}
use demonstratortool.Ril.Commands.{
  Event, woken, Command, Sent, clear_pending_command, must_wait, sleep, at_send_command_full_nolock,
}

-- While a command is pending, a second one is refused, but the refusal throws the response of the first
-- away: when the thread that waits for it wakes up next, it reads through a null pointer.
pub interloper_null_read :
    (link link2 : Link) (cmd : Command) (es later : List Event) (limited : Bool) (r : AtResponse)
    (c : Channel)
    → c.response ≡ some r
    → (s : Sent) × (at_send_command_full_nolock link2 cmd later c ≡ done s)
      × (s.error ≡ some command_pending)
      × (sleep link limited (woken ∷ es) s.channel ≡ null_read)
unfolding at_send_command_full_nolock clear_pending_command sleep must_wait
interloper_null_read link link2 cmd es later limited r c e = (
  record {
    error = some command_pending;
    out = none;
    channel = clear_pending_command c;
    later = later;
  },
  rw (e, at_send_command_full_nolock),
  refl,
  refl,
)
