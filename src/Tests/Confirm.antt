-- ===== src/Tests/Confirm.antt =====
-- A callback with two channels, one of them confirmed already.
use crazy_snail.Common.{
  ◌≡◌, refl, ◌||◌, false, none, some, List, [], ◌∷◌, map, arith, ◌==◌, if◌then◌else◌, inl, inr, pos,
}
use crazy_snail.Text.{Bytes, bytes}
use crazy_snail.Memory.{Channel, Callback, ref}
use crazy_snail.Callback.{no_flags}
use crazy_snail.Reply.{Reply, array, item, end, string, integer}
use crazy_snail.Client.{Env}
use crazy_snail.Client.Dispatch.{confirm}
use crazy_snail.Client.Visits.{confirmed, confirm_first, awaits, all_subscribed, Changed}
use crazy_snail.Client.Confirm.{passed_on, confirm-confirm_first}
use crazy_snail.Tests.Client.{host, client, store, env}

abbrev channel : Bytes → Channel
channel s = record { name = some s; ikey = 0; flags = no_flags }

abbrev pair : List Channel
pair = confirmed (channel (bytes "bar")) ∷ channel (bytes "foo") ∷ []

abbrev subscriber : Callback
subscriber = record {
  ref = ref 7;
  initialized = false;
  nb_channel = 2;
  attach = pos 2;
  channels = map some pair;
}

abbrev reply : Reply
reply =
    array
      (item (string (bytes "subscribe")) (item (string (bytes "foo")) (item (integer (pos 1)) end)))

-- A client that does not ignore confirmations.
abbrev waiting : Env (Unit {0})
waiting = record env {
  client = record client { ignore_sub_cmd_reply = false };
  memory = record store { callback = λ p. if p == 1 then some subscriber else none };
}

confirm-confirm_first_example :
    (e' : Env (Unit {0})) × (confirm host reply (bytes "foo") 1 waiting
      ≡ passed_on host (bytes "foo") reply (awaits (bytes "foo") pair) subscriber e')
    × Changed waiting 1
        (record subscriber {
          channels = map some (confirm_first (bytes "foo") pair);
          initialized = false || all_subscribed (confirm_first (bytes "foo") pair);
        })
        e'
confirm-confirm_first_example =
    confirm-confirm_first host (bytes "foo") reply 1 waiting subscriber pair (ground arith) refl
      refl refl (inl refl, (inr (refl, bytes "foo", refl), tt))
