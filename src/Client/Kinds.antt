-- ===== src/Client/Kinds.antt =====
-- The kinds of commands that `lua_client_command` of src/crazysnail.c tells apart.
use crazy_snail.Common.{◌≡◌, refl, Bool, true, false, List, ◌==◌, if◌then◌else◌}
use crazy_snail.Text.{Bytes, bytes, first, tolower, strncasecmp, is_eq}
use crazy_snail.Text
use crazy_snail.Memory.{Ref}
use crazy_snail.Client.{Env, Host, done}
use crazy_snail.Client.Command.{enqueue, register, subscribe_all}

module _ (H : Host) where
  -- Is it a variant for patterns, and what is the command without it?
  abbrev pub is_pvariant : Bytes → Bool
  is_pvariant cmd = tolower (first cmd) == b'p'

  abbrev pub kind : Bytes → Bytes
  kind cmd = if is_pvariant cmd then Text.rest cmd else cmd

  -- The kinds of commands.
  abbrev pub is_subscribe : Bytes → Bool
  is_subscribe cmd = is_eq (strncasecmp (kind cmd) (bytes "subscribe") 9)

  abbrev pub is_unsubscribe : Bytes → Bool
  is_unsubscribe cmd = is_eq (strncasecmp (kind cmd) (bytes "unsubscribe") 11)

  abbrev pub is_monitor : Bytes → Bool
  is_monitor cmd = is_eq (strncasecmp cmd (bytes "monitor") 7)

  -- In monitor mode.
  abbrev pub monitoring : Env H.Reader → Env H.Reader
  monitoring e = record e {
    client = record e.client { flags = record e.client.flags { monitoring = true } };
  }

  module _ (e : Env H.Reader) (r : Ref) (cmd : Bytes) (names keys : List Bytes) where
    pub register-subscribe :
        {e' : Env H.Reader}
        → is_subscribe cmd ≡ true
        → subscribe_all H (is_pvariant cmd) r names keys e ≡ done tt e'
        → register H r cmd names keys e ≡ done true e'
    unfolding register
    register-subscribe is run = rw (register, is, run) refl

    pub register-unsubscribe :
        is_subscribe cmd ≡ false
        → is_unsubscribe cmd ≡ true
        → register H r cmd names keys e ≡ done true e
    unfolding register
    register-unsubscribe not_sub is = rw (register, not_sub, is) refl

    pub register-monitor :
        {e' : Env H.Reader}
        → is_subscribe cmd ≡ false
        → is_unsubscribe cmd ≡ false
        → is_monitor cmd ≡ true
        → enqueue H r (monitoring e) ≡ done tt e'
        → register H r cmd names keys e ≡ done false e'
    unfolding register
    register-monitor not_sub not_unsub is run = rw (register, not_sub, not_unsub, is, run) refl

    pub register-other :
        {e' : Env H.Reader}
        → is_subscribe cmd ≡ false
        → is_unsubscribe cmd ≡ false
        → is_monitor cmd ≡ false
        → enqueue H r e ≡ done tt e'
        → register H r cmd names keys e ≡ done false e'
    unfolding register
    register-other not_sub not_unsub not_monitor run =
        rw (register, not_sub, not_unsub, not_monitor, run) refl
