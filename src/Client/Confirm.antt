-- ===== src/Client/Confirm.antt =====
-- The confirmation of a subscription in `get_and_call_sub_cb`: what it does to a callback, and when the
-- callback is initialized.
use crazy_snail.Common.{
  ◌≡◌, sym, ap, ◌∙◌, ◌≢◌, Bool, true, false, not, ◌&&◌, ◌||◌, none, some, Option-cases, inl, inr,
  List, [], ◌∷◌, map, arith, if◌then◌else◌, length,
}
use crazy_snail.Text.{Bytes, bytes}
use crazy_snail.Memory.{Ptr, null, Channel, Callback, load_callback, put_callback}
use crazy_snail.Reply.{Reply, lua_nil, push_sub_reply}
use crazy_snail.Client.{Env, Host, Outcome, done, raised, ◌>>=◌, pure}
use crazy_snail.Client.Dispatch.{visit_channels, confirm, call_with_reply}
use crazy_snail.Client.Calls.{called, call-called}
use crazy_snail.Client.Visits.{
  confirm_first, awaits, all_subscribed, AreQuiet, Changed, written, or_false, visit_rest,
}

module _ (H : Host) (sname : Bytes) where
  -- The callback is initialized if all its channels are subscribed.
  abbrev settled : Bool → Env H.Reader → Ptr → Callback → Env H.Reader
  settled all e p k = if all then written H sname e p (record k { initialized = true }) else e

  -- The reply goes to the function, unless the client ignores it or no channel waited for it.
  abbrev pub passed_on : Reply → Bool → Callback → Env H.Reader → Outcome H.Reader Bool
  passed_on reply d k e =
      if not e.client.ignore_sub_cmd_reply && d
      then elim (push_sub_reply reply) [
        | none ↦ raised (bytes "Unknown reply type") e
        | some v ↦ done d (called H k.ref (lua_nil ∷ v ∷ []) e)
      ]
      else done d e

  pass-passed_on :
      (reply : Reply) (d : Bool) (k : Callback) (e : Env H.Reader)
      → ((if not e.client.ignore_sub_cmd_reply && d then call_with_reply H k.ref reply else pure tt)
            >>= λ _. pure d)
          e
        ≡ passed_on reply d k e
  unfolding call_with_reply
  pass-passed_on reply d k e = elim (Option-cases (push_sub_reply reply)) [
    | inl none_left ↦ ground arith
    | inr (v, is) ↦ ground (arith, call-called H k.ref (lua_nil ∷ v ∷ []) e)
  ]

  confirm_run :
      (reply : Reply) (p : Ptr) (e e1 : Env H.Reader) (k k1 : Callback) (d all : Bool)
      → p ≢ null
      → e.memory.callback p ≡ some k
      → visit_channels H k.nb_channel 0 p sname false true e ≡ done (d, all) e1
      → e1.memory.callback p ≡ some k1
      → confirm H reply sname p e ≡ passed_on reply d k1 (settled all e1 p k1)
  unfolding confirm load_callback put_callback
  confirm_run reply p e e1 k k1 d true ne there run there1 =
      ground (arith, pass-passed_on reply d k1 (settled true e1 p k1))
  confirm_run reply p e e1 k k1 d false ne there run there1 =
      ground (arith, pass-passed_on reply d k1 (settled false e1 p k1))

  settled-Changed :
      {e e1 : Env H.Reader} {p : Ptr} {k : Callback} (all : Bool)
      → Changed e p k e1
      → Changed e p (record k { initialized = k.initialized || all }) (settled all e1 p k)
  settled-Changed {p} {k} true c = record {
    there = ground arith;
    others = λ a apart. ground (arith, c.others a apart);
    wrapper = c.wrapper;
    client = c.client;
    log = c.log;
  }
  settled-Changed {k} false c = record {
    there =
        c.there
        ∙ ap (λ b. some (record k { initialized = b })) (sym (or_false H sname k.initialized));
    others = c.others;
    wrapper = c.wrapper;
    client = c.client;
    log = c.log;
  }

  -- A confirmation marks the first channel of the callback that waits for the name, if there is one,
  -- initializes the callback if all its channels are subscribed then, changes nothing else, and is
  -- passed on to the function, behind a nil, if a channel waited and the client does not ignore it, or
  -- an error is raised if it cannot be converted, provided that no timer of the callback is still to be
  -- started.
  pub confirm-confirm_first :
      (reply : Reply) (p : Ptr) (e : Env H.Reader) (k : Callback) (chs : List Channel)
      → p ≢ null
      → e.memory.callback p ≡ some k
      → k.channels ≡ map some chs
      → k.nb_channel ≡ length chs
      → AreQuiet chs
      → (e' : Env H.Reader) × (confirm H reply sname p e ≡ passed_on reply (awaits sname chs) k e')
        × Changed e p
            (record k {
              channels = map some (confirm_first sname chs);
              initialized = k.initialized || all_subscribed (confirm_first sname chs);
            })
            e'
  confirm-confirm_first reply p e k chs ne there is nb quiet =
      let (e1, run, c) = visit_rest H sname chs [] p false true e k ne there is quiet in
      let all = all_subscribed (confirm_first sname chs) in
      let k1 : Callback = record k { channels = map some (confirm_first sname chs) } in
      (
        settled all e1 p k1,
        confirm_run reply p e e1 k k1 (awaits sname chs) all ne there
            (ap (λ n. visit_channels H n 0 p sname false true e) nb ∙ run) c.there,
        settled-Changed all c,
      )
