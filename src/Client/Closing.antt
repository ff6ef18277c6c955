-- ===== src/Client/Closing.antt =====
-- `on_disconnect` of src/crazysnail.c, and the end of the trees and the queue of a client.
use crazy_snail.Common.{
  ◌≡◌, refl, ◌⊎◌, sym, subst, ap, ◌∙◌, Bool, true, false, ◌&&◌, Option, some, List, [], ◌∷◌, ◌++◌,
  arith, Bool-cases, inl, inr,
}
use mathlib.Core.List.{append_assoc}
use crazy_snail.Memory.{Ptr, CallbackEnds, Memory, ok}
use crazy_snail.Memory.Returns.{ending}
use crazy_snail.Queue.{destroy_list, no_ends}
use crazy_snail.Queue.Cells.{Cells, has, has-append, IsQueue, Counted, frame}
use crazy_snail.Queue.Destroy.{destroy_list-Destroyed}
use crazy_snail.Tree.{empty, destroy_tree}
use crazy_snail.Tree.Destroy.{
  Apart, Forest, frame_Forest, timers_of, Freed, Freed-append, Freed-Destroyed, destroy_tree-Freed,
}
use crazy_snail.Client.{Client, StreamFlags, free_handle, Env, Host, done}
use crazy_snail.Client.Calls.{called_if, call_if-called}
use crazy_snail.Client.Connection.{note_closed, destroy_callbacks, on_disconnect}

-- The cells `xs` are those of the client's trees and of its queue, and no list shares one.
pub record Owned {R : Type 0} (m : Memory) (cc : Client R) (xs : Cells) : Type 0 where
  pub of_channels : Cells
  pub of_patterns : Cells
  pub of_timers : Cells
  pub of_commands : Cells
  pub channels : Forest m cc.channels of_channels
  pub patterns : Forest m cc.patterns of_patterns
  pub timers : Forest m cc.timers of_timers
  pub commands : IsQueue m cc.command_cb_list of_commands
  pub apart_channels : Apart of_channels (of_patterns ++ (of_timers ++ of_commands))
  pub apart_patterns : Apart of_patterns (of_timers ++ of_commands)
  pub apart_timers : Apart of_timers of_commands
  pub all : xs ≡ of_channels ++ (of_patterns ++ (of_timers ++ of_commands))

-- The client without its lists, and all timers in its trees, the last to be stopped first.
abbrev pub emptied : {R : Type 0} → Client R → Client R
emptied cc = record cc {
  channels = empty;
  patterns = empty;
  timers = empty;
  command_cb_list = no_ends;
}

abbrev pub all_timers : {R : Type 0} → Client R → List Ptr
all_timers cc = (timers_of cc.timers ++ timers_of cc.patterns) ++ timers_of cc.channels

-- The client when its last stream is closed.
abbrev pub closed : {R : Type 0} → StreamFlags → Client R → Client R
closed f cc = emptied (record cc { stream_flags = f; flags = record cc.flags { freeing = true } })

-- Are both streams open? And no stream, or only the second one.
abbrev pub are_open : StreamFlags → Bool
are_open f = f.stream_connected && f.sub_stream_connected

abbrev pub none_open : StreamFlags
none_open = record { stream_connected = false; sub_stream_connected = false }

abbrev pub second_open : StreamFlags
second_open = record { stream_connected = false; sub_stream_connected = true }

note_closed-both : (H : Host) (f : StreamFlags) → are_open f ≡ true → note_closed H f ≡ second_open
note_closed-both H f both = ground arith

note_closed-one : (H : Host) (f : StreamFlags) → are_open f ≡ false → note_closed H f ≡ none_open
note_closed-one H f one = ground arith

module _ (H : Host) (e : Env H.Reader) where
  run_destroy :
      {m1 m2 m3 m4 : Memory} {l : Option CallbackEnds}
      → destroy_tree e.client.channels e.memory ≡ ok empty m1
      → destroy_tree e.client.patterns m1 ≡ ok empty m2
      → destroy_tree e.client.timers m2 ≡ ok empty m3
      → destroy_list (some e.client.command_cb_list) m3 ≡ ok l m4
      → destroy_callbacks H e ≡ done tt (record e { client = emptied e.client; memory = m4 })
  unfolding destroy_callbacks
  run_destroy e1 e2 e3 e4 = ground arith

  pub destroy_callbacks-Freed :
      {xs : Cells} (ys : Cells)
      → Owned e.memory e.client xs
      → Counted e.memory (xs ++ ys)
      → (m' : Memory) × Freed e.memory xs ys (all_timers e.client) m'
        × (destroy_callbacks H e ≡ done tt (record e { client = emptied e.client; memory = m' }))
  destroy_callbacks-Freed ys o all =
      let xs1 = o.of_channels in
      let xs2 = o.of_patterns in
      let xs3 = o.of_timers in
      let xs4 = o.of_commands in
      let c0 : Counted e.memory (xs1 ++ ((xs2 ++ (xs3 ++ xs4)) ++ ys)) =
        subst (Counted e.memory)
          (ap (λ z. z ++ ys) o.all ∙ append_assoc xs1 (xs2 ++ (xs3 ++ xs4)) ys) all in
      ending (destroy_tree-Freed e.client.channels _ o.channels c0) λ r1 m1 e1 (z1, d1).
        let same1 : (a : Ptr)
            → has a (xs2 ++ (xs3 ++ xs4)) ≡ true
            → m1.wrapper a ≡ e.memory.wrapper a =
          λ a i. d1.same a (o.apart_channels a i) in
        let in2 : (a : Ptr) → has a xs2 ≡ true → has a (xs2 ++ (xs3 ++ xs4)) ≡ true =
          λ a i. ground (arith, has-append a xs2 (xs3 ++ xs4)) in
        let in34 : (a : Ptr) → has a (xs3 ++ xs4) ≡ true → has a (xs2 ++ (xs3 ++ xs4)) ≡ true =
          λ a i. ground (arith, has-append a xs2 (xs3 ++ xs4)) in
        let in3 : (a : Ptr) → has a xs3 ≡ true → has a (xs3 ++ xs4) ≡ true =
          λ a i. ground (arith, has-append a xs3 xs4) in
        let in4 : (a : Ptr) → has a xs4 ≡ true → has a (xs3 ++ xs4) ≡ true =
          λ a i. ground (arith, has-append a xs3 xs4) in
        ending
          (destroy_tree-Freed e.client.patterns ((xs3 ++ xs4) ++ ys)
            (frame_Forest o.patterns (omega (arith, d1.next)) λ a i. same1 a (in2 a i))
            (subst (Counted m1) (append_assoc xs2 (xs3 ++ xs4) ys) d1.counted))
          λ r2 m2 e2 (z2, d2).
            let same2 : (a : Ptr) → has a (xs3 ++ xs4) ≡ true → m2.wrapper a ≡ e.memory.wrapper a =
              λ a i. d2.same a (o.apart_patterns a i) ∙ same1 a (in34 a i) in
            ending
              (destroy_tree-Freed e.client.timers (xs4 ++ ys)
                (frame_Forest o.timers (omega (arith, d1.next, d2.next)) λ a i. same2 a (in3 a i))
                (subst (Counted m2) (append_assoc xs3 xs4 ys) d2.counted))
              λ r3 m3 e3 (z3, d3).
                let queue : IsQueue m3 e.client.command_cb_list xs4 = record {
                  chain =
                      frame o.commands.chain (omega (arith, d1.next, d2.next, d3.next))
                        λ a i. d3.same a (o.apart_timers a i) ∙ same2 a (in4 a i);
                  end = o.commands.end;
                } in
                ending (destroy_list-Destroyed e.client.command_cb_list xs4 ys queue d3.counted)
                  λ r4 m4 e4 (z4, d4). (
                    m4,
                    subst (λ z. Freed e.memory z ys (all_timers e.client) m4) (sym o.all)
                        (Freed-append d1 (Freed-append d2 (Freed-append d3 (Freed-Destroyed d4)))),
                    run_destroy (e1 ∙ ap (λ t. ok t m1) z1) (e2 ∙ ap (λ t. ok t m2) z2)
                        (e3 ∙ ap (λ t. ok t m3) z3) e4,
                  )

module _ (H : Host) (handle : Ptr) (e : Env H.Reader) where
  -- The client after the first lines of `on_disconnect`, when no stream is left.
  noted : Env H.Reader
  noted = record e {
    client = record e.client {
      stream_flags = none_open;
      flags = record e.client.flags { freeing = true };
    };
    log = free_handle handle ∷ e.log;
  }

  on_disconnect-open :
      are_open e.client.stream_flags ≡ true
      → on_disconnect H handle e
        ≡ done tt (record e {
          client = record e.client { stream_flags = second_open };
          log = free_handle handle ∷ e.log;
        })
  unfolding on_disconnect
  on_disconnect-open both = rw (on_disconnect, note_closed-both H e.client.stream_flags both) refl

  on_disconnect-last :
      {m : Memory}
      → are_open e.client.stream_flags ≡ false
      → destroy_callbacks H noted
        ≡ done tt (record noted { client = emptied noted.client; memory = m })
      → on_disconnect H handle e
        ≡ done tt (
            called_if H e.client.r_disconnect_cb []
              (record noted { client = emptied noted.client; memory = m }))
  unfolding on_disconnect noted
  on_disconnect-last {m} last run =
      rw (on_disconnect, note_closed-one H e.client.stream_flags last, run)
        (call_if-called H e.client.r_disconnect_cb []
          (record noted { client = emptied noted.client; memory = m }))

  -- While both streams are open `on_disconnect` only notes that the first is closed, and frees its
  -- handle. Otherwise no stream is open after it: it frees the handle, the cells of the client's trees
  -- and queue and every callback that no other list holds, stops the timers, and then calls the
  -- disconnect function, if there is one, once.
  pub on_disconnect-Freed :
      {xs : Cells} (ys : Cells)
      → Owned e.memory e.client xs
      → Counted e.memory (xs ++ ys)
      → (are_open e.client.stream_flags ≡ true)
          × (on_disconnect H handle e
              ≡ done tt (record e {
                client = record e.client { stream_flags = second_open };
                log = free_handle handle ∷ e.log;
              }))
        ⊎ (are_open e.client.stream_flags ≡ false)
          × (m' : Memory) × Freed e.memory xs ys (all_timers e.client) m'
          × (on_disconnect H handle e
              ≡ done tt (
                  called_if H e.client.r_disconnect_cb [] (record e {
                    client = closed none_open e.client;
                    memory = m';
                    log = free_handle handle ∷ e.log;
                  })))
  unfolding noted
  on_disconnect-Freed ys o all = elim (Bool-cases (are_open e.client.stream_flags)) [
    | inl both ↦ inl (both, on_disconnect-open both)
    | inr last ↦
        let (m', d, run) =
          destroy_callbacks-Freed H noted ys
            (record {
              of_channels = o.of_channels;
              of_patterns = o.of_patterns;
              of_timers = o.of_timers;
              of_commands = o.of_commands;
              channels = o.channels;
              patterns = o.patterns;
              timers = o.timers;
              commands = o.commands;
              apart_channels = o.apart_channels;
              apart_patterns = o.apart_patterns;
              apart_timers = o.apart_timers;
              all = o.all;
            })
            all in
        inr (last, m', d, on_disconnect-last last run)
  ]
