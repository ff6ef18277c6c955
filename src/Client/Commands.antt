-- ===== src/Client/Commands.antt =====
-- The commands of `lua_client_command` of src/crazysnail.c: a client whose lists are right stays so.
use crazy_snail.Common.{suc, ◌<◌, ◌≡◌, sym, ap, ◌∙◌, ◌≤◌, true, false, [], ◌∷◌, ◌++◌, arith}
use crazy_snail.Memory.{Ptr, Ref, CallbackEnds, Memory}
use crazy_snail.Queue.Cells.{
  Cells, has, has-append, count, count-append, IsQueue, Counted, CountedBy-counts,
}
use crazy_snail.Queue.Push.{Pushed}
use crazy_snail.Tree.{Tree}
use crazy_snail.Tree.Destroy.{Apart, frame_Forest}
use crazy_snail.Client.{Env}
use crazy_snail.Client.Answers.{IsFresh, wrapped}
use crazy_snail.Client.Closing.{Owned}
use crazy_snail.Client.Parts.{Parts}
use crazy_snail.Client.Healthy.{IsHealthy, Owned-Parts, Parts-Owned}

module _ (as_ bs ts qs : Cells) where
  -- The cells of the queue first.
  abbrev pub rest : Cells
  rest = as_ ++ (bs ++ ts)

  queue_first-count : (c : Ptr) → count c (qs ++ rest) ≡ count c (as_ ++ (bs ++ (ts ++ qs)))
  queue_first-count c = omega (
    arith,
    count-append c qs rest,
    count-append c as_ (bs ++ ts),
    count-append c bs ts,
    count-append c as_ (bs ++ (ts ++ qs)),
    count-append c bs (ts ++ qs),
    count-append c ts qs,
  )

  queue_first-has : (a : Ptr) → has a (qs ++ rest) ≡ has a (as_ ++ (bs ++ (ts ++ qs)))
  queue_first-has a = ground (
    arith,
    has-append a qs rest,
    has-append a as_ (bs ++ ts),
    has-append a bs ts,
    has-append a as_ (bs ++ (ts ++ qs)),
    has-append a bs (ts ++ qs),
    has-append a ts qs,
  )

-- The trees are spared while the queue changes.
module _ {m m' : Memory} {a b t : Tree} {l l' : CallbackEnds} {as_ bs ts qs cs : Cells}
    (s : Parts m a b t l as_ bs ts qs) (grown : m.next ≤ m'.next)
    (spared : (x : Ptr) → has x (rest as_ bs ts qs) ≡ true → m'.wrapper x ≡ m.wrapper x) where
  Parts-queue :
      IsQueue m' l' cs
      → ((x : Ptr) → has x cs ≡ true → has x (rest as_ bs ts qs) ≡ false)
      → Parts m' a b t l' as_ bs ts cs
  Parts-queue q apart = record {
    first =
        frame_Forest s.first grown λ x i. spared x (ground (arith, has-append x as_ (bs ++ ts)));
    second =
        frame_Forest s.second grown
          λ x i. spared x (ground (arith, has-append x as_ (bs ++ ts), has-append x bs ts));
    timers =
        frame_Forest s.timers grown
          λ x i. spared x (ground (arith, has-append x as_ (bs ++ ts), has-append x bs ts));
    commands = q;
    apart_first = λ x i. ground (
      arith,
      apart x,
      s.apart_first x,
      has-append x as_ (bs ++ ts),
      has-append x bs ts,
      has-append x bs (ts ++ qs),
      has-append x bs (ts ++ cs),
      has-append x ts qs,
      has-append x ts cs,
    );
    apart_second = λ x i. ground (
      arith,
      apart x,
      s.apart_second x,
      has-append x as_ (bs ++ ts),
      has-append x bs ts,
      has-append x ts qs,
      has-append x ts cs,
    );
    apart_timers = λ x i. ground (arith, apart x, has-append x as_ (bs ++ ts), has-append x bs ts);
  }

-- The queue is apart from the trees.
queue-Apart :
    {m : Memory} {a b t : Tree} {l : CallbackEnds} {as_ bs ts qs : Cells}
    → Parts m a b t l as_ bs ts qs
    → Apart qs (rest as_ bs ts qs)
queue-Apart {as_} {bs} {ts} {qs} s x i = ground (
  arith,
  s.apart_first x,
  s.apart_second x,
  s.apart_timers x,
  has-append x as_ (bs ++ ts),
  has-append x bs ts,
  has-append x bs (ts ++ qs),
  has-append x ts qs,
)

module _ {R : Type 0} (e : Env R) {xs : Cells} (h : IsHealthy e.memory e.client xs) where
  abbrev pub o : Owned e.memory e.client xs
  o = h.owned

  abbrev pub others : Cells
  others = rest o.of_channels o.of_patterns o.of_timers o.of_commands

  same-count : (c : Ptr) → count c (o.of_commands ++ others) ≡ count c xs
  same-count c =
      queue_first-count o.of_channels o.of_patterns o.of_timers o.of_commands c
      ∙ ap (count c) (sym o.all)

  same-has : (a : Ptr) → has a (o.of_commands ++ others) ≡ has a xs
  same-has a =
      queue_first-has o.of_channels o.of_patterns o.of_timers o.of_commands a
      ∙ ap (has a) (sym o.all)

  pub first-Counted : Counted e.memory (o.of_commands ++ others)
  first-Counted = CountedBy-counts xs (o.of_commands ++ others) same-count h.counted

  pub first-IsFresh : IsFresh e.memory (o.of_commands ++ others)
  first-IsFresh a i = (same-has a ∙ (h.fresh a i).0, same-count a ∙ (h.fresh a i).1)

  -- The client with another queue.
  pub requeued :
      {l' : CallbackEnds} {m' : Memory} (cs : Cells)
      → e.memory.next ≤ m'.next
      → m'.oom ≡ e.memory.oom
      → ((x : Ptr) → has x others ≡ true → m'.wrapper x ≡ e.memory.wrapper x)
      → IsQueue m' l' cs
      → ((x : Ptr) → has x cs ≡ true → has x others ≡ false)
      → Counted m' (cs ++ others)
      → IsFresh m' (cs ++ others)
      → IsHealthy m'
          (record e.client { command_cb_list = l' })
          (o.of_channels ++ (o.of_patterns ++ (o.of_timers ++ cs)))
  requeued cs grown oom spared queue apart all fresh =
      let count_first = queue_first-count o.of_channels o.of_patterns o.of_timers cs in
      let has_first = queue_first-has o.of_channels o.of_patterns o.of_timers cs in
      record {
        owned = Parts-Owned (Parts-queue (Owned-Parts o) grown spared queue apart);
        counted = CountedBy-counts (cs ++ others) _ (λ c. sym (count_first c)) all;
        fresh = λ a i. (sym (has_first a) ∙ (fresh a i).0, sym (count_first a) ∙ (fresh a i).1);
        channels = h.channels;
        patterns = h.patterns;
        timers = h.timers;
        roomy = record {
          ne_null = ground (arith, h.roomy.ne_null);
          room = λ a. ap (λ f. f a) oom ∙ h.roomy.room a;
        };
      }

  pub Pushed-IsHealthy :
      (r : Ref) {l' : CallbackEnds} {m' : Memory}
      → Pushed
          (wrapped e.memory r)
          o.of_commands
          others
          (suc (suc e.memory.next), e.memory.next)
          l'
          m'
      → IsHealthy m'
          (record e.client { command_cb_list = l' })
          (o.of_channels
            ++ (o.of_patterns
                ++ (o.of_timers
                    ++ (o.of_commands ++ (suc (suc e.memory.next), e.memory.next) ∷ []))))
  Pushed-IsHealthy r {l'} {m'} (queue, all, same, pools, cbs) =
      let s : Ptr = suc (suc e.memory.next) in
      let cell : Cells = (s, e.memory.next) ∷ [] in
      let next : m'.next ≡ suc s = pools.next in
      let inside : (x : Ptr) → has x others ≡ true → x < e.memory.next =
        λ x i. ground (arith, first-IsFresh x, has-append x o.of_commands others) in
      requeued (o.of_commands ++ cell) (omega (arith, next)) pools.oom
        (λ x i. same x (queue-Apart (Owned-Parts o) x i) ∙ ground (arith, inside x i)) queue
        (λ x i.
          ground (arith, inside x, queue-Apart (Owned-Parts o) x, has-append x o.of_commands cell))
        all
        (λ a i. (
          ground (
            arith,
            next,
            first-IsFresh a,
            has-append a (o.of_commands ++ cell) others,
            has-append a o.of_commands cell,
            has-append a o.of_commands others,
          ),
          ground (
            arith,
            next,
            first-IsFresh a,
            count-append a (o.of_commands ++ cell) others,
            count-append a o.of_commands cell,
            count-append a o.of_commands others,
          ),
        ))
