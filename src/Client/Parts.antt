-- ===== src/Client/Parts.antt =====
-- The lists of a client of src/crazysnail.c while a subscription adds to one of its trees.
use crazy_snail.Common.{subst, ℕ, ◌≡◌, refl, sym, ap, ◌∙◌, ◌≤◌, true, List, ◌++◌, arith}
use crazy_snail.Memory.{Ptr, Channel, CallbackEnds, Memory}
use crazy_snail.Queue.Cells.{
  Cells, has, has-append, count, IsQueue, frame, CountedBy-counts, AttachedBy,
}
use crazy_snail.Tree.{Tree}
use crazy_snail.Tree.Destroy.{Apart, Forest, frame_Forest, frame_Listed}
use crazy_snail.Tree.Refill.{has-cells_at, cells_at-Listed, cells_at}
use crazy_snail.Tree.Orders.{Order}
use crazy_snail.Client.Building.{Building}
use crazy_snail.Client.Filed.{IsFiled, Listed-unique}
use crazy_snail.Client.Underway.{Underway}

-- Two trees of names, the tree of timers and the queue, which share no cell.
pub record Parts (m : Memory) (a b t : Tree) (l : CallbackEnds) (as_ bs ts qs : Cells)
    : Type 0 where
  pub first : Forest m a as_
  pub second : Forest m b bs
  pub timers : Forest m t ts
  pub commands : IsQueue m l qs
  pub apart_first : Apart as_ (bs ++ (ts ++ qs))
  pub apart_second : Apart bs (ts ++ qs)
  pub apart_timers : Apart ts qs

module _ {m : Memory} {a b t : Tree} {l : CallbackEnds} {as_ bs ts qs : Cells}
    (s : Parts m a b t l as_ bs ts qs) where
  -- The trees of names change places.
  pub Parts-swap : Parts m b a t l bs as_ ts qs
  Parts-swap = record {
    first = s.second;
    second = s.first;
    timers = s.timers;
    commands = s.commands;
    apart_first = λ x i. ground (
      arith,
      s.apart_first x,
      s.apart_second x,
      has-append x as_ (ts ++ qs),
      has-append x bs (ts ++ qs),
    );
    apart_second = λ x i. s.apart_first x (ground (arith, has-append x bs (ts ++ qs)));
    apart_timers = s.apart_timers;
  }

  module _ {m' : Memory} (grown : m.next ≤ m'.next) where
    -- The first tree has changed, and the other lists are spared.
    pub Parts-first :
        {a' : Tree} {cs : Cells}
        → Forest m' a' cs
        → Apart cs (bs ++ (ts ++ qs))
        → ((x : Ptr) → has x (bs ++ (ts ++ qs)) ≡ true → m'.wrapper x ≡ m.wrapper x)
        → Parts m' a' b t l cs bs ts qs
    Parts-first f apart spared = record {
      first = f;
      second =
          frame_Forest s.second grown λ x i. spared x (ground (arith, has-append x bs (ts ++ qs)));
      timers =
          frame_Forest s.timers grown
            λ x i. spared x (ground (arith, has-append x bs (ts ++ qs), has-append x ts qs));
      commands = record {
        chain =
            frame s.commands.chain grown
              λ x i. spared x (ground (arith, has-append x bs (ts ++ qs), has-append x ts qs));
        end = s.commands.end;
      };
      apart_first = apart;
      apart_second = s.apart_second;
      apart_timers = s.apart_timers;
    }

    -- The same for the timers.
    pub Parts-timers :
        {t' : Tree} {cs : Cells}
        → Forest m' t' cs
        → Apart cs (as_ ++ (bs ++ qs))
        → ((x : Ptr) → has x (as_ ++ (bs ++ qs)) ≡ true → m'.wrapper x ≡ m.wrapper x)
        → Parts m' a b t' l as_ bs cs qs
    Parts-timers {cs} f apart spared = record {
      first =
          frame_Forest s.first grown λ x i. spared x (ground (arith, has-append x as_ (bs ++ qs)));
      second =
          frame_Forest s.second grown
            λ x i. spared x (ground (arith, has-append x as_ (bs ++ qs), has-append x bs qs));
      timers = f;
      commands = record {
        chain =
            frame s.commands.chain grown
              λ x i. spared x (ground (arith, has-append x as_ (bs ++ qs), has-append x bs qs));
        end = s.commands.end;
      };
      apart_first = λ x i. ground (
        arith,
        apart x,
        s.apart_first x,
        has-append x as_ (bs ++ qs),
        has-append x bs (ts ++ qs),
        has-append x bs (cs ++ qs),
        has-append x ts qs,
        has-append x cs qs,
      );
      apart_second = λ x i. ground (
        arith,
        apart x,
        s.apart_second x,
        has-append x as_ (bs ++ qs),
        has-append x bs qs,
        has-append x ts qs,
        has-append x cs qs,
      );
      apart_timers =
          λ x i. apart x (ground (arith, has-append x as_ (bs ++ qs), has-append x bs qs));
    }

  -- The timers are apart from the rest.
  pub Parts-Apart : Apart ts (as_ ++ (bs ++ qs))
  Parts-Apart x i = ground (
    arith,
    s.apart_first x,
    s.apart_second x,
    s.apart_timers x,
    has-append x as_ (bs ++ qs),
    has-append x bs (ts ++ qs),
    has-append x bs qs,
    has-append x ts qs,
  )

-- The loop goes on in another tree; the cells are the same in another order.
pub Underway-switch :
    {K J : Type 0} {O : Order K} (Q : Order J) {m : Memory} {t u : Tree} {xs ys : Cells} {p : Ptr}
    {chs : List Channel} {total : ℕ} (zs ws : Cells)
    → Underway O m t xs ys p chs total
    → Forest m u zs
    → Q.Sound u
    → Apart zs ws
    → ((c : Ptr) → count c (zs ++ ws) ≡ count c (xs ++ ys))
    → ((a : Ptr) → has a (zs ++ ws) ≡ has a (xs ++ ys))
    → Underway Q m u zs ws p chs total
Underway-switch Q {m} {xs} {ys} {p} {chs} {total} zs ws u f sound apart counts members = record {
  forest = f;
  sound = sound;
  apart = apart;
  counted = CountedBy-counts (xs ++ ys) (zs ++ ws) counts u.counted;
  attached = subst (AttachedBy (Building p chs total) m p) (sym (counts p)) u.attached;
  fresh = λ a h. (members a ∙ (u.fresh a h).0, counts a ∙ (u.fresh a h).1);
  below = u.below;
  ne_null = u.ne_null;
  room = u.room;
}

-- What is filed in a tree that is spared stays.
pub IsFiled-spared :
    {K : Type 0} {O : Order K} {m m' : Memory} {t : Tree} {xs : Cells} {key : K} {p : Ptr}
    → Forest m t xs
    → m.next ≤ m'.next
    → ((a : Ptr) → has a xs ≡ true → m'.wrapper a ≡ m.wrapper a)
    → IsFiled O m t key p
    → IsFiled O m' t key p
IsFiled-spared forest grown spared f =
    let own : f.cells ≡ cells_at forest f.place =
      Listed-unique refl f.list (cells_at-Listed forest f.place f.at) in
    record {
      place = f.place;
      node = f.node;
      cells = f.cells;
      leads = f.leads;
      at = f.at;
      list =
          frame_Listed f.list grown
            λ a i. spared a (has-cells_at forest f.place a (ap (has a) (sym own) ∙ i));
      holds = f.holds;
    }
