-- ===== src/Dump/Order.antt =====
-- `dump_tree` of src/cb.c prints the parts of a tree in order.
use crazy_snail.Common.{
  ℕ, zero, suc, ◌+◌, ◌<◌, ◌≡◌, ◌≢◌, refl, sym, ap, ◌∙◌, Option, some, List, [], ◌∷◌, ◌++◌, arith,
  length, length-append, get_elem?,
}
use crazy_snail.Memory.{Ptr, null, Channel, Callback, CallbackEnds, Memory, ◌>>=◌, pure}
use crazy_snail.Memory.Access.{load_wrapper-ok, load_callback-ok}
use crazy_snail.Memory.Returns
use crazy_snail.Memory.Returns.{Returns, returns}
use crazy_snail.Queue.Cells.{Cells, count-append, Seg, nil, cons}
use crazy_snail.Queue.Destroy.{length-Seg}
use crazy_snail.Tree.{Tree, empty, branch, left, right, Place}
use crazy_snail.Tree.Destroy.{Listed, unlisted, listed, Forest, bare, grove}
use crazy_snail.Dump.{
  key_of, Line, node_line, callback_line, child, dump_channels, dump_cells, dump_list, dump_tree,
}
use crazy_snail.Dump.Lines.{post_order, Tells, AllThere, Tells-append, callback_of}

module _ (m : Memory) where
  -- The channels of a callback that has them all are printed, and nothing else.
  dump_channels-Returns :
      (n i : ℕ) (chs : List (Option Channel))
      → ((j : ℕ) → j < i + n → (ch : Channel) × (get_elem? chs j ≡ some (some ch)))
      → Returns (λ ls m'. (m' ≡ m) × Tells m [] [] 0 ls) (dump_channels n i chs m)
  unfolding dump_channels
  dump_channels-Returns zero i chs all =
      returns (refl, record { nodes = refl; callbacks = refl; total = refl })
  dump_channels-Returns (suc n) i chs all =
      let (ch, here) = all i (omega arith) in
      rw (dump_channels, here)
        (Returns.bind (dump_channels-Returns n (suc i) chs λ j h. all j (omega arith))
          λ ls m' (same, t).
            returns (same, record { nodes = t.nodes; callbacks = t.callbacks; total = t.total }))

  -- The first cell.
  dump_cells-step :
      (k : ℕ) {p c q : Ptr} {a : Callback} (nb : ℕ)
      → p ≢ null
      → m.wrapper p ≡ some (record { cb = c; next = q })
      → c ≢ null
      → m.callback c ≡ some a
      → dump_cells (suc k) p nb m
        ≡ (dump_channels a.nb_channel 0 a.channels >>= λ channels.
              dump_cells k q (suc nb) >>= λ lines.
              pure (callback_line a.ref a.initialized a.nb_channel ∷ channels ++ lines))
            m
  unfolding dump_cells
  dump_cells-step k {p} {c} {q} {a} nb ne e cne ce =
      ground (arith, load_wrapper-ok {p = p} {m = m} ne e, load_callback-ok {p = c} {m = m} cne ce)

  Tells-one :
      (p : Ptr) {c : Ptr} {a : Callback}
      → m.callback c ≡ some a
      → Tells m [] ((p, c) ∷ []) 0 (callback_line a.ref a.initialized a.nb_channel ∷ [])
  Tells-one p {c} {a} ce = record {
    nodes = refl;
    callbacks = ap (λ o. callback_of o ++ []) (sym ce);
    total = refl;
  }

  Tells-total :
      {ns : List Line} {xs : Cells} {i j : ℕ} {ls : List Line}
      → i ≡ j
      → Tells m ns xs i ls
      → Tells m ns xs j ls
  Tells-total {ns} {xs} {ls} e t = record {
    nodes = t.nodes;
    callbacks = t.callbacks;
    total = t.total ∙ e;
  }

  -- One cell after the other: the callback of each, and the count at the end.
  dump_cells-Seg :
      (k : ℕ) {p : Ptr} {xs : Cells} (nb : ℕ)
      → Seg m p xs
      → AllThere m xs
      → length xs < k
      → Returns (λ ls m'. (m' ≡ m) × Tells m [] xs (nb + length xs) ls) (dump_cells k p nb m)
  unfolding dump_cells
  dump_cells-Seg zero nb s all fuel = absurd (omega arith)
  dump_cells-Seg (suc k) nb nil all fuel =
      returns (refl, record { nodes = refl; callbacks = refl; total = omega arith })
  dump_cells-Seg (suc k) nb (cons {p} {c} {q} {xs} ne b e out s) all fuel =
      let (a, cne, ce, whole) = all c (ground arith) in
      rw (dump_cells-step k nb ne e cne ce) (
        Returns.bind (dump_channels-Returns a.nb_channel 0 a.channels λ j h. whole j (omega arith))
          λ channels m1 (same1, t). rw same1 (
            Returns.bind (dump_cells-Seg k (suc nb) s (λ d i. all d (ground arith)) (omega arith))
              λ lines m2 (same2, u). returns (
                same2,
                Tells-total (omega arith) (Tells-append (Tells-append (Tells-one p ce) t) u),
              )))

  dump_list-Listed :
      {l : Option CallbackEnds} {xs : Cells}
      → Listed m l xs
      → AllThere m xs
      → Returns (λ ls m'. (m' ≡ m) × Tells m [] xs (length xs) ls) (dump_list l m)
  unfolding dump_list
  dump_list-Listed unlisted all =
      returns (refl, record { nodes = refl; callbacks = refl; total = refl })
  dump_list-Listed (listed q) all =
      Returns.mono (dump_cells-Seg (suc m.next) 0 q.chain all (omega (arith, length-Seg q.chain)))
        λ ls m' (same, t). (same, Tells-total (omega arith) t)

  -- On a tree whose lists have the cells `xs`, with callbacks that have all their channels,
  -- `dump_tree` changes nothing and prints every node once, children first, the callback of each
  -- cell in the order in which `destroy_tree` frees them, and totals that add up to the cells.
  pub dump_tree-post_order :
      (p : Place) (t : Tree) {xs : Cells}
      → Forest m t xs
      → AllThere m xs
      → Returns (λ ls m'. (m' ≡ m) × Tells m (post_order p t) xs (length xs) ls) (dump_tree p t m)
  unfolding dump_tree
  dump_tree-post_order p empty bare all =
      returns (refl, record { nodes = refl; callbacks = refl; total = refl })
  dump_tree-post_order p (branch n l r) (grove {xs} {ys} {zs} f g q _ _) all =
      Returns.bind
        (dump_tree-post_order (p ++ left ∷ []) l f
          λ c i. all c (omega (arith, count-append c xs (ys ++ zs))))
        λ lefts m1 (same1, t1). rw same1 (
          Returns.bind
            (dump_tree-post_order (p ++ right ∷ []) r g
              λ c i. all c (omega (arith, count-append c xs (ys ++ zs), count-append c ys zs)))
            λ rights m2 (same2, t2). rw same2 (
              Returns.bind
                (dump_list-Listed q
                  λ c i. all c (omega (arith, count-append c xs (ys ++ zs), count-append c ys zs)))
                λ list m3 (same3, t3). returns (
                  same3,
                  Tells-total (omega (arith, length-append xs (ys ++ zs), length-append ys zs))
                      (Tells-append t1 (Tells-append t2 (Tells-node t3))),
                )))
    where
      node : Line
      node =
          node_line p (key_of n.key n.ikey) (child (p ++ left ∷ []) l) (child (p ++ right ∷ []) r)
            n.timer

      Tells-node :
          {ls : List Line}
          → Tells m [] zs (length zs) ls
          → Tells m (node ∷ []) zs (length zs) (node ∷ ls)
      Tells-node t = record {
        nodes = ap (λ ns. node ∷ ns) t.nodes;
        callbacks = t.callbacks;
        total = t.total;
      }
