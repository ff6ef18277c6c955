-- ===== src/Tree/Destroy.antt =====
-- `destroy_tree` of src/cb.c.
use crazy_snail.Common.{
  ◌≡◌, refl, sym, subst, ap, ◌∙◌, ◌<◌, ◌≤◌, true, false, Option, none, some, List, [], ◌∷◌, ◌++◌,
  arith, ◌==◌, Bool-cases, inl, inr, if◌then◌else◌, ==_iff,
}
use mathlib.Core.List.{append_assoc}
use crazy_snail.Memory.{Ptr, null, CallbackEnds, Memory, ok, pure}
use crazy_snail.Memory.Returns
use crazy_snail.Memory.Returns.{Returns, returns}
use crazy_snail.Pools.{stop_timer, req_free}
use crazy_snail.Queue.{destroy_list}
use crazy_snail.Queue.Cells.{
  Cells, has, has-append, count, count-append, frame, IsQueue, Counted, Counted-same, SameOutside,
}
use crazy_snail.Queue.Destroy.{Destroyed, destroy_list-Destroyed}
use crazy_snail.Tree.{Node, Tree, empty, branch, destroy_tree}

-- No cell stands in both.
abbrev pub Apart : Cells → Cells → Type 0
Apart xs ys = (a : Ptr) → has a ys ≡ true → has a xs ≡ false

-- The list of a node, if it has one, has the cells `xs`.
pub data Listed (m : Memory) : Option CallbackEnds → Cells → Type 0 where
  unlisted : Listed m none []
  listed : {l : CallbackEnds} {xs : Cells} → IsQueue m l xs → Listed m (some l) xs

-- The lists of a tree share no cell; `xs` are all their cells, in the order of destruction.
pub data Forest (m : Memory) : Tree → Cells → Type 0 where
  bare : Forest m empty []
  grove :
      {n : Node} {l r : Tree} {xs ys zs : Cells}
      → Forest m l xs
      → Forest m r ys
      → Listed m n.cb_list zs
      → Apart xs (ys ++ zs)
      → Apart ys zs
      → Forest m (branch n l r) (xs ++ (ys ++ zs))

-- The timers of a tree, the last to be stopped first.
abbrev pub own_timer : Ptr → List Ptr
own_timer p = if p == null then [] else p ∷ []

abbrev pub timers_of : Tree → List Ptr
timers_of empty = []
timers_of (branch n l r) = (own_timer n.timer ++ timers_of r) ++ timers_of l

-- The cells `xs` are gone and the callbacks that only they held, the lists with the cells `ys` live
-- on, and the timers `ts` are stopped and in the free list.
pub record Freed (m : Memory) (xs ys : Cells) (ts : List Ptr) (m' : Memory) : Type 0 where
  pub freed : (a : Ptr) → has a xs ≡ true → m'.wrapper a ≡ none
  pub same : SameOutside xs m m'
  pub counted : Counted m' ys
  pub gone : (c : Ptr) → 0 < count c xs → count c ys ≡ 0 → m'.callback c ≡ none
  pub kept : (c : Ptr) → count c xs ≡ 0 → m'.callback c ≡ m.callback c
  pub next : m'.next ≡ m.next
  pub buffers : m'.buffers ≡ m.buffers
  pub requests : m'.requests ≡ ts ++ m.requests
  pub stopped : m'.stopped ≡ ts ++ m.stopped

module _ {m m' : Memory} where
  pub frame_Listed :
      {l : Option CallbackEnds} {xs : Cells}
      → Listed m l xs
      → m.next ≤ m'.next
      → ((a : Ptr) → has a xs ≡ true → m'.wrapper a ≡ m.wrapper a)
      → Listed m' l xs
  frame_Listed unlisted n same = unlisted
  frame_Listed (listed q) n same = listed (record { chain = frame q.chain n same; end = q.end })

  pub frame_Forest :
      {t : Tree} {xs : Cells}
      → Forest m t xs
      → m.next ≤ m'.next
      → ((a : Ptr) → has a xs ≡ true → m'.wrapper a ≡ m.wrapper a)
      → Forest m' t xs
  frame_Forest bare n same = bare
  frame_Forest (grove {xs} {ys} {zs} f g q p1 p2) n same =
      grove (frame_Forest f n λ a i. same a (ground (arith, has-append a xs (ys ++ zs))))
        (frame_Forest g n
          λ a i. same a (ground (arith, has-append a xs (ys ++ zs), has-append a ys zs)))
        (frame_Listed q n
          λ a i. same a (ground (arith, has-append a xs (ys ++ zs), has-append a ys zs)))
        p1 p2

-- One part after the other.
pub Freed-append :
    {m m1 m2 : Memory} {xs ys zs : Cells} {ts us : List Ptr}
    → Freed m xs (ys ++ zs) ts m1
    → Freed m1 ys zs us m2
    → Freed m (xs ++ ys) zs (us ++ ts) m2
Freed-append {m} {m1} {m2} {xs} {ys} {zs} {ts} {us} d e = record {
  freed = λ a i. elim (Bool-cases (has a ys)) [
    | inl second ↦ e.freed a second
    | inr first ↦ e.same a first ∙ d.freed a (ground (arith, has-append a xs ys))
  ];
  same = λ a o.
      e.same a (ground (arith, has-append a xs ys)) ∙ d.same a (ground (arith, has-append a xs ys));
  counted = e.counted;
  gone = λ c some_cells z. elim (Bool-cases (count c ys == 0)) [
    | inl none_here ↦
        e.kept c ((==_iff _ _).0 none_here)
        ∙ d.gone c (ground (arith, count-append c xs ys)) (ground (arith, count-append c ys zs))
    | inr here ↦ e.gone c (ground arith) z
  ];
  kept = λ c z.
      e.kept c (omega (arith, count-append c xs ys))
      ∙ d.kept c (omega (arith, count-append c xs ys));
  next = e.next ∙ d.next;
  buffers = e.buffers ∙ d.buffers;
  requests = e.requests ∙ ap (λ r. us ++ r) d.requests ∙ sym (append_assoc us ts m.requests);
  stopped = e.stopped ∙ ap (λ r. us ++ r) d.stopped ∙ sym (append_assoc us ts m.stopped);
}

pub Freed-Destroyed : {m m' : Memory} {xs ys : Cells} → Destroyed m xs ys m' → Freed m xs ys [] m'
Freed-Destroyed d = record {
  freed = d.freed;
  same = d.same;
  counted = d.counted;
  gone = d.gone;
  kept = d.kept;
  next = d.pools.next;
  buffers = d.pools.buffers;
  requests = d.pools.requests;
  stopped = d.pools.stopped;
}

Freed-nothing : {m : Memory} (ys : Cells) → Counted m ys → Freed m [] ys [] m
Freed-nothing ys all = record {
  freed = λ a i. cc;
  same = λ a o. refl;
  counted = all;
  gone = λ c h. absurd (omega arith);
  kept = λ c z. refl;
  next = refl;
  buffers = refl;
  requests = refl;
  stopped = refl;
}

destroy_Listed :
    {m : Memory} {l : Option CallbackEnds} {xs : Cells} (ys : Cells)
    → Listed m l xs
    → Counted m (xs ++ ys)
    → Returns (λ _ m'. Freed m xs ys [] m') (destroy_list l m)
unfolding destroy_list
destroy_Listed ys unlisted all = returns (Freed-nothing ys all)
destroy_Listed ys (listed {l} {xs} q) all =
    Returns.mono (destroy_list-Destroyed l xs ys q all) λ _ m' (e, d). Freed-Destroyed d

stop_timer-ok :
    (p : Ptr) (m : Memory)
    → (p == null) ≡ false
    → stop_timer p m ≡ ok tt (record m { requests = p ∷ m.requests; stopped = p ∷ m.stopped })
unfolding stop_timer req_free
stop_timer-ok p m e = ground arith

-- The timer of a node.
stop_own :
    (p : Ptr) {m : Memory} (ys : Cells)
    → Counted m ys
    → Returns
        (λ _ m'. Freed m [] ys (own_timer p) m')
        ((if p == null then pure tt else stop_timer p) m)
stop_own p {m} ys all = elim (Bool-cases (p == null)) [
  | inl e ↦ rw e (returns (Freed-nothing ys all))
  | inr e ↦
      rw (e, stop_timer-ok p m e)
        (returns {m = record m { requests = p ∷ m.requests; stopped = p ∷ m.stopped }} (record {
          freed = λ a i. cc;
          same = λ a o. refl;
          counted = Counted-same ys refl all;
          gone = λ c h. absurd (omega arith);
          kept = λ c z. refl;
          next = refl;
          buffers = refl;
          requests = refl;
          stopped = refl;
        }))
]

-- On a tree whose lists have the cells `xs`, among other lists with the cells `ys`, `destroy_tree`
-- ends with an empty tree: it frees exactly the cells `xs`, keeps every callback that `ys` holds, with
-- its count lowered, and frees the others, and stops each timer of the tree once and puts it into the
-- free list.
pub destroy_tree-Freed :
    {m : Memory} (t : Tree) {xs : Cells} (ys : Cells)
    → Forest m t xs
    → Counted m (xs ++ ys)
    → Returns (λ r m'. (r ≡ empty) × Freed m xs ys (timers_of t) m') (destroy_tree t m)
unfolding destroy_tree
destroy_tree-Freed empty ys bare all = returns (refl, Freed-nothing ys all)
destroy_tree-Freed {m} (branch n l r) ws (grove {xs} {ys} {zs} f g q p1 p2) all =
    Returns.bind
      (destroy_tree-Freed l ((ys ++ zs) ++ ws) f
        (subst (Counted m) (append_assoc xs (ys ++ zs) ws) all))
      λ _ m1 (_, d1).
        Returns.bind
          (destroy_tree-Freed r (zs ++ ws)
            (frame_Forest g (omega (arith, d1.next))
              λ a i. d1.same a (p1 a (ground (arith, has-append a ys zs))))
            (subst (Counted m1) (append_assoc ys zs ws) d1.counted))
          λ _ m2 (_, d2). Returns.bind (stop_own n.timer (zs ++ ws) d2.counted) λ _ m3 d3.
            Returns.bind
              (destroy_Listed ws
                (frame_Listed q (omega (arith, d1.next, d2.next, d3.next)) λ a i.
                  d3.same a refl
                  ∙ d2.same a (p2 a i)
                  ∙ d1.same a (p1 a (ground (arith, has-append a ys zs))))
                d3.counted)
              λ _ m4 d4. returns (refl, Freed-append d1 (Freed-append d2 (Freed-append d3 d4)))
