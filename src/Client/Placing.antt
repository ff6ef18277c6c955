-- ===== src/Client/Placing.antt =====
-- `lua_client_command` of src/crazysnail.c files a callback in a tree: what becomes of the other lists.
use crazy_snail.Common.{
  ℕ, suc, ◌+◌, ◌≡◌, refl, sym, ◌∙◌, ◌≢◌, ◌<◌, ◌≤◌, ◌||◌, true, false, some, [], ◌∷◌, ◌++◌, arith,
  ◌==◌, if◌then◌else◌, subst,
}
use mathlib.Core.Option
use crazy_snail.Memory.{Ptr, null, Callback, CallbackEnds, Memory, update}
use crazy_snail.Queue.{no_ends}
use crazy_snail.Queue.Cells.{
  Cells, has, has-append, count, count-append, nil, IsQueue, AttachedBy, CountedBy,
  CountedBy-counts, gained,
}
use crazy_snail.Queue.Push.{PushedBy}
use crazy_snail.Tree.{Node, Tree, Place, node_at}
use crazy_snail.Tree.Destroy.{Apart, Listed, listed, Forest}
use crazy_snail.Tree.Refill.{relisted, cells_at, has-cells_at, cells_at-Listed, refill}
use crazy_snail.Client.{Env, Host, done}
use crazy_snail.Client.Answers.{IsFresh}
use crazy_snail.Client.Filing.{celled, file_at-By}
use crazy_snail.Client.Command.{file_at}

-- The memory, and the cells of the tree, when `p` is filed behind the cells `zs` of a list.
pub record Placed (W : Ptr → Callback → Type 0) (m : Memory) (t : Tree) (place : Place)
    (xs ys zs : Cells) (p : Ptr) (l' : CallbackEnds) (m' : Memory) : Type 0 where
  pub cells : Cells
  pub forest : Forest m' (relisted t place l') cells
  pub list : IsQueue m' l' (zs ++ (m.next, p) ∷ [])
  pub apart : Apart cells ys
  pub counted : CountedBy W m' (cells ++ ys)
  pub fresh : IsFresh m' (cells ++ ys)
  pub more : (c : Ptr) → count c cells ≡ count c xs + (if c == p then 1 else 0)
  pub next : m'.next ≡ suc m.next
  pub oom : m'.oom ≡ m.oom
  pub requests : m'.requests ≡ m.requests
  pub spared : (a : Ptr) → a < m.next → has a zs ≡ false → m'.wrapper a ≡ m.wrapper a
  pub callback : m'.callback ≡ update m.callback p (Option.map gained (m.callback p))

-- The cells of a tree without those of one list.
pub cells_without :
    {m : Memory} {t : Tree} {xs : Cells} {n : Node} (f : Forest m t xs) (place : Place)
    → node_at t place ≡ some n
    → (rs : Cells) × ((a : Ptr) → has a rs ≡ true → has a xs ≡ true)
      × ((c : Ptr) → count c rs + count c (cells_at f place) ≡ count c xs)
cells_without {m} {xs} f place at =
    let d =
      refill {m = m} {m' = m} (omega arith)
        (listed {l = no_ends} (record { chain = nil; end = refl })) f place at
        ((λ a i o. refl), (λ a i. cc)) in
    (d.cells, (λ a i. ground (arith, d.within a i)), λ c. omega (arith, d.balance c))

module _ {W : Ptr → Callback → Type 0} {m : Memory} {t : Tree} {xs ys : Cells} (rs : Cells)
    {n : Node} (f : Forest m t xs) (place : Place) (at : node_at t place ≡ some n) (p : Ptr)
    (apart : Apart xs ys) (fresh : IsFresh m (xs ++ ys)) (below : p < m.next)
    (rest : (c : Ptr) → count c rs + count c (cells_at f place) ≡ count c xs) where
  pushed-Placed :
      {l' : CallbackEnds} {m' : Memory}
      → PushedBy W (celled m p) (cells_at f place) (rs ++ ys) (m.next, p) l' m'
      → Placed W m t place xs ys (cells_at f place) p l' m'
  pushed-Placed {l'} {m'} (queue, all, same, pools, cbs) =
      let zs : Cells = cells_at f place in
      let next : m'.next ≡ suc m.next = pools.next in
      let new : (a : Ptr) → has a xs ≡ true → a ≢ m.next =
        λ a i e. ground (arith, fresh a, has-append a xs ys) in
      let d = refill {m = m} {m' = m'} (omega (arith, next)) (listed queue) f place at (
        (λ a i o. same a o ∙ ground (arith, new a i)),
        (λ a i j. ground (arith, new a j, has-append a zs ((m.next, p) ∷ []))),
      ) in
      let more : (c : Ptr) → count c d.cells ≡ count c xs + (if c == p then 1 else 0) =
        λ c. omega (arith, d.balance c, count-append c zs ((m.next, p) ∷ [])) in
      let one : Ptr → ℕ = λ a. if a == p then 1 else 0 in
      let other : (a : Ptr) → suc m.next ≤ a → one a ≡ 0 = λ a h. ground arith in
      let in_cells : (a : Ptr) → has a d.cells ≡ true → (has a xs || a == m.next) ≡ true = λ a i.
        ground (arith, d.within a, has-append a zs ((m.next, p) ∷ []), has-cells_at f place a) in
      record {
        cells = d.cells;
        forest = d.forest;
        list = queue;
        apart = λ a i. ground (arith, in_cells a, apart a i, fresh a, has-append a xs ys);
        counted =
            CountedBy-counts ((zs ++ (m.next, p) ∷ []) ++ (rs ++ ys)) (d.cells ++ ys)
              (λ c. omega (
                arith,
                more c,
                rest c,
                count-append c d.cells ys,
                count-append c (zs ++ (m.next, p) ∷ []) (rs ++ ys),
                count-append c zs ((m.next, p) ∷ []),
                count-append c rs ys,
              ))
              all;
        fresh = λ a h. (
          ground (arith, in_cells a, fresh a, has-append a d.cells ys, has-append a xs ys),
          omega (
            arith,
            more a,
            other a (omega (arith, next)),
            (fresh a (omega (arith, next))).1,
            count-append a d.cells ys,
            count-append a xs ys,
            next,
          ),
        );
        more = more;
        next = next;
        oom = pools.oom;
        requests = pools.requests;
        spared = λ a h o. same a o ∙ ground arith;
        callback = cbs;
      }

module _ (H : Host) (e : Env H.Reader) where
  -- A callback is filed behind the list of a node: its own list grows, and the others stay.
  pub file_at-Placed :
      {W : Ptr → Callback → Type 0} (keep : (a : Ptr) (k : Callback) → W a k → W a (gained k))
      {t : Tree} {xs : Cells} (ys : Cells) {n : Node} (f : Forest e.memory t xs) (place : Place)
      (l : CallbackEnds) (p : Ptr)
      → node_at t place ≡ some n
      → n.cb_list ≡ some l
      → Apart xs ys
      → CountedBy W e.memory (xs ++ ys)
      → AttachedBy W e.memory p (count p (xs ++ ys))
      → IsFresh e.memory (xs ++ ys)
      → p < e.memory.next
      → e.memory.next ≢ null
      → ((a : Ptr) → e.memory.oom a ≡ false)
      → (l' : CallbackEnds) × (m' : Memory) × (file_at H t (some place) p e
          ≡ done (relisted t place l') (record e { memory = m' }))
        × Placed W e.memory t place xs ys (cells_at f place) p l' m'
  file_at-Placed {W} keep {t} {xs} ys {n} f place l p at is_listed apart all att fresh below ne
        room =
      let (rs, part, rest) = cells_without f place at in
      let same : (c : Ptr) → count c (cells_at f place ++ (rs ++ ys)) ≡ count c (xs ++ ys) = λ c.
        omega (
          arith,
          rest c,
          count-append c (cells_at f place) (rs ++ ys),
          count-append c rs ys,
          count-append c xs ys,
        ) in
      let (l', m', run, pushed) =
        file_at-By H e keep t place n l p (cells_at f place) (rs ++ ys) at is_listed
          (queue_of (
            subst (λ o. Listed e.memory o (cells_at f place)) is_listed
              (cells_at-Listed f place at)))
          (CountedBy-counts (xs ++ ys) _ same all)
          (subst (AttachedBy W e.memory p) (sym (same p)) att)
          (λ a h. (
            ground (
              arith,
              fresh a,
              part a,
              has-append a (cells_at f place) (rs ++ ys),
              has-append a rs ys,
              has-append a xs ys,
              has-cells_at f place a,
            ),
            omega (arith, same a, (fresh a h).1),
          ))
          ne room in
      (l', m', run, pushed-Placed rs f place at p apart fresh below rest pushed)
    where
      queue_of :
          {m : Memory} {l : CallbackEnds} {zs : Cells} → Listed m (some l) zs → IsQueue m l zs
      queue_of (listed q) = q
