-- ===== src/Tree.antt =====
-- The binary trees of src/cb.c that lead from a channel's name, or a timer's period, to its
-- callbacks. A node never moves, so a pointer to it is the way from the root.
pub mod Shape
pub mod Keys
pub mod Names
pub mod Timers
pub mod Periods
pub mod Lookup
pub mod Destroy
pub mod Refill
pub mod Relisted
pub mod Orders
pub mod Growth
use crazy_snail.Common.{
  ℕ, suc, Bool, true, false, Option, none, some, List, [], ◌∷◌, map, compare, Ordering, ◌==◌, not,
  if◌then◌else◌, ℤ, pos,
}
use mathlib.Core.Option
use crazy_snail.Text.{Bytes, strlen, strncmp}
use crazy_snail.Memory.{
  Ptr, null, CallbackEnds, Memory, Cmd, fault, abort, pure, ◌>>=◌, ◌>>◌, malloc, strdup, read_junk,
}
use crazy_snail.Callback.{snail_err, snail_ok}
use crazy_snail.Queue.{no_ends, destroy_list}
use crazy_snail.Pools.{stop_timer}

-- `data` is the timer.
pub record Node : Type 0 where
  pub key : Option Bytes
  pub ikey : ℕ
  pub cb_list : Option CallbackEnds
  pub timer : Ptr

pub data Tree : Type 0 where
  empty : Tree
  branch : Node → Tree → Tree → Tree

pub data Turn : Type 0 where
  left right : Turn

abbrev pub Place : Type 0
Place = List Turn

-- What stands at a place, and a change there.
abbrev pub node_at : Tree → Place → Option Node
node_at empty p = none
node_at (branch n l r) [] = some n
node_at (branch n l r) (left ∷ p) = node_at l p
node_at (branch n l r) (right ∷ p) = node_at r p

abbrev pub update_at : Tree → Place → (Node → Node) → Tree
update_at empty p f = empty
update_at (branch n l r) [] f = branch (f n) l r
update_at (branch n l r) (left ∷ p) f = branch n (update_at l p f) r
update_at (branch n l r) (right ∷ p) f = branch n l (update_at r p f)

-- The result of the recursive call on a child, seen from the node above it.
abbrev pub in_left : Node → Tree → ℤ × Tree × Option Place → ℤ × Tree × Option Place
in_left n r (status, l, leaf) = (status, branch n l r, Option.map (λ p. left ∷ p) leaf)

abbrev pub in_right : Node → Tree → ℤ × Tree × Option Place → ℤ × Tree × Option Place
in_right n l (status, r, leaf) = (status, branch n l r, Option.map (λ p. right ∷ p) leaf)

-- The branch `*root == NULL` of `insert`: the status, the tree and `*leaf`, which stays NULL where a
-- block is refused. Nobody looks at what `strdup` returns, and a node that got no list stays.
unfoldable pub insert_new : Bytes → Cmd (ℤ × Tree × Option Place)
insert_new key = do
  root ← malloc
  if root == null then pure (snail_err, empty, none) else do
    name ← strdup key
    unset ← read_junk root 1
    list ← malloc
    timer ← read_junk root 2
    if list == null
        then pure (
          snail_err,
          branch (record { key = name; ikey = unset; cb_list = none; timer = timer }) empty empty,
          none,
        )
        else pure (
          snail_ok,
          branch (record { key = name; ikey = unset; cb_list = some no_ends; timer = null }) empty
              empty,
          some [],
        )

unfoldable pub insert : Tree → Bytes → Cmd (ℤ × Tree × Option Place)
insert empty key = insert_new key
insert (branch n l r) key = elim n.key [
  | none ↦ λ _. fault
  | some k ↦ elim (strncmp key k (strlen key)) [
    | Ordering.lt ↦ do found ← insert l key; pure (in_left n r found)
    | Ordering.gt ↦ do found ← insert r key; pure (in_right n l found)
    | Ordering.eq ↦ pure (snail_ok, branch n l r, some [])
  ]
]

-- The place whose list is the result. A key that leads nowhere ends in the assertion.
unfoldable pub search_key : Bytes → Tree → Cmd Place
search_key key empty = λ _. abort
search_key key (branch n l r) = elim n.key [
  | none ↦ λ _. fault
  | some k ↦ elim (strncmp key k (strlen key)) [
    | Ordering.eq ↦ pure []
    | Ordering.lt ↦ do p ← search_key key l; pure (left ∷ p)
    | Ordering.gt ↦ do p ← search_key key r; pure (right ∷ p)
  ]
]

-- The same trees with a number for a key. The status is 2 for a new node.
unfoldable pub insert_timer_new : ℕ → Cmd (ℤ × Tree × Option Place)
insert_timer_new key = do
  root ← malloc
  if root == null then pure (snail_err, empty, none) else do
    list ← malloc
    timer ← read_junk root 2
    if list == null
        then pure (
          snail_err,
          branch (record { key = none; ikey = key; cb_list = none; timer = timer }) empty empty,
          none,
        )
        else pure (
          pos 2,
          branch (record { key = none; ikey = key; cb_list = some no_ends; timer = null }) empty
              empty,
          some [],
        )

unfoldable pub insert_timer : Tree → ℕ → Cmd (ℤ × Tree × Option Place)
insert_timer empty key = insert_timer_new key
insert_timer (branch n l r) key = elim (compare key n.ikey) [
  | Ordering.lt ↦ do found ← insert_timer l key; pure (in_left n r found)
  | Ordering.gt ↦ do found ← insert_timer r key; pure (in_right n l found)
  | Ordering.eq ↦ pure (snail_ok, branch n l r, some [])
]

unfoldable pub search_timer : ℕ → Tree → Cmd Place
search_timer key empty = λ _. abort
search_timer key (branch n l r) = elim (compare key n.ikey) [
  | Ordering.eq ↦ pure []
  | Ordering.lt ↦ do p ← search_timer key l; pure (left ∷ p)
  | Ordering.gt ↦ do p ← search_timer key r; pure (right ∷ p)
]

-- Children first, then the timer, the list and the node itself.
unfoldable pub destroy_tree : Tree → Cmd Tree
destroy_tree empty = pure empty
destroy_tree (branch n l r) = do
  _ ← destroy_tree l
  _ ← destroy_tree r
  if n.timer == null then pure tt else stop_timer n.timer
  _ ← destroy_list n.cb_list
  pure empty
