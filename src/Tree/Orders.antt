-- ===== src/Tree/Orders.antt =====
-- The trees of src/cb.c by their keys: names, and periods.
use crazy_snail.Common.{ℕ, ◌≡◌, refl}
use crazy_snail.Text.{Bytes}
use crazy_snail.Memory.{CallbackEnds}
use crazy_snail.Tree.{Node, Tree, Place}
use crazy_snail.Tree.Shape.{Test, All}
use crazy_snail.Tree.Keys.{by_key, IsNamed}
use crazy_snail.Tree.Names.{by_name, IsSearchTree}
use crazy_snail.Tree.Timers.{by_period, by_own_period, IsOrdered}
use crazy_snail.Tree.Refill.{relist, relisted}
use crazy_snail.Tree.Relisted.{IsListed, All-update_at, Ordered-relisted}

-- A kind of tree: its comparison, which sees no list, and what keeps it a search tree.
pub record Order (K : Type 0) : Type 1 where
  pub by : K → Test
  pub by-relist : (key : K) (l : CallbackEnds) (x : Node) → by key (relist l x) ≡ by key x
  pub Sound : Tree → Type 0
  pub Sound-relisted : (l : CallbackEnds) (t : Tree) (p : Place) → Sound t → Sound (relisted t p l)
  pub Sound-IsListed : (t : Tree) → Sound t → All IsListed t

-- Every node has its name, in order, and its list.
pub record IsSound (t : Tree) : Type 0 where
  pub search : IsSearchTree t
  pub lists : All IsListed t

abbrev pub name_order : Order Bytes
name_order = record {
  by = by_key;
  by-relist = λ key l x. refl;
  Sound = IsSound;
  Sound-relisted = λ l t p h. record {
    search = record {
      named = All-update_at (relist l) IsNamed t p (λ x k. k) h.search.named;
      terminated = All-update_at (relist l) _ t p (λ x k. k) h.search.terminated;
      ordered = Ordered-relisted by_name l (λ x n. refl) (λ x n. refl) t p h.search.ordered;
    };
    lists = All-update_at (relist l) IsListed t p (λ x k. refl) h.lists;
  };
  Sound-IsListed = λ t h. h.lists;
}

-- The periods are in order, and every node has its list.
pub record IsSoundTimers (t : Tree) : Type 0 where
  pub order : IsOrdered t
  pub lists : All IsListed t

abbrev pub period_order : Order ℕ
period_order = record {
  by = by_period;
  by-relist = λ key l x. refl;
  Sound = IsSoundTimers;
  Sound-relisted = λ l t p h. record {
    order = Ordered-relisted by_own_period l (λ x n. refl) (λ x n. refl) t p h.order;
    lists = All-update_at (relist l) IsListed t p (λ x k. refl) h.lists;
  };
  Sound-IsListed = λ t h. h.lists;
}
