-- ===== src/Tests/Tree.antt =====
-- A tree of two names and a tree of two periods.
use crazy_snail.Common.{ℕ, ◌≡◌, refl, subst, ◌↔◌, ◌⊎◌, false, none, some, [], ◌∷◌, ◌++◌, pos}
use crazy_snail.Text.{Bytes, bytes, c_str, strlen, strncmp}
use crazy_snail.Memory.{null, Memory, ok, abort, malloc, strdup}
use crazy_snail.Callback.{snail_ok}
use crazy_snail.Queue.{no_ends}
use crazy_snail.Tree.{
  Node, Tree, empty, branch, left, right, node_at, insert, insert_new, search_key, insert_timer,
  insert_timer_new, search_timer,
}
use crazy_snail.Tree.Shape.{All}
use crazy_snail.Tree.Keys.{IsNamed}
use crazy_snail.Tree.Names.{IsSearchTree}
use crazy_snail.Tree.Lookup.{
  insert-IsSearchTree, search_key-insert, insert_keeps_search, insert_shares,
}
use crazy_snail.Tree.Timers.{IsOrdered, search_timer_iff}
use crazy_snail.Tree.Periods.{
  insert_timer-IsOrdered, insert_timer_status, insert_timer_keeps_search,
}

abbrev room : ℕ → Memory
room n = record {
  next = n;
  oom = λ p. false;
  junk = λ p i. 0;
  callback = λ p. none;
  wrapper = λ p. none;
  requests = [];
  buffers = [];
  stopped = [];
}

abbrev name_node : Bytes → Node
name_node s = record { key = some s; ikey = 0; cb_list = some no_ends; timer = null }

abbrev period_node : ℕ → Node
period_node n = record { key = none; ikey = n; cb_list = some no_ends; timer = null }

abbrev names : Tree
names = branch (name_node (bytes "foo")) (branch (name_node (bytes "bar")) empty empty) empty

abbrev more_names : Tree
more_names =
    branch (name_node (bytes "foo")) (branch (name_node (bytes "bar")) empty empty)
      (branch (name_node (bytes "zoo")) empty empty)

abbrev periods : Tree
periods = branch (period_node 500) empty (branch (period_node 900) empty empty)

abbrev more_periods : Tree
more_periods =
    branch (period_node 500) (branch (period_node 100) empty empty)
      (branch (period_node 900) empty empty)

insert_zoo :
    insert names (bytes "zoo") (room 1) ≡ ok (snail_ok, more_names, some (right ∷ [])) (room 4)
unfolding insert insert_new malloc strdup strncmp strlen c_str
insert_zoo = refl

insert_100 : insert_timer periods 100 (room 1) ≡ ok (pos 2, more_periods, some (left ∷ [])) (room 3)
unfolding insert_timer insert_timer_new malloc
insert_100 = refl

search_bar : search_key (bytes "bar") names (room 1) ≡ ok (left ∷ []) (room 1)
unfolding search_key strncmp strlen c_str
search_bar = refl

search_900 : search_timer 900 periods (room 1) ≡ ok (right ∷ []) (room 1)
unfolding search_timer
search_900 = refl

terminated_name : (s : Bytes) → c_str s ≡ s → (k : Bytes) → (name_node s).key ≡ some k → c_str k ≡ k
terminated_name s z k e = subst (λ x. c_str x ≡ x) (cc e) z

names-IsSearchTree : IsSearchTree names
unfolding strncmp strlen c_str
names-IsSearchTree = record {
  named = (refl, (refl, tt, tt), tt);
  terminated =
      (terminated_name (bytes "foo") refl, (terminated_name (bytes "bar") refl, tt, tt), tt);
  ordered = ((refl, tt, tt), tt, (tt, tt, tt, tt), tt);
}

more_names-IsNamed : All IsNamed more_names
more_names-IsNamed = (refl, (refl, tt, tt), (refl, tt, tt))

periods-IsOrdered : IsOrdered periods
periods-IsOrdered = (tt, (refl, tt, tt), tt, (tt, tt, tt, tt))

insert-IsSearchTree_example : IsSearchTree more_names
insert-IsSearchTree_example =
    insert-IsSearchTree names (bytes "zoo") (room 1) insert_zoo names-IsSearchTree
      more_names-IsNamed

search_key-insert_example : search_key (bytes "zoo") more_names (room 9) ≡ ok (right ∷ []) (room 9)
search_key-insert_example =
    search_key-insert names (bytes "zoo") (room 1) insert_zoo (right ∷ []) (room 9)
      names-IsSearchTree.named more_names-IsNamed refl

insert_keeps_search_example :
    (search_key (bytes "bar") more_names (room 1) ≡ ok (left ∷ []) (room 1))
    × (node_at more_names (left ∷ []) ≡ some (name_node (bytes "bar")))
insert_keeps_search_example =
    insert_keeps_search names (bytes "zoo") (room 1) insert_zoo (bytes "bar") (left ∷ [])
      (name_node (bytes "bar")) (room 1) names-IsSearchTree.named more_names-IsNamed search_bar refl

insert_football :
    insert empty (bytes "foo" ++ bytes "tball") (room 1)
    ≡ ok (snail_ok, branch (name_node (bytes "football")) empty empty, some []) (room 4)
unfolding insert insert_new malloc strdup strncmp strlen c_str
insert_football = refl

insert_shares_example :
    insert (branch (name_node (bytes "football")) empty empty) (bytes "foo") (room 4)
    ≡ ok (snail_ok, branch (name_node (bytes "football")) empty empty, some []) (room 4)
insert_shares_example =
    insert_shares (bytes "foo") (bytes "tball") (room 1) (room 4) insert_football (refl, tt, tt)

search_timer_iff_example :
    (search_timer 900 periods (room 1) ≡ ok (right ∷ []) (room 1))
    ↔ ((x : Node) × (node_at periods (right ∷ []) ≡ some x) × (x.ikey ≡ 900))
search_timer_iff_example = search_timer_iff periods 900 (right ∷ []) (room 1) periods-IsOrdered

insert_timer-IsOrdered_example : IsOrdered more_periods
insert_timer-IsOrdered_example =
    insert_timer-IsOrdered periods 100 (room 1) insert_100 periods-IsOrdered

insert_timer_status_example :
    ((pos 2 ≡ snail_ok)
      × (more_periods ≡ periods)
      × (search_timer 100 periods (room 3) ≡ ok (left ∷ []) (room 3)))
    ⊎ ((pos 2 ≡ pos 2)
        × (search_timer 100 periods (room 3) ≡ abort)
        × (search_timer 100 more_periods (room 3) ≡ ok (left ∷ []) (room 3)))
insert_timer_status_example =
    insert_timer_status periods 100 (room 1) insert_100 (left ∷ []) (room 3) refl

insert_timer_keeps_search_example :
    (search_timer 900 more_periods (room 1) ≡ ok (right ∷ []) (room 1))
    × (node_at more_periods (right ∷ []) ≡ some (period_node 900))
insert_timer_keeps_search_example =
    insert_timer_keeps_search periods 100 (room 1) insert_100 900 (right ∷ []) (period_node 900)
      (room 1) search_900 refl
