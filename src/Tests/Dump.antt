-- ===== src/Tests/Dump.antt =====
-- The printing of a tree with one timer.
use crazy_snail.Common.{◌≡◌, [], ◌∷◌, arith}
use crazy_snail.Memory.Returns.{Returns}
use crazy_snail.Dump.{dump_tree}
use crazy_snail.Dump.Lines.{Tells, post_order, Counted-AllThere}
use crazy_snail.Dump.Order.{dump_tree-post_order}
use crazy_snail.Tests.Client.{store, store-Attached, client, timers-Forest}

dump_tree-post_order_example :
    Returns
      (λ ls m'. (m' ≡ store) × Tells store (post_order [] client.timers) ((3, 1) ∷ []) 1 ls)
      (dump_tree [] client.timers store)
dump_tree-post_order_example = dump_tree-post_order store [] client.timers timers-Forest (
    Counted-AllThere ((3, 1) ∷ []) ((2, 1) ∷ (5, 4) ∷ [])
      (store-Attached ((3, 1) ∷ (2, 1) ∷ (5, 4) ∷ []) λ c. omega arith))
