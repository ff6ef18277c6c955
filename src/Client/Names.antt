-- ===== src/Client/Names.antt =====
-- The loop of `lua_client_command` of src/crazysnail.c over the channels or patterns.
use crazy_snail.Common.{
  ℕ, suc, ◌+◌, ◌≡◌, refl, sym, ap, ◌∙◌, ◌≤◌, Bool, true, false, List, [], ◌∷◌, ◌++◌, map, arith,
  length, length-append, subst,
}
use mathlib.Core.List.{append_assoc}
use crazy_snail.Text.{Bytes}
use crazy_snail.Memory.{Ptr, Channel, Memory}
use crazy_snail.Queue.Cells.{Cells}
use crazy_snail.Tree.{Tree}
use crazy_snail.Tree.Orders.{name_order}
use crazy_snail.Client.{Client, Env, Host, done}
use crazy_snail.Client.Command.{subscribe_one, subscribe_names}
use crazy_snail.Client.Building.{new_channel}
use crazy_snail.Client.Filed.{IsFiled}
use crazy_snail.Client.Step.{Stepped}
use crazy_snail.Client.Underway.{Underway, Kept, Kept-refl, Kept-trans}
use crazy_snail.Client.Subscribed.{tree_of, with_tree, grown, subscribe_one-Stepped}
use mathlib.Core.List.{append-nil}

-- The callback is filed under each name.
abbrev pub AllFiled : Memory → Tree → List Bytes → Ptr → Type 0
AllFiled m t [] p = Unit {0}
AllFiled m t (name ∷ names) p = IsFiled name_order m t name p × AllFiled m t names p

-- The end of the loop.
pub record Done (m : Memory) (t : Tree) (xs ys : Cells) (p : Ptr) (chs : List Channel) (total : ℕ)
    (names : List Bytes) (m' : Memory) (t' : Tree) (xs' : Cells) : Type 0 where
  pub underway : Underway name_order m' t' xs' ys p (chs ++ map new_channel names) total
  pub kept : Kept name_order m t xs ys p (length names) m' t' xs'
  pub filed : AllFiled m' t' names p

Done-cons :
    {m m1 m2 : Memory} {t t1 t2 : Tree} {xs xs1 xs2 ys : Cells} {p : Ptr} {chs : List Channel}
    {total : ℕ} {name : Bytes} {names : List Bytes}
    → Stepped name_order m t xs ys p chs total (new_channel name) name m1 t1 xs1
    → Done m1 t1 xs1 ys p (chs ++ new_channel name ∷ []) total names m2 t2 xs2
    → Done m t xs ys p chs total (name ∷ names) m2 t2 xs2
Done-cons {m} {m2} {t} {t2} {xs} {xs2} {ys} {p} {chs} {total} {name} {names} s d = record {
  underway =
      subst (λ cs. Underway name_order m2 t2 xs2 ys p cs total)
        (append_assoc chs (new_channel name ∷ []) (map new_channel names)) d.underway;
  kept =
      subst (λ n. Kept name_order m t xs ys p n m2 t2 xs2) (omega arith) (Kept-trans s.kept d.kept);
  filed = (d.kept.filed name p s.filed, d.filed);
}

tree_of-with_tree :
    {R : Type 0} (pvariant : Bool) (cc : Client R) (t : Tree)
    → tree_of pvariant (with_tree pvariant cc t) ≡ t
tree_of-with_tree true cc t = refl
tree_of-with_tree false cc t = refl

with_tree-same :
    {R : Type 0} (pvariant : Bool) (cc : Client R)
    → with_tree pvariant cc (tree_of pvariant cc) ≡ cc
with_tree-same true cc = refl
with_tree-same false cc = refl

with_tree-twice :
    {R : Type 0} (pvariant : Bool) (cc : Client R) (t u : Tree)
    → with_tree pvariant (with_tree pvariant cc t) u ≡ with_tree pvariant cc u
with_tree-twice true cc t u = refl
with_tree-twice false cc t u = refl

module _ (H : Host) (pvariant : Bool) (ys : Cells) (p : Ptr) (total : ℕ) where
  abbrev pub Loop : Env H.Reader → Tree → Cells → List Channel → List Bytes → Type 0
  Loop e t xs chs names =
      (t' : Tree) × (m' : Memory) × (xs' : Cells) × (subscribe_names H pvariant p (length chs) names
          e
        ≡ done tt (grown H e pvariant t' m'))
      × Done e.memory t xs ys p chs total names m' t' xs'

  subscribe_names-cons :
      (e : Env H.Reader) (i : ℕ) (name : Bytes) (names : List Bytes) (t1 t2 : Tree) {m1 m2 : Memory}
      → subscribe_one H pvariant p i name e ≡ done tt (grown H e pvariant t1 m1)
      → subscribe_names H pvariant p (suc i) names (grown H e pvariant t1 m1)
        ≡ done tt (grown H (grown H e pvariant t1 m1) pvariant t2 m2)
      → subscribe_names H pvariant p i (name ∷ names) e ≡ done tt (grown H e pvariant t2 m2)
  unfolding subscribe_names
  subscribe_names-cons e i name names t1 t2 {m2} one more =
      rw (subscribe_names, one, more)
        (ap (λ cc. done tt (record e { client = cc; memory = m2 }))
          (with_tree-twice pvariant e.client t1 t2))

  subscribe_names-nil : (e : Env H.Reader) (i : ℕ) → subscribe_names H pvariant p i [] e ≡ done tt e
  unfolding subscribe_names
  subscribe_names-nil e i = refl

  Done-nil :
      {m : Memory} {t : Tree} {xs : Cells} {chs : List Channel}
      → Underway name_order m t xs ys p chs total
      → Done m t xs ys p chs total [] m t xs
  Done-nil {m} {t} {xs} {chs} u = record {
    underway = subst (λ cs. Underway name_order m t xs ys p cs total) (sym (append-nil chs)) u;
    kept = Kept-refl (omega arith) refl (λ c ne. refl) refl refl;
    filed = tt;
  }

  pub subscribe_names-Done :
      (names : List Bytes) (e : Env H.Reader) {xs : Cells} (chs : List Channel)
      → Underway name_order e.memory (tree_of pvariant e.client) xs ys p chs total
      → length chs + length names ≤ total
      → Loop e (tree_of pvariant e.client) xs chs names
  subscribe_names-Done [] e {xs} chs u h = (
    tree_of pvariant e.client,
    e.memory,
    xs,
    subscribe_names-nil e (length chs)
        ∙ ap (λ cc. done tt (record e { client = cc })) (sym (with_tree-same pvariant e.client)),
    Done-nil u,
  )
  subscribe_names-Done (name ∷ names) e {xs} chs u h =
      let (t1, m1, xs1, one, s) = subscribe_one-Stepped H e pvariant name u (omega (arith, h)) in
      let e1 = grown H e pvariant t1 m1 in
      let same : tree_of pvariant e1.client ≡ t1 = tree_of-with_tree pvariant e.client t1 in
      let chs1 : List Channel = chs ++ new_channel name ∷ [] in
      let len : length chs1 ≡ suc (length chs) =
        omega (arith, length-append chs (new_channel name ∷ [])) in
      let (t2, m2, xs2, more, d) =
        subscribe_names-Done names e1 {xs = xs1} chs1
          (subst (λ t. Underway name_order m1 t xs1 ys p chs1 total) (sym same) s.underway)
          (omega (arith, h, len)) in
      (
        t2,
        m2,
        xs2,
        subscribe_names-cons e (length chs) name names t1 t2 one
            (ap (λ i. subscribe_names H pvariant p i names e1) (sym len) ∙ more),
        Done-cons s (subst (λ t. Done m1 t xs1 ys p chs1 total names m2 t2 xs2) same d),
      )
