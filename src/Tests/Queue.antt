-- ===== src/Tests/Queue.antt =====
-- Two lists that share a callback, and a third cell that waits to be pushed.
use crazy_snail.Common.{
  ◌≡◌, refl, sym, subst, false, none, some, [], ◌∷◌, ◌++◌, arith, ◌==◌, ==_iff, Bool-cases, inl,
  inr, if◌then◌else◌, pos,
}
use crazy_snail.Memory.{null, ref, Callback, Wrapper, CallbackEnds, Memory}
use crazy_snail.Memory.Returns.{Returns}
use crazy_snail.Queue.{push_cb, shift_cb, destroy_list, no_ends}
use crazy_snail.Queue.Cells.{Cells, count, nil, cons, IsQueue, Attached, Counted}
use crazy_snail.Queue.Push.{IsLoose, Pushed, push_cb-IsQueue}
use crazy_snail.Queue.Shift.{Shifted, shift_cb-IsQueue}
use crazy_snail.Queue.Destroy.{Destroyed, destroy_list-Destroyed}

abbrev shared : Callback
shared = record { ref = ref 7; initialized = false; nb_channel = 0; attach = pos 2; channels = [] }

abbrev cell : Wrapper
cell = record { cb = 1; next = null }

-- The callback at 1 is held by the cells at 2 and 3; the cell at 4 is loose.
abbrev store : Memory
store = record {
  next = 5;
  oom = λ p. false;
  junk = λ p i. 0;
  callback = λ p. if p == 1 then some shared else none;
  wrapper = λ p.
      if p == 2
      then some cell
      else if p == 3
      then some cell
      else if p == 4
      then some cell
      else none;
  requests = [];
  buffers = [];
  stopped = [];
}

abbrev one_list : CallbackEnds
one_list = record { head = 2; tail = 2 }

abbrev mine : Cells
mine = (2, 1) ∷ []

abbrev others : Cells
others = (3, 1) ∷ []

one_list-IsQueue : IsQueue store one_list mine
one_list-IsQueue = record { chain = cons (ground arith) (omega arith) refl refl nil; end = refl }

shared-Attached : Attached store 1 2
shared-Attached = record {
  at = shared;
  there = refl;
  attached = refl;
  whole = λ j h. absurd (omega arith);
  ne_null = ground arith;
}

store-Counted : Counted store (mine ++ others)
store-Counted c some_cells = elim (Bool-cases (c == 1)) [
  | inl e ↦
      subst (λ x. Attached store x (count x (mine ++ others))) (sym ((==_iff c 1).0 e))
        shared-Attached
  | inr e ↦ absurd (ground arith)
]

loose : IsLoose store 4 1 (mine ++ others)
loose = record {
  ne_null = ground arith;
  made = omega arith;
  holds = refl;
  apart = refl;
  attached = shared-Attached;
}

no_list-IsQueue : IsQueue store no_ends []
no_list-IsQueue = record { chain = nil; end = refl }

push_cb-IsQueue_example :
    Returns (Pushed store mine others (4, 1)) (push_cb (some one_list) 4 store)
push_cb-IsQueue_example = push_cb-IsQueue one_list mine others one_list-IsQueue store-Counted loose

shift_cb-IsQueue_example : Returns (Shifted store 2 1 [] others) (shift_cb one_list store)
shift_cb-IsQueue_example = shift_cb-IsQueue one_list 2 1 [] others one_list-IsQueue store-Counted

destroy_list-Destroyed_example :
    Returns
      (λ r m'. (r ≡ some no_ends) × Destroyed store mine others m')
      (destroy_list (some one_list) store)
destroy_list-Destroyed_example =
    destroy_list-Destroyed one_list mine others one_list-IsQueue store-Counted
