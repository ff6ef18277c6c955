-- ===== src/Memory/Access.antt =====
-- Reads through a pointer that leads somewhere.
use crazy_snail.Common.{◌≡◌, refl, ap, ◌≢◌, some, arith}
use crazy_snail.Memory.{
  Ptr, null, Callback, Wrapper, Memory, Run, ok, fault, abort, out_of_fuel, and_then, load_callback,
  load_wrapper,
}

pub load_wrapper-ok :
    {p : Ptr} {w : Wrapper} {m : Memory}
    → p ≢ null
    → m.wrapper p ≡ some w
    → load_wrapper p m ≡ ok w m
unfolding load_wrapper
load_wrapper-ok ne e = ground arith

pub load_callback-ok :
    {p : Ptr} {k : Callback} {m : Memory}
    → p ≢ null
    → m.callback p ≡ some k
    → load_callback p m ≡ ok k m
unfolding load_callback
load_callback-ok ne e = ground arith

-- A command that goes on with a value alone.
pub and_then-map {ℓ} :
    {A : Type ℓ} (r : Run A) (f : A → A) → ((a : A) → f a ≡ a) → and_then r (λ a. ok (f a)) ≡ r
and_then-map (ok a m) f h = ap (λ x. ok x m) (h a)
and_then-map fault f h = refl
and_then-map abort f h = refl
and_then-map out_of_fuel f h = refl

pub and_then-map-map {ℓ} :
    {A : Type ℓ} (r : Run A) (f g k : A → A)
    → ((a : A) → g (f a) ≡ k a)
    → and_then (and_then r (λ a. ok (f a))) (λ a. ok (g a)) ≡ and_then r (λ a. ok (k a))
and_then-map-map (ok a m) f g k h = ap (λ x. ok x m) (h a)
and_then-map-map fault f g k h = refl
and_then-map-map abort f g k h = refl
and_then-map-map out_of_fuel f g k h = refl
