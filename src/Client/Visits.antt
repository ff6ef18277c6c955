-- ===== src/Client/Visits.antt =====
-- The loop of `get_and_call_sub_cb` over the channels of a callback: which channel a confirmation is
-- for, and what is left of the channels.
use crazy_snail.Common.{
  ℕ, suc, ◌≡◌, refl, sym, ap, ◌∙◌, ◌≢◌, ◌⊎◌, Bool, true, false, not, ◌&&◌, ◌||◌, Option, none, some,
  List, [], ◌∷◌, ◌++◌, map, arith, ◌==◌, Bool-cases, inl, inr, if◌then◌else◌, length, get_elem?,
  set,
}
use mathlib.Core.List.{append_assoc}
use crazy_snail.Text.{Bytes, strcmp, is_eq}
use crazy_snail.Memory.{Ptr, null, Channel, Callback, load_callback, put_callback}
use crazy_snail.Client.{Env, Host, Outcome, done}
use crazy_snail.Client.Dispatch.{visit_channel, visit_channels}

-- Is a channel the one that waits for the confirmation of this name?
abbrev pub is_awaited : Bytes → Channel → Bool
is_awaited sname ch =
    not ch.flags.subscribed && (elim ch.name [ none ↦ false | some n ↦ is_eq (strcmp n sname) ])

-- A channel that is subscribed, and is as it was otherwise.
abbrev pub confirmed : Channel → Channel
confirmed ch = record ch { flags = record ch.flags { subscribed = true } }

-- The channels with the first of those confirmed, and whether there is one.
abbrev pub confirm_first : Bytes → List Channel → List Channel
confirm_first sname [] = []
confirm_first sname (ch ∷ chs) =
    if is_awaited sname ch then confirmed ch ∷ chs else ch ∷ confirm_first sname chs

abbrev pub awaits : Bytes → List Channel → Bool
awaits sname [] = false
awaits sname (ch ∷ chs) = is_awaited sname ch || awaits sname chs

abbrev pub all_subscribed : List Channel → Bool
all_subscribed [] = true
all_subscribed (ch ∷ chs) = ch.flags.subscribed && all_subscribed chs

-- A channel that is subscribed, or has a name and is no timer; and all of them.
abbrev pub IsQuiet : Channel → Type 0
IsQuiet ch =
    (ch.flags.subscribed ≡ true)
    ⊎ ((ch.flags.timer_event ≡ false) × (n : Bytes) × (ch.name ≡ some n))

abbrev pub AreQuiet : List Channel → Type 0
AreQuiet [] = Unit {0}
AreQuiet (ch ∷ chs) = IsQuiet ch × AreQuiet chs

-- The rest of the loop, which marks nothing more once it is done.
abbrev pub rest_of : Bool → Bytes → List Channel → List Channel
rest_of true sname chs = chs
rest_of false sname chs = confirm_first sname chs

abbrev visited : Bool → Bytes → Channel → Channel
visited true sname ch = ch
visited false sname ch = if is_awaited sname ch then confirmed ch else ch

rest_of-nil : (d : Bool) (sname : Bytes) → rest_of d sname [] ≡ []
rest_of-nil true sname = refl
rest_of-nil false sname = refl

rest_of-cons :
    (d : Bool) (sname : Bytes) (ch : Channel) (chs : List Channel)
    → rest_of d sname (ch ∷ chs) ≡ visited d sname ch ∷ rest_of (d || is_awaited sname ch) sname chs
rest_of-cons true sname ch chs = refl
rest_of-cons false sname ch chs = elim (Bool-cases (is_awaited sname ch)) [
  | inl e ↦ rw e refl
  | inr e ↦ rw e refl
]

module _ {ℓ} {A : Type ℓ} where
  get_elem-append :
      (xs : List A) (y : A) (ys : List A) → get_elem? (xs ++ y ∷ ys) (length xs) ≡ some y
  get_elem-append [] y ys = refl
  get_elem-append (x ∷ xs) y ys = get_elem-append xs y ys

  set-append :
      (xs : List A) (y z : A) (ys : List A) → set (xs ++ y ∷ ys) (length xs) z ≡ xs ++ z ∷ ys
  set-append [] y z ys = refl
  set-append (x ∷ xs) y z ys = ap (λ l. x ∷ l) (set-append xs y z ys)

  length-snoc : (xs : List A) (y : A) → length (xs ++ y ∷ []) ≡ suc (length xs)
  length-snoc [] y = refl
  length-snoc (x ∷ xs) y = ap suc (length-snoc xs y)

-- Nothing has changed but the callback at `p`.
pub record Changed {R : Type 0} (e : Env R) (p : Ptr) (k : Callback) (e' : Env R) : Type 0 where
  pub there : e'.memory.callback p ≡ some k
  pub others : (q : Ptr) → q ≢ p → e'.memory.callback q ≡ e.memory.callback q
  pub wrapper : e'.memory.wrapper ≡ e.memory.wrapper
  pub client : e'.client ≡ e.client
  pub log : e'.log ≡ e.log

module _ (H : Host) (sname : Bytes) where
  visit_channel-visited :
      (d : Bool) (ch : Channel) (e : Env H.Reader)
      → IsQuiet ch
      → visit_channel H sname d ch e ≡ done (visited d sname ch, d || is_awaited sname ch) e
  unfolding visit_channel
  visit_channel-visited true ch e (inl s) = ground arith
  visit_channel-visited true ch e (inr (t, n, named)) = ground arith
  visit_channel-visited false ch e (inl s) = ground arith
  visit_channel-visited false ch e (inr (t, n, named)) = ground arith

  -- A callback written back.
  abbrev pub written : Env H.Reader → Ptr → Callback → Env H.Reader
  written e p k = record e {
    memory = record e.memory { callback = λ a. if a == p then some k else e.memory.callback a };
  }

  visit_step :
      (n i : ℕ) (p : Ptr) (d all : Bool) (e : Env H.Reader) (k : Callback) (ch : Channel)
      → p ≢ null
      → e.memory.callback p ≡ some k
      → get_elem? k.channels i ≡ some (some ch)
      → IsQuiet ch
      → visit_channels H (suc n) i p sname d all e
        ≡ visit_channels H n
            (suc i)
            p
            sname
            (d || is_awaited sname ch)
            (all && (visited d sname ch).flags.subscribed)
            (written e p (record k { channels = set k.channels i (some (visited d sname ch)) }))
  unfolding visit_channels load_callback put_callback
  visit_step n i p d all e k ch ne there at quiet =
      ground (arith, visit_channel-visited d ch e quiet)

  abbrev ends : Bool → Bool → Env H.Reader → Outcome H.Reader (Bool × Bool)
  ends a b e = done (a, b) e

  done_both : {a a' b b' : Bool} {e : Env H.Reader} → a ≡ a' → b ≡ b' → ends a b e ≡ ends a' b' e
  done_both ea eb = cc

  pub or_false : (d : Bool) → (d || false) ≡ d
  or_false true = refl
  or_false false = refl

  or_assoc : (a b c : Bool) → ((a || b) || c) ≡ (a || (b || c))
  or_assoc true b c = refl
  or_assoc false b c = refl

  nothing_left : (d all : Bool) → all ≡ (all && all_subscribed (rest_of d sname []))
  nothing_left true true = refl
  nothing_left true false = refl
  nothing_left false true = refl
  nothing_left false false = refl

  and_assoc : (a b c : Bool) → ((a && b) && c) ≡ (a && (b && c))
  and_assoc true b c = refl
  and_assoc false b c = refl

  all_rest :
      (d all : Bool) (ch : Channel) (chs : List Channel)
      → ((all && (visited d sname ch).flags.subscribed)
          && all_subscribed (rest_of (d || is_awaited sname ch) sname chs))
        ≡ (all && all_subscribed (rest_of d sname (ch ∷ chs)))
  all_rest d all ch chs =
      and_assoc all _ _ ∙ ap (λ l. all && all_subscribed l) (sym (rest_of-cons d sname ch chs))

  pub visit_rest :
      (chs : List Channel) (front : List (Option Channel)) (p : Ptr) (d all : Bool)
      (e : Env H.Reader) (k : Callback)
      → p ≢ null
      → e.memory.callback p ≡ some k
      → k.channels ≡ front ++ map some chs
      → AreQuiet chs
      → (e' : Env H.Reader) × (visit_channels H (length chs) (length front) p sname d all e
          ≡ done (d || awaits sname chs, all && all_subscribed (rest_of d sname chs)) e')
        × Changed e p (record k { channels = front ++ map some (rest_of d sname chs) }) e'
  unfolding visit_channels
  visit_rest [] front p d all e k ne there is quiet = (
    e,
    done_both (sym (or_false d)) (nothing_left d all),
    record {
      there =
          there
          ∙ ap some (
              ap (λ l. record k { channels = l })
                (is ∙ ap (λ l. front ++ map some l) (sym (rest_of-nil d sname))));
      others = λ q ne'. refl;
      wrapper = refl;
      client = refl;
      log = refl;
    },
  )
  visit_rest (ch ∷ chs) front p d all e k ne there is (q, quiet) =
      let v : Channel = visited d sname ch in
      let k1 : Callback = record k { channels = set k.channels (length front) (some v) } in
      let at : get_elem? k.channels (length front) ≡ some (some ch) =
        ap (λ l. get_elem? l (length front)) is ∙ get_elem-append front (some ch) (map some chs) in
      let put_back : set k.channels (length front) (some v)
          ≡ (front ++ some v ∷ []) ++ map some chs =
        ap (λ l. set l (length front) (some v)) is
        ∙ set-append front (some ch) (some v) (map some chs)
        ∙ sym (append_assoc front (some v ∷ []) (map some chs)) in
      let (e', run, c) =
        visit_rest chs (front ++ some v ∷ []) p (d || is_awaited sname ch)
          (all && v.flags.subscribed) (written e p k1) k1 ne (ground arith) put_back quiet in
      (
        e',
        visit_step (length chs) (length front) p d all e k ch ne there at q
            ∙ ap
                (λ i.
                  visit_channels H (length chs) i p sname (d || is_awaited sname ch)
                    (all && v.flags.subscribed) (written e p k1))
                (sym (length-snoc front (some v)))
            ∙ run
            ∙ done_both (or_assoc d (is_awaited sname ch) (awaits sname chs))
                (all_rest d all ch chs),
        record {
          there =
              c.there
              ∙ ap some (
                  ap (λ l. record k { channels = l })
                    (append_assoc front (some v ∷ [])
                        (map some (rest_of (d || is_awaited sname ch) sname chs))
                      ∙ ap (λ l. front ++ map some l) (sym (rest_of-cons d sname ch chs))));
          others = λ a apart. c.others a apart ∙ ground arith;
          wrapper = c.wrapper;
          client = c.client;
          log = c.log;
        },
      )
