-- ===== src/Client/Keys.antt =====
-- The keys that `lua_client_subscribe` of src/crazysnail.c makes, and where they are read.
use crazy_snail.Common.{
  ℕ, zero, suc, ◌↔◌, ◌⊎◌, List, map, get_elem?, Ordering, ◌^◌, ◌%◌, ◌≡◌, refl, sym, ap, ◌∙◌, ◌<◌,
  ◌≢◌, Bool, true, false, ◌||◌, some, [], ◌∷◌, ◌++◌, arith, length, drop, if◌then◌else◌, Bool-cases,
  inl, inr, pos,
}
use crazy_snail.Text.{Bytes, c_str, strlen, strncmp, strcmp, is_eq}
use crazy_snail.Text.Compare.{strcmp_eq, strcmp_same}
use crazy_snail.Text.Decimal.{print_decimal, strtol}
use crazy_snail.Text.Numbers.{strtol-print_decimal}
use crazy_snail.Text.Width.{snprintf_decimal-whole}
use crazy_snail.Memory.{malloc, null}
use crazy_snail.Reply.{key_event, key_space, timer_event, strip_prefix}
use crazy_snail.Client.{Env, Host, done}
use crazy_snail.Client.Command.{Collected, number, string, collect_key}
use crazy_snail.Client.Subscribe.{events, is_event, starts_with, prefix_key, rewrite_key, new_key}

strip-event : (s : Bytes) → strip_prefix (key_event ++ s) ≡ s
unfolding strip_prefix strncmp strlen c_str
strip-event s = refl

strip-space : (s : Bytes) → strip_prefix (key_space ++ s) ≡ s
unfolding strip_prefix strncmp strlen c_str
strip-space s = refl

-- Does a key have one of the prefixes?
abbrev pub is_prefixed : Bytes → Bool
is_prefixed key =
    starts_with key_space key || (starts_with key_event key || starts_with timer_event key)

event_prefixed : (s : Bytes) → is_prefixed (key_event ++ s) ≡ true
unfolding strncmp strlen c_str
event_prefixed s = refl

space_prefixed : (s : Bytes) → is_prefixed (key_space ++ s) ≡ true
unfolding strncmp strlen c_str
space_prefixed s = refl

event_starts : (s : Bytes) → starts_with key_event (key_event ++ s) ≡ true
unfolding strncmp strlen c_str
event_starts s = refl

space_is_no_event : (s : Bytes) → starts_with key_event (key_space ++ s) ≡ false
unfolding strncmp strlen c_str
space_is_no_event s = refl

prefix_key-kept : (key : Bytes) → is_prefixed key ≡ true → prefix_key key ≡ key
unfolding prefix_key
prefix_key-kept key h = rw (prefix_key, h) refl

prefix_key-new :
    (key : Bytes)
    → is_prefixed key ≡ false
    → prefix_key key ≡ (if is_event events key then key_event else key_space) ++ c_str key
unfolding prefix_key
prefix_key-new key h = rw (prefix_key, h) refl

is_eq_found : {o : Ordering} → is_eq o ≡ true → o ≡ Ordering.eq
is_eq_found {o = Ordering.lt} e = absurd (ground arith)
is_eq_found {o = Ordering.eq} e = refl
is_eq_found {o = Ordering.gt} e = absurd (ground arith)

-- The search finds exactly the strings of the list.
is_event_found :
    (es : List Bytes) (key : Bytes)
    → is_event es key ≡ true
    → (i : ℕ) × (get_elem? (map c_str es) i ≡ some (c_str key))
unfolding is_event
is_event_found [] key e = absurd (ground arith)
is_event_found (x ∷ es) key e = elim (Bool-cases (is_eq (strcmp x key))) [
  | inl here ↦ (0, ap some (strcmp_eq x key (is_eq_found here)))
  | inr other ↦ let (i, at) = is_event_found es key (ground arith) in (suc i, at)
]

is_event_listed :
    (es : List Bytes) (key : Bytes) (i : ℕ)
    → get_elem? (map c_str es) i ≡ some (c_str key)
    → is_event es key ≡ true
unfolding is_event
is_event_listed [] key zero at = absurd (ground arith)
is_event_listed [] key (suc i) at = absurd (ground arith)
is_event_listed (x ∷ es) key zero at = ground (arith, strcmp_same x key (cc at))
is_event_listed (x ∷ es) key (suc i) at = ground (arith, is_event_listed es key i at)

-- No name of an event has a terminator inside.
events_whole : map c_str events ≡ events
unfolding c_str
events_whole = refl

is_event_iff :
    (key : Bytes)
    → (is_event events key ≡ true) ↔ ((i : ℕ) × (get_elem? events i ≡ some (c_str key)))
is_event_iff key = (
  λ e.
      let (i, at) = is_event_found events key e in
      (i, ap (λ es. get_elem? es i) (sym events_whole) ∙ at),
  λ (i, at). is_event_listed events key i (ap (λ es. get_elem? es i) events_whole ∙ at),
)

prefix_key-event :
    (key : Bytes)
    → is_prefixed key ≡ false
    → is_event events key ≡ true
    → prefix_key key ≡ key_event ++ c_str key
prefix_key-event key bare e =
    prefix_key-new key bare ∙ ap (λ b. (if b then key_event else key_space) ++ c_str key) e

prefix_key-space :
    (key : Bytes)
    → is_prefixed key ≡ false
    → is_event events key ≡ false
    → prefix_key key ≡ key_space ++ c_str key
prefix_key-space key bare e =
    prefix_key-new key bare ∙ ap (λ b. (if b then key_event else key_space) ++ c_str key) e

prefix_key-is_event :
    (key : Bytes)
    → is_prefixed key ≡ false
    → prefix_key key ≡ key_event ++ c_str key
    → is_event events key ≡ true
prefix_key-is_event key bare new = elim (Bool-cases (is_event events key)) [
  | inl e ↦ e
  | inr e ↦
      let same : starts_with key_event (prefix_key key) ≡ true =
        ap (starts_with key_event) new ∙ event_starts (c_str key) in
      let other : starts_with key_event (prefix_key key) ≡ false =
        ap (starts_with key_event) (prefix_key-space key bare e) ∙ space_is_no_event (c_str key) in
      absurd (ground (arith, same, other))
]

-- A key without a prefix gets one that a notification loses again; a second subscription does not
-- prefix it twice; and the prefix is that of events if the key is one of the names in `events`, and
-- only then, and that of keys otherwise.
pub prefix_key-strip_prefix :
    (key : Bytes)
    → is_prefixed key ≡ false
    → (strip_prefix (prefix_key key) ≡ c_str key)
      × (prefix_key (prefix_key key) ≡ prefix_key key)
      × ((prefix_key key ≡ key_event ++ c_str key)
          ↔ ((i : ℕ) × (get_elem? events i ≡ some (c_str key))))
      × ((prefix_key key ≡ key_event ++ c_str key) ⊎ (prefix_key key ≡ key_space ++ c_str key))
prefix_key-strip_prefix key bare =
    let named = is_event_iff key in
    let third : (prefix_key key ≡ key_event ++ c_str key)
        ↔ ((i : ℕ) × (get_elem? events i ≡ some (c_str key))) =
      (
        λ new. named.0 (prefix_key-is_event key bare new),
        λ at. prefix_key-event key bare (named.1 at),
      ) in
    elim (Bool-cases (is_event events key)) [
      | inl e ↦
          let new = prefix_key-event key bare e in
          (
            ap strip_prefix new ∙ strip-event (c_str key),
            ap prefix_key new
                ∙ prefix_key-kept (key_event ++ c_str key) (event_prefixed (c_str key))
                ∙ sym new,
            third,
            inl new,
          )
      | inr e ↦
          let new = prefix_key-space key bare e in
          (
            ap strip_prefix new ∙ strip-space (c_str key),
            ap prefix_key new
                ∙ prefix_key-kept (key_space ++ c_str key) (space_prefixed (c_str key))
                ∙ sym new,
            third,
            inr new,
          )
    ]

timer_starts : (s : Bytes) → starts_with timer_event (timer_event ++ s) ≡ true
unfolding strncmp strlen c_str
timer_starts s = refl

module _ (H : Host) where
  collect_timer :
      (c : Collected) (s : Bytes) (e : Env H.Reader)
      → length c.timers < 100
      → collect_key H c (some (timer_event ++ s)) e
        ≡ done (record c { timers = c.timers ++ (timer_event ++ s) ∷ [] }) e
  unfolding collect_key
  collect_timer c s e room = ground (arith, timer_starts s)

  rewrite_number :
      (n : ℕ) (e : Env H.Reader)
      → n < 2 ^ 31
      → e.memory.next ≢ null
      → ((p : ℕ) → e.memory.oom p ≡ false)
      → rewrite_key H (number (pos n)) e
        ≡ done
            (string (timer_event ++ print_decimal n))
            (record e { memory = record e.memory { next = suc (suc e.memory.next) } })
  unfolding rewrite_key new_key malloc
  rewrite_number n e small ne some_room =
      let int : n % 2 ^ 32 ≡ n = omega arith in
      ground (
        arith,
        int,
        snprintf_decimal-whole n,
        some_room e.memory.next,
        some_room (suc e.memory.next),
      )

  -- A number below 2 ^ 31 that is subscribed to becomes a key that the command takes for a timer, while
  -- there is room for timers, and from which it reads the number again, if the two blocks for the key
  -- are granted.
  pub rewrite_key-number :
      (n : ℕ) (e : Env H.Reader) (c : Collected)
      → n < 2 ^ 31
      → e.memory.next ≢ null
      → ((p : ℕ) → e.memory.oom p ≡ false)
      → length c.timers < 100
      → (key : Bytes) × (e' : Env H.Reader) × (rewrite_key H (number (pos n)) e
          ≡ done (string key) e')
        × (collect_key H c (some key) e' ≡ done (record c { timers = c.timers ++ key ∷ [] }) e')
        × (strtol (drop (length timer_event) key) ≡ n)
  rewrite_key-number n e c small ne some_room few = (
    timer_event ++ print_decimal n,
    record e { memory = record e.memory { next = suc (suc e.memory.next) } },
    rewrite_number n e small ne some_room,
    collect_timer c (print_decimal n) _ few,
    strtol-print_decimal n (omega arith),
  )
