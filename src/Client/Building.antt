-- ===== src/Client/Building.antt =====
-- The callback that a subscription of src/crazysnail.c is building, channel by channel.
use crazy_snail.Common.{
  ℕ, suc, ◌≡◌, refl, sym, ap, ◌∙◌, ◌≢◌, ◌<◌, false, none, some, List, [], ◌∷◌, ◌++◌, arith, ◌==◌,
  subst, Bool-cases, inl, inr, length, set, get_elem?, get_elem?-set, get_elem?-set_other,
  get_elem?-snoc, get_elem?-some, length-set, ==_iff,
}
use crazy_snail.Text.{Bytes, c_str}
use crazy_snail.Memory.{
  Ptr, null, Channel, Callback, Memory, ok, update, malloc, strdup, put_callback, load_callback,
}
use crazy_snail.Callback.{create_channel, snail_ok, no_flags}
use crazy_snail.Queue.Cells.{Cells, count, AttachedBy, CountedBy, Whole, gained}
use crazy_snail.Client.{Env, Host, done}
use crazy_snail.Client.Command.{set_channel}

-- The channels `chs` are there, in order, and room for all others.
pub record Partial (chs : List Channel) (total : ℕ) (k : Callback) : Type 0 where
  pub number : k.nb_channel ≡ total
  pub room : length k.channels ≡ total
  pub channels :
      (j : ℕ) (ch : Channel) → get_elem? chs j ≡ some ch → get_elem? k.channels j ≡ some (some ch)

-- The callback `p` has the channels `chs`, and the others are whole.
abbrev pub Building : Ptr → List Channel → ℕ → Ptr → Callback → Type 0
Building p chs total c k = ((c ≢ p) → Whole k) × ((c ≡ p) → Partial chs total k)

pub Building-gained :
    (p : Ptr) (chs : List Channel) (total : ℕ) (c : Ptr) (k : Callback)
    → Building p chs total c k
    → Building p chs total c (gained k)
Building-gained p chs total c k (whole, part) = (
  whole,
  λ e. record { number = (part e).number; room = (part e).room; channels = (part e).channels },
)

-- With all its channels it is whole.
pub Partial-Whole : (chs : List Channel) (k : Callback) → Partial chs (length chs) k → Whole k
Partial-Whole chs k part j h =
    let (ch, e) = get_elem?-some chs j (omega (arith, part.number)) in (ch, part.channels j ch e)

pub Building-Whole :
    (p : Ptr) (chs : List Channel) (c : Ptr) (k : Callback)
    → Building p chs (length chs) c k
    → Whole k
Building-Whole p chs c k (whole, part) = elim (Bool-cases (c == p)) [
  | inl e ↦ Partial-Whole chs k (part ((==_iff c p).0 e))
  | inr e ↦ whole (λ s. ground arith)
]

-- One more channel.
abbrev pub with_channel : Callback → ℕ → Channel → Callback
with_channel k i ch = record k { channels = set k.channels i (some ch) }

Partial-snoc :
    (chs : List Channel) (ch : Channel) (total : ℕ) (k : Callback)
    → length chs < total
    → Partial chs total k
    → Partial (chs ++ ch ∷ []) total (with_channel k (length chs) ch)
Partial-snoc chs ch total k h part = record {
  number = part.number;
  room = length-set k.channels (length chs) (some ch) ∙ part.room;
  channels = λ j b e. elim (get_elem?-snoc chs ch b j e) [
    | inl (f, below) ↦
        get_elem?-set_other k.channels (length chs) j (some ch) (λ s. ground arith)
        ∙ part.channels j b f
    | inr (s, t) ↦
        rw (s, t) (get_elem?-set k.channels (length chs) (some ch) (omega (arith, part.room)))
  ];
}

module _ (p : Ptr) (chs : List Channel) (ch : Channel) (total : ℕ) {m m' : Memory} where
  pub Attached-channel :
      {n : ℕ}
      → length chs < total
      → (att : AttachedBy (Building p chs total) m p n)
      → m'.callback ≡ update m.callback p (some (with_channel att.at (length chs) ch))
      → AttachedBy (Building p (chs ++ ch ∷ []) total) m' p n
  Attached-channel h att e = record {
    at = with_channel att.at (length chs) ch;
    there = ap (λ f. f p) e ∙ ground arith;
    attached = att.attached;
    whole = ((λ ne. absurd (ne refl)), λ s. Partial-snoc chs ch total att.at h (att.whole.1 refl));
    ne_null = att.ne_null;
  }

  pub Counted-channel :
      (xs : Cells)
      → length chs < total
      → (att : AttachedBy (Building p chs total) m p (count p xs))
      → m'.callback ≡ update m.callback p (some (with_channel att.at (length chs) ch))
      → CountedBy (Building p chs total) m xs
      → CountedBy (Building p (chs ++ ch ∷ []) total) m' xs
  Counted-channel xs h att e all c some_cells = elim (Bool-cases (c == p)) [
    | inl same ↦
        subst (λ x. AttachedBy (Building p (chs ++ ch ∷ []) total) m' x (count x xs))
          (sym ((==_iff c p).0 same)) (Attached-channel h att e)
    | inr other ↦
        let old = all c some_cells in
        let ne : c ≢ p = λ s. ground arith in
        record {
          at = old.at;
          there = ap (λ f. f c) e ∙ rw other old.there;
          attached = old.attached;
          whole = ((λ _. old.whole.0 ne), λ s. absurd (ne s));
          ne_null = old.ne_null;
        }
  ]

abbrev pub new_channel : Bytes → Channel
new_channel name = record { name = some (c_str name); ikey = 0; flags = no_flags }

pub create_channel-ok :
    (m : Memory) (name : Bytes)
    → m.next ≢ null
    → ((a : Ptr) → m.oom a ≡ false)
    → create_channel none name m
      ≡ ok (snail_ok, some (new_channel name)) (record m { next = suc (suc m.next) })
unfolding create_channel malloc strdup
create_channel-ok m name ne room = ground (arith, room m.next, room (suc m.next))

pub set_channel-ok :
    (H : Host) (e : Env H.Reader) (p : Ptr) (i : ℕ) (ch : Channel) (k : Callback)
    → p ≢ null
    → e.memory.callback p ≡ some k
    → set_channel H p i (some ch) e
      ≡ done tt (record e {
        memory = record e.memory {
          callback = update e.memory.callback p (some (with_channel k i ch));
        };
      })
unfolding set_channel load_callback put_callback
set_channel-ok H e p i ch k ne there = ground arith
