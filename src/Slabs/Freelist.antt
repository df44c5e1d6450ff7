-- ===== src/Slabs/Freelist.antt =====
-- A class's free list: the chunks from `slots` on, linked both ways, all marked as slabbed.
use mathlib.Core.Path.{subst, subst₂}
use analysis_memcached.Prelude.{
  ap, ◌∙◌, ℕ, ◌+◌, ◌-◌, ◌≡◌, ◌≢◌, refl, sym, true, false, List, [], ◌∷◌, length, arith, Fresh,
  Distinct,
}
use analysis_memcached.Prelude.Memory.{update}
use analysis_memcached.Item.{Item, Mem, set_prev, only_slabbed}
use analysis_memcached.Item.Links.{Linked, push_front, pop_front}
use analysis_memcached.Slabs.{Slabs, push_free, pop_free}

abbrev pub AllSlabbed : Mem → List ℕ → Type 0
AllSlabbed m [] = Unit
AllSlabbed m (x ∷ xs) = ((m x).it_flags.slabbed ≡ true) × AllSlabbed m xs

pub record IsFreelist (s : Slabs) (id : ℕ) (xs : List ℕ) : Type 0 where
  pub links : Linked s.mem 0 (s.class id).slots xs
  pub slabbed : AllSlabbed s.mem xs
  pub distinct : Distinct xs
  pub counted : (s.class id).sl_curr ≡ length xs

-- Memories with the same slabbed bits on a list.
abbrev SameBits : Mem → Mem → List ℕ → Type 0
SameBits m m' [] = Unit
SameBits m m' (x ∷ xs) = ((m' x).it_flags.slabbed ≡ (m x).it_flags.slabbed) × SameBits m m' xs

AllSlabbed-SameBits :
    (m m' : Mem) (xs : List ℕ) → SameBits m m' xs → AllSlabbed m xs → AllSlabbed m' xs
AllSlabbed-SameBits m m' [] s h = tt
AllSlabbed-SameBits m m' (x ∷ xs) s h = ground (arith, AllSlabbed-SameBits m m' xs s.1 h.1)

stores-SameBits :
    (m : Mem) (it p q : ℕ) (c : Item) (xs : List ℕ)
    → Fresh it xs
    → SameBits m (set_prev (update m it c) p q) xs
stores-SameBits m it p q c [] f = tt
stores-SameBits m it p q c (x ∷ xs) f = ground (arith, stores-SameBits m it p q c xs f.1)

stores_after-SameBits :
    (m : Mem) (it p q : ℕ) (c : Item) (xs : List ℕ)
    → Fresh it xs
    → SameBits m (update (set_prev m p q) it c) xs
stores_after-SameBits m it p q c [] f = tt
stores_after-SameBits m it p q c (x ∷ xs) f =
    ground (arith, stores_after-SameBits m it p q c xs f.1)

module _ (s : Slabs) (id size : ℕ) where
  -- The chunk as it is linked in.
  abbrev freed : ℕ → Item
  freed it = record (s.mem it) {
    it_flags = only_slabbed;
    slabs_clsid = 0;
    prev = 0;
    next = (s.class id).slots;
  }

  push_class :
      (it : ℕ)
      → let p = (push_free s it id size).class id in
        (p.slots ≡ it) × (p.sl_curr ≡ (s.class id).sl_curr + 1)
  unfolding push_free
  push_class it = ground arith

  push_bit : (it : ℕ) → it ≢ 0 → ((push_free s it id size).mem it).it_flags.slabbed ≡ true
  unfolding push_free
  push_bit it z = ground arith

  -- A chunk that is freed becomes the head of its class's free list.
  pub push_free-IsFreelist :
      (it : ℕ) (xs : List ℕ)
      → it ≢ 0
      → Fresh it xs
      → IsFreelist s id xs
      → IsFreelist (push_free s it id size) id (it ∷ xs)
  unfolding push_free
  push_free-IsFreelist it xs z f v =
      let old = (s.class id).slots in
      let c = freed it in
      let linked = push_front s.mem 0 old it c xs refl refl z f v.distinct v.links in
      let m = set_prev (update s.mem it c) old it in
      record {
        links = subst (λ q. Linked m 0 q (it ∷ xs)) (sym (push_class it).0) linked;
        slabbed = (
          push_bit it z,
          AllSlabbed-SameBits s.mem m xs (stores-SameBits s.mem it old it c xs f) v.slabbed,
        );
        distinct = (f, v.distinct);
        counted = (push_class it).1 ∙ ground (arith, v.counted);
      }

  pop_class :
      let (t, p) = pop_free s id size in
      ((t.class id).slots ≡ (s.mem (s.class id).slots).next)
      × ((t.class id).sl_curr ≡ (s.class id).sl_curr - 1)
      × (p ≡ (s.class id).slots)
      × ((t.mem p).it_flags.slabbed ≡ false)
      × ((t.mem p).refcount ≡ 1)
  unfolding pop_free
  pop_class = ground arith

  -- The head of the free list, as it is handed out.
  taken : ℕ → Item
  taken it =
      let c = set_prev s.mem (s.mem it).next 0 it in
      record c { it_flags = record (c.it_flags) { slabbed = false }; refcount = 1 }

  pop_mem :
      (it : ℕ)
      → (s.class id).slots ≡ it
      → (pop_free s id size).0.mem ≡ update (set_prev s.mem (s.mem it).next 0) it (taken it)
  unfolding pop_free taken
  pop_mem it e = rw (← e)

  -- An allocation from a free list hands out its head, no longer slabbed and with one reference,
  -- and leaves the rest as the free list.
  pub pop_free-IsFreelist :
      (it : ℕ) (xs : List ℕ)
      → IsFreelist s id (it ∷ xs)
      → let (t, p) = pop_free s id size in
        (p ≡ it)
        × IsFreelist t id xs
        × ((t.mem p).it_flags.slabbed ≡ false)
        × ((t.mem p).refcount ≡ 1)
  pop_free-IsFreelist it xs v =
      let m = update (set_prev s.mem (s.mem it).next 0) it (taken it) in
      let e = pop_mem it v.links.0 in
      let here = pop_class in
      let linked = pop_front s.mem 0 (s.class id).slots it (taken it) xs v.distinct v.links in
      let bits =
        AllSlabbed-SameBits s.mem m xs
          (stores_after-SameBits s.mem it (s.mem it).next 0 (taken it) xs v.distinct.0)
          v.slabbed.1 in
      (
        here.2 ∙ v.links.0,
        record {
          links =
              subst₂ (λ q r. Linked q 0 r xs) (sym e)
                (sym (here.0 ∙ ap (λ q. (s.mem q).next) v.links.0)) linked;
          slabbed = subst (λ q. AllSlabbed q xs) (sym e) bits;
          distinct = v.distinct.1;
          counted = here.1 ∙ ground (arith, v.counted);
        },
        here.3,
        here.4,
      )
