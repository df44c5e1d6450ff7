-- ===== src/Items/Heap.antt =====
-- The memory of the cache as a whole: the items on the LRU queues and the chunks on the free lists.
-- A queued item carries the number of its queue, a free chunk the number 0, so that no address is
-- on two lists.
pub mod Free
pub mod Keep
pub mod Life
pub mod Release
pub mod Steps
mod Tests
use mathlib.Core.Path.{subst, subst₂}
use analysis_memcached.Prelude.{
  ℕ, ◌+◌, ◌%◌, ◌^◌, ◌≤◌, ◌≡◌, ◌≢◌, ◌⊎◌, inl, inr, refl, sym, ap, ◌∙◌, Bool, true, false, List, [],
  ◌∷◌, ◌++◌, ◌==◌, if◌then◌else◌, if_elim, arith, Fresh, Distinct, Bool-cases,
}
use analysis_memcached.Prelude.Memory.{update}
use analysis_memcached.Item.{Item, Mem, item_ntotal, set_prev}
use analysis_memcached.Item.Links.{Linked, SameLinks, Linked-SameLinks}
use analysis_memcached.Item.Bypass.{Linked-Fresh, first}
use analysis_memcached.Slabs.{Slabs, SlabClass, push_free, pop_free}
use analysis_memcached.Slabs.Freelist.{
  IsFreelist, AllSlabbed, push_free-IsFreelist, pop_free-IsFreelist,
}
use analysis_memcached.Items.{World, item_at, with_mem}
use analysis_memcached.Items.Queues.{Home, IsQueue, total}
use analysis_memcached.Items.Order.{Queues}

-- Memories that agree on the items of a list.
abbrev pub AgreeOn : Mem → Mem → List ℕ → Type 0
AgreeOn m m' [] = Unit
AgreeOn m m' (x ∷ xs) = (m' x ≡ m x) × AgreeOn m m' xs

-- All chunks of a list carry the class number 0.
abbrev pub AllZero : Mem → List ℕ → Type 0
AllZero m [] = Unit
AllZero m (x ∷ xs) = ((m x).slabs_clsid ≡ 0) × AllZero m xs

-- No chunk of the first list is on the second.
abbrev pub AllFresh : List ℕ → List ℕ → Type 0
AllFresh [] ys = Unit
AllFresh (x ∷ xs) ys = Fresh x ys × AllFresh xs ys

pub record Heap (w : World) (q f : ℕ → List ℕ) : Type 0 where
  pub queues : Queues w q
  pub no_home : q 0 ≡ []
  pub frees : (id : ℕ) → IsFreelist w.slabs id (f id)
  pub zeroed : (id : ℕ) → AllZero w.slabs.mem (f id)
  pub apart : (i j : ℕ) → i ≢ j → AllFresh (f i) (f j)

AgreeOn-links : (m m' : Mem) (xs : List ℕ) → AgreeOn m m' xs → SameLinks m m' xs
AgreeOn-links m m' [] a = tt
AgreeOn-links m m' (x ∷ xs) a =
    (ap (λ (c : Item). c.next) a.0, ap (λ (c : Item). c.prev) a.0, AgreeOn-links m m' xs a.1)

AgreeOn-slabbed : (m m' : Mem) (xs : List ℕ) → AgreeOn m m' xs → AllSlabbed m xs → AllSlabbed m' xs
AgreeOn-slabbed m m' [] a h = tt
AgreeOn-slabbed m m' (x ∷ xs) a h =
    (ap (λ (c : Item). c.it_flags.slabbed) a.0 ∙ h.0, AgreeOn-slabbed m m' xs a.1 h.1)

pub AgreeOn-zero : (m m' : Mem) (xs : List ℕ) → AgreeOn m m' xs → AllZero m xs → AllZero m' xs
AgreeOn-zero m m' [] a h = tt
AgreeOn-zero m m' (x ∷ xs) a h =
    (ap (λ (c : Item). c.slabs_clsid) a.0 ∙ h.0, AgreeOn-zero m m' xs a.1 h.1)

AgreeOn-home : (m m' : Mem) (id : ℕ) (xs : List ℕ) → AgreeOn m m' xs → Home m id xs → Home m' id xs
AgreeOn-home m m' id [] a h = tt
AgreeOn-home m m' id (x ∷ xs) a h =
    (ap (λ (c : Item). c.slabs_clsid) a.0 ∙ h.0, AgreeOn-home m m' id xs a.1 h.1)

AgreeOn-total : (m m' : Mem) (xs : List ℕ) → AgreeOn m m' xs → total m' xs ≡ total m xs
AgreeOn-total m m' [] a = refl
AgreeOn-total m m' (x ∷ xs) a =
    omega (arith, ap (λ (c : Item). item_ntotal c) a.0, AgreeOn-total m m' xs a.1)

-- A free list whose chunks and whose class record are as they were.
pub agree-IsFreelist :
    (s s' : Slabs) (id : ℕ) (xs : List ℕ)
    → AgreeOn s.mem s'.mem xs
    → s'.class id ≡ s.class id
    → IsFreelist s id xs
    → IsFreelist s' id xs
agree-IsFreelist s s' id xs a e v = record {
  links =
      subst (λ p. Linked s'.mem 0 p xs) (ap (λ (p : SlabClass). p.slots) (sym e))
        (Linked-SameLinks s.mem s'.mem 0 (s.class id).slots xs (AgreeOn-links s.mem s'.mem xs a)
          v.links);
  slabbed = AgreeOn-slabbed s.mem s'.mem xs a v.slabbed;
  distinct = v.distinct;
  counted = ap (λ (p : SlabClass). p.sl_curr) e ∙ v.counted;
}

-- A queue whose items are as they were, in a world that changed only its slabs.
pub agree-IsQueue :
    (w : World) (s : Slabs) (id : ℕ) (xs : List ℕ)
    → AgreeOn w.slabs.mem s.mem xs
    → IsQueue w id xs
    → IsQueue (record w { slabs = s }) id xs
agree-IsQueue w s id xs a v = record {
  links =
      Linked-SameLinks w.slabs.mem s.mem 0 (w.heads id) xs (AgreeOn-links w.slabs.mem s.mem xs a)
        v.links;
  tail = v.tail;
  distinct = v.distinct;
  home = AgreeOn-home w.slabs.mem s.mem id xs a v.home;
  counted = v.counted;
  weighed = v.weighed ∙ ap (λ n. n % 2 ^ 64) (sym (AgreeOn-total w.slabs.mem s.mem xs a));
}

-- Memories that agree but at two addresses agree on a list with neither.
pub agree :
    (m m' : Mem) (p h : ℕ) (xs : List ℕ)
    → ((a : ℕ) → a ≢ p → a ≢ h → m' a ≡ m a)
    → Fresh p xs
    → Fresh h xs
    → AgreeOn m m' xs
agree m m' p h [] same f g = tt
agree m m' p h (x ∷ xs) same f g =
    (same x (λ e. f.0 (sym e)) (λ e. g.0 (sym e)), agree m m' p h xs same f.1 g.1)

-- An address with a class number that is not 0 is no free chunk; one with the number 0 is no item of
-- a queue with another number.
pub AllZero-Fresh :
    (m : Mem) (a : ℕ) (xs : List ℕ) → (m a).slabs_clsid ≢ 0 → AllZero m xs → Fresh a xs
AllZero-Fresh m a [] n z = tt
AllZero-Fresh m a (x ∷ xs) n z =
    (λ e. n (ap (λ b. (m b).slabs_clsid) e ∙ z.0), AllZero-Fresh m a xs n z.1)

pub Home-zero :
    (m : Mem) (id a : ℕ) (xs : List ℕ) → (m a).slabs_clsid ≡ 0 → id ≢ 0 → Home m id xs → Fresh a xs
Home-zero m id a [] z n h = tt
Home-zero m id a (x ∷ xs) z n h =
    (λ e. n (sym h.0 ∙ ap (λ b. (m b).slabs_clsid) (sym e) ∙ z), Home-zero m id a xs z n h.1)
