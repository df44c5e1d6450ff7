-- ===== src/Mover/Cut.antt =====
-- A chunk that leaves the free list of its class.
use mathlib.Core.Path.{subst}
use analysis_memcached.Prelude.{
  ℕ, ◌-◌, ◌≡◌, sym, ap, ◌∙◌, List, [], ◌∷◌, ◌++◌, length, ◌==◌, if◌then◌else◌, arith, length-append,
}
use analysis_memcached.Item.{Mem}
use analysis_memcached.Item.Links.{Linked}
use analysis_memcached.Item.Bypass.{bypass, bypass-Linked, Distinct-cut}
use analysis_memcached.Slabs.{Slabs}
use analysis_memcached.Slabs.Freelist.{IsFreelist, AllSlabbed}
use analysis_memcached.Mover.State.{slab_rebalance_cut_free}

bypass_bits : (m : Mem) (it a : ℕ) → (bypass m it a).it_flags.slabbed ≡ (m a).it_flags.slabbed
bypass_bits m it a = ground arith

bypass-AllSlabbed : (m : Mem) (it : ℕ) (xs : List ℕ) → AllSlabbed m xs → AllSlabbed (bypass m it) xs
bypass-AllSlabbed m it [] h = tt
bypass-AllSlabbed m it (x ∷ xs) h = (bypass_bits m it x ∙ h.0, bypass-AllSlabbed m it xs h.1)

AllSlabbed-cut :
    (m : Mem) (it : ℕ) (xs ys : List ℕ) → AllSlabbed m (xs ++ it ∷ ys) → AllSlabbed m (xs ++ ys)
AllSlabbed-cut m it [] ys h = h.1
AllSlabbed-cut m it (x ∷ xs) ys h = (h.0, AllSlabbed-cut m it xs ys h.1)

length-cut : (it : ℕ) (xs ys : List ℕ) → length (xs ++ it ∷ ys) - 1 ≡ length (xs ++ ys)
length-cut it xs ys = omega (arith, length-append xs (it ∷ ys), length-append xs ys)

cut_class :
    (s : Slabs) (id it : ℕ)
    → let p = s.class id in
      let q = (slab_rebalance_cut_free s id it).class id in
      (q.slots ≡ (if p.slots == it then (s.mem it).next else p.slots)) × (q.sl_curr ≡ p.sl_curr - 1)
unfolding slab_rebalance_cut_free
cut_class s id it = ground arith

-- A chunk anywhere on the free list leaves it; the order of the others stays.
pub slab_rebalance_cut_free-IsFreelist :
    (s : Slabs) (id it : ℕ) (xs ys : List ℕ)
    → IsFreelist s id (xs ++ it ∷ ys)
    → IsFreelist (slab_rebalance_cut_free s id it) id (xs ++ ys)
unfolding slab_rebalance_cut_free
slab_rebalance_cut_free-IsFreelist s id it xs ys v =
    let c = cut_class s id it in
    record {
      links =
          subst (λ p. Linked (bypass s.mem it) 0 p (xs ++ ys)) (sym c.0)
            (bypass-Linked s.mem (s.class id).slots it xs ys v.distinct v.links);
      slabbed = bypass-AllSlabbed s.mem it (xs ++ ys) (AllSlabbed-cut s.mem it xs ys v.slabbed);
      distinct = Distinct-cut it xs ys v.distinct;
      counted = c.1 ∙ ap (λ n. n - 1) v.counted ∙ length-cut it xs ys;
    }
