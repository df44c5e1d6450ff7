-- ===== src/Slabs/Classes.antt =====
-- slabs_clsid: which class an item of a given size is stored in.
use mathlib.Core.Path.{subst}
use analysis_memcached.Prelude.{
  Bool-cases, if_elim, inl, inr, ℕ, zero, suc, ◌+◌, ◌-◌, ◌≤◌, ◌<◌, ◌≡◌, ◌≢◌, ◌⊎◌, ◌↔◌, ltb, ◌==◌,
  arith,
}
use analysis_memcached.Item.{Settings, power_smallest}
use analysis_memcached.Slabs.{Slabs, fitting_class, slabs_clsid}

-- Class `c` is the first one from `from` on that holds `size` bytes, or the largest class if none
-- below it does.
pub record BestFit (s : Slabs) (size from c : ℕ) : Type 0 where
  pub above : from ≤ c
  pub largest : c ≤ s.power_largest
  pub smaller : (r : ℕ) → from ≤ r → r < c → (s.class r).size < size
  pub fits : c ≢ s.power_largest → size ≤ (s.class c).size

fitting_class-BestFit :
    (s : Slabs) (size left from : ℕ)
    → from ≤ s.power_largest
    → from + left ≡ s.power_largest + 1
    → BestFit s size from (fitting_class s size left from)
unfolding fitting_class
fitting_class-BestFit s size zero from h e = absurd (omega arith)
fitting_class-BestFit s size (suc zero) from h e = record {
  above = ground arith;
  largest = ground arith;
  smaller = λ r a b. ground arith;
  fits = λ n. ground arith;
}
fitting_class-BestFit s size (suc (suc left)) from h e =
    let r = fitting_class-BestFit s size (suc left) (from + 1) (omega arith) (omega arith) in
    if_elim (BestFit s size from) (ltb (s.class from).size size)
      (λ e. record {
        above = omega (arith, r.above);
        largest = r.largest;
        smaller = λ q a b. step q a b (ground (arith, e)) r;
        fits = r.fits;
      })
      (λ e. record {
        above = omega arith;
        largest = h;
        smaller = λ q a b. absurd (omega arith);
        fits = λ n. ground (arith, e);
      })
  where
    step :
        (q : ℕ)
        → from ≤ q
        → q < fitting_class s size (suc left) (from + 1)
        → (s.class from).size < size
        → BestFit s size (from + 1) (fitting_class s size (suc left) (from + 1))
        → (s.class q).size < size
    step q a b l r = elim (Bool-cases (q == from)) [
      | inl e ↦ subst (λ x. (s.class x).size < size) (ground (arith, e)) l
      | inr e ↦ r.smaller q (ground (arith, e)) b
    ]

-- An item gets no class exactly if it is empty or larger than the settings allow.
pub slabs_clsid_none :
    (settings : Settings) (s : Slabs) (size : ℕ)
    → 1 ≤ s.power_largest
    → (slabs_clsid settings s size ≡ 0) ↔ ((size ≡ 0) ⊎ (settings.item_size_max < size))
unfolding slabs_clsid
slabs_clsid_none settings s size h =
    let best = fitting_class-BestFit s size (s.power_largest - 1 + 1) 1 h (omega arith) in
    ground (arith, best.above)

-- Otherwise it gets the first class whose chunks are large enough, or the largest class.
pub slabs_clsid-BestFit :
    (settings : Settings) (s : Slabs) (size : ℕ)
    → 1 ≤ s.power_largest
    → size ≢ 0
    → size ≤ settings.item_size_max
    → BestFit s size power_smallest (slabs_clsid settings s size)
unfolding slabs_clsid
slabs_clsid-BestFit settings s size h z m =
    let best = fitting_class-BestFit s size (s.power_largest - 1 + 1) 1 h (omega arith) in
    ground (arith, best)
