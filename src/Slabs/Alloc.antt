-- ===== src/Slabs/Alloc.antt =====
-- Allocating and freeing chunks, and giving a class a new page.
use mathlib.Core.Path.{subst, subst₂}
use analysis_memcached.Prelude.{
  ℕ, suc, ◌+◌, ◌*◌, ◌≤◌, ◌≡◌, ◌≢◌, sym, Bool, false, List, ◌∷◌, not, ◌&&◌, ◌||◌, ltb, ◌==◌,
  if◌then◌else◌, arith, Fresh, length, refl, ◌-◌, if_elim, ◌∙◌, ◌^◌, ◌%◌,
}
use analysis_memcached.Item.{Settings, power_smallest}
use analysis_memcached.Item.Links.{Linked}
use analysis_memcached.Slabs.{
  Slabs, push_free, pop_free, do_slabs_free, do_slabs_alloc, do_slabs_newslab, install_page,
  grow_slab_list, obtain_page, aligned, page_length, at_limit, get_page_from_global_pool,
  memory_allocate,
}
use analysis_memcached.Slabs.Freelist.{
  IsFreelist, AllSlabbed, push_free-IsFreelist, pop_free-IsFreelist,
}
use analysis_memcached.Slabs.Split.{Apart, pushed, install_page-IsFreelist}

-- The result of an allocation that hands out `it` and leaves `xs` free.
pub record Handed (id it : ℕ) (xs : List ℕ) (r : Slabs × ℕ) : Type 0 where
  pub chunk : r.1 ≡ it
  pub left : IsFreelist r.0 id xs
  pub unmarked : (r.0.mem it).it_flags.slabbed ≡ false
  pub owned : (r.0.mem it).refcount ≡ 1

module _ (settings : Settings) (id : ℕ) (low : power_smallest ≤ id) where
  popped-Handed :
      (s : Slabs) (size it : ℕ) (xs : List ℕ)
      → IsFreelist s id (it ∷ xs)
      → Handed id it xs (pop_free s id size)
  popped-Handed s size it xs v =
      let r = pop_free-IsFreelist s id size it xs v in
      record {
        chunk = r.0;
        left = r.1;
        unmarked = subst (λ q. ((pop_free s id size).0.mem q).it_flags.slabbed ≡ false) r.0 r.2;
        owned = subst (λ q. ((pop_free s id size).0.mem q).refcount ≡ 1) r.0 r.3;
      }

  chosen : Slabs → Slabs → ℕ → Slabs × ℕ
  chosen s t size =
      if ltb id power_smallest || ltb s.power_largest id
      then (s, 0)
      else if (t.class id).sl_curr == 0
      then (t, 0)
      else pop_free t id size

  chosen_same :
      (s : Slabs) (size n : ℕ)
      → id ≤ s.power_largest
      → (s.class id).sl_curr ≡ suc n
      → chosen s s size ≡ pop_free s id size
  unfolding chosen
  chosen_same s size n h e = ground arith

  alloc_nonempty :
      (s : Slabs) (size : ℕ) (no_newpage granted : Bool) (given n : ℕ)
      → id ≤ s.power_largest
      → (s.class id).sl_curr ≡ suc n
      → do_slabs_alloc settings s size id no_newpage granted given ≡ pop_free s id size
  unfolding do_slabs_alloc chosen
  alloc_nonempty s size nn granted given n h e =
      if_elim (λ t. chosen s t size ≡ pop_free s id size) ((s.class id).sl_curr == 0 && not nn)
        (λ z. absurd (ground (arith, z, e))) (λ _. chosen_same s size n h e)

  -- A class with free chunks hands out the first of them, with one reference and no longer marked
  -- as free, whatever the flags and the heap's answers; the other chunks stay free.
  pub do_slabs_alloc-Handed :
      (s : Slabs) (size it : ℕ) (xs : List ℕ) (no_newpage granted : Bool) (given : ℕ)
      → id ≤ s.power_largest
      → IsFreelist s id (it ∷ xs)
      → Handed id it xs (do_slabs_alloc settings s size id no_newpage granted given)
  do_slabs_alloc-Handed s size it xs nn granted given h v =
      let counted : (s.class id).sl_curr ≡ suc (length xs) = v.counted in
      subst (Handed id it xs) (sym (alloc_nonempty s size nn granted given (length xs) h counted))
        (popped-Handed s size it xs v)

  -- A chunk that is freed is the one that the next allocation from its class hands out, and the
  -- free list is as before.
  pub alloc-free :
      (s : Slabs) (fuel freed size it : ℕ) (xs : List ℕ) (no_newpage granted : Bool) (given : ℕ)
      → id ≤ s.power_largest
      → (s.mem it).it_flags.chunked ≡ false
      → it ≢ 0
      → Fresh it xs
      → IsFreelist s id xs
      → Handed id it xs (
          do_slabs_alloc settings
            (do_slabs_free settings fuel s it freed id)
            size
            id
            no_newpage
            granted
            given)
  alloc-free s fuel freed size it xs nn granted given h c z f v =
      subst (λ t. Handed id it xs (do_slabs_alloc settings t size id nn granted given)) (sym plain)
        (do_slabs_alloc-Handed (push_free s it id freed) size it xs nn granted given
          (unfold push_free in h) (push_free-IsFreelist s id freed it xs z f v))
    where
      plain : do_slabs_free settings fuel s it freed id ≡ push_free s it id freed
      plain = unfold do_slabs_free in ground arith

  -- The allocator with the page that do_slabs_newslab takes, and the page.
  abbrev pub held : Slabs → Bool → ℕ → Slabs × ℕ
  held s granted given =
      obtain_page (grow_slab_list s id granted).0 (page_length settings (s.class id)) given

  -- Growing the page list and taking a page leave the free chunks of a class alone.
  SameFree : Slabs → Slabs → Type 0
  SameFree s t =
      (t.mem ≡ s.mem)
      × (t.power_largest ≡ s.power_largest)
      × ((t.class id).size ≡ (s.class id).size)
      × ((t.class id).perslab ≡ (s.class id).perslab)
      × ((t.class id).slots ≡ (s.class id).slots)
      × ((t.class id).sl_curr ≡ (s.class id).sl_curr)

  grown-SameFree : (s : Slabs) (granted : Bool) → SameFree s (grow_slab_list s id granted).0
  unfolding SameFree grow_slab_list
  grown-SameFree s granted = ground arith

  pool-SameFree : (s : Slabs) → SameFree s (get_page_from_global_pool s).0
  unfolding SameFree get_page_from_global_pool
  pool-SameFree s = ground arith

  counts-SameFree :
      (s : Slabs) (current avail malloced : ℕ)
      → SameFree s (record s { mem_current = current; mem_avail = avail; mem_malloced = malloced })
  unfolding SameFree
  counts-SameFree s current avail malloced = (refl, refl, refl, refl, refl, refl)

  memory-SameFree : (s : Slabs) (size given : ℕ) → SameFree s (memory_allocate s size given).0
  unfolding memory_allocate
  memory-SameFree s size given =
      let room = if ltb (aligned size) s.mem_avail then s.mem_avail - aligned size else 0 in
      if_elim (λ (r : Slabs × ℕ). SameFree s r.0) (s.mem_base == 0)
        (λ _. counts-SameFree s s.mem_current s.mem_avail ((s.mem_malloced + size) % 2 ^ 64))
        λ _.
          if_elim (λ (r : Slabs × ℕ). SameFree s r.0) (ltb s.mem_avail size)
            (λ _. counts-SameFree s s.mem_current s.mem_avail s.mem_malloced)
            (λ _.
              counts-SameFree s (s.mem_current + aligned size) room
                ((s.mem_malloced + aligned size) % 2 ^ 64))

  SameFree-trans : (s t u : Slabs) → SameFree s t → SameFree t u → SameFree s u
  unfolding SameFree
  SameFree-trans s t u a b = (b.0 ∙ a.0, b.1 ∙ a.1, b.2 ∙ a.2, b.3 ∙ a.3, b.4 ∙ a.4, b.5 ∙ a.5)

  obtain-SameFree : (s : Slabs) (len given : ℕ) → SameFree s (obtain_page s len given).0
  unfolding obtain_page
  obtain-SameFree s len given =
      let t = (get_page_from_global_pool s).0 in
      if_elim (λ (r : Slabs × ℕ). SameFree s r.0) ((get_page_from_global_pool s).1 == 0)
        (λ _.
          SameFree-trans s t (memory_allocate t len given).0 (pool-SameFree s)
            (memory-SameFree t len given))
        (λ _. pool-SameFree s)

  held-SameFree : (s : Slabs) (granted : Bool) (given : ℕ) → SameFree s (held s granted given).0
  held-SameFree s granted given =
      let t = (grow_slab_list s id granted).0 in
      SameFree-trans s t (held s granted given).0 (grown-SameFree s granted)
        (obtain-SameFree t (page_length settings (s.class id)) given)

  SameFree-IsFreelist :
      (s t : Slabs) (xs : List ℕ) → SameFree s t → IsFreelist s id xs → IsFreelist t id xs
  unfolding SameFree
  SameFree-IsFreelist s t xs k v = record {
    links = subst₂ (λ m q. Linked m 0 q xs) (sym k.0) (sym k.4) v.links;
    slabbed = subst (λ m. AllSlabbed m xs) (sym k.0) v.slabbed;
    distinct = v.distinct;
    counted = ground (arith, v.counted);
  }

  -- A class that asks for a page, when the page does not overlap its free chunks, has the page's
  -- chunks on its free list if it got one; at the memory limit, or when the heap or the page list
  -- cannot grow, its free list is as it was.
  pub do_slabs_newslab-IsFreelist :
      (s : Slabs) (granted : Bool) (given : ℕ) (xs : List ℕ)
      → let p = s.class id in
        let len = page_length settings p in
        let ptr = (held s granted given).1 in
        let r = do_slabs_newslab settings s id granted given in
        id ≤ s.power_largest
        → 1 ≤ p.size
        → p.perslab * p.size ≤ len
        → Apart ptr (ptr + len) xs
        → IsFreelist s id xs
        → IsFreelist r.0 id (if r.1 then pushed p.perslab ptr p.size xs else xs)
  unfolding do_slabs_newslab SameFree
  do_slabs_newslab-IsFreelist s granted given xs h one room a v =
      let p = s.class id in
      let len = page_length settings p in
      let (t, ptr) = held s granted given in
      let P : Slabs × Bool → Type 0 =
        λ r. IsFreelist r.0 id (if r.1 then pushed p.perslab ptr p.size xs else xs) in
      let k = held-SameFree s granted given in
      let grown = grown-SameFree s granted in
      if_elim P (at_limit settings s id)
        (λ _. record {
          links = v.links;
          slabbed = v.slabbed;
          distinct = v.distinct;
          counted = v.counted;
        })
        λ _.
          if_elim P (not (grow_slab_list s id granted).1)
            (λ _. SameFree-IsFreelist s (grow_slab_list s id granted).0 xs grown v)
            λ _.
              if_elim P (ptr == 0) (λ _. SameFree-IsFreelist s t xs k v)
                λ z.
                  subst₂
                    (λ n q. IsFreelist (install_page settings t ptr len id) id (pushed n ptr q xs))
                    k.3 k.2
                    (install_page-IsFreelist settings t ptr len id xs low (ground (arith, h))
                      (ground (arith, one)) (ground (arith, room, k.2, k.3)) (ground (arith, z)) a
                      (SameFree-IsFreelist s t xs k v))
