-- ===== src/Slabs/Tests.antt =====
-- A small allocator: two classes of 16 and 32 bytes, pages of 64 bytes and 1000 bytes of
-- preallocated memory from address 4096 on, and its theorems there.
use analysis_memcached.Prelude.{
  ℕ, ◌+◌, ◌*◌, leb, ◌≤◌, ◌≡◌, ◌≢◌, refl, true, false, none, [], ◌∷◌, arith, if◌then◌else◌,
}
use analysis_memcached.Prelude.Memory.{update}
use analysis_memcached.Prelude.Int.{pos, negsuc}
use analysis_memcached.Item.{Settings, Mem, default_settings}
use analysis_memcached.Slabs.{
  Slabs, SlabClass, no_class, cleared, fitting_class, slabs_clsid, do_slabs_alloc, do_slabs_free,
  do_slabs_newslab, push_free, page_length, memory_allocate, grow_slab_list,
  get_page_from_global_pool, obtain_page, aligned, at_limit, install_page, clear_page, split_chunks,
  split_slab_page_into_freelist, pop_free,
}
use analysis_memcached.Slabs.Classes.{BestFit, slabs_clsid-BestFit}
use analysis_memcached.Slabs.Freelist.{IsFreelist, push_free-IsFreelist}
use analysis_memcached.Slabs.Split.{pushed}
use analysis_memcached.Slabs.Alloc.{Handed, held, alloc-free, do_slabs_newslab-IsFreelist}
use analysis_memcached.Slabs.Pages.{IsRegion}
use analysis_memcached.Slabs.Init.{
  laid_out, init_classes, lay_out_slabs, IsLaidOut, lay_out_slabs-IsLaidOut,
}
use analysis_memcached.Slabs.Reassign.{
  Rebalance, Requested, spare, slab_reassign_pick_any, slabs_reassign, slabs_reassign-Requested,
}

-- Everything that a run computes with.
program : Unit {0}
unfolding fitting_class slabs_clsid cleared push_free page_length aligned memory_allocate
    grow_slab_list get_page_from_global_pool obtain_page at_limit clear_page split_chunks
    do_slabs_free split_slab_page_into_freelist install_page do_slabs_newslab pop_free
    do_slabs_alloc spare slab_reassign_pick_any laid_out init_classes lay_out_slabs
program = tt

abbrev settings : Settings
settings = record default_settings {
  item_size_max = 64;
  slab_chunk_size_max = 32;
  slab_page_size = 64;
}

abbrev blank : Mem
blank a = cleared

abbrev sized : ℕ → ℕ → SlabClass
sized n k = record no_class { size = n; perslab = k }

abbrev slabs : Slabs
slabs = record {
  mem = blank;
  class = update (update (λ i. no_class) 1 (sized 16 4)) 2 (sized 32 2);
  mem_limit = 1000;
  mem_malloced = 0;
  mem_limit_reached = false;
  power_largest = 2;
  mem_base = 4096;
  mem_current = 4096;
  mem_avail = 1000;
}

no_free : IsFreelist slabs 2 []
no_free = record { links = refl; slabbed = tt; distinct = tt; counted = refl }

slabs-IsRegion : IsRegion 1000 slabs
slabs-IsRegion = record {
  present = λ e. absurd (omega (arith, e));
  above = omega arith;
  aligned_start = refl;
  room = refl;
}

clsid_20 : slabs_clsid settings slabs 20 ≡ 2
unfolding program
clsid_20 = refl

alloc_20 : (do_slabs_alloc settings slabs 20 2 false true 0).1 ≡ 4096 + 32
unfolding program
alloc_20 = refl

abbrev oversized : ℕ
oversized = 65

slabs_clsid-BestFit_example : BestFit slabs 20 1 (slabs_clsid settings slabs 20)
slabs_clsid-BestFit_example =
    slabs_clsid-BestFit settings slabs 20 (omega arith) (λ e. absurd (omega (arith, e)))
      (omega arith)

do_slabs_newslab-IsFreelist_example :
    let r = do_slabs_newslab settings slabs 2 true 0 in
    IsFreelist r.0 2
      (if r.1 then pushed 2 (held settings 2 (omega arith) slabs true 0).1 32 [] else [])
do_slabs_newslab-IsFreelist_example =
    do_slabs_newslab-IsFreelist settings 2 (omega arith) slabs true 0 [] (omega arith) (omega arith)
      (unfold program in omega arith) tt no_free

abbrev one_chunk : Slabs
one_chunk = push_free slabs 8 2 0

one_chunk-IsFreelist : IsFreelist one_chunk 2 (8 ∷ [])
one_chunk-IsFreelist =
    push_free-IsFreelist slabs 2 0 8 [] (λ e. absurd (omega (arith, e))) tt no_free

alloc-free_example :
    Handed 2 16
      (8 ∷ [])
      (do_slabs_alloc settings (do_slabs_free settings 0 one_chunk 16 20 2) 30 2 true false 0)
alloc-free_example =
    alloc-free settings 2 (omega arith) one_chunk 0 20 30 16 (8 ∷ []) true false 0
      (unfold program in omega arith) (unfold program in refl) (λ e. absurd (omega (arith, e)))
      (λ e. absurd (omega (arith, e)), tt) one_chunk-IsFreelist

abbrev base : ℕ
base = 4096

-- Sizes that double from 96 bytes on, up to half a megabyte.
lay_out_slabs-IsLaidOut_example :
    let s =
      lay_out_slabs default_settings (λ n. leb 262144 n) (λ n. n * 2) blank 1000 base 0 none in
    (1 ≤ s.power_largest)
    × (s.power_largest ≤ 63)
    × ((c : ℕ) → 1 ≤ c → c ≤ s.power_largest → IsLaidOut default_settings (s.class c))
    × (base ≢ 0 → IsRegion 1000 s)
lay_out_slabs-IsLaidOut_example =
    lay_out_slabs-IsLaidOut default_settings (λ n. leb 262144 n) (λ n. n * 2) blank 1000 base 0 none
      refl

abbrev two_pages : Slabs
two_pages = record slabs { class = update slabs.class 1 (record (sized 16 4) { slabs = 2 }) }

abbrev idle : Rebalance
idle = record { signal = 0; s_clsid = pos 0; d_clsid = pos 0; cur = 1 }

picked_1 : (slab_reassign_pick_any two_pages idle (pos 2)).1 ≡ pos 1
unfolding program
picked_1 = refl

slabs_reassign-Requested_example :
    Requested two_pages idle (pos 2) (slabs_reassign two_pages idle true (negsuc 0) (pos 2))
slabs_reassign-Requested_example =
    slabs_reassign-Requested two_pages idle true (negsuc 0) (pos 2) (omega arith) (omega arith)

-- A large item's chunks 8 and 16, the second one last.
abbrev chunked : Slabs
chunked = record slabs {
  mem = update (update blank 8 (record cleared { next = 16 })) 16 (record cleared { next = 0 });
}
