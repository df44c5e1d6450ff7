-- ===== src/Mover/Tests.antt =====
-- A chunk cut out of a free list, and the start and end of a move from class 1 to class 2.
use analysis_memcached.Prelude.{◌≡◌, refl, false, [], ◌∷◌, ◌++◌, ◌==◌, arith, if◌then◌else◌}
use analysis_memcached.Prelude.Int.{pos, pos_part}
use analysis_memcached.Prelude.Memory.{update}
use analysis_memcached.Item.{Mem, default_settings, only_slabbed}
use analysis_memcached.Slabs.{Slabs, no_class, cleared}
use analysis_memcached.Slabs.Freelist.{IsFreelist}
use analysis_memcached.Items.Sample.{start}
use analysis_memcached.Mover.State.{Mover, MoverStats, source, slab_rebalance_cut_free}
use analysis_memcached.Mover.{slab_rebalance_finish, no_page}
use analysis_memcached.Mover.Cut.{slab_rebalance_cut_free-IsFreelist}
use analysis_memcached.Mover.Phases.{Moved, slab_rebalance_finish-Moved}

abbrev free_chunk : Mem
free_chunk a = if a == 64 then record cleared { it_flags = only_slabbed } else cleared

-- Class 1 has the pages 64 and 128 and one free chunk.
abbrev slabs : Slabs
slabs = record (start.slabs) {
  mem = free_chunk;
  class =
      update (λ i. no_class) 1
        (record no_class {
          size = 16;
          perslab = 4;
          slots = 64;
          sl_curr = 1;
          slabs = 2;
          slab_list = λ x. if x == 0 then 64 else 128;
          list_size = 16;
        });
}

one_free : IsFreelist slabs 1 ([] ++ 64 ∷ [])
unfolding cleared
one_free = record {
  links = (refl, (λ e. omega (arith, e)), refl, refl);
  slabbed = (refl, tt);
  distinct = (tt, tt);
  counted = refl;
}

slab_rebalance_cut_free-IsFreelist_example :
    IsFreelist (slab_rebalance_cut_free slabs 1 64) 1 ([] ++ [])
slab_rebalance_cut_free-IsFreelist_example =
    slab_rebalance_cut_free-IsFreelist slabs 1 64 [] [] one_free

abbrev no_stats : MoverStats
no_stats = record {
  slab_reassign_running = false;
  slabs_moved = 0;
  slab_reassign_rescues = 0;
  slab_reassign_evictions_nomem = 0;
  slab_reassign_inline_reclaim = 0;
  slab_reassign_chunk_rescues = 0;
  slab_reassign_busy_deletes = 0;
  slab_reassign_busy_items = 0;
}

abbrev requested : Mover
requested = record {
  world = record start { slabs = slabs };
  rebal = record { signal = 1; s_clsid = pos 1; d_clsid = pos 2; cur = 0 };
  page = no_page;
  stats = no_stats;
}

abbrev cleared_page : Mover
cleared_page = record requested {
  page = record no_page { slab_start = 64; slab_end = 128; slab_pos = 128; done = 1 };
}

slab_rebalance_finish-Moved_example :
    let r = slab_rebalance_finish default_settings cleared_page in
    Moved (source cleared_page) (pos_part cleared_page.rebal.d_clsid) 64 slabs r.world.slabs
    × (r.rebal.signal ≡ 0)
    × (r.page.slab_start ≡ 0)
slab_rebalance_finish-Moved_example =
    slab_rebalance_finish-Moved default_settings cleared_page (λ e. omega (arith, e)) (omega arith)
