-- ===== src/Mover.antt =====
-- memory_lru/slabs.c: the mover of slab pages, which takes a page from one class and gives it to
-- another. Its functions use those of the slab allocator and of the items, which memory_lru has in the
-- same form as slabs_curd. The result of slab_rebalance_move, which only makes the thread sleep, is
-- left out. slab_pos, slab_start and slab_end are 0 for NULL.
pub mod State
pub mod Chunk
pub mod Cut
pub mod Phases
mod Tests
use analysis_memcached.Prelude.{
  ℕ, zero, suc, ◌+◌, ◌-◌, ◌*◌, ◌%◌, ◌^◌, Bool, true, false, not, ◌&&◌, ◌||◌, List, ltb, leb, ◌==◌,
  if◌then◌else◌, sub64,
}
use analysis_memcached.Prelude.Int.{ℤ, pos, negsuc, pos_part, ltb_ℤ, eq_ℤ}
use analysis_memcached.Prelude.Memory.{update}
use analysis_memcached.Item.{Item, Settings, slab_global_page_pool}
use analysis_memcached.Slabs.{
  Slabs, SlabClass, set_class, grow_slab_list, get_page_from_global_pool, clear_page,
  split_slab_page_into_freelist,
}
use analysis_memcached.Slabs.Reassign.{Rebalance, bad_class}
use analysis_memcached.Mover.State.{Page, MoverStats, Mover, source, with_slabs}
use analysis_memcached.Mover.Chunk.{slab_rebalance_move}

-- The result of the checks, 0 when the page can be moved.
unfoldable pub start_check : Slabs → Rebalance → Bool → ℤ
unfolding bad_class
start_check s b grown =
    if ltb (s.class (pos_part b.s_clsid)).slabs 2
    then negsuc 2
    else if not grown
    then negsuc 0
    else if bad_class s b.s_clsid || bad_class s b.d_clsid || eq_ℤ b.s_clsid b.d_clsid
    then negsuc 1
    else pos 0

-- `granted` tells whether realloc gave the longer page list.
unfoldable pub slab_rebalance_start : Mover → Bool → Mover × ℤ
unfolding start_check grow_slab_list
slab_rebalance_start m granted =
    let (s, grown) = grow_slab_list m.world.slabs (pos_part m.rebal.d_clsid) granted in
    let r = start_check s m.rebal grown in
    let p = s.class (source m) in
    let ptr = p.slab_list 0 in
    if eq_ℤ r (pos 0)
    then (
      record (with_slabs m s) {
        page = record (m.page) {
          slab_start = ptr;
          slab_end = ptr + p.size * p.perslab;
          slab_pos = ptr;
          done = if source m == slab_global_page_pool then 1 else 0;
        };
        rebal = record (m.rebal) { signal = 2 };
        stats = record (m.stats) { slab_reassign_running = true };
      },
      r,
    )
    else (with_slabs m s, r)

-- The loop of memory_release with at most `left` pages to free.
unfoldable pub release_pages : Settings → ℕ → Slabs → Slabs
unfolding get_page_from_global_pool
release_pages settings zero s = s
release_pages settings (suc left) s =
    let (t, p) = get_page_from_global_pool s in
    let later =
      release_pages settings left
        (record t { mem_malloced = sub64 t.mem_malloced settings.slab_page_size }) in
    if ltb s.mem_limit s.mem_malloced then (if p == 0 then t else later) else s

unfoldable pub memory_release : Settings → Slabs → Slabs
unfolding release_pages
memory_release settings s =
    if not (s.mem_base == 0)
    then s
    else if not settings.slab_reassign
    then s
    else release_pages settings (s.class slab_global_page_pool).slabs s

unfoldable pub do_slabs_adjust_mem_limit : Settings → Slabs → ℕ → Slabs × Bool
unfolding memory_release
do_slabs_adjust_mem_limit settings s new_mem_limit = if not (s.mem_base == 0) then (s, false) else (
  memory_release settings (record s { mem_limit = new_mem_limit; mem_limit_reached = false }),
  true,
)

-- The first page of the class is dropped from its list.
unfoldable pub drop_first_page : Slabs → ℕ → Slabs
drop_first_page s id =
    let p = s.class id in
    set_class s id (record p {
      slabs = p.slabs - 1;
      slab_list = λ x. if ltb x (p.slabs - 1) then p.slab_list (x + 1) else p.slab_list x;
    })

-- The page is the last of the class's list.
unfoldable pub add_page : Slabs → ℕ → ℕ → Slabs
add_page s id ptr =
    let p = s.class id in
    set_class s id (record p { slab_list = update p.slab_list p.slabs ptr; slabs = p.slabs + 1 })

abbrev pub no_page : Page
no_page = record {
  slab_start = 0;
  slab_end = 0;
  slab_pos = 0;
  busy_items = 0;
  rescues = 0;
  evictions_nomem = 0;
  inline_reclaim = 0;
  chunk_rescues = 0;
  busy_deletes = 0;
  busy_loops = 0;
  done = 0;
}

abbrev pub add_stats : MoverStats → Page → MoverStats
add_stats t p = record t {
  slab_reassign_running = false;
  slabs_moved = t.slabs_moved + 1;
  slab_reassign_rescues = t.slab_reassign_rescues + p.rescues;
  slab_reassign_evictions_nomem = t.slab_reassign_evictions_nomem + p.evictions_nomem;
  slab_reassign_inline_reclaim = t.slab_reassign_inline_reclaim + p.inline_reclaim;
  slab_reassign_chunk_rescues = t.slab_reassign_chunk_rescues + p.chunk_rescues;
  slab_reassign_busy_deletes = t.slab_reassign_busy_deletes + p.busy_deletes;
}

-- The new class of the page splits it into free chunks; the pool keeps it whole.
unfoldable pub settle_page : Settings → Slabs → ℕ → ℕ → Slabs
unfolding clear_page split_slab_page_into_freelist memory_release
settle_page settings s id ptr =
    if ltb slab_global_page_pool id
    then split_slab_page_into_freelist settings
        (record s { mem = clear_page s.mem ptr settings.slab_page_size }) ptr id
    else memory_release settings (record s { mem_limit_reached = false })

unfoldable pub slab_rebalance_finish : Settings → Mover → Mover
unfolding drop_first_page add_page settle_page
slab_rebalance_finish settings m =
    let dst = pos_part m.rebal.d_clsid in
    let dropped = drop_first_page m.world.slabs (source m) in
    let added = add_page dropped dst m.page.slab_start in
    record (with_slabs m (settle_page settings added dst m.page.slab_start)) {
      page = record no_page { busy_items = m.page.busy_items };
      rebal = record (m.rebal) { s_clsid = pos 0; d_clsid = pos 0; signal = 0 };
      stats = add_stats m.stats m.page;
    }

module _ (hash : List ℕ → ℕ) (settings : Settings) (fuel bulk : ℕ) where
  -- A round of slab_rebalance_thread, up to its sleep or wait.
  unfoldable pub mover_round : (ℕ → ℕ → Bool) → Bool → Mover → Mover
  unfolding slab_rebalance_start slab_rebalance_move slab_rebalance_finish
  mover_round trylock granted m =
      let (begun, r) = slab_rebalance_start m granted in
      let started =
        if ltb_ℤ r (pos 0)
        then record begun { rebal = record (begun.rebal) { signal = 0 } }
        else begun in
      let moved =
        if m.rebal.signal == 1
        then started
        else if not (m.rebal.signal == 0) && not (m.page.slab_start == 0)
        then slab_rebalance_move hash settings fuel bulk trylock m
        else m in
      if moved.page.done == 0 then moved else slab_rebalance_finish settings moved
