-- ===== src/Mover/State.antt =====
-- memory_lru/slabs.c: the state of the page mover, and what it does to the free list of the class
-- that gives the page. Addresses below `slab_end` and from `slab_start` on are in the page.
use analysis_memcached.Prelude.{
  ℕ, zero, suc, ◌+◌, ◌-◌, Bool, true, false, not, ◌&&◌, ltb, leb, ◌==◌, if◌then◌else◌, sub64,
}
use analysis_memcached.Prelude.Int.{pos_part}
use analysis_memcached.Prelude.Memory.{update}
use analysis_memcached.Item.{Flags, Settings, no_flags}
use analysis_memcached.Item.Bypass.{bypass}
use analysis_memcached.Slabs.{Slabs, SlabClass, set_class, do_slabs_alloc}
use analysis_memcached.Slabs.Reassign.{Rebalance}
use analysis_memcached.Items.{World}

-- struct slab_rebalance, without the two class numbers, which are the request's in Rebalance.
pub record Page : Type 0 where
  pub slab_start : ℕ
  pub slab_end : ℕ
  pub slab_pos : ℕ
  pub busy_items : ℕ
  pub rescues : ℕ
  pub evictions_nomem : ℕ
  pub inline_reclaim : ℕ
  pub chunk_rescues : ℕ
  pub busy_deletes : ℕ
  pub busy_loops : ℕ
  pub done : ℕ

-- The counters of `stats` and `stats_state` that the mover keeps.
pub record MoverStats : Type 0 where
  pub slab_reassign_running : Bool
  pub slabs_moved : ℕ
  pub slab_reassign_rescues : ℕ
  pub slab_reassign_evictions_nomem : ℕ
  pub slab_reassign_inline_reclaim : ℕ
  pub slab_reassign_chunk_rescues : ℕ
  pub slab_reassign_busy_deletes : ℕ
  pub slab_reassign_busy_items : ℕ

pub record Mover : Type 0 where
  pub world : World
  pub rebal : Rebalance
  pub page : Page
  pub stats : MoverStats

abbrev pub source : Mover → ℕ
source m = pos_part m.rebal.s_clsid

abbrev pub source_class : Mover → SlabClass
source_class m = m.world.slabs.class (source m)

abbrev pub with_slabs : Mover → Slabs → Mover
with_slabs m s = record m { world = record (m.world) { slabs = s } }

abbrev pub with_world : Mover → World → Mover
with_world m w = record m { world = w }

-- ITEM_SLABBED | ITEM_FETCHED: the chunk is cleared for the move.
abbrev pub cleared_flags : Flags
cleared_flags = record no_flags { slabbed = true; fetched = true }

unfoldable pub is_cleared : Flags → Bool
is_cleared f =
    f.slabbed
    && f.fetched
    && not f.linked
    && not f.cas
    && not f.active
    && not f.chunked
    && not f.chunk

unfoldable pub in_page : Page → ℕ → Bool
in_page p it = leb p.slab_start it && ltb it p.slab_end

-- A chunk of the page that the allocator handed out is marked as cleared.
unfoldable pub reclaim_inline : Mover → Slabs → ℕ → ℕ → Mover
reclaim_inline m s it size =
    let id = source m in
    let p = s.class id in
    let cleared = update s.mem it (record (s.mem it) { refcount = 0; it_flags = cleared_flags }) in
    record (with_slabs m (
      set_class (record s { mem = cleared }) id
        (record p { requested = sub64 p.requested size }))) {
          page = record (m.page) { inline_reclaim = m.page.inline_reclaim + 1 };
        }

-- The loop of slab_rebalance_alloc with `left` rounds to go; the result 0 is NULL.
unfoldable pub alloc_outside : Settings → ℕ → Mover → ℕ → ℕ → Mover × ℕ
unfolding do_slabs_alloc in_page reclaim_inline
alloc_outside settings zero m size id = (m, 0)
alloc_outside settings (suc left) m size id =
    let (s, it) = do_slabs_alloc settings m.world.slabs size id true false 0 in
    let later = alloc_outside settings left (reclaim_inline m s it size) size id in
    if it == 0
    then (with_slabs m s, 0)
    else if in_page m.page it
    then later
    else (with_slabs m s, it)

unfoldable pub slab_rebalance_alloc : Settings → Mover → ℕ → ℕ → Mover × ℕ
unfolding alloc_outside
slab_rebalance_alloc settings m size id = alloc_outside settings (source_class m).perslab m size id

-- The chunk leaves the free list of the class.
unfoldable pub slab_rebalance_cut_free : Slabs → ℕ → ℕ → Slabs
slab_rebalance_cut_free s id it =
    let p = s.class id in
    set_class (record s { mem = bypass s.mem it }) id
      (record p {
        slots = if p.slots == it then (s.mem it).next else p.slots;
        sl_curr = p.sl_curr - 1;
      })
