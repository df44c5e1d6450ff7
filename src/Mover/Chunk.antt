-- ===== src/Mover/Chunk.antt =====
-- memory_lru/slabs.c: slab_rebalance_move, which clears the chunks of the page one after the other.
-- `trylock` tells whether item_trylock succeeds for a hash; the test `it->flags` is read as
-- `it->it_flags`. Other threads do not change an item between the two reads of its linked flag.
-- `fuel` bounds the chunks of a chunked item.
use analysis_memcached.Prelude.{
  ℕ, zero, suc, ◌+◌, ◌-◌, ◌%◌, ◌^◌, Bool, false, not, ◌&&◌, List, ltb, leb, ◌==◌, if◌then◌else◌,
  sub64,
}
use analysis_memcached.Prelude.Memory.{update}
use analysis_memcached.Item.{Settings, item_ntotal, set_next, set_prev}
use analysis_memcached.Slabs.{set_class, do_slabs_free}
use analysis_memcached.Items.{
  World, item_at, set_item, with_mem, refcount_incr, refcount_decr, do_item_unlink, do_item_replace,
}
use analysis_memcached.Items.Pull.{has_expired}
use analysis_memcached.Mover.State.{
  Mover, source, source_class, with_slabs, with_world, cleared_flags, is_cleared,
  slab_rebalance_alloc, slab_rebalance_cut_free,
}

pub data MoveStatus : Type 0 where
  move_pass : MoveStatus
  move_from_slab : MoveStatus
  move_from_lru : MoveStatus
  move_busy : MoveStatus
  move_locked : MoveStatus

abbrev pub slab_move_max_loops : ℕ
slab_move_max_loops = 1000

-- The item that the chunk at slab_pos is, or is a part of.
unfoldable pub owner : Mover → ℕ
owner m =
    let c = item_at m.world m.page.slab_pos in if c.it_flags.chunk then c.head else m.page.slab_pos

abbrev pub more_busy : Mover → Mover
more_busy m = record m { page = record (m.page) { busy_items = m.page.busy_items + 1 } }

-- The chunk is cleared for the move.
abbrev pub clear_chunk : World → ℕ → World
clear_chunk w it = set_item w it (record (item_at w it) { refcount = 0; it_flags = cleared_flags })

module _ (hash : List ℕ → ℕ) (settings : Settings) (fuel : ℕ) where
  -- An item that others hold is unlinked when the page has waited for it for too long.
  unfoldable pub drop_busy : Mover → ℕ → ℕ → Mover
  unfolding do_item_unlink
  drop_busy m it hv =
      if ltb slab_move_max_loops m.page.busy_loops
      then record m {
        page = record (m.page) { busy_deletes = m.page.busy_deletes + 1 };
        world = do_item_unlink settings fuel m.world it hv;
      }
      else m

  -- The item is locked.
  unfoldable pub classify_linked : Mover → ℕ → ℕ → Mover × MoveStatus
  unfolding refcount_incr refcount_decr drop_busy
  classify_linked m it hv =
      let w = refcount_incr m.world it in
      let c = item_at w it in
      let held = with_world m w in
      let busy = if ltb 2 c.refcount && c.it_flags.linked then drop_busy held it hv else held in
      if c.refcount == 2 && c.it_flags.linked
      then (held, move_from_lru)
      else (with_world busy (refcount_decr busy.world it), move_busy)

  unfoldable pub classify : (ℕ → Bool) → Mover → ℕ → Mover × MoveStatus
  unfolding is_cleared slab_rebalance_cut_free classify_linked
  classify trylock m it =
      let c = item_at m.world it in
      let hv = hash c.key in
      if is_cleared c.it_flags
      then (m, move_pass)
      else if c.it_flags.slabbed
      then (with_slabs m (slab_rebalance_cut_free m.world.slabs (source m) it), move_from_slab)
      else if c.it_flags.linked
      then (if trylock hv then classify_linked m it hv else (m, move_locked))
      else (m, move_busy)

  -- The loop that repoints the chunks of a moved item.
  unfoldable pub repoint : ℕ → World → ℕ → ℕ → World
  repoint zero w fch new_it = w
  repoint (suc left) w fch new_it =
      let later =
        repoint left (set_item w fch (record (item_at w fch) { head = new_it }))
          (item_at w fch).next new_it in
      if fch == 0 then w else later

  -- memcpy of the item, with the header of its first chunk. The code does not test that the first
  -- chunk has a next one.
  unfoldable pub copy_item : World → ℕ → ℕ → World
  copy_item w it new_it =
      let c = item_at w it in
      let fch = new_it + (c.first_chunk - it) in
      let headed = if c.it_flags.chunked then set_item w fch (item_at w c.first_chunk) else w in
      set_item headed new_it (record c {
        prev = 0;
        next = 0;
        it_flags = record (c.it_flags) { linked = false };
        refcount = 0;
        first_chunk = fch;
      })

  unfoldable pub rescue_item : Mover → ℕ → ℕ → ℕ → Mover
  unfolding copy_item do_item_replace repoint
  rescue_item m it new_it hv =
      let replaced = do_item_replace settings fuel (copy_item m.world it new_it) it new_it hv in
      let c = item_at replaced new_it in
      let fch = c.first_chunk in
      let relinked =
        with_mem replaced (set_prev replaced.slabs.mem (item_at replaced fch).next fch) in
      let pointed = if c.it_flags.chunked then repoint fuel relinked fch new_it else replaced in
      record m {
        world = clear_chunk pointed it;
        page = record (m.page) { rescues = m.page.rescues + 1 };
      }

  unfoldable pub rescue_chunk : Mover → ℕ → ℕ → ℕ → Mover
  unfolding refcount_decr
  rescue_chunk m it ch nch =
      let w = m.world in
      let c = item_at w ch in
      let after = set_next w.slabs.mem c.prev nch in
      let before = set_prev after c.next nch in
      let copied = with_mem w (update before nch (before ch)) in
      record m {
        world = refcount_decr (clear_chunk copied ch) it;
        page = record (m.page) { chunk_rescues = m.page.chunk_rescues + 1 };
      }

  -- No memory for the item, or it has has_expired: it is unlinked and freed.
  unfoldable pub free_item : Mover → ℕ → ℕ → Mover
  unfolding do_item_unlink do_slabs_free item_ntotal
  free_item m it hv =
      let w = do_item_unlink settings fuel m.world it hv in
      more_busy (record m {
        world = record w {
          slabs =
              do_slabs_free settings fuel w.slabs it (item_ntotal (item_at m.world it)) (source m);
        };
      })

  abbrev pub adjust : Mover → ℕ → Mover
  adjust m n =
      let id = source m in
      let s = m.world.slabs in
      let p = s.class id in
      with_slabs m (set_class s id (record p { requested = sub64 p.requested n }))

  unfoldable pub move_lru : Mover → ℕ → Mover
  unfolding slab_rebalance_alloc rescue_item rescue_chunk free_item item_ntotal has_expired
  move_lru m it =
      let c = item_at m.world it in
      let hv = hash c.key in
      let ch = m.page.slab_pos in
      let is_chunk = (item_at m.world ch).it_flags.chunk in
      let size = (source_class m).size in
      let ntotal = if not is_chunk && c.it_flags.chunked then size else item_ntotal c in
      let (taken, new_it) =
        slab_rebalance_alloc settings m (if is_chunk then size else ntotal) (source m) in
      let short = record taken {
        page = record (taken.page) { evictions_nomem = taken.page.evictions_nomem + 1 };
      } in
      if has_expired settings m.world it
      then free_item m it hv
      else if new_it == 0
      then free_item short it hv
      else if is_chunk
      then adjust (rescue_chunk taken it ch new_it) size
      else adjust (rescue_item taken it new_it hv) ntotal

  -- The switch over the status; the number tells whether the chunk was busy.
  unfoldable pub act : Mover → ℕ → MoveStatus → Mover
  unfolding move_lru
  act m it move_pass = m
  act m it move_from_slab = with_world m (clear_chunk m.world it)
  act m it move_from_lru = move_lru m it
  act m it move_busy = more_busy m
  act m it move_locked = more_busy m

  -- One round of the loop, with the step to the next chunk.
  unfoldable pub move_chunk : (ℕ → Bool) → Mover → Mover
  unfolding owner classify act
  move_chunk trylock m =
      let it = owner m in
      let (seen, status) = classify trylock m it in
      let acted = act seen it status in
      record acted {
        page = record (acted.page) { slab_pos = acted.page.slab_pos + (source_class acted).size };
      }

  -- The loop of slab_bulk_check rounds; `trylock` has the answers of each.
  unfoldable pub move_chunks : ℕ → (ℕ → ℕ → Bool) → Mover → Mover
  unfolding move_chunk
  move_chunks zero trylock m = m
  move_chunks (suc left) trylock m =
      let moved = move_chunk (trylock left) m in
      let later = move_chunks left trylock moved in
      if leb moved.page.slab_end moved.page.slab_pos then moved else later

  -- The end of a pass over the page: again when items were busy, else the page is clear.
  unfoldable pub end_pass : Mover → Mover
  end_pass m =
      let p = m.page in
      if leb p.slab_end p.slab_pos
      then (if p.busy_items == 0
          then record m { page = record p { done = (p.done + 1) % 2 ^ 8 } }
          else record m {
            page = record p {
              slab_pos = p.slab_start;
              busy_items = 0;
              busy_loops = (p.busy_loops + 1) % 2 ^ 32;
            };
            stats = record (m.stats) {
              slab_reassign_busy_items = m.stats.slab_reassign_busy_items + p.busy_items;
            };
          })
      else m

  unfoldable pub slab_rebalance_move : ℕ → (ℕ → ℕ → Bool) → Mover → Mover
  unfolding move_chunks end_pass
  slab_rebalance_move bulk trylock m = end_pass (move_chunks bulk trylock m)
