-- ===== src/Items.antt =====
-- slabs_curd/items.c: the items' LRU queues, their links to the hash table and the slab allocator,
-- and their reference counts. The record World is the state that the code keeps in globals; `heads`,
-- `tails`, `sizes` and `sizes_bytes` are the arrays indexed by slabs_clsid. Locks are left out: the
-- functions run with the locks held that their callers take.
mod State
pub mod Queues
pub mod Order
pub mod Linking
pub mod Effects
pub mod Found
pub mod Get
pub mod Hits
pub mod Heap
pub mod Pull
pub mod Alloc
pub mod Sample
pub mod Crawl
pub mod Juggle
mod Tests
unfoldable pub use State.*
use analysis_memcached.Prelude.{
  ℕ, suc, ◌+◌, ◌-◌, ◌/◌, ◌%◌, ◌^◌, Bool, true, false, not, ◌&&◌, ◌||◌, Option, none, some, length,
  ltb, leb, ◌==◌, if◌then◌else◌, add32, sub32, sub64,
}
use analysis_memcached.Prelude.Memory.{update}
use analysis_memcached.Item.{
  Item, Mem, Settings, Flags, item_get_cas, item_set_cas, item_ntotal, item_clsid, item_lruid,
  set_prev, set_next, item_update_interval, sizeof_item,
}
use analysis_memcached.Item.Bypass.{bypass}
use analysis_memcached.Assoc.{Key, Table, assoc_find, assoc_insert, assoc_delete}
use analysis_memcached.Slabs.{Slabs, do_slabs_free}

-- The part of do_item_link up to assoc_insert: the item is marked, counted and given a CAS id; the macro
-- ITEM_set_cas takes one only for an item that has ITEM_CAS.
unfoldable pub admit : Settings → World → ℕ → World
unfolding item_ntotal get_cas_id item_set_cas
admit settings w it =
    let c = item_at w it in
    let counted : World =
      record (set_item w it
        (record c { it_flags = record (c.it_flags) { linked = true }; time = w.current_time })) {
          curr_bytes = (w.curr_bytes + item_ntotal c) % 2 ^ 64;
          curr_items = (w.curr_items + 1) % 2 ^ 64;
          total_items = (w.total_items + 1) % 2 ^ 64;
        } in
    let (fresh, id) = if c.it_flags.cas then get_cas_id counted else (counted, 0) in
    if settings.use_cas
    then set_item fresh it (item_set_cas (item_at fresh it) id)
    else set_item counted it (item_set_cas (item_at counted it) 0)

unfoldable pub do_item_link : Settings → World → ℕ → ℕ → World
unfolding admit do_item_link_q refcount_incr item_stats_sizes_add
do_item_link settings w it hv =
    let admitted = admit settings w it in
    let inserted : World = record admitted { table = assoc_insert admitted.table it hv } in
    item_stats_sizes_add (refcount_incr (do_item_link_q inserted it) it) it

-- `fuel` bounds the chunks of a chunked item.
unfoldable pub item_free : Settings → ℕ → World → ℕ → World
unfolding item_ntotal item_clsid
item_free settings fuel w it =
    let c = item_at w it in
    record w { slabs = do_slabs_free settings fuel w.slabs it (item_ntotal c) (item_clsid c) }

unfoldable pub do_item_remove : Settings → ℕ → World → ℕ → World
unfolding refcount_decr item_free
do_item_remove settings fuel w it =
    let dropped = refcount_decr w it in
    if (item_at dropped it).refcount == 0 then item_free settings fuel dropped it else dropped

-- The world with the table that assoc_delete leaves; it stays where the key was not in it.
unfoldable pub with_table : World → Option Table → World
with_table w none = w
with_table w (some t) = record w { table = t }

unfoldable pub forget : World → ℕ → ℕ → World
unfolding with_table
forget w it hv = with_table w (assoc_delete (item_key w) w.table (item_key w it) hv)

-- The part of do_item_unlink before assoc_delete.
unfoldable pub discount : World → ℕ → World
unfolding item_ntotal
discount w it =
    let c = item_at w it in
    record (set_item w it (record c { it_flags = record (c.it_flags) { linked = false } })) {
      curr_bytes = sub64 w.curr_bytes (item_ntotal c % 2 ^ 64);
      curr_items = sub64 w.curr_items 1;
    }

unfoldable pub dismiss : World → ℕ → World
unfolding discount item_stats_sizes_remove
dismiss w it = item_stats_sizes_remove (discount w it) it

-- Also do_item_unlink_nolock, which differs in the LRU lock only.
unfoldable pub do_item_unlink : Settings → ℕ → World → ℕ → ℕ → World
unfolding dismiss forget do_item_unlink_q do_item_remove
do_item_unlink settings fuel w it hv =
    if (item_at w it).it_flags.linked
    then do_item_remove settings fuel (do_item_unlink_q (forget (dismiss w it) it hv) it) it
    else w

unfoldable pub do_item_replace : Settings → ℕ → World → ℕ → ℕ → ℕ → World
unfolding do_item_unlink do_item_link
do_item_replace settings fuel w it new_it hv =
    do_item_link settings (do_item_unlink settings fuel w it hv) new_it hv

-- Whether an item has not been accessed for the update interval.
unfoldable pub is_stale : World → ℕ → Bool
is_stale w it = ltb (item_at w it).time (sub32 w.current_time item_update_interval)

abbrev pub set_time : World → ℕ → World
set_time w it = set_item w it (record (item_at w it) { time = w.current_time })

unfoldable pub do_item_update_nolock : World → ℕ → World
unfolding is_stale do_item_unlink_q do_item_link_q
do_item_update_nolock w it =
    if is_stale w it && (item_at w it).it_flags.linked
    then do_item_link_q (set_time (do_item_unlink_q w it) it) it
    else w

-- An active cold item moves to the warm queue of its class.
unfoldable pub warm_up : World → ℕ → World
unfolding do_item_unlink_q item_link_q_warm item_clsid
warm_up w it =
    let out = do_item_unlink_q (set_time w it) it in
    let c = item_at out it in
    item_link_q_warm
      (set_item out it (record c {
        slabs_clsid = item_clsid c + warm_lru;
        it_flags = record (c.it_flags) { active = false };
      }))
      it

unfoldable pub do_item_update : Settings → World → ℕ → World
unfolding is_stale warm_up do_item_unlink_q do_item_link_q item_lruid
do_item_update settings w it =
    let c = item_at w it in
    if settings.lru_segmented
    then (if c.it_flags.linked
        then (if item_lruid c == cold_lru && c.it_flags.active
            then warm_up w it
            else if is_stale w it
            then set_time w it
            else w)
        else w)
    else if is_stale w it && c.it_flags.linked
    then do_item_link_q (do_item_unlink_q (set_time w it) it) it
    else w

unfoldable pub item_is_flushed : Settings → World → ℕ → Bool
unfolding item_get_cas
item_is_flushed settings w it =
    let c = item_at w it in
    let cas = item_get_cas c in
    if settings.oldest_live == 0 || ltb w.current_time settings.oldest_live
    then false
    else leb c.time settings.oldest_live
      || not (settings.oldest_cas == 0) && not (cas == 0) && ltb cas settings.oldest_cas
