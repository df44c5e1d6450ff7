-- ===== src/Items/State.antt =====
-- slabs_curd/items.c: the state, the LRU queues, the histogram of sizes and the counts of references.
use analysis_memcached.Prelude.{
  ℕ, ◌+◌, ◌-◌, ◌/◌, ◌%◌, ◌^◌, Option, none, some, ltb, ◌==◌, if◌then◌else◌, add32, sub32, sub64,
}
use analysis_memcached.Prelude.Memory.{update}
use analysis_memcached.Item.{Item, Mem, item_get_cas, item_ntotal, set_prev}
use analysis_memcached.Item.Bypass.{bypass}
use analysis_memcached.Assoc.{Key, Table}
use analysis_memcached.Slabs.{Slabs}

abbrev pub hot_lru : ℕ
hot_lru = 0

abbrev pub warm_lru : ℕ
warm_lru = 64

abbrev pub cold_lru : ℕ
cold_lru = 128

abbrev pub temp_lru : ℕ
temp_lru = 192

-- The counters of a queue.
pub record Itemstats : Type 0 where
  pub evicted : ℕ
  pub evicted_nonzero : ℕ
  pub reclaimed : ℕ
  pub outofmemory : ℕ
  pub tailrepairs : ℕ
  pub expired_unfetched : ℕ
  pub evicted_unfetched : ℕ
  pub evicted_active : ℕ
  pub crawler_reclaimed : ℕ
  pub crawler_items_checked : ℕ
  pub lrutail_reflocked : ℕ
  pub moves_to_cold : ℕ
  pub moves_to_warm : ℕ
  pub moves_within_lru : ℕ
  pub direct_reclaims : ℕ
  pub hits_to_hot : ℕ
  pub hits_to_warm : ℕ
  pub hits_to_cold : ℕ
  pub hits_to_temp : ℕ
  pub evicted_time : ℕ

abbrev pub tick : ℕ → ℕ
tick n = (n + 1) % 2 ^ 64

-- `hist` is stats_sizes_hist, with its number of buckets.
pub record World : Type 0 where
  pub slabs : Slabs
  pub heads : ℕ → ℕ
  pub tails : ℕ → ℕ
  pub sizes : ℕ → ℕ
  pub sizes_bytes : ℕ → ℕ
  pub itemstats : ℕ → Itemstats
  pub table : Table
  pub cas_id : ℕ
  pub curr_bytes : ℕ
  pub curr_items : ℕ
  pub total_items : ℕ
  pub current_time : ℕ
  pub hist : Option (ℕ → ℕ)
  pub hist_cas_min : ℕ
  pub hist_buckets : ℕ

abbrev pub item_at : World → ℕ → Item
item_at w it = w.slabs.mem it

abbrev pub with_mem : World → Mem → World
with_mem w m = record w { slabs = record (w.slabs) { mem = m } }

abbrev pub set_item : World → ℕ → Item → World
set_item w it c = with_mem w (update w.slabs.mem it c)

abbrev pub item_key : World → ℕ → Key
item_key w it = (item_at w it).key

unfoldable pub get_cas_id : World → World × ℕ
get_cas_id w = let next_id = (w.cas_id + 1) % 2 ^ 64 in (record w { cas_id = next_id }, next_id)

-- The item becomes the head of its queue.
unfoldable pub do_item_link_q : World → ℕ → World
unfolding item_ntotal
do_item_link_q w it =
    let c = item_at w it in
    let id = c.slabs_clsid in
    let head = w.heads id in
    record (with_mem w
      (set_prev (update w.slabs.mem it (record c { prev = 0; next = head })) head it)) {
        heads = update w.heads id it;
        tails = if w.tails id == 0 then update w.tails id it else w.tails;
        sizes = update w.sizes id ((w.sizes id + 1) % 2 ^ 32);
        sizes_bytes = update w.sizes_bytes id ((w.sizes_bytes id + item_ntotal c) % 2 ^ 64);
      }

unfoldable pub do_item_unlink_q : World → ℕ → World
unfolding item_ntotal
do_item_unlink_q w it =
    let c = item_at w it in
    let id = c.slabs_clsid in
    record (with_mem w (bypass w.slabs.mem it)) {
      heads = if w.heads id == it then update w.heads id c.next else w.heads;
      tails = if w.tails id == it then update w.tails id c.prev else w.tails;
      sizes = update w.sizes id (sub32 (w.sizes id) 1);
      sizes_bytes = update w.sizes_bytes id (sub64 (w.sizes_bytes id) (item_ntotal c % 2 ^ 64));
    }

unfoldable pub item_link_q_warm : World → ℕ → World
unfolding do_item_link_q
item_link_q_warm w it =
    let id = (item_at w it).slabs_clsid in
    let linked = do_item_link_q w it in
    record linked {
      itemstats = update linked.itemstats id (record (linked.itemstats id) {
        moves_to_warm = tick (linked.itemstats id).moves_to_warm;
      });
    }

unfoldable pub size_bucket : Item → ℕ
unfolding item_ntotal
size_bucket c = item_ntotal c / 32 + (if item_ntotal c % 32 == 0 then 0 else 1)

-- The histogram `hist` of the world with `change` applied to the bucket of the item's size.
unfoldable pub with_hist : World → ℕ → (ℕ → ℕ) → Option (ℕ → ℕ) → World
unfolding size_bucket item_get_cas
with_hist w it change none = w
with_hist w it change (some h) =
    let b = size_bucket (item_at w it) in
    if ltb (item_get_cas (item_at w it)) w.hist_cas_min
    then w
    else if ltb b w.hist_buckets
    then record w { hist = some (update h b (change (h b))) }
    else w

unfoldable pub item_stats_sizes_add : World → ℕ → World
unfolding with_hist
item_stats_sizes_add w it = with_hist w it (λ n. add32 n 1) w.hist

unfoldable pub item_stats_sizes_remove : World → ℕ → World
unfolding with_hist
item_stats_sizes_remove w it = with_hist w it (λ n. sub32 n 1) w.hist

unfoldable pub refcount_incr : World → ℕ → World
refcount_incr w it =
    let c = item_at w it in set_item w it (record c { refcount = (c.refcount + 1) % 2 ^ 16 })

unfoldable pub refcount_decr : World → ℕ → World
refcount_decr w it =
    let c = item_at w it in
    set_item w it (record c { refcount = (c.refcount + 2 ^ 16 - 1) % 2 ^ 16 })
