-- ===== src/Items/Pull.antt =====
-- slabs_curd/items.c: lru_pull_tail, the walk up a queue from its tail that frees, evicts or moves
-- items. `hash` is the hash function of keys. The locks of other threads are arguments:
-- `trylock n` tells whether item_trylock succeeds in turn n of the walk, `free` whether
-- slabs_reassign gets its lock. STORAGE_delete is empty without external storage.
mod Branches
mod Tests
use analysis_memcached.Prelude.{
  ℕ, zero, suc, ◌+◌, ◌-◌, Bool, not, ◌&&◌, ◌||◌, none, List, ◌==◌, if◌then◌else◌,
}
use analysis_memcached.Item.{Settings, item_clsid}
use analysis_memcached.Slabs.Reassign.{Rebalance}
use analysis_memcached.Items.{
  World, Itemstats, item_at, set_item, tick, refcount_incr, do_item_remove, do_item_link_q, hot_lru,
  warm_lru, cold_lru, temp_lru,
}
unfoldable pub use Branches.*

-- The arguments of the call and the answers of the locks.
pub record PullCall : Type 0 where
  pub orig_id : ℕ
  pub cur_lru : ℕ
  pub total_bytes : ℕ
  pub flags : PullFlags
  pub max_age : ℕ
  pub trylock : ℕ → Bool
  pub free : Bool

-- `id |= cur_lru`, for a class below 64.
abbrev pub queue_of : PullCall → ℕ
queue_of call = call.orig_id + call.cur_lru

module _ (hash : List ℕ → ℕ) (settings : Settings) (chunks : ℕ) (call : PullCall) where
  -- The item is locked and referenced: the switch over the queues.
  unfoldable pub pull_live : ℕ → Pull → ℕ → ℕ → Turn
  unfolding pull_hot_warm pull_cold
  pull_live tries p it hv =
      let id = queue_of call in
      if call.cur_lru == hot_lru || call.cur_lru == warm_lru
      then pull_hot_warm settings chunks id call.cur_lru call.total_bytes call.max_age tries p it
      else if call.cur_lru == cold_lru
      then pull_cold settings chunks call.flags call.free call.orig_id id p it hv
      else if call.cur_lru == temp_lru
      then stop (record p { it = it })
      else go_on tries p

  -- The item is locked.
  unfoldable pub pull_locked : ℕ → Pull → ℕ → Turn
  unfolding refcount_incr leaked has_expired repair reclaim pull_live
  pull_locked tries p it =
      let id = queue_of call in
      let hv = hash (item_at p.world it).key in
      let held = refcount_incr p.world it in
      let busy = not ((item_at held it).refcount == 2) in
      let w =
        if busy
        then count held id
            (λ (s : Itemstats). record s { lrutail_reflocked = tick s.lrutail_reflocked })
        else held in
      if busy && leaked settings w it
      then go_on tries (record p { world = repair settings chunks w id it hv })
      else if has_expired settings w it
      then go_on tries
          (record p { world = reclaim settings chunks w id it hv; removed = p.removed + 1 })
      else pull_live tries (record p { world = w }) it hv

  -- Turn `n` of the walk, at the item `search_it`.
  unfoldable pub take_turn : ℕ → ℕ → Pull → ℕ → Turn
  unfolding is_crawler pull_locked
  take_turn n tries p search_it =
      if is_crawler (item_at p.world search_it)
      then (if call.flags.crawl_blocks then stop (record p { removed = 0 }) else go_on tries p)
      else if call.trylock n
      then pull_locked (tries - 1) p search_it
      else go_on (tries - 1) p

  -- The loop; `fuel` bounds its turns.
  unfoldable pub walk : ℕ → ℕ → ℕ → Pull → ℕ → Pull
  unfolding take_turn
  walk zero n tries p search_it = p
  walk (suc fuel) n tries p search_it =
      if tries == 0 || search_it == 0 then p else elim (take_turn n tries p search_it) [
        | go_on left q ↦ walk fuel (suc n) left q (item_at p.world search_it).prev
        | stop q ↦ q
      ]

  -- The item that stopped the walk goes into its new queue and is released or returned.
  unfoldable pub settle : Pull → Pull
  unfolding do_item_link_q do_item_remove item_clsid
  settle p =
      let c = item_at p.world p.it in
      let moved =
        if p.move_to_lru == 0
        then p.world
        else do_item_link_q
            (set_item p.world p.it (record c { slabs_clsid = item_clsid c + p.move_to_lru }))
            p.it in
      if p.it == 0
      then p
      else if call.flags.return_item
      then record p { world = moved }
      else record p { world = do_item_remove settings chunks moved p.it }

  unfoldable pub lru_pull_tail : ℕ → World → Rebalance → Pull
  unfolding walk settle
  lru_pull_tail fuel w b =
      let fresh : Pull = record {
        world = w;
        rebal = b;
        removed = 0;
        it = 0;
        move_to_lru = 0;
        ret_it = none;
      } in
      if call.orig_id == 0 then fresh else settle (walk fuel 0 5 fresh (w.tails (queue_of call)))
