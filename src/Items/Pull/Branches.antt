-- ===== src/Items/Pull/Branches.antt =====
-- slabs_curd/items.c: lru_pull_tail, the branches of its switch over the queues and what they do to
-- the item in hand.
use analysis_memcached.Prelude.{
  ℕ, ◌+◌, ◌*◌, ◌/◌, ◌%◌, ◌^◌, Bool, false, not, ◌&&◌, ◌||◌, Option, some, length, ltb, ◌==◌,
  if◌then◌else◌, add32, sub32,
}
use analysis_memcached.Prelude.Int.{pos, negsuc}
use analysis_memcached.Prelude.Memory.{update}
use analysis_memcached.Item.{Item, Settings}
use analysis_memcached.Slabs.Reassign.{Rebalance, slabs_reassign}
use analysis_memcached.Items.{
  World, Itemstats, item_at, set_item, tick, do_item_unlink, do_item_remove, do_item_unlink_q,
  do_item_update_nolock, item_is_flushed, hot_lru, warm_lru, cold_lru,
}

pub record PullFlags : Type 0 where
  pub evict : Bool
  pub crawl_blocks : Bool
  pub return_item : Bool

-- What the walk keeps: `it` is the item that stops it, 0 for NULL; `ret_it` is the item and the hash
-- that are handed to the caller.
pub record Pull : Type 0 where
  pub world : World
  pub rebal : Rebalance
  pub removed : ℕ
  pub it : ℕ
  pub move_to_lru : ℕ
  pub ret_it : Option (ℕ × ℕ)

-- The turn of an item ends with the next turn, with so many tries left, or ends the walk.
pub data Turn : Type 0 where
  go_on : ℕ → Pull → Turn
  stop : Pull → Turn

abbrev pub count : World → ℕ → (Itemstats → Itemstats) → World
count w id change = record w { itemstats = update w.itemstats id (change (w.itemstats id)) }

abbrev pub with_active : World → ℕ → Bool → World
with_active w it b =
    let c = item_at w it in
    set_item w it (record c { it_flags = record (c.it_flags) { active = b } })

-- The placeholder that a crawler keeps in a queue: no key, no bytes, and it_flags == 1.
unfoldable pub is_crawler : Item → Bool
is_crawler c =
    let f = c.it_flags in
    c.nbytes == 0
    && length c.key == 0
    && f.linked
    && not f.cas
    && not f.slabbed
    && not f.fetched
    && not f.active
    && not f.chunked
    && not f.chunk

-- The item's reference count is not 2 with the walk's own reference, and it is old enough to repair.
unfoldable pub leaked : Settings → World → ℕ → Bool
leaked settings w it =
    not (settings.tail_repair_time == 0)
    && ltb (add32 (item_at w it).time settings.tail_repair_time) w.current_time

unfoldable pub has_expired : Settings → World → ℕ → Bool
unfolding item_is_flushed
has_expired settings w it =
    let c = item_at w it in
    not (c.exptime == 0) && ltb c.exptime w.current_time || item_is_flushed settings w it

-- `limit`; case HOT_LRU falls through to case WARM_LRU.
unfoldable pub size_limit : Settings → ℕ → ℕ → ℕ
size_limit settings cur_lru total_bytes =
    let hot = total_bytes * settings.hot_lru_pct % 2 ^ 64 / 100 in
    let warm = total_bytes * settings.warm_lru_pct % 2 ^ 64 / 100 in
    if cur_lru == hot_lru && not (hot == 0) then hot else warm

-- The item leaves the queue for another one, into which the end of the walk links it.
unfoldable pub take_out : Pull → World → ℕ → ℕ → Pull
unfolding do_item_unlink_q
take_out p w it lru = record p {
  world = do_item_unlink_q w it;
  it = it;
  move_to_lru = lru;
  removed = p.removed + 1;
}

module _ (settings : Settings) (chunks : ℕ) where
  unfoldable pub repair : World → ℕ → ℕ → ℕ → World
  unfolding do_item_unlink
  repair w id it hv =
      let counted = count w id (λ (s : Itemstats). record s { tailrepairs = tick s.tailrepairs }) in
      do_item_unlink settings chunks
        (set_item counted it (record (item_at counted it) { refcount = 1 })) it hv

  unfoldable pub reclaim : World → ℕ → ℕ → ℕ → World
  unfolding do_item_unlink do_item_remove
  reclaim w id it hv =
      let unfetched = not (item_at w it).it_flags.fetched in
      let counted = count w id (λ (s : Itemstats). record s {
        reclaimed = tick s.reclaimed;
        expired_unfetched = if unfetched then tick s.expired_unfetched else s.expired_unfetched;
      }) in
      do_item_remove settings chunks (do_item_unlink settings chunks counted it hv) it

  unfoldable pub evict_item : World → ℕ → ℕ → ℕ → World
  unfolding do_item_unlink
  evict_item w id it hv =
      let c = item_at w it in
      let counted = count w id (λ (s : Itemstats). record s {
        evicted = tick s.evicted;
        evicted_time = sub32 w.current_time c.time;
        evicted_nonzero = if c.exptime == 0 then s.evicted_nonzero else tick s.evicted_nonzero;
        evicted_unfetched =
            if c.it_flags.fetched then s.evicted_unfetched else tick s.evicted_unfetched;
        evicted_active = if c.it_flags.active then tick s.evicted_active else s.evicted_active;
      }) in
      do_item_unlink settings chunks counted it hv

  -- An active item of the hot or the warm queue; `tries` is what is left after this turn.
  unfoldable pub pull_active : ℕ → ℕ → ℕ → Pull → ℕ → Turn
  unfolding do_item_update_nolock do_item_remove take_out
  pull_active id cur_lru tries p it =
      let w = with_active p.world it false in
      if cur_lru == warm_lru
      then go_on tries (record p {
        world =
            do_item_remove settings chunks
              (do_item_update_nolock
                (count w id
                  (λ (s : Itemstats). record s { moves_within_lru = tick s.moves_within_lru }))
                it)
              it;
        removed = p.removed + 1;
      })
      else stop (
          take_out p
            (count w id (λ (s : Itemstats). record s { moves_to_warm = tick s.moves_to_warm })) it
            warm_lru)

  unfoldable pub pull_hot_warm : ℕ → ℕ → ℕ → ℕ → ℕ → Pull → ℕ → Turn
  unfolding pull_active size_limit take_out
  pull_hot_warm id cur_lru total_bytes max_age tries p it =
      let w = p.world in
      let c = item_at w it in
      if c.it_flags.active
      then pull_active id cur_lru tries p it
      else if ltb (size_limit settings cur_lru total_bytes) (w.sizes_bytes id)
          || ltb max_age (sub32 w.current_time c.time)
      then stop (
          take_out p
            (count w id (λ (s : Itemstats). record s { moves_to_cold = tick s.moves_to_cold })) it
            cold_lru)
      else stop (record p { it = it })

  unfoldable pub pull_cold : PullFlags → Bool → ℕ → ℕ → Pull → ℕ → ℕ → Turn
  unfolding evict_item slabs_reassign take_out
  pull_cold flags free orig_id id p it hv =
      let w = p.world in
      let evicted = evict_item w id it hv in
      if flags.evict
      then (if not settings.evict_to_free
          then stop (record p { it = it })
          else stop (record p {
            world = evicted;
            it = it;
            removed = p.removed + 1;
            rebal =
                if settings.slab_automove == 2
                then (slabs_reassign evicted.slabs p.rebal free (negsuc 0) (pos orig_id)).0
                else p.rebal;
          }))
      else if flags.return_item
      then stop (record p { it = it; ret_it = some (it, hv) })
      else if (item_at w it).it_flags.active && settings.lru_segmented
      then stop (
          take_out p
            (with_active
              (count w id (λ (s : Itemstats). record s { moves_to_warm = tick s.moves_to_warm })) it
              false)
            it warm_lru)
      else stop (record p { it = it })
