-- ===== src/Items/Juggle.antt =====
-- memory_lru/items.c: lru_maintainer_juggle, one visit of the maintainer to the queues of a class. The
-- factors of the ages are doubles: `hot_factor` and `warm_factor` multiply an age by them. The
-- answers of the locks are given for each call of lru_pull_tail in a loop.
pub mod Bound
use analysis_memcached.Prelude.{
  ℕ, zero, suc, ◌+◌, ◌%◌, ◌^◌, Bool, true, false, not, ◌&&◌, ◌||◌, List, ◌==◌, if◌then◌else◌, sub32,
  sub64,
}
use analysis_memcached.Item.{Settings}
use analysis_memcached.Slabs.Reassign.{Rebalance}
use analysis_memcached.Items.{World, item_at, hot_lru, warm_lru, cold_lru, temp_lru}
use analysis_memcached.Items.Pull.{Pull, lru_pull_tail}

-- The locks in round n of a loop, for each queue.
pub record Locks : Type 0 where
  pub temp_lock : ℕ → ℕ → Bool
  pub hot_lock : ℕ → ℕ → Bool
  pub warm_lock : ℕ → ℕ → Bool
  pub cold_lock : ℕ → ℕ → Bool
  pub hot_factor : ℕ → ℕ
  pub warm_factor : ℕ → ℕ

pub record Juggle : Type 0 where
  pub world : World
  pub rebal : Rebalance
  pub did_moves : ℕ

module _ (hash : List ℕ → ℕ) (settings : Settings) (chunks walks id : ℕ) (locks : Locks) where
  -- A call for the queue `lru` that does not evict.
  abbrev pub pulled : ℕ → ℕ → Bool → ℕ → (ℕ → Bool) → World → Rebalance → Pull
  pulled lru total_bytes blocks max_age trylock w b =
      lru_pull_tail hash settings chunks
        record {
          orig_id = id;
          cur_lru = lru;
          total_bytes = total_bytes;
          flags = record { evict = false; crawl_blocks = blocks; return_item = false };
          max_age = max_age;
          trylock = trylock;
          free = false;
        }
        walks w b

  -- The loop over the temporary queue, with `left` rounds to go.
  unfoldable pub reclaim_temp : ℕ → Juggle → Juggle
  unfolding lru_pull_tail
  reclaim_temp zero s = s
  reclaim_temp (suc left) s =
      let p = pulled temp_lru 0 false 0 (locks.temp_lock left) s.world s.rebal in
      let moved =
        reclaim_temp left
          record { world = p.world; rebal = p.rebal; did_moves = s.did_moves + 1 } in
      if p.removed == 0 then record s { world = p.world; rebal = p.rebal } else moved

  -- The age of the cold queue's tail.
  unfoldable pub cold_age : World → ℕ
  cold_age w =
      let tail = w.tails (id + cold_lru) in
      if not settings.lru_segmented || tail == 0
      then 0
      else sub32 w.current_time (item_at w tail).time

  -- A round of the juggle: the state, and whether anything was done. The warm queue is pulled
  -- where the hot one gave nothing.
  unfoldable pub juggle_round : ℕ → ℕ → ℕ → ℕ → Juggle → Juggle × Bool
  unfolding lru_pull_tail
  juggle_round total_bytes hot_age warm_age n s =
      let hot = pulled hot_lru total_bytes true hot_age (locks.hot_lock n) s.world s.rebal in
      let warm =
        pulled warm_lru total_bytes true warm_age (locks.warm_lock n) hot.world hot.rebal in
      let first = if hot.removed == 0 then warm else hot in
      let cold = pulled cold_lru total_bytes true 0 (locks.cold_lock n) first.world first.rebal in
      let after = if settings.lru_segmented then cold else first in
      (
        record s { world = after.world; rebal = after.rebal },
        not (first.removed == 0) || settings.lru_segmented && not (cold.removed == 0),
      )

  unfoldable pub juggle_loop : ℕ → ℕ → ℕ → ℕ → Juggle → Juggle
  unfolding juggle_round
  juggle_loop zero total_bytes hot_age warm_age s = s
  juggle_loop (suc left) total_bytes hot_age warm_age s =
      let (t, more) = juggle_round total_bytes hot_age warm_age left s in
      let later =
        juggle_loop left total_bytes hot_age warm_age (record t { did_moves = t.did_moves + 1 }) in
      if more then later else t

  -- With the bounds of the two loops.
  unfoldable pub juggle_within : ℕ → ℕ → World → Rebalance → Juggle
  unfolding reclaim_temp cold_age juggle_loop
  juggle_within temp_rounds rounds w b =
      let requested = (w.slabs.class id).requested in
      let fresh : Juggle = record { world = w; rebal = b; did_moves = 0 } in
      let s = if settings.temp_lru then reclaim_temp temp_rounds fresh else fresh in
      let total_bytes =
        if settings.temp_lru
        then sub64 requested (s.world.sizes_bytes (id + temp_lru) % 2 ^ 32)
        else requested in
      let age = cold_age s.world in
      juggle_loop rounds total_bytes (if settings.lru_segmented then locks.hot_factor age else 0)
        (if settings.lru_segmented then locks.warm_factor age else 0) s

  unfoldable pub lru_maintainer_juggle : World → Rebalance → Juggle
  lru_maintainer_juggle w b = juggle_within 100 500 w b
