-- ===== src/Items/Juggle/Bound.antt =====
-- How long a visit of the maintainer lasts.
use analysis_memcached.Prelude.{
  ℕ, zero, suc, ◌+◌, ◌≤◌, false, List, ◌==◌, if◌then◌else◌, if_elim, arith, sub64, ◌%◌, ◌^◌,
}
use analysis_memcached.Item.{Settings}
use analysis_memcached.Slabs.Reassign.{Rebalance}
use analysis_memcached.Items.{World, temp_lru}
use analysis_memcached.Items.Juggle.{
  Juggle, Locks, pulled, reclaim_temp, juggle_round, juggle_loop, cold_age, juggle_within,
  lru_maintainer_juggle,
}

module _ (hash : List ℕ → ℕ) (settings : Settings) (chunks walks id : ℕ) (locks : Locks) where
  reclaim_temp_bound :
      (left n : ℕ) (s : Juggle)
      → s.did_moves + left ≤ n
      → (reclaim_temp hash settings chunks walks id locks left s).did_moves ≤ n
  unfolding reclaim_temp
  reclaim_temp_bound zero n s h = omega (arith, h)
  reclaim_temp_bound (suc left) n s h =
      let p =
        pulled hash settings chunks walks id locks temp_lru 0 false 0 (locks.temp_lock left) s.world
          s.rebal in
      if_elim (λ (t : Juggle). t.did_moves ≤ n) (p.removed == 0) (λ _. omega (arith, h))
        (λ _.
          reclaim_temp_bound left n
            record { world = p.world; rebal = p.rebal; did_moves = s.did_moves + 1 }
            (omega (arith, h)))

  juggle_loop_bound :
      (left total_bytes hot_age warm_age n : ℕ) (s : Juggle)
      → s.did_moves + left ≤ n
      → (juggle_loop hash settings chunks walks id locks left total_bytes hot_age warm_age
          s).did_moves
        ≤ n
  unfolding juggle_loop juggle_round
  juggle_loop_bound zero total_bytes hot_age warm_age n s h = omega (arith, h)
  juggle_loop_bound (suc left) total_bytes hot_age warm_age n s h =
      let r =
        juggle_round hash settings chunks walks id locks total_bytes hot_age warm_age left s in
      if_elim (λ (t : Juggle). t.did_moves ≤ n) r.1
        (λ _.
          juggle_loop_bound left total_bytes hot_age warm_age n
            (record (r.0) { did_moves = r.0.did_moves + 1 }) (omega (arith, h)))
        (λ _. omega (arith, h))

  juggle_within_bound :
      (temp_rounds rounds : ℕ) (w : World) (b : Rebalance)
      → (juggle_within hash settings chunks walks id locks temp_rounds rounds w b).did_moves
        ≤ temp_rounds + rounds
  unfolding juggle_within
  juggle_within_bound temp_rounds rounds w b =
      let requested = (w.slabs.class id).requested in
      let fresh : Juggle = record { world = w; rebal = b; did_moves = 0 } in
      let s =
        if settings.temp_lru
        then reclaim_temp hash settings chunks walks id locks temp_rounds fresh
        else fresh in
      let reclaimed : s.did_moves ≤ temp_rounds =
        if_elim (λ (t : Juggle). t.did_moves ≤ temp_rounds) settings.temp_lru
          (λ _. reclaim_temp_bound temp_rounds temp_rounds fresh (omega arith))
          (λ _. omega arith) in
      let total_bytes =
        if settings.temp_lru
        then sub64 requested (s.world.sizes_bytes (id + temp_lru) % 2 ^ 32)
        else requested in
      let age = cold_age hash settings chunks walks id locks s.world in
      juggle_loop_bound rounds total_bytes
        (if settings.lru_segmented then locks.hot_factor age else 0)
        (if settings.lru_segmented then locks.warm_factor age else 0) (temp_rounds + rounds) s
        (omega (arith, reclaimed))

  -- A visit makes no more than 600 moves: 100 in the temporary queue and 500 in the others.
  pub lru_maintainer_juggle_bound :
      (w : World) (b : Rebalance)
      → (lru_maintainer_juggle hash settings chunks walks id locks w b).did_moves ≤ 600
  unfolding lru_maintainer_juggle
  lru_maintainer_juggle_bound w b = juggle_within_bound 100 500 w b
