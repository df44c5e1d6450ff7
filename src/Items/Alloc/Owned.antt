-- ===== src/Items/Alloc/Owned.antt =====
-- The memory that an allocation hands out has one reference.
use analysis_memcached.Prelude.{
  ℕ, zero, suc, ◌+◌, ◌≡◌, ◌⊎◌, inl, inr, refl, Bool, true, false, not, ◌&&◌, ◌||◌, List, ◌==◌, ltb,
  if◌then◌else◌, if_elim, arith, sub64, ◌%◌, ◌^◌,
}
use analysis_memcached.Item.{Settings, power_smallest}
use analysis_memcached.Slabs.{Slabs, do_slabs_alloc, do_slabs_newslab, pop_free, slabs_clsid}
use analysis_memcached.Slabs.Reassign.{Rebalance}
use analysis_memcached.Items.{World, item_at, cold_lru, temp_lru}
use analysis_memcached.Items.Alloc.{
  Alloc, Answers, Attempt, again, done, attempt, make_room, reclaims, pull_loop, do_item_alloc_pull,
  take_memory, pulls,
}

-- No memory, or a chunk with one reference.
abbrev pub IsOwned : World → ℕ → Type 0
IsOwned w it = (it ≡ 0) ⊎ ((item_at w it).refcount ≡ 1)

abbrev Ends : Attempt → Type 0
Ends (again w b) = Unit
Ends (done r) = IsOwned r.world r.it

abbrev OwnedChunk : Slabs × ℕ → Type 0
OwnedChunk r = (r.1 ≡ 0) ⊎ ((r.0.mem r.1).refcount ≡ 1)

popped : (s : Slabs) (id size : ℕ) → OwnedChunk (pop_free s id size)
unfolding pop_free
popped s id size = inr (ground arith)

do_slabs_alloc_owned :
    (settings : Settings) (s : Slabs) (size id : ℕ) (no_newpage granted : Bool) (given : ℕ)
    → OwnedChunk (do_slabs_alloc settings s size id no_newpage granted given)
unfolding do_slabs_alloc
do_slabs_alloc_owned settings s size id no_newpage granted given =
    let t =
      if (s.class id).sl_curr == 0 && not no_newpage
      then (do_slabs_newslab settings s id granted given).0
      else s in
    if_elim OwnedChunk (ltb id power_smallest || ltb s.power_largest id) (λ _. inl refl)
      λ _. if_elim OwnedChunk ((t.class id).sl_curr == 0) (λ _. inl refl) (λ _. popped t id size)

pub no_memory : (n : ℕ) → (n == 0) ≡ true → n ≡ 0
no_memory n e = ground (arith, e)

module _ (hash : List ℕ → ℕ) (settings : Settings) (chunks walks : ℕ) where
  make_room-Ends :
      (id total_bytes : ℕ) (a : Answers) (w : World) (b : Rebalance)
      → Ends (make_room hash settings chunks walks id total_bytes a w b)
  unfolding make_room
  make_room-Ends id total_bytes a w b =
      let cold =
        pulls hash settings chunks walks id cold_lru total_bytes true a.evict_lock a.free w b in
      if_elim Ends (ltb 0 cold.removed) (λ _. tt)
        λ _. if_elim Ends settings.lru_segmented (λ _. tt) (λ _. inl refl)

  attempt-Ends :
      (ntotal id : ℕ) (a : Answers) (w : World) (b : Rebalance)
      → Ends (attempt hash settings chunks walks ntotal id a w b)
  unfolding attempt
  attempt-Ends ntotal id a w b =
      let compat = pulls hash settings chunks walks id cold_lru 0 false a.compat_lock a.free w b in
      let v = if settings.lru_segmented then w else compat.world in
      let c = if settings.lru_segmented then b else compat.rebal in
      let r = do_slabs_alloc settings v.slabs ntotal id false a.granted a.given in
      let held : World = record v { slabs = r.0 } in
      let requested = (v.slabs.class id).requested in
      let temp = held.sizes_bytes (id % 64 + temp_lru) % 2 ^ 32 in
      let total_bytes = if settings.temp_lru then sub64 requested temp else requested in
      if_elim Ends (r.1 == 0) (λ _. make_room-Ends id total_bytes a held c)
        (λ _. do_slabs_alloc_owned settings v.slabs ntotal id false a.granted a.given)

  reclaims-IsOwned :
      (r : Alloc) (id i : ℕ)
      → IsOwned r.world r.it
      → let s = reclaims hash settings chunks walks r id i in IsOwned s.world s.it
  reclaims-IsOwned r id i h =
      if_elim (λ (s : Alloc). IsOwned s.world s.it) (i == 0) (λ _. h) (λ _. h)

  pull_loop-IsOwned :
      (left i ntotal id : ℕ) (answers : ℕ → Answers) (w : World) (b : Rebalance)
      → let r = pull_loop hash settings chunks walks left i ntotal id answers w b in
        IsOwned r.world r.it
  unfolding pull_loop
  pull_loop-IsOwned zero i ntotal id answers w b =
      reclaims-IsOwned record { world = w; rebal = b; it = 0 } id i (inl refl)
  pull_loop-IsOwned (suc left) i ntotal id answers w b =
      ended (λ v c. pull_loop hash settings chunks walks left (suc i) ntotal id answers v c)
        (λ v c. pull_loop-IsOwned left (suc i) ntotal id answers v c)
        (attempt hash settings chunks walks ntotal id (answers i) w b)
        (attempt-Ends ntotal id (answers i) w b)
    where
      ended :
          (rest : World → Rebalance → Alloc)
          → ((v : World) (c : Rebalance) → IsOwned (rest v c).world (rest v c).it)
          → (t : Attempt) → Ends t
          → let r : Alloc = elim t [
            | again v c ↦ rest v c
            | done r ↦ reclaims hash settings chunks walks r id i
          ] in
            IsOwned r.world r.it
      ended rest g (again v c) e = g v c
      ended rest g (done r) e = reclaims-IsOwned r id i e

  pub take_memory-IsOwned :
      (id : ℕ) (large : Bool) (ntotal htotal : ℕ) (answers : ℕ → Answers) (w : World)
      (b : Rebalance)
      → let r = take_memory hash settings chunks walks id large ntotal htotal answers w b in
        IsOwned r.world r.it
  unfolding take_memory do_item_alloc_pull
  take_memory-IsOwned id large ntotal htotal answers w b =
      let O : Alloc → Type 0 = λ (r : Alloc). IsOwned r.world r.it in
      let header = slabs_clsid settings w.slabs htotal in
      let r =
        if large
        then do_item_alloc_pull hash settings chunks walks htotal header answers w b
        else do_item_alloc_pull hash settings chunks walks ntotal id answers w b in
      let owned : O r =
        if_elim O large (λ _. pull_loop-IsOwned 10 0 htotal header answers w b)
          (λ _. pull_loop-IsOwned 10 0 ntotal id answers w b) in
      if_elim O (r.it == 0) (λ e. inl (no_memory r.it e)) (λ _. owned)
