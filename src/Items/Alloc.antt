-- ===== src/Items/Alloc.antt =====
-- slabs_curd/items.c: the memory for a new item or chunk, which is made by pulling the tails of the
-- queues when the slab allocator has none, and the header of the item. The answers of the heap and
-- of the locks are arguments, one record for each attempt. `printed` is the number of characters that
-- snprintf writes for the flags and the length. A class number of 0 asks for no memory, and then
-- the byte count, which the code leaves unset, is not used.
pub mod Owned
pub mod Fresh
use analysis_memcached.Prelude.{
  ℕ, zero, suc, ◌+◌, ◌-◌, ◌*◌, ◌/◌, ◌%◌, ◌^◌, Bool, true, false, not, ◌&&◌, ◌||◌, List, length, ltb,
  leb, ◌==◌, if◌then◌else◌, sub32, sub64,
}
use analysis_memcached.Item.{Item, Settings, Flags, sizeof_item, sizeof_item_chunk, sizeof_cas}
use analysis_memcached.Slabs.{Slabs, do_slabs_alloc, slabs_clsid}
use analysis_memcached.Slabs.Reassign.{Rebalance}
use analysis_memcached.Items.{
  World, Itemstats, item_at, set_item, tick, hot_lru, cold_lru, temp_lru,
}
use analysis_memcached.Items.Pull.{Pull, PullFlags, PullCall, count, lru_pull_tail}

-- What the environment answers in one attempt.
pub record Answers : Type 0 where
  pub compat_lock : ℕ → Bool
  pub evict_lock : ℕ → Bool
  pub hot_lock : ℕ → Bool
  pub free : Bool
  pub granted : Bool
  pub given : ℕ

abbrev pub no_pull_flags : PullFlags
no_pull_flags = record { evict = false; crawl_blocks = false; return_item = false }

unfoldable pub item_make_header : Settings → (ℕ → ℕ → ℕ) → ℕ → ℕ → ℕ → ℕ × ℕ
item_make_header settings printed nkey flags nbytes =
    let nsuffix =
      if settings.inline_ascii_response
      then printed flags (nbytes - 2) % 2 ^ 8
      else if flags == 0
      then 0
      else 4 in
    (sizeof_item + nkey % 2 ^ 8 + nsuffix + nbytes, nsuffix)

-- A part of the world's memory, and the address of the item, 0 for NULL.
pub record Alloc : Type 0 where
  pub world : World
  pub rebal : Rebalance
  pub it : ℕ

-- An attempt ends with memory, without, or asks for another.
pub data Attempt : Type 0 where
  again : World → Rebalance → Attempt
  done : Alloc → Attempt

module _ (hash : List ℕ → ℕ) (settings : Settings) (chunks walks : ℕ) where
  abbrev pulls : ℕ → ℕ → ℕ → Bool → (ℕ → Bool) → Bool → World → Rebalance → Pull
  pulls id cur_lru total_bytes evict trylock free =
      lru_pull_tail hash settings chunks
        record {
          orig_id = id;
          cur_lru = cur_lru;
          total_bytes = total_bytes;
          flags = record { evict = evict; crawl_blocks = false; return_item = false };
          max_age = 0;
          trylock = trylock;
          free = free;
        }
        walks

  -- No memory was found: the tail of the cold queue is evicted, or that of the hot queue is moved.
  unfoldable pub make_room : ℕ → ℕ → Answers → World → Rebalance → Attempt
  unfolding lru_pull_tail
  make_room id total_bytes a w b =
      let cold = pulls id cold_lru total_bytes true a.evict_lock a.free w b in
      let hot = pulls id hot_lru total_bytes false a.hot_lock a.free cold.world cold.rebal in
      if ltb 0 cold.removed
      then again cold.world cold.rebal
      else if settings.lru_segmented
      then again hot.world hot.rebal
      else done record { world = cold.world; rebal = cold.rebal; it = 0 }

  unfoldable pub attempt : ℕ → ℕ → Answers → World → Rebalance → Attempt
  unfolding make_room do_slabs_alloc
  attempt ntotal id a w b =
      let compat = pulls id cold_lru 0 false a.compat_lock a.free w b in
      let v = if settings.lru_segmented then w else compat.world in
      let c = if settings.lru_segmented then b else compat.rebal in
      let (slabs, it) = do_slabs_alloc settings v.slabs ntotal id false a.granted a.given in
      let held : World = record v { slabs = slabs } in
      let requested = (v.slabs.class id).requested in
      let temp = held.sizes_bytes (id % 64 + temp_lru) % 2 ^ 32 in
      let total_bytes = if settings.temp_lru then sub64 requested temp else requested in
      if it == 0
      then make_room id total_bytes a held c
      else done record { world = held; rebal = c; it = it }

  abbrev counted : World → ℕ → ℕ → World
  counted w id i =
      count w id
        (λ (s : Itemstats). record s { direct_reclaims = (s.direct_reclaims + i) % 2 ^ 64 })

  abbrev reclaims : Alloc → ℕ → ℕ → Alloc
  reclaims r id i = if i == 0 then r else record r { world = counted r.world id i }

  -- The loop with `left` attempts to go, after `i` of them.
  unfoldable pub pull_loop : ℕ → ℕ → ℕ → ℕ → (ℕ → Answers) → World → Rebalance → Alloc
  unfolding attempt
  pull_loop zero i ntotal id answers w b = reclaims record { world = w; rebal = b; it = 0 } id i
  pull_loop (suc left) i ntotal id answers w b = elim (attempt ntotal id (answers i) w b) [
    | again v c ↦ pull_loop left (suc i) ntotal id answers v c
    | done r ↦ reclaims r id i
  ]

  unfoldable pub do_item_alloc_pull : ℕ → ℕ → (ℕ → Answers) → World → Rebalance → Alloc
  unfolding pull_loop
  do_item_alloc_pull ntotal id answers w b = pull_loop 10 0 ntotal id answers w b

  unfoldable pub do_item_alloc_chunk : ℕ → ℕ → (ℕ → Answers) → World → Rebalance → Alloc
  unfolding do_item_alloc_pull slabs_clsid
  do_item_alloc_chunk ch bytes_remain answers w b =
      let full = bytes_remain + sizeof_item_chunk in
      let size =
        if ltb settings.slab_chunk_size_max full then settings.slab_chunk_size_max else full in
      let id = slabs_clsid settings w.slabs size in
      let r = do_item_alloc_pull size id answers w b in
      let linked = set_item r.world ch (record (item_at r.world ch) { next = r.it }) in
      let c = item_at linked r.it in
      if r.it == 0 then r else record r {
        world = set_item linked r.it (record c {
          head = (item_at r.world ch).head;
          prev = ch;
          next = 0;
          used = 0;
          slabs_clsid = id;
          size = size - sizeof_item_chunk;
          it_flags = record (c.it_flags) { chunk = true };
        });
      }

  -- The queue a new item goes to.
  unfoldable pub first_lru : World → ℕ → ℕ
  first_lru w exptime =
      if settings.temp_lru && leb (sub32 exptime w.current_time) settings.temporary_ttl
      then temp_lru
      else if settings.lru_segmented
      then hot_lru
      else cold_lru

  -- The header of an allocated item; `hdr_id` is the class of the header of a chunked item.
  unfoldable pub dress : World → ℕ → ℕ → ℕ → ℕ → ℕ → ℕ → Bool → List ℕ → ℕ → ℕ → World
  unfolding first_lru
  dress w it id hdr_id flags nsuffix nbytes large key exptime data_at =
      let c = item_at w it in
      let dressed = set_item w it (record c {
        next = 0;
        prev = 0;
        slabs_clsid = id + first_lru w exptime;
        it_flags = record (c.it_flags) {
          chunked = c.it_flags.chunked || large;
          cas = c.it_flags.cas || settings.use_cas;
        };
        key = key;
        nbytes = nbytes;
        exptime = exptime;
        nsuffix = nsuffix;
        client_flags = if nsuffix == 0 then c.client_flags else flags;
        first_chunk = data_at;
      }) in
      if (item_at dressed it).it_flags.chunked
      then set_item dressed data_at (record (item_at dressed data_at) {
        next = 0;
        prev = 0;
        used = 0;
        size = 0;
        head = it;
        orig_clsid = hdr_id;
      })
      else dressed

  -- The memory of the item, or the count of a failure.
  unfoldable pub take_memory : ℕ → Bool → ℕ → ℕ → (ℕ → Answers) → World → Rebalance → Alloc
  unfolding do_item_alloc_pull slabs_clsid
  take_memory id large ntotal htotal answers w b =
      let r =
        if large
        then do_item_alloc_pull htotal (slabs_clsid settings w.slabs htotal) answers w b
        else do_item_alloc_pull ntotal id answers w b in
      if r.it == 0
      then record r {
        world = count r.world id (λ (s : Itemstats). record s { outofmemory = tick s.outofmemory });
      }
      else r

  unfoldable pub do_item_alloc :
      (ℕ → ℕ → ℕ) → List ℕ → ℕ → ℕ → ℕ → (ℕ → Answers) → World → Rebalance → Alloc
  unfolding item_make_header slabs_clsid take_memory dress
  do_item_alloc printed key flags exptime nbytes answers w b =
      let nkey = length key in
      let (total, nsuffix) = item_make_header settings printed (nkey + 1) flags nbytes in
      let cas = if settings.use_cas then sizeof_cas else 0 in
      let ntotal = total + cas in
      let id = slabs_clsid settings w.slabs ntotal in
      let large = ltb settings.slab_chunk_size_max ntotal in
      let htotal = nkey + 1 + nsuffix + sizeof_item + sizeof_item_chunk + cas in
      let r = take_memory id large ntotal htotal answers w b in
      let data_at = r.it + sizeof_item + nkey + 1 + nsuffix + cas in
      let fresh : Alloc = record { world = w; rebal = b; it = 0 } in
      if ltb nbytes 2 then fresh else if id == 0 then fresh else if r.it == 0 then r else record r {
        world =
            dress r.world r.it id (if large then slabs_clsid settings w.slabs htotal else 0) flags
              nsuffix nbytes large key exptime data_at;
      }
