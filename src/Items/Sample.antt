-- ===== src/Items/Sample.antt =====
-- Two items of class 1 in a memory, a world with one of them linked, and a thread.
use analysis_memcached.Prelude.{ℕ, false, none, List, [], ◌∷◌, ◌==◌, if◌then◌else◌}
use analysis_memcached.Item.{Mem, default_settings}
use analysis_memcached.Assoc.{assoc_init}
use analysis_memcached.Slabs.{Slabs, no_class, cleared}
use analysis_memcached.Items.{World, Itemstats, do_item_link}
use analysis_memcached.Items.Get.{LruBumpBuf, Thread}

-- Items 100 and 200 hold the keys 7 and 8, and one reference each.
abbrev pub items : Mem
items a =
    if a == 100
    then record cleared { key = 7 ∷ []; refcount = 1; slabs_clsid = 1 }
    else if a == 200
    then record cleared { key = 8 ∷ []; refcount = 1; slabs_clsid = 1 }
    else cleared

abbrev pub slabs : Slabs
slabs = record {
  mem = items;
  class = λ i. no_class;
  mem_limit = 0;
  mem_malloced = 0;
  mem_limit_reached = false;
  power_largest = 2;
  mem_base = 0;
  mem_current = 0;
  mem_avail = 0;
}

abbrev pub no_stats : Itemstats
no_stats = record {
  evicted = 0;
  evicted_nonzero = 0;
  reclaimed = 0;
  outofmemory = 0;
  tailrepairs = 0;
  expired_unfetched = 0;
  evicted_unfetched = 0;
  evicted_active = 0;
  crawler_reclaimed = 0;
  crawler_items_checked = 0;
  lrutail_reflocked = 0;
  moves_to_cold = 0;
  moves_to_warm = 0;
  moves_within_lru = 0;
  direct_reclaims = 0;
  hits_to_hot = 0;
  hits_to_warm = 0;
  hits_to_cold = 0;
  hits_to_temp = 0;
  evicted_time = 0;
}

abbrev pub start : World
start = record {
  slabs = slabs;
  heads = λ i. 0;
  tails = λ i. 0;
  sizes = λ i. 0;
  sizes_bytes = λ i. 0;
  itemstats = λ i. no_stats;
  table = assoc_init 1;
  cas_id = 0;
  curr_bytes = 0;
  curr_items = 0;
  total_items = 0;
  current_time = 1000;
  hist = none;
  hist_cas_min = 0;
  hist_buckets = 0;
}

abbrev pub one : World
one = do_item_link default_settings start 100 1

abbrev pub bumps : LruBumpBuf
bumps = record {
  buf = record { size = 64; a_start = 0; a_end = 0; b_end = 0; b_inuse = false; bytes = λ i. 0 };
  dropped = 0;
}

abbrev pub thread : Thread
thread = record {
  get_flushed = 0;
  get_expired = 0;
  cas_misses = 0;
  cas_hits = λ i. 0;
  cas_badval = λ i. 0;
  incr_hits = λ i. 0;
  decr_hits = λ i. 0;
  lru_bump_buf = bumps;
}

abbrev pub encode : ℕ → ℕ → List ℕ
encode it hv = it ∷ hv ∷ []
