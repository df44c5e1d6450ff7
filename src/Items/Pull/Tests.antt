-- ===== src/Items/Pull/Tests.antt =====
-- The memory for a new item.
use analysis_memcached.Prelude.{ℕ, ◌+◌, ◌≡◌, ◌⊎◌, true, List, [], ◌∷◌, length, if◌then◌else◌}
use analysis_memcached.Prelude.Int.{pos}
use analysis_memcached.Item.{default_settings, sizeof_cas}
use analysis_memcached.Slabs.{slabs_clsid}
use analysis_memcached.Slabs.Reassign.{Rebalance}
use analysis_memcached.Items.{item_at}
use analysis_memcached.Items.Sample.{start}
use analysis_memcached.Items.Alloc.{Answers, item_make_header, do_item_alloc, first_lru}
use analysis_memcached.Items.Alloc.Fresh.{Prepared, do_item_alloc-Prepared}

abbrev idle : Rebalance
idle = record { signal = 0; s_clsid = pos 0; d_clsid = pos 0; cur = 0 }

abbrev one_hash : List ℕ → ℕ
one_hash key = 1

abbrev answers : ℕ → Answers
answers i = record {
  compat_lock = λ n. true;
  evict_lock = λ n. true;
  hot_lock = λ n. true;
  free = true;
  granted = true;
  given = 4096;
}

abbrev key_nine : List ℕ
key_nine = 9 ∷ []

abbrev no_suffix : ℕ → ℕ → ℕ
no_suffix flags nbytes = 6

do_item_alloc-Prepared_example :
    let total = (item_make_header default_settings no_suffix (length key_nine + 1) 0 5).0 in
    let ntotal = total + (if default_settings.use_cas then sizeof_cas else 0) in
    let r =
      do_item_alloc one_hash default_settings 0 6 no_suffix key_nine 0 0 5 answers start idle in
    (r.it ≡ 0)
    ⊎ Prepared
        (slabs_clsid default_settings start.slabs ntotal)
        key_nine
        0
        5
        (first_lru one_hash default_settings 0 6 r.world 0)
        (item_at r.world r.it)
do_item_alloc-Prepared_example =
    do_item_alloc-Prepared one_hash default_settings 0 6 no_suffix key_nine 0 0 5 answers start idle
