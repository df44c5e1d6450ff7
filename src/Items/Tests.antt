-- ===== src/Items/Tests.antt =====
-- Two items of class 1 that are linked, accessed, replaced and unlinked, and the theorems there.
use analysis_memcached.Prelude.{
  ℕ, ◌+◌, ◌%◌, ◌^◌, ◌≡◌, refl, true, false, none, some, List, [], ◌∷◌, ◌++◌, arith, if◌then◌else◌,
}
use analysis_memcached.Prelude.Memory.{update}
use analysis_memcached.Item.{default_settings, item_ntotal, item_set_cas, item_get_cas}
use analysis_memcached.Assoc.{
  assoc_init, assoc_insert, assoc_delete, assoc_find, bucket, find_in, same_key, memcmp_eq,
  chain_for, with_chain, cut, in_old,
}
use analysis_memcached.Slabs.{cleared}
use analysis_memcached.Items.{
  World, item_at, item_key, do_item_link_q, do_item_unlink_q, do_item_link, do_item_unlink,
  do_item_replace, do_item_update_nolock, do_item_remove, item_free, item_stats_sizes_add,
  item_stats_sizes_remove, with_hist, with_table, refcount_incr, refcount_decr, admit, get_cas_id,
  forget, dismiss, discount, is_stale,
}
use analysis_memcached.Items.Sample.{start, one, thread, encode}
use analysis_memcached.Items.Order.{Queues}
use analysis_memcached.Items.Effects.{do_item_link-Queues}
use analysis_memcached.Items.Get.{do_item_get}
use analysis_memcached.Items.Hits.{alive, do_item_get-alive}
use analysis_memcached.Items.Found.{do_item_link-found}

-- Everything that a run computes with.
program : Unit {0}
unfolding item_ntotal item_set_cas item_get_cas cleared assoc_init assoc_insert assoc_delete
    assoc_find bucket find_in same_key memcmp_eq chain_for with_chain cut in_old do_item_link_q
    do_item_unlink_q do_item_link do_item_unlink do_item_replace do_item_update_nolock
    do_item_remove item_free item_stats_sizes_add item_stats_sizes_remove with_hist with_table
    refcount_incr refcount_decr admit get_cas_id forget dismiss discount is_stale
program = tt

start-Queues : Queues start (λ i. [])
start-Queues i = record {
  links = refl;
  tail = refl;
  distinct = tt;
  home = tt;
  counted = refl;
  weighed = refl;
}

one_found : assoc_find (item_key one) one.table (7 ∷ []) 1 ≡ some 100
unfolding program
one_found = refl

abbrev queues : ℕ → List ℕ
queues = update (λ i. []) (item_at start 100).slabs_clsid (100 ∷ [])

one-Queues : Queues one queues
one-Queues =
    do_item_link-Queues default_settings start (λ i. []) start-Queues 100 1
      (λ e. absurd (omega (arith, e))) tt

queue_1 : queues (item_at one 100).slabs_clsid ≡ 100 ∷ []
unfolding program
queue_1 = refl

is_linked : (item_at one 100).it_flags.linked ≡ true
unfolding program
is_linked = refl

referenced : (item_at one 100).refcount ≡ 2
unfolding program
referenced = refl

do_item_link-found_example :
    ((item_at one 100).it_flags.linked ≡ true)
    × ((item_at one 100).refcount ≡ ((item_at start 100).refcount + 1) % 2 ^ 16)
    × (assoc_find (item_key one) one.table (item_key one 100) 1 ≡ some 100)
do_item_link-found_example = do_item_link-found default_settings start 100 1

abbrev unlinked : World
unlinked = do_item_unlink default_settings 0 one 100 1

abbrev left : ℕ → List ℕ
left = update queues (item_at one 100).slabs_clsid ([] ++ [])

do_item_get-alive_example :
    let r = do_item_get encode default_settings 0 one thread (7 ∷ []) 1 false in
    (r.2 ≡ (if alive default_settings one 100 then some 100 else none))
    × (alive default_settings one 100 ≡ true → r.0 ≡ refcount_incr one 100)
do_item_get-alive_example =
    do_item_get-alive encode default_settings 0 one thread (7 ∷ []) 1 100 one_found
