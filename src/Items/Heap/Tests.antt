-- ===== src/Items/Heap/Tests.antt =====
-- An item that is linked, replaced and unlinked in a memory without free chunks.
use analysis_memcached.Prelude.{ℕ, ◌≤◌, ◌≡◌, Fresh, refl, true, List, [], ◌∷◌, ◌++◌, arith}
use analysis_memcached.Prelude.Memory.{update}
use analysis_memcached.Item.{default_settings, item_ntotal, item_clsid, item_set_cas, item_get_cas}
use analysis_memcached.Slabs.{cleared, do_slabs_free, do_slabs_alloc, push_free}
use analysis_memcached.Assoc.{
  assoc_init, assoc_insert, assoc_delete, bucket, same_key, memcmp_eq, chain_for, with_chain, cut,
  in_old,
}
use analysis_memcached.Items.{
  World, item_at, do_item_link_q, do_item_unlink_q, do_item_link, do_item_unlink, do_item_replace,
  do_item_remove, item_free, item_stats_sizes_add, item_stats_sizes_remove, with_hist, with_table,
  refcount_incr, refcount_decr, admit, get_cas_id, forget, dismiss, discount,
}
use analysis_memcached.Items.Sample.{start, one}
use analysis_memcached.Items.Heap.{Heap}
use analysis_memcached.Items.Heap.Release.{IsPlain, released}
use analysis_memcached.Items.Heap.Life.{
  do_item_link-Heap, do_item_unlink-Heap, do_item_replace-Heap,
}
use analysis_memcached.Items.Heap.Steps.{
  Memory, here, next, link, unlink, release, hand_out, InOrder, Reach-InOrder,
}

-- Everything that a run computes with.
program : Unit {0}
unfolding item_ntotal item_clsid item_set_cas item_get_cas cleared assoc_init assoc_insert
    assoc_delete bucket same_key memcmp_eq chain_for with_chain cut in_old do_item_link_q
    do_item_unlink_q do_item_link do_item_unlink do_item_replace do_item_remove item_free
    item_stats_sizes_add item_stats_sizes_remove with_hist with_table refcount_incr refcount_decr
    admit get_cas_id forget dismiss discount do_slabs_free push_free
program = tt

abbrev none_free : ℕ → List ℕ
none_free i = []

start-Heap : Heap start none_free none_free
start-Heap = record {
  queues = λ i. record {
    links = refl;
    tail = refl;
    distinct = tt;
    home = tt;
    counted = refl;
    weighed = refl;
  };
  no_home = refl;
  frees = λ i. record { links = refl; slabbed = tt; distinct = tt; counted = refl };
  zeroed = λ i. tt;
  apart = λ i j n. tt;
}

abbrev begin : Memory
begin = record { world = start; queues = none_free; frees = none_free }

abbrev home : ℕ
home = (item_at start 100).slabs_clsid

abbrev queues : ℕ → List ℕ
queues = update none_free home (100 ∷ [])

abbrev linked : Memory
linked = record begin { world = one; queues = queues }

class_one : home ≡ 1
unfolding program
class_one = refl

class_two : (item_at one 100).slabs_clsid ≡ 1
unfolding program
class_two = refl

one-IsPlain : IsPlain one 100
one-IsPlain = record {
  nonzero = λ e. omega (arith, e);
  class = λ e. omega (arith, e, class_two);
  whole = unfold program in refl;
  above = unfold program in omega arith;
  below = unfold program in omega arith;
}

one-Heap : Heap one queues none_free
one-Heap =
    do_item_link-Heap default_settings start none_free none_free start-Heap 100 1
      (λ e. omega (arith, e)) (λ e. omega (arith, e, class_one)) tt

queue_1 : queues (item_at one 100).slabs_clsid ≡ [] ++ 100 ∷ []
unfolding program
queue_1 = refl

is_linked : (item_at one 100).it_flags.linked ≡ true
unfolding program
is_linked = refl

abbrev unlinked : World
unlinked = do_item_unlink default_settings 0 one 100 1

abbrev left : ℕ → List ℕ
left = update queues (item_at one 100).slabs_clsid ([] ++ [])

do_item_unlink-Heap_example : Heap unlinked left (released one 100 none_free)
do_item_unlink-Heap_example =
    do_item_unlink-Heap default_settings one queues none_free one-Heap 100 1 0 [] [] one-IsPlain
      queue_1 is_linked

class_three : (item_at unlinked 200).slabs_clsid ≡ 1
unfolding program
class_three = refl

do_item_replace-Heap_example :
    Heap
      (do_item_replace default_settings 0 one 100 200 1)
      (update left
        (item_at unlinked 200).slabs_clsid
        (200 ∷ left (item_at unlinked 200).slabs_clsid))
      (released one 100 none_free)
do_item_replace-Heap_example =
    do_item_replace-Heap default_settings 0 one queues none_free 100 200 1 [] [] one-Heap
      one-IsPlain queue_1 is_linked (λ e. omega (arith, e)) (λ e. omega (arith, e, class_three))
      (unfold program in tt)

abbrev final : Memory
final = record linked { world = unlinked; queues = left; frees = released one 100 none_free }

one_holder : (item_at unlinked 100).refcount ≡ 1
unfolding program
one_holder = refl

unlinked-IsPlain : IsPlain unlinked 100
unlinked-IsPlain = record {
  nonzero = λ e. omega (arith, e);
  class = unfold program in λ e. omega (arith, e);
  whole = unfold program in refl;
  above = unfold program in omega arith;
  below = unfold program in omega arith;
}

off_queue : Fresh 100 (left (item_at unlinked 100).slabs_clsid)
unfolding program
off_queue = tt

abbrev frees : ℕ → List ℕ
frees = released unlinked 100 (released one 100 none_free)

is_free : frees 1 ≡ 100 ∷ []
unfolding program
is_free = refl

abbrev removed : Memory
removed = record final { world = do_item_remove default_settings 0 unlinked 100; frees = frees }

class_used : 1 ≤ removed.world.slabs.power_largest
unfolding program
class_used = omega arith

abbrev again : Memory
again = record removed {
  world = record (removed.world) {
    slabs = (do_slabs_alloc default_settings removed.world.slabs 50 1 true true 0).0;
  };
  frees = update frees 1 [];
}

-- An item is linked, unlinked and removed, and its chunk is handed out again.
Reach-InOrder_example : InOrder again
Reach-InOrder_example = Reach-InOrder default_settings {m = begin} start-Heap (
    next {u = removed}
      (next {u = final}
        (next {u = linked}
          (next {u = begin} here
            (link begin 100 1 (λ e. omega (arith, e)) (λ e. omega (arith, e, class_one)) tt))
          (unlink linked 100 1 0 [] [] one-IsPlain queue_1 is_linked))
        (release final 100 0 unlinked-IsPlain (λ _. off_queue)))
      (hand_out removed 50 1 100 [] true true 0 (omega arith) class_used is_free))
