-- ===== src/Store/Tests.antt =====
-- The item of key 7 is set, got and counted up.
use analysis_memcached.Prelude.{
  ℕ, ◌+◌, ◌%◌, ◌^◌, ◌<◌, arith, ◌≡◌, refl, true, false, none, some, [], ◌∷◌, ◌==◌, if◌then◌else◌,
}
use analysis_memcached.Item.{default_settings, item_ntotal, item_set_cas, item_get_cas}
use analysis_memcached.Assoc.{
  assoc_init, assoc_insert, assoc_find, bucket, find_in, same_key, memcmp_eq, chain_for, with_chain,
  in_old,
}
use analysis_memcached.Slabs.{cleared}
use analysis_memcached.Slabs.Reassign.{Rebalance}
use analysis_memcached.Prelude.Int.{pos}
use analysis_memcached.Items.{
  World, item_at, item_key, set_item, do_item_link_q, do_item_link, item_stats_sizes_add, with_hist,
  refcount_incr, admit, get_cas_id, item_is_flushed,
}
use analysis_memcached.Items.Get.{do_item_get}
use analysis_memcached.Items.Hits.{alive}
use analysis_memcached.Items.Alloc.{Answers}
use analysis_memcached.Items.Sample.{start, one, thread, encode}
use analysis_memcached.Store.{Env, do_store_item, nread_add, nread_set}
use analysis_memcached.Store.Outcome.{Allowed, cas_at, do_store_item-Allowed, set-get}
use analysis_memcached.Store.Delta.{Libc, non_numeric, do_add_delta, safe_strtoull, cas_differs}
use analysis_memcached.Store.Delta.Kept.{Answered, no_number, do_add_delta-leak, do_add_delta-buf}

-- Everything that a run computes with.
program : Unit {0}
unfolding item_ntotal item_set_cas item_get_cas cleared assoc_init assoc_insert assoc_find bucket
    find_in same_key memcmp_eq chain_for with_chain in_old do_item_link_q do_item_link
    item_stats_sizes_add with_hist refcount_incr admit get_cas_id item_is_flushed safe_strtoull
    cas_differs
program = tt

abbrev env : Env
env = record {
  encode = encode;
  hash = λ k. 1;
  printed = λ flags n. 6;
  chunks = 0;
  walks = 6;
  copies = 0;
}

abbrev idle : Rebalance
idle = record { signal = 0; s_clsid = pos 0; d_clsid = pos 0; cur = 0 }

abbrev answers : ℕ → Answers
answers i = record {
  compat_lock = λ n. true;
  evict_lock = λ n. true;
  hot_lock = λ n. true;
  free = true;
  granted = true;
  given = 4096;
}

do_store_item-Allowed_example :
    let got = do_item_get encode default_settings 0 one thread (item_at one 100).key 1 false in
    Allowed nread_add
      (item_get_cas (item_at got.0 100))
      (cas_at got.0 got.2)
      (do_store_item env default_settings answers
        (λ n. answers)
        one
        idle
        thread
        0
        100
        nread_add
        1).result
do_store_item-Allowed_example =
    do_store_item-Allowed env default_settings answers (λ n. answers) one idle thread 0 100
      nread_add 1

absent : assoc_find (item_key start) start.table (item_at start 100).key 1 ≡ none
unfolding program
absent = refl

set-get_example :
    let v =
      (do_store_item env default_settings answers
        (λ n. answers)
        start
        idle
        thread
        0
        100
        nread_set
        1).world in
    let r = do_item_get encode default_settings 0 v thread (item_at v 100).key 1 false in
    (r.2 ≡ (if alive default_settings v 100 then some 100 else none))
    × (alive default_settings v 100 ≡ true → r.0 ≡ refcount_incr v 100)
set-get_example =
    set-get env default_settings answers (λ n. answers) start idle thread 0 100 1 absent

-- The value is the digit 5 and the end of line.
abbrev numbered : World
numbered = set_item one 100 (record (item_at one 100) { nbytes = 3; value = 53 ∷ 13 ∷ 10 ∷ [] })

abbrev libc : Libc
libc = record {
  strtoull = λ str. (5, 1, false);
  isspace = λ c. c == 13;
  decimal = λ n. (48 + n) ∷ [];
}

found : assoc_find (item_key one) one.table (7 ∷ []) 1 ≡ some 100
unfolding program
found = refl

live : alive default_settings one 100 ≡ true
unfolding program
live = refl

short : no_number (item_at one 100) ≡ true
unfolding program
short = refl

do_add_delta-leak_example :
    let r = do_add_delta env libc default_settings answers one idle thread (7 ∷ []) true 1 none 1 in
    (r.result ≡ non_numeric) × (r.world ≡ refcount_incr one 100)
do_add_delta-leak_example =
    do_add_delta-leak env libc default_settings true 1 answers 1 100 one idle thread (7 ∷ []) none
      found live short

number_found : assoc_find (item_key numbered) numbered.table (7 ∷ []) 1 ≡ some 100
unfolding program
number_found = refl

number_live : alive default_settings numbered 100 ≡ true
unfolding program
number_live = refl

number_long : no_number (item_at numbered 100) ≡ false
unfolding program
number_long = refl

any_cas : cas_differs none (item_at numbered 100) ≡ false
unfolding program
any_cas = refl

abbrev five : ℕ
five = 5

number_read : safe_strtoull libc (item_at numbered 100).value ≡ some five
unfolding program
number_read = refl

number_held : 0 < (item_at numbered 100).refcount
unfolding program
number_held = omega arith

number_room : (item_at numbered 100).refcount < 65535
unfolding program
number_room = omega arith

do_add_delta-buf_example :
    Answered
      (libc.decimal ((five + 1) % 2 ^ 64))
      (do_add_delta env libc default_settings answers numbered idle thread (7 ∷ []) true 1 none 1)
do_add_delta-buf_example =
    do_add_delta-buf env libc default_settings true 1 answers 1 100 numbered idle thread (7 ∷ [])
      none five number_found number_live number_long any_cas number_read number_held number_room
