-- ===== src/Items/Heap/Steps.antt =====
-- The life of items as a relation between states of the memory: the slab allocator hands a chunk
-- out, its header and value are written, the item is linked, held, released and unlinked.
use analysis_memcached.Prelude.{
  ℕ, ◌≤◌, ◌≡◌, ◌≢◌, sym, refl, Bool, true, List, ◌∷◌, ◌++◌, arith, length, Fresh,
}
use mathlib.Core.Path.{subst}
use analysis_memcached.Prelude.Memory.{update}
use analysis_memcached.Item.{Item, Settings, power_smallest}
use analysis_memcached.Slabs.{Slabs, do_slabs_alloc, pop_free}
use analysis_memcached.Slabs.Freelist.{IsFreelist}
use analysis_memcached.Items.{
  World, item_at, set_item, do_item_link, do_item_unlink, do_item_remove, refcount_incr,
}
use analysis_memcached.Items.Linking.{same-Queues, incr-SameQueues}
use analysis_memcached.Items.Heap.{Heap, AgreeOn-zero, agree, agree-IsFreelist, agree-IsQueue}
use analysis_memcached.Items.Heap.Free.{pop-Taken}
use analysis_memcached.Items.Heap.Keep.{Keeps-Heap, incr-Keeps}
use analysis_memcached.Items.Heap.Release.{IsPlain, is_last, released, do_item_remove-Heap}
use analysis_memcached.Items.Heap.Life.{do_item_link-Heap, do_item_unlink-Heap}

-- The world with its queues and its free lists.
pub record Memory : Type 0 where
  pub world : World
  pub queues : ℕ → List ℕ
  pub frees : ℕ → List ℕ

-- The queue that an item of the memory belongs to.
abbrev pub home_queue : Memory → ℕ → List ℕ
home_queue m it = m.queues (item_at m.world it).slabs_clsid

-- The operations; `fuel`, `granted` and `given` are free, for what the steps need is on the lists.
pub data Step (settings : Settings) : Memory → Memory → Type 0 where
  hand_out :
      (m : Memory) (size id it : ℕ) (xs : List ℕ) (no_newpage granted : Bool) (given : ℕ)
      → power_smallest ≤ id
      → id ≤ m.world.slabs.power_largest
      → m.frees id ≡ it ∷ xs
      → Step settings m (record m {
        world = record (m.world) {
          slabs = (do_slabs_alloc settings m.world.slabs size id no_newpage granted given).0;
        };
        frees = update m.frees id xs;
      })
  write :
      (m : Memory) (it : ℕ) (c : Item)
      → ((j : ℕ) → Fresh it (m.queues j))
      → ((j : ℕ) → Fresh it (m.frees j))
      → Step settings m (record m { world = set_item m.world it c })
  link :
      (m : Memory) (it hv : ℕ)
      → it ≢ 0
      → (item_at m.world it).slabs_clsid ≢ 0
      → Fresh it (home_queue m it)
      → Step settings m (record m {
        world = do_item_link settings m.world it hv;
        queues = update m.queues (item_at m.world it).slabs_clsid (it ∷ home_queue m it);
      })
  hold :
      (m : Memory) (it : ℕ)
      → (item_at m.world it).slabs_clsid ≢ 0
      → Step settings m (record m { world = refcount_incr m.world it })
  release :
      (m : Memory) (it fuel : ℕ)
      → IsPlain m.world it
      → (is_last (item_at m.world it) ≡ true → Fresh it (home_queue m it))
      → Step settings m (record m {
        world = do_item_remove settings fuel m.world it;
        frees = released m.world it m.frees;
      })
  unlink :
      (m : Memory) (it hv fuel : ℕ) (xs ys : List ℕ)
      → IsPlain m.world it
      → home_queue m it ≡ xs ++ it ∷ ys
      → (item_at m.world it).it_flags.linked ≡ true
      → Step settings m (record m {
        world = do_item_unlink settings fuel m.world it hv;
        queues = update m.queues (item_at m.world it).slabs_clsid (xs ++ ys);
        frees = released m.world it m.frees;
      })

pub data Reach (settings : Settings) (m : Memory) : Memory → Type 0 where
  here : Reach settings m m
  next : {u v : Memory} → Reach settings m u → Step settings u v → Reach settings m v

abbrev pub InOrder : Memory → Type 0
InOrder m = Heap m.world m.queues m.frees

-- An allocation from a free list that is not empty takes its head.
alloc_pop :
    (settings : Settings) (s : Slabs) (size id it : ℕ) (xs : List ℕ) (no_newpage granted : Bool)
    (given : ℕ)
    → power_smallest ≤ id
    → id ≤ s.power_largest
    → (s.class id).sl_curr ≡ length (it ∷ xs)
    → do_slabs_alloc settings s size id no_newpage granted given ≡ pop_free s id size
unfolding do_slabs_alloc
alloc_pop settings s size id it xs no_newpage granted given a b c = ground arith

written-Heap :
    (w : World) (q f : ℕ → List ℕ) (it : ℕ) (c : Item)
    → Heap w q f
    → ((j : ℕ) → Fresh it (q j))
    → ((j : ℕ) → Fresh it (f j))
    → Heap (set_item w it c) q f
written-Heap w q f it c h nq nf =
    let m = w.slabs.mem in
    let s : Slabs = record (w.slabs) { mem = update m it c } in
    record {
      queues = λ j.
          agree-IsQueue w s j (q j) (agree m s.mem it it (q j) there (nq j) (nq j)) (h.queues j);
      no_home = h.no_home;
      frees = λ j.
          agree-IsFreelist w.slabs s j (f j) (agree m s.mem it it (f j) there (nf j) (nf j)) refl
            (h.frees j);
      zeroed = λ j.
          AgreeOn-zero m s.mem (f j) (agree m s.mem it it (f j) there (nf j) (nf j)) (h.zeroed j);
      apart = h.apart;
    }
  where
    there : (a : ℕ) → a ≢ it → a ≢ it → update w.slabs.mem it c a ≡ w.slabs.mem a
    there a n o = ground arith

Step-InOrder : (settings : Settings) {u v : Memory} → Step settings u v → InOrder u → InOrder v
Step-InOrder settings (hand_out m size id it xs no_newpage granted given a b e) h =
    let s = m.world.slabs in
    let v = subst (IsFreelist s id) e (h.frees id) in
    subst
      (λ (r : Slabs × ℕ). Heap (record (m.world) { slabs = r.0 }) m.queues (update m.frees id xs))
      (sym (alloc_pop settings s size id it xs no_newpage granted given a b v.counted))
      (pop-Taken m.world m.queues m.frees h id it size xs e).heap
Step-InOrder settings (write m it c nq nf) h = written-Heap m.world m.queues m.frees it c h nq nf
Step-InOrder settings (link m it hv z n fresh) h =
    do_item_link-Heap settings m.world m.queues m.frees h it hv z n fresh
Step-InOrder settings (hold m it n) h =
    let w = m.world in
    let v = refcount_incr w it in
    Keeps-Heap it w v m.queues m.queues m.frees h (incr-Keeps w it n)
      (same-Queues w v m.queues (incr-SameQueues w it) h.queues) h.no_home
Step-InOrder settings (release m it fuel p r) h =
    do_item_remove-Heap settings fuel m.frees it m.world m.queues h p r
Step-InOrder settings (unlink m it hv fuel xs ys p e l) h =
    do_item_unlink-Heap settings m.world m.queues m.frees h it hv fuel xs ys p e l

-- From a memory in order, no sequence of these operations leaves it out of order, that is, the queues
-- are linked both ways and counted, the free lists are linked, and no address is on two lists: the
-- chunk at the head of a free list that is not empty is handed out (no page is added); an item on no
-- list is written; an item of a class, not in its queue, is linked; an item is held; a linked item is
-- unlinked, or an item released, which has one piece (no ITEM_CHUNKED) and its class among those in
-- use, and which is off its queue when its last reference is released.
pub Reach-InOrder :
    (settings : Settings) {m u : Memory} → InOrder m → Reach settings m u → InOrder u
Reach-InOrder settings h here = h
Reach-InOrder settings h (next r st) = Step-InOrder settings st (Reach-InOrder settings h r)
