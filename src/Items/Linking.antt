-- ===== src/Items/Linking.antt =====
-- The steps of do_item_link and do_item_unlink beside the queues: they keep every queue.
use mathlib.Core.Path.{subst}
use analysis_memcached.Prelude.{
  ap, add32, sub32, ℕ, ◌≡◌, ◌∙◌, sym, refl, false, Option, none, some, List, ◌∷◌, [], ltb, arith,
  if_elim,
}
use analysis_memcached.Item.{Mem, Settings, item_ntotal, item_set_cas, item_get_cas}
use analysis_memcached.Item.Links.{SameLinks}
use analysis_memcached.Assoc.{Table, assoc_delete}
use analysis_memcached.Items.{
  World, do_item_unlink_q, item_at, set_item, item_key, get_cas_id, size_bucket, with_hist,
  discount, set_time, with_table, item_stats_sizes_add, item_stats_sizes_remove, refcount_incr,
  refcount_decr, admit, forget, dismiss,
}
use analysis_memcached.Items.Queues.{SameItems, frame-IsQueue}
use analysis_memcached.Items.Order.{Queues}

-- Worlds with the same queues, item by item.
pub record SameQueues (w w' : World) : Type 0 where
  pub items : SameItems w.slabs.mem w'.slabs.mem
  pub nexts : (a : ℕ) → (w'.slabs.mem a).next ≡ (w.slabs.mem a).next
  pub prevs : (a : ℕ) → (w'.slabs.mem a).prev ≡ (w.slabs.mem a).prev
  pub keys : (a : ℕ) → (w'.slabs.mem a).key ≡ (w.slabs.mem a).key
  pub ends : (w'.heads ≡ w.heads) × (w'.tails ≡ w.tails)
  pub counts : (w'.sizes ≡ w.sizes) × (w'.sizes_bytes ≡ w.sizes_bytes)

SameQueues-links :
    (w w' : World) (xs : List ℕ) → SameQueues w w' → SameLinks w.slabs.mem w'.slabs.mem xs
SameQueues-links w w' [] s = tt
SameQueues-links w w' (x ∷ xs) s = (s.nexts x, s.prevs x, SameQueues-links w w' xs s)

pub same-Queues : (w w' : World) (q : ℕ → List ℕ) → SameQueues w w' → Queues w q → Queues w' q
same-Queues w w' q s all id =
    frame-IsQueue w w' id (q id) s.items (SameQueues-links w w' (q id) s)
      (
        ap (λ f. f id) s.ends.0,
        ap (λ f. f id) s.ends.1,
        ap (λ f. f id) s.counts.0,
        ap (λ f. f id) s.counts.1,
      )
      (all id)

pub SameQueues-refl : (w : World) → SameQueues w w
SameQueues-refl w = record {
  items = record { class = λ a. refl; bytes = λ a. refl };
  nexts = λ a. refl;
  prevs = λ a. refl;
  keys = λ a. refl;
  ends = (refl, refl);
  counts = (refl, refl);
}

pub SameQueues-trans : (u v w : World) → SameQueues u v → SameQueues v w → SameQueues u w
SameQueues-trans u v w s t = record {
  items = record {
    class = λ a. t.items.class a ∙ s.items.class a;
    bytes = λ a. t.items.bytes a ∙ s.items.bytes a;
  };
  nexts = λ a. t.nexts a ∙ s.nexts a;
  prevs = λ a. t.prevs a ∙ s.prevs a;
  keys = λ a. t.keys a ∙ s.keys a;
  ends = (t.ends.0 ∙ s.ends.0, t.ends.1 ∙ s.ends.1);
  counts = (t.counts.0 ∙ s.counts.0, t.counts.1 ∙ s.counts.1);
}

module _ (w : World) (it : ℕ) where
  pub moved-SameQueues :
      {w' : World}
      → (w'.slabs.mem ≡ w.slabs.mem)
        × (w'.heads ≡ w.heads)
        × (w'.tails ≡ w.tails)
        × (w'.sizes ≡ w.sizes)
        × (w'.sizes_bytes ≡ w.sizes_bytes)
      → SameQueues w w'
  moved-SameQueues e = record {
    items = record {
      class = λ a. ap (λ m. (m a).slabs_clsid) e.0;
      bytes = λ a. ap (λ m. item_ntotal (m a)) e.0;
    };
    nexts = λ a. ap (λ m. (m a).next) e.0;
    prevs = λ a. ap (λ m. (m a).prev) e.0;
    keys = λ a. ap (λ m. (m a).key) e.0;
    ends = (e.1, e.2);
    counts = (e.3, e.4);
  }

  pub incr-SameQueues : SameQueues w (refcount_incr w it)
  unfolding refcount_incr item_ntotal
  incr-SameQueues = record {
    items = record { class = λ a. ground arith; bytes = λ a. ground arith };
    nexts = λ a. ground arith;
    prevs = λ a. ground arith;
    keys = λ a. ground arith;
    ends = (refl, refl);
    counts = (refl, refl);
  }

  pub decr-SameQueues : SameQueues w (refcount_decr w it)
  unfolding refcount_decr item_ntotal
  decr-SameQueues = record {
    items = record { class = λ a. ground arith; bytes = λ a. ground arith };
    nexts = λ a. ground arith;
    prevs = λ a. ground arith;
    keys = λ a. ground arith;
    ends = (refl, refl);
    counts = (refl, refl);
  }

  hist-SameQueues : (change : ℕ → ℕ) (o : Option (ℕ → ℕ)) → SameQueues w (with_hist w it change o)
  unfolding with_hist
  hist-SameQueues change none = SameQueues-refl w
  hist-SameQueues change (some h) =
      if_elim (SameQueues w) (ltb (item_get_cas (item_at w it)) w.hist_cas_min)
        (λ _. SameQueues-refl w)
        λ _.
          if_elim (SameQueues w) (ltb (size_bucket (item_at w it)) w.hist_buckets)
            (λ _. moved-SameQueues (refl, refl, refl, refl, refl)) (λ _. SameQueues-refl w)

  pub admit-SameQueues : (settings : Settings) → SameQueues w (admit settings w it)
  unfolding admit get_cas_id item_set_cas item_ntotal
  admit-SameQueues settings =
      if_elim (SameQueues w) settings.use_cas
        (λ _.
          if_elim
            (λ (r : World × ℕ). SameQueues w (set_item r.0 it (item_set_cas (item_at r.0 it) r.1)))
            (item_at w it).it_flags.cas
            (λ _. record {
              items = record { class = λ a. ground arith; bytes = λ a. ground arith };
              nexts = λ a. ground arith;
              prevs = λ a. ground arith;
              keys = λ a. ground arith;
              ends = (refl, refl);
              counts = (refl, refl);
            })
            (λ _. record {
              items = record { class = λ a. ground arith; bytes = λ a. ground arith };
              nexts = λ a. ground arith;
              prevs = λ a. ground arith;
              keys = λ a. ground arith;
              ends = (refl, refl);
              counts = (refl, refl);
            }))
        (λ _. record {
          items = record { class = λ a. ground arith; bytes = λ a. ground arith };
          nexts = λ a. ground arith;
          prevs = λ a. ground arith;
          keys = λ a. ground arith;
          ends = (refl, refl);
          counts = (refl, refl);
        })

  pub time-SameQueues : SameQueues w (set_time w it)
  unfolding item_ntotal
  time-SameQueues = record {
    items = record { class = λ a. ground arith; bytes = λ a. ground arith };
    nexts = λ a. ground arith;
    prevs = λ a. ground arith;
    keys = λ a. ground arith;
    ends = (refl, refl);
    counts = (refl, refl);
  }

  discount-SameQueues : SameQueues w (discount w it)
  unfolding discount item_ntotal
  discount-SameQueues = record {
    items = record { class = λ a. ground arith; bytes = λ a. ground arith };
    nexts = λ a. ground arith;
    prevs = λ a. ground arith;
    keys = λ a. ground arith;
    ends = (refl, refl);
    counts = (refl, refl);
  }

  table-SameQueues : (o : Option Table) → SameQueues w (with_table w o)
  unfolding with_table
  table-SameQueues none = SameQueues-refl w
  table-SameQueues (some t) = moved-SameQueues (refl, refl, refl, refl, refl)

  pub forget-SameQueues : (hv : ℕ) → SameQueues w (forget w it hv)
  unfolding forget
  forget-SameQueues hv = table-SameQueues (assoc_delete (item_key w) w.table (item_key w it) hv)

  pub add-SameQueues : SameQueues w (item_stats_sizes_add w it)
  unfolding item_stats_sizes_add
  add-SameQueues = hist-SameQueues (λ n. add32 n 1) w.hist

pub dismiss-SameQueues : (w : World) (it : ℕ) → SameQueues w (dismiss w it)
unfolding dismiss item_stats_sizes_remove
dismiss-SameQueues w it =
    SameQueues-trans w (discount w it) (dismiss w it) (discount-SameQueues w it)
      (hist-SameQueues (discount w it) it (λ n. sub32 n 1) w.hist)

module _ (w : World) (it : ℕ) where
  hist_mem :
      (change : ℕ → ℕ) (o : Option (ℕ → ℕ)) → (with_hist w it change o).slabs.mem ≡ w.slabs.mem
  unfolding with_hist
  hist_mem change none = refl
  hist_mem change (some h) =
      let b = size_bucket (item_at w it) in
      let P : World → Type 0 = λ (v : World). v.slabs.mem ≡ w.slabs.mem in
      if_elim P (ltb (item_get_cas (item_at w it)) w.hist_cas_min) (λ _. refl)
        λ _. if_elim P (ltb b w.hist_buckets) (λ _. refl) (λ _. refl)

  table_mem : (o : Option Table) → (with_table w o).slabs.mem ≡ w.slabs.mem
  unfolding with_table
  table_mem none = refl
  table_mem (some t) = refl

  pub forget_mem : (hv : ℕ) → (forget w it hv).slabs.mem ≡ w.slabs.mem
  unfolding forget
  forget_mem hv = table_mem (assoc_delete (item_key w) w.table (item_key w it) hv)

  pub add_mem : (item_stats_sizes_add w it).slabs.mem ≡ w.slabs.mem
  unfolding item_stats_sizes_add
  add_mem = hist_mem (λ n. add32 n 1) w.hist

-- An item's mark and references, as the steps before do_item_unlink_q leave them.
pub dismiss_item :
    (w : World) (it hv : ℕ)
    → let c = item_at (forget (dismiss w it) it hv) it in
      (c.it_flags.linked ≡ false) × (c.refcount ≡ (item_at w it).refcount)
unfolding dismiss item_stats_sizes_remove discount
dismiss_item w it hv =
    subst
      (λ (m : Mem). ((m it).it_flags.linked ≡ false) × ((m it).refcount ≡ (item_at w it).refcount))
      (sym (forget_mem (dismiss w it) it hv ∙ hist_mem (discount w it) it (λ n. sub32 n 1) w.hist))
      (ground arith)

pub unlink_item :
    (w : World) (it : ℕ)
    → let c = item_at (do_item_unlink_q w it) it in
      (c.it_flags.linked ≡ (item_at w it).it_flags.linked) × (c.refcount ≡ (item_at w it).refcount)
unfolding do_item_unlink_q
unlink_item w it = ground arith
