-- ===== src/Items/Heap/Keep.antt =====
-- Steps that leave the free chunks alone: they change items only.
use mathlib.Core.Path.{subst}
use analysis_memcached.Prelude.{
  ℕ, ◌+◌, ◌-◌, ◌%◌, ◌^◌, ◌≡◌, ◌≢◌, ◌⊎◌, inl, inr, refl, sym, ap, ◌∙◌, false, Option, none, some,
  List, [], ◌∷◌, ◌++◌, ltb, if_elim, arith, add32, sub32,
}
use analysis_memcached.Prelude.Memory.{update}
use analysis_memcached.Item.{Item, Mem, Settings, item_set_cas, item_get_cas}
use analysis_memcached.Item.Bypass.{links_of}
use analysis_memcached.Assoc.{Table, assoc_delete}
use analysis_memcached.Slabs.{Slabs}
use analysis_memcached.Items.{
  World, item_at, item_key, set_item, do_item_link_q, do_item_unlink_q, with_hist, with_table,
  size_bucket, item_stats_sizes_add, item_stats_sizes_remove, refcount_incr, refcount_decr,
  get_cas_id, admit, forget, discount, dismiss,
}
use analysis_memcached.Items.Queues.{IsQueue}
use analysis_memcached.Items.Order.{
  Queues, Beside, start-Beside, last-Beside, first-Beside, Home-right,
}
use analysis_memcached.Items.Heap.{Heap, AgreeOn, AllZero, agree-IsFreelist}

-- World `w'` has the free chunks and the classes of `w`, and the item has kept its class and form.
pub record Keeps (it : ℕ) (w w' : World) : Type 0 where
  pub class : w'.slabs.class ≡ w.slabs.class
  pub largest : w'.slabs.power_largest ≡ w.slabs.power_largest
  pub zero : (a : ℕ) → (w.slabs.mem a).slabs_clsid ≡ 0 → w'.slabs.mem a ≡ w.slabs.mem a
  pub clsid : (item_at w' it).slabs_clsid ≡ (item_at w it).slabs_clsid
  pub chunked : (item_at w' it).it_flags.chunked ≡ (item_at w it).it_flags.chunked

zero-AgreeOn :
    (m m' : Mem) (xs : List ℕ)
    → ((a : ℕ) → (m a).slabs_clsid ≡ 0 → m' a ≡ m a)
    → AllZero m xs
    → AgreeOn m m' xs
zero-AgreeOn m m' [] k z = tt
zero-AgreeOn m m' (x ∷ xs) k z = (k x z.0, zero-AgreeOn m m' xs k z.1)

zero-AllZero :
    (m m' : Mem) (xs : List ℕ)
    → ((a : ℕ) → (m a).slabs_clsid ≡ 0 → m' a ≡ m a)
    → AllZero m xs
    → AllZero m' xs
zero-AllZero m m' [] k z = tt
zero-AllZero m m' (x ∷ xs) k z =
    (ap (λ (c : Item). c.slabs_clsid) (k x z.0) ∙ z.0, zero-AllZero m m' xs k z.1)

pub Keeps-Heap :
    (it : ℕ) (w w' : World) (q q' f : ℕ → List ℕ)
    → Heap w q f
    → Keeps it w w'
    → Queues w' q'
    → q' 0 ≡ []
    → Heap w' q' f
Keeps-Heap it w w' q q' f h k all z = record {
  queues = all;
  no_home = z;
  frees = λ j.
      agree-IsFreelist w.slabs w'.slabs j (f j)
        (zero-AgreeOn w.slabs.mem w'.slabs.mem (f j) k.zero (h.zeroed j)) (ap (λ c. c j) k.class)
        (h.frees j);
  zeroed = λ j. zero-AllZero w.slabs.mem w'.slabs.mem (f j) k.zero (h.zeroed j);
  apart = h.apart;
}

pub Keeps-trans : (it : ℕ) (u v w : World) → Keeps it u v → Keeps it v w → Keeps it u w
Keeps-trans it u v w s t = record {
  class = t.class ∙ s.class;
  largest = t.largest ∙ s.largest;
  zero = λ a z. t.zero a (ap (λ (c : Item). c.slabs_clsid) (s.zero a z) ∙ z) ∙ s.zero a z;
  clsid = t.clsid ∙ s.clsid;
  chunked = t.chunked ∙ s.chunked;
}

-- A step that leaves the slabs alone.
pub same-Keeps : (it : ℕ) (w w' : World) → w'.slabs ≡ w.slabs → Keeps it w w'
same-Keeps it w w' e = record {
  class = ap (λ (s : Slabs). s.class) e;
  largest = ap (λ (s : Slabs). s.power_largest) e;
  zero = λ a z. ap (λ (s : Slabs). s.mem a) e;
  clsid = ap (λ (s : Slabs). (s.mem it).slabs_clsid) e;
  chunked = ap (λ (s : Slabs). (s.mem it).it_flags.chunked) e;
}

module _ (w : World) (it : ℕ) (n : (item_at w it).slabs_clsid ≢ 0) where
  -- A store to the item.
  store-Keeps :
      (c : Item)
      → c.slabs_clsid ≡ (item_at w it).slabs_clsid
      → c.it_flags.chunked ≡ (item_at w it).it_flags.chunked
      → Keeps it w (set_item w it c)
  store-Keeps c e g = record {
    class = refl;
    largest = refl;
    zero = λ a z. elsewhere a (λ k. n (subst (λ b. (w.slabs.mem b).slabs_clsid ≡ 0) (sym k) z));
    clsid = ground (arith, e);
    chunked = ground (arith, g);
  }
    where
      elsewhere : (a : ℕ) → it ≢ a → update w.slabs.mem it c a ≡ w.slabs.mem a
      elsewhere a h = ground arith

  pub incr-Keeps : Keeps it w (refcount_incr w it)
  unfolding refcount_incr
  incr-Keeps =
      store-Keeps (record (item_at w it) { refcount = ((item_at w it).refcount + 1) % 2 ^ 16 }) refl
        refl

  pub decr-Keeps : Keeps it w (refcount_decr w it)
  unfolding refcount_decr
  decr-Keeps =
      store-Keeps
        (record (item_at w it) { refcount = ((item_at w it).refcount + 2 ^ 16 - 1) % 2 ^ 16 }) refl
        refl

  discount-Keeps : Keeps it w (discount w it)
  unfolding discount
  discount-Keeps =
      let c = item_at w it in
      let k =
        store-Keeps (record c { it_flags = record (c.it_flags) { linked = false } }) refl refl in
      record {
        class = k.class;
        largest = k.largest;
        zero = k.zero;
        clsid = k.clsid;
        chunked = k.chunked;
      }

hist_slabs :
    (w : World) (it : ℕ) (change : ℕ → ℕ) (o : Option (ℕ → ℕ))
    → (with_hist w it change o).slabs ≡ w.slabs
unfolding with_hist
hist_slabs w it change none = refl
hist_slabs w it change (some h) =
    let P : World → Type 0 = λ (v : World). v.slabs ≡ w.slabs in
    if_elim P (ltb (item_get_cas (item_at w it)) w.hist_cas_min) (λ _. refl)
      λ _. if_elim P (ltb (size_bucket (item_at w it)) w.hist_buckets) (λ _. refl) (λ _. refl)

table_slabs : (w : World) (o : Option Table) → (with_table w o).slabs ≡ w.slabs
unfolding with_table
table_slabs w none = refl
table_slabs w (some t) = refl

pub dismiss-Keeps :
    (w : World) (it : ℕ) → (item_at w it).slabs_clsid ≢ 0 → Keeps it w (dismiss w it)
unfolding dismiss item_stats_sizes_remove
dismiss-Keeps w it n = Keeps-trans it w (discount w it) (dismiss w it) (discount-Keeps w it n) (
    same-Keeps it (discount w it) (dismiss w it)
      (hist_slabs (discount w it) it (λ k. sub32 k 1) w.hist))

pub forget-Keeps : (w : World) (it hv : ℕ) → Keeps it w (forget w it hv)
unfolding forget
forget-Keeps w it hv =
    same-Keeps it w (forget w it hv)
      (table_slabs w (assoc_delete (item_key w) w.table (item_key w it) hv))

pub add-Keeps : (w : World) (it : ℕ) → Keeps it w (item_stats_sizes_add w it)
unfolding item_stats_sizes_add
add-Keeps w it =
    same-Keeps it w (item_stats_sizes_add w it) (hist_slabs w it (λ k. add32 k 1) w.hist)

pub admit-Keeps :
    (settings : Settings) (w : World) (it : ℕ)
    → (item_at w it).slabs_clsid ≢ 0
    → Keeps it w (admit settings w it)
unfolding admit get_cas_id item_set_cas
admit-Keeps settings w it n =
    if_elim (Keeps it w) settings.use_cas
      (λ _.
        if_elim
          (λ (r : World × ℕ). Keeps it w (set_item r.0 it (item_set_cas (item_at r.0 it) r.1)))
          (item_at w it).it_flags.cas
          (λ _. record {
            class = refl;
            largest = refl;
            zero = λ a z. let k : it ≢ a = apart a z in ground arith;
            clsid = ground arith;
            chunked = ground arith;
          })
          (λ _. record {
            class = refl;
            largest = refl;
            zero = λ a z. let k : it ≢ a = apart a z in ground arith;
            clsid = ground arith;
            chunked = ground arith;
          }))
      (λ _. record {
        class = refl;
        largest = refl;
        zero = λ a z. let k : it ≢ a = apart a z in ground arith;
        clsid = ground arith;
        chunked = ground arith;
      })
  where
    apart : (a : ℕ) → (w.slabs.mem a).slabs_clsid ≡ 0 → it ≢ a
    apart a z k = n (subst (λ b. (w.slabs.mem b).slabs_clsid ≡ 0) (sym k) z)

-- NULL and the items of a class other than 0 are beside an address with the class 0, or are NULL.
Beside-apart :
    (m : Mem) (id p a : ℕ) → id ≢ 0 → Beside m id p → (m a).slabs_clsid ≡ 0 → (p ≡ 0) ⊎ (p ≢ a)
Beside-apart m id p a n (inl e) z = inl e
Beside-apart m id p a n (inr e) z = inr (λ k. n (sym e ∙ ap (λ b. (m b).slabs_clsid) k ∙ z))

module _ (w : World) (q : ℕ → List ℕ) (all : Queues w q) (it : ℕ)
    (n : (item_at w it).slabs_clsid ≢ 0) where
  apart_it : (a : ℕ) → (w.slabs.mem a).slabs_clsid ≡ 0 → it ≢ a
  apart_it a z k = n (subst (λ b. (w.slabs.mem b).slabs_clsid ≡ 0) (sym k) z)

  link_zero :
      (a : ℕ)
      → let head = w.heads (item_at w it).slabs_clsid in
        it ≢ a → (head ≡ 0) ⊎ (head ≢ a) → (do_item_link_q w it).slabs.mem a ≡ w.slabs.mem a
  unfolding do_item_link_q
  link_zero a n h = ground arith

  link_item :
      ((item_at (do_item_link_q w it) it).slabs_clsid ≡ (item_at w it).slabs_clsid)
      × ((item_at (do_item_link_q w it) it).it_flags.chunked ≡ (item_at w it).it_flags.chunked)
  unfolding do_item_link_q
  link_item = ground arith

  pub link-Keeps : Keeps it w (do_item_link_q w it)
  unfolding do_item_link_q
  link-Keeps =
      let id = (item_at w it).slabs_clsid in
      let b = start-Beside w.slabs.mem id 0 (w.heads id) (q id) (all id).links (all id).home in
      record {
        class = refl;
        largest = refl;
        zero = λ a z. link_zero a (apart_it a z) (Beside-apart w.slabs.mem id (w.heads id) a n b z);
        clsid = link_item.0;
        chunked = link_item.1;
      }

  unlink_zero :
      (a : ℕ)
      → let c = item_at w it in
        ((c.prev ≡ 0) ⊎ (c.prev ≢ a))
        → ((c.next ≡ 0) ⊎ (c.next ≢ a))
        → (do_item_unlink_q w it).slabs.mem a ≡ w.slabs.mem a
  unfolding do_item_unlink_q
  unlink_zero a h g = ground arith

  cut_item :
      ((item_at (do_item_unlink_q w it) it).slabs_clsid ≡ (item_at w it).slabs_clsid)
      × ((item_at (do_item_unlink_q w it) it).it_flags.chunked ≡ (item_at w it).it_flags.chunked)
  unfolding do_item_unlink_q
  cut_item = ground arith

  pub unlink-Keeps :
      (xs ys : List ℕ)
      → q (item_at w it).slabs_clsid ≡ xs ++ it ∷ ys
      → Keeps it w (do_item_unlink_q w it)
  unfolding do_item_unlink_q
  unlink-Keeps xs ys e =
      let m = w.slabs.mem in
      let id = (item_at w it).slabs_clsid in
      let mine = subst (IsQueue w id) e (all id) in
      let ends = links_of m 0 (w.heads id) it xs ys mine.links in
      let before =
        subst (Beside m id) (sym ends.0) (last-Beside m id 0 xs (it ∷ ys) (inl refl) mine.home) in
      let after =
        subst (Beside m id) (sym ends.1)
          (first-Beside m id ys (Home-right m id xs (it ∷ ys) mine.home).1) in
      record {
        class = refl;
        largest = refl;
        zero = λ a z.
            unlink_zero a (Beside-apart m id (m it).prev a n before z)
              (Beside-apart m id (m it).next a n after z);
        clsid = cut_item.0;
        chunked = cut_item.1;
      }
