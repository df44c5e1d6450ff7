-- ===== src/Items/Found.antt =====
-- What do_item_link leaves in the item itself and in the hash table.
use mathlib.Core.Path.{subst}
use analysis_memcached.Prelude.{
  ℕ, ◌+◌, ◌%◌, ◌^◌, ◌≡◌, ◌∙◌, sym, refl, ap, true, Option, none, some, ltb, arith, if_elim, add32,
}
use analysis_memcached.Item.{Item, Settings, item_set_cas, item_get_cas}
use analysis_memcached.Assoc.{
  Key, Table, assoc_insert, assoc_find, chain_for, with_chain, find_in, in_old,
}
use analysis_memcached.Assoc.Chain.{same_key_refl}
use analysis_memcached.Items.{
  World, item_at, item_key, do_item_link_q, item_stats_sizes_add, with_hist, size_bucket,
  refcount_incr, get_cas_id, admit, do_item_link,
}
use analysis_memcached.Items.Linking.{add_mem}

linked_keeps :
    (w : World) (it : ℕ)
    → let c = item_at (do_item_link_q w it) it in
      (c.it_flags ≡ (item_at w it).it_flags)
      × (c.refcount ≡ (item_at w it).refcount)
      × ((do_item_link_q w it).table ≡ w.table)
unfolding do_item_link_q
linked_keeps w it = ground arith

incr_keeps :
    (w : World) (it : ℕ)
    → let c = item_at (refcount_incr w it) it in
      (c.it_flags ≡ (item_at w it).it_flags)
      × (c.refcount ≡ ((item_at w it).refcount + 1) % 2 ^ 16)
      × ((refcount_incr w it).table ≡ w.table)
unfolding refcount_incr
incr_keeps w it = ground arith

admit_item :
    (settings : Settings) (w : World) (it : ℕ)
    → let v = admit settings w it in
      ((item_at v it).it_flags.linked ≡ true)
      × ((item_at v it).refcount ≡ (item_at w it).refcount)
      × (v.table ≡ w.table)
unfolding admit get_cas_id item_set_cas
admit_item settings w it = ground arith

hist_table :
    (w : World) (it : ℕ) (change : ℕ → ℕ) (o : Option (ℕ → ℕ))
    → (with_hist w it change o).table ≡ w.table
unfolding with_hist
hist_table w it change none = refl
hist_table w it change (some h) =
    let P : World → Type 0 = λ (v : World). v.table ≡ w.table in
    if_elim P (ltb (item_get_cas (item_at w it)) w.hist_cas_min) (λ _. refl)
      λ _. if_elim P (ltb (size_bucket (item_at w it)) w.hist_buckets) (λ _. refl) (λ _. refl)

-- What was inserted is found.
find-insert :
    (key : ℕ → Key) (t : Table) (it hv : ℕ)
    → assoc_find key (assoc_insert t it hv) (key it) hv ≡ some it
unfolding assoc_find assoc_insert find_in chain_for with_chain in_old
find-insert key t it hv = ground (arith, same_key_refl (key it))

-- An item that is linked is marked, holds one reference more, for the cache itself, and is what its
-- key finds in the hash table.
pub do_item_link-found :
    (settings : Settings) (w : World) (it hv : ℕ)
    → let v = do_item_link settings w it hv in
      ((item_at v it).it_flags.linked ≡ true)
      × ((item_at v it).refcount ≡ ((item_at w it).refcount + 1) % 2 ^ 16)
      × (assoc_find (item_key v) v.table (item_key v it) hv ≡ some it)
unfolding do_item_link item_stats_sizes_add
do_item_link-found settings w it hv =
    let admitted = admit settings w it in
    let inserted : World = record admitted { table = assoc_insert admitted.table it hv } in
    let linked = do_item_link_q inserted it in
    let counted = refcount_incr linked it in
    let v = do_item_link settings w it hv in
    let a = admit_item settings w it in
    let l = linked_keeps inserted it in
    let c = incr_keeps linked it in
    let m : item_at v it ≡ item_at counted it = ap (λ m. m it) (add_mem counted it) in
    let t : v.table ≡ assoc_insert admitted.table it hv =
      hist_table counted it (λ n. add32 n 1) counted.hist ∙ c.2 ∙ l.2 in
    (
      ap (λ (x : Item). x.it_flags.linked) m ∙ ap (λ f. f.linked) (c.0 ∙ l.0) ∙ a.0,
      ap (λ (x : Item). x.refcount) m ∙ c.1 ∙ ap (λ n. (n + 1) % 2 ^ 16) (l.1 ∙ a.1),
      subst (λ u. assoc_find (item_key v) u (item_key v it) hv ≡ some it) (sym t)
          (find-insert (item_key v) admitted.table it hv),
    )
