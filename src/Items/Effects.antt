-- ===== src/Items/Effects.antt =====
-- What do_item_link, do_item_unlink and do_item_replace do to the queues, the item and the table.
use mathlib.Core.Path.{subst}
use analysis_memcached.Prelude.{
  ℕ, ◌^◌, ◌≤◌, ◌<◌, ◌≡◌, ◌≢◌, ◌∙◌, sym, refl, ap, Bool, true, false, List, [], ◌∷◌, ◌++◌, ◌==◌,
  if◌then◌else◌, arith, if_elim, Fresh, Distinct, ◌&&◌,
}
use analysis_memcached.Prelude.Memory.{update}
use analysis_memcached.Item.{Settings}
use analysis_memcached.Assoc.{assoc_insert}
use analysis_memcached.Item.Bypass.{middle-Fresh}
use analysis_memcached.Items.{
  World, item_at, do_item_link_q, do_item_unlink_q, refcount_incr, refcount_decr, admit, forget,
  dismiss, do_item_link, do_item_unlink, do_item_remove, do_item_replace, do_item_update_nolock,
  is_stale, set_time,
}
use analysis_memcached.Items.Queues.{unlink-SameItems}
use analysis_memcached.Items.Order.{Queues, link-Queues, unlink-Queues}
use analysis_memcached.Items.Linking.{
  SameQueues, same-Queues, SameQueues-trans, moved-SameQueues, incr-SameQueues, decr-SameQueues,
  admit-SameQueues, forget-SameQueues, add-SameQueues, dismiss-SameQueues, dismiss_item,
  unlink_item, time-SameQueues,
}

-- A second reference to an item outlives the first.
still_held :
    (w : World) (it : ℕ) {n : ℕ}
    → (item_at w it).refcount ≡ n
    → 2 ≤ n
    → n < 2 ^ 16
    → ((item_at (refcount_decr w it) it).refcount == 0) ≡ true
    → ⊥
unfolding refcount_decr
still_held w it e two top z = ground (arith, z)

module _ (settings : Settings) (w : World) (q : ℕ → List ℕ) (all : Queues w q) (it hv : ℕ) where
  abbrev home : ℕ
  home = (item_at w it).slabs_clsid

  -- Linking an item puts it at the front of the queue of its class and leaves the other queues.
  pub do_item_link-Queues :
      it ≢ 0
      → Fresh it (q home)
      → Queues (do_item_link settings w it hv) (update q home (it ∷ q home))
  unfolding do_item_link
  do_item_link-Queues z f =
      let admitted = admit settings w it in
      let inserted : World = record admitted { table = assoc_insert admitted.table it hv } in
      let s : SameQueues w inserted =
        SameQueues-trans w admitted inserted (admit-SameQueues w it settings)
          (moved-SameQueues admitted it (refl, refl, refl, refl, refl)) in
      let linked = do_item_link_q inserted it in
      let counted = refcount_incr linked it in
      let k : (item_at inserted it).slabs_clsid ≡ home = s.items.class it in
      let r : Queues linked (update q home (it ∷ q home)) =
        subst (λ id. Queues linked (update q id (it ∷ q id))) k
          (link-Queues inserted q (same-Queues w inserted q s all) it z
            (subst (λ id. Fresh it (q id)) (sym k) f)) in
      same-Queues linked (do_item_link settings w it hv) (update q home (it ∷ q home))
        (SameQueues-trans linked counted (do_item_link settings w it hv) (incr-SameQueues linked it)
          (add-SameQueues counted it))
        r

  -- Unlinking an item to which a reference is held takes it out of its queue and leaves the order
  -- of all others.
  pub do_item_unlink-Queues :
      (fuel : ℕ) (xs ys : List ℕ)
      → q home ≡ xs ++ it ∷ ys
      → (item_at w it).it_flags.linked ≡ true
      → 2 ≤ (item_at w it).refcount
      → (item_at w it).refcount < 2 ^ 16
      → Queues (do_item_unlink settings fuel w it hv) (update q home (xs ++ ys))
  unfolding do_item_unlink do_item_remove
  do_item_unlink-Queues fuel xs ys e l two top =
      let out = forget (dismiss w it) it hv in
      let s : SameQueues w out =
        SameQueues-trans w (dismiss w it) out (dismiss-SameQueues w it)
          (forget-SameQueues (dismiss w it) it hv) in
      let cut = do_item_unlink_q out it in
      let k : (item_at out it).slabs_clsid ≡ home = s.items.class it in
      let r : Queues cut (update q home (xs ++ ys)) =
        subst (λ id. Queues cut (update q id (xs ++ ys))) k
          (unlink-Queues out q (same-Queues w out q s all) it xs ys (ap q k ∙ e)) in
      let rest : Queues (refcount_decr cut it) (update q home (xs ++ ys)) =
        same-Queues cut (refcount_decr cut it) (update q home (xs ++ ys)) (decr-SameQueues cut it)
          r in
      let kept : (item_at cut it).refcount ≡ (item_at w it).refcount =
        (unlink_item out it).1 ∙ (dismiss_item w it hv).1 in
      let P : World → Type 0 = λ v. Queues v (update q home (xs ++ ys)) in
      if_elim P (item_at w it).it_flags.linked
        (λ _.
          if_elim P ((item_at (refcount_decr cut it) it).refcount == 0)
            (λ z. absurd (still_held cut it (kept ∙ refl) two top z)) (λ _. rest))
        (λ n. absurd (ground (arith, n, l)))

pub Fresh-both : (a : ℕ) (xs ys : List ℕ) → Fresh a ys × Fresh a xs → Fresh a (xs ++ ys)
Fresh-both a [] ys f = f.0
Fresh-both a (x ∷ xs) ys f = (f.1.0, Fresh-both a xs ys (f.0, f.1.1))

-- A replacement takes the old item, to which a reference is held, out of its queue and puts the new
-- one, which is on no queue, at the front of the queue of its own class.
pub do_item_replace-Queues :
    (settings : Settings) (fuel : ℕ) (w : World) (q : ℕ → List ℕ) (it new_it hv : ℕ)
    (xs ys : List ℕ)
    → let r = update q (item_at w it).slabs_clsid (xs ++ ys) in
      let u = do_item_unlink settings fuel w it hv in
      let id = (item_at u new_it).slabs_clsid in
      Queues w q
      → q (item_at w it).slabs_clsid ≡ xs ++ it ∷ ys
      → (item_at w it).it_flags.linked ≡ true
      → 2 ≤ (item_at w it).refcount
      → (item_at w it).refcount < 2 ^ 16
      → new_it ≢ 0
      → Fresh new_it (r id)
      → Queues (do_item_replace settings fuel w it new_it hv) (update r id (new_it ∷ r id))
unfolding do_item_replace
do_item_replace-Queues settings fuel w q it new_it hv xs ys all e l two top z f =
    let u = do_item_unlink settings fuel w it hv in
    do_item_link-Queues settings u (update q (item_at w it).slabs_clsid (xs ++ ys))
      (do_item_unlink-Queues settings w q all it hv fuel xs ys e l two top) new_it hv z f

-- A linked item that was not accessed for the update interval moves to the front of its queue; any
-- other item stays where it is.
pub do_item_update_nolock-Queues :
    (w : World) (q : ℕ → List ℕ) (it : ℕ) (xs ys : List ℕ)
    → let id = (item_at w it).slabs_clsid in
      let r = update q id (xs ++ ys) in
      let moved = update r id (it ∷ r id) in
      Queues w q
      → q id ≡ xs ++ it ∷ ys
      → it ≢ 0
      → Queues
          (do_item_update_nolock w it)
          (if is_stale w it && (item_at w it).it_flags.linked then moved else q)
unfolding do_item_update_nolock
do_item_update_nolock-Queues w q it xs ys all e z =
    let id = (item_at w it).slabs_clsid in
    let r = update q id (xs ++ ys) in
    let moved = update r id (it ∷ r id) in
    let cut = do_item_unlink_q w it in
    let timed = set_time cut it in
    let k : (item_at timed it).slabs_clsid ≡ id =
      (time-SameQueues cut it).items.class it ∙ (unlink-SameItems w it).class it in
    let cut_all =
      same-Queues cut timed r (time-SameQueues cut it) (unlink-Queues w q all it xs ys e) in
    let away : Fresh it (r id) =
      subst (Fresh it) (sym (updated id (xs ++ ys)))
        (Fresh-both it xs ys (middle-Fresh it xs ys (subst Distinct e (all id).distinct))) in
    branch (is_stale w it && (item_at w it).it_flags.linked) (
      subst (λ j. Queues (do_item_link_q timed it) (update r j (it ∷ r j))) k
        (link-Queues timed r cut_all it z (subst (λ j. Fresh it (r j)) (sym k) away)))
  where
    updated : (id : ℕ) (v : List ℕ) → update q id v id ≡ v
    updated id v = ground arith

    branch :
        {v : World} {moved : ℕ → List ℕ} (b : Bool)
        → Queues v moved
        → Queues (if b then v else w) (if b then moved else q)
    branch true h = h
    branch false h = all
