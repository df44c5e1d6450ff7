-- ===== src/Items/Heap/Life.antt =====
-- Linking, unlinking and replacing an item, in the whole memory.
use mathlib.Core.Path.{subst}
use analysis_memcached.Prelude.{
  ℕ, ◌+◌, ◌-◌, ◌%◌, ◌^◌, ◌≡◌, ◌≢◌, refl, sym, ap, ◌∙◌, true, List, [], ◌∷◌, ◌++◌, ◌==◌,
  if◌then◌else◌, if_elim, arith, Fresh, Distinct,
}
use analysis_memcached.Prelude.Memory.{update}
use analysis_memcached.Item.{Settings, item_clsid}
use analysis_memcached.Item.Bypass.{middle-Fresh}
use analysis_memcached.Assoc.{assoc_insert}
use analysis_memcached.Items.{
  World, item_at, do_item_link_q, do_item_unlink_q, refcount_incr, admit, forget, dismiss,
  do_item_link, do_item_unlink, do_item_remove, do_item_replace,
}
use analysis_memcached.Items.Order.{Queues, unlink-Queues}
use analysis_memcached.Items.Linking.{
  SameQueues, same-Queues, SameQueues-trans, moved-SameQueues, admit-SameQueues, forget-SameQueues,
  dismiss-SameQueues, dismiss_item, unlink_item,
}
use analysis_memcached.Items.Effects.{do_item_link-Queues, Fresh-both}
use analysis_memcached.Items.Heap.{Heap}
use analysis_memcached.Items.Heap.Keep.{
  Keeps, Keeps-trans, same-Keeps, Keeps-Heap, incr-Keeps, dismiss-Keeps, forget-Keeps, add-Keeps,
  admit-Keeps, link-Keeps, unlink-Keeps,
}
use analysis_memcached.Items.Heap.Release.{
  IsPlain, is_last, released, Keeps-IsPlain, Keeps-clsid, do_item_remove-Heap,
}

linked_nowhere : (q : ℕ → List ℕ) (id : ℕ) (xs : List ℕ) → q 0 ≡ [] → id ≢ 0 → update q id xs 0 ≡ []
linked_nowhere q id xs e n = ground arith

updated_here : (q : ℕ → List ℕ) (id : ℕ) (xs : List ℕ) → update q id xs id ≡ xs
updated_here q id xs = ground arith

released_same :
    (u w : World) (it : ℕ) (f : ℕ → List ℕ)
    → (item_at u it).refcount ≡ (item_at w it).refcount
    → item_clsid (item_at u it) ≡ item_clsid (item_at w it)
    → released u it f ≡ released w it f
released_same u w it f e c =
    ap
      (λ n.
        if (n + 2 ^ 16 - 1) % 2 ^ 16 == 0
        then update f (item_clsid (item_at u it)) (it ∷ f (item_clsid (item_at u it)))
        else f)
      e
    ∙ ap (λ i. if is_last (item_at w it) then update f i (it ∷ f i) else f) c

module _ (settings : Settings) (w : World) (q f : ℕ → List ℕ) (heap : Heap w q f) (it hv : ℕ) where
  abbrev home : ℕ
  home = (item_at w it).slabs_clsid

  link_part-Keeps : home ≢ 0 → Keeps it w (do_item_link settings w it hv)
  unfolding do_item_link
  link_part-Keeps n =
      let u = admit settings w it in
      let v : World = record u { table = assoc_insert u.table it hv } in
      let linked = do_item_link_q v it in
      let counted = refcount_incr linked it in
      let t = do_item_link settings w it hv in
      let a = admit-Keeps settings w it n in
      let b = Keeps-trans it w u v a (same-Keeps it u v refl) in
      let all : Queues v q =
        same-Queues w v q
          (SameQueues-trans w u v (admit-SameQueues w it settings)
            (moved-SameQueues u it (refl, refl, refl, refl, refl)))
          heap.queues in
      let nv : (item_at v it).slabs_clsid ≢ 0 = λ e. n (sym b.clsid ∙ e) in
      let c = Keeps-trans it w v linked b (link-Keeps v q all it nv) in
      let nl : (item_at linked it).slabs_clsid ≢ 0 = λ e. n (sym c.clsid ∙ e) in
      let d = Keeps-trans it w linked counted c (incr-Keeps linked it nl) in
      Keeps-trans it w counted t d (add-Keeps counted it)

  -- Linking an item that is on no queue, of a class other than 0, keeps the memory in order.
  pub do_item_link-Heap :
      it ≢ 0
      → home ≢ 0
      → Fresh it (q home)
      → Heap (do_item_link settings w it hv) (update q home (it ∷ q home)) f
  do_item_link-Heap z n fresh =
      Keeps-Heap it w (do_item_link settings w it hv) q (update q home (it ∷ q home)) f heap
        (link_part-Keeps n) (do_item_link-Queues settings w q heap.queues it hv z fresh)
        (linked_nowhere q home (it ∷ q home) heap.no_home n)

  cut_part-Heap :
      (xs ys : List ℕ)
      → home ≢ 0
      → q home ≡ xs ++ it ∷ ys
      → let out = do_item_unlink_q (forget (dismiss w it) it hv) it in
        Heap out (update q home (xs ++ ys)) f × Keeps it w out
  cut_part-Heap xs ys n e =
      let u = forget (dismiss w it) it hv in
      let same : SameQueues w u =
        SameQueues-trans w (dismiss w it) u (dismiss-SameQueues w it)
          (forget-SameQueues (dismiss w it) it hv) in
      let all = same-Queues w u q same heap.queues in
      let a =
        Keeps-trans it w (dismiss w it) u (dismiss-Keeps w it n)
          (forget-Keeps (dismiss w it) it hv) in
      let nu : (item_at u it).slabs_clsid ≢ 0 = λ k. n (sym a.clsid ∙ k) in
      let eu = ap q a.clsid ∙ e in
      let out = do_item_unlink_q u it in
      let b = Keeps-trans it w u out a (unlink-Keeps u q all it nu xs ys eu) in
      let r : Queues out (update q home (xs ++ ys)) =
        subst (λ id. Queues out (update q id (xs ++ ys))) a.clsid
          (unlink-Queues u q all it xs ys eu) in
      (
        Keeps-Heap it w out q (update q home (xs ++ ys)) f heap b r
            (linked_nowhere q home (xs ++ ys) heap.no_home n),
        b,
      )

  -- Unlinking a linked item of one piece (without ITEM_CHUNKED) whose class is among those in use keeps
  -- the memory in order: the item leaves its queue, whose other items keep their order, and with the
  -- last reference it becomes the first free chunk of its class.
  pub do_item_unlink-Heap :
      (fuel : ℕ) (xs ys : List ℕ)
      → IsPlain w it
      → q home ≡ xs ++ it ∷ ys
      → (item_at w it).it_flags.linked ≡ true
      → Heap (do_item_unlink settings fuel w it hv) (update q home (xs ++ ys)) (released w it f)
  unfolding do_item_unlink
  do_item_unlink-Heap fuel xs ys p e l =
      let u = forget (dismiss w it) it hv in
      let out = do_item_unlink_q u it in
      let h = cut_part-Heap xs ys p.class e in
      let r = update q home (xs ++ ys) in
      let away =
        Fresh-both it xs ys
          (middle-Fresh it xs ys (subst Distinct e (heap.queues home).distinct)) in
      let off : Fresh it (r (item_at out it).slabs_clsid) =
        subst (λ i. Fresh it (r i)) (sym h.1.clsid)
          (subst (Fresh it) (sym (updated_here q home (xs ++ ys))) away) in
      let gone : Heap (do_item_remove settings fuel out it) r (released out it f) =
        do_item_remove-Heap settings fuel f it out r h.0 (Keeps-IsPlain it w out h.1 p)
          (λ _. off) in
      let same =
        released_same out w it f ((unlink_item u it).1 ∙ (dismiss_item w it hv).1)
          (Keeps-clsid it w out h.1) in
      if_elim (λ (v : World). Heap v r (released w it f)) (item_at w it).it_flags.linked
        (λ _. subst (Heap (do_item_remove settings fuel out it) r) same gone)
        (λ n. absurd (ground (arith, n, l)))

-- Replacing a linked item of one piece (without ITEM_CHUNKED), whose class is among those in use, by
-- an item of a class that is not in its queue keeps the memory in order: the old item leaves its
-- queue and, with its last reference, becomes free; the new one is the first of the queue of its
-- class.
pub do_item_replace-Heap :
    (settings : Settings) (fuel : ℕ) (w : World) (q f : ℕ → List ℕ) (it new_it hv : ℕ)
    (xs ys : List ℕ)
    → let r = update q (item_at w it).slabs_clsid (xs ++ ys) in
      let id = (item_at (do_item_unlink settings fuel w it hv) new_it).slabs_clsid in
      Heap w q f
      → IsPlain w it
      → q (item_at w it).slabs_clsid ≡ xs ++ it ∷ ys
      → (item_at w it).it_flags.linked ≡ true
      → new_it ≢ 0
      → id ≢ 0
      → Fresh new_it (r id)
      → Heap
          (do_item_replace settings fuel w it new_it hv)
          (update r id (new_it ∷ r id))
          (released w it f)
unfolding do_item_replace
do_item_replace-Heap settings fuel w q f it new_it hv xs ys h p e l z n fresh =
    do_item_link-Heap settings (do_item_unlink settings fuel w it hv)
      (update q (item_at w it).slabs_clsid (xs ++ ys)) (released w it f)
      (do_item_unlink-Heap settings w q f h it hv fuel xs ys p e l) new_it hv z n fresh
