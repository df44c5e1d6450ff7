-- ===== src/Items/Heap/Release.antt =====
-- Giving up a reference to an item: do_item_remove in the whole memory.
use mathlib.Core.Path.{subst}
use analysis_memcached.Prelude.{
  ℕ, ◌+◌, ◌-◌, ◌%◌, ◌^◌, ◌≤◌, ◌≡◌, ◌≢◌, inl, inr, refl, sym, ap, ◌∙◌, Bool, true, false, List, ◌∷◌,
  ◌==◌, if◌then◌else◌, arith, Fresh, Bool-cases,
}
use analysis_memcached.Prelude.Memory.{update}
use analysis_memcached.Item.{Item, Settings, item_ntotal, item_clsid, power_smallest}
use analysis_memcached.Slabs.{Slabs, push_free, do_slabs_free}
use analysis_memcached.Items.{World, item_at, refcount_decr, do_item_remove, item_free}
use analysis_memcached.Items.Queues.{Home-Fresh}
use analysis_memcached.Items.Linking.{same-Queues, decr-SameQueues}
use analysis_memcached.Items.Heap.{Heap, AllZero-Fresh}
use analysis_memcached.Items.Heap.Free.{push-Heap}
use analysis_memcached.Items.Heap.Keep.{Keeps, Keeps-Heap, decr-Keeps}

-- What an item must be for its memory to go back to its class: one piece, of a class that exists.
pub record IsPlain (w : World) (it : ℕ) : Type 0 where
  pub nonzero : it ≢ 0
  pub class : (item_at w it).slabs_clsid ≢ 0
  pub whole : (item_at w it).it_flags.chunked ≡ false
  pub above : power_smallest ≤ item_clsid (item_at w it)
  pub below : item_clsid (item_at w it) ≤ w.slabs.power_largest

-- Whether the reference that is given up is the last one.
abbrev pub is_last : Item → Bool
is_last c = (c.refcount + 2 ^ 16 - 1) % 2 ^ 16 == 0

-- The free lists after a reference was given up.
abbrev pub released : World → ℕ → (ℕ → List ℕ) → ℕ → List ℕ
released w it f =
    let id = item_clsid (item_at w it) in
    if is_last (item_at w it) then update f id (it ∷ f id) else f

pub Keeps-IsPlain : (it : ℕ) (w w' : World) → Keeps it w w' → IsPlain w it → IsPlain w' it
unfolding item_clsid
Keeps-IsPlain it w w' k p = record {
  nonzero = p.nonzero;
  class = λ e. p.class (sym k.clsid ∙ e);
  whole = k.chunked ∙ p.whole;
  above = ground (arith, p.above, k.clsid);
  below = ground (arith, p.below, k.clsid, k.largest);
}

pub Keeps-clsid :
    (it : ℕ) (w w' : World) → Keeps it w w' → item_clsid (item_at w' it) ≡ item_clsid (item_at w it)
unfolding item_clsid
Keeps-clsid it w w' k = ap (λ n. n % 64) k.clsid

free_plain :
    (settings : Settings) (fuel : ℕ) (s : Slabs) (it size id : ℕ)
    → power_smallest ≤ id
    → id ≤ s.power_largest
    → (s.mem it).it_flags.chunked ≡ false
    → do_slabs_free settings fuel s it size id ≡ push_free s it id size
unfolding do_slabs_free
free_plain settings fuel s it size id a b c = ground arith

free_order :
    (w : World) (q f : ℕ → List ℕ) → Heap w q f → (it : ℕ) → IsPlain w it → (j : ℕ) → Fresh it (f j)
free_order w q f h it p j = AllZero-Fresh w.slabs.mem it (f j) p.class (h.zeroed j)

queue_order :
    (w : World) (q f : ℕ → List ℕ)
    → Heap w q f
    → (it : ℕ) → Fresh it (q (item_at w it).slabs_clsid)
    → (j : ℕ) → Fresh it (q j)
queue_order w q f h it r j = elim (Bool-cases ((item_at w it).slabs_clsid == j)) [
  | inl e ↦ subst (λ k. Fresh it (q k)) (ground (arith, e)) r
  | inr e ↦ Home-Fresh w.slabs.mem j it (q j) (ground (arith, e)) (h.queues j).home
]

refcount_decr_lem :
    (w : World) (it : ℕ)
    → (item_at (refcount_decr w it) it).refcount ≡ ((item_at w it).refcount + 2 ^ 16 - 1) % 2 ^ 16
unfolding refcount_decr
refcount_decr_lem w it = ground arith

module _ (settings : Settings) (fuel : ℕ) (f : ℕ → List ℕ) (it : ℕ) where
  freed-Heap :
      (w : World) (q : ℕ → List ℕ)
      → Heap w q f
      → IsPlain w it
      → Fresh it (q (item_at w it).slabs_clsid)
      → let id = item_clsid (item_at w it) in
        Heap (item_free settings fuel w it) q (update f id (it ∷ f id))
  unfolding item_free
  freed-Heap w q h p r =
      let id = item_clsid (item_at w it) in
      let size = item_ntotal (item_at w it) in
      subst (λ s. Heap (record w { slabs = s }) q (update f id (it ∷ f id)))
        (sym (free_plain settings fuel w.slabs it size id p.above p.below p.whole))
        (push-Heap w q f h id it size p.nonzero (queue_order w q f h it r)
          (free_order w q f h it p))

  -- Giving up a reference to an item that is on no queue keeps the memory in order; with the last
  -- reference the item becomes the first free chunk of its class.
  pub do_item_remove-Heap :
      (w : World) (q : ℕ → List ℕ)
      → Heap w q f
      → IsPlain w it
      → (is_last (item_at w it) ≡ true → Fresh it (q (item_at w it).slabs_clsid))
      → Heap (do_item_remove settings fuel w it) q (released w it f)
  unfolding do_item_remove
  do_item_remove-Heap w q h p r =
      let d = refcount_decr w it in
      let id = item_clsid (item_at w it) in
      let k = decr-Keeps w it p.class in
      let hd : Heap d q f =
        Keeps-Heap it w d q q f h k (same-Queues w d q (decr-SameQueues w it) h.queues) h.no_home in
      let last = refcount_decr_lem w it in
      let plain = Keeps-IsPlain it w d k p in
      subst
        (λ n.
          Heap (if (item_at d it).refcount == 0 then item_free settings fuel d it else d) q
            (if n == 0 then update f id (it ∷ f id) else f))
        last
        (branch ((item_at d it).refcount == 0)
          (λ e.
            subst (λ i. Heap (item_free settings fuel d it) q (update f i (it ∷ f i)))
              (Keeps-clsid it w d k)
              (freed-Heap d q hd plain
                (subst (λ i. Fresh it (q i)) (sym k.clsid) (r (ap (λ n. n == 0) (sym last) ∙ e)))))
          hd)
    where
      branch :
          {u v : World} {g : ℕ → List ℕ} (b : Bool)
          → (b ≡ true → Heap u q g)
          → Heap v q f
          → Heap (if b then u else v) q (if b then g else f)
      branch true h o = h refl
      branch false h o = o
