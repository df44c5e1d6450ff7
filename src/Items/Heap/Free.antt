-- ===== src/Items/Heap/Free.antt =====
-- Freeing a chunk and handing one out, in the whole memory.
use mathlib.Core.Path.{subst}
use analysis_memcached.Prelude.{
  ℕ, ◌≡◌, ◌≢◌, ◌⊎◌, inl, inr, refl, sym, ap, ◌∙◌, true, false, List, [], ◌∷◌, ◌==◌, arith, Fresh,
  Bool-cases,
}
use analysis_memcached.Prelude.Memory.{update}
use analysis_memcached.Item.{Mem}
use analysis_memcached.Item.Links.{Linked}
use analysis_memcached.Item.Bypass.{Linked-Fresh}
use analysis_memcached.Slabs.{Slabs, push_free, pop_free}
use analysis_memcached.Slabs.Freelist.{IsFreelist, push_free-IsFreelist, pop_free-IsFreelist}
use analysis_memcached.Items.{World}
use analysis_memcached.Items.Queues.{IsQueue}
use analysis_memcached.Items.Heap.{
  Heap, AllZero, AllFresh, agree, agree-IsFreelist, agree-IsQueue, Home-zero,
}

ℕ-cases : (a b : ℕ) → (a ≡ b) ⊎ (a ≢ b)
ℕ-cases a b = elim (Bool-cases (a == b)) [
  | inl e ↦ inl (ground (arith, e))
  | inr e ↦ inr (ground (arith, e))
]

start-Fresh :
    (m : Mem) (b p : ℕ) (xs ys : List ℕ)
    → Linked m b p xs
    → AllFresh xs ys
    → Fresh 0 ys
    → Fresh p ys
start-Fresh m b p [] ys l a z = subst (λ k. Fresh k ys) (sym l) z
start-Fresh m b p (x ∷ xs) ys l a z = subst (λ k. Fresh k ys) (sym l.0) a.0

AllFresh-cons : (a : ℕ) (xs ys : List ℕ) → Fresh a xs → AllFresh xs ys → AllFresh xs (a ∷ ys)
AllFresh-cons a [] ys f h = tt
AllFresh-cons a (x ∷ xs) ys f h = (((λ e. f.0 (sym e)), h.0), AllFresh-cons a xs ys f.1 h.1)

AllFresh-tail : (a : ℕ) (xs ys : List ℕ) → AllFresh xs (a ∷ ys) → AllFresh xs ys
AllFresh-tail a [] ys h = tt
AllFresh-tail a (x ∷ xs) ys h = (h.0.1, AllFresh-tail a xs ys h.1)

AllZero-Home :
    (w : World) (id : ℕ) (fs qs : List ℕ)
    → AllZero w.slabs.mem fs
    → id ≢ 0
    → IsQueue w id qs
    → AllFresh fs qs
AllZero-Home w id [] qs z n q = tt
AllZero-Home w id (x ∷ fs) qs z n q =
    (Home-zero w.slabs.mem id x qs z.0 n q.home, AllZero-Home w id fs qs z.1 n q)

AllFresh-nil : (xs : List ℕ) → AllFresh xs []
AllFresh-nil [] = tt
AllFresh-nil (x ∷ xs) = (tt, AllFresh-nil xs)

zero-kept :
    (m m' : Mem) (xs : List ℕ)
    → ((a : ℕ) → (m a).slabs_clsid ≡ 0 → (m' a).slabs_clsid ≡ 0)
    → AllZero m xs
    → AllZero m' xs
zero-kept m m' [] k z = tt
zero-kept m m' (x ∷ xs) k z = (k x z.0, zero-kept m m' xs k z.1)

module _ (w : World) (q f : ℕ → List ℕ) (heap : Heap w q f) (id : ℕ) where
  -- No free chunk is on a queue.
  free-queue : (j : ℕ) → AllFresh (f id) (q j)
  free-queue j = elim (ℕ-cases j 0) [
    | inl e ↦ subst (AllFresh (f id)) (sym (ap q e ∙ heap.no_home)) (AllFresh-nil (f id))
    | inr n ↦ AllZero-Home w j (f id) (q j) (heap.zeroed id) n (heap.queues j)
  ]

  slots-Fresh-queue : (j : ℕ) → Fresh (w.slabs.class id).slots (q j)
  slots-Fresh-queue j =
      start-Fresh w.slabs.mem 0 (w.slabs.class id).slots (f id) (q j) (heap.frees id).links
        (free-queue j) (Linked-Fresh w.slabs.mem 0 (w.heads j) (q j) (heap.queues j).links)

  slots-Fresh-free : (j : ℕ) → id ≢ j → Fresh (w.slabs.class id).slots (f j)
  slots-Fresh-free j n =
      start-Fresh w.slabs.mem 0 (w.slabs.class id).slots (f id) (f j) (heap.frees id).links
        (heap.apart id j n)
        (Linked-Fresh w.slabs.mem 0 (w.slabs.class j).slots (f j) (heap.frees j).links)

-- A table of lists with another list for `id`.
module _ (f : ℕ → List ℕ) (id : ℕ) (xs : List ℕ) where
  pub with_here {ℓ} :
      (P : ℕ → List ℕ → Type ℓ)
      → P id xs
      → ((j : ℕ) → j ≢ id → P j (f j))
      → (j : ℕ) → P j (update f id xs j)
  with_here P h o j = elim (Bool-cases (id == j)) [
    | inl e ↦ subst (P j) (sym (there_eq j e)) (subst (λ k. P k xs) (ground (arith, e)) h)
    | inr e ↦ subst (P j) (sym (there_ne j e)) (o j (ground (arith, e)))
  ]
    where
      there_eq : (j : ℕ) → (id == j) ≡ true → update f id xs j ≡ xs
      there_eq j e = ground (arith, e)

      there_ne : (j : ℕ) → (id == j) ≡ false → update f id xs j ≡ f j
      there_ne j e = ground (arith, e)

  apart_with :
      ((i j : ℕ) → i ≢ j → AllFresh (f i) (f j))
      → ((j : ℕ) → j ≢ id → AllFresh xs (f j) × AllFresh (f j) xs)
      → (i j : ℕ) → i ≢ j
      → AllFresh (update f id xs i) (update f id xs j)
  apart_with a h i =
      with_here (λ i ys. (j : ℕ) → i ≢ j → AllFresh ys (update f id xs j))
        (λ j n.
          with_here (λ j zs. id ≢ j → AllFresh xs zs) (λ n. absurd (n refl)) (λ j m _. (h j m).0) j
            n)
        (λ i m j n.
          with_here (λ j zs. i ≢ j → AllFresh (f i) zs) (λ n. (h i m).1) (λ j _ n. a i j n) j n)
        i

module _ (w : World) (q f : ℕ → List ℕ) (heap : Heap w q f) (id it size : ℕ) where
  push_agree :
      (a : ℕ)
      → a ≢ it
      → a ≢ (w.slabs.class id).slots
      → (push_free w.slabs it id size).mem a ≡ w.slabs.mem a
  unfolding push_free
  push_agree a n m = ground arith

  push_zero :
      (a : ℕ)
      → (w.slabs.mem a).slabs_clsid ≡ 0
      → ((push_free w.slabs it id size).mem a).slabs_clsid ≡ 0
  unfolding push_free
  push_zero a e = ground arith

  push_here : ((push_free w.slabs it id size).mem it).slabs_clsid ≡ 0
  unfolding push_free
  push_here = ground arith

  push_other : (j : ℕ) → j ≢ id → (push_free w.slabs it id size).class j ≡ w.slabs.class j
  unfolding push_free
  push_other j n = ground arith

  -- A chunk that is on no list becomes the first free chunk of its class; the queues and the other
  -- free lists stay.
  pub push-Heap :
      it ≢ 0
      → ((j : ℕ) → Fresh it (q j))
      → ((j : ℕ) → Fresh it (f j))
      → Heap (record w { slabs = push_free w.slabs it id size }) q (update f id (it ∷ f id))
  push-Heap z nq nf =
      let s = push_free w.slabs it id size in
      let slots = (w.slabs.class id).slots in
      record {
        queues = λ j.
            agree-IsQueue w s j (q j)
              (agree w.slabs.mem s.mem it slots (q j) push_agree (nq j)
                (slots-Fresh-queue w q f heap id j))
              (heap.queues j);
        no_home = heap.no_home;
        frees =
            with_here f id (it ∷ f id) (λ j xs. IsFreelist s j xs)
              (push_free-IsFreelist w.slabs id size it (f id) z (nf id) (heap.frees id))
              (λ j n.
                agree-IsFreelist w.slabs s j (f j)
                  (agree w.slabs.mem s.mem it slots (f j) push_agree (nf j)
                    (slots-Fresh-free w q f heap id j (λ e. n (sym e))))
                  (push_other j n) (heap.frees j));
        zeroed =
            with_here f id (it ∷ f id) (λ j xs. AllZero s.mem xs)
              (push_here, zero-kept w.slabs.mem s.mem (f id) push_zero (heap.zeroed id))
              (λ j n. zero-kept w.slabs.mem s.mem (f j) push_zero (heap.zeroed j));
        apart = apart_with f id (it ∷ f id) heap.apart (λ j n. (
          (nf j, heap.apart id j (λ e. n (sym e))),
          AllFresh-cons it (f j) (f id) (nf j) (heap.apart j id n),
        ));
      }

-- An allocation from the free list `it ∷ xs`: the chunk is on no list then.
pub record Taken (w : World) (q f : ℕ → List ℕ) (id it : ℕ) (xs : List ℕ) (r : Slabs × ℕ)
    : Type 0 where
  pub chunk : r.1 ≡ it
  pub heap : Heap (record w { slabs = r.0 }) q (update f id xs)
  pub off_queues : (j : ℕ) → Fresh it (q j)
  pub off_frees : (j : ℕ) → Fresh it (update f id xs j)
  pub nonzero : it ≢ 0
  pub class : (r.0.mem it).slabs_clsid ≡ 0
  pub owned : (r.0.mem it).refcount ≡ 1

module _ (w : World) (q f : ℕ → List ℕ) (heap : Heap w q f) (id it size : ℕ) (xs : List ℕ)
    (e : f id ≡ it ∷ xs) where
  pop_agree :
      (a : ℕ)
      → a ≢ (w.slabs.class id).slots
      → a ≢ (w.slabs.mem (w.slabs.class id).slots).next
      → (pop_free w.slabs id size).0.mem a ≡ w.slabs.mem a
  unfolding pop_free
  pop_agree a n m = ground arith

  pop_zero :
      (a : ℕ)
      → (w.slabs.mem a).slabs_clsid ≡ 0
      → ((pop_free w.slabs id size).0.mem a).slabs_clsid ≡ 0
  unfolding pop_free
  pop_zero a z = ground arith

  pop_other : (j : ℕ) → j ≢ id → (pop_free w.slabs id size).0.class j ≡ w.slabs.class j
  unfolding pop_free
  pop_other j n = ground arith

  first-IsFreelist : IsFreelist w.slabs id (it ∷ xs)
  first-IsFreelist = subst (IsFreelist w.slabs id) e (heap.frees id)

  slots_it : (w.slabs.class id).slots ≡ it
  slots_it = first-IsFreelist.links.0

  -- A list beside the free list is beside its second chunk.
  next-Fresh :
      (ys : List ℕ)
      → AllFresh (it ∷ xs) ys
      → Fresh 0 ys
      → Fresh (w.slabs.mem (w.slabs.class id).slots).next ys
  next-Fresh ys a z =
      subst (λ p. Fresh (w.slabs.mem p).next ys) (sym slots_it)
        (start-Fresh w.slabs.mem it (w.slabs.mem it).next xs ys first-IsFreelist.links.3 a.1 z)

  beside-queue : (j : ℕ) → AllFresh (it ∷ xs) (q j)
  beside-queue j = subst (λ l. AllFresh l (q j)) e (free-queue w q f heap id j)

  beside-free : (j : ℕ) → j ≢ id → AllFresh (it ∷ xs) (f j)
  beside-free j n = subst (λ l. AllFresh l (f j)) e (heap.apart id j (λ k. n (sym k)))

  -- The first free chunk of a class leaves its free list; the queues and the other free lists stay.
  pub pop-Taken : Taken w q f id it xs (pop_free w.slabs id size)
  pop-Taken =
      let s = (pop_free w.slabs id size).0 in
      let slots = (w.slabs.class id).slots in
      let next = (w.slabs.mem slots).next in
      let r = pop_free-IsFreelist w.slabs id size it xs first-IsFreelist in
      let z = subst (AllZero w.slabs.mem) e (heap.zeroed id) in
      record {
        chunk = r.0;
        heap = record {
          queues = λ j.
              agree-IsQueue w s j (q j)
                (agree w.slabs.mem s.mem slots next (q j) pop_agree
                  (slots-Fresh-queue w q f heap id j)
                  (next-Fresh (q j) (beside-queue j)
                    (Linked-Fresh w.slabs.mem 0 (w.heads j) (q j) (heap.queues j).links)))
                (heap.queues j);
          no_home = heap.no_home;
          frees =
              with_here f id xs (λ j ys. IsFreelist s j ys) r.1
                (λ j n.
                  agree-IsFreelist w.slabs s j (f j)
                    (agree w.slabs.mem s.mem slots next (f j) pop_agree
                      (slots-Fresh-free w q f heap id j (λ k. n (sym k)))
                      (next-Fresh (f j) (beside-free j n) (
                        Linked-Fresh w.slabs.mem 0 (w.slabs.class j).slots (f j)
                          (heap.frees j).links)))
                    (pop_other j n) (heap.frees j));
          zeroed =
              with_here f id xs (λ j ys. AllZero s.mem ys)
                (zero-kept w.slabs.mem s.mem xs pop_zero z.1)
                (λ j n. zero-kept w.slabs.mem s.mem (f j) pop_zero (heap.zeroed j));
          apart = apart_with f id xs heap.apart (λ j n. (
            (beside-free j n).1,
            AllFresh-tail it (f j) xs (subst (AllFresh (f j)) e (heap.apart j id n)),
          ));
        };
        off_queues = λ j. (beside-queue j).0;
        off_frees =
            with_here f id xs (λ j ys. Fresh it ys) first-IsFreelist.distinct.0
              (λ j n. (beside-free j n).0);
        nonzero = first-IsFreelist.links.1;
        class = pop_zero it z.0;
        owned = subst (λ p. (s.mem p).refcount ≡ 1) r.0 r.3;
      }
