-- ===== src/Items/Order.antt =====
-- All LRU queues together: linking or cutting an item changes the order of its own queue only.
use mathlib.Core.Path.{subst}
use analysis_memcached.Prelude.{
  ◌+◌, ◌%◌, ◌^◌, sub32, sub64, ℕ, ◌≡◌, ◌≢◌, ◌⊎◌, inl, inr, refl, sym, ap, ◌∙◌, true, List, [], ◌∷◌,
  ◌++◌, ◌==◌, arith, Fresh, if_elim,
}
use analysis_memcached.Prelude.Memory.{update}
use analysis_memcached.Item.{Mem, item_ntotal, set_prev}
use analysis_memcached.Item.Links.{
  Linked, last, SameLinks, SameLinks-trans, update-SameLinks, set_prev-SameLinks,
}
use analysis_memcached.Item.Bypass.{bypass, set_next-SameLinks, links_of, first, Linked-Fresh}
use analysis_memcached.Items.{World, item_at, do_item_link_q, do_item_unlink_q}
use analysis_memcached.Items.Queues.{
  Home, IsQueue, Home-Fresh, link-SameItems, unlink-SameItems, link-IsQueue, unlink-IsQueue,
  frame-IsQueue, other,
}

-- The queues of all classes.
abbrev pub Queues : World → (ℕ → List ℕ) → Type 0
Queues w q = (id : ℕ) → IsQueue w id (q id)

-- An address that is NULL or an item of class `id` is not in the queue of another class.
abbrev pub Beside : Mem → ℕ → ℕ → Type 0
Beside m id p = (p ≡ 0) ⊎ ((m p).slabs_clsid ≡ id)

Beside-Fresh :
    (m : Mem) (id p j b h : ℕ) (zs : List ℕ)
    → Beside m id p
    → j ≢ id
    → Linked m b h zs
    → Home m j zs
    → Fresh p zs
Beside-Fresh m id p j b h zs (inl e) n l g =
    subst (λ q. Fresh q zs) (sym e) (Linked-Fresh m b h zs l)
Beside-Fresh m id p j b h zs (inr e) n l g = Home-Fresh m j p zs (λ k. n (sym k ∙ e)) g

pub start-Beside :
    (m : Mem) (id b p : ℕ) (xs : List ℕ) → Linked m b p xs → Home m id xs → Beside m id p
start-Beside m id b p [] l h = inl l
start-Beside m id b p (x ∷ xs) l h = inr (ap (λ q. (m q).slabs_clsid) l.0 ∙ h.0)

pub last-Beside :
    (m : Mem) (id b : ℕ) (xs ys : List ℕ)
    → Beside m id b
    → Home m id (xs ++ ys)
    → Beside m id (last b xs)
last-Beside m id b [] ys h g = h
last-Beside m id b (x ∷ xs) ys h g = last-Beside m id x xs ys (inr g.0) g.1

pub first-Beside : (m : Mem) (id : ℕ) (ys : List ℕ) → Home m id ys → Beside m id (first ys)
first-Beside m id [] g = inl refl
first-Beside m id (y ∷ ys) g = inr g.0

pub Home-right : (m : Mem) (id : ℕ) (xs ys : List ℕ) → Home m id (xs ++ ys) → Home m id ys
Home-right m id [] ys h = h
Home-right m id (x ∷ xs) ys h = Home-right m id xs ys h.1

kept_prev : (m : Mem) (it : ℕ) → (m it).prev ≡ (set_prev m (m it).next (m it).prev it).prev
kept_prev m it = ground arith

module _ (w : World) (q : ℕ → List ℕ) (all : Queues w q) (it : ℕ) where
  abbrev home_of : ℕ
  home_of = (item_at w it).slabs_clsid

  link_other-SameLinks :
      (j : ℕ) → j ≢ home_of → SameLinks w.slabs.mem (do_item_link_q w it).slabs.mem (q j)
  unfolding do_item_link_q
  link_other-SameLinks j n =
      let m = w.slabs.mem in
      let head = w.heads home_of in
      let c = record (m it) { prev = 0; next = head } in
      let mine = all home_of in
      let theirs = all j in
      let apart = Home-Fresh m j it (q j) (λ e. n (sym e)) theirs.home in
      let front =
        Beside-Fresh m home_of head j 0 (w.heads j) (q j)
          (start-Beside m home_of 0 head (q home_of) mine.links mine.home) n theirs.links
          theirs.home in
      SameLinks-trans m (update m it c) (set_prev (update m it c) head it) (q j)
        (update-SameLinks m it c (q j) apart)
        (set_prev-SameLinks (update m it c) head it (q j) front)

  link_other : (j : ℕ) → j ≢ home_of → IsQueue (do_item_link_q w it) j (q j)
  unfolding do_item_link_q
  link_other j n =
      frame-IsQueue w (do_item_link_q w it) j (q j) (link-SameItems w it) (link_other-SameLinks j n)
        (
          other true w.heads home_of it j n,
          other (w.tails home_of == 0) w.tails home_of it j n,
          other true w.sizes home_of ((w.sizes home_of + 1) % 2 ^ 32) j n,
          other true w.sizes_bytes home_of
              ((w.sizes_bytes home_of + item_ntotal (item_at w it)) % 2 ^ 64) j n,
        )
        (all j)

  -- An item that is on no queue becomes the first one of the queue of its class; the other queues
  -- stay as they are.
  pub link-Queues :
      it ≢ 0
      → Fresh it (q home_of)
      → Queues (do_item_link_q w it) (update q home_of (it ∷ q home_of))
  link-Queues z f j =
      if_elim (IsQueue (do_item_link_q w it) j) (home_of == j)
        (λ e.
          subst (λ k. IsQueue (do_item_link_q w it) k (it ∷ q home_of)) (ground (arith, e))
            (link-IsQueue w it (q home_of) z f (all home_of)))
        (λ e. link_other j (ground (arith, e)))

  unlink_other-SameLinks :
      (xs ys : List ℕ) (j : ℕ)
      → IsQueue w home_of (xs ++ it ∷ ys)
      → j ≢ home_of
      → SameLinks w.slabs.mem (do_item_unlink_q w it).slabs.mem (q j)
  unfolding do_item_unlink_q
  unlink_other-SameLinks xs ys j mine n =
      let m = w.slabs.mem in
      let c = m it in
      let m₁ = set_prev m c.next c.prev in
      let theirs = all j in
      let ends = links_of m 0 (w.heads home_of) it xs ys mine.links in
      let before : Beside m home_of c.prev =
        subst (Beside m home_of) (sym ends.0)
          (last-Beside m home_of 0 xs (it ∷ ys) (inl refl) mine.home) in
      let after : Beside m home_of c.next =
        subst (Beside m home_of) (sym ends.1)
          (first-Beside m home_of ys (Home-right m home_of xs (it ∷ ys) mine.home).1) in
      let fresh : (p : ℕ) → Beside m home_of p → Fresh p (q j) =
        λ p b. Beside-Fresh m home_of p j 0 (w.heads j) (q j) b n theirs.links theirs.home in
      let same : c.prev ≡ (m₁ it).prev = kept_prev m it in
      SameLinks-trans m m₁ (bypass m it) (q j)
        (set_prev-SameLinks m c.next c.prev (q j) (fresh c.next after))
        (set_next-SameLinks m₁ (m₁ it).prev (m₁ it).next (q j)
          (subst (λ p. Fresh p (q j)) same (fresh c.prev before)))

  unlink_other :
      (xs ys : List ℕ) (j : ℕ)
      → IsQueue w home_of (xs ++ it ∷ ys)
      → j ≢ home_of
      → IsQueue (do_item_unlink_q w it) j (q j)
  unfolding do_item_unlink_q
  unlink_other xs ys j mine n =
      frame-IsQueue w (do_item_unlink_q w it) j (q j) (unlink-SameItems w it)
        (unlink_other-SameLinks xs ys j mine n)
        (
          other (w.heads home_of == it) w.heads home_of (item_at w it).next j n,
          other (w.tails home_of == it) w.tails home_of (item_at w it).prev j n,
          other true w.sizes home_of (sub32 (w.sizes home_of) 1) j n,
          other true w.sizes_bytes home_of
              (sub64 (w.sizes_bytes home_of) (item_ntotal (item_at w it) % 2 ^ 64)) j n,
        )
        (all j)

  -- An item that is cut out of the queue of its class leaves the order of the others as it was; the
  -- other queues stay as they are.
  pub unlink-Queues :
      (xs ys : List ℕ)
      → q home_of ≡ xs ++ it ∷ ys
      → Queues (do_item_unlink_q w it) (update q home_of (xs ++ ys))
  unlink-Queues xs ys e j =
      let mine = subst (IsQueue w home_of) e (all home_of) in
      if_elim (IsQueue (do_item_unlink_q w it) j) (home_of == j)
        (λ k.
          subst (λ k. IsQueue (do_item_unlink_q w it) k (xs ++ ys)) (ground (arith, k))
            (unlink-IsQueue w it xs ys mine))
        (λ k. unlink_other xs ys j mine (ground (arith, k)))
