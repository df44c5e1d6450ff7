-- ===== src/Items/Crawl/Visits.antt =====
-- The items that a crawler looks at while nothing else happens to the queue.
use mathlib.Core.Path.{subst}
use analysis_memcached.Prelude.{
  ℕ, zero, suc, ◌≡◌, ◌≢◌, refl, sym, ap, ◌∙◌, true, List, [], ◌∷◌, ◌++◌, append_assoc, length, ◌==◌,
  if◌then◌else◌, if_elim, arith,
}
use analysis_memcached.Item.Bypass.{links_of}
use analysis_memcached.Items.{World, item_at}
use analysis_memcached.Items.Order.{Home-right}
use analysis_memcached.Items.Crawl.{do_item_crawl_q}
use analysis_memcached.Items.Crawl.Pass.{Threaded, do_item_crawl_q-Threaded}

-- Up to `fuel` calls of do_item_crawl_q, until one returns NULL, and the items they return.
unfoldable pub crawl : ℕ → World → ℕ → World × List ℕ
unfolding do_item_crawl_q
crawl zero w it = (w, [])
crawl (suc fuel) w it =
    let (v, y) = do_item_crawl_q w it in
    let rest = crawl fuel v it in if y == 0 then (v, []) else (rest.0, y ∷ rest.1)

-- The list `r` backwards, in front of another one.
abbrev pub backwards : List ℕ → List ℕ → List ℕ
backwards [] zs = zs
backwards (y ∷ r) zs = backwards r (y ∷ zs)

backwards-append : (r zs : List ℕ) → backwards r zs ≡ backwards r [] ++ zs
backwards-append [] zs = refl
backwards-append (y ∷ r) zs =
    backwards-append r (y ∷ zs)
    ∙ sym (append_assoc (backwards r []) (y ∷ []) zs)
    ∙ ap (λ l. l ++ zs) (sym (backwards-append r (y ∷ [])))

at_head : (w : World) (it : ℕ) → (item_at w it).prev ≡ 0 → (do_item_crawl_q w it).1 ≡ 0
unfolding do_item_crawl_q
at_head w it e =
    if_elim (λ (r : World × ℕ). r.1 ≡ 0) ((item_at w it).prev == 0) (λ _. refl)
      (λ n. absurd (ground (arith, e, n)))

-- One call, where the items before the crawler are given from the one next to it on.
passes :
    (w : World) (it id y : ℕ) (r ys : List ℕ)
    → (item_at w it).slabs_clsid ≡ id
    → Threaded w id (backwards r (y ∷ it ∷ ys))
    → let c = do_item_crawl_q w it in
      Threaded c.0 id (backwards r (it ∷ y ∷ ys))
      × (c.1 ≡ y)
      × (y ≢ 0)
      × ((item_at c.0 it).slabs_clsid ≡ id)
passes w it id y r ys e t =
    let xs = backwards r [] in
    let c = do_item_crawl_q w it in
    let u = subst (Threaded w id) (backwards-append r (y ∷ it ∷ ys)) t in
    let p =
      do_item_crawl_q-Threaded w it y xs ys
        (subst (λ k. Threaded w k (xs ++ y ∷ it ∷ ys)) (sym e) u) in
    let v = subst (λ k. Threaded c.0 k (xs ++ it ∷ y ∷ ys)) e p.0 in
    (
      subst (Threaded c.0 id) (sym (backwards-append r (it ∷ y ∷ ys))) v,
      p.1,
      (links_of w.slabs.mem 0 (w.heads id) y xs (it ∷ ys) u.links).3,
      (Home-right c.0.slabs.mem id xs (it ∷ y ∷ ys) v.home).0,
    )

-- A crawler behind the items `r`, from the one next to it to the head, looks at each of them once in
-- that order, and is then at the head of the queue, whose other items are in the order they were.
pub crawl-visits :
    (w : World) (it id : ℕ) (r ys : List ℕ)
    → (item_at w it).slabs_clsid ≡ id
    → Threaded w id (backwards r (it ∷ ys))
    → let c = crawl (length r) w it in
      (c.1 ≡ r) × Threaded c.0 id (it ∷ backwards r ys) × ((do_item_crawl_q c.0 it).1 ≡ 0)
unfolding crawl
crawl-visits w it id [] ys e t = (refl, t, at_head w it t.links.2)
crawl-visits w it id (y ∷ r) ys e t =
    let p = passes w it id y r ys e t in
    let v = (do_item_crawl_q w it).0 in
    let rest = crawl-visits v it id r (y ∷ ys) p.3 p.0 in
    let ahead = crawl (length r) v it in
    if_elim
      (λ (c : World × List ℕ).
        (c.1 ≡ y ∷ r)
        × Threaded c.0 id (it ∷ backwards r (y ∷ ys))
        × ((do_item_crawl_q c.0 it).1 ≡ 0))
      ((do_item_crawl_q w it).1 == 0)
      (λ z. absurd (p.2 (sym p.1 ∙ null_of (do_item_crawl_q w it).1 z)))
      (λ _. (ap (λ k. k ∷ ahead.1) p.1 ∙ ap (λ l. y ∷ l) rest.0, rest.1, rest.2))
  where
    null_of : (a : ℕ) → (a == 0) ≡ true → a ≡ 0
    null_of a z = ground (arith, z)
