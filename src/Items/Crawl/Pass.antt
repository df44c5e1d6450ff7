-- ===== src/Items/Crawl/Pass.antt =====
-- A crawler that passes an item.
use mathlib.Core.Path.{subst}
use analysis_memcached.Prelude.{
  ℕ, ◌≡◌, ◌≢◌, refl, sym, ap, ◌∙◌, true, not, List, [], ◌∷◌, ◌++◌, ◌==◌, if◌then◌else◌, if_elim,
  arith, Fresh, Distinct, ◌&&◌,
}
use analysis_memcached.Item.{Mem}
use analysis_memcached.Item.Links.{Linked, last}
use analysis_memcached.Item.Bypass.{
  bypass, bypass-Linked, last-cut, Distinct-cut, first, links_of, Linked-Fresh, last-ne,
  Fresh-append-right,
}
use analysis_memcached.Items.{World, item_at}
use analysis_memcached.Items.Queues.{Home, if_update}
use analysis_memcached.Items.Crawl.{
  cut_out, link_before, swing, do_item_crawl_q, do_item_unlinktail_q,
}
use analysis_memcached.Items.Crawl.Swing.{Swung, swing-Swung}
use analysis_memcached.Items.Crawl.Relinked.{swung-Linked, front}

-- The items of queue `id` from its head to its tail, placeholders among them.
pub record Threaded (w : World) (id : ℕ) (xs : List ℕ) : Type 0 where
  pub links : Linked w.slabs.mem 0 (w.heads id) xs
  pub tail : w.tails id ≡ last 0 xs
  pub distinct : Distinct xs
  pub home : Home w.slabs.mem id xs

Fresh-swap :
    (a y it : ℕ) (xs ys : List ℕ) → Fresh a (xs ++ y ∷ it ∷ ys) → Fresh a (xs ++ it ∷ y ∷ ys)
Fresh-swap a y it [] ys f = (f.1.0, (f.0, f.1.1))
Fresh-swap a y it (x ∷ xs) ys f = (f.0, Fresh-swap a y it xs ys f.1)

Distinct-swap :
    (y it : ℕ) (xs ys : List ℕ) → Distinct (xs ++ y ∷ it ∷ ys) → Distinct (xs ++ it ∷ y ∷ ys)
Distinct-swap y it [] ys d = (((λ e. d.0.0 (sym e)), d.1.0), (d.0.1, d.1.1))
Distinct-swap y it (x ∷ xs) ys d = (Fresh-swap x y it xs ys d.0, Distinct-swap y it xs ys d.1)

cut_class : (m : Mem) (it a : ℕ) → (cut_out m it a).slabs_clsid ≡ (m a).slabs_clsid
unfolding cut_out
cut_class m it a = ground arith

before_class : (m : Mem) (it a : ℕ) → (link_before m it a).slabs_clsid ≡ (m a).slabs_clsid
unfolding link_before
before_class m it a = ground arith

swing_class : (m : Mem) (it a : ℕ) → (swing m it a).slabs_clsid ≡ (m a).slabs_clsid
unfolding swing
swing_class m it a = before_class (cut_out m it) it a ∙ cut_class m it a

Home-swap :
    (m : Mem) (id y it : ℕ) (xs ys : List ℕ)
    → Home m id (xs ++ y ∷ it ∷ ys)
    → Home (swing m it) id (xs ++ it ∷ y ∷ ys)
Home-swap m id y it [] ys h =
    (swing_class m it it ∙ h.1.0, (swing_class m it y ∙ h.0, Home-swing ys h.1.1))
  where
    Home-swing : (ys : List ℕ) → Home m id ys → Home (swing m it) id ys
    Home-swing [] h = tt
    Home-swing (x ∷ ys) h = (swing_class m it x ∙ h.0, Home-swing ys h.1)
Home-swap m id y it (x ∷ xs) ys h = (swing_class m it x ∙ h.0, Home-swap m id y it xs ys h.1)

last-swap :
    (b y it : ℕ) (xs ys : List ℕ)
    → Distinct (xs ++ y ∷ it ∷ ys)
    → (if last b (xs ++ y ∷ it ∷ ys) == it then y else last b (xs ++ y ∷ it ∷ ys))
      ≡ last b (xs ++ it ∷ y ∷ ys)
last-swap b y it [] [] d = ground arith
last-swap b y it [] (z ∷ ys) d = ground (arith, last-ne it z ys d.1.0)
last-swap b y it (x ∷ xs) ys d = last-swap x y it xs ys d.1

front_head :
    {m m' : Mem} {pv nx : ℕ} (p y it : ℕ) (s : Swung m m' pv y it nx) (xs ys : List ℕ)
    → Distinct (xs ++ y ∷ it ∷ ys)
    → Linked m 0 p (xs ++ y ∷ it ∷ ys)
    → (if p == y then it else p) ≡ front m m' pv y it nx s xs p
front_head p y it s [] ys d l = ground (arith, l.0)
front_head p y it s (x ∷ xs) ys d l =
    ground (arith, l.0, (Fresh-append-right x xs (y ∷ it ∷ ys) d.0).0)

not_first : (a : ℕ) (ys : List ℕ) → a ≢ 0 → Fresh a ys → first ys ≢ a
not_first a [] z f e = z (sym e)
not_first a (x ∷ ys) z f e = f.0 (sym e)

first_of : (m : Mem) (b p : ℕ) (ys : List ℕ) → Linked m b p ys → p ≡ first ys
first_of m b p [] l = l
first_of m b p (x ∷ ys) l = l.0

middle_Distinct :
    (y it : ℕ) (xs ys : List ℕ) → Distinct (xs ++ y ∷ it ∷ ys) → Fresh y (it ∷ ys) × Fresh it ys
middle_Distinct y it [] ys d = (d.0, d.1.0)
middle_Distinct y it (x ∷ xs) ys d = middle_Distinct y it xs ys d.1

not_last : (y it b : ℕ) (xs ys : List ℕ) → b ≢ it → Distinct (xs ++ y ∷ it ∷ ys) → last b xs ≢ it
not_last y it b [] ys n d = n
not_last y it b (x ∷ xs) ys n d =
    not_last y it x xs ys (Fresh-append-right x xs (y ∷ it ∷ ys) d.0).1.0 d.1

-- A crawler that is not at the head of its queue swings in front of the item before it, which it
-- returns; the order of the other items stays.
pub do_item_crawl_q-Threaded :
    (w : World) (it y : ℕ) (xs ys : List ℕ)
    → let id = (item_at w it).slabs_clsid in
      let r = do_item_crawl_q w it in
      Threaded w id (xs ++ y ∷ it ∷ ys) → Threaded r.0 id (xs ++ it ∷ y ∷ ys) × (r.1 ≡ y)
unfolding do_item_crawl_q
do_item_crawl_q-Threaded w it y xs ys t =
    let m = w.slabs.mem in
    let c = item_at w it in
    let id = c.slabs_clsid in
    let p = w.heads id in
    let at_y = links_of m 0 p y xs (it ∷ ys) t.links in
    let at_it = at_y.2 in
    let apart = middle_Distinct y it xs ys t.distinct in
    let nx = first_of m it c.next ys at_it.3 in
    let s : Swung m (swing m it) (m y).prev y it c.next =
      swing-Swung m (m y).prev y it c.next at_it.2 refl refl at_y.3 apart.0.0
        (λ e. not_first it ys at_it.1 apart.1 (sym nx ∙ e))
        (λ e. not_first y ys at_y.3 apart.0.1 (sym nx ∙ e)) in
    let linked =
      swung-Linked m (swing m it) (m y).prev y it c.next s 0 p xs ys at_y.0 nx t.distinct
        (Linked-Fresh m 0 p (xs ++ y ∷ it ∷ ys) t.links) t.links in
    let head =
      if_update (p == c.prev) w.heads id it
      ∙ ap (λ k. if p == k then it else p) at_it.2
      ∙ front_head p y it s xs ys t.distinct t.links in
    let tail =
      if_update (w.tails id == it) w.tails id c.prev
      ∙ ap (λ k. if w.tails id == it then k else w.tails id) at_it.2
      ∙ ap (λ k. if k == it then y else k) t.tail
      ∙ last-swap 0 y it xs ys t.distinct in
    if_elim (λ (r : World × ℕ). Threaded r.0 id (xs ++ it ∷ y ∷ ys) × (r.1 ≡ y)) (c.prev == 0)
      (λ e. absurd (not_null at_y.3 at_it.2 e))
      (λ _. (
        record {
          links = subst (λ k. Linked (swing m it) 0 k (xs ++ it ∷ y ∷ ys)) (sym head) linked;
          tail = tail;
          distinct = Distinct-swap y it xs ys t.distinct;
          home = Home-swap m id y it xs ys t.home;
        },
        s.nexts it
            ∙ next_of c.next c.next
                (λ e. not_last y it 0 xs ys (λ z. at_it.1 (sym z)) t.distinct (sym at_y.0 ∙ e)),
      ))
  where
    next_of :
        {pv : ℕ} (nx v : ℕ)
        → pv ≢ it
        → (if it == pv && not (pv == 0)
            then it
            else if it == it
            then y
            else if it == y
            then nx
            else v)
          ≡ y
    next_of nx v n = ground (arith, n)

    not_null : {a : ℕ} → y ≢ 0 → a ≡ y → (a == 0) ≡ true → ⊥
    not_null n e z = n (ground (arith, e, z))

-- A placeholder is taken out of any place of its queue, and the order of the others stays.
pub do_item_unlinktail_q-Threaded :
    (w : World) (it : ℕ) (xs ys : List ℕ)
    → let id = (item_at w it).slabs_clsid in
      Threaded w id (xs ++ it ∷ ys) → Threaded (do_item_unlinktail_q w it) id (xs ++ ys)
unfolding do_item_unlinktail_q
do_item_unlinktail_q-Threaded w it xs ys t =
    let m = w.slabs.mem in
    let id = (item_at w it).slabs_clsid in
    record {
      links =
          subst (λ k. Linked (bypass m it) 0 k (xs ++ ys))
            (sym (if_update (w.heads id == it) w.heads id (m it).next))
            (bypass-Linked m (w.heads id) it xs ys t.distinct t.links);
      tail =
          if_update (w.tails id == it) w.tails id (m it).prev
          ∙ ap (λ k. if k == it then (m it).prev else k) t.tail
          ∙ last-cut m 0 (w.heads id) it xs ys t.distinct t.links;
      distinct = Distinct-cut it xs ys t.distinct;
      home = Home-cut id xs t.home;
    }
  where
    kept : (a : ℕ) → (bypass w.slabs.mem it a).slabs_clsid ≡ (w.slabs.mem a).slabs_clsid
    kept a = ground arith

    Home-kept : (id : ℕ) (zs : List ℕ) → Home w.slabs.mem id zs → Home (bypass w.slabs.mem it) id zs
    Home-kept id [] h = tt
    Home-kept id (z ∷ zs) h = (kept z ∙ h.0, Home-kept id zs h.1)

    Home-cut :
        (id : ℕ) (zs : List ℕ)
        → Home w.slabs.mem id (zs ++ it ∷ ys)
        → Home (bypass w.slabs.mem it) id (zs ++ ys)
    Home-cut id [] h = Home-kept id ys h.1
    Home-cut id (z ∷ zs) h = (kept z ∙ h.0, Home-cut id zs h.1)
