-- ===== src/Items/Queues.antt =====
-- The LRU queues as lists: linking an item at the front, and cutting one out.
use mathlib.Core.Path.{subst}
use analysis_memcached.Prelude.{
  ℕ, suc, ◌+◌, ◌%◌, ◌^◌, ◌≡◌, ◌≢◌, refl, sym, ap, ◌∙◌, Bool, true, false, List, [], ◌∷◌, ◌++◌,
  length, ◌==◌, if◌then◌else◌, arith, Fresh, Distinct, sub32, sub64,
}
use analysis_memcached.Prelude.Memory.{update}
use analysis_memcached.Item.{Mem, item_ntotal}
use analysis_memcached.Item.Links.{Linked, last, SameLinks, Linked-SameLinks, push_front}
use analysis_memcached.Item.Bypass.{bypass-Linked, last-cut, Distinct-cut}
use analysis_memcached.Items.{World, item_at, do_item_link_q, do_item_unlink_q}

-- All items of a list are in the queue of class `id`; and their sizes together.
abbrev pub Home : Mem → ℕ → List ℕ → Type 0
Home m id [] = Unit
Home m id (x ∷ xs) = ((m x).slabs_clsid ≡ id) × Home m id xs

abbrev pub total : Mem → List ℕ → ℕ
total m [] = 0
total m (x ∷ xs) = item_ntotal (m x) + total m xs

pub record IsQueue (w : World) (id : ℕ) (xs : List ℕ) : Type 0 where
  pub links : Linked w.slabs.mem 0 (w.heads id) xs
  pub tail : w.tails id ≡ last 0 xs
  pub distinct : Distinct xs
  pub home : Home w.slabs.mem id xs
  pub counted : w.sizes id ≡ length xs % 2 ^ 32
  pub weighed : w.sizes_bytes id ≡ total w.slabs.mem xs % 2 ^ 64

-- Memories that agree but for links and times.
pub record SameItems (m m' : Mem) : Type 0 where
  pub class : (a : ℕ) → (m' a).slabs_clsid ≡ (m a).slabs_clsid
  pub bytes : (a : ℕ) → item_ntotal (m' a) ≡ item_ntotal (m a)

pub Home-SameItems :
    (m m' : Mem) (id : ℕ) (xs : List ℕ) → SameItems m m' → Home m id xs → Home m' id xs
Home-SameItems m m' id [] s h = tt
Home-SameItems m m' id (x ∷ xs) s h = (s.class x ∙ h.0, Home-SameItems m m' id xs s h.1)

total-SameItems : (m m' : Mem) (xs : List ℕ) → SameItems m m' → total m' xs ≡ total m xs
total-SameItems m m' [] s = refl
total-SameItems m m' (x ∷ xs) s = omega (arith, s.bytes x, total-SameItems m m' xs s)

-- An item of another class is not in the list.
pub Home-Fresh :
    (m : Mem) (id a : ℕ) (xs : List ℕ) → (m a).slabs_clsid ≢ id → Home m id xs → Fresh a xs
Home-Fresh m id a [] n h = tt
Home-Fresh m id a (x ∷ xs) n h =
    (λ e. n (ap (λ q. (m q).slabs_clsid) e ∙ h.0), Home-Fresh m id a xs n h.1)

pub link-SameItems : (w : World) (it : ℕ) → SameItems w.slabs.mem (do_item_link_q w it).slabs.mem
unfolding do_item_link_q item_ntotal
link-SameItems w it = record { class = λ a. ground arith; bytes = λ a. ground arith }

pub unlink-SameItems :
    (w : World) (it : ℕ) → SameItems w.slabs.mem (do_item_unlink_q w it).slabs.mem
unfolding do_item_unlink_q item_ntotal
unlink-SameItems w it = record { class = λ a. ground arith; bytes = λ a. ground arith }

pub updated : (f : ℕ → ℕ) (id v : ℕ) → update f id v id ≡ v
updated f id v = ground arith

pub if_update :
    (b : Bool) (f : ℕ → ℕ) (id v : ℕ)
    → (if b then update f id v else f) id ≡ (if b then v else f id)
if_update true f id v = updated f id v
if_update false f id v = refl

pub other : (b : Bool) (f : ℕ → ℕ) (id v a : ℕ) → a ≢ id → (if b then update f id v else f) a ≡ f a
other true f id v a n = ground arith
other false f id v a n = refl

last-nonzero : (m : Mem) (b p x : ℕ) (xs : List ℕ) → Linked m b p (x ∷ xs) → last x xs ≢ 0
last-nonzero m b p x [] h = h.1
last-nonzero m b p x (y ∷ xs) h = last-nonzero m x (m x).next y xs h.3

new_tail :
    (m : Mem) (t p it : ℕ) (xs : List ℕ)
    → t ≡ last 0 xs
    → Linked m 0 p xs
    → (if t == 0 then it else t) ≡ last it xs
new_tail m t p it [] e h = ground arith
new_tail m t p it (x ∷ xs) e h = ground (arith, last-nonzero m 0 p x xs h)

-- The queue that an item is linked into.
pub link-IsQueue :
    (w : World) (it : ℕ) (xs : List ℕ)
    → it ≢ 0
    → Fresh it xs
    → IsQueue w (item_at w it).slabs_clsid xs
    → IsQueue (do_item_link_q w it) (item_at w it).slabs_clsid (it ∷ xs)
unfolding do_item_link_q
link-IsQueue w it xs z f q =
    let m = w.slabs.mem in
    let m' = (do_item_link_q w it).slabs.mem in
    let id = (m it).slabs_clsid in
    let s = link-SameItems w it in
    record {
      links =
          subst (λ p. Linked m' 0 p (it ∷ xs)) (sym (updated w.heads id it))
            (push_front m 0 (w.heads id) it (record (m it) { prev = 0; next = w.heads id }) xs refl
              refl z f q.distinct q.links);
      tail =
          if_update (w.tails id == 0) w.tails id it
          ∙ new_tail m (w.tails id) (w.heads id) it xs q.tail q.links;
      distinct = (f, q.distinct);
      home = (s.class it, Home-SameItems m m' id xs s q.home);
      counted = ground (arith, q.counted);
      weighed = ground (arith, q.weighed, s.bytes it, total-SameItems m m' xs s);
    }

pub Home-middle :
    (m : Mem) (id it : ℕ) (xs ys : List ℕ)
    → Home m id (xs ++ it ∷ ys)
    → ((m it).slabs_clsid ≡ id) × Home m id (xs ++ ys)
Home-middle m id it [] ys h = h
Home-middle m id it (x ∷ xs) ys h = let r = Home-middle m id it xs ys h.1 in (r.0, (h.0, r.1))

pub total-middle :
    (m : Mem) (it : ℕ) (xs ys : List ℕ)
    → total m (xs ++ it ∷ ys) ≡ item_ntotal (m it) + total m (xs ++ ys)
total-middle m it [] ys = refl
total-middle m it (x ∷ xs) ys = omega (arith, total-middle m it xs ys)

pub length-middle : (it : ℕ) (xs ys : List ℕ) → length (xs ++ it ∷ ys) ≡ suc (length (xs ++ ys))
length-middle it [] ys = refl
length-middle it (x ∷ xs) ys = ap suc (length-middle it xs ys)

less_one : (s n : ℕ) → s ≡ suc n % 2 ^ 32 → sub32 s 1 ≡ n % 2 ^ 32
less_one s n e = omega (arith, e)

less_bytes : (s n k : ℕ) → s ≡ (n + k) % 2 ^ 64 → sub64 s (n % 2 ^ 64) ≡ k % 2 ^ 64
less_bytes s n k e = omega (arith, e)

-- The queue that an item is cut out of.
pub unlink-IsQueue :
    (w : World) (it : ℕ) (xs ys : List ℕ)
    → IsQueue w (item_at w it).slabs_clsid (xs ++ it ∷ ys)
    → IsQueue (do_item_unlink_q w it) (item_at w it).slabs_clsid (xs ++ ys)
unfolding do_item_unlink_q
unlink-IsQueue w it xs ys q =
    let m = w.slabs.mem in
    let m' = (do_item_unlink_q w it).slabs.mem in
    let id = (m it).slabs_clsid in
    let s = unlink-SameItems w it in
    let bytes = sub64 (w.sizes_bytes id) (item_ntotal (m it) % 2 ^ 64) in
    record {
      links =
          subst (λ p. Linked m' 0 p (xs ++ ys))
            (sym (if_update (w.heads id == it) w.heads id (m it).next))
            (bypass-Linked m (w.heads id) it xs ys q.distinct q.links);
      tail =
          if_update (w.tails id == it) w.tails id (m it).prev
          ∙ subst (λ t. (if t == it then (m it).prev else t) ≡ last 0 (xs ++ ys)) (sym q.tail)
              (last-cut m 0 (w.heads id) it xs ys q.distinct q.links);
      distinct = Distinct-cut it xs ys q.distinct;
      home = Home-SameItems m m' id (xs ++ ys) s (Home-middle m id it xs ys q.home).1;
      counted =
          updated w.sizes id (sub32 (w.sizes id) 1)
          ∙ less_one (w.sizes id) (length (xs ++ ys))
              (q.counted ∙ ap (λ n. n % 2 ^ 32) (length-middle it xs ys));
      weighed =
          updated w.sizes_bytes id bytes
          ∙ less_bytes (w.sizes_bytes id) (item_ntotal (m it)) (total m (xs ++ ys))
              (q.weighed ∙ ap (λ n. n % 2 ^ 64) (total-middle m it xs ys))
          ∙ ap (λ n. n % 2 ^ 64) (sym (total-SameItems m m' (xs ++ ys) s));
    }

-- A queue of another class is left alone by stores to items that are not on it.
pub frame-IsQueue :
    (w w' : World) (id : ℕ) (zs : List ℕ)
    → SameItems w.slabs.mem w'.slabs.mem
    → SameLinks w.slabs.mem w'.slabs.mem zs
    → (w'.heads id ≡ w.heads id)
      × (w'.tails id ≡ w.tails id)
      × (w'.sizes id ≡ w.sizes id)
      × (w'.sizes_bytes id ≡ w.sizes_bytes id)
    → IsQueue w id zs
    → IsQueue w' id zs
frame-IsQueue w w' id zs s l e q = record {
  links =
      subst (λ p. Linked w'.slabs.mem 0 p zs) (sym e.0)
        (Linked-SameLinks w.slabs.mem w'.slabs.mem 0 (w.heads id) zs l q.links);
  tail = e.1 ∙ q.tail;
  distinct = q.distinct;
  home = Home-SameItems w.slabs.mem w'.slabs.mem id zs s q.home;
  counted = e.2 ∙ q.counted;
  weighed =
      e.3 ∙ q.weighed ∙ ap (λ n. n % 2 ^ 64) (sym (total-SameItems w.slabs.mem w'.slabs.mem zs s));
}
