-- ===== src/Item/Bypass.antt =====
-- Cutting an item out of a doubly linked list, as do_item_unlink_q does.
use mathlib.Core.Path.{subst}
use analysis_memcached.Prelude.{
  sym, ◌∙◌, ℕ, ◌≡◌, ◌≢◌, refl, ◌⊎◌, inl, inr, List, [], ◌∷◌, ◌++◌, ◌==◌, not, ◌&&◌, if◌then◌else◌,
  arith, Fresh, Distinct,
}
use analysis_memcached.Item.Links.{Linked, last, SameLinks, Linked-SameLinks}
use analysis_memcached.Item.{Mem, set_prev, set_next}

pub set_next-SameLinks :
    (m : Mem) (p q : ℕ) (xs : List ℕ) → Fresh p xs → SameLinks m (set_next m p q) xs
set_next-SameLinks m p q [] f = tt
set_next-SameLinks m p q (x ∷ xs) f = ground (arith, set_next-SameLinks m p q xs f.1)

pub Fresh-append-left : (a : ℕ) (xs ys : List ℕ) → Fresh a (xs ++ ys) → Fresh a xs
Fresh-append-left a [] ys f = tt
Fresh-append-left a (x ∷ xs) ys f = (f.0, Fresh-append-left a xs ys f.1)

pub Fresh-append-right : (a : ℕ) (xs ys : List ℕ) → Fresh a (xs ++ ys) → Fresh a ys
Fresh-append-right a [] ys f = f
Fresh-append-right a (x ∷ xs) ys f = Fresh-append-right a xs ys f.1

Fresh-cut : (a it : ℕ) (xs ys : List ℕ) → Fresh a (xs ++ it ∷ ys) → Fresh a (xs ++ ys)
Fresh-cut a it [] ys f = f.1
Fresh-cut a it (x ∷ xs) ys f = (f.0, Fresh-cut a it xs ys f.1)

pub Distinct-cut : (it : ℕ) (xs ys : List ℕ) → Distinct (xs ++ it ∷ ys) → Distinct (xs ++ ys)
Distinct-cut it [] ys d = d.1
Distinct-cut it (x ∷ xs) ys d = (Fresh-cut x it xs ys d.0, Distinct-cut it xs ys d.1)

-- The item cut out by do_item_unlink_q: its neighbours are linked to one another.
abbrev pub bypass : Mem → ℕ → Mem
bypass m it =
    let c = m it in let m₁ = set_prev m c.next c.prev in set_next m₁ (m₁ it).prev (m₁ it).next

-- The links of an item inside a list: the item before it and the first one behind it.
abbrev pub first : List ℕ → ℕ
first [] = 0
first (x ∷ xs) = x

pub links_of :
    (m : Mem) (b p it : ℕ) (xs ys : List ℕ)
    → Linked m b p (xs ++ it ∷ ys)
    → ((m it).prev ≡ last b xs) × ((m it).next ≡ first ys) × Linked m it (m it).next ys × (it ≢ 0)
links_of m b p it [] [] h = ground arith
links_of m b p it [] (y ∷ ys) h = ground arith
links_of m b p it (x ∷ xs) ys h = links_of m x (m x).next it xs ys h.3

pub last-ne : (a y : ℕ) (ys : List ℕ) → Fresh a (y ∷ ys) → a ≢ last y ys
last-ne a y [] f = f.0
last-ne a y (z ∷ ys) f = last-ne a z ys f.1

pub first-ne : (a : ℕ) (ys : List ℕ) → Fresh a ys → (first ys ≡ 0) ⊎ (a ≢ first ys)
first-ne a [] f = inl refl
first-ne a (y ∷ ys) f = inr f.0

-- Memory `m'` is `m` with the links of `pv` and `nx` to one another.
record Bypassed (m m' : Mem) (pv nx : ℕ) : Type 0 where
  nexts : (x : ℕ) → (m' x).next ≡ (if x == pv && not (pv == 0) then nx else (m x).next)
  prevs : (x : ℕ) → (m' x).prev ≡ (if x == nx && not (nx == 0) then pv else (m x).prev)

bypass-Bypassed :
    (m : Mem) (it : ℕ) → (m it).next ≢ it → Bypassed m (bypass m it) (m it).prev (m it).next
bypass-Bypassed m it h = record { nexts = λ x. ground arith; prevs = λ x. ground arith }

-- Where the list starts once the item is out.
start : ℕ → List ℕ → ℕ → ℕ
start nx [] p = nx
start nx (x ∷ xs) p = p

module _ (m m' : Mem) (pv nx : ℕ) (by : Bypassed m m' pv nx) where
  bypassed-SameLinks : (xs : List ℕ) → Fresh pv xs → Fresh nx xs → SameLinks m m' xs
  bypassed-SameLinks [] f g = tt
  bypassed-SameLinks (x ∷ xs) f g =
      ground (arith, by.nexts x, by.prevs x, bypassed-SameLinks xs f.1 g.1)

  rest-Linked :
      (it : ℕ) (ys : List ℕ)
      → nx ≡ first ys
      → Distinct ys
      → Fresh pv ys
      → Linked m it nx ys
      → Linked m' pv nx ys
  rest-Linked it [] n d f h = h
  rest-Linked it (y ∷ ys) n d f h =
      let s : SameLinks m m' ys = bypassed-SameLinks ys f.1 (rw n d.0) in
      ground (arith, by.nexts y, by.prevs y, Linked-SameLinks m m' y (m y).next ys s h.3)

  next_start :
      (x it : ℕ) (xs ys : List ℕ)
      → x ≢ 0
      → pv ≡ last x xs
      → Fresh x (xs ++ it ∷ ys)
      → (m' x).next ≡ start nx xs (m x).next
  unfolding start
  next_start x it [] ys z e f = ground (arith, by.nexts x)
  next_start x it (y ∷ xs) ys z e f =
      ground (arith, by.nexts x, last-ne x y xs (Fresh-append-left x (y ∷ xs) (it ∷ ys) f))

  cut-Linked :
      (b p it : ℕ) (xs ys : List ℕ)
      → pv ≡ last b xs
      → nx ≡ first ys
      → Distinct (xs ++ it ∷ ys)
      → Fresh b (xs ++ it ∷ ys)
      → Linked m b p (xs ++ it ∷ ys)
      → Linked m' b (start nx xs p) (xs ++ ys)
  unfolding start
  cut-Linked b p it [] ys e n d f h =
      let here = links_of m b p it [] ys h in
      let tail : Linked m it nx ys = subst (λ q. Linked m it q ys) (here.1 ∙ sym n) here.2 in
      subst (λ q. Linked m' q nx ys) e
        (rest-Linked it ys n d.1 (subst (λ q. Fresh q ys) (sym e) f.1) tail)
  cut-Linked b p it (x ∷ xs) ys e n d f h =
      let r = cut-Linked x (m x).next it xs ys e n d.1 d.0 h.3 in
      let s = next_start x it xs ys h.1 e d.0 in
      let apart = first-ne x ys (Fresh-append-right x xs (it ∷ ys) d.0).1 in
      (h.0, h.1, ground (arith, by.prevs x), subst (λ q. Linked m' x q (xs ++ ys)) (sym s) r)

pub Linked-Fresh : (m : Mem) (b p : ℕ) (xs : List ℕ) → Linked m b p xs → Fresh 0 xs
Linked-Fresh m b p [] h = tt
Linked-Fresh m b p (x ∷ xs) h = (λ e. h.1 (sym e), Linked-Fresh m x (m x).next xs h.3)

pub middle-Fresh : (it : ℕ) (xs ys : List ℕ) → Distinct (xs ++ it ∷ ys) → Fresh it ys × Fresh it xs
middle-Fresh it [] ys d = (d.0, tt)
middle-Fresh it (x ∷ xs) ys d =
    let r = middle-Fresh it xs ys d.1 in
    (r.0, (λ e. (Fresh-append-right x xs (it ∷ ys) d.0).0 (sym e), r.1))

start_lem :
    (m : Mem) (nx p it : ℕ) (xs ys : List ℕ)
    → Distinct (xs ++ it ∷ ys)
    → Linked m 0 p (xs ++ it ∷ ys)
    → (if p == it then nx else p) ≡ start nx xs p
unfolding start
start_lem m nx p it [] ys d h = ground arith
start_lem m nx p it (x ∷ xs) ys d h = ground (arith, (Fresh-append-right x xs (it ∷ ys) d.0).0)

-- An item cut out of the middle of a linked list leaves the other items linked in their order, and
-- only the start of the list can change, to the item behind.
pub bypass-Linked :
    (m : Mem) (p it : ℕ) (xs ys : List ℕ)
    → Distinct (xs ++ it ∷ ys)
    → Linked m 0 p (xs ++ it ∷ ys)
    → Linked (bypass m it) 0 (if p == it then (m it).next else p) (xs ++ ys)
bypass-Linked m p it xs ys d h =
    let here = links_of m 0 p it xs ys h in
    let apart = first-ne it ys (middle-Fresh it xs ys d).0 in
    let by = bypass-Bypassed m it (ground arith) in
    let cut =
      cut-Linked m (bypass m it) (m it).prev (m it).next by 0 p it xs ys here.0 here.1 d
        (Linked-Fresh m 0 p (xs ++ it ∷ ys) h) h in
    subst (λ q. Linked (bypass m it) 0 q (xs ++ ys)) (sym (start_lem m (m it).next p it xs ys d h))
      cut

-- The last item of the list that is left.
pub last-cut :
    (m : Mem) (b p it : ℕ) (xs ys : List ℕ)
    → Distinct (xs ++ it ∷ ys)
    → Linked m b p (xs ++ it ∷ ys)
    → (if last b (xs ++ it ∷ ys) == it then (m it).prev else last b (xs ++ it ∷ ys))
      ≡ last b (xs ++ ys)
last-cut m b p it [] [] d h = ground arith
last-cut m b p it [] (y ∷ ys) d h = ground (arith, last-ne it y ys d.0)
last-cut m b p it (x ∷ xs) ys d h = last-cut m x (m x).next it xs ys d.1 h.3
