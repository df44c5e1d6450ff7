-- ===== src/Item/Links.antt =====
-- Doubly linked lists of items through `next` and `prev`: the LRU queues and the free lists.
use analysis_memcached.Prelude.{ℕ, ◌≡◌, ◌≢◌, List, [], ◌∷◌, arith, Fresh, Distinct}
use analysis_memcached.Prelude.Memory.{update}
use analysis_memcached.Item.{Item, Mem, set_prev}

-- The list `xs` starts at `p`, ends at NULL, and the item before it is `before`.
abbrev pub Linked : Mem → ℕ → ℕ → List ℕ → Type 0
Linked m before p [] = p ≡ 0
Linked m before p (x ∷ xs) = (p ≡ x) × (x ≢ 0) × ((m x).prev ≡ before) × Linked m x (m x).next xs

-- The last item, or `before` if there is none.
abbrev pub last : ℕ → List ℕ → ℕ
last before [] = before
last before (x ∷ xs) = last x xs

-- Two memories that link the items of a list alike.
abbrev pub SameLinks : Mem → Mem → List ℕ → Type 0
SameLinks m m' [] = Unit
SameLinks m m' (x ∷ xs) =
    ((m' x).next ≡ (m x).next) × ((m' x).prev ≡ (m x).prev) × SameLinks m m' xs

pub Linked-SameLinks :
    (m m' : Mem) (b p : ℕ) (xs : List ℕ) → SameLinks m m' xs → Linked m b p xs → Linked m' b p xs
Linked-SameLinks m m' b p [] s h = h
Linked-SameLinks m m' b p (x ∷ xs) s h =
    ground (arith, Linked-SameLinks m m' x (m x).next xs s.2 h.3)

pub update-SameLinks :
    (m : Mem) (it : ℕ) (c : Item) (xs : List ℕ) → Fresh it xs → SameLinks m (update m it c) xs
update-SameLinks m it c [] f = tt
update-SameLinks m it c (x ∷ xs) f = ground (arith, update-SameLinks m it c xs f.1)

pub set_prev-SameLinks :
    (m : Mem) (p q : ℕ) (xs : List ℕ) → Fresh p xs → SameLinks m (set_prev m p q) xs
set_prev-SameLinks m p q [] f = tt
set_prev-SameLinks m p q (x ∷ xs) f = ground (arith, set_prev-SameLinks m p q xs f.1)

pub SameLinks-trans :
    (m m' m'' : Mem) (xs : List ℕ) → SameLinks m m' xs → SameLinks m' m'' xs → SameLinks m m'' xs
SameLinks-trans m m' m'' [] s t = tt
SameLinks-trans m m' m'' (x ∷ xs) s t = ground (arith, SameLinks-trans m m' m'' xs s.2 t.2)

-- A new first item.
pub push_front :
    (m : Mem) (b p it : ℕ) (c : Item) (xs : List ℕ)
    → c.next ≡ p
    → c.prev ≡ 0
    → it ≢ 0
    → Fresh it xs
    → Distinct xs
    → Linked m b p xs
    → Linked (set_prev (update m it c) p it) 0 it (it ∷ xs)
push_front m b p it c [] n z nz f d h = ground arith
push_front m b p it c (x ∷ xs) n z nz f d h =
    let m' = set_prev (update m it c) p it in
    let s : SameLinks m m' xs =
      SameLinks-trans m (update m it c) m' xs (update-SameLinks m it c xs f.1)
        (set_prev-SameLinks (update m it c) p it xs (rw h.0 d.0)) in
    ground (arith, Linked-SameLinks m m' x (m x).next xs s h.3)

-- The list without its first item.
pub pop_front :
    (m : Mem) (b p x : ℕ) (c : Item) (xs : List ℕ)
    → Fresh x xs × Distinct xs
    → Linked m b p (x ∷ xs)
    → Linked (update (set_prev m (m x).next 0) x c) 0 (m x).next xs
pop_front m b p x c [] d h = h.3
pop_front m b p x c (y ∷ ys) d h =
    let nx = (m x).next in
    let m' = update (set_prev m nx 0) x c in
    let s : SameLinks m m' ys =
      SameLinks-trans m (set_prev m nx 0) m' ys (set_prev-SameLinks m nx 0 ys (rw h.3.0 d.1.0))
        (update-SameLinks (set_prev m nx 0) x c ys d.0.1) in
    ground (arith, Linked-SameLinks m m' y (m y).next ys s h.3.3)
