-- ===== src/Slabs/Reassign.antt =====
-- slabs_curd/slabs.c: the request to move a page from one class to another, which the rebalance
-- thread then serves.
use mathlib.Core.Path.{subst}
use analysis_memcached.Prelude.{
  ℕ, zero, suc, ◌+◌, ◌-◌, ◌≤◌, ◌<◌, ◌≡◌, ◌≢◌, ◌⊎◌, inl, inr, refl, sym, Bool, true, false, not,
  ◌&&◌, ◌||◌, ltb, ◌==◌, if◌then◌else◌, if_elim, Bool-cases, arith,
}
use analysis_memcached.Prelude.Int.{ℤ, pos, negsuc, pos_part, ltb_ℤ, eq_ℤ}
use analysis_memcached.Item.{power_smallest, slab_global_page_pool}
use analysis_memcached.Slabs.{Slabs}

pub data ReassignResult : Type 0 where
  reassign_ok : ReassignResult
  reassign_running : ReassignResult
  reassign_badclass : ReassignResult
  reassign_nospare : ReassignResult
  reassign_src_dst_same : ReassignResult

-- The request for the rebalance thread; `cur` is the static variable of slab_reassign_pick_any.
pub record Rebalance : Type 0 where
  pub signal : ℕ
  pub s_clsid : ℤ
  pub d_clsid : ℤ
  pub cur : ℕ

-- Whether class `r` can give a page to `dst`.
unfoldable pub spare : Slabs → ℤ → ℕ → Bool
spare s dst r = not (eq_ℤ (pos r) dst) && ltb 1 (s.class r).slabs

-- The class after `cur`, from the largest back to the smallest.
unfoldable pub next_class : Slabs → ℕ → ℕ
next_class s cur = if ltb s.power_largest (cur + 1) then power_smallest else cur + 1

-- The loop with `tries` classes to go: the class where `cur` stops, and the result.
unfoldable pub pick : Slabs → ℤ → ℕ → ℕ → ℕ × ℤ
unfolding spare next_class
pick s dst zero cur = (cur, negsuc 0)
pick s dst (suc tries) cur =
    let c = next_class s cur in
    let later = pick s dst tries c in if spare s dst c then (c, pos c) else later

unfoldable pub slab_reassign_pick_any : Slabs → Rebalance → ℤ → Rebalance × ℤ
unfolding pick
slab_reassign_pick_any s b dst =
    let r = pick s dst (s.power_largest + 1 - power_smallest) b.cur in (record b { cur = r.0 }, r.1)

unfoldable pub bad_class : Slabs → ℤ → Bool
bad_class s c = ltb_ℤ c (pos slab_global_page_pool) || ltb_ℤ (pos s.power_largest) c

unfoldable pub request_move : Slabs → Rebalance → ℤ → ℤ → Rebalance × ReassignResult
unfolding bad_class
request_move s b src dst =
    if bad_class s src || bad_class s dst
    then (b, reassign_badclass)
    else if ltb (s.class (pos_part src)).slabs 2
    then (b, reassign_nospare)
    else (record b { s_clsid = src; d_clsid = dst; signal = 1 }, reassign_ok)

unfoldable pub do_slabs_reassign : Slabs → Rebalance → ℤ → ℤ → Rebalance × ReassignResult
unfolding slab_reassign_pick_any request_move
do_slabs_reassign s b src dst =
    let picked = slab_reassign_pick_any s b dst in
    if not (b.signal == 0)
    then (b, reassign_running)
    else if eq_ℤ src dst
    then (b, reassign_src_dst_same)
    else if eq_ℤ src (negsuc 0)
    then request_move s picked.0 picked.1 dst
    else request_move s b src dst

-- `free` tells whether the trylock on slabs_rebalance_lock succeeded.
unfoldable pub slabs_reassign : Slabs → Rebalance → Bool → ℤ → ℤ → Rebalance × ReassignResult
unfolding do_slabs_reassign
slabs_reassign s b free src dst =
    if free then do_slabs_reassign s b src dst else (b, reassign_running)

-- A picked class is one of the classes and can give a page.
pub record Picked (s : Slabs) (dst : ℤ) (c : ℕ) : Type 0 where
  pub above : 1 ≤ c
  pub largest : c ≤ s.power_largest
  pub can_give : spare s dst c ≡ true

module _ (s : Slabs) (dst : ℤ) where
  -- What `tries` rounds from `cur` on find: a class that can give a page, or that none of the
  -- classes they look at can.
  abbrev Found : ℕ → ℕ → ℕ × ℤ → Type 0
  Found tries cur r =
      ((c : ℕ) × (r.1 ≡ pos c) × Picked s dst c)
      ⊎ ((r.1 ≡ negsuc 0)
          × ((q : ℕ)
              → 1 ≤ q
              → q ≤ s.power_largest
              → ((cur < q) × (q ≤ cur + tries)) ⊎ (q + s.power_largest ≤ cur + tries)
              → spare s dst q ≡ false))

  -- A class in reach, if it is not the next one, is in reach of the next one.
  reached :
      (tries cur q : ℕ)
      → cur ≤ s.power_largest
      → 1 ≤ q
      → q ≤ s.power_largest
      → ((cur < q) × (q ≤ cur + suc tries)) ⊎ (q + s.power_largest ≤ cur + suc tries)
      → (q == next_class s cur) ≡ false
      → ((next_class s cur < q) × (q ≤ next_class s cur + tries))
        ⊎ (q + s.power_largest ≤ next_class s cur + tries)
  unfolding next_class
  reached tries cur q k a l w i = ground arith

  pick-Found :
      (tries cur : ℕ)
      → 1 ≤ s.power_largest
      → cur ≤ s.power_largest
      → Found tries cur (pick s dst tries cur)
  unfolding pick
  pick-Found zero cur h k = inr (refl, λ q a l w. absurd (ground arith))
  pick-Found (suc tries) cur h k =
      let c = next_class s cur in
      let near : (1 ≤ c) × (c ≤ s.power_largest) = unfold next_class in ground arith in
      if_elim (Found (suc tries) cur) (spare s dst c)
        (λ e. inl (c, refl, record { above = near.0; largest = near.1; can_give = e }))
        λ e. later e (pick-Found tries c h near.1)
    where
      later :
          spare s dst (next_class s cur) ≡ false
          → Found tries (next_class s cur) (pick s dst tries (next_class s cur))
          → Found (suc tries) cur (pick s dst tries (next_class s cur))
      later e (inl r) = inl r
      later e (inr r) = inr (
        r.0,
        λ q a l w. elim (Bool-cases (q == next_class s cur)) [
          | inl i ↦ subst (λ x. spare s dst x ≡ false) (ground (arith, i)) e
          | inr i ↦ r.1 q a l (reached tries cur q k a l w i)
        ],
      )

  -- The pick looks at every class once: it finds a class other than the destination that has more
  -- than one page, or there is none.
  pub pick_any-Found :
      (b : Rebalance)
      → 1 ≤ s.power_largest
      → b.cur ≤ s.power_largest
      → let r = (slab_reassign_pick_any s b dst).1 in
        ((c : ℕ) × (r ≡ pos c) × Picked s dst c)
        ⊎ ((r ≡ negsuc 0) × ((q : ℕ) → 1 ≤ q → q ≤ s.power_largest → spare s dst q ≡ false))
  unfolding slab_reassign_pick_any
  pick_any-Found b h k = elim (pick-Found (s.power_largest + 1 - power_smallest) b.cur h k) [
    | inl r ↦ inl r
    | inr r ↦ inr (r.0, λ q a l. r.1 q a l (ground arith))
  ]

-- What a request leaves behind: on success a pending move between two different classes in range
-- whose source has a page to spare; otherwise the pending move as it was.
pub record Requested (s : Slabs) (b : Rebalance) (dst : ℤ) (r : Rebalance × ReassignResult)
    : Type 0 where
  pub taken : r.1 ≡ reassign_ok → (b.signal ≡ 0) × (r.0.signal ≡ 1) × (r.0.d_clsid ≡ dst)
  pub source :
      r.1 ≡ reassign_ok
      → (c : ℕ) × (r.0.s_clsid ≡ pos c)
        × (c ≤ s.power_largest)
        × (2 ≤ (s.class c).slabs)
        × (eq_ℤ (pos c) dst ≡ false)
  pub destination : r.1 ≡ reassign_ok → (d : ℕ) × (dst ≡ pos d) × (d ≤ s.power_largest)
  pub refused :
      r.1 ≢ reassign_ok
      → (r.0.signal ≡ b.signal) × (r.0.s_clsid ≡ b.s_clsid) × (r.0.d_clsid ≡ b.d_clsid)

module _ (s : Slabs) (b b' : Rebalance) (z : b.signal ≡ 0) where
  request_move-Requested :
      (src dst : ℤ)
      → eq_ℤ src dst ≡ false
      → (b'.signal ≡ b.signal) × (b'.s_clsid ≡ b.s_clsid) × (b'.d_clsid ≡ b.d_clsid)
      → Requested s b dst (request_move s b' src dst)
  unfolding request_move bad_class
  request_move-Requested (pos c) (pos d) e k = record {
    taken = λ o. ground arith;
    source = λ o. (c, ground (arith, o), ground (arith, o), ground (arith, o), ground (arith, e));
    destination = λ o. (d, refl, ground (arith, o));
    refused = λ n. ground (arith, n);
  }
  request_move-Requested (negsuc c) (pos d) e k = record {
    taken = λ o. ground (arith, o);
    source = λ o. absurd (ground (arith, o));
    destination = λ o. absurd (ground (arith, o));
    refused = λ n. ground (arith, n);
  }
  request_move-Requested (pos c) (negsuc d) e k = record {
    taken = λ o. ground (arith, o);
    source = λ o. absurd (ground (arith, o));
    destination = λ o. absurd (ground (arith, o));
    refused = λ n. ground (arith, n);
  }
  request_move-Requested (negsuc c) (negsuc d) e k = record {
    taken = λ o. ground (arith, o);
    source = λ o. absurd (ground (arith, o));
    destination = λ o. absurd (ground (arith, o));
    refused = λ n. ground (arith, n);
  }

kept-Requested :
    (s : Slabs) (b : Rebalance) (dst : ℤ) (r : ReassignResult)
    → r ≢ reassign_ok
    → Requested s b dst (b, r)
kept-Requested s b dst r n = record {
  taken = λ o. absurd (n o);
  source = λ o. absurd (n o);
  destination = λ o. absurd (n o);
  refused = λ _. (refl, refl, refl);
}

-- The class that is picked for the source is not the destination.
picked_apart :
    (s : Slabs) (b : Rebalance) (src dst : ℤ)
    → 1 ≤ s.power_largest
    → b.cur ≤ s.power_largest
    → eq_ℤ src dst ≡ false
    → eq_ℤ src (negsuc 0) ≡ true
    → eq_ℤ (slab_reassign_pick_any s b dst).1 dst ≡ false
picked_apart s b src dst h k e n = elim (pick_any-Found s dst b h k) [
  | inl r ↦ subst (λ x. eq_ℤ x dst ≡ false) (sym r.1) (unfold spare in ground (arith, r.2.can_give))
  | inr r ↦ subst (λ x. eq_ℤ x dst ≡ false) (sym r.0) (ground (arith, e, n))
]

-- A request that is granted leaves one pending move, to the class that was asked for, from another
-- class that has a page to spare; both are in range. A request that is refused leaves the pending
-- move as it was.
pub slabs_reassign-Requested :
    (s : Slabs) (b : Rebalance) (free : Bool) (src dst : ℤ)
    → 1 ≤ s.power_largest
    → b.cur ≤ s.power_largest
    → Requested s b dst (slabs_reassign s b free src dst)
unfolding slabs_reassign do_slabs_reassign
slabs_reassign-Requested s b free src dst h k =
    let P : Rebalance × ReassignResult → Type 0 = Requested s b dst in
    let picked = slab_reassign_pick_any s b dst in
    let running = kept-Requested s b dst reassign_running (ground arith) in
    if_elim P free
      (λ _.
        if_elim P (not (b.signal == 0)) (λ _. running)
          λ z.
            if_elim P (eq_ℤ src dst)
              (λ _. kept-Requested s b dst reassign_src_dst_same (ground arith))
              λ e.
                if_elim P (eq_ℤ src (negsuc 0))
                  (λ n.
                    request_move-Requested s b picked.0 (ground (arith, z)) picked.1 dst
                      (picked_apart s b src dst h k e n)
                      (unfold slab_reassign_pick_any in (refl, refl, refl)))
                  λ _.
                    request_move-Requested s b b (ground (arith, z)) src dst e (refl, refl, refl))
      λ _. running
