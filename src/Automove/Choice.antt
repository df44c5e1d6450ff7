-- ===== src/Automove/Choice.antt =====
-- What slab_automove_run may choose.
use mathlib.Core.Path.{subst}
use analysis_memcached.Prelude.{
  ℕ, zero, suc, ◌+◌, ◌*◌, ◌/◌, ◌^◌, ◌≤◌, ◌<◌, ◌≡◌, ◌≢◌, refl, sym, ap, ◌%◌, Bool, true, false, ◌&&◌,
  Option, none, some, ltb, ◌==◌, if_elim, arith,
}
use analysis_memcached.Prelude.Memory.{update}
use analysis_memcached.Prelude.Int.{ℤ, pos, negsuc}
use analysis_memcached.Automove.{
  SlabAutomove, ItemStats, SlabStats, Scan, past, window_at, current_window, has_free_pages,
  mark_oldest, mark_youngest, visit, visits, start_scan, pair_if, src_dst, unless, decision,
  slab_automove_run,
}

module _ (a : SlabAutomove) (iam : ℕ → ItemStats) (sam : ℕ → SlabStats) where
  -- What the scan of the classes below `n` has found.
  record Sound (n : ℕ) (s : Scan) : Type 0 where
    old : (o : ℕ) → s.oldest ≡ some o → (1 ≤ o) × (o < n) × (2 < (sam o).total_pages)
    young : (y : ℕ) → s.youngest ≡ some y → (1 ≤ y) × (y < n)
    same : (o : ℕ) → s.oldest ≡ some o → s.youngest ≡ some o → s.oldest_age ≡ s.youngest_age
    freed : (m : ℕ) → s.free ≡ some m → (1 ≤ m) × (m < n) × (has_free_pages a iam sam m ≡ true)

  marks-Sound :
      (n age ev : ℕ) (s : Scan)
      → 1 ≤ n
      → Sound n s
      → Sound (n + 1) (mark_youngest a iam sam n age ev (mark_oldest a iam sam n age s))
  unfolding mark_youngest mark_oldest
  marks-Sound n age ev s h v = record {
    old = λ o e. ground (arith, e, v.old o);
    young = λ y e. ground (arith, e, v.young y);
    same = λ o e f. ground (arith, e, f, v.same o, v.old o, v.young o);
    freed = λ m e. ground (arith, e, v.freed m);
  }

  visit-Sound : (n : ℕ) (s : Scan) → 1 ≤ n → Sound n s → Sound (n + 1) (visit a iam sam n s)
  unfolding visit
  visit-Sound n s h v =
      let sum = past a iam sam s n in
      let written : Scan = record s {
        data_now = update s.data_now (window_at a iam sam n) (current_window a iam sam n);
      } in
      let kept : Sound n written = record {
        old = v.old;
        young = v.young;
        same = v.same;
        freed = v.freed;
      } in
      if_elim (Sound (n + 1)) (has_free_pages a iam sam n && sum.dirty == 0)
        (λ e. record {
          old = λ o x. ground (arith, v.old o x);
          young = λ y x. ground (arith, v.young y x);
          same = v.same;
          freed = λ m x. found m x e;
        })
        (λ _. marks-Sound n (sum.age / a.window_size) sum.evicted written h kept)
    where
      found :
          (m : ℕ)
          → some n ≡ some m
          → (has_free_pages a iam sam n && (past a iam sam s n).dirty == 0) ≡ true
          → (1 ≤ m) × (m < n + 1) × (has_free_pages a iam sam m ≡ true)
      found m x e =
          let i : n ≡ m = ground arith in
          let g : has_free_pages a iam sam n ≡ true = ground (arith, e) in
          (ground arith, ground arith, subst (λ k. has_free_pages a iam sam k ≡ true) i g)

  grows : (n k : ℕ) (s : Scan) → n ≤ k → Sound n s → Sound k s
  grows n k s h v = record {
    old = λ o e. ground (arith, v.old o);
    young = λ y e. ground (arith, v.young y);
    same = v.same;
    freed = λ m e. ground (arith, v.freed m);
  }

  visits-Sound :
      (left n : ℕ) (s : Scan) → 1 ≤ n → Sound n s → Sound (n + left) (visits a iam sam left n s)
  unfolding visits
  visits-Sound zero n s h v = subst (λ k. Sound k s) (omega arith) v
  visits-Sound (suc left) n s h v =
      let t = visit a iam sam n s in
      let w = visit-Sound n s h v in
      let rest = visits-Sound left (n + 1) t (omega arith) w in
      stop t.free t (visits a iam sam left (n + 1) t)
        (grows (n + 1) (n + suc left) t (omega arith) w)
        (subst (λ k. Sound k (visits a iam sam left (n + 1) t)) (omega arith) rest)
    where
      stop : {k : ℕ} (o : Option ℕ) (t r : Scan) → Sound k t → Sound k r → Sound k (unless o t r)
      stop none t r w x = x
      stop (some m) t r w x = w

-- What a run may choose: no move; a page of a class with more than two and a half pages of free
-- chunks for the pool; or a page of a class with more than two pages for another class.
pub data Choice (sam : ℕ → SlabStats) : ℤ × ℤ → Type 0 where
  no_move : Choice sam (negsuc 0, negsuc 0)
  to_pool :
      (m : ℕ)
      → 1 ≤ m
      → m < 64
      → (sam m).chunks_per_page * 5 < (sam m).free_chunks * 2
      → Choice sam (pos m, pos 0)
  to_class :
      (o y : ℕ)
      → 1 ≤ o
      → o < 64
      → 2 < (sam o).total_pages
      → 1 ≤ y
      → y < 64
      → o ≢ y
      → Choice sam (pos o, pos y)

src_dst-Choice :
    (sam : ℕ → SlabStats) (ok : Bool) (oldest youngest free : Option ℕ)
    → ((o : ℕ) → oldest ≡ some o → (1 ≤ o) × (o < 64) × (2 < (sam o).total_pages))
    → ((y : ℕ) → youngest ≡ some y → (1 ≤ y) × (y < 64))
    → ((k : ℕ) → ok ≡ true → oldest ≡ some k → youngest ≡ some k → ⊥)
    → ((m : ℕ)
        → free ≡ some m
        → (1 ≤ m) × (m < 64) × ((sam m).chunks_per_page * 5 < (sam m).free_chunks * 2))
    → Choice sam (src_dst (pair_if ok oldest youngest) free)
src_dst-Choice sam true (some o) (some y) free a b c d =
    let old = a o refl in
    let young = b y refl in
    to_class o y old.0 old.1 old.2 young.0 young.1 (λ e. c o refl refl (ap some (sym e)))
src_dst-Choice sam true (some o) none (some m) a b c d =
    to_pool m (d m refl).0 (d m refl).1 (d m refl).2
src_dst-Choice sam true (some o) none none a b c d = no_move
src_dst-Choice sam true none y (some m) a b c d = to_pool m (d m refl).0 (d m refl).1 (d m refl).2
src_dst-Choice sam true none y none a b c d = no_move
src_dst-Choice sam false o y (some m) a b c d = to_pool m (d m refl).0 (d m refl).1 (d m refl).2
src_dst-Choice sam false o y none a b c d = no_move

free_pages :
    (a : SlabAutomove) (iam : ℕ → ItemStats) (sam : ℕ → SlabStats) (m : ℕ)
    → has_free_pages a iam sam m ≡ true
    → (sam m).chunks_per_page * 5 < (sam m).free_chunks * 2
unfolding has_free_pages
free_pages a iam sam m e = ground (arith, e)

-- A run, with a ratio of ages that no age is within of itself, moves nothing, or names classes in
-- range that can give the page, and a source other than its destination.
pub slab_automove_run-Choice :
    (a : SlabAutomove) (iam : ℕ → ItemStats) (sam : ℕ → SlabStats) (within : ℕ → ℕ → Bool)
    → ((x : ℕ) → within x x ≡ false)
    → Choice sam (slab_automove_run a iam sam within).1
unfolding slab_automove_run decision
slab_automove_run-Choice a iam sam within irr =
    let b : SlabAutomove = record a { window_cur = (a.window_cur + 1) % 2 ^ 32 } in
    let s = visits b iam sam 63 1 (start_scan b) in
    let v : Sound b iam sam 64 s =
      visits-Sound b iam sam 63 1 (start_scan b) (omega arith) (record {
        old = λ o e. absurd (ground (arith, e));
        young = λ y e. absurd (ground (arith, e));
        same = λ o e f. absurd (ground (arith, e));
        freed = λ m e. absurd (ground (arith, e));
      }) in
    src_dst-Choice sam
      (ltb b.window_size b.window_cur && within s.youngest_age s.oldest_age && s.youngest_evicting)
      s.oldest s.youngest s.free v.old v.young
      (λ k ok o y.
        apart (ltb b.window_size b.window_cur) s.youngest_evicting s.youngest_age s.oldest_age
          (v.same k o y) ok)
      (λ m e. let g = v.freed m e in (g.0, g.1, free_pages b iam sam m g.2))
  where
    apart : (f e : Bool) (y o : ℕ) → o ≡ y → (f && within y o && e) ≡ true → ⊥
    apart f e y o same ok =
        let never : within y o ≡ false = subst (λ x. within y x ≡ false) (sym same) (irr y) in
        ground (arith, never, ok)
