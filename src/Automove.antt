-- ===== src/Automove.antt =====
-- memory_lru/slab_automove.c: the choice of a slab class that gives a page and one that gets it, from
-- a window of the last ages and evictions of each class. The arrays that
-- fill_item_stats_automove and fill_slab_stats_automove write are arguments, `iam_after` and
-- `sam_after`. The comparison of ages with the ratio is in doubles: `within` y o tells whether
-- y < o * max_age_ratio. 2.5 pages of chunks are written as five halves. -1 is `negsuc 0`.
pub mod Choice
mod Tests
use analysis_memcached.Prelude.{
  ℕ, zero, suc, ◌+◌, ◌-◌, ◌*◌, ◌/◌, ◌%◌, ◌^◌, Bool, true, false, not, ◌&&◌, ◌||◌, Option, none,
  some, ltb, ◌==◌, if◌then◌else◌,
}
use analysis_memcached.Prelude.Memory.{update}
use analysis_memcached.Prelude.Int.{ℤ, pos, negsuc}
use analysis_memcached.Item.{power_smallest, max_number_of_slab_classes}

pub record WindowData : Type 0 where
  pub age : ℕ
  pub dirty : ℕ
  pub evicted : ℕ

pub record ItemStats : Type 0 where
  pub evicted : ℕ
  pub outofmemory : ℕ
  pub age : ℕ

pub record SlabStats : Type 0 where
  pub chunks_per_page : ℕ
  pub free_chunks : ℕ
  pub total_pages : ℕ

pub record SlabAutomove : Type 0 where
  pub window_data : ℕ → WindowData
  pub window_size : ℕ
  pub window_cur : ℕ
  pub iam_before : ℕ → ItemStats
  pub sam_before : ℕ → SlabStats

abbrev pub no_data : WindowData
no_data = record { age = 0; dirty = 0; evicted = 0 }

-- The sum of the `size` windows from `x` on.
unfoldable pub window_sum : (ℕ → WindowData) → ℕ → ℕ → WindowData
window_sum wd x zero = no_data
window_sum wd x (suc size) =
    let rest = window_sum wd (x + 1) size in
    let d = wd x in
    record {
      age = (d.age + rest.age) % 2 ^ 64;
      dirty = (d.dirty + rest.dirty) % 2 ^ 64;
      evicted = (d.evicted + rest.evicted) % 2 ^ 64;
    }

-- A pair of an oldest and a youngest class, where both were found and `ok` holds.
abbrev pub pair_if : Bool → Option ℕ → Option ℕ → Option (ℕ × ℕ)
pair_if true (some o) (some y) = some (o, y)
pair_if ok oldest youngest = none

-- The values of `src` and `dst`: the pair, or else the class with free pages and the page pool.
abbrev pub src_dst : Option (ℕ × ℕ) → Option ℕ → ℤ × ℤ
src_dst (some p) free = (pos p.0, pos p.1)
src_dst none (some n) = (pos n, pos 0)
src_dst none none = (negsuc 0, negsuc 0)

-- The local variables of slab_automove_run; `free` is the class at which the loop stopped.
pub record Scan : Type 0 where
  pub data_now : ℕ → WindowData
  pub oldest : Option ℕ
  pub oldest_age : ℕ
  pub youngest : Option ℕ
  pub youngest_age : ℕ
  pub youngest_evicting : Bool
  pub free : Option ℕ

-- The break out of the loop.
abbrev pub unless : Option ℕ → Scan → Scan → Scan
unless none stopped rest = rest
unless (some m) stopped rest = stopped

module _ (a : SlabAutomove) (iam_after : ℕ → ItemStats) (sam_after : ℕ → SlabStats) where
  abbrev pub window_offset : ℕ → ℕ
  window_offset n = n * a.window_size

  -- The class's current window, and whether something was evicted or did not fit.
  unfoldable pub pressed : ℕ → Bool
  pressed n =
      ltb (a.iam_before n).evicted (iam_after n).evicted
      || ltb (a.iam_before n).outofmemory (iam_after n).outofmemory

  unfoldable pub current_window : ℕ → WindowData
  unfolding pressed
  current_window n = record {
    evicted = if pressed n then 1 else 0;
    dirty =
        if pressed n || ltb (a.sam_before n).total_pages (sam_after n).total_pages then 1 else 0;
    age = (iam_after n).age;
  }

  -- Where the class's current window stands.
  unfoldable pub window_at : ℕ → ℕ
  window_at n = window_offset n + a.window_cur % a.window_size

  -- The sum of the class's windows, with the current one cleared.
  unfoldable pub past : Scan → ℕ → WindowData
  unfolding window_sum window_at
  past s n = window_sum (update s.data_now (window_at n) no_data) (window_offset n) a.window_size

  unfoldable pub has_free_pages : ℕ → Bool
  has_free_pages n = ltb ((sam_after n).chunks_per_page * 5) ((sam_after n).free_chunks * 2)

  unfoldable pub mark_oldest : ℕ → ℕ → Scan → Scan
  mark_oldest n age s =
      if ltb s.oldest_age age && ltb 2 (sam_after n).total_pages
      then record s { oldest = some n; oldest_age = age }
      else s

  unfoldable pub mark_youngest : ℕ → ℕ → ℕ → Scan → Scan
  unfolding current_window
  mark_youngest n age evictions s =
      if ltb age s.youngest_age && ltb (a.window_size / 2) evictions
      then record s {
        youngest = some n;
        youngest_age = age;
        youngest_evicting = not ((current_window n).evicted == 0);
      }
      else s

  -- One round of the loop.
  unfoldable pub visit : ℕ → Scan → Scan
  unfolding past current_window window_at has_free_pages mark_oldest mark_youngest
  visit n s =
      let sum = past s n in
      let age = sum.age / a.window_size in
      let written : Scan = record s {
        data_now = update s.data_now (window_at n) (current_window n);
      } in
      if has_free_pages n && sum.dirty == 0
      then record written { free = some n }
      else mark_youngest n age sum.evicted (mark_oldest n age written)

  -- The loop with `left` classes to go from class `n` on.
  unfoldable pub visits : ℕ → ℕ → Scan → Scan
  unfolding visit
  visits zero n s = s
  visits (suc left) n s =
      let t = visit n s in let rest = visits left (n + 1) t in unless t.free t rest

abbrev pub start_scan : SlabAutomove → Scan
start_scan a = record {
  data_now = a.window_data;
  oldest = none;
  oldest_age = 0;
  youngest = none;
  youngest_age = 2 ^ 64 - 1;
  youngest_evicting = false;
  free = none;
}

-- The classes `src` and `dst` that the run stores.
unfoldable pub decision : (ℕ → ℕ → Bool) → Bool → Scan → ℤ × ℤ
decision within filled s =
    src_dst
      (pair_if (filled && within s.youngest_age s.oldest_age && s.youngest_evicting) s.oldest
        s.youngest)
      s.free

unfoldable pub slab_automove_run :
    SlabAutomove → (ℕ → ItemStats) → (ℕ → SlabStats) → (ℕ → ℕ → Bool) → SlabAutomove × (ℤ × ℤ)
unfolding visits decision
slab_automove_run a iam_after sam_after within =
    let b : SlabAutomove = record a { window_cur = (a.window_cur + 1) % 2 ^ 32 } in
    let s =
      visits b iam_after sam_after (max_number_of_slab_classes - power_smallest) power_smallest
        (start_scan b) in
    (
      record b { window_data = s.data_now; iam_before = iam_after; sam_before = sam_after },
      decision within (ltb b.window_size b.window_cur) s,
    )
