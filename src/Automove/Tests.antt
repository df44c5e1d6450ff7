-- ===== src/Automove/Tests.antt =====
-- A run with a window of one, and the theorem there.
use analysis_memcached.Prelude.{ℕ, ◌≡◌, refl, false, ◌==◌, if◌then◌else◌}
use analysis_memcached.Prelude.Int.{pos}
use analysis_memcached.Automove.{
  SlabAutomove, ItemStats, SlabStats, no_data, slab_automove_run, visits, visit, past, window_sum,
  window_at, current_window, pressed, has_free_pages, mark_oldest, mark_youngest, decision,
}
use analysis_memcached.Automove.Choice.{Choice, slab_automove_run-Choice}

-- Everything that a run computes with.
program : Unit {0}
unfolding slab_automove_run visits visit past window_sum window_at current_window pressed
    has_free_pages mark_oldest mark_youngest decision
program = tt

abbrev idle : ItemStats
idle = record { evicted = 0; outofmemory = 0; age = 0 }

-- Class 3 has three free pages of ten chunks.
abbrev pages : ℕ → SlabStats
pages n = record { chunks_per_page = 10; free_chunks = if n == 3 then 30 else 0; total_pages = 1 }

abbrev automove : SlabAutomove
automove = record {
  window_data = λ i. no_data;
  window_size = 1;
  window_cur = 0;
  iam_before = λ n. idle;
  sam_before = pages;
}

chosen : (slab_automove_run automove (λ n. idle) pages (λ y o. false)).1 ≡ (pos 3, pos 0)
unfolding program
chosen = refl

slab_automove_run-Choice_example :
    Choice pages (slab_automove_run automove (λ n. idle) pages (λ y o. false)).1
slab_automove_run-Choice_example =
    slab_automove_run-Choice automove (λ n. idle) pages (λ y o. false) (λ x. refl)
