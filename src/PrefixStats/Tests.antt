-- ===== src/PrefixStats/Tests.antt =====
-- Keys with the delimiter 58, a hash that puts all prefixes into one bucket, and the theorems there.
use analysis_memcached.Prelude.{ℕ, ◌≡◌, refl, true, false, List, [], ◌∷◌}
use analysis_memcached.PrefixStats.{
  Prefixes, strncmp_eq, place, new_entry, add_entry, prefix_of, find_prefix, stats_prefix_find,
  count_at, stats_prefix_init, stats_prefix_record_get,
}
use analysis_memcached.PrefixStats.Find.{IsPlaced, find-again}

-- Everything that a run computes with.
program : Unit {0}
unfolding strncmp_eq place new_entry add_entry prefix_of find_prefix stats_prefix_find count_at
    stats_prefix_record_get
program = tt

abbrev hash : List ℕ → ℕ
hash k = 5

-- The key "ab:x".
abbrev long_key : List ℕ
long_key = 97 ∷ 98 ∷ 58 ∷ 120 ∷ []

abbrev counted : Prefixes
counted = stats_prefix_record_get hash 58 stats_prefix_init long_key true true

hits : counted.table 5 ≡ (record (new_entry (97 ∷ 98 ∷ [])) { num_gets = 1; num_hits = 1 }) ∷ []
unfolding program
hits = refl

find-again_example :
    let r = find_prefix hash 58 counted (99 ∷ []) true in
    IsPlaced hash 58 (99 ∷ []) r × (find_prefix hash 58 r.0 (99 ∷ []) false ≡ r)
find-again_example = find-again hash 58 counted (99 ∷ []) false
