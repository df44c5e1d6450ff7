-- ===== src/PrefixStats.antt =====
-- thread/stats.c: the counters of operations by key prefix, in a hash table of 256 buckets. A key is
-- its bytes; `hash` is the hash function that main chooses, `delimiter` is the setting
-- prefix_delimiter, and `allocated` tells whether calloc and malloc succeeded. A pointer to an entry
-- is its bucket and its place in the bucket's chain. The stats lock is held throughout.
pub mod Find
mod Tests
use analysis_memcached.Prelude.{
  ℕ, zero, suc, ◌+◌, ◌%◌, Bool, true, false, ◌&&◌, Option, none, some, List, [], ◌∷◌, length, ◌==◌,
  if◌then◌else◌,
}
use analysis_memcached.Prelude.Memory.{update}

pub record Entry : Type 0 where
  pub prefix : List ℕ
  pub prefix_len : ℕ
  pub num_gets : ℕ
  pub num_sets : ℕ
  pub num_deletes : ℕ
  pub num_hits : ℕ

pub record Prefixes : Type 0 where
  pub table : ℕ → List Entry
  pub num_prefixes : ℕ
  pub total_prefix_size : ℕ

abbrev pub prefix_hash_size : ℕ
prefix_hash_size = 256

abbrev pub stats_prefix_init : Prefixes
stats_prefix_init = record { table = λ i. []; num_prefixes = 0; total_prefix_size = 0 }

-- The loop of stats_prefix_clear over the first `n` buckets.
unfoldable pub clear_buckets : ℕ → (ℕ → List Entry) → ℕ → List Entry
clear_buckets zero t = t
clear_buckets (suc n) t = clear_buckets n (update t n [])

unfoldable pub stats_prefix_clear : Prefixes → Prefixes
unfolding clear_buckets
stats_prefix_clear s = record {
  table = clear_buckets prefix_hash_size s.table;
  num_prefixes = 0;
  total_prefix_size = 0;
}

-- The bytes of a key before the delimiter; `none` is a key with none before its end or a NUL.
unfoldable pub prefix_of : ℕ → List ℕ → Option (List ℕ)
prefix_of delimiter [] = none
prefix_of delimiter (x ∷ key) =
    let rest = prefix_of delimiter key in
    if x == 0
    then none
    else if x == delimiter
    then some []
    else elim rest [ none ↦ none | some p ↦ some (x ∷ p) ]

-- strncmp(pfs->prefix, key, length) == 0, where `prefix` is the first `length` bytes of the key.
unfoldable pub strncmp_eq : List ℕ → List ℕ → Bool
strncmp_eq stored [] = true
strncmp_eq [] (x ∷ prefix) = false
strncmp_eq (y ∷ stored) (x ∷ prefix) = y == x && strncmp_eq stored prefix

-- The place of the first entry in a chain that compares equal.
unfoldable pub place : List ℕ → List Entry → Option ℕ
unfolding strncmp_eq
place prefix [] = none
place prefix (e ∷ chain) =
    let rest = place prefix chain in
    if strncmp_eq e.prefix prefix then some 0 else elim rest [ none ↦ none | some i ↦ some (suc i) ]

unfoldable pub new_entry : List ℕ → Entry
new_entry prefix = record {
  prefix = prefix;
  prefix_len = length prefix;
  num_gets = 0;
  num_sets = 0;
  num_deletes = 0;
  num_hits = 0;
}

-- A new entry at the front of its chain.
unfoldable pub add_entry : Prefixes → ℕ → List ℕ → Prefixes
unfolding new_entry
add_entry s h prefix = record {
  table = update s.table h (new_entry prefix ∷ s.table h);
  num_prefixes = s.num_prefixes + 1;
  total_prefix_size = s.total_prefix_size + length prefix;
}

abbrev pub modify : ℕ → (Entry → Entry) → List Entry → List Entry
modify i f [] = []
modify zero f (e ∷ chain) = f e ∷ chain
modify (suc i) f (e ∷ chain) = e ∷ modify i f chain

-- A count through the pointer that stats_prefix_find returned.
unfoldable pub count_at : Prefixes → Option (ℕ × ℕ) → (Entry → Entry) → Prefixes
count_at s none f = s
count_at s (some p) f = record s { table = update s.table p.0 (modify p.1 f (s.table p.0)) }

module _ (hash : List ℕ → ℕ) (delimiter : ℕ) where
  -- The part of stats_prefix_find that looks for a prefix.
  unfoldable pub find_prefix : Prefixes → List ℕ → Bool → Prefixes × Option (ℕ × ℕ)
  unfolding place add_entry
  find_prefix s prefix allocated =
      let h = hash prefix % prefix_hash_size in
      elim (place prefix (s.table h)) [
        | some i ↦ (s, some (h, i))
        | none ↦ if allocated then (add_entry s h prefix, some (h, 0)) else (s, none)
      ]

  unfoldable pub stats_prefix_find : Prefixes → List ℕ → Bool → Prefixes × Option (ℕ × ℕ)
  unfolding prefix_of find_prefix
  stats_prefix_find s key allocated = elim (prefix_of delimiter key) [
    | none ↦ (s, none)
    | some prefix ↦ find_prefix s prefix allocated
  ]

  unfoldable pub stats_prefix_record_get : Prefixes → List ℕ → Bool → Bool → Prefixes
  unfolding stats_prefix_find count_at
  stats_prefix_record_get s key is_hit allocated =
      let (t, p) = stats_prefix_find s key allocated in
      count_at t p (λ e. record e {
        num_gets = e.num_gets + 1;
        num_hits = if is_hit then e.num_hits + 1 else e.num_hits;
      })

  unfoldable pub stats_prefix_record_delete : Prefixes → List ℕ → Bool → Prefixes
  unfolding stats_prefix_find count_at
  stats_prefix_record_delete s key allocated =
      let (t, p) = stats_prefix_find s key allocated in
      count_at t p (λ e. record e { num_deletes = e.num_deletes + 1 })

  unfoldable pub stats_prefix_record_set : Prefixes → List ℕ → Bool → Prefixes
  unfolding stats_prefix_find count_at
  stats_prefix_record_set s key allocated =
      let (t, p) = stats_prefix_find s key allocated in
      count_at t p (λ e. record e { num_sets = e.num_sets + 1 })
