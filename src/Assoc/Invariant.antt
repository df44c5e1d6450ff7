-- ===== src/Assoc/Invariant.antt =====
-- What holds of the table between any two operations.
use analysis_memcached.Prelude.{ℕ, ◌-◌, ◌≤◌, ◌<◌, ◌≡◌, refl, true, Option, none, arith}
use analysis_memcached.Assoc.{Key, Table, bucket, hashsize, in_old, find_in, assoc_find, assoc_init}
use analysis_memcached.Assoc.Chain.{count}

module _ (key : ℕ → Key) (hash : Key → ℕ) where
  -- A key stands at most once in a chain, in the chain of its own bucket, and, while the table
  -- expands, not in the new table before its old bucket has been moved.
  pub record IsValid (t : Table) : Type 0 where
    pub once_primary : (k : Key) (b : ℕ) → count key k (t.primary b) ≤ 1
    pub once_old : (k : Key) (b : ℕ) → count key k (t.old b) ≤ 1
    pub home_old :
        (k : Key) (b : ℕ)
        → t.expanding ≡ true
        → 0 < count key k (t.old b)
        → bucket (hash k) (t.hashpower - 1) ≡ b
    pub home_primary :
        (k : Key) (b : ℕ) → 0 < count key k (t.primary b) → bucket (hash k) t.hashpower ≡ b
    pub apart : (k : Key) (b : ℕ) → in_old t (hash k) ≡ true → count key k (t.primary b) ≡ 0
    pub grown : t.expanding ≡ true → 0 < t.hashpower
    pub pending : t.expanding ≡ true → t.expand_bucket < hashsize (t.hashpower - 1)

  -- The item under a key.
  unfoldable pub view : Table → Key → Option ℕ
  unfolding assoc_find
  view t k = assoc_find key t k (hash k)

  -- A fresh table is valid and empty.
  pub assoc_init-IsValid :
      (n : ℕ) → IsValid (assoc_init n) × ((k : Key) → view (assoc_init n) k ≡ none)
  unfolding assoc_init count view find_in in_old
  assoc_init-IsValid n = (
    record {
      once_primary = λ k b. omega arith;
      once_old = λ k b. omega arith;
      home_old = λ k b e h. absurd (omega arith);
      home_primary = λ k b h. absurd (omega arith);
      apart = λ k b h. refl;
      grown = λ e. cc;
      pending = λ e. cc;
    },
    λ k. refl,
  )
