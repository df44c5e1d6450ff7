-- ===== src/Assoc/Migration.antt =====
-- Moving one old bucket's items into the larger table changes no lookup.
use analysis_memcached.Prelude.{
  ℕ, ◌+◌, ◌-◌, ◌≤◌, ◌<◌, ◌≡◌, refl, ap, true, none, some, List, [], ◌∷◌, ◌==◌, if◌then◌else◌, arith,
  ◌≢◌,
}
use native.Mathlib.Nat.{mod-lt, one-le-pow}
use analysis_memcached.Prelude.Memory.{update}
use analysis_memcached.Assoc.{
  Key, Table, bucket, hashsize, in_old, chain_for, find_in, move_items, move_bucket,
}
use analysis_memcached.Assoc.Chain.{count, same_key_iff, count-absent, find_in-absent}
use analysis_memcached.Assoc.Invariant.{IsValid, view}

module _ (key : ℕ → Key) (hash : Key → ℕ) where
  -- The moved items are found before those that the bucket had.
  find-move_items :
      (n : ℕ) (c : List ℕ) (primary : ℕ → List ℕ) (k : Key)
      → count key k c ≤ 1
      → find_in key k (move_items key hash n c primary (bucket (hash k) n))
        ≡ elim (find_in key k c) [
          | none ↦ find_in key k (primary (bucket (hash k) n))
          | some p ↦ some p
        ]
  unfolding move_items find_in count
  find-move_items n [] primary k h = refl
  find-move_items n (it ∷ c) primary k h =
      let b = bucket (hash (key it)) n in
      ground (
        arith,
        find-move_items n c (update primary b (it ∷ primary b)) k,
        same_key_iff k (key it),
        λ (e : k ≡ key it). ap hash e,
        find_in-absent key k c,
      )

  count-move_items :
      (n : ℕ) (c : List ℕ) (primary : ℕ → List ℕ) (k : Key) (b : ℕ)
      → count key k (move_items key hash n c primary b) ≡ (
          if b == bucket (hash k) n
          then count key k c + count key k (primary b)
          else count key k (primary b))
  unfolding move_items count
  count-move_items n [] primary k b = ground arith
  count-move_items n (it ∷ c) primary k b =
      let a = bucket (hash (key it)) n in
      ground (
        arith,
        count-move_items n c (update primary a (it ∷ primary a)) k b,
        same_key_iff k (key it),
        λ (e : k ≡ key it). ap hash e,
      )

bucket-lt : (h n : ℕ) → bucket h n < hashsize n
unfolding bucket
bucket-lt h n = mod-lt h (one-le-pow n 2 (omega arith))

module _ (key : ℕ → Key) (hash : Key → ℕ) (t : Table) (v : IsValid key hash t)
    (expanding : t.expanding ≡ true) where
  -- Moving the next bucket changes no lookup, also when it is the last one.
  pub view-move_bucket : (k : Key) → view key hash (move_bucket key hash t) k ≡ view key hash t k
  unfolding view move_bucket chain_for
  view-move_bucket k =
      let old = t.old t.expand_bucket in
      ground (
        arith,
        find-move_items key hash t.hashpower old t.primary k (v.once_old k t.expand_bucket),
        v.home_old k t.expand_bucket,
        v.apart k (bucket (hash k) t.hashpower),
        count-absent key k old,
        find_in-absent key k old,
        find_in-absent key k (t.primary (bucket (hash k) t.hashpower)),
        bucket-lt (hash k) (t.hashpower - 1),
        v.pending,
      )

  pub move_bucket-IsValid : IsValid key hash (move_bucket key hash t)
  unfolding move_bucket
  move_bucket-IsValid =
      let e = t.expand_bucket in
      let old = t.old e in
      let counts = λ (k : Key) (b : ℕ). count-move_items key hash t.hashpower old t.primary k b in
      record {
        once_primary = λ k b. ground (
          arith,
          counts k b,
          v.once_primary k b,
          v.once_old k e,
          v.home_old k e,
          v.apart k b,
          in_old-here k,
        );
        once_old = λ k b. ground (arith, v.once_old k b, nothing k);
        home_old = λ k b x n. ground (arith, v.home_old k b, nothing k);
        home_primary = λ k b n. ground (arith, counts k b, v.home_primary k b);
        apart = λ k b i. ground (arith, counts k b, v.home_old k e, v.apart k b, in_old-mono k);
        grown = λ x. ground (arith, v.grown);
        pending = λ x. ground (arith, v.pending);
      }
    where
      nothing : (k : Key) → count key k [] ≡ 0
      nothing k = unfold count in refl

      in_old-here :
          (k : Key) → bucket (hash k) (t.hashpower - 1) ≡ t.expand_bucket → in_old t (hash k) ≡ true
      in_old-here k h = unfold in_old in ground arith

      in_old-mono :
          (k : Key)
          → in_old (move_bucket key hash t) (hash k) ≡ true
          → (in_old t (hash k) ≡ true) × (bucket (hash k) (t.hashpower - 1) ≢ t.expand_bucket)
      in_old-mono k h = unfold in_old move_bucket in ground arith
