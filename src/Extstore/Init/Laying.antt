-- ===== src/Extstore/Init/Laying.antt =====
-- The loop that shares the pages out to the devices ends, since there are as many pages as devices have.
use analysis_memcached.Prelude.{
  ℕ, zero, suc, ◌+◌, ◌-◌, ◌≤◌, ◌<◌, ◌≡◌, ◌≢◌, inl, inr, refl, ap, ◌∙◌, none, some, List, [], ◌∷◌,
  length, ◌==◌, if_elim, option_cases, Bool-cases, arith,
}
use mathlib.Core.Path.{subst}
use analysis_memcached.Prelude.Memory.{update}
use analysis_memcached.Extstore.State.{StorePage}
use analysis_memcached.Extstore.Init.{
  ConfFile, temp_page_count, file_at, first_left, next_file, init_page, lay_pages, init_pages,
}

-- The pages that `k` devices from `i` on have left.
abbrev total : (ℕ → ℕ) → ℕ → ℕ → ℕ
total left i zero = 0
total left i (suc k) = left i + total left (suc i) k

none_left : (left : ℕ → ℕ) (i k : ℕ) → first_left left i k ≡ none → total left i k ≡ 0
unfolding first_left
none_left left i zero h = refl
none_left left i (suc k) h = ground (arith, h, none_left left (suc i) k)

-- The device that is found.
record Chosen (left : ℕ → ℕ) (lo hi j : ℕ) : Type 0 where
  pub above : lo ≤ j
  pub below : j < hi
  pub some_left : 0 < left j

first_left-Chosen :
    (left : ℕ → ℕ) (i k j : ℕ) → first_left left i k ≡ some j → Chosen left i (i + k) j
unfolding first_left
first_left-Chosen left i zero j h = absurd (cc)
first_left-Chosen left i (suc k) j h =
    if_elim (λ o. o ≡ some j → Chosen left i (i + suc k) j) (left i == 0)
      (λ e m.
        let c = first_left-Chosen left (suc i) k j m in
        record {
          above = omega (arith, c.above);
          below = omega (arith, c.below);
          some_left = c.some_left;
        })
      (λ e m. record {
        above = ground (arith, m);
        below = ground (arith, m);
        some_left = ground (arith, e, m);
      })
      h

next_file-Chosen :
    (left : ℕ → ℕ) (n at j : ℕ) → next_file left n at ≡ some j → Chosen left 0 (0 + n) j
unfolding next_file
next_file-Chosen left n at j h =
    option_cases (λ o. o ≡ some j → Chosen left 0 (0 + n) j) (first_left left at (n - at))
      (first_left left 0 n) some
      (λ e m.
        let c = first_left-Chosen left 0 n j m in
        record { above = omega arith; below = omega (arith, c.below); some_left = c.some_left })
      (λ i e m.
        let c = first_left-Chosen left at (n - at) j (e ∙ m) in
        record {
          above = omega arith;
          below = omega (arith, c.above, c.below);
          some_left = c.some_left;
        })
      h

next_file-none : (left : ℕ → ℕ) (n at : ℕ) → next_file left n at ≡ none → total left 0 n ≡ 0
unfolding next_file
next_file-none left n at h =
    option_cases (λ o. o ≡ none → total left 0 n ≡ 0) (first_left left at (n - at))
      (first_left left 0 n) some (λ e m. none_left left 0 n m) (λ i e m. absurd (cc)) h

total_outside : (left : ℕ → ℕ) (j v i k : ℕ) → j < i → total (update left j v) i k ≡ total left i k
total_outside left j v i zero h = refl
total_outside left j v i (suc k) h =
    ground (arith, h, total_outside left j v (suc i) k (omega (arith, h)))

-- A page is taken from a device.
total-spend :
    (left : ℕ → ℕ) (j i k : ℕ)
    → Chosen left i (i + k) j
    → total (update left j (left j - 1)) i k + 1 ≡ total left i k
total-spend left j i zero c = absurd (omega (arith, c.above, c.below))
total-spend left j i (suc k) c = elim (Bool-cases (j == i)) [
  | inl e ↦
      ground
        (arith, e, c.some_left, total_outside left j (left j - 1) (suc i) k (ground (arith, e)))
  | inr e ↦ ground (
    arith,
    e,
    total-spend left j (suc i) k (record {
      above = ground (arith, e, c.above);
      below = omega (arith, c.below);
      some_left = c.some_left;
    }),
  )
]

lay_pages-returns :
    (files : List ConfFile) (k i at : ℕ) (left : ℕ → ℕ) (pages : ℕ → StorePage)
    → k ≤ total left 0 (length files)
    → lay_pages files k i at left pages ≢ none
unfolding lay_pages
lay_pages-returns files zero i at left pages h = λ e. cc
lay_pages-returns files (suc k) i at left pages h =
    option_cases (λ r. r ≢ none) (next_file left (length files) at) none
      (λ j.
        lay_pages files k (suc i) (suc j) (update left j (left j - 1))
          (update pages i (init_page (file_at files j).free_bucket)))
      (λ e. absurd (omega (arith, h, next_file-none left (length files) at e)))
      (λ j e.
        let c = next_file-Chosen left (length files) at j e in
        lay_pages-returns files k (suc i) (suc j) _ _
          (omega (arith, h, total-spend left j 0 (length files) c)))

total-shift : (left : ℕ → ℕ) (i k : ℕ) → total (λ j. left (suc j)) i k ≡ total left (suc i) k
total-shift left i zero = refl
total-shift left i (suc k) = omega (arith, total-shift left (suc i) k)

total_lem :
    (files : List ConfFile)
    → total (λ i. (file_at files i).page_count) 0 (length files) ≡ temp_page_count files
total_lem [] = refl
total_lem (f ∷ fs) =
    omega (arith, total-shift (λ i. (file_at (f ∷ fs) i).page_count) 0 (length fs), total_lem fs)

-- Each page gets a device.
pub init_pages-returns : (files : List ConfFile) → init_pages files ≢ none
init_pages-returns files =
    lay_pages-returns files (temp_page_count files) 0 0 (λ i. (file_at files i).page_count) _
      (omega (arith, total_lem files))

-- What holds of a page fresh from calloc and of one that was given to a device holds of all.
pub lay_pages-all :
    (P : StorePage → Type 0) (files : List ConfFile) (k i at : ℕ) (left : ℕ → ℕ)
    (pages laid : ℕ → StorePage)
    → ((fb : ℕ) → P (init_page fb))
    → ((p : ℕ) → P (pages p))
    → lay_pages files k i at left pages ≡ some laid
    → (p : ℕ) → P (laid p)
unfolding lay_pages
lay_pages-all P files zero i at left pages laid new all h =
    λ p. subst (λ f. P (f p)) (ap (λ o. elim o [ none ↦ pages | some f ↦ f ]) h) (all p)
lay_pages-all P files (suc k) i at left pages laid new all h =
    option_cases (λ r. r ≡ some laid → (p : ℕ) → P (laid p)) (next_file left (length files) at) none
      (λ j.
        lay_pages files k (suc i) (suc j) (update left j (left j - 1))
          (update pages i (init_page (file_at files j).free_bucket)))
      (λ e m. absurd (cc))
      (λ j e m.
        lay_pages-all P files k (suc i) (suc j) _ _ laid new
          (λ q. if_elim P (i == q) (λ _. new (file_at files j).free_bucket) (λ _. all q)) m)
      h
