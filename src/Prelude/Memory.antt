-- ===== src/Prelude/Memory.antt =====
-- Memory as a function from addresses, with the copies and reads of byte ranges that the
-- sources make through memcpy and pointers.
use Prim.Native.Nat.{ℕ, zero, suc, ◌+◌, ◌≤◌, ◌<◌}
use mathlib.Core.Path.{◌≡◌, refl, ap}
use mathlib.Core.Logic.{◌⊎◌}
use mathlib.Core.List.{List, [], ◌∷◌, ◌++◌}
use native.Mathlib.Omega.{arith}
use analysis_memcached.Prelude.Tests.{◌==◌, if◌then◌else◌}
use analysis_memcached.Prelude.Lists.{length}

-- A store of one cell.
abbrev pub update {ℓ} : {A : Type ℓ} → (ℕ → A) → ℕ → A → ℕ → A
update f p v q = if p == q then v else f q

-- memcpy(m + i, xs, length xs)
unfoldable pub memcpy : (ℕ → ℕ) → ℕ → List ℕ → ℕ → ℕ
memcpy m i [] = m
memcpy m i (x ∷ xs) = memcpy (update m i x) (suc i) xs

-- The n bytes at address i.
unfoldable pub read : (ℕ → ℕ) → ℕ → ℕ → List ℕ
read m i zero = []
read m i (suc n) = m i ∷ read m (suc i) n

pub length-read : (m : ℕ → ℕ) (i n : ℕ) → length (read m i n) ≡ n
unfolding read
length-read m i zero = refl
length-read m i (suc n) = ap suc (length-read m (suc i) n)

-- A copy leaves the addresses outside its range alone.
pub memcpy_outside :
    (m : ℕ → ℕ) (i : ℕ) (xs : List ℕ) (j : ℕ)
    → (j < i) ⊎ (i + length xs ≤ j)
    → memcpy m i xs j ≡ m j
unfolding memcpy
memcpy_outside m i [] j h = refl
memcpy_outside m i (x ∷ xs) j h = ground (arith, memcpy_outside (update m i x) (suc i) xs j)

pub read-memcpy_outside :
    (m : ℕ → ℕ) (i : ℕ) (xs : List ℕ) (j n : ℕ)
    → (j + n ≤ i) ⊎ (i + length xs ≤ j)
    → read (memcpy m i xs) j n ≡ read m j n
unfolding read
read-memcpy_outside m i xs j zero h = refl
read-memcpy_outside m i xs j (suc n) h =
    ground (arith, memcpy_outside m i xs j, read-memcpy_outside m i xs (suc j) n)

-- What was copied is read back.
pub read-memcpy : (m : ℕ → ℕ) (i : ℕ) (xs : List ℕ) → read (memcpy m i xs) i (length xs) ≡ xs
unfolding read memcpy
read-memcpy m i [] = refl
read-memcpy m i (x ∷ xs) =
    ground
      (arith, memcpy_outside (update m i x) (suc i) xs i, read-memcpy (update m i x) (suc i) xs)

pub read-append :
    (m : ℕ → ℕ) (i a b c : ℕ) → a + b ≡ c → read m i c ≡ read m i a ++ read m (i + a) b
unfolding read
read-append m i zero b c e =
    let e₁ : b ≡ c = omega arith in
    let e₂ : i + 0 ≡ i = omega arith in ground (arith, ap (read m i) e₁, ap (λ k. read m k b) e₂)
read-append m i (suc a) b zero e = absurd (omega arith)
read-append m i (suc a) b (suc c) e =
    let e₂ : suc i + a ≡ i + suc a = omega arith in
    ground (arith, read-append m (suc i) a b c, ap (λ k. read m k b) e₂)
