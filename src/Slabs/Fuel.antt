-- ===== src/Slabs/Fuel.antt =====
-- The walk over the chunks of a large item ends: the number of its chunks is fuel enough.
use mathlib.Core.Path.{subst}
use analysis_memcached.Prelude.{
  ℕ, zero, suc, ◌+◌, ◌≤◌, ◌≡◌, ◌≢◌, refl, sym, ap, List, [], ◌∷◌, length, ◌==◌, if◌then◌else◌,
  arith, Fresh, Distinct,
}
use analysis_memcached.Item.{Mem, sizeof_item_chunk}
use analysis_memcached.Slabs.{Slabs, push_free, free_chunks}

-- The chunks from `c` on along `next`, up to NULL.
abbrev pub Chunks : Mem → ℕ → List ℕ → Type 0
Chunks m c [] = c ≡ 0
Chunks m c (x ∷ xs) = (c ≡ x) × (x ≢ 0) × Chunks m (m x).next xs

push_free_next :
    (s : Slabs) (it id size a : ℕ) → it ≢ a → ((push_free s it id size).mem a).next ≡ (s.mem a).next
unfolding push_free
push_free_next s it id size a n = ground arith

Chunks-push_free :
    (s : Slabs) (it id size c : ℕ) (xs : List ℕ)
    → Fresh it xs
    → Chunks s.mem c xs
    → Chunks (push_free s it id size).mem c xs
Chunks-push_free s it id size c [] f h = h
Chunks-push_free s it id size c (x ∷ xs) f h = (
  h.0,
  h.1,
  subst (λ p. Chunks (push_free s it id size).mem p xs) (sym (push_free_next s it id size x f.0))
      (Chunks-push_free s it id size (s.mem x).next xs f.1 h.2),
)

-- Following a chain of distinct chunks with at least as much fuel as there are chunks gives what
-- that number gives, so the walk does not run out.
pub free_chunks-enough :
    (fuel : ℕ) (s : Slabs) (c : ℕ) (xs : List ℕ)
    → Distinct xs
    → Chunks s.mem c xs
    → length xs ≤ fuel
    → free_chunks fuel s c ≡ free_chunks (length xs) s c
unfolding free_chunks
free_chunks-enough zero s c [] d h l = refl
free_chunks-enough zero s c (x ∷ xs) d h l = absurd (omega (arith, l))
free_chunks-enough (suc fuel) s c [] d h l = ground (arith, h)
free_chunks-enough (suc fuel) s c (x ∷ xs) d h l =
    let k = s.mem c in
    let t = push_free s c k.slabs_clsid (k.size + sizeof_item_chunk) in
    let chain : Chunks t.mem k.next xs =
      Chunks-push_free s c k.slabs_clsid (k.size + sizeof_item_chunk) k.next xs
        (subst (λ p. Fresh p xs) (sym h.0) d.0)
        (subst (λ p. Chunks s.mem (s.mem p).next xs) (sym h.0) h.2) in
    ap (λ r. if c == 0 then s else r)
      (free_chunks-enough fuel t k.next xs d.1 chain (omega (arith, l)))
