-- ===== src/Slabs/Split.antt =====
-- Splitting a page into the chunks of a class's free list, and the page's way into the class.
use mathlib.Core.Path.{subst₂}
use analysis_memcached.Prelude.{
  ℕ, zero, suc, ◌+◌, ◌*◌, ◌≤◌, ◌<◌, ◌≡◌, ◌≢◌, ◌⊎◌, refl, sym, false, List, [], ◌∷◌, arith, Fresh,
  length,
}
use analysis_memcached.Item.{Mem, Settings, power_smallest}
use analysis_memcached.Item.Links.{SameLinks, Linked-SameLinks}
use analysis_memcached.Slabs.{
  Slabs, push_free, do_slabs_free, split_chunks, cleared, clear_page, install_page,
  split_slab_page_into_freelist,
}
use analysis_memcached.Slabs.Freelist.{IsFreelist, AllSlabbed, push_free-IsFreelist}

-- The chunks of a list lie outside the addresses from `lo` up to `hi`.
abbrev pub Apart : ℕ → ℕ → List ℕ → Type 0
Apart lo hi [] = Unit
Apart lo hi (x ∷ xs) = ((x < lo) ⊎ (hi ≤ x)) × Apart lo hi xs

-- The free list after `n` chunks from `ptr` on have been pushed to it.
abbrev pub pushed : ℕ → ℕ → ℕ → List ℕ → List ℕ
pushed zero ptr size xs = xs
pushed (suc n) ptr size xs = pushed n (ptr + size) size (ptr ∷ xs)

Apart-Fresh : (lo hi : ℕ) (xs : List ℕ) → lo < hi → Apart lo hi xs → Fresh lo xs
Apart-Fresh lo hi [] h a = tt
Apart-Fresh lo hi (x ∷ xs) h a = ground (arith, Apart-Fresh lo hi xs h a.1)

Apart-narrow :
    (lo lo' hi hi' : ℕ) (xs : List ℕ) → lo ≤ lo' → hi' ≤ hi → Apart lo hi xs → Apart lo' hi' xs
Apart-narrow lo lo' hi hi' [] h k a = tt
Apart-narrow lo lo' hi hi' (x ∷ xs) h k a = ground (arith, Apart-narrow lo lo' hi hi' xs h k a.1)

pub length-pushed : (n ptr size : ℕ) (xs : List ℕ) → length (pushed n ptr size xs) ≡ n + length xs
length-pushed zero ptr size xs = omega arith
length-pushed (suc n) ptr size xs = ground (arith, length-pushed n (ptr + size) size (ptr ∷ xs))

-- A page's items are not chunked once it has been cleared, and stay so while it is split.
abbrev pub NotChunked : Mem → ℕ → ℕ → Type 0
NotChunked m lo hi = (a : ℕ) → lo ≤ a → a < hi → (m a).it_flags.chunked ≡ false

push_free-chunked :
    (s : Slabs) (it id size a : ℕ)
    → (s.mem a).it_flags.chunked ≡ false
    → ((push_free s it id size).mem a).it_flags.chunked ≡ false
unfolding push_free
push_free-chunked s it id size a h = ground arith

push_free-size :
    (s : Slabs) (it id size : ℕ)
    → (((push_free s it id size).class id).size ≡ (s.class id).size)
      × ((push_free s it id size).power_largest ≡ s.power_largest)
unfolding push_free
push_free-size s it id size = ground arith

suc_mul : (n k : ℕ) → suc n * k ≡ k + n * k
suc_mul n k = omega arith

module _ (settings : Settings) (id size : ℕ) (low : power_smallest ≤ id) (one : 1 ≤ size) where
  free_plain :
      (s : Slabs) (ptr : ℕ)
      → id ≤ s.power_largest
      → (s.mem ptr).it_flags.chunked ≡ false
      → do_slabs_free settings 0 s ptr 0 id ≡ push_free s ptr id 0
  unfolding do_slabs_free
  free_plain s ptr h c = ground arith

  pub split_chunks-IsFreelist :
      (n : ℕ) (s : Slabs) (ptr : ℕ) (xs : List ℕ)
      → id ≤ s.power_largest
      → (s.class id).size ≡ size
      → ptr ≢ 0
      → NotChunked s.mem ptr (ptr + n * size)
      → Apart ptr (ptr + n * size) xs
      → IsFreelist s id xs
      → IsFreelist (split_chunks settings n s ptr id) id (pushed n ptr size xs)
  unfolding split_chunks
  split_chunks-IsFreelist zero s ptr xs h k z c a v = v
  split_chunks-IsFreelist (suc n) s ptr xs h k z c a v =
      let t = push_free s ptr id 0 in
      let e = free_plain s ptr h (c ptr (omega arith) (omega (arith, suc_mul n size))) in
      let kept = push_free-size s ptr id 0 in
      let fresh = Apart-Fresh ptr (ptr + suc n * size) xs (omega (arith, suc_mul n size)) a in
      let rest =
        split_chunks-IsFreelist n t (ptr + size) (ptr ∷ xs) (omega (arith, kept.1, h))
          (ground (arith, kept.0, k)) (omega (arith, z))
          (λ b l u.
            push_free-chunked s ptr id 0 b (c b (omega arith) (omega (arith, suc_mul n size))))
          (ground (
            arith,
            Apart-narrow ptr (ptr + size) (ptr + suc n * size) (ptr + size + n * size) xs
                (omega arith) (omega (arith, suc_mul n size)) a,
          ))
          (push_free-IsFreelist s id 0 ptr xs z fresh v) in
      subst₂
        (λ u q.
          IsFreelist (split_chunks settings n u (ptr + q) id) id
            (pushed n (ptr + size) size (ptr ∷ xs)))
        (sym e) (sym k) rest

-- The free list of another memory with the same links and marks.
same_page-SameLinks :
    (m : Mem) (ptr len : ℕ) (xs : List ℕ)
    → Apart ptr (ptr + len) xs
    → SameLinks m (clear_page m ptr len) xs
unfolding clear_page
same_page-SameLinks m ptr len [] a = tt
same_page-SameLinks m ptr len (x ∷ xs) a = ground (arith, same_page-SameLinks m ptr len xs a.1)

same_page-AllSlabbed :
    (m : Mem) (ptr len : ℕ) (xs : List ℕ)
    → Apart ptr (ptr + len) xs
    → AllSlabbed m xs
    → AllSlabbed (clear_page m ptr len) xs
unfolding clear_page
same_page-AllSlabbed m ptr len [] a h = tt
same_page-AllSlabbed m ptr len (x ∷ xs) a h =
    ground (arith, same_page-AllSlabbed m ptr len xs a.1 h.1)

cleared-NotChunked :
    (m : Mem) (ptr len n : ℕ) → n ≤ len → NotChunked (clear_page m ptr len) ptr (ptr + n)
unfolding clear_page cleared
cleared-NotChunked m ptr len n h a l u = ground arith

-- A page that a class takes in, away from the chunks on its free list, adds all its chunks to the
-- free list.
pub install_page-IsFreelist :
    (settings : Settings) (s : Slabs) (ptr len id : ℕ) (xs : List ℕ)
    → let p = s.class id in
      power_smallest ≤ id
      → id ≤ s.power_largest
      → 1 ≤ p.size
      → p.perslab * p.size ≤ len
      → ptr ≢ 0
      → Apart ptr (ptr + len) xs
      → IsFreelist s id xs
      → IsFreelist (install_page settings s ptr len id) id (pushed p.perslab ptr p.size xs)
unfolding install_page split_slab_page_into_freelist
install_page-IsFreelist settings s ptr len id xs low high one room z a v =
    let p = s.class id in
    let m = clear_page s.mem ptr len in
    let split =
      split_chunks-IsFreelist settings id p.size low one p.perslab (record s { mem = m }) ptr xs
        high refl z (cleared-NotChunked s.mem ptr len (p.perslab * p.size) room)
        (Apart-narrow ptr ptr (ptr + len) (ptr + p.perslab * p.size) xs (omega arith)
          (omega (arith, room)) a)
        (record {
          links =
              Linked-SameLinks s.mem m 0 p.slots xs (same_page-SameLinks s.mem ptr len xs a)
                v.links;
          slabbed = same_page-AllSlabbed s.mem ptr len xs a v.slabbed;
          distinct = v.distinct;
          counted = v.counted;
        }) in
    record {
      links = ground (arith, split.links);
      slabbed = split.slabbed;
      distinct = split.distinct;
      counted = ground (arith, split.counted);
    }
