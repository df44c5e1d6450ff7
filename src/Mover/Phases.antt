-- ===== src/Mover/Phases.antt =====
-- The phases of a move: its start, the passes over the page, and its end.
use mathlib.Core.Path.{subst}
use analysis_memcached.Prelude.{
  ℕ, zero, suc, ◌+◌, ◌-◌, ◌*◌, ◌≤◌, ◌<◌, ◌≡◌, ◌≢◌, ◌⊎◌, inl, inr, refl, ap, ◌∙◌, Bool, true, false,
  not, ◌||◌, ltb, ◌==◌, if◌then◌else◌, if_elim, arith, length,
}
use analysis_memcached.Prelude.Int.{ℤ, pos, pos_part, eq_ℤ, ltb_ℤ}
use analysis_memcached.Item.{
  Settings, power_smallest, slab_global_page_pool, sizeof_item, sizeof_item_chunk, sizeof_cas,
  set_prev,
}
use analysis_memcached.Slabs.{
  Slabs, do_slabs_free, split_chunks, split_slab_page_into_freelist, clear_page, push_free,
  free_chunks, do_slabs_free_chunked, grow_slab_list,
}
use analysis_memcached.Slabs.Reassign.{Rebalance, bad_class}
use analysis_memcached.Mover.State.{Mover, source}
use analysis_memcached.Mover.{
  start_check, slab_rebalance_start, drop_first_page, add_page, settle_page, slab_rebalance_finish,
}

-- The pages of the classes are the same.
abbrev SamePages : Slabs → Slabs → Type 0
SamePages s t =
    (i : ℕ)
    → ((t.class i).slabs ≡ (s.class i).slabs) × ((t.class i).slab_list ≡ (s.class i).slab_list)

push-SamePages : (s : Slabs) (it id size : ℕ) → SamePages s (push_free s it id size)
unfolding push_free
push-SamePages s it id size i = ground arith

SamePages-trans : (s t u : Slabs) → SamePages s t → SamePages t u → SamePages s u
SamePages-trans s t u a b i = ((b i).0 ∙ (a i).0, (b i).1 ∙ (a i).1)

SamePages-refl : (s : Slabs) → SamePages s s
SamePages-refl s i = (refl, refl)

chunks-SamePages : (fuel : ℕ) (s : Slabs) (chunk : ℕ) → SamePages s (free_chunks fuel s chunk)
unfolding free_chunks
chunks-SamePages zero s chunk = SamePages-refl s
chunks-SamePages (suc fuel) s chunk =
    let c = s.mem chunk in
    let size = c.size + sizeof_item_chunk in
    let t = push_free s chunk c.slabs_clsid size in
    if_elim (SamePages s) (chunk == 0) (λ _. SamePages-refl s)
      (λ _.
        SamePages-trans s t (free_chunks fuel t c.next) (push-SamePages s chunk c.slabs_clsid size)
          (chunks-SamePages fuel t c.next))

free-SamePages :
    (settings : Settings) (fuel : ℕ) (s : Slabs) (ptr size id : ℕ)
    → SamePages s (do_slabs_free settings fuel s ptr size id)
unfolding do_slabs_free do_slabs_free_chunked
free-SamePages settings fuel s ptr size id =
    let header = s.mem ptr in
    let chunk = s.mem header.first_chunk in
    let header_size =
      length header.key
      + 1
      + header.nsuffix
      + sizeof_item
      + sizeof_item_chunk
      + (if settings.use_cas then sizeof_cas else 0) in
    let detached : Slabs = record s { mem = set_prev s.mem chunk.next 0 } in
    let t = push_free detached ptr chunk.orig_clsid header_size in
    if_elim (SamePages s) (ltb id power_smallest || ltb s.power_largest id) (λ _. SamePages-refl s)
      λ _.
        if_elim (SamePages s) (not (s.mem ptr).it_flags.chunked) (λ _. push-SamePages s ptr id size)
          (λ _.
            SamePages-trans s t (free_chunks fuel t chunk.next)
              (push-SamePages detached ptr chunk.orig_clsid header_size)
              (chunks-SamePages fuel t chunk.next))

split-SamePages :
    (settings : Settings) (left : ℕ) (s : Slabs) (ptr id : ℕ)
    → SamePages s (split_chunks settings left s ptr id)
unfolding split_chunks
split-SamePages settings zero s ptr id = SamePages-refl s
split-SamePages settings (suc left) s ptr id =
    let t = do_slabs_free settings 0 s ptr 0 id in
    let next = ptr + (s.class id).size in
    SamePages-trans s t (split_chunks settings left t next id)
      (free-SamePages settings 0 s ptr 0 id) (split-SamePages settings left t next id)

settle-SamePages :
    (settings : Settings) (s : Slabs) (id ptr : ℕ)
    → slab_global_page_pool < id
    → SamePages s (settle_page settings s id ptr)
unfolding settle_page split_slab_page_into_freelist
settle-SamePages settings s id ptr h =
    let t : Slabs = record s { mem = clear_page s.mem ptr settings.slab_page_size } in
    if_elim (SamePages s) (ltb slab_global_page_pool id)
      (λ _. split-SamePages settings (s.class id).perslab t ptr id)
      (λ e. absurd (ground (arith, e, h)))

-- The page lists after the move of the first page of class `src` to the end of class `dst`.
pub record Moved (src dst ptr : ℕ) (s t : Slabs) : Type 0 where
  pub given : (t.class src).slabs ≡ (s.class src).slabs - 1
  pub shifted :
      (i : ℕ)
      → i < (s.class src).slabs - 1
      → (t.class src).slab_list i ≡ (s.class src).slab_list (i + 1)
  pub gained : (t.class dst).slabs ≡ (s.class dst).slabs + 1
  pub last : (t.class dst).slab_list (s.class dst).slabs ≡ ptr
  pub stayed :
      (i : ℕ) → i < (s.class dst).slabs → (t.class dst).slab_list i ≡ (s.class dst).slab_list i
  pub others :
      (i : ℕ)
      → i ≢ src
      → i ≢ dst
      → ((t.class i).slabs ≡ (s.class i).slabs) × ((t.class i).slab_list ≡ (s.class i).slab_list)

lists-Moved :
    (s : Slabs) (src dst ptr : ℕ)
    → src ≢ dst
    → Moved src dst ptr s (add_page (drop_first_page s src) dst ptr)
unfolding add_page drop_first_page
lists-Moved s src dst ptr n = record {
  given = ground arith;
  shifted = λ i h. ground arith;
  gained = ground arith;
  last = ground arith;
  stayed = λ i h. ground (arith, h);
  others = λ i a b. ground arith;
}

-- The end of a move to a class takes the first page off the list of the source and puts it at the end
-- of the list of the destination, whose other pages and those of all other classes stay; the
-- request is served.
pub slab_rebalance_finish-Moved :
    (settings : Settings) (m : Mover)
    → source m ≢ pos_part m.rebal.d_clsid
    → slab_global_page_pool < pos_part m.rebal.d_clsid
    → let r = slab_rebalance_finish settings m in
      Moved (source m) (pos_part m.rebal.d_clsid) m.page.slab_start m.world.slabs r.world.slabs
      × (r.rebal.signal ≡ 0)
      × (r.page.slab_start ≡ 0)
unfolding slab_rebalance_finish
slab_rebalance_finish-Moved settings m n h =
    let src = source m in
    let dst = pos_part m.rebal.d_clsid in
    let ptr = m.page.slab_start in
    let added = add_page (drop_first_page m.world.slabs src) dst ptr in
    let same = settle-SamePages settings added dst ptr h in
    let v = lists-Moved m.world.slabs src dst ptr n in
    (
      record {
        given = (same src).0 ∙ v.given;
        shifted = λ i l. ap (λ (g : ℕ → ℕ). g i) (same src).1 ∙ v.shifted i l;
        gained = (same dst).0 ∙ v.gained;
        last = ap (λ (g : ℕ → ℕ). g (m.world.slabs.class dst).slabs) (same dst).1 ∙ v.last;
        stayed = λ i l. ap (λ (g : ℕ → ℕ). g i) (same dst).1 ∙ v.stayed i l;
        others = λ i a b. ((same i).0 ∙ (v.others i a b).0, (same i).1 ∙ (v.others i a b).1);
      },
      refl,
      refl,
    )

-- What the start of a move leaves: it is begun at the first page of the source, which has another
-- page, or refused with a negative result, and then the request and the page are as they were.
abbrev pub Started : Mover → Mover × ℤ → Type 0
Started m (r, code) =
    let p = m.world.slabs.class (source m) in
    ((code ≡ pos 0)
      × (2 ≤ p.slabs)
      × (r.rebal.signal ≡ 2)
      × (r.page.slab_start ≡ p.slab_list 0)
      × (r.page.slab_pos ≡ p.slab_list 0)
      × (r.page.slab_end ≡ p.slab_list 0 + p.size * p.perslab)
      × (eq_ℤ m.rebal.s_clsid m.rebal.d_clsid ≡ false)
      × (r.page.done ≡ (if source m == slab_global_page_pool then 1 else 0)))
    ⊎ ((ltb_ℤ code (pos 0) ≡ true) × (r.rebal ≡ m.rebal) × (r.page ≡ m.page))

Checked : Slabs → Rebalance → ℤ → Type 0
Checked s b r =
    ((r ≡ pos 0) × (2 ≤ (s.class (pos_part b.s_clsid)).slabs) × (eq_ℤ b.s_clsid b.d_clsid ≡ false))
    ⊎ ((eq_ℤ r (pos 0) ≡ false) × (ltb_ℤ r (pos 0) ≡ true))

check-Checked : (s : Slabs) (b : Rebalance) (grown : Bool) → Checked s b (start_check s b grown)
unfolding start_check Checked
check-Checked s b grown =
    let d = eq_ℤ b.s_clsid b.d_clsid in
    let bad = bad_class s b.s_clsid || bad_class s b.d_clsid in
    if_elim (Checked s b) (ltb (s.class (pos_part b.s_clsid)).slabs 2) (λ _. inr (refl, refl))
      λ n.
        if_elim (Checked s b) (not grown) (λ _. inr (refl, refl))
          λ _.
            if_elim (Checked s b) (bad || d) (λ _. inr (refl, refl))
              (λ e. inl (refl, two_pages (s.class (pos_part b.s_clsid)).slabs n, neither bad d e))
  where
    two_pages : (n : ℕ) → ltb n 2 ≡ false → 2 ≤ n
    two_pages n e = ground (arith, e)

    neither : (a b : Bool) → (a || b) ≡ false → b ≡ false
    neither a b e = ground (arith, e)

grown_class :
    (s : Slabs) (id : ℕ) (granted : Bool) (i : ℕ)
    → let t = (grow_slab_list s id granted).0 in
      ((t.class i).slabs ≡ (s.class i).slabs)
      × ((t.class i).slab_list ≡ (s.class i).slab_list)
      × ((t.class i).size * (t.class i).perslab ≡ (s.class i).size * (s.class i).perslab)
unfolding grow_slab_list
grown_class s id granted i = ground arith

-- A start of a move leaves the request and the page alone when it is refused, and begins at the first
-- page of the source otherwise, which is another class than the destination and keeps a page.
pub slab_rebalance_start-Started :
    (m : Mover) (granted : Bool) → Started m (slab_rebalance_start m granted)
unfolding slab_rebalance_start Checked
slab_rebalance_start-Started m granted =
    let g = grow_slab_list m.world.slabs (pos_part m.rebal.d_clsid) granted in
    let s = g.0 in
    let r = start_check s m.rebal g.1 in
    let same = grown_class m.world.slabs (pos_part m.rebal.d_clsid) granted (source m) in
    let first = ap (λ (l : ℕ → ℕ). l 0) same.1 in
    let check = check-Checked s m.rebal g.1 in
    if_elim (Started m) (eq_ℤ r (pos 0))
      (λ e. (elim check [
        | inl c ↦ inl (
          c.0,
          subst (λ n. 2 ≤ n) same.0 c.1,
          refl,
          first,
          first,
          ap (λ (a : ℕ). a + (s.class (source m)).size * (s.class (source m)).perslab) first
              ∙ ap (λ (a : ℕ). (m.world.slabs.class (source m)).slab_list 0 + a) same.2,
          c.2,
          refl,
        )
        | inr c ↦ absurd (true_false e c.0)
      ]))
      (λ e. (elim check [
        | inl c ↦ absurd (true_false (ap (λ (z : ℤ). eq_ℤ z (pos 0)) c.0) e)
        | inr c ↦ inr (c.1, refl, refl)
      ]))
  where
    true_false : {b : Bool} → b ≡ true → b ≡ false → ⊥
    true_false e n = ground (arith, e, n)
