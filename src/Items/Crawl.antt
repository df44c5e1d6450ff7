-- ===== src/Items/Crawl.antt =====
-- memory_lru/items.c: the placeholder of the crawler in a queue. It is linked in at the tail, moves
-- past one item at a time towards the head, and is taken out. It is not counted in the sizes of the
-- queue.
pub mod Swing
pub mod Relinked
pub mod Pass
pub mod Visits
mod Tests
use mathlib.Core.Path.{subst}
use analysis_memcached.Prelude.{
  ℕ, ◌+◌, ◌≡◌, ◌≢◌, ◌⊎◌, inl, inr, refl, sym, ap, ◌∙◌, Bool, true, false, not, List, [], ◌∷◌, ◌++◌,
  ◌==◌, if◌then◌else◌, if_elim, arith, Fresh, Distinct, ◌&&◌,
}
use analysis_memcached.Prelude.Memory.{update}
use analysis_memcached.Item.{Item, Mem, set_prev, set_next}
use analysis_memcached.Item.Links.{Linked, last, SameLinks, Linked-SameLinks}
use analysis_memcached.Item.Bypass.{
  bypass, bypass-Linked, last-cut, first, links_of, Linked-Fresh, middle-Fresh, last-ne, first-ne,
  Fresh-append-right, Fresh-append-left,
}
use analysis_memcached.Items.{World, item_at, with_mem}

unfoldable pub do_item_linktail_q : World → ℕ → World
do_item_linktail_q w it =
    let id = (item_at w it).slabs_clsid in
    let tail = w.tails id in
    let linked = update w.slabs.mem it (record (item_at w it) { prev = tail; next = 0 }) in
    record (with_mem w (set_next linked tail it)) {
      tails = update w.tails id it;
      heads = if w.heads id == 0 then update w.heads id it else w.heads;
    }

unfoldable pub do_item_unlinktail_q : World → ℕ → World
do_item_unlinktail_q w it =
    let c = item_at w it in
    let id = c.slabs_clsid in
    record (with_mem w (bypass w.slabs.mem it)) {
      heads = if w.heads id == it then update w.heads id c.next else w.heads;
      tails = if w.tails id == it then update w.tails id c.prev else w.tails;
    }

-- The item is cut out, and then linked in front of the item before it.
unfoldable pub cut_out : Mem → ℕ → Mem
cut_out m it = let c = m it in set_prev (set_next m c.prev c.next) c.next c.prev

unfoldable pub link_before : Mem → ℕ → Mem
link_before m it =
    let y = (m it).prev in
    let m₁ = update m it (record (m it) { next = y; prev = (m y).prev }) in
    let m₂ = set_prev m₁ y it in set_next m₂ (m₂ it).prev it

unfoldable pub swing : Mem → ℕ → Mem
unfolding cut_out link_before
swing m it = link_before (cut_out m it) it

-- The result is the item to look at, 0 for NULL.
unfoldable pub do_item_crawl_q : World → ℕ → World × ℕ
unfolding swing
do_item_crawl_q w it =
    let c = item_at w it in
    let id = c.slabs_clsid in
    let m = swing w.slabs.mem it in
    if c.prev == 0
    then (
      if c.next == 0 then w else record (with_mem w (set_prev w.slabs.mem c.next 0)) {
        heads = update w.heads id c.next;
      },
      0,
    )
    else (
      record (with_mem w m) {
        heads = if w.heads id == c.prev then update w.heads id it else w.heads;
        tails = if w.tails id == it then update w.tails id c.prev else w.tails;
      },
      (m it).next,
    )
