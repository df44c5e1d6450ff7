-- ===== src/Store/Copy.antt =====
-- slabs_curd/memcached.c: the values of two items joined into a third. The bytes of an item or a
-- chunk are its `value`. The loops run on the fuel `copies`.
use analysis_memcached.Prelude.{
  ℕ, zero, suc, ◌+◌, ◌-◌, Bool, true, not, ◌&&◌, ◌||◌, List, ◌++◌, take, drop, ltb, ◌==◌,
  if◌then◌else◌,
}
use analysis_memcached.Item.{Settings}
use analysis_memcached.Slabs.Reassign.{Rebalance}
use analysis_memcached.Items.{World, item_at, set_item}
use analysis_memcached.Items.Alloc.{Answers, do_item_alloc_chunk}

-- What other code answers: the bytes of struct lru_bump_entry, the hash of a key, the length of the
-- suffix that snprintf prints, and the fuel for the chunks that are freed, for the walks of
-- lru_pull_tail and for the loops over chunks.
pub record Env : Type 0 where
  pub encode : ℕ → ℕ → List ℕ
  pub hash : List ℕ → ℕ
  pub printed : ℕ → ℕ → ℕ
  pub chunks : ℕ
  pub walks : ℕ
  pub copies : ℕ

-- The state of a copy: `dch` is the chunk that is being filled; `ok` is false for the result -1.
pub record Copy : Type 0 where
  pub world : World
  pub rebal : Rebalance
  pub dch : ℕ
  pub ok : Bool

-- The first chunk from `dch` on with free space, or the last.
unfoldable pub find_space : ℕ → World → ℕ → ℕ
find_space zero w dch = dch
find_space (suc fuel) w dch =
    let d = item_at w dch in
    let later = find_space fuel w d.next in
    if d.size == d.used && not (d.next == 0) then later else dch

abbrev smaller : ℕ → ℕ → ℕ
smaller a b = if ltb a b then a else b

-- Bytes for the free space of a chunk.
unfoldable pub append_bytes : World → ℕ → List ℕ → ℕ → World
append_bytes w dch bytes todo =
    let d = item_at w dch in
    set_item w dch (record d { value = take d.used d.value ++ bytes; used = d.used + todo })

module _ (env : Env) (settings : Settings) (grants : ℕ → Answers) where
  -- A chunk that is full is followed by a new one.
  unfoldable pub next_chunk : ℕ → World → Rebalance → ℕ → Copy
  unfolding do_item_alloc_chunk
  next_chunk remain w b dch =
      let d = item_at w dch in
      let r = do_item_alloc_chunk env.hash settings env.chunks env.walks dch remain grants w b in
      if d.size == d.used
      then record {
        world = r.world;
        rebal = r.rebal;
        dch = if r.it == 0 then dch else r.it;
        ok = not (r.it == 0);
      }
      else record { world = w; rebal = b; dch = dch; ok = true }

  -- The bytes `data` that are left of an item that is not chunked, `left` in number.
  unfoldable pub copy_plain : ℕ → Copy → List ℕ → ℕ → Copy
  unfolding append_bytes next_chunk
  copy_plain zero s bytes left = s
  copy_plain (suc fuel) s bytes left =
      let d = item_at s.world s.dch in
      let todo = smaller (d.size - d.used) left in
      let filled = append_bytes s.world s.dch (take todo bytes) todo in
      let t = next_chunk (left - todo) filled s.rebal s.dch in
      let rest = copy_plain fuel t (drop todo bytes) (left - todo) in
      if left == 0 || s.dch == 0 then s else if t.ok then rest else t

  -- The chunk `sch` of the source, of which `copied` bytes are done; `remain` are to be copied.
  unfoldable pub copy_chunked : ℕ → Copy → ℕ → ℕ → ℕ → Copy
  unfolding append_bytes next_chunk
  copy_chunked zero s sch copied remain = s
  copy_chunked (suc fuel) s sch copied remain =
      let d = item_at s.world s.dch in
      let source = item_at s.world sch in
      let todo = smaller (smaller (d.size - d.used) (source.used - copied)) remain in
      let bytes = take todo (drop copied source.value) in
      let filled = append_bytes s.world s.dch bytes todo in
      let t = next_chunk (remain - todo) filled s.rebal s.dch in
      let whole = copied + todo == (item_at t.world sch).used in
      let next_sch = if whole then (item_at t.world sch).next else sch in
      let next_copied = if whole then 0 else copied + todo in
      let rest = copy_chunked fuel t next_sch next_copied (remain - todo) in
      if sch == 0 || s.dch == 0 || remain == 0 then s else if t.ok then rest else t

  -- _store_item_copy_chunks
  unfoldable pub store_item_copy_chunks : World → Rebalance → ℕ → ℕ → ℕ → Copy
  unfolding find_space copy_plain copy_chunked
  store_item_copy_chunks w b d_it s_it len =
      let s : Copy = record {
        world = w;
        rebal = b;
        dch = find_space env.copies w (item_at w d_it).first_chunk;
        ok = true;
      } in
      let source = item_at w s_it in
      if source.it_flags.chunked
      then copy_chunked env.copies s source.first_chunk 0 len
      else copy_plain env.copies s source.value len

-- Two copies, the second after the first has succeeded.
unfoldable pub copy_both : Copy → (Copy → Copy) → Copy
copy_both s second = if s.ok then second s else s

-- _store_item_copy_data: the values of `first` and `second`, without the end of line of the first.
unfoldable pub join_values : World → ℕ → ℕ → ℕ → World
join_values w new_it first second =
    let f = item_at w first in
    let s = item_at w second in
    set_item w new_it
      (record (item_at w new_it) { value = take (f.nbytes - 2) f.value ++ take s.nbytes s.value })

module _ (env : Env) (settings : Settings) (grants : ℕ → ℕ → Answers) where
  unfoldable pub join : World → Rebalance → ℕ → ℕ → ℕ → Copy
  unfolding store_item_copy_chunks copy_both join_values
  join w b new_it first second =
      let f = item_at w first in
      let s = item_at w second in
      let head = store_item_copy_chunks env settings (grants 0) w b new_it first (f.nbytes - 2) in
      if (item_at w new_it).it_flags.chunked
      then copy_both head (λ (h : Copy).
        store_item_copy_chunks env settings (grants 1) h.world h.rebal new_it second
          (item_at h.world second).nbytes)
      else record { world = join_values w new_it first second; rebal = b; dch = 0; ok = true }

  unfoldable pub copy_data : Bool → ℕ → ℕ → ℕ → World → Rebalance → Copy
  unfolding join
  copy_data appends old_it new_it add_it w b =
      if appends then join w b new_it old_it add_it else join w b new_it add_it old_it
