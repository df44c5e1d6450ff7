-- ===== src/Store/Delta.antt =====
-- slabs_curd/memcached.c: incr and decr, and slabs_curd/util.c: safe_strtoull. `strtoull` is the C
-- function: the number, how many characters were read, and whether ERANGE was set; `decimal` is
-- the text that snprintf prints for a number, which has less than INCR_MAX_STORAGE_LEN characters.
pub mod Kept
use analysis_memcached.Prelude.{
  ℕ, zero, suc, ◌+◌, ◌-◌, ◌%◌, ◌^◌, Bool, true, false, not, ◌&&◌, ◌||◌, Option, none, some, List,
  [], ◌∷◌, ◌++◌, length, take, drop, ltb, leb, ◌==◌, if◌then◌else◌,
}
use analysis_memcached.Prelude.Memory.{update}
use analysis_memcached.Item.{Item, Settings, item_get_cas, item_set_cas, item_clsid}
use analysis_memcached.Assoc.{Key}
use analysis_memcached.Slabs.Reassign.{Rebalance}
use analysis_memcached.Items.{
  World, item_at, set_item, get_cas_id, do_item_remove, do_item_replace, do_item_update,
  item_stats_sizes_add, item_stats_sizes_remove,
}
use analysis_memcached.Items.Get.{Thread, do_item_get}
use analysis_memcached.Items.Alloc.{Alloc, Answers, do_item_alloc}
use analysis_memcached.Store.{Env, flags_of}

pub data DeltaResult : Type 0 where
  ok : DeltaResult
  non_numeric : DeltaResult
  eom : DeltaResult
  delta_item_not_found : DeltaResult
  delta_item_cas_mismatch : DeltaResult

-- What a call leaves: `cas` is what the pointer holds, none for NULL; `buf` is the response.
pub record Delta : Type 0 where
  pub world : World
  pub rebal : Rebalance
  pub thread : Thread
  pub cas : Option ℕ
  pub buf : List ℕ
  pub result : DeltaResult

-- The functions of the C library.
pub record Libc : Type 0 where
  pub strtoull : List ℕ → ℕ × ℕ × Bool
  pub isspace : ℕ → Bool
  pub decimal : ℕ → List ℕ

abbrev minus_sign : ℕ
minus_sign = 45

abbrev blank : ℕ
blank = 32

abbrev blanks : ℕ → List ℕ
blanks zero = []
blanks (suc n) = blank ∷ blanks n

abbrev holds : ℕ → List ℕ → Bool
holds x [] = false
holds x (y ∷ ys) = x == y || holds x ys

-- The text after the number starts with white space, or is at its end.
abbrev ends_number : (ℕ → Bool) → List ℕ → Bool
ends_number isspace [] = true
ends_number isspace (x ∷ xs) = isspace x || x == 0

unfoldable pub safe_strtoull : Libc → List ℕ → Option ℕ
safe_strtoull libc str =
    let (ull, used, range) = libc.strtoull str in
    if range || used == 0
    then none
    else if ends_number libc.isspace (drop used str)
    then (if leb (2 ^ 63) ull && holds minus_sign str then none else some ull)
    else none

unfoldable pub new_value : Bool → ℕ → ℕ → ℕ
new_value incr delta value =
    if incr then (value + delta) % 2 ^ 64 else if ltb value delta then 0 else value - delta

-- A CAS id of 0 matches any item.
unfoldable pub cas_differs : Option ℕ → Item → Bool
unfolding item_get_cas
cas_differs none c = false
cas_differs (some cas) c = not (cas == 0) && not (item_get_cas c == cas)

abbrev pub count_hit : Bool → Thread → ℕ → Thread
count_hit incr c id =
    if incr
    then record c { incr_hits = update c.incr_hits id (c.incr_hits id + 1) }
    else record c { decr_hits = update c.decr_hits id (c.decr_hits id + 1) }

module _ (env : Env) (libc : Libc) (settings : Settings) where
  -- The number is written over the old one, with blanks behind it, and the item has a new CAS id.
  unfoldable pub write_in_place : World → ℕ → List ℕ → World
  unfolding item_stats_sizes_remove item_stats_sizes_add get_cas_id item_set_cas do_item_update
  write_in_place w it buf =
      let removed = item_stats_sizes_remove w it in
      let (fresh, id) = get_cas_id removed in
      let named =
        if settings.use_cas
        then set_item fresh it (item_set_cas (item_at fresh it) id)
        else set_item removed it (item_set_cas (item_at removed it) 0) in
      let added = item_stats_sizes_add named it in
      let c = item_at added it in
      let pad = c.nbytes - length buf - 2 in
      do_item_update settings
        (set_item added it
          (record c { value = buf ++ blanks pad ++ drop (length buf + pad) c.value }))
        it

  -- A new item with the number takes the old one's place; the old item is given its CAS id.
  unfoldable pub write_anew : World → ℕ → ℕ → List ℕ → ℕ → World
  unfolding do_item_replace item_set_cas item_get_cas do_item_remove
  write_anew w it new_it buf hv =
      let written = set_item w new_it (record (item_at w new_it) { value = buf ++ 13 ∷ 10 ∷ [] }) in
      let replaced = do_item_replace settings env.chunks written it new_it hv in
      let cas = if settings.use_cas then item_get_cas (item_at replaced new_it) else 0 in
      do_item_remove settings env.chunks
        (set_item replaced it (item_set_cas (item_at replaced it) cas)) new_it

  -- The end of a command that succeeded.
  unfoldable pub delta_done : Delta → ℕ → World → Delta
  unfolding do_item_remove item_get_cas
  delta_done s it w = record s {
    world = do_item_remove settings env.chunks w it;
    cas = elim s.cas [ none ↦ none | some old ↦ some (item_get_cas (item_at w it)) ];
    result = ok;
  }

  -- The number is stored in the item, in a new one, or not at all.
  unfoldable pub delta_store : (ℕ → Answers) → Delta → ℕ → ℕ → List ℕ → Delta
  unfolding write_in_place write_anew delta_done do_item_alloc do_item_remove flags_of
  delta_store answers s it hv buf =
      let c = item_at s.world it in
      let r =
        do_item_alloc env.hash settings env.chunks env.walks env.printed c.key (flags_of settings c)
          c.exptime (length buf + 2) answers s.world s.rebal in
      let made = record s { rebal = r.rebal } in
      if leb (length buf + 2) c.nbytes && c.refcount == 2
      then delta_done s it (write_in_place s.world it buf)
      else if ltb 1 c.refcount
      then (if r.it == 0
          then record made { world = do_item_remove settings env.chunks r.world it; result = eom }
          else delta_done made it (write_anew r.world it r.it buf hv))
      else record s {
        world = if c.refcount == 1 then do_item_remove settings env.chunks s.world it else s.world;
        result = delta_item_not_found;
      }

  unfoldable pub delta_number : Bool → ℕ → (ℕ → Answers) → Delta → ℕ → ℕ → Option ℕ → Delta
  unfolding delta_store new_value do_item_remove item_clsid
  delta_number incr delta answers s it hv none = record s {
    world = do_item_remove settings env.chunks s.world it;
    result = non_numeric;
  }
  delta_number incr delta answers s it hv (some value) =
      let buf = libc.decimal (new_value incr delta value) in
      let counted = count_hit incr s.thread (item_clsid (item_at s.world it)) in
      delta_store answers (record s { thread = counted; buf = buf }) it hv buf

  unfoldable pub delta_found : Bool → ℕ → (ℕ → Answers) → Delta → ℕ → Option ℕ → Delta
  unfolding cas_differs safe_strtoull delta_number do_item_remove
  delta_found incr delta answers s hv none = record s { result = delta_item_not_found }
  delta_found incr delta answers s hv (some it) =
      let c = item_at s.world it in
      if leb c.nbytes 2 || c.it_flags.chunked
      then record s { result = non_numeric }
      else if cas_differs s.cas c
      then record s {
        world = do_item_remove settings env.chunks s.world it;
        result = delta_item_cas_mismatch;
      }
      else delta_number incr delta answers s it hv (safe_strtoull libc c.value)

  unfoldable pub do_add_delta :
      (ℕ → Answers) → World → Rebalance → Thread → Key → Bool → ℕ → Option ℕ → ℕ → Delta
  unfolding do_item_get delta_found
  do_add_delta answers w b c key incr delta cas hv =
      let (v, d, found) = do_item_get env.encode settings env.chunks w c key hv false in
      delta_found incr delta answers
        record { world = v; rebal = b; thread = d; cas = cas; buf = []; result = non_numeric } hv
        found
