-- ===== src/Store.antt =====
-- slabs_curd/memcached.c: the storing commands and the arithmetic on numeric items. Connections keep
-- of the thread's state what Thread has; `cas` is c->cas. What other code answers is in Env.
mod Copy
unfoldable pub use Copy.*
pub mod Outcome
pub mod Delta
mod Tests
use analysis_memcached.Prelude.{
  ℕ, zero, suc, ◌+◌, ◌-◌, ◌%◌, ◌^◌, Bool, true, false, not, ◌&&◌, ◌||◌, Option, none, some, List,
  [], ◌∷◌, ◌++◌, length, ltb, leb, ◌==◌, if◌then◌else◌,
}
use analysis_memcached.Prelude.Memory.{update}
use analysis_memcached.Item.{Item, Settings, item_get_cas, item_clsid}
use analysis_memcached.Slabs.Reassign.{Rebalance}
use analysis_memcached.Items.{
  World, item_at, set_item, do_item_remove, do_item_replace, do_item_link, do_item_update,
}
use analysis_memcached.Items.Get.{Thread, do_item_get}
use analysis_memcached.Items.Alloc.{Alloc, Answers, do_item_alloc}

-- The commands, and what a command answers.
pub data Comm : Type 0 where
  nread_add : Comm
  nread_set : Comm
  nread_replace : Comm
  nread_append : Comm
  nread_prepend : Comm
  nread_cas : Comm

pub data StoreItem : Type 0 where
  not_stored : StoreItem
  stored : StoreItem
  exists : StoreItem
  not_found : StoreItem
  too_large : StoreItem
  not_memory : StoreItem

-- The state of a command; `it` is the item to store, `new_it` the joined item, 0 for NULL.
pub record Storing : Type 0 where
  pub world : World
  pub rebal : Rebalance
  pub thread : Thread
  pub cas : ℕ
  pub it : ℕ
  pub new_it : ℕ
  pub result : StoreItem

abbrev pub is_stored : StoreItem → Bool
is_stored not_stored = false
is_stored stored = true
is_stored exists = false
is_stored not_found = false
is_stored too_large = false
is_stored not_memory = false

abbrev cas_of : World → ℕ → ℕ
cas_of w it = item_get_cas (item_at w it)

-- The flags of the client, recovered from the item's suffix.
unfoldable pub flags_of : Settings → Item → ℕ
flags_of settings c =
    if settings.inline_ascii_response
    then c.client_flags
    else if ltb 0 c.nsuffix
    then c.client_flags
    else 0

module _ (env : Env) (settings : Settings) where
  unfoldable pub release : World → Option ℕ → World
  unfolding do_item_remove
  release w none = w
  release w (some it) = do_item_remove settings env.chunks w it

  -- item_replace of the old item, or do_item_link where there is none.
  unfoldable pub put : World → ℕ → ℕ → Option ℕ → World
  unfolding do_item_replace do_item_link
  put w it hv none = do_item_link settings w it hv
  put w it hv (some old_it) = do_item_replace settings env.chunks w old_it it hv

  -- The item takes its place in the cache.
  unfoldable pub store_put : Storing → ℕ → Option ℕ → Storing
  unfolding put item_get_cas
  store_put s hv old =
      let w = put s.world s.it hv old in
      record s { world = w; cas = item_get_cas (item_at w s.it); result = stored }

  unfoldable pub store_cas : Storing → ℕ → Option ℕ → Storing
  unfolding item_get_cas item_clsid do_item_replace
  store_cas s hv none = record s {
    thread = record (s.thread) { cas_misses = s.thread.cas_misses + 1 };
    result = not_found;
  }
  store_cas s hv (some old_it) =
      let id = item_clsid (item_at s.world old_it) in
      if item_get_cas (item_at s.world s.it) == item_get_cas (item_at s.world old_it)
      then record s {
        thread = record (s.thread) {
          cas_hits = update s.thread.cas_hits id (s.thread.cas_hits id + 1);
        };
        world = do_item_replace settings env.chunks s.world old_it s.it hv;
        result = stored;
      }
      else record s {
        thread = record (s.thread) {
          cas_badval = update s.thread.cas_badval id (s.thread.cas_badval id + 1);
        };
        result = exists;
      }

  -- The joined item could not be filled: it is given up.
  unfoldable pub store_failed : Storing → Storing
  unfolding do_item_remove
  store_failed s =
      if s.new_it == 0
      then s
      else record s { world = do_item_remove settings env.chunks s.world s.new_it }

  -- Append and prepend; `appends` tells which.
  unfoldable pub store_joined : Bool → (ℕ → Answers) → (ℕ → ℕ → Answers) → Storing → ℕ → ℕ → Storing
  unfolding do_item_alloc copy_data store_put store_failed item_get_cas flags_of
  store_joined appends answers grants s hv old_it =
      let c = item_at s.world s.it in
      let old = item_at s.world old_it in
      let r =
        do_item_alloc env.hash settings env.chunks env.walks env.printed c.key
          (flags_of settings old) old.exptime (c.nbytes + old.nbytes - 2) answers s.world s.rebal in
      let copied = copy_data env settings grants appends old_it r.it s.it r.world r.rebal in
      let made = record s { world = copied.world; rebal = copied.rebal; new_it = r.it } in
      if not (item_get_cas c == 0) && not (item_get_cas c == item_get_cas old)
      then record s { result = exists }
      else if r.it == 0
      then record s { world = r.world; rebal = r.rebal }
      else if copied.ok
      then store_put (record made { it = r.it }) hv (some old_it)
      else store_failed made

  -- The branches of the command, for the item that the key has now.
  unfoldable pub store_branch :
      Comm → (ℕ → Answers) → (ℕ → ℕ → Answers) → Storing → ℕ → Option ℕ → Storing
  unfolding store_put store_cas store_joined do_item_update
  store_branch nread_add answers grants s hv none = store_put s hv none
  store_branch nread_add answers grants s hv (some old_it) = record s {
    world = do_item_update settings s.world old_it;
  }
  store_branch nread_set answers grants s hv old = store_put s hv old
  store_branch nread_replace answers grants s hv none = s
  store_branch nread_replace answers grants s hv (some old_it) = store_put s hv (some old_it)
  store_branch nread_append answers grants s hv none = s
  store_branch nread_append answers grants s hv (some old_it) =
      store_joined true answers grants s hv old_it
  store_branch nread_prepend answers grants s hv none = s
  store_branch nread_prepend answers grants s hv (some old_it) =
      store_joined false answers grants s hv old_it
  store_branch nread_cas answers grants s hv old = store_cas s hv old

  -- The references to the old and to the joined item are given up.
  unfoldable pub store_finish : Option ℕ → Storing → Storing
  unfolding release do_item_remove item_get_cas
  store_finish old s =
      let w = release s.world old in
      let v = if s.new_it == 0 then w else do_item_remove settings env.chunks w s.new_it in
      record s {
        world = v;
        cas = if is_stored s.result then item_get_cas (item_at v s.it) else s.cas;
      }

  unfoldable pub do_store_item :
      (ℕ → Answers) → (ℕ → ℕ → Answers) → World → Rebalance → Thread → ℕ → ℕ → Comm → ℕ → Storing
  unfolding do_item_get store_branch store_finish
  do_store_item answers grants w b c cas it comm hv =
      let (v, d, old) =
        do_item_get env.encode settings env.chunks w c (item_at w it).key hv false in
      let s : Storing = record {
        world = v;
        rebal = b;
        thread = d;
        cas = cas;
        it = it;
        new_it = 0;
        result = not_stored;
      } in
      store_finish old (store_branch comm answers grants s hv old)
