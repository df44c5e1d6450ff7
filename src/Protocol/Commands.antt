-- ===== src/Protocol/Commands.antt =====
-- thread/memcached.c: the commands of the text protocol that change items, and the end of a storing
-- command. A command is given the texts of its tokens, `tok i`, and their number; its functions
-- item_get, item_touch, item_unlink, item_remove and store_item are the do_ functions with the hash of
-- the key. The counters of the thread that nothing else reads are left out, and so is logging.
use analysis_memcached.Prelude.{
  ℕ, ◌+◌, ◌-◌, ◌^◌, Bool, true, false, ◌&&◌, ◌||◌, Option, none, some, List, [], ◌∷◌, length, take,
  drop, ltb, ◌==◌, if◌then◌else◌,
}
use analysis_memcached.Prelude.Int.{ℤ, pos, negsuc}
use analysis_memcached.Prelude.Text.{codes}
use analysis_memcached.Item.{Settings, item_set_cas}
use analysis_memcached.PrefixStats.{Prefixes, stats_prefix_record_set, stats_prefix_record_delete}
use analysis_memcached.Slabs.Reassign.{Rebalance}
use analysis_memcached.Items.{World, item_at, set_item, do_item_unlink, do_item_remove}
use analysis_memcached.Items.Get.{Thread, do_item_get, do_item_touch}
use analysis_memcached.Items.Alloc.{Answers, do_item_alloc}
use analysis_memcached.Store.{
  Env, Comm, nread_set, StoreItem, not_stored, stored, exists, not_found, too_large, not_memory,
  do_store_item,
}
use analysis_memcached.Store.Delta.{
  Libc, DeltaResult, ok, non_numeric, eom, delta_item_not_found, delta_item_cas_mismatch,
  safe_strtoull, do_add_delta,
}
use analysis_memcached.Protocol.Conn.{Conn, out_string, out_of_memory, conn_nread, conn_swallow}

-- What the commands share with the rest of the server.
pub record Server : Type 0 where
  pub world : World
  pub rebal : Rebalance
  pub thread : Thread
  pub prefixes : Prefixes

-- What the commands call that has no source here, the settings, and the answers to an allocation;
-- `msghdr_made` is that of add_msghdr.
pub record Calls : Type 0 where
  pub env : Env
  pub libc : Libc
  pub settings : Settings
  pub detail_enabled : Bool
  pub prefix_hash : List ℕ → ℕ
  pub prefix_delimiter : ℕ
  pub prefix_allocated : Bool
  pub safe_strtoul : List ℕ → Option ℕ
  pub safe_strtol : List ℕ → Option ℤ
  pub realtime : ℤ → ℕ
  pub realtime_maxdelta : ℕ
  pub msghdr_made : Bool
  pub item_size_ok : ℕ → ℕ → ℕ → Bool
  pub answers : ℕ → Answers
  pub grants : ℕ → ℕ → Answers

abbrev pub key_max_length : ℕ
key_max_length = 250

-- strcmp(s, t) == 0
abbrev pub strcmp_eq : List ℕ → List ℕ → Bool
strcmp_eq [] [] = true
strcmp_eq [] (y ∷ ys) = false
strcmp_eq (x ∷ xs) [] = false
strcmp_eq (x ∷ xs) (y ∷ ys) = x == y && strcmp_eq xs ys

unfoldable pub set_noreply_maybe : Conn → (ℕ → List ℕ) → ℕ → Conn
set_noreply_maybe c tok ntokens =
    if strcmp_eq (tok (ntokens - 2)) (codes "noreply") then record c { noreply = true } else c

-- The numbers of a storing command; `vlen` counts the line's end.
pub record UpdateArgs : Type 0 where
  pub flags : ℕ
  pub exptime : ℤ
  pub vlen : ℕ
  pub req_cas_id : ℕ

abbrev bad_format : List ℕ
bad_format = codes "CLIENT_ERROR bad command line format"

abbrev pub is_set : Comm → Bool
is_set nread_set = true
is_set _ = false

module _ (calls : Calls) where
  abbrev pub get_item : Server → List ℕ → Server × Option ℕ
  get_item s key =
      let (w, d, it) =
        do_item_get calls.env.encode calls.settings calls.env.chunks s.world s.thread key
          (calls.env.hash key) false in
      (record s { world = w; thread = d }, it)

  abbrev pub remove : World → ℕ → World
  remove w it = do_item_remove calls.settings calls.env.chunks w it

  -- item_unlink and item_remove of the item that item_get gave.
  abbrev pub drop_item : Server → ℕ → Server
  drop_item s it = record s {
    world =
        remove
          (do_item_unlink calls.settings calls.env.chunks s.world it
            (calls.env.hash (item_at s.world it).key))
          it;
  }

  -- A negative time is set past the largest relative one; a length leaves room for the line's end.
  unfoldable pub update_numbers : Option ℕ → Option ℤ → Option ℤ → Option ℕ → Option UpdateArgs
  update_numbers (some flags) (some exptime) (some (pos vlen)) (some cas) =
      if ltb (2 ^ 31 - 1 - 2) vlen
      then none
      else some (record {
        flags = flags;
        exptime = elim exptime [ pos n ↦ pos n | negsuc n ↦ pos (calls.realtime_maxdelta + 1) ];
        vlen = vlen + 2;
        req_cas_id = cas;
      })
  update_numbers _ _ _ _ = none

  unfoldable pub update_args : Bool → (ℕ → List ℕ) → Option UpdateArgs
  update_args handle_cas tok =
      update_numbers (calls.safe_strtoul (tok 2)) (calls.safe_strtol (tok 3))
        (calls.safe_strtol (tok 4))
        (if handle_cas then safe_strtoull calls.libc (tok 5) else some 0)

  -- Where the item cannot be made: the data line is to be swallowed, and a set drops the old item.
  unfoldable pub update_refused : Comm → UpdateArgs → List ℕ → Server → Conn → Server × Conn
  update_refused comm a key s c =
      let answered =
        if calls.item_size_ok (length key) a.flags a.vlen
        then out_of_memory c (codes "SERVER_ERROR out of memory storing object")
        else out_string c (codes "SERVER_ERROR object too large for cache") in
      let (t, it) = get_item s key in
      (
        if is_set comm then elim it [ none ↦ t | some old ↦ drop_item t old ] else s,
        record answered { write_and_go = conn_swallow; sbytes = a.vlen },
      )

  unfoldable pub update_with : Comm → List ℕ → Option UpdateArgs → Server → Conn → Server × Conn
  update_with comm key none s c = (s, out_string c bad_format)
  update_with comm key (some a) s c =
      let prefixes =
        if calls.detail_enabled
        then stats_prefix_record_set calls.prefix_hash calls.prefix_delimiter s.prefixes key
            calls.prefix_allocated
        else s.prefixes in
      let r =
        do_item_alloc calls.env.hash calls.settings calls.env.chunks calls.env.walks
          calls.env.printed key a.flags (calls.realtime a.exptime) a.vlen calls.answers s.world
          s.rebal in
      let made = record s { world = r.world; rebal = r.rebal; prefixes = prefixes } in
      if r.it == 0 then update_refused comm a key made c else (
        record made {
          world = set_item r.world r.it (item_set_cas (item_at r.world r.it) a.req_cas_id);
        },
        record c {
          item = r.it;
          ritem = 0;
          rlbytes = (item_at r.world r.it).nbytes;
          cmd = comm;
          state = conn_nread;
        },
      )

  unfoldable pub process_update_command :
      Comm → Bool → (ℕ → List ℕ) → ℕ → Server → Conn → Server × Conn
  process_update_command comm handle_cas tok ntokens s c =
      let d = set_noreply_maybe c tok ntokens in
      if ltb key_max_length (length (tok 1))
      then (s, out_string d bad_format)
      else update_with comm (tok 1) (update_args handle_cas tok) s d

  unfoldable pub touch_with : List ℕ → Option ℤ → Server → Conn → Server × Conn
  touch_with key none s c = (s, out_string c (codes "CLIENT_ERROR invalid exptime argument"))
  touch_with key (some exptime) s c =
      let (w, d, it) =
        do_item_touch calls.env.encode calls.settings calls.env.chunks s.world s.thread key
          (calls.realtime exptime) (calls.env.hash key) in
      elim it [
        | none ↦ (record s { world = w; thread = d }, out_string c (codes "NOT_FOUND"))
        | some it' ↦ (record s { world = remove w it'; thread = d }, out_string c (codes "TOUCHED"))
      ]

  unfoldable pub process_touch_command : (ℕ → List ℕ) → ℕ → Server → Conn → Server × Conn
  process_touch_command tok ntokens s c =
      let d = set_noreply_maybe c tok ntokens in
      if ltb key_max_length (length (tok 1))
      then (s, out_string d bad_format)
      else touch_with (tok 1) (calls.safe_strtol (tok 2)) s d

  -- The answer to a result of add_delta; after a CAS mismatch there is none.
  unfoldable pub answer_delta : DeltaResult → List ℕ → Conn → Conn
  answer_delta ok buf c = out_string c buf
  answer_delta non_numeric buf c =
      out_string c (codes "CLIENT_ERROR cannot increment or decrement non-numeric value")
  answer_delta eom buf c = out_of_memory c (codes "SERVER_ERROR out of memory")
  answer_delta delta_item_not_found buf c = out_string c (codes "NOT_FOUND")
  answer_delta delta_item_cas_mismatch buf c = c

  unfoldable pub arithmetic_with : Bool → List ℕ → Option ℕ → Server → Conn → Server × Conn
  arithmetic_with incr key none s c =
      (s, out_string c (codes "CLIENT_ERROR invalid numeric delta argument"))
  arithmetic_with incr key (some delta) s c =
      let r =
        do_add_delta calls.env calls.libc calls.settings calls.answers s.world s.rebal s.thread key
          incr delta none (calls.env.hash key) in
      (
        record s { world = r.world; rebal = r.rebal; thread = r.thread },
        answer_delta r.result r.buf c,
      )

  unfoldable pub process_arithmetic_command :
      Bool → (ℕ → List ℕ) → ℕ → Server → Conn → Server × Conn
  process_arithmetic_command incr tok ntokens s c =
      let d = set_noreply_maybe c tok ntokens in
      if ltb key_max_length (length (tok 1))
      then (s, out_string d bad_format)
      else arithmetic_with incr (tok 1) (safe_strtoull calls.libc (tok 2)) s d

  unfoldable pub delete_found : Server × Option ℕ → Conn → Server × Conn
  delete_found (s, none) c = (s, out_string c (codes "NOT_FOUND"))
  delete_found (s, some it) c = (drop_item s it, out_string c (codes "DELETED"))

  unfoldable pub delete_key : List ℕ → Server → Conn → Server × Conn
  delete_key key s c =
      let prefixes =
        if calls.detail_enabled
        then stats_prefix_record_delete calls.prefix_hash calls.prefix_delimiter s.prefixes key
            calls.prefix_allocated
        else s.prefixes in
      if ltb key_max_length (length key)
      then (s, out_string c bad_format)
      else delete_found (get_item (record s { prefixes = prefixes }) key) c

  unfoldable pub process_delete_command : (ℕ → List ℕ) → ℕ → Server → Conn → Server × Conn
  process_delete_command tok ntokens s c =
      let hold_is_zero = strcmp_eq (tok 2) (codes "0") in
      let d = set_noreply_maybe c tok ntokens in
      let valid =
        ntokens == 4 && (hold_is_zero || d.noreply) || ntokens == 5 && hold_is_zero && d.noreply in
      if ltb 3 ntokens
      then (if valid then delete_key (tok 1) s d else (
        s,
        out_string d (codes "CLIENT_ERROR bad command line format.  Usage: delete <key> [noreply]"),
      ))
      else delete_key (tok 1) s c

  -- A storing command whose data has been read: the data must end its line. A result without a
  -- case of its own gives no answer, since the default label of the switch is misspelled.
  unfoldable pub answer_store : StoreItem → Conn → Conn
  answer_store stored c = out_string c (codes "STORED")
  answer_store exists c = out_string c (codes "EXISTS")
  answer_store not_found c = out_string c (codes "NOT_FOUND")
  answer_store not_stored c = out_string c (codes "NOT_STORED")
  answer_store too_large c = c
  answer_store not_memory c = c

  unfoldable pub complete_nread_ascii : Bool → Server → Conn → Server × Conn
  complete_nread_ascii chunk_ends s c =
      let it = item_at s.world c.item in
      let is_valid =
        if it.it_flags.chunked
        then chunk_ends
        else strcmp_eq (take 2 (drop (it.nbytes - 2) it.value)) (13 ∷ 10 ∷ []) in
      let r =
        do_store_item calls.env calls.settings calls.answers calls.grants s.world s.rebal s.thread
          c.cas c.item c.cmd (calls.env.hash it.key) in
      let answered = answer_store r.result (record c { cas = r.cas }) in
      if is_valid
      then (
        record s { world = remove r.world c.item; rebal = r.rebal; thread = r.thread },
        record answered { item = 0 },
      )
      else (
        record s { world = remove s.world c.item },
        record (out_string c (codes "CLIENT_ERROR bad data chunk")) { item = 0 },
      )
