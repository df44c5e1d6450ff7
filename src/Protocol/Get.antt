-- ===== src/Protocol/Get.antt =====
-- thread/memcached.c: process_get_command, for get, gets, gat and gats, without EXTSTORE. The pieces of
-- the answer are the texts of the iovecs, in order. Its functions without a source here, and the
-- answers of memory to it, are in `GetCalls`; the counters of the thread are left out.
pub mod Stuck
pub mod Keys
pub mod Held
pub mod Granted
use analysis_memcached.Prelude.{
  ℕ, zero, suc, ◌+◌, ◌-◌, Bool, true, false, not, ◌&&◌, ◌||◌, Option, none, some, List, [], ◌∷◌,
  ◌++◌, length, take, drop, ltb, ◌==◌, if◌then◌else◌,
}
use analysis_memcached.Prelude.Int.{ℤ}
use analysis_memcached.Prelude.Memory.{read}
use analysis_memcached.Prelude.Text.{codes}
use analysis_memcached.PrefixStats.{Prefixes, stats_prefix_record_get}
use analysis_memcached.Items.{World, item_at}
use analysis_memcached.Protocol.Tokens.{Token, TokenScan, tokenize_command}
use analysis_memcached.Protocol.Conn.{Conn, out_string, out_of_memory, conn_mwrite}
use analysis_memcached.Protocol.Commands.{Server, Calls, key_max_length, remove}
use analysis_memcached.Protocol.Machine.{max_tokens, text_at}

-- `limited_get` is the look-up of a key, with the item if there is one, for which no source is here.
-- `chunked_iovs` is add_chunked_item_iovs, and `iov_space n` tells whether add_iov has room for an n-th
-- piece.
pub record GetCalls : Type 0 where
  pub limited_get : Server → List ℕ → ℕ → Bool → Server × Option ℕ
  pub expanded : ℕ → Bool
  pub suffix_buf : ℕ → Bool
  pub iov_space : ℕ → Bool
  pub make_suffix : World → ℕ → Bool → List ℕ
  pub item_suffix : World → ℕ → List ℕ
  pub chunked_iovs : World → ℕ → List (List ℕ) → List (List ℕ) × Bool
  pub strlen : (ℕ → ℕ) → ℕ → ℕ
  pub inline_ascii_response : Bool

-- The server, the items that the answer holds, the suffix buffers in use, and the pieces.
pub record Gets : Type 0 where
  pub server : Server
  pub items : List ℕ
  pub si : ℕ
  pub pieces : List (List ℕ)

-- What becomes of a key: the loop goes on, is left by a break, or the command returns.
pub data Served : Type 0 where
  kept : Gets → Served
  broke : Gets → Served
  refused : Gets → Served

-- Where the loop over the tokens stops: at a token with this value, or by a return.
pub data Walked : Type 0 where
  stopped : ℕ → Gets → Walked
  returned : Gets → Walked

-- The command's end; `none` if its fuel runs out.
pub data GetEnd : Type 0 where
  completed : Gets → GetEnd
  too_long : Gets → GetEnd

abbrev pub first_value : List Token → ℕ
first_value [] = 0
first_value (t ∷ ts) = t.value

module _ (calls : Calls) (g : GetCalls) (return_cas should_touch : Bool) (exptime : ℕ) where
  -- add_iov of each piece, until one fails.
  unfoldable pub add_iovs : List (List ℕ) → Gets → Gets × Bool
  add_iovs [] st = (st, true)
  add_iovs (x ∷ xs) st =
      let more = add_iovs xs (record st { pieces = st.pieces ++ x ∷ [] }) in
      if g.iov_space (length st.pieces) then more else (st, false)

  abbrev world_of : Gets → World
  world_of st = st.server.world

  -- item_remove of the item that was found, and a break.
  abbrev pub give_back : ℕ → Gets → Served
  give_back it st =
      broke (record st { server = record (st.server) { world = remove calls (world_of st) it } })

  -- item_remove of the items, the last one first.
  abbrev remove_items : World → List ℕ → World
  remove_items w [] = w
  remove_items w (it ∷ its) = remove calls (remove_items w its) it

  abbrev pub hold : ℕ → Gets → Served
  hold it st = kept (record st { items = st.items ++ it ∷ [] })

  abbrev data_of : ℕ → Gets → List ℕ
  data_of it st = take (item_at (world_of st) it).nbytes (item_at (world_of st) it).value

  -- The data of a chunked item.
  unfoldable pub add_chunks : ℕ → Gets → Served
  add_chunks it st =
      let (pieces, done) = g.chunked_iovs (world_of st) it st.pieces in
      let after = record st { pieces = pieces } in
      if done then hold it after else give_back it after

  -- An answer whose suffix is made in a buffer of its own; the literal has no blank at its end, and
  -- six bytes of it are taken.
  unfoldable pub answer_suffixed : ℕ → Gets → Served
  answer_suffixed it st =
      let inlined = g.item_suffix (world_of st) it in
      let head =
        (codes "VALUE" ++ 0 ∷ [])
        ∷ (item_at (world_of st) it).key
        ∷ ((if g.inline_ascii_response
              then take ((item_at (world_of st) it).nsuffix - 2) inlined ∷ []
              else [])
            ++ g.make_suffix (world_of st) it return_cas ∷ []) in
      let (after, added) = add_iovs head (record st { si = st.si + 1 }) in
      if not (g.suffix_buf st.si)
      then give_back it st
      else if not added
      then give_back it after
      else if (item_at (world_of st) it).it_flags.chunked
      then add_chunks it after
      else hold it (add_iovs (data_of it st ∷ []) after).0

  -- An answer with the suffix that the item holds.
  unfoldable pub answer_inline : ℕ → Gets → Served
  answer_inline it st =
      let suffix = take (item_at (world_of st) it).nsuffix (g.item_suffix (world_of st) it) in
      let (after, added) = add_iovs (codes "VALUE " ∷ (item_at (world_of st) it).key ∷ []) st in
      let (whole, whole_added) = add_iovs ((suffix ++ data_of it st) ∷ []) after in
      let (front, front_added) = add_iovs (suffix ∷ []) after in
      if not added
      then give_back it after
      else if (item_at (world_of st) it).it_flags.chunked
      then (if front_added then add_chunks it front else give_back it front)
      else if whole_added
      then hold it whole
      else give_back it whole

  unfoldable pub answer_hit : ℕ → Gets → Served
  answer_hit it st =
      if not (g.expanded (length st.items))
      then give_back it st
      else if return_cas || not g.inline_ascii_response
      then answer_suffixed it st
      else answer_inline it st

  -- The look-up of a key, which is counted under its prefix.
  unfoldable pub look_up : List ℕ → Server → Server × Option ℕ
  look_up key s =
      let (found, it) = g.limited_get s key exptime should_touch in
      let is_hit : Bool = elim it [ none ↦ false | some i ↦ true ] in
      let counted =
        if calls.detail_enabled
        then record found {
          prefixes =
              stats_prefix_record_get calls.prefix_hash calls.prefix_delimiter found.prefixes key
                is_hit calls.prefix_allocated;
        }
        else found in
      (counted, it)

  unfoldable pub serve_key : List ℕ → Gets → Served
  serve_key key st =
      let (found, it) = look_up key st.server in
      let after = record st { server = found } in
      if ltb key_max_length (length key)
      then refused st
      else elim it [ none ↦ kept after | some i ↦ answer_hit i after ]

  -- The keys from a token on.
  unfoldable pub walk_tokens : (ℕ → ℕ) → List Token → Gets → Walked
  walk_tokens buf [] st = stopped 0 st
  walk_tokens buf (t ∷ ts) st =
      if t.length == 0
      then stopped t.value st
      else elim (serve_key (read buf t.value t.length) st) [
        | kept after ↦ walk_tokens buf ts after
        | broke after ↦ stopped t.value after
        | refused after ↦ returned after
      ]

  -- The outer loop: where the tokens have stopped at some text, it is cut and the loop goes on with it.
  unfoldable pub get_loop : ℕ → (ℕ → ℕ) → List Token → Gets → Option GetEnd
  get_loop zero buf tokens st = none
  get_loop (suc fuel) buf tokens st = elim (walk_tokens buf tokens st) [
    | returned after ↦ some (too_long after)
    | stopped value after ↦
        let out = tokenize_command max_tokens buf value (g.strlen buf value) in
        let rest = get_loop fuel out.buf out.tokens after in
        if value == 0
        then some (completed after)
        else if first_value out.tokens == 0
        then some (completed after)
        else rest
  ]

  -- The answer is sent, with its end, or the items that it held are given up.
  unfoldable pub finish_get : GetEnd → Conn → Server × Conn × List (List ℕ)
  finish_get (too_long st) c = (
    record (st.server) { world = remove_items (world_of st) st.items },
    out_string c (codes "CLIENT_ERROR bad command line format"),
    st.pieces,
  )
  finish_get (completed st) c =
      let (after, added) = add_iovs ((codes "END" ++ 13 ∷ 10 ∷ []) ∷ []) st in
      let d = record c { ilist = st.items } in
      if added then (after.server, record d { state = conn_mwrite }, after.pieces) else (
        after.server,
        out_of_memory d (codes "SERVER_ERROR out of memory writing get response"),
        after.pieces,
      )

module _ (calls : Calls) (g : GetCalls) where
  unfoldable pub get_with :
      ℕ
      → Bool
      → Bool
      → ℕ
      → List Token
      → TokenScan
      → Server
      → Conn
      → Option (Server × Conn × List (List ℕ))
  get_with fuel return_cas should_touch exptime keys out s c =
      let start : Gets = record { server = s; items = []; si = 0; pieces = [] } in
      elim (get_loop calls g return_cas should_touch exptime fuel out.buf keys start) [
        | none ↦ none
        | some end ↦ some (finish_get calls g return_cas should_touch exptime end c)
      ]

  unfoldable pub process_get_command :
      ℕ → Bool → Bool → TokenScan → Server → Conn → Option (Server × Conn × List (List ℕ))
  process_get_command fuel return_cas should_touch out s c =
      if should_touch
      then elim (calls.safe_strtol (text_at out.buf out.tokens 1)) [
        | none ↦ some (s, out_string c (codes "CLIENT_ERROR invalid exptime argument"), [])
        | some t ↦ get_with fuel return_cas true (calls.realtime t) (drop 2 out.tokens) out s c
      ]
      else get_with fuel return_cas false 0 (drop 1 out.tokens) out s c
