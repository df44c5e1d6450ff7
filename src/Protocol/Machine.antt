-- ===== src/Protocol/Machine.antt =====
-- thread/memcached.c: process_command, try_read_command and drive_machine, the state machine of a
-- connection that speaks the text protocol over TCP. Socket calls, libevent and memory answer through
-- `Event`; `others` stands for the get commands, which Protocol/Get models, and for the commands that are not
-- modelled. A client's connection is never in
-- conn_listening, and conn_closed aborts.
use analysis_memcached.Prelude.{
  ℕ, zero, suc, ◌+◌, ◌-◌, Bool, true, false, not, ◌&&◌, ◌||◌, Option, none, some, List, [], ◌∷◌,
  length, take, drop, ltb, leb, ◌==◌, if◌then◌else◌,
}
use analysis_memcached.Prelude.Memory.{update, read}
use analysis_memcached.Prelude.Text.{codes}
use analysis_memcached.Items.{World, item_at, do_item_remove}
use analysis_memcached.Store.{
  Comm, nread_add, nread_set, nread_replace, nread_append, nread_prepend, nread_cas,
}
use analysis_memcached.Protocol.Tokens.{Token, TokenScan, tokenize_command}
use analysis_memcached.Protocol.Conn.{
  Conn, ConnState, Sizes, Input, TryReadResult, read_data_received, read_no_data_received,
  read_error, read_memory_error, conn_listening, conn_new_cmd, conn_waiting, conn_read,
  conn_parse_cmd, conn_write, conn_nread, conn_swallow, conn_closing, conn_mwrite, conn_closed,
  conn_watch, conn_set_state, conn_shrink, out_of_memory,
}
use analysis_memcached.Protocol.Read.{
  Outcome, progress, stream_end, blocked, no_room, broken, try_read_network, nread_plain, swallow,
}
use analysis_memcached.Protocol.Commands.{
  Server, Calls, strcmp_eq, process_update_command, process_touch_command,
  process_arithmetic_command, process_delete_command, complete_nread_ascii,
}

abbrev pub max_tokens : ℕ
max_tokens = 8

-- The text of a token, and none of a NULL one.
abbrev pub text_at : (ℕ → ℕ) → List Token → ℕ → List ℕ
text_at buf [] i = []
text_at buf (t ∷ ts) zero = read buf t.value t.length
text_at buf (t ∷ ts) (suc i) = text_at buf ts i

-- The handlers that process_command chooses from.
pub data Request : Type 0 where
  get : Bool → Bool → Request
  store : Comm → Bool → Request
  arithmetic : Bool → Request
  delete : Request
  touch : Request
  other : Request

abbrev among : ℕ → ℕ → ℕ → Bool
among lo hi n = leb lo n && leb n hi

-- The chain of tests of process_command, in its order.
unfoldable pub dispatch : List ℕ → ℕ → Request
dispatch name n =
    if leb 3 n && (strcmp_eq name (codes "get") || strcmp_eq name (codes "bget"))
    then get false false
    else if among 6 7 n && strcmp_eq name (codes "add")
    then store nread_add false
    else if among 6 7 n && strcmp_eq name (codes "set")
    then store nread_set false
    else if among 6 7 n && strcmp_eq name (codes "replace")
    then store nread_replace false
    else if among 6 7 n && strcmp_eq name (codes "prepend")
    then store nread_prepend false
    else if among 6 7 n && strcmp_eq name (codes "append")
    then store nread_append false
    else if among 7 8 n && strcmp_eq name (codes "cas")
    then store nread_cas true
    else if among 4 5 n && strcmp_eq name (codes "incr")
    then arithmetic true
    else if leb 3 n && strcmp_eq name (codes "gets")
    then get true false
    else if among 4 5 n && strcmp_eq name (codes "decr")
    then arithmetic false
    else if among 3 5 n && strcmp_eq name (codes "delete")
    then delete
    else if among 4 5 n && strcmp_eq name (codes "touch")
    then touch
    else if leb 4 n && strcmp_eq name (codes "gat")
    then get false true
    else if leb 4 n && strcmp_eq name (codes "gats")
    then get true true
    else other

-- How many bytes stand before the first NUL, or the first newline.
abbrev pub count_before : ℕ → List ℕ → ℕ
count_before x [] = 0
count_before x (y ∷ ys) = if y == x then 0 else suc (count_before x ys)

abbrev pub leading : ℕ → List ℕ → ℕ
leading x [] = 0
leading x (y ∷ ys) = if y == x then suc (leading x ys) else 0

pub data TransmitResult : Type 0 where
  transmit_complete : TransmitResult
  transmit_incomplete : TransmitResult
  transmit_soft_error : TransmitResult
  transmit_hard_error : TransmitResult

-- What the turn's calls answer; `chunked` is read_into_chunked_item, `built` tells whether add_iov
-- found memory for the answer.
pub record Event : Type 0 where
  pub updated : Bool
  pub socket : ℕ → ℕ → Input
  pub grown : ℕ → Option ℕ
  pub resized : Bool
  pub new_place : ℕ
  pub chunk_ends : Bool
  pub chunked : World → Conn → World × Conn × Outcome
  pub built : Bool
  pub transmit : TransmitResult

-- A turn of the loop: the state after it, the requests that are left, and whether the loop stops.
pub record Driven : Type 0 where
  pub server : Server
  pub conn : Conn
  pub nreqs : ℕ
  pub stop : Bool

module _ (calls : Calls) (sizes : Sizes)
    (others : Request → TokenScan → Server → Conn → Server × Conn) where
  unfoldable pub run : Request → TokenScan → Server → Conn → Server × Conn
  run (get return_cas should_touch) out s c = others (get return_cas should_touch) out s c
  run (store comm handle_cas) out s c =
      process_update_command calls comm handle_cas (text_at out.buf out.tokens) (length out.tokens)
        s c
  run (arithmetic incr) out s c =
      process_arithmetic_command calls incr (text_at out.buf out.tokens) (length out.tokens) s c
  run delete out s c =
      process_delete_command calls (text_at out.buf out.tokens) (length out.tokens) s c
  run touch out s c =
      process_touch_command calls (text_at out.buf out.tokens) (length out.tokens) s c
  run other out s c = others other out s c

  -- The line at rcurr, `len` bytes long; its tokens are cut in the read buffer.
  unfoldable pub process_command : ℕ → Server → Conn → Server × Conn
  process_command len s c =
      let out = tokenize_command max_tokens c.bytes c.rcurr len in
      let served =
        run (dispatch (text_at out.buf out.tokens 0) (length out.tokens)) out s
          (record c { bytes = out.buf }) in
      if calls.msghdr_made
      then served
      else (s, out_of_memory c (codes "SERVER_ERROR out of memory preparing response"))

  -- A line of more than 1024 bytes without its end has to be a get.
  unfoldable pub is_long_get : List ℕ → Bool
  is_long_get line =
      let blanks = leading 32 line in
      leb blanks 100
      && (strcmp_eq (take 4 (drop blanks line)) (codes "get ")
          || strcmp_eq (take 5 (drop blanks line)) (codes "gets "))

  -- The result tells whether the return value is not 0.
  unfoldable pub try_read_command : Server → Conn → Server × Conn × Bool
  try_read_command s c =
      let line = read c.bytes c.rcurr c.rbytes in
      let k = count_before 10 line in
      let el = if ltb 1 k && c.bytes (c.rcurr + k - 1) == 13 then k - 1 else k in
      let ended = record c {
        bytes = update c.bytes (c.rcurr + el) 0;
        last_cmd_time = s.world.current_time;
      } in
      let (t, d) = process_command (count_before 0 (read ended.bytes c.rcurr (suc el))) s ended in
      if k == c.rbytes
      then (if ltb 1024 c.rbytes && not (is_long_get line)
          then (s, conn_set_state c conn_closing, true)
          else (s, c, false))
      else (t, record d { rbytes = d.rbytes - (k + 1); rcurr = c.rcurr + k + 1 }, true)

  abbrev remove_item : World → ℕ → World
  remove_item w it = do_item_remove calls.settings calls.env.chunks w it

  unfoldable pub reset_cmd_handler : Bool → ℕ → Server → Conn → Server × Conn
  reset_cmd_handler resized place s c =
      let world = if c.item == 0 then s.world else remove_item s.world c.item in
      let d = conn_shrink sizes resized place (record c { item = 0 }) in
      (
        record s { world = world },
        conn_set_state d (if ltb 0 d.rbytes then conn_parse_cmd else conn_waiting),
      )

  -- item_remove of each item from icurr on.
  abbrev pub release_all : World → List ℕ → World
  release_all w [] = w
  release_all w (it ∷ its) = release_all (remove_item w it) its

  unfoldable pub conn_release_items : Server → Conn → Server × Conn
  conn_release_items s c =
      let world = if c.item == 0 then s.world else remove_item s.world c.item in
      (record s { world = release_all world c.ilist }, record c { item = 0; ilist = [] })

  abbrev go : Server → Conn → ℕ → Driven
  go s c n = record { server = s; conn = c; nreqs = n; stop = false }

  abbrev halt : Server → Conn → ℕ → Driven
  halt s c n = record { server = s; conn = c; nreqs = n; stop = true }

  -- The end of a read into an item, or of one that is thrown away.
  unfoldable pub after_read : Bool → Outcome → Server → Conn → ℕ → Driven
  after_read updated progress s c n = go s c n
  after_read updated stream_end s c n = go s (conn_set_state c conn_closing) n
  after_read updated blocked s c n =
      if updated then halt s c n else go s (conn_set_state c conn_closing) n
  after_read updated no_room s c n =
      go s
        (record (out_of_memory c (codes "SERVER_ERROR Out of memory during read")) {
          sbytes = c.rlbytes;
          write_and_go = conn_swallow;
        })
        n
  after_read updated broken s c n = go s (conn_set_state c conn_closing) n

  -- conn_read: after a failure of memory try_read_network has set the state.
  unfoldable pub after_network : Option (Conn × TryReadResult) → Conn → Conn
  after_network none c = c
  after_network (some (d, read_no_data_received)) c = conn_set_state d conn_waiting
  after_network (some (d, read_data_received)) c = conn_set_state d conn_parse_cmd
  after_network (some (d, read_error)) c = conn_set_state d conn_closing
  after_network (some (d, read_memory_error)) c = d

  unfoldable pub after_transmit : ConnState → TransmitResult → Server → Conn → ℕ → Driven
  after_transmit conn_mwrite transmit_complete s c n =
      let (t, d) = conn_release_items s c in go t (conn_set_state d conn_new_cmd) n
  after_transmit conn_write transmit_complete s c n = go s (conn_set_state c c.write_and_go) n
  after_transmit _ transmit_complete s c n = go s (conn_set_state c conn_closing) n
  after_transmit _ transmit_incomplete s c n = go s c n
  after_transmit _ transmit_hard_error s c n = go s c n
  after_transmit _ transmit_soft_error s c n = halt s c n

  -- conn_nread: the data is complete, or some of it is missing.
  unfoldable pub turn_nread : Event → Server → Conn → ℕ → Driven
  turn_nread ev s c n =
      let (t, d) = complete_nread_ascii calls ev.chunk_ends s c in
      let (v, e, result) =
        if c.item == 0 || not (item_at s.world c.item).it_flags.chunked
        then nread_plain (ev.socket 0) s.world c
        else ev.chunked s.world c in
      if c.rlbytes == 0 then go t d n else after_read ev.updated result (record s { world = v }) e n

  unfoldable pub turn_swallow : Event → Server → Conn → ℕ → Driven
  turn_swallow ev s c n =
      let (d, result) = swallow (ev.socket 0) c in
      if c.sbytes == 0
      then go s (conn_set_state c conn_new_cmd) n
      else after_read ev.updated result s d n

  -- Only so many requests are served before other connections have their turn.
  unfoldable pub turn_new_cmd : Event → Server → Conn → ℕ → Driven
  turn_new_cmd ev s c zero =
      if ltb 0 c.rbytes && not ev.updated
      then go s (conn_set_state c conn_closing) zero
      else halt s c zero
  turn_new_cmd ev s c (suc n) =
      let (t, d) = reset_cmd_handler ev.resized ev.new_place s c in go t d n

  unfoldable pub turn_parse : Server → Conn → ℕ → Driven
  turn_parse s c n =
      let (t, d, more) = try_read_command s c in
      go t (if more then d else conn_set_state d conn_waiting) n

  -- A turn of drive_machine; `fuel` bounds the reads of try_read_network.
  unfoldable pub turn : ℕ → Event → ConnState → Server → Conn → ℕ → Driven
  turn fuel ev conn_listening s c n = halt s c n
  turn fuel ev conn_new_cmd s c n = turn_new_cmd ev s c n
  turn fuel ev conn_waiting s c n =
      if ev.updated
      then halt s (conn_set_state c conn_read) n
      else go s (conn_set_state c conn_closing) n
  turn fuel ev conn_read s c n =
      go s (after_network (try_read_network ev.socket ev.grown fuel c) c) n
  turn fuel ev conn_parse_cmd s c n = turn_parse s c n
  turn fuel ev conn_write s c n =
      if ev.built
      then after_transmit conn_write ev.transmit s c n
      else go s (conn_set_state c conn_closing) n
  turn fuel ev conn_nread s c n = turn_nread ev s c n
  turn fuel ev conn_swallow s c n = turn_swallow ev s c n
  turn fuel ev conn_closing s c n =
      let (t, d) = conn_release_items s c in halt t (conn_set_state d conn_closed) n
  turn fuel ev conn_mwrite s c n = after_transmit conn_mwrite ev.transmit s c n
  turn fuel ev conn_closed s c n = halt s c n
  turn fuel ev conn_watch s c n = halt s c n
