-- ===== src/Protocol/Turns.antt =====
-- No turn of the state machine leaves the bounds of the read buffer.
use analysis_memcached.Prelude.{
  ℕ, zero, suc, ◌+◌, ◌-◌, ◌≤◌, Bool, not, ◌&&◌, ◌||◌, Option, none, some, List, [], ◌∷◌, length,
  ltb, ◌==◌, if◌then◌else◌, if_elim, arith,
}
use analysis_memcached.Prelude.Text.{codes}
use analysis_memcached.Prelude.Memory.{update, length-read, read}
use analysis_memcached.Items.{World, item_at}
use analysis_memcached.Protocol.Tokens.{TokenScan}
use analysis_memcached.Protocol.Conn.{
  Conn, ConnState, Sizes, TryReadResult, read_memory_error, conn_new_cmd, conn_waiting, conn_read,
  conn_parse_cmd, conn_write, conn_nread, conn_swallow, conn_closing, conn_mwrite,
}
use analysis_memcached.Protocol.Read.{try_read_network, nread_plain, swallow, Outcome, no_room}
use analysis_memcached.Protocol.Commands.{Server, Calls}
use analysis_memcached.Protocol.Buffer.{
  InBuffer, same-InBuffer, Same, update-Same, touch-Same, arithmetic-Same, delete-Same,
  complete-Same, out_of_memory-SameBuffer,
}
use analysis_memcached.Protocol.Machine.{
  Request, get, store, arithmetic, delete, touch, other, Event, Driven, run, process_command,
  count_before, try_read_command, reset_cmd_handler, conn_release_items, after_read, after_network,
  after_transmit, turn_nread, turn_swallow, turn_new_cmd, turn_parse, turn, is_long_get,
  TransmitResult,
}
use analysis_memcached.Protocol.Bounds.{
  FitsInput, Result-InBuffer, try_read_network-InBuffer, nread_plain-InBuffer, swallow-InBuffer,
  conn_shrink-InBuffer,
}

count_before-le : (x : ℕ) (xs : List ℕ) → count_before x xs ≤ length xs
count_before-le x [] = omega arith
count_before-le x (y ∷ ys) = ground (arith, count_before-le x ys)

module _ (calls : Calls) (sizes : Sizes)
    (others : Request → TokenScan → Server → Conn → Server × Conn)
    (same : (r : Request) (out : TokenScan) (s : Server) (c : Conn)
      → Same c (others r out s c)) where
  run-Same :
      (r : Request) (out : TokenScan) (s : Server) (c : Conn)
      → Same c (run calls sizes others r out s c)
  unfolding run
  run-Same (get a b) out s c = same (get a b) out s c
  run-Same (store comm cas) out s c = update-Same calls comm cas _ _ s c
  run-Same (arithmetic incr) out s c = arithmetic-Same calls incr _ _ s c
  run-Same delete out s c = delete-Same calls _ _ s c
  run-Same touch out s c = touch-Same calls _ _ s c
  run-Same other out s c = same other out s c

  process_command-Same :
      (len : ℕ) (s : Server) (c : Conn) → Same c (process_command calls sizes others len s c)
  unfolding process_command
  process_command-Same len s c =
      if_elim (Same c) calls.msghdr_made
        (λ _.
          let r = run-Same _ _ s _ in
          record { rbuf = r.rbuf; rcurr = r.rcurr; rsize = r.rsize; rbytes = r.rbytes })
        (λ _. out_of_memory-SameBuffer c (codes "SERVER_ERROR out of memory preparing response"))

  try_read_command-InBuffer :
      (s : Server) (c : Conn) → InBuffer c → InBuffer (try_read_command calls sizes others s c).1
  unfolding try_read_command
  try_read_command-InBuffer s c b =
      let line = read c.bytes c.rcurr c.rbytes in
      let k = count_before 10 line in
      let short : k ≤ c.rbytes =
        omega (arith, count_before-le 10 line, length-read c.bytes c.rcurr c.rbytes) in
      let el = if ltb 1 k && c.bytes (c.rcurr + k - 1) == 13 then k - 1 else k in
      let ended : Conn = record c {
        bytes = update c.bytes (c.rcurr + el) 0;
        last_cmd_time = s.world.current_time;
      } in
      let r = process_command-Same (count_before 0 (read ended.bytes c.rcurr (suc el))) s ended in
      if_elim (λ (p : Server × Conn × Bool). InBuffer p.1) (k == c.rbytes)
        (λ _.
          if_elim (λ (p : Server × Conn × Bool). InBuffer p.1)
            (ltb 1024 c.rbytes && not (is_long_get calls sizes others line))
            (λ _. record { start = b.start; end = b.end }) (λ _. b))
        (λ n. record {
          start = omega (arith, b.start, r.rbuf, r.rcurr);
          end = ground (arith, n, short, b.end, r.rbuf, r.rcurr, r.rsize, r.rbytes);
        })

  reset-InBuffer :
      (resized : Bool) (place : ℕ) (s : Server) (c : Conn)
      → InBuffer c
      → InBuffer (reset_cmd_handler calls sizes others resized place s c).1
  unfolding reset_cmd_handler
  reset-InBuffer resized place s c b =
      let d =
        conn_shrink-InBuffer sizes resized place (record c { item = 0 })
          (record { start = b.start; end = b.end }) in
      record { start = d.start; end = d.end }

  after_read-InBuffer :
      (updated : Bool) (r : Outcome) (s : Server) (c : Conn) (n : ℕ)
      → InBuffer c
      → InBuffer (after_read calls sizes others updated r s c n).conn
  unfolding after_read
  after_read-InBuffer updated no_room s c n b = grind (arith, out_of_memory-SameBuffer, b)
  after_read-InBuffer updated _ s c n b = ground (arith, b)

  after_network-InBuffer :
      (r : Option (Conn × TryReadResult)) (c : Conn)
      → InBuffer c
      → Result-InBuffer r
      → InBuffer (after_network calls sizes others r c)
  unfolding after_network
  after_network-InBuffer none c b h = b
  after_network-InBuffer (some (d, read_memory_error)) c b h = h
  after_network-InBuffer (some (d, _)) c b h = record { start = h.start; end = h.end }

  after_transmit-InBuffer :
      (state : ConnState) (r : TransmitResult) (s : Server) (c : Conn) (n : ℕ)
      → InBuffer c
      → InBuffer (after_transmit calls sizes others state r s c n).conn
  unfolding after_transmit conn_release_items
  after_transmit-InBuffer _ _ s c n b = ground (arith, b)

  module _ (ev : Event) (fits : (i n : ℕ) → FitsInput n (ev.socket i n))
      (chunked : (w : World) (c : Conn) → InBuffer c → InBuffer (ev.chunked w c).1) where
    turn_nread-InBuffer :
        (s : Server) (c : Conn) (n : ℕ)
        → InBuffer c
        → InBuffer (turn_nread calls sizes others ev s c n).conn
    unfolding turn_nread
    turn_nread-InBuffer s c n b =
        let whole = c.item == 0 || not (item_at s.world c.item).it_flags.chunked in
        let r = if whole then nread_plain (ev.socket 0) s.world c else ev.chunked s.world c in
        let d : InBuffer r.1 =
          if_elim (λ (p : World × Conn × Outcome). InBuffer p.1) whole
            (λ _. nread_plain-InBuffer (ev.socket 0) s.world c b) (λ _. chunked s.world c b) in
        if_elim (λ (t : Driven). InBuffer t.conn) (c.rlbytes == 0)
          (λ _. same-InBuffer (complete-Same calls ev.chunk_ends s c) b)
          (λ _. after_read-InBuffer ev.updated r.2 (record s { world = r.0 }) r.1 n d)

    turn_swallow-InBuffer :
        (s : Server) (c : Conn) (n : ℕ)
        → InBuffer c
        → InBuffer (turn_swallow calls sizes others ev s c n).conn
    unfolding turn_swallow
    turn_swallow-InBuffer s c n b =
        let r = swallow (ev.socket 0) c in
        if_elim (λ (t : Driven). InBuffer t.conn) (c.sbytes == 0)
          (λ _. record { start = b.start; end = b.end })
          (λ _. after_read-InBuffer ev.updated r.1 s r.0 n (swallow-InBuffer (ev.socket 0) c b))

    turn_new_cmd-InBuffer :
        (s : Server) (c : Conn) (n : ℕ)
        → InBuffer c
        → InBuffer (turn_new_cmd calls sizes others ev s c n).conn
    unfolding turn_new_cmd
    turn_new_cmd-InBuffer s c zero b = ground (arith, b)
    turn_new_cmd-InBuffer s c (suc n) b = reset-InBuffer ev.resized ev.new_place s c b

    turn_parse-InBuffer :
        (s : Server) (c : Conn) (n : ℕ)
        → InBuffer c
        → InBuffer (turn_parse calls sizes others s c n).conn
    unfolding turn_parse
    turn_parse-InBuffer s c n b =
        let r = try_read_command calls sizes others s c in
        let d = try_read_command-InBuffer s c b in
        if_elim InBuffer r.2 (λ _. d) (λ _. record { start = d.start; end = d.end })

    -- Whatever the state, a turn of the state machine leaves the unread bytes of a connection inside
    -- its read buffer, if they were, if a read of the socket gives no more than was asked for, and if
    -- the commands and the reader of chunked items that are not modelled leave the buffer's pointers
    -- alone or in the buffer.
    pub turn-InBuffer :
        (fuel : ℕ) (state : ConnState) (s : Server) (c : Conn) (n : ℕ)
        → InBuffer c
        → InBuffer (turn calls sizes others fuel ev state s c n).conn
    unfolding turn conn_release_items
    turn-InBuffer fuel conn_new_cmd s c n b = turn_new_cmd-InBuffer s c n b
    turn-InBuffer fuel conn_read s c n b =
        after_network-InBuffer (try_read_network ev.socket ev.grown fuel c) c b
          (try_read_network-InBuffer ev.socket ev.grown fits fuel c b)
    turn-InBuffer fuel conn_parse_cmd s c n b = turn_parse-InBuffer s c n b
    turn-InBuffer fuel conn_write s c n b =
        if_elim (λ (t : Driven). InBuffer t.conn) ev.built
          (λ _. after_transmit-InBuffer conn_write ev.transmit s c n b)
          (λ _. record { start = b.start; end = b.end })
    turn-InBuffer fuel conn_nread s c n b = turn_nread-InBuffer s c n b
    turn-InBuffer fuel conn_swallow s c n b = turn_swallow-InBuffer s c n b
    turn-InBuffer fuel conn_mwrite s c n b = after_transmit-InBuffer conn_mwrite ev.transmit s c n b
    turn-InBuffer fuel conn_waiting s c n b = ground (arith, b)
    turn-InBuffer fuel conn_closing s c n b = record { start = b.start; end = b.end }
    turn-InBuffer fuel _ s c n b = b
