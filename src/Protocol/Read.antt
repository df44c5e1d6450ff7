-- ===== src/Protocol/Read.antt =====
-- thread/memcached.c: what a connection reads, into its buffer by try_read_network and into an item by
-- the states conn_nread and conn_swallow of drive_machine. `socket i n` is the answer of the i-th
-- read to a request of n bytes, `grown k` the buffer that the k-th realloc gives.
-- read_into_chunked_item, which has no source here, is an argument.
use analysis_memcached.Prelude.{
  ℕ, zero, suc, ◌+◌, ◌-◌, ◌*◌, not, ◌&&◌, Option, none, some, List, ◌++◌, length, take, drop, ltb,
  leb, ◌==◌, if◌then◌else◌,
}
use analysis_memcached.Prelude.Memory.{memcpy, read}
use analysis_memcached.Prelude.Text.{codes}
use analysis_memcached.Items.{World, item_at, set_item}
use analysis_memcached.Protocol.Conn.{
  Conn, Input, got, ended, would_block, failed, TryReadResult, read_data_received,
  read_no_data_received, read_error, read_memory_error, move_down, out_of_memory, conn_closing,
}

unfoldable pub receive : Conn → List ℕ → Conn
receive c bs = record c {
  bytes = memcpy c.bytes (c.rbuf + c.rbytes) bs;
  rbytes = c.rbytes + length bs;
}

-- The buffer at twice its size.
unfoldable pub grow : Conn → ℕ → Conn
grow c place = record c {
  bytes = memcpy c.bytes place (read c.bytes c.rbuf c.rsize);
  rbuf = place;
  rcurr = place;
  rsize = c.rsize * 2;
}

unfoldable pub read_no_memory : Conn → Conn
unfolding out_of_memory
read_no_memory c =
    record (out_of_memory (record c { rbytes = 0 })
      (codes "SERVER_ERROR out of memory reading request")) { write_and_go = conn_closing }

-- An answer of the socket, where the loop goes on by `next` if the buffer was filled.
unfoldable pub read_once :
    Input
    → Conn
    → TryReadResult
    → (Conn → Option (Conn × TryReadResult))
    → Option (Conn × TryReadResult)
unfolding receive
read_once (got bs) c gotdata next =
    let c' = receive c bs in
    if length bs == c.rsize - c.rbytes then next c' else some (c', read_data_received)
read_once ended c gotdata next = some (c, read_error)
read_once would_block c gotdata next = some (c, gotdata)
read_once failed c gotdata next = some (c, read_error)

module _ (socket : ℕ → ℕ → Input) (grown : ℕ → Option ℕ) where
  -- The loop, with its turn `i`; `none` if its fuel runs out.
  unfoldable pub read_loop : ℕ → ℕ → ℕ → TryReadResult → Conn → Option (Conn × TryReadResult)
  unfolding read_once grow read_no_memory
  read_loop zero i num_allocs gotdata c = none
  read_loop (suc fuel) i num_allocs gotdata c =
      let read_more = λ (k : ℕ) (d : Conn).
        read_once (socket i (d.rsize - d.rbytes)) d gotdata
          (read_loop fuel (i + 1) k read_data_received) in
      if leb c.rsize c.rbytes
      then (if num_allocs == 4 then some (c, gotdata) else elim (grown num_allocs) [
        | none ↦ some (read_no_memory c, read_memory_error)
        | some place ↦ read_more (num_allocs + 1) (grow c place)
      ])
      else read_more num_allocs c

  unfoldable pub try_read_network : ℕ → Conn → Option (Conn × TryReadResult)
  unfolding read_loop move_down
  try_read_network fuel c = read_loop fuel 0 0 read_no_data_received (
      if c.rcurr == c.rbuf
      then c
      else if c.rbytes == 0
      then record c { rcurr = c.rbuf }
      else move_down c)

-- How a step of reading into an item ends: it has progressed, or the socket's answer stops it.
pub data Outcome : Type 0 where
  progress : Outcome
  stream_end : Outcome
  blocked : Outcome
  no_room : Outcome
  broken : Outcome

abbrev pub min : ℕ → ℕ → ℕ
min a b = if ltb b a then b else a

-- Bytes written at a place of an item's value.
unfoldable pub write_value : World → ℕ → ℕ → List ℕ → World
write_value w it at bs =
    let c = item_at w it in
    set_item w it (record c { value = take at c.value ++ (bs ++ drop (at + length bs) c.value) })

-- What the read buffer still holds goes into the item.
unfoldable pub copy_leftovers : World → Conn → World × Conn
unfolding write_value
copy_leftovers w c =
    let tocopy = min c.rbytes c.rlbytes in
    if c.rbytes == 0 then (w, c) else (
      write_value w c.item c.ritem (read c.bytes c.rcurr tocopy),
      record c {
        ritem = c.ritem + tocopy;
        rlbytes = c.rlbytes - tocopy;
        rcurr = c.rcurr + tocopy;
        rbytes = c.rbytes - tocopy;
      },
    )

-- The read into the item. rcurr points into the read buffer, so the test rcurr == ritem of the source,
-- for reads of the binary protocol into that buffer, fails.
unfoldable pub read_item : Input → World → Conn → World × Conn × Outcome
unfolding write_value
read_item (got bs) w c = (
  write_value w c.item c.ritem bs,
  record c { ritem = c.ritem + length bs; rlbytes = c.rlbytes - length bs },
  progress,
)
read_item ended w c = (w, c, stream_end)
read_item would_block w c = (w, c, blocked)
read_item failed w c = (w, c, broken)

-- conn_nread for an item in one piece, of which some bytes are missing.
unfoldable pub nread_plain : (ℕ → Input) → World → Conn → World × Conn × Outcome
unfolding copy_leftovers read_item
nread_plain socket w c =
    let (v, d) = copy_leftovers w c in
    if not (c.rbytes == 0) && d.rlbytes == 0
    then (v, d, progress)
    else read_item (socket d.rlbytes) v d

-- conn_swallow, where bytes are still to be thrown away.
unfoldable pub swallow_socket : Input → Conn → Conn × Outcome
swallow_socket (got bs) c =
    (record c { bytes = memcpy c.bytes c.rbuf bs; sbytes = c.sbytes - length bs }, progress)
swallow_socket ended c = (c, stream_end)
swallow_socket would_block c = (c, blocked)
swallow_socket failed c = (c, broken)

unfoldable pub swallow : (ℕ → Input) → Conn → Conn × Outcome
unfolding swallow_socket
swallow socket c =
    let tocopy = min c.rbytes c.sbytes in
    if c.rbytes == 0 then swallow_socket (socket (min c.rsize c.sbytes)) c else (
      record c { sbytes = c.sbytes - tocopy; rcurr = c.rcurr + tocopy; rbytes = c.rbytes - tocopy },
      progress,
    )
