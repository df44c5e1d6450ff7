-- ===== src/Protocol/Conn.antt =====
-- thread/memcached.c and network/memcached.c: a connection that speaks the text protocol over TCP, with
-- the buffer it reads into and the line it answers. The bytes of the read buffer are a function from
-- addresses, `rbuf` its first address; `ritem` is the place in the item's value that is read next;
-- `wline` is what wbuf holds from wcurr on, `ilist` the items from icurr on. The msghdr and iovec lists
-- are made anew for every answer.
use analysis_memcached.Prelude.{
  ℕ, ◌+◌, Bool, false, ◌&&◌, List, [], ◌∷◌, ◌++◌, length, ltb, ◌==◌, if◌then◌else◌,
}
use analysis_memcached.Prelude.Memory.{memcpy, read}
use analysis_memcached.Prelude.Text.{codes}
use analysis_memcached.Store.{Comm}

pub data ConnState : Type 0 where
  conn_listening : ConnState
  conn_new_cmd : ConnState
  conn_waiting : ConnState
  conn_read : ConnState
  conn_parse_cmd : ConnState
  conn_write : ConnState
  conn_nread : ConnState
  conn_swallow : ConnState
  conn_closing : ConnState
  conn_mwrite : ConnState
  conn_closed : ConnState
  conn_watch : ConnState

pub record Conn : Type 0 where
  pub state : ConnState
  pub write_and_go : ConnState
  pub noreply : Bool
  pub bytes : ℕ → ℕ
  pub rbuf : ℕ
  pub rcurr : ℕ
  pub rsize : ℕ
  pub rbytes : ℕ
  pub wline : List ℕ
  pub wsize : ℕ
  pub item : ℕ
  pub ritem : ℕ
  pub rlbytes : ℕ
  pub sbytes : ℕ
  pub cmd : Comm
  pub cas : ℕ
  pub last_cmd_time : ℕ
  pub ilist : List ℕ

-- The sizes of buffers that headers of other directories define.
pub record Sizes : Type 0 where
  pub data_buffer_size : ℕ
  pub read_buffer_highwat : ℕ

abbrev pub conn_set_state : Conn → ConnState → Conn
conn_set_state c state = record c { state = state }

abbrev crlf : List ℕ
crlf = 13 ∷ 10 ∷ []

-- The answer of a command, or none where the client wants none.
unfoldable pub out_string : Conn → List ℕ → Conn
out_string c str =
    let line =
      if ltb c.wsize (length str + 2) then codes "SERVER_ERROR output line too long" else str in
    if c.noreply
    then record c { noreply = false; state = conn_new_cmd }
    else record c { wline = line ++ crlf; state = conn_write; write_and_go = conn_new_cmd }

-- out_of_memory of a text connection.
unfoldable pub out_of_memory : Conn → List ℕ → Conn
unfolding out_string
out_of_memory c ascii_error = out_string c ascii_error

-- memmove(c->rbuf, c->rcurr, c->rbytes)
unfoldable pub move_down : Conn → Conn
move_down c = record c {
  bytes = memcpy c.bytes c.rbuf (read c.bytes c.rcurr c.rbytes);
  rcurr = c.rbuf;
}

-- The read buffer of conn_shrink; `resized` tells whether realloc succeeds, and `place` is the new
-- buffer, which holds the first bytes of the old one.
unfoldable pub conn_shrink : Sizes → Bool → ℕ → Conn → Conn
unfolding move_down
conn_shrink sizes resized place c =
    let moved = if c.rcurr == c.rbuf then c else move_down c in
    if ltb sizes.read_buffer_highwat c.rsize && ltb c.rbytes sizes.data_buffer_size
    then (if resized
        then record moved {
          bytes = memcpy moved.bytes place (read moved.bytes c.rbuf sizes.data_buffer_size);
          rbuf = place;
          rcurr = place;
          rsize = sizes.data_buffer_size;
        }
        else record moved { rcurr = c.rbuf })
    else c

-- What a read of a socket gives: some bytes, the end of the stream, EAGAIN, or an error.
pub data Input : Type 0 where
  got : List ℕ → Input
  ended : Input
  would_block : Input
  failed : Input

pub data TryReadResult : Type 0 where
  read_data_received : TryReadResult
  read_no_data_received : TryReadResult
  read_error : TryReadResult
  read_memory_error : TryReadResult
