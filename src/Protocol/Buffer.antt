-- ===== src/Protocol/Buffer.antt =====
-- The read buffer's bounds. A command leaves the buffer's pointers alone.
use analysis_memcached.Prelude.{ℕ, ◌+◌, ◌≤◌, ◌≡◌, ◌∙◌, Bool, Option, none, some, List, arith}
use analysis_memcached.Prelude.Int.{ℤ}
use analysis_memcached.Store.{Comm, StoreItem, stored}
use analysis_memcached.Store.Delta.{DeltaResult, ok}
use analysis_memcached.Protocol.Conn.{Conn, out_string, out_of_memory}
use analysis_memcached.Protocol.Commands.{
  Server, Calls, UpdateArgs, set_noreply_maybe, update_refused, update_with, process_update_command,
  touch_with, process_touch_command, answer_delta, arithmetic_with, process_arithmetic_command,
  delete_found, delete_key, process_delete_command, answer_store, complete_nread_ascii,
}

-- The unread bytes lie in the read buffer.
pub record InBuffer (c : Conn) : Type 0 where
  pub start : c.rbuf ≤ c.rcurr
  pub end : c.rcurr + c.rbytes ≤ c.rbuf + c.rsize

-- The same buffer with the same bytes unread.
pub record SameBuffer (c d : Conn) : Type 0 where
  pub rbuf : d.rbuf ≡ c.rbuf
  pub rcurr : d.rcurr ≡ c.rcurr
  pub rsize : d.rsize ≡ c.rsize
  pub rbytes : d.rbytes ≡ c.rbytes

pub same-InBuffer : {c d : Conn} → SameBuffer c d → InBuffer c → InBuffer d
same-InBuffer s b = record {
  start = omega (arith, s.rbuf, s.rcurr, b.start);
  end = omega (arith, s.rbuf, s.rcurr, s.rsize, s.rbytes, b.end);
}

SameBuffer-trans : (b c d : Conn) → SameBuffer b c → SameBuffer c d → SameBuffer b d
SameBuffer-trans b c d s t = record {
  rbuf = t.rbuf ∙ s.rbuf;
  rcurr = t.rcurr ∙ s.rcurr;
  rsize = t.rsize ∙ s.rsize;
  rbytes = t.rbytes ∙ s.rbytes;
}

pub out_string-SameBuffer : (c : Conn) (str : List ℕ) → SameBuffer c (out_string c str)
unfolding out_string
out_string-SameBuffer c str = ground arith

pub noreply-SameBuffer :
    (c : Conn) (tok : ℕ → List ℕ) (n : ℕ) → SameBuffer c (set_noreply_maybe c tok n)
unfolding set_noreply_maybe
noreply-SameBuffer c tok n = ground arith

pub out_of_memory-SameBuffer : (c : Conn) (str : List ℕ) → SameBuffer c (out_of_memory c str)
unfolding out_of_memory out_string
out_of_memory-SameBuffer c str = ground arith

ruleset answers = (arith, out_string-SameBuffer, out_of_memory-SameBuffer, noreply-SameBuffer)

-- What every command keeps.
abbrev pub Same : Conn → Server × Conn → Type 0
Same c p = SameBuffer c p.1

module _ (calls : Calls) where
  pub update_refused-Same :
      (comm : Comm) (a : UpdateArgs) (key : List ℕ) (s : Server) (c : Conn)
      → Same c (update_refused calls comm a key s c)
  unfolding update_refused
  update_refused-Same comm a key s c = grind answers

  pub update_with-Same :
      (comm : Comm) (key : List ℕ) (a : Option UpdateArgs) (s : Server) (c : Conn)
      → Same c (update_with calls comm key a s c)
  unfolding update_with
  update_with-Same comm key none s c = grind answers
  update_with-Same comm key (some a) s c = grind (answers, update_refused-Same)

  pub update-Same :
      (comm : Comm) (handle_cas : Bool) (tok : ℕ → List ℕ) (n : ℕ) (s : Server) (c : Conn)
      → Same c (process_update_command calls comm handle_cas tok n s c)
  unfolding process_update_command
  update-Same comm handle_cas tok n s c = grind (answers, update_with-Same)

  pub touch_with-Same :
      (key : List ℕ) (exptime : Option ℤ) (s : Server) (c : Conn)
      → Same c (touch_with calls key exptime s c)
  unfolding touch_with
  touch_with-Same key none s c = grind answers
  touch_with-Same key (some e) s c = grind answers

  pub touch-Same :
      (tok : ℕ → List ℕ) (n : ℕ) (s : Server) (c : Conn)
      → Same c (process_touch_command calls tok n s c)
  unfolding process_touch_command
  touch-Same tok n s c = grind (answers, touch_with-Same)

  pub answer_delta-SameBuffer :
      (r : DeltaResult) (buf : List ℕ) (c : Conn) → SameBuffer c (answer_delta calls r buf c)
  unfolding answer_delta
  answer_delta-SameBuffer ok buf c = grind answers
  answer_delta-SameBuffer _ buf c = grind answers

  pub arithmetic_with-Same :
      (incr : Bool) (key : List ℕ) (delta : Option ℕ) (s : Server) (c : Conn)
      → Same c (arithmetic_with calls incr key delta s c)
  unfolding arithmetic_with
  arithmetic_with-Same incr key none s c = grind answers
  arithmetic_with-Same incr key (some d) s c = grind (answers, answer_delta-SameBuffer)

  pub arithmetic-Same :
      (incr : Bool) (tok : ℕ → List ℕ) (n : ℕ) (s : Server) (c : Conn)
      → Same c (process_arithmetic_command calls incr tok n s c)
  unfolding process_arithmetic_command
  arithmetic-Same incr tok n s c = grind (answers, arithmetic_with-Same)

  pub delete_found-Same : (p : Server × Option ℕ) (c : Conn) → Same c (delete_found calls p c)
  unfolding delete_found
  delete_found-Same (s, none) c = grind answers
  delete_found-Same (s, some it) c = grind answers

  pub delete_key-Same : (key : List ℕ) (s : Server) (c : Conn) → Same c (delete_key calls key s c)
  unfolding delete_key
  delete_key-Same key s c = grind (answers, delete_found-Same)

  pub delete-Same :
      (tok : ℕ → List ℕ) (n : ℕ) (s : Server) (c : Conn)
      → Same c (process_delete_command calls tok n s c)
  unfolding process_delete_command
  delete-Same tok n s c = grind (answers, delete_key-Same)

  pub answer_store-SameBuffer : (r : StoreItem) (c : Conn) → SameBuffer c (answer_store calls r c)
  unfolding answer_store
  answer_store-SameBuffer stored c = grind answers
  answer_store-SameBuffer _ c = grind answers

  pub complete-Same :
      (ends : Bool) (s : Server) (c : Conn) → Same c (complete_nread_ascii calls ends s c)
  unfolding complete_nread_ascii
  complete-Same ends s c = grind (answers, answer_store-SameBuffer)
