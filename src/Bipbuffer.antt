-- ===== src/Bipbuffer.antt =====
-- memory_lru/bipbuffer.c and memory_lru/bipbuffer.h: the two-region byte queue of the LRU bumps.
-- `data` is the byte array after the header, as a memory; pointers into it are offsets. The sizes
-- that callers pass are ints of at least 0. `size` is an unsigned long, the cursors are unsigned
-- ints, and their sums and differences wrap as the machine's do.
pub mod Invariant
pub mod Fifo
pub mod Flaws
mod Tests
use analysis_memcached.Prelude.{
  ℕ, ◌+◌, ◌-◌, ◌%◌, ◌^◌, Bool, true, false, Option, none, some, List, length, ltb, ◌==◌,
  if◌then◌else◌, add32, sub32, sub64,
}
use analysis_memcached.Prelude.Int.{ℤ, pos, ltb_ℤ, signed32}
use analysis_memcached.Prelude.Memory.{memcpy}

pub record Bipbuf : Type 0 where
  pub size : ℕ
  -- region A
  pub a_start : ℕ
  pub a_end : ℕ
  -- region B
  pub b_end : ℕ
  pub b_inuse : Bool
  pub bytes : ℕ → ℕ

unfoldable pub bipbuf_unused : Bipbuf → ℤ
bipbuf_unused me =
    if me.b_inuse
    then signed32 (sub32 me.a_start me.b_end)
    else signed32 (sub64 me.size me.a_end % 2 ^ 32)

unfoldable pub bipbuf_used : Bipbuf → ℤ
bipbuf_used me = signed32 (add32 (sub32 me.a_end me.a_start) me.b_end)

-- The cursors that bipbuf_init sets; the bytes are whatever the memory held.
unfoldable pub bipbuf_init : (ℕ → ℕ) → ℕ → Bipbuf
bipbuf_init memory size = record {
  size = size;
  a_start = 0;
  a_end = 0;
  b_end = 0;
  b_inuse = false;
  bytes = memory;
}

-- `none` for the memory is a malloc that failed.
unfoldable pub bipbuf_new : Option (ℕ → ℕ) → ℕ → Option Bipbuf
unfolding bipbuf_init
bipbuf_new none size = none
bipbuf_new (some memory) size = some (bipbuf_init memory size)

unfoldable pub bipbuf_is_empty : Bipbuf → Bool
bipbuf_is_empty me = me.a_start == me.a_end

-- Turn on region B if the space behind A is less than the space before it.
unfoldable pub check_for_switch_to_b : Bipbuf → Bipbuf
check_for_switch_to_b me =
    if ltb (sub64 me.size me.a_end) (sub32 me.a_start me.b_end)
    then record me { b_inuse = true }
    else me

-- The offset at which the caller may write `size` bytes.
unfoldable pub bipbuf_request : Bipbuf → ℕ → Option ℕ
unfolding bipbuf_unused
bipbuf_request me size =
    if ltb_ℤ (bipbuf_unused me) (pos size)
    then none
    else if me.b_inuse
    then some me.b_end
    else some me.a_end

-- Moves the write cursor past `size` bytes.
unfoldable pub advance : Bipbuf → ℕ → Bipbuf
advance me size =
    if me.b_inuse
    then record me { b_end = add32 me.b_end size }
    else record me { a_end = add32 me.a_end size }

unfoldable pub bipbuf_push : Bipbuf → ℕ → Bipbuf × ℕ
unfolding bipbuf_unused advance check_for_switch_to_b
bipbuf_push me size =
    if ltb_ℤ (bipbuf_unused me) (pos size)
    then (me, 0)
    else (check_for_switch_to_b (advance me size), size)

-- Both branches of the source copy to `data + b_end`.
unfoldable pub bipbuf_offer : Bipbuf → List ℕ → Bipbuf × ℕ
unfolding bipbuf_unused advance check_for_switch_to_b
bipbuf_offer me src = if ltb_ℤ (bipbuf_unused me) (pos (length src)) then (me, 0) else (
  check_for_switch_to_b (advance (record me { bytes = memcpy me.bytes me.b_end src }) (length src)),
  length src,
)

unfoldable pub bipbuf_peek : Bipbuf → ℕ → Option ℕ
unfolding bipbuf_is_empty
bipbuf_peek me size =
    if ltb me.size (add32 me.a_start size)
    then none
    else if bipbuf_is_empty me
    then none
    else some me.a_start

-- The offset and the length of the data.
unfoldable pub bipbuf_peek_all : Bipbuf → Option (ℕ × ℕ)
unfolding bipbuf_is_empty
bipbuf_peek_all me =
    if bipbuf_is_empty me then none else some (me.a_start, sub32 me.a_end me.a_start)

-- When A has been read out, B takes its place, or the cursors go back to the start.
unfoldable pub replace_a : Bipbuf → Bipbuf
replace_a me =
    if me.a_start == me.a_end
    then (if me.b_inuse
        then record me { a_start = 0; a_end = me.b_end; b_end = 0; b_inuse = false }
        else record me { a_start = 0; a_end = 0 })
    else me

unfoldable pub bipbuf_poll : Bipbuf → ℕ → Bipbuf × Option ℕ
unfolding bipbuf_is_empty replace_a check_for_switch_to_b
bipbuf_poll me size =
    if bipbuf_is_empty me
    then (me, none)
    else if ltb me.size (add32 me.a_start size)
    then (me, none)
    else (
      check_for_switch_to_b (replace_a (record me { a_start = add32 me.a_start size })),
      some me.a_start,
    )
