-- ===== src/Bipbuffer/Flaws.antt =====
-- Where bipbuf_offer and bipbuf_poll of memory_lru/bipbuffer.c do not keep the queue.
use analysis_memcached.Prelude.{
  ℕ, ◌+◌, ◌-◌, ◌≤◌, ◌<◌, ◌≡◌, ap, ◌⊎◌, inr, true, false, some, List, ◌++◌, append-nil, length,
  arith,
}
use analysis_memcached.Prelude.Memory.{read, memcpy, read-memcpy_outside, read-append}
use analysis_memcached.Bipbuffer.{Bipbuf, bipbuf_request, bipbuf_push, bipbuf_offer, bipbuf_poll}
use analysis_memcached.Bipbuffer.Invariant.{IsValid}
use analysis_memcached.Bipbuffer.Fifo.{contents, fill, contents-push}

-- What fits into the buffer, of either kind of space.
abbrev pub Fits : Bipbuf → ℕ → Type 0
Fits me n =
    ((me.b_inuse ≡ true) × (me.b_end + n ≤ me.a_start))
    ⊎ ((me.b_inuse ≡ false) × (me.a_end + n ≤ me.size))

-- An offer is a push of bytes that are written at the end of region B, even when A is in use.
offer-push :
    (me : Bipbuf) (xs : List ℕ)
    → IsValid me
    → Fits me (length xs)
    → bipbuf_offer me xs ≡ bipbuf_push (fill me me.b_end xs) (length xs)
unfolding bipbuf_offer bipbuf_push
offer-push me xs v h = ground arith

request_at_b :
    (me : Bipbuf) (n : ℕ)
    → IsValid me
    → Fits me n
    → (me.b_inuse ≡ true) ⊎ (me.a_end ≡ 0)
    → bipbuf_request me n ≡ some me.b_end
unfolding bipbuf_request
request_at_b me n v h c = ground arith

-- An offer that fits adds its bytes at the end of the queue when region B is in use or when A
-- stands at the start of the buffer.
pub contents-offer :
    (me : Bipbuf) (xs : List ℕ)
    → IsValid me
    → Fits me (length xs)
    → (me.b_inuse ≡ true) ⊎ (me.a_end ≡ 0)
    → (contents (bipbuf_offer me xs).0 ≡ contents me ++ xs) × ((bipbuf_offer me xs).1 ≡ length xs)
contents-offer me xs v h c = ground (
  arith,
  offer-push me xs v h,
  contents-push me xs me.b_end v (request_at_b me (length xs) v h c),
)

offer_cursors :
    (me : Bipbuf) (xs : List ℕ)
    → IsValid me
    → Fits me (length xs)
    → me.b_inuse ≡ false
    → let r = bipbuf_offer me xs in
      (r.1 ≡ length xs)
      × (r.0.bytes ≡ memcpy me.bytes 0 xs)
      × (r.0.a_start ≡ me.a_start)
      × (r.0.a_end ≡ me.a_end + length xs)
      × (r.0.b_end ≡ 0)
unfolding bipbuf_offer
offer_cursors me xs v h c = ground arith

stale_read :
    (m : ℕ → ℕ) (s e : ℕ) (xs : List ℕ)
    → length xs ≤ s
    → s ≤ e
    → read (memcpy m 0 xs) s (e + length xs - s) ≡ read m s (e - s) ++ read m e (length xs)
stale_read m s e xs h p =
    let d : s + (e - s) ≡ e = omega arith in
    ground (
      arith,
      read-memcpy_outside m 0 xs s (e + length xs - s),
      read-append m s (e - s) (length xs) (e + length xs - s),
      ap (λ i. read m i (length xs)) d,
    )

-- An offer that fits, while B is not in use and the space before A could take the bytes, loses
-- the offered bytes: the queue grows by whatever stood behind region A, and the offer reports
-- success.
pub offer_stale :
    (me : Bipbuf) (xs : List ℕ)
    → IsValid me
    → me.b_inuse ≡ false
    → length xs ≤ me.a_start
    → me.a_end + length xs ≤ me.size
    → let r = bipbuf_offer me xs in
      (contents r.0 ≡ contents me ++ read me.bytes me.a_end (length xs)) × (r.1 ≡ length xs)
unfolding contents read
offer_stale me xs v c h p = ground (
  arith,
  offer_cursors me xs v (inr (c, p)) c,
  stale_read me.bytes me.a_start me.a_end xs h,
  append-nil (read me.bytes me.a_start (me.a_end - me.a_start)),
  append-nil (read (memcpy me.bytes 0 xs) me.a_start (me.a_end + length xs - me.a_start)),
)

-- A poll of more bytes than region A holds, but no more than lie between its start and the end of
-- the buffer, succeeds and leaves the read cursor behind the write cursor, so that the buffer is
-- not valid any more.
pub poll_overrun :
    (me : Bipbuf) (n : ℕ)
    → IsValid me
    → me.a_start < me.a_end
    → me.a_end < me.a_start + n
    → me.a_start + n ≤ me.size
    → let r = bipbuf_poll me n in
      (r.1 ≡ some me.a_start) × (r.0.a_end < r.0.a_start) × ¬ (IsValid r.0)
unfolding bipbuf_poll
poll_overrun me n v p h q = (ground arith, ground arith, λ w. ground arith)
