-- ===== src/Bipbuffer/Fifo.antt =====
-- The bip buffer as a queue of bytes: `contents` is what a reader will get, in order.
use analysis_memcached.Prelude.{
  ℕ, ◌+◌, ◌-◌, ◌≤◌, ◌<◌, ◌≡◌, refl, ap, ◌⊎◌, inl, inr, true, false, none, some, List, ◌++◌,
  append-nil, append_assoc, length, arith, Bool-cases, ◌==◌, if◌then◌else◌,
}
use analysis_memcached.Prelude.Memory.{memcpy, read, read-memcpy, read-memcpy_outside, read-append}
use analysis_memcached.Bipbuffer.{Bipbuf, bipbuf_request, bipbuf_push, bipbuf_poll}
use analysis_memcached.Bipbuffer.Invariant.{IsValid}

-- Region A, then region B, which starts at offset 0.
unfoldable pub contents : Bipbuf → List ℕ
contents me = read me.bytes me.a_start (me.a_end - me.a_start) ++ read me.bytes 0 me.b_end

-- The bytes that a caller writes at the offset that it was given.
abbrev pub fill : Bipbuf → ℕ → List ℕ → Bipbuf
fill me off xs = record me { bytes = memcpy me.bytes off xs }

-- Where a request may point: behind B or behind A, in bounds and outside both regions.
abbrev pub Slot : Bipbuf → ℕ → ℕ → Type 0
Slot me n off =
    ((me.b_inuse ≡ true) × (off ≡ me.b_end) × (off + n ≤ me.a_start))
    ⊎ ((me.b_inuse ≡ false) × (off ≡ me.a_end) × (off + n ≤ me.size))

pub bipbuf_request-Slot :
    (me : Bipbuf) (n off : ℕ) → IsValid me → bipbuf_request me n ≡ some off → Slot me n off
unfolding bipbuf_request
bipbuf_request-Slot me n off v h = ground arith

-- After a granted request the push is accepted, and moves one write cursor.
push_cursors :
    (me : Bipbuf) (n off : ℕ)
    → IsValid me
    → bipbuf_request me n ≡ some off
    → let r = (bipbuf_push me n).0 in
      ((bipbuf_push me n).1 ≡ n)
      × (r.bytes ≡ me.bytes)
      × (r.a_start ≡ me.a_start)
      × (r.a_end ≡ (if me.b_inuse then me.a_end else off + n))
      × (r.b_end ≡ (if me.b_inuse then off + n else 0))
unfolding bipbuf_request bipbuf_push
push_cursors me n off v h = ground arith

-- A read that ends with the bytes just copied.
read_extended :
    (m : ℕ → ℕ) (s k : ℕ) (xs : List ℕ)
    → read (memcpy m (s + k) xs) s (k + length xs) ≡ read m s k ++ xs
read_extended m s k xs = ground (
  arith,
  read-append (memcpy m (s + k) xs) s k (length xs) (k + length xs) refl,
  read-memcpy_outside m (s + k) xs s k,
  read-memcpy m (s + k) xs,
)

extended_b :
    (m : ℕ → ℕ) (s k b : ℕ) (xs : List ℕ)
    → b + length xs ≤ s
    → read (memcpy m b xs) s k ++ read (memcpy m b xs) 0 (b + length xs)
      ≡ (read m s k ++ read m 0 b) ++ xs
extended_b m s k b xs h =
    let e : 0 + b ≡ b = omega arith in
    ground (
      arith,
      read-memcpy_outside m b xs s k,
      read_extended m 0 b xs,
      ap (λ i. read (memcpy m i xs) 0 (b + length xs)) e,
      append_assoc (read m s k) (read m 0 b) xs,
    )

extended_a :
    (m : ℕ → ℕ) (s e off : ℕ) (xs : List ℕ)
    → s ≤ e
    → off ≡ e
    → read (memcpy m off xs) s (off + length xs - s) ++ read (memcpy m off xs) 0 0
      ≡ (read m s (e - s) ++ read m 0 0) ++ xs
unfolding read
extended_a m s e off xs h p =
    let d : s + (e - s) ≡ off = omega arith in
    let f : e - s + length xs ≡ off + length xs - s = omega arith in
    ground (
      arith,
      read_extended m s (e - s) xs,
      ap (λ i. read (memcpy m i xs) s (e - s + length xs)) d,
      ap (λ i. read (memcpy m off xs) s i) f,
      append-nil (read m s (e - s)),
      append-nil (read (memcpy m off xs) s (off + length xs - s)),
    )

-- A request that is granted, filled with bytes and pushed adds exactly these bytes at the end of
-- the queue, and the push reports their number.
pub contents-push :
    (me : Bipbuf) (xs : List ℕ) (off : ℕ)
    → IsValid me
    → bipbuf_request me (length xs) ≡ some off
    → let r = bipbuf_push (fill me off xs) (length xs) in
      (contents r.0 ≡ contents me ++ xs) × (r.1 ≡ length xs)
unfolding contents
contents-push me xs off v h =
    let w : IsValid (fill me off xs) = ground arith in
    let g : bipbuf_request (fill me off xs) (length xs) ≡ some off = unfold bipbuf_request in h in
    ground (
      arith,
      bipbuf_request-Slot me (length xs) off v h,
      push_cursors (fill me off xs) (length xs) off w g,
      extended_b me.bytes me.a_start (me.a_end - me.a_start) me.b_end xs,
      extended_a me.bytes me.a_start me.a_end off xs,
    )

-- A refused request leaves no room for a push, which then changes nothing.
pub push-refused : (me : Bipbuf) (n : ℕ) → bipbuf_request me n ≡ none → bipbuf_push me n ≡ (me, 0)
unfolding bipbuf_request bipbuf_push
push-refused me n h = ground arith

-- A poll moves the read cursor, or, when region A runs out, lets B take its place.
poll_cursors :
    (me : Bipbuf) (n : ℕ)
    → IsValid me
    → 0 < n
    → me.a_start + n ≤ me.a_end
    → let r = bipbuf_poll me n in
      let emptied = me.a_start + n == me.a_end in
      (r.1 ≡ some me.a_start)
      × (r.0.bytes ≡ me.bytes)
      × (r.0.a_start ≡ (if emptied then 0 else me.a_start + n))
      × (r.0.a_end ≡ (if emptied then me.b_end else me.a_end))
      × (r.0.b_end ≡ (if emptied then 0 else me.b_end))
unfolding bipbuf_poll
poll_cursors me n v p h = ground arith

split_a :
    (m : ℕ → ℕ) (s n e : ℕ)
    → s + n ≤ e
    → read m s (e - s) ≡ read m s n ++ read m (s + n) (e - (s + n))
split_a m s n e h = read-append m s n (e - (s + n)) (e - s) (omega arith)

-- A poll of bytes that region A holds hands out the oldest bytes of the queue and removes them.
pub contents-poll :
    (me : Bipbuf) (n : ℕ)
    → IsValid me
    → 0 < n
    → me.a_start + n ≤ me.a_end
    → let r = bipbuf_poll me n in
      (r.1 ≡ some me.a_start) × (contents me ≡ read me.bytes me.a_start n ++ contents r.0)
unfolding contents read
contents-poll me n v p h = elim (Bool-cases (me.a_start + n == me.a_end)) [
  | inl e ↦
      let d : me.a_end - me.a_start ≡ n = ground arith in
      ground (arith, poll_cursors me n v p h, append-nil (read me.bytes 0 me.b_end))
  | inr e ↦ ground (
    arith,
    poll_cursors me n v p h,
    split_a me.bytes me.a_start n me.a_end h,
    append_assoc (read me.bytes me.a_start n)
        (read me.bytes (me.a_start + n) (me.a_end - (me.a_start + n))) (read me.bytes 0 me.b_end),
  )
]
