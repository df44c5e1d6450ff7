-- ===== src/Protocol/Bounds.antt =====
-- What is read stays in the bounds of the read buffer.
use analysis_memcached.Prelude.{
  ℕ, zero, suc, ◌+◌, ◌-◌, ◌≤◌, ◌≡◌, refl, Bool, not, ◌&&◌, Option, none, some, List, length, leb,
  ◌==◌, if_elim, option_elim, arith,
}
use analysis_memcached.Items.{World}
use analysis_memcached.Protocol.Conn.{
  Conn, Sizes, Input, got, ended, would_block, failed, TryReadResult, read_data_received,
  read_no_data_received, read_memory_error, move_down, conn_shrink,
}
use analysis_memcached.Protocol.Read.{
  receive, grow, read_no_memory, read_once, read_loop, try_read_network, min, copy_leftovers,
  read_item, nread_plain, swallow, swallow_socket, Outcome,
}
use analysis_memcached.Protocol.Buffer.{InBuffer, out_of_memory-SameBuffer}

-- The socket gives at most what was asked for.
abbrev pub FitsInput : ℕ → Input → Type 0
FitsInput n (got bs) = length bs ≤ n
FitsInput n ended = Unit
FitsInput n would_block = Unit
FitsInput n failed = Unit

-- A buffer from whose start on the bytes are unread.
record AtStart (c : Conn) : Type 0 where
  pub start : c.rcurr ≡ c.rbuf
  pub end : c.rbytes ≤ c.rsize

AtStart-InBuffer : {c : Conn} → AtStart c → InBuffer c
AtStart-InBuffer a = record { start = omega (arith, a.start); end = omega (arith, a.start, a.end) }

abbrev pub Result-InBuffer : Option (Conn × TryReadResult) → Type 0
Result-InBuffer none = Unit
Result-InBuffer (some (c, r)) = InBuffer c

read_no_memory-InBuffer : (c : Conn) → AtStart c → InBuffer (read_no_memory c)
unfolding read_no_memory
read_no_memory-InBuffer c a =
    let s = out_of_memory-SameBuffer (record c { rbytes = 0 }) in grind (arith, s, a)

receive-AtStart :
    (c : Conn) (bs : List ℕ) → length bs ≤ c.rsize - c.rbytes → AtStart c → AtStart (receive c bs)
unfolding receive
receive-AtStart c bs h a = record { start = a.start; end = omega (arith, h, a.end) }

grow-AtStart : (c : Conn) (place : ℕ) → AtStart c → AtStart (grow c place)
unfolding grow
grow-AtStart c place a = record { start = refl; end = omega (arith, a.end) }

read_once-InBuffer :
    (x : Input) (c : Conn) (gotdata : TryReadResult) (next : Conn → Option (Conn × TryReadResult))
    → FitsInput (c.rsize - c.rbytes) x
    → AtStart c
    → ((d : Conn) → AtStart d → Result-InBuffer (next d))
    → Result-InBuffer (read_once x c gotdata next)
unfolding read_once
read_once-InBuffer (got bs) c g next h a k =
    let r = receive-AtStart c bs h a in
    if_elim Result-InBuffer (length bs == c.rsize - c.rbytes) (λ _. k (receive c bs) r)
      (λ _. AtStart-InBuffer r)
read_once-InBuffer ended c g next h a k = AtStart-InBuffer a
read_once-InBuffer would_block c g next h a k = AtStart-InBuffer a
read_once-InBuffer failed c g next h a k = AtStart-InBuffer a

module _ (socket : ℕ → ℕ → Input) (grown : ℕ → Option ℕ)
    (fits : (i n : ℕ) → FitsInput n (socket i n)) where
  read_loop-InBuffer :
      (fuel i k : ℕ) (g : TryReadResult) (c : Conn)
      → AtStart c
      → Result-InBuffer (read_loop socket grown fuel i k g c)
  unfolding read_loop
  read_loop-InBuffer zero i k g c a = tt
  read_loop-InBuffer (suc fuel) i k g c a =
      let more = λ (m : ℕ) (d : Conn) (b : AtStart d).
        read_once-InBuffer (socket i (d.rsize - d.rbytes)) d g
          (read_loop socket grown fuel (i + 1) m read_data_received) (fits i (d.rsize - d.rbytes)) b
          (λ e. read_loop-InBuffer fuel (i + 1) m read_data_received e) in
      if_elim Result-InBuffer (leb c.rsize c.rbytes)
        (λ _.
          if_elim Result-InBuffer (k == 4) (λ _. AtStart-InBuffer a)
            (λ _.
              option_elim Result-InBuffer (grown k) (some (read_no_memory c, read_memory_error))
                (λ place.
                  read_once (socket i ((grow c place).rsize - (grow c place).rbytes)) (grow c place)
                    g (read_loop socket grown fuel (i + 1) (k + 1) read_data_received))
                (read_no_memory-InBuffer c a)
                (λ place. more (k + 1) (grow c place) (grow-AtStart c place a))))
        (λ _. more k c a)

  pub try_read_network-InBuffer :
      (fuel : ℕ) (c : Conn) → InBuffer c → Result-InBuffer (try_read_network socket grown fuel c)
  unfolding try_read_network move_down
  try_read_network-InBuffer fuel c b =
      read_loop-InBuffer fuel 0 0 read_no_data_received _ (ground (arith, b))

min_bounds : (a b : ℕ) → (min a b ≤ a) × (min a b ≤ b)
min_bounds a b = ground arith

leftovers-InBuffer : (w : World) (c : Conn) → InBuffer c → InBuffer (copy_leftovers w c).1
unfolding copy_leftovers
leftovers-InBuffer w c b = ground (arith, min_bounds c.rbytes c.rlbytes)

read_item-InBuffer : (x : Input) (w : World) (c : Conn) → InBuffer c → InBuffer (read_item x w c).1
unfolding read_item
read_item-InBuffer (got bs) w c b = record { start = b.start; end = b.end }
read_item-InBuffer _ w c b = b

pub nread_plain-InBuffer :
    (socket : ℕ → Input) (w : World) (c : Conn) → InBuffer c → InBuffer (nread_plain socket w c).1
unfolding nread_plain
nread_plain-InBuffer socket w c b =
    let u = copy_leftovers w c in
    let d = leftovers-InBuffer w c b in
    if_elim (λ (p : World × Conn × Outcome). InBuffer p.1) (not (c.rbytes == 0) && u.1.rlbytes == 0)
      (λ _. d) (λ _. read_item-InBuffer (socket u.1.rlbytes) u.0 u.1 d)

swallow_socket-InBuffer : (x : Input) (c : Conn) → InBuffer c → InBuffer (swallow_socket x c).0
unfolding swallow_socket
swallow_socket-InBuffer (got bs) c b = record { start = b.start; end = b.end }
swallow_socket-InBuffer _ c b = b

pub swallow-InBuffer : (socket : ℕ → Input) (c : Conn) → InBuffer c → InBuffer (swallow socket c).0
unfolding swallow
swallow-InBuffer socket c b =
    let m = min_bounds c.rbytes c.sbytes in
    if_elim (λ (p : Conn × Outcome). InBuffer p.0) (c.rbytes == 0)
      (λ _. swallow_socket-InBuffer (socket (min c.rsize c.sbytes)) c b)
      (λ _. record { start = omega (arith, b.start); end = omega (arith, b.end, m) })

pub conn_shrink-InBuffer :
    (sizes : Sizes) (resized : Bool) (place : ℕ) (c : Conn)
    → InBuffer c
    → InBuffer (conn_shrink sizes resized place c)
unfolding conn_shrink move_down
conn_shrink-InBuffer sizes resized place c b = ground (arith, b)
