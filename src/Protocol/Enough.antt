-- ===== src/Protocol/Enough.antt =====
-- The loop of try_read_network ends: its buffer grows four times at most.
use analysis_memcached.Prelude.{
  ℕ, zero, suc, ◌+◌, ◌-◌, ◌≤◌, ◌<◌, ◌≡◌, ◌≢◌, Option, none, some, length, leb, ◌==◌, if_elim,
  option_elim, arith,
}
use analysis_memcached.Protocol.Conn.{
  Conn, Input, got, ended, would_block, failed, TryReadResult, read_data_received,
  read_no_data_received, read_memory_error, move_down,
}
use analysis_memcached.Protocol.Read.{
  receive, grow, read_no_memory, read_once, read_loop, try_read_network,
}
use analysis_memcached.Protocol.Buffer.{InBuffer}

-- The loop has returned.
abbrev Returned : Option (Conn × TryReadResult) → Type 0
Returned r = r ≢ none

some-Returned : (p : Conn × TryReadResult) → Returned (some p)
some-Returned p e = cc

read_once-Returned :
    (x : Input) (c : Conn) (g : TryReadResult) (next : Conn → Option (Conn × TryReadResult))
    → c.rbytes ≤ c.rsize
    → ((d : Conn) → d.rbytes ≡ d.rsize → Returned (next d))
    → Returned (read_once x c g next)
unfolding read_once receive
read_once-Returned (got bs) c g next h k =
    if_elim Returned (length bs == c.rsize - c.rbytes)
      (λ e. k (receive c bs) (ground (arith, e, h))) (λ _. some-Returned _)
read_once-Returned ended c g next h k = some-Returned _
read_once-Returned would_block c g next h k = some-Returned _
read_once-Returned failed c g next h k = some-Returned _

module _ (socket : ℕ → ℕ → Input) (grown : ℕ → Option ℕ) where
  -- With a full buffer the loop takes a turn for each growth that is left, and one to return.
  full-Returned :
      (fuel i k : ℕ) (g : TryReadResult) (c : Conn)
      → k ≤ 4
      → 4 < fuel + k
      → c.rbytes ≡ c.rsize
      → Returned (read_loop socket grown fuel i k g c)
  unfolding read_loop grow
  full-Returned zero i k g c h f e = absurd (omega (arith, h, f))
  full-Returned (suc fuel) i k g c h f e =
      if_elim Returned (leb c.rsize c.rbytes)
        (λ _.
          if_elim Returned (k == 4) (λ _. some-Returned _)
            (λ more.
              option_elim Returned (grown k) (some (read_no_memory c, read_memory_error))
                (λ place.
                  read_once (socket i ((grow c place).rsize - (grow c place).rbytes)) (grow c place)
                    g (read_loop socket grown fuel (i + 1) (k + 1) read_data_received))
                (some-Returned _)
                (λ place. read_once-Returned _ (grow c place) g _ (omega (arith, e)) (λ d full.
                  full-Returned fuel (i + 1) (k + 1) read_data_received d (ground (arith, h, more))
                    (omega (arith, f)) full))))
        (λ small. absurd (ground (arith, small, e)))

  loop-Returned :
      (fuel i : ℕ) (g : TryReadResult) (c : Conn)
      → 5 < fuel
      → c.rbytes ≤ c.rsize
      → Returned (read_loop socket grown fuel i 0 g c)
  unfolding read_loop grow
  loop-Returned zero i g c f e = absurd (omega (arith, f))
  loop-Returned (suc fuel) i g c f e =
      if_elim Returned (leb c.rsize c.rbytes)
        (λ _.
          option_elim Returned (grown 0) (some (read_no_memory c, read_memory_error))
            (λ place.
              read_once (socket i ((grow c place).rsize - (grow c place).rbytes)) (grow c place) g
                (read_loop socket grown fuel (i + 1) 1 read_data_received))
            (some-Returned _)
            (λ place. read_once-Returned _ (grow c place) g _ (omega (arith, e)) (λ d full.
              full-Returned fuel (i + 1) 1 read_data_received d (omega arith) (omega (arith, f))
                full)))
        (λ _. read_once-Returned _ c g _ e (λ d full.
          full-Returned fuel (i + 1) 0 read_data_received d (omega arith) (omega (arith, f)) full))

  -- Six turns are enough for a read of the network, whatever the socket gives.
  pub try_read_network-returns :
      (fuel : ℕ) (c : Conn) → 5 < fuel → InBuffer c → try_read_network socket grown fuel c ≢ none
  unfolding try_read_network move_down
  try_read_network-returns fuel c f b =
      loop-Returned fuel 0 read_no_data_received _ f (ground (arith, b))
