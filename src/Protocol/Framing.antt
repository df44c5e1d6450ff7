-- ===== src/Protocol/Framing.antt =====
-- The data of a storing command: what the state conn_nread reads is the client's next bytes.
use mathlib.Core.Path.{subst}
use analysis_memcached.Prelude.{
  ℕ, zero, suc, ◌+◌, ◌-◌, ◌≤◌, ◌≡◌, ◌≢◌, inl, inr, refl, sym, ap, ◌∙◌, Bool, true, false, not, ◌&&◌,
  List, [], ◌∷◌, ◌++◌, append_assoc, length, length-append, take, drop, ◌==◌, if◌then◌else◌,
  if_elim, arith, Bool-cases, take-append, drop-append,
}
use analysis_memcached.Prelude.Memory.{read, length-read, read-append}
use analysis_memcached.Items.{World, item_at}
use analysis_memcached.Protocol.Conn.{Conn, got}
use analysis_memcached.Protocol.Read.{
  Outcome, progress, min, write_value, copy_leftovers, read_item, nread_plain,
}

-- The bytes of the read buffer that no command has used.
abbrev pub unread : Conn → List ℕ
unread c = read c.bytes c.rcurr c.rbytes

-- The data that has arrived in the connection's item.
abbrev pub arrived : World → Conn → List ℕ
arrived w c = take c.ritem (item_at w c.item).value

length-take : (n : ℕ) (xs : List ℕ) → n ≤ length xs → length (take n xs) ≡ n
length-take zero xs h = refl
length-take (suc n) [] h = absurd (omega arith)
length-take (suc n) (x ∷ xs) h = omega (arith, length-take n xs (omega arith))

value_lem :
    (w : World) (it at : ℕ) (bs : List ℕ)
    → (item_at (write_value w it at bs) it).value
      ≡ take at (item_at w it).value ++ (bs ++ drop (at + length bs) (item_at w it).value)
unfolding write_value
value_lem w it at bs = ground arith

-- What was in the item before the place, and the bytes, are in it after a write.
written :
    (w : World) (it at : ℕ) (bs : List ℕ)
    → at ≤ length (item_at w it).value
    → take (at + length bs) (item_at (write_value w it at bs) it).value
      ≡ take at (item_at w it).value ++ bs
written w it at bs h =
    let v = (item_at w it).value in
    ap (take (at + length bs))
      (value_lem w it at bs ∙ sym (append_assoc (take at v) bs (drop (at + length bs) v)))
    ∙ take-append (at + length bs) (take at v ++ bs) (drop (at + length bs) v)
        (length-append (take at v) bs ∙ ap (λ n. n + length bs) (length-take at v h))

written_room :
    (w : World) (it at : ℕ) (bs : List ℕ)
    → at ≤ length (item_at w it).value
    → at + length bs ≤ length (item_at (write_value w it at bs) it).value
written_room w it at bs h =
    let v = (item_at w it).value in
    omega (
      arith,
      ap length (value_lem w it at bs),
      length-take at v h,
      length-append (take at v) (bs ++ drop (at + length bs) v),
      length-append bs (drop (at + length bs) v),
    )

-- What is kept while the data is read: `tape` is what the client still sends.
pub record Framed (w v : World) (c d : Conn) (tape tape' : List ℕ) : Type 0 where
  pub same_item : d.item ≡ c.item
  pub stream : arrived v d ++ (unread d ++ tape') ≡ arrived w c ++ (unread c ++ tape)
  pub amount : d.ritem + d.rlbytes ≡ c.ritem + c.rlbytes
  pub room : d.ritem ≤ length (item_at v d.item).value

-- Bytes that go from the front of the stream into the item.
put-Framed :
    (w : World) (c d : Conn) (bs tape tape' : List ℕ)
    → c.ritem ≤ length (item_at w c.item).value
    → d.item ≡ c.item
    → d.ritem ≡ c.ritem + length bs
    → d.ritem + d.rlbytes ≡ c.ritem + c.rlbytes
    → bs ++ (unread d ++ tape') ≡ unread c ++ tape
    → Framed w (write_value w c.item c.ritem bs) c d tape tape'
put-Framed w c d bs tape tape' h i r k e =
    let v = write_value w c.item c.ritem bs in
    let here : arrived v d ≡ arrived w c ++ bs =
      ap (λ n. take n (item_at v d.item).value) r
      ∙ ap (λ a. take (c.ritem + length bs) (item_at v a).value) i
      ∙ written w c.item c.ritem bs h in
    record {
      same_item = i;
      stream =
          ap (λ xs. xs ++ (unread d ++ tape')) here
          ∙ append_assoc (arrived w c) bs (unread d ++ tape')
          ∙ ap (λ xs. arrived w c ++ xs) e;
      amount = k;
      room =
          omega
            (arith, r, ap (λ a. length (item_at v a).value) i, written_room w c.item c.ritem bs h);
    }

same-Framed :
    (w : World) (c : Conn) (tape : List ℕ)
    → c.ritem ≤ length (item_at w c.item).value
    → Framed w w c c tape tape
same-Framed w c tape h = record { same_item = refl; stream = refl; amount = refl; room = h }

min_bounds : (a b : ℕ) → (min a b ≤ a) × (min a b ≤ b)
min_bounds a b = ground arith

leftovers-Framed :
    (w : World) (c : Conn) (tape : List ℕ)
    → c.ritem ≤ length (item_at w c.item).value
    → Framed w (copy_leftovers w c).0 c (copy_leftovers w c).1 tape tape
unfolding copy_leftovers
leftovers-Framed w c tape h =
    let n = min c.rbytes c.rlbytes in
    let b = min_bounds c.rbytes c.rlbytes in
    let bs = read c.bytes c.rcurr n in
    let d : Conn = record c {
      ritem = c.ritem + n;
      rlbytes = c.rlbytes - n;
      rcurr = c.rcurr + n;
      rbytes = c.rbytes - n;
    } in
    if_elim (λ (p : World × Conn). Framed w p.0 c p.1 tape tape) (c.rbytes == 0)
      (λ _. same-Framed w c tape h)
      (λ _.
        put-Framed w c d bs tape tape h refl (omega (arith, length-read c.bytes c.rcurr n))
          (omega (arith, b))
          (sym (append_assoc bs (unread d) tape)
            ∙ ap (λ xs. xs ++ tape)
                (sym (read-append c.bytes c.rcurr n (c.rbytes - n) c.rbytes (omega (arith, b))))))

read_item-Framed :
    (w : World) (c : Conn) (bs tape : List ℕ)
    → length bs ≤ c.rlbytes
    → c.rbytes ≡ 0
    → c.ritem ≤ length (item_at w c.item).value
    → Framed w (read_item (got bs) w c).0 c (read_item (got bs) w c).1 (bs ++ tape) tape
unfolding read_item read
read_item-Framed w c bs tape k z h =
    let none_left = ap (read c.bytes c.rcurr) z in
    put-Framed w c (record c { ritem = c.ritem + length bs; rlbytes = c.rlbytes - length bs }) bs
      (bs ++ tape) tape h refl refl (omega (arith, k))
      (ap (λ xs. bs ++ (xs ++ tape)) none_left ∙ ap (λ xs. xs ++ (bs ++ tape)) (sym none_left))

Framed-trans :
    (u w v : World) (b c d : Conn) (tape tape' tape'' : List ℕ)
    → Framed u w b c tape tape'
    → Framed w v c d tape' tape''
    → Framed u v b d tape tape''
Framed-trans u w v b c d tape tape' tape'' f g = record {
  same_item = g.same_item ∙ f.same_item;
  stream = g.stream ∙ f.stream;
  amount = g.amount ∙ f.amount;
  room = g.room;
}

-- Whether a step asks the socket: the buffer's bytes were not enough.
abbrev pub asks : World → Conn → Bool
asks w c = not (not (c.rbytes == 0) && (copy_leftovers w c).1.rlbytes == 0)

-- When the buffer's bytes were not enough, all of them were used.
used_up : (w : World) (c : Conn) → asks w c ≡ true → (copy_leftovers w c).1.rbytes ≡ 0
unfolding copy_leftovers
used_up w c h = ground arith

if_not {ℓ} : {A : Type ℓ} (b : Bool) (x y : A) → not b ≡ false → (if b then x else y) ≡ x
if_not true x y h = refl
if_not false x y h = cc

if_so {ℓ} : {A : Type ℓ} (b : Bool) (x y : A) → not b ≡ true → (if b then x else y) ≡ y
if_so true x y h = cc
if_so false x y h = refl

if_true {ℓ} : {A : Type ℓ} (b : Bool) (x y : A) → b ≡ true → (if b then x else y) ≡ x
if_true true x y h = refl
if_true false x y h = cc

if_false {ℓ} : {A : Type ℓ} (b : Bool) (x y : A) → b ≡ false → (if b then x else y) ≡ y
if_false true x y h = cc
if_false false x y h = refl

nread_plain-Framed :
    (w : World) (c : Conn) (bs tape : List ℕ)
    → length bs ≤ (copy_leftovers w c).1.rlbytes
    → c.ritem ≤ length (item_at w c.item).value
    → let r = nread_plain (λ n. got bs) w c in
      Framed w r.0 c r.1 (if asks w c then bs ++ tape else tape) tape
unfolding nread_plain
nread_plain-Framed w c bs tape k h =
    let u = copy_leftovers w c in
    let filled = not (c.rbytes == 0) && u.1.rlbytes == 0 in
    let first = λ (t : List ℕ). leftovers-Framed w c t h in
    elim (Bool-cases (asks w c)) [
      | inl ask ↦
          subst
            (λ (p : World × Conn × Outcome).
              Framed w p.0 c p.1 (if asks w c then bs ++ tape else tape) tape)
            (sym (if_so filled (u.0, u.1, progress) (read_item (got bs) u.0 u.1) ask))
            (subst
              (λ t. Framed w (read_item (got bs) u.0 u.1).0 c (read_item (got bs) u.0 u.1).1 t tape)
              (sym (if_true (asks w c) (bs ++ tape) tape ask))
              (Framed-trans w u.0 (read_item (got bs) u.0 u.1).0 c u.1
                (read_item (got bs) u.0 u.1).1 (bs ++ tape) (bs ++ tape) tape (first (bs ++ tape))
                (read_item-Framed u.0 u.1 bs tape k (used_up w c ask) (first tape).room)))
      | inr enough ↦
          subst
            (λ (p : World × Conn × Outcome).
              Framed w p.0 c p.1 (if asks w c then bs ++ tape else tape) tape)
            (sym (if_not filled (u.0, u.1, progress) (read_item (got bs) u.0 u.1) enough))
            (subst (λ t. Framed w u.0 c u.1 t tape)
              (sym (if_false (asks w c) (bs ++ tape) tape enough)) (first tape))
    ]

-- Steps of conn_nread, each with what the socket gave it if it was asked.
pub data Nreads : World → Conn → List ℕ → World → Conn → List ℕ → Type 0 where
  done : {w : World} {c : Conn} {tape : List ℕ} → Nreads w c tape w c tape
  more :
      {w v : World} {c d : Conn} {tape' : List ℕ} (bs tape : List ℕ)
      → c.rlbytes ≢ 0
      → length bs ≤ (copy_leftovers w c).1.rlbytes
      → Nreads (nread_plain (λ n. got bs) w c).0 (nread_plain (λ n. got bs) w c).1 tape v d tape'
      → Nreads w c (if asks w c then bs ++ tape else tape) v d tape'

Nreads-Framed :
    {w v : World} {c d : Conn} {tape tape' : List ℕ}
    → Nreads w c tape v d tape'
    → c.ritem ≤ length (item_at w c.item).value
    → Framed w v c d tape tape'
Nreads-Framed {w} {c = c} {tape = tape} done h = same-Framed w c tape h
Nreads-Framed {w} {v} {c} {d} {tape' = tape'} (more bs tape n k r) h =
    let f = nread_plain-Framed w c bs tape k h in
    let p = nread_plain (λ m. got bs) w c in
    Framed-trans w p.0 v c p.1 d (if asks w c then bs ++ tape else tape) tape tape' f
      (Nreads-Framed r f.room)

-- When a connection has begun to read an item's data and no byte of it is missing any more, the item
-- holds the next bytes that the client sent, from the read buffer and from the socket, as many as the
-- command announced, however they were cut into reads; the bytes behind them are still to be read.
pub nread-data :
    {w v : World} {c d : Conn} {tape tape' : List ℕ}
    → Nreads w c tape v d tape'
    → c.ritem ≡ 0
    → d.rlbytes ≡ 0
    → (take c.rlbytes (item_at v c.item).value ≡ take c.rlbytes (unread c ++ tape))
      × (unread d ++ tape' ≡ drop c.rlbytes (unread c ++ tape))
nread-data {w} {v} {c} {d} {tape} {tape'} r start full =
    let f = Nreads-Framed r (omega (arith, start)) in
    let n : d.ritem ≡ c.rlbytes = omega (arith, f.amount, start, full) in
    let data_read : arrived v d ≡ take c.rlbytes (item_at v c.item).value =
      ap (λ k. take k (item_at v d.item).value) n
      ∙ ap (λ a. take c.rlbytes (item_at v a).value) f.same_item in
    let nothing : arrived w c ≡ [] = ap (λ k. take k (item_at w c.item).value) start in
    let all : arrived v d ++ (unread d ++ tape') ≡ unread c ++ tape =
      f.stream ∙ ap (λ xs. xs ++ (unread c ++ tape)) nothing in
    let size : length (arrived v d) ≡ c.rlbytes =
      length-take d.ritem (item_at v d.item).value f.room ∙ n in
    (
      sym data_read
          ∙ sym (take-append c.rlbytes (arrived v d) (unread d ++ tape') size)
          ∙ ap (take c.rlbytes) all,
      sym (drop-append c.rlbytes (arrived v d) (unread d ++ tape') size) ∙ ap (drop c.rlbytes) all,
    )
