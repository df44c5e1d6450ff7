-- ===== src/Protocol/Tokens/Words.antt =====
-- The words of a line, and what the loop of tokenize_command keeps.
use analysis_memcached.Prelude.{
  ℕ, suc, ◌+◌, ◌≤◌, ◌<◌, ◌≡◌, inl, inr, refl, ap, ◌∙◌, List, [], ◌∷◌, ◌++◌, length, ◌==◌,
  if◌then◌else◌, arith, Fresh,
}
use analysis_memcached.Prelude.Memory.{update, read, read-memcpy_outside, memcpy}
use analysis_memcached.Protocol.Tokens.{Token, TokenScan, separator}

-- A word that is complete, if it is one.
abbrev pub flush : List ℕ → List (List ℕ) → List (List ℕ)
flush [] ws = ws
flush (c ∷ cs) ws = (c ∷ cs) ∷ ws

-- The words of a text, of whose first word `cur` was read.
abbrev pub words_from : List ℕ → List ℕ → List (List ℕ)
words_from cur [] = flush cur []
words_from cur (c ∷ cs) =
    let inside = words_from (cur ++ c ∷ []) cs in
    if c == separator then flush cur (words_from [] cs) else inside

-- The words between the blanks of a text.
abbrev pub words_of : List ℕ → List (List ℕ)
words_of = words_from []

-- A string of C at an address: the bytes, none of them NUL, and a NUL.
pub record Text (buf : ℕ → ℕ) (at : ℕ) (cs : List ℕ) : Type 0 where
  pub bytes : read buf at (suc (length cs)) ≡ cs ++ 0 ∷ []
  pub nul : Fresh 0 cs

-- The tokens are strings that spell the words, and end before `limit`.
abbrev pub Spelled : (ℕ → ℕ) → ℕ → List Token → List (List ℕ) → Type 0
Spelled buf limit [] [] = Unit
Spelled buf limit [] (w ∷ ws) = ⊥
Spelled buf limit (t ∷ ts) [] = ⊥
Spelled buf limit (t ∷ ts) (w ∷ ws) =
    (read buf t.value t.length ≡ w)
    × (buf (t.value + t.length) ≡ 0)
    × (t.value + t.length < limit)
    × Spelled buf limit ts ws

pub read-update : (buf : ℕ → ℕ) (i v j n : ℕ) → j + n ≤ i → read (update buf i v) j n ≡ read buf j n
unfolding memcpy
read-update buf i v j n h = read-memcpy_outside buf i (v ∷ []) j n (inl h)

pub read-update_before :
    (buf : ℕ → ℕ) (i v j n : ℕ) → i + 1 ≤ j → read (update buf i v) j n ≡ read buf j n
unfolding memcpy
read-update_before buf i v j n h = read-memcpy_outside buf i (v ∷ []) j n (inr h)

pub Spelled-update :
    (buf : ℕ → ℕ) (limit limit' : ℕ) (ts : List Token) (ws : List (List ℕ)) (i : ℕ)
    → limit ≤ i
    → limit ≤ limit'
    → Spelled buf limit ts ws
    → Spelled (update buf i 0) limit' ts ws
Spelled-update buf limit limit' [] [] i h k s = tt
Spelled-update buf limit limit' [] (w ∷ ws) i h k s = s
Spelled-update buf limit limit' (t ∷ ts) [] i h k s = s
Spelled-update buf limit limit' (t ∷ ts) (w ∷ ws) i h k (a, b, c, d) = (
  read-update buf i 0 t.value t.length (omega arith) ∙ a,
  ground arith,
  omega arith,
  Spelled-update buf limit limit' ts ws i h k d,
)

pub Spelled-wider :
    (buf : ℕ → ℕ) (limit limit' : ℕ) (ts : List Token) (ws : List (List ℕ))
    → limit ≤ limit'
    → Spelled buf limit ts ws
    → Spelled buf limit' ts ws
Spelled-wider buf limit limit' [] [] k s = tt
Spelled-wider buf limit limit' [] (w ∷ ws) k s = s
Spelled-wider buf limit limit' (t ∷ ts) [] k s = s
Spelled-wider buf limit limit' (t ∷ ts) (w ∷ ws) k (a, b, c, d) =
    (a, b, omega arith, Spelled-wider buf limit limit' ts ws k d)

pub Spelled-append :
    (buf : ℕ → ℕ) (limit : ℕ) (ts : List Token) (ws : List (List ℕ)) (t : Token) (w : List ℕ)
    → Spelled buf limit ts ws
    → Spelled buf limit (t ∷ []) (w ∷ [])
    → Spelled buf limit (ts ++ t ∷ []) (ws ++ w ∷ [])
Spelled-append buf limit [] [] t w s h = h
Spelled-append buf limit [] (v ∷ ws) t w s h = absurd s
Spelled-append buf limit (u ∷ ts) [] t w s h = absurd s
Spelled-append buf limit (u ∷ ts) (v ∷ ws) t w (a, b, c, d) h =
    (a, b, c, Spelled-append buf limit ts ws t w d h)

pub Spelled-length :
    (buf : ℕ → ℕ) (limit : ℕ) (ts : List Token) (ws : List (List ℕ))
    → Spelled buf limit ts ws
    → length ts ≡ length ws
Spelled-length buf limit [] [] s = refl
Spelled-length buf limit [] (v ∷ ws) s = absurd s
Spelled-length buf limit (u ∷ ts) [] s = absurd s
Spelled-length buf limit (u ∷ ts) (v ∷ ws) (a, b, c, d) = ap suc (Spelled-length buf limit ts ws d)

pub Text-head : {buf : ℕ → ℕ} {at c : ℕ} {cs : List ℕ} → Text buf at (c ∷ cs) → buf at ≡ c
unfolding read
Text-head t = cc t.bytes

pub Text-end : {buf : ℕ → ℕ} {at : ℕ} → Text buf at [] → buf at ≡ 0
unfolding read
Text-end t = cc t.bytes

pub Text-tail : (buf : ℕ → ℕ) (at c : ℕ) (cs : List ℕ) → Text buf at (c ∷ cs) → Text buf (at + 1) cs
unfolding read
Text-tail buf at c cs t = record {
  bytes =
      let e : at + 1 ≡ suc at = omega arith in
      rw e (let h : read buf (suc at) (suc (length cs)) ≡ cs ++ 0 ∷ [] = cc t.bytes in h);
  nul = t.nul.1;
}

pub Text-update :
    (buf : ℕ → ℕ) (at : ℕ) (cs : List ℕ) (i v : ℕ)
    → i < at
    → Text buf at cs
    → Text (update buf i v) at cs
Text-update buf at cs i v h t = record {
  bytes = read-update_before buf i v at (suc (length cs)) (omega arith) ∙ t.bytes;
  nul = t.nul;
}

-- The loop stands before `cs`, with `cur` read of a word and `ws` cut.
pub record Reads (st : TokenScan) (cs cur : List ℕ) (ws : List (List ℕ)) : Type 0 where
  pub ahead : Text st.buf st.e cs
  pub word : read st.buf st.s (length cur) ≡ cur
  pub here : st.s + length cur ≡ st.e
  pub past : 0 < st.e
  pub spelled : Spelled st.buf st.s st.tokens ws
