-- ===== src/Protocol/Tokens/Spelling.antt =====
-- What tokenize_command leaves: the words of the line, and where the next call goes on.
use mathlib.Core.Path.{subst}
use analysis_memcached.Prelude.{
  ℕ, ◌+◌, ◌-◌, ◌≤◌, ◌<◌, ◌≡◌, ◌≢◌, ◌⊎◌, inl, inr, refl, sym, ap, ◌∙◌, true, false, List, [], ◌∷◌,
  ◌++◌, append-nil, append_assoc, length, length-append, take, drop, ◌==◌, if◌then◌else◌, arith,
  take_all, drop_all, take-append, drop-append,
}
use analysis_memcached.Prelude.Memory.{read}
use analysis_memcached.Protocol.Tokens.{Token, TokenScan, add_token, close_tokens, tokenize_command}
use analysis_memcached.Protocol.Tokens.Words.{
  Text, Text-head, Text-end, Spelled, Spelled-wider, Spelled-append, Reads, words_of, words_from,
}
use analysis_memcached.Protocol.Tokens.Cut.{Stopped, scan-Stopped, word_token}

-- What is left of a line from the terminal token on: nothing, or a string with these words.
abbrev pub Left : (ℕ → ℕ) → ℕ → List (List ℕ) → Type 0
Left buf rest ws =
    ((rest ≡ 0) × (ws ≡ [])) ⊎ ((cs : List ℕ) × (rest ≢ 0) × Text buf rest cs × (words_of cs ≡ ws))

-- The result for a line with these words: tokens that spell as many words as there is room for, and
-- the terminal token at the others.
pub record Tokenized (max_tokens : ℕ) (out : TokenScan) (all : List (List ℕ)) : Type 0 where
  pub cut : List Token
  pub rest : ℕ
  pub tokens : out.tokens ≡ cut ++ record { value = rest; length = 0 } ∷ []
  pub spelled : Spelled out.buf (out.e + 1) cut (take (max_tokens - 1) all)
  pub left : Left out.buf rest (drop (max_tokens - 1) all)

-- The value of the terminal token.
abbrev rest_of : TokenScan → ℕ
rest_of st = if st.buf st.e == 0 then 0 else st.e

with_last : TokenScan → TokenScan
with_last st = record st { tokens = st.tokens ++ record { value = rest_of st; length = 0 } ∷ [] }

close_even : (st : TokenScan) → (st.s == st.e) ≡ true → close_tokens st ≡ with_last st
unfolding close_tokens with_last
close_even st e = rw e

close_odd : (st : TokenScan) → (st.s == st.e) ≡ false → close_tokens st ≡ with_last (add_token st)
unfolding close_tokens with_last
close_odd st e = rw e

-- The terminal token in front of the text that was not read.
rest_of-Left :
    (st : TokenScan) (cs : List ℕ)
    → Text st.buf st.e cs
    → 0 < st.e
    → Left st.buf (rest_of st) (words_of cs)
rest_of-Left st [] t p = inl (rw (Text-end t), refl)
rest_of-Left st (c ∷ cs) t p =
    let n : (st.buf st.e == 0) ≡ false = ground (arith, Text-head t, t.nul) in
    let k : rest_of st ≡ st.e = rw n in
    inr (c ∷ cs, ground (arith, k, p), subst (λ q. Text st.buf q (c ∷ cs)) (sym k) t, refl)

with_last-Tokenized :
    (m : ℕ) (st : TokenScan) (cs : List ℕ) (ws : List (List ℕ))
    → Text st.buf st.e cs
    → 0 < st.e
    → Spelled st.buf (st.e + 1) st.tokens ws
    → (length ws + 1 ≡ m) ⊎ ((cs ≡ []) × (length ws < m))
    → Tokenized m (with_last st) (ws ++ words_of cs)
unfolding with_last
with_last-Tokenized m st cs ws t p s (inl h) = record {
  cut = st.tokens;
  rest = rest_of st;
  tokens = refl;
  spelled =
      subst (λ v. Spelled st.buf (st.e + 1) st.tokens v)
        (sym (take-append (m - 1) ws (words_of cs) (omega (arith, h)))) s;
  left =
      subst (λ v. Left st.buf (rest_of st) v)
        (sym (drop-append (m - 1) ws (words_of cs) (omega (arith, h)))) (rest_of-Left st cs t p);
}
with_last-Tokenized m st cs ws t p s (inr (e, h)) = record {
  cut = st.tokens;
  rest = rest_of st;
  tokens = refl;
  spelled =
      subst (λ v. Spelled st.buf (st.e + 1) st.tokens v)
        (sym (take_all (m - 1) (ws ++ words_of cs) short ∙ all)) s;
  left =
      subst (λ v. Left st.buf (rest_of st) v)
        (ap words_of e ∙ sym (drop_all (m - 1) (ws ++ words_of cs) short)) (rest_of-Left st cs t p);
}
  where
    all : ws ++ words_of cs ≡ ws
    all = ap (λ v. ws ++ words_of v) e ∙ append-nil ws

    short : length (ws ++ words_of cs) ≤ m - 1
    short = omega (arith, ap length all, h)

length-ne-zero : (cur : List ℕ) → cur ≢ [] → 0 < length cur
length-ne-zero [] n = absurd (n refl)
length-ne-zero (x ∷ cur) n = omega arith

module _ (m : ℕ) (st : TokenScan) (cs cur : List ℕ) (ws : List (List ℕ))
    (r : Reads st cs cur ws) where
  -- No word is open, and there is no room for another, or none is left.
  closed_even :
      cur ≡ []
      → (length ws + 1 ≡ m) ⊎ ((cs ≡ []) × (length ws < m))
      → Tokenized m (close_tokens st) (ws ++ words_of cs)
  closed_even e h =
      subst (λ v. Tokenized m v (ws ++ words_of cs))
        (sym (close_even st (ground (arith, r.here, ap length e))))
        (with_last-Tokenized m st cs ws r.ahead r.past
          (Spelled-wider st.buf st.s (st.e + 1) st.tokens ws (omega (arith, r.here)) r.spelled) h)

  -- The line ends with a word.
  closed_word :
      cs ≡ []
      → cur ≢ []
      → length ws + 1 < m
      → Tokenized m (close_tokens st) ((ws ++ cur ∷ []) ++ words_of cs)
  closed_word e n h =
      subst (λ v. Tokenized m v ((ws ++ cur ∷ []) ++ words_of cs))
        (sym (close_odd st (ground (arith, r.here, length-ne-zero cur n))))
        (with_last-Tokenized m (add_token st) cs (ws ++ cur ∷ []) r.ahead r.past
          (Spelled-append st.buf (st.e + 1) st.tokens ws
            (record { value = st.s; length = st.e - st.s }) cur
            (Spelled-wider st.buf st.s (st.e + 1) st.tokens ws (omega (arith, r.here)) r.spelled)
            (word_token st.buf st.s st.e cur r.word r.here
              (Text-end (subst (λ v. Text st.buf st.e v) e r.ahead))))
          (inr (e, omega (arith, h, length-append ws (cur ∷ [])))))

close-Stopped :
    (m : ℕ) (st : TokenScan) (all : List (List ℕ))
    → Stopped m st all
    → Tokenized m (close_tokens st) all
close-Stopped m st all p =
    subst (λ v. Tokenized m (close_tokens st) v) p.words (branch p.cur p.reads p.why)
  where
    branch :
        (cur : List ℕ)
        → Reads st p.rest cur p.cut
        → ((p.rest ≡ []) × (length p.cut + 1 < m)) ⊎ ((cur ≡ []) × (length p.cut + 1 ≡ m))
        → Tokenized m (close_tokens st) (p.cut ++ words_from cur p.rest)
    branch cur r (inr (e, h)) =
        subst (λ v. Tokenized m (close_tokens st) (p.cut ++ words_from v p.rest)) (sym e)
          (closed_even m st p.rest cur p.cut r e (inl h))
    branch [] r (inl (e, h)) = closed_even m st p.rest [] p.cut r refl (inr (e, omega (arith, h)))
    branch (c ∷ cur) r (inl (e, h)) =
        subst (λ v. Tokenized m (close_tokens st) (p.cut ++ v)) (sym (ap (words_from (c ∷ cur)) e))
          (subst (λ v. Tokenized m (close_tokens st) v)
            (append_assoc p.cut ((c ∷ cur) ∷ []) (words_of p.rest)
              ∙ ap (λ v. p.cut ++ (c ∷ cur) ∷ words_of v) e)
            (closed_word m st p.rest (c ∷ cur) p.cut r e (cc) h))

-- On a line of at least one token's room, the tokens are NUL-terminated strings that spell the words
-- of the line, as many as there is room for, in order, and the terminal token points at a string of
-- the other words, or is NULL if there are none.
pub tokenize_command-Tokenized :
    (max_tokens : ℕ) (buf : ℕ → ℕ) (command : ℕ) (cs : List ℕ)
    → 1 < max_tokens
    → 0 < command
    → Text buf command cs
    → Tokenized max_tokens (tokenize_command max_tokens buf command (length cs)) (words_of cs)
unfolding tokenize_command read
tokenize_command-Tokenized m buf command cs h p t = close-Stopped m _ (words_of cs) (
    scan-Stopped m cs [] [] (record { buf = buf; tokens = []; s = command; e = command })
      (record { ahead = t; word = refl; here = omega arith; past = p; spelled = tt }) h)
