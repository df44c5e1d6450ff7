-- ===== src/Protocol/Tokens/Cut.antt =====
-- What the loop of tokenize_command keeps, byte by byte.
use mathlib.Core.Path.{subst}
use analysis_memcached.Prelude.{
  ℕ, ◌+◌, ◌-◌, ◌<◌, ◌≡◌, ◌≢◌, ◌⊎◌, inl, inr, refl, sym, ap, ◌∙◌, Bool, true, false, not, ◌&&◌,
  ==_iff, List, [], ◌∷◌, ◌++◌, append_assoc, length, length-append, ◌==◌, if_elim, arith,
  Bool-cases,
}
use analysis_memcached.Prelude.Memory.{update, read, read-append}
use analysis_memcached.Protocol.Tokens.{TokenScan, separator, scan_byte, is_last_token, scan}
use analysis_memcached.Protocol.Tokens.Words.{
  Text, Text-head, Text-tail, Text-update, Spelled, Spelled-update, Spelled-wider, Spelled-append,
  Spelled-length, read-update, Reads, words_from, flush,
}

length-nil : (cur : List ℕ) (a : ℕ) → a + length cur ≡ a → cur ≡ []
length-nil [] a e = refl
length-nil (x ∷ cur) a e = absurd (omega arith)

read-snoc :
    (b : ℕ → ℕ) (i : ℕ) (cur : List ℕ) (j c : ℕ)
    → read b i (length cur) ≡ cur
    → i + length cur ≡ j
    → b j ≡ c
    → read b i (length (cur ++ c ∷ [])) ≡ cur ++ c ∷ []
unfolding read
read-snoc b i cur j c w h e =
    read-append b i (length cur) 1 (length (cur ++ c ∷ []))
      (omega (arith, length-append cur (c ∷ [])))
    ∙ ap (λ xs. xs ++ b (i + length cur) ∷ []) w
    ∙ ap (λ y. cur ++ y ∷ []) (ap b h ∙ e)

-- The token of a word that a NUL follows.
pub word_token :
    (b : ℕ → ℕ) (i j : ℕ) (cur : List ℕ)
    → read b i (length cur) ≡ cur
    → i + length cur ≡ j
    → b j ≡ 0
    → Spelled b (j + 1) (record { value = i; length = j - i } ∷ []) (cur ∷ [])
word_token b i j cur w h z =
    let n : j - i ≡ length cur = omega (arith, h) in
    let k : i + (j - i) ≡ j = omega (arith, h) in
    (ap (read b i) n ∙ w, ap b k ∙ z, omega (arith, k), tt)

module _ (st : TokenScan) (c : ℕ) (cs cur : List ℕ) (ws : List (List ℕ))
    (r : Reads st (c ∷ cs) cur ws) where
  -- A byte of a word.
  inside : c ≢ separator → Reads (scan_byte st) cs (cur ++ c ∷ []) ws
  unfolding scan_byte
  inside n =
      let h = Text-head r.ahead in
      let b : (st.buf st.e == separator) ≡ false = ground (arith, h) in
      rw b record {
        ahead = Text-tail st.buf st.e c cs r.ahead;
        word = read-snoc st.buf st.s cur st.e c r.word r.here h;
        here = omega (arith, length-append cur (c ∷ []), r.here);
        past = omega arith;
        spelled = r.spelled;
      }

  -- A blank behind a word.
  word_end : c ≡ separator → (st.s == st.e) ≡ false → Reads (scan_byte st) cs [] (ws ++ cur ∷ [])
  unfolding scan_byte read
  word_end e n =
      let h = Text-head r.ahead in
      let b : (st.buf st.e == separator) ≡ true = ground (arith, h) in
      rw (b, n)
        record {
          ahead =
              Text-update st.buf (st.e + 1) cs st.e 0 (omega arith)
                (Text-tail st.buf st.e c cs r.ahead);
          word = refl;
          here = omega arith;
          past = omega arith;
          spelled =
              Spelled-append (update st.buf st.e 0) (st.e + 1) st.tokens ws
                (record { value = st.s; length = st.e - st.s }) cur
                (Spelled-update st.buf st.s (st.e + 1) st.tokens ws st.e (omega (arith, r.here))
                  (omega (arith, r.here)) r.spelled)
                (word_token (update st.buf st.e 0) st.s st.e cur
                  (read-update st.buf st.e 0 st.s (length cur) (omega (arith, r.here)) ∙ r.word)
                  r.here (ground arith));
        }

  -- A blank behind a blank.
  blank_again : c ≡ separator → (st.s == st.e) ≡ true → Reads (scan_byte st) cs [] ws × (cur ≡ [])
  unfolding scan_byte read
  blank_again e n =
      let h = Text-head r.ahead in
      let b : (st.buf st.e == separator) ≡ true = ground (arith, h) in
      let s : st.s ≡ st.e = ground (arith, n) in
      (
        rw (b, n)
            record {
              ahead = Text-tail st.buf st.e c cs r.ahead;
              word = refl;
              here = omega arith;
              past = omega arith;
              spelled = Spelled-wider st.buf st.s (st.e + 1) st.tokens ws (omega arith) r.spelled;
            },
        length-nil cur st.s (r.here ∙ sym s),
      )

-- Where the loop stops: at the end of the line, or behind the last token that there is room for.
pub record Stopped (max_tokens : ℕ) (st : TokenScan) (all : List (List ℕ)) : Type 0 where
  pub rest : List ℕ
  pub cur : List ℕ
  pub cut : List (List ℕ)
  pub reads : Reads st rest cur cut
  pub why :
      ((rest ≡ []) × (length cut + 1 < max_tokens)) ⊎ ((cur ≡ []) × (length cut + 1 ≡ max_tokens))
  pub words : cut ++ words_from cur rest ≡ all

flush-append :
    (ws : List (List ℕ)) (cur : List ℕ) (vs : List (List ℕ))
    → cur ≢ []
    → ws ++ flush cur vs ≡ (ws ++ cur ∷ []) ++ vs
flush-append ws [] vs n = absurd (n refl)
flush-append ws (x ∷ xs) vs n = sym (append_assoc ws ((x ∷ xs) ∷ []) vs)

word_nonempty : (i j : ℕ) (cur : List ℕ) → i + length cur ≡ j → (i == j) ≡ false → cur ≢ []
word_nonempty i j [] h n = absurd (ground (arith, h, n))
word_nonempty i j (x ∷ cur) h n = cc

is_last_token_lem :
    (m : ℕ) (st : TokenScan) (c : ℕ) (cs : List ℕ)
    → Text st.buf st.e (c ∷ cs)
    → is_last_token m st ≡ (c == separator && not (st.s == st.e) && length st.tokens + 1 == m - 1)
unfolding is_last_token
is_last_token_lem m st c cs t =
    ap (λ v. v == separator && not (st.s == st.e) && length st.tokens + 1 == m - 1) (Text-head t)

words_blank :
    (c : ℕ) (cs cur : List ℕ)
    → (c == separator) ≡ true
    → words_from cur (c ∷ cs) ≡ flush cur (words_from [] cs)
words_blank c cs cur e = rw e

words_inside :
    (c : ℕ) (cs cur : List ℕ)
    → (c == separator) ≡ false
    → words_from cur (c ∷ cs) ≡ words_from (cur ++ c ∷ []) cs
words_inside c cs cur e = rw e

cut_words :
    (ws : List (List ℕ)) (c : ℕ) (cs cur : List ℕ)
    → (c == separator) ≡ true
    → cur ≢ []
    → (ws ++ cur ∷ []) ++ words_from [] cs ≡ ws ++ words_from cur (c ∷ cs)
cut_words ws c cs cur e n =
    sym (ap (λ v. ws ++ v) (words_blank c cs cur e) ∙ flush-append ws cur (words_from [] cs) n)

&&-true : (a b : Bool) → (a && b) ≡ true → (a ≡ true) × (b ≡ true)
&&-true a b h = ground arith

stop_here :
    (m : ℕ) (st : TokenScan) (c : ℕ) (cs cur : List ℕ) (ws : List (List ℕ))
    → Reads st (c ∷ cs) cur ws
    → length ws + 1 < m
    → (c == separator && not (st.s == st.e) && length st.tokens + 1 == m - 1) ≡ true
    → Stopped m (scan_byte st) (ws ++ words_from cur (c ∷ cs))
stop_here m st c cs cur ws r h last_byte =
    let (more, last) =
      &&-true (c == separator && not (st.s == st.e)) (length st.tokens + 1 == m - 1) last_byte in
    let (e, other) = &&-true (c == separator) (not (st.s == st.e)) more in
    let other' : (st.s == st.e) ≡ false = ground (arith, other) in
    let count = Spelled-length st.buf st.s st.tokens ws r.spelled in
    record {
      rest = cs;
      cur = [];
      cut = ws ++ cur ∷ [];
      reads = word_end st c cs cur ws r ((==_iff c separator).0 e) other';
      why = inr (refl, ground (arith, last, count, h, length-append ws (cur ∷ [])));
      words = cut_words ws c cs cur e (word_nonempty st.s st.e cur r.here other');
    }

pub scan-Stopped :
    (max_tokens : ℕ) (cs cur : List ℕ) (ws : List (List ℕ)) (st : TokenScan)
    → Reads st cs cur ws
    → length ws + 1 < max_tokens
    → Stopped max_tokens (scan max_tokens (length cs) st) (ws ++ words_from cur cs)
unfolding scan
scan-Stopped m [] cur ws st r h = record {
  rest = [];
  cur = cur;
  cut = ws;
  reads = r;
  why = inl (refl, h);
  words = refl;
}
scan-Stopped m (c ∷ cs) cur ws st r h =
    let byte = is_last_token_lem m st c cs r.ahead in
    if_elim (λ v. Stopped m v (ws ++ words_from cur (c ∷ cs))) (is_last_token m st)
      (λ last_byte. stop_here m st c cs cur ws r h (sym byte ∙ last_byte))
      (λ go.
        go_on (Bool-cases (c == separator)) (Bool-cases (st.s == st.e)) (sym byte ∙ go)
          (λ v vs. scan-Stopped m cs v vs (scan_byte st)))
  where
    go_on :
        (c == separator ≡ true) ⊎ (c == separator ≡ false)
        → (st.s == st.e ≡ true) ⊎ (st.s == st.e ≡ false)
        → (c == separator && not (st.s == st.e) && length st.tokens + 1 == m - 1) ≡ false
        → ((v : List ℕ) (vs : List (List ℕ))
            → Reads (scan_byte st) cs v vs
            → length vs + 1 < m
            → Stopped m (scan m (length cs) (scan_byte st)) (vs ++ words_from v cs))
        → Stopped m (scan m (length cs) (scan_byte st)) (ws ++ words_from cur (c ∷ cs))
    go_on (inr n) _ go ih =
        subst (λ v. Stopped m (scan m (length cs) (scan_byte st)) (ws ++ v))
          (sym (words_inside c cs cur n))
          (ih (cur ++ c ∷ []) ws (inside st c cs cur ws r (λ q. absurd (ground (arith, n, q)))) h)
    go_on (inl e) (inl same) go ih =
        let (again, nil) = blank_again st c cs cur ws r ((==_iff c separator).0 e) same in
        subst (λ v. Stopped m (scan m (length cs) (scan_byte st)) (ws ++ v))
          (sym (words_blank c cs cur e ∙ ap (λ v. flush v (words_from [] cs)) nil))
          (ih [] ws again h)
    go_on (inl e) (inr other) go ih =
        let count = Spelled-length st.buf st.s st.tokens ws r.spelled in
        subst (λ v. Stopped m (scan m (length cs) (scan_byte st)) v)
          (cut_words ws c cs cur e (word_nonempty st.s st.e cur r.here other))
          (ih [] (ws ++ cur ∷ []) (word_end st c cs cur ws r ((==_iff c separator).0 e) other)
            (ground (arith, go, e, other, count, h, length-append ws (cur ∷ []))))
