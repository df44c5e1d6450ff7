-- ===== src/Protocol/Tokens.antt =====
-- thread/memcached.c: tokenize_command, which cuts a command line at its blanks, in place. The line
-- lies in a buffer, a function from addresses to bytes; 0 is NULL.
pub mod Words
pub mod Cut
pub mod Spelling
use analysis_memcached.Prelude.{
  ℕ, zero, suc, ◌+◌, ◌-◌, Bool, true, false, not, ◌&&◌, List, [], ◌∷◌, ◌++◌, length, ◌==◌,
  if◌then◌else◌,
}
use analysis_memcached.Prelude.Memory.{update}

pub record Token : Type 0 where
  pub value : ℕ
  pub length : ℕ

abbrev pub separator : ℕ
separator = 32

-- The variables of the loop.
pub record TokenScan : Type 0 where
  pub buf : ℕ → ℕ
  pub tokens : List Token
  pub s : ℕ
  pub e : ℕ

abbrev pub add_token : TokenScan → TokenScan
add_token st = record st {
  tokens = st.tokens ++ record { value = st.s; length = st.e - st.s } ∷ [];
}

-- One byte of the line.
unfoldable pub scan_byte : TokenScan → TokenScan
scan_byte st =
    if st.buf st.e == separator
    then (if st.s == st.e
        then record st { s = st.e + 1; e = st.e + 1 }
        else record (add_token st) { buf = update st.buf st.e 0; s = st.e + 1; e = st.e + 1 })
    else record st { e = st.e + 1 }

-- The byte ends the last token that there is room for.
unfoldable pub is_last_token : ℕ → TokenScan → Bool
is_last_token max_tokens st =
    st.buf st.e == separator && not (st.s == st.e) && length st.tokens + 1 == max_tokens - 1

-- The loop over the `len` bytes.
unfoldable pub scan : ℕ → ℕ → TokenScan → TokenScan
unfolding scan_byte is_last_token
scan max_tokens zero st = st
scan max_tokens (suc n) st =
    let more = scan max_tokens n (scan_byte st) in
    if is_last_token max_tokens st then scan_byte st else more

-- The token that the line ends with, and the terminal token.
unfoldable pub close_tokens : TokenScan → TokenScan
close_tokens st =
    let all = if st.s == st.e then st else add_token st in
    let rest = if st.buf st.e == 0 then 0 else st.e in
    record all { tokens = all.tokens ++ record { value = rest; length = 0 } ∷ [] }

-- The buffer and the tokens that a call leaves; `len` is strlen(command), and ntokens is the number
-- of the tokens.
unfoldable pub tokenize_command : ℕ → (ℕ → ℕ) → ℕ → ℕ → TokenScan
unfolding scan close_tokens
tokenize_command max_tokens buf command len =
    close_tokens (scan max_tokens len (record { buf = buf; tokens = []; s = command; e = command }))
