-- ===== src/Protocol/Tests.antt =====
-- Runs of a connection: a line that is cut, data in two pieces, a refused storing command, and the
-- keys of a get command.
use analysis_memcached.Prelude.{
  ℕ, ◌+◌, ◌*◌, ◌≤◌, ◌≡◌, ◌≢◌, refl, ap, ◌∙◌, true, false, none, some, List, [], ◌∷◌, ◌++◌, length,
  take, drop, ◌==◌, if◌then◌else◌, arith,
}
use analysis_memcached.Prelude.Int.{pos}
use analysis_memcached.Prelude.Memory.{memcpy, read, length-read}
use analysis_memcached.Prelude.Text.{codes}
use analysis_memcached.Item.{default_settings}
use analysis_memcached.Slabs.{cleared}
use analysis_memcached.PrefixStats.{stats_prefix_init}
use analysis_memcached.Items.{World, do_item_link, item_at}
use analysis_memcached.Items.Alloc.{Answers}
use analysis_memcached.Assoc.{assoc_find, assoc_insert, assoc_init, bucket, same_key, memcmp_eq}
use analysis_memcached.Items.Get.{do_item_get}
use analysis_memcached.Items.Sample.{one, thread, encode}
use analysis_memcached.Store.{nread_add, nread_set}
use analysis_memcached.Protocol.Tokens.{Token, tokenize_command, TokenScan}
use analysis_memcached.Protocol.Tokens.Words.{Text, Spelled, words_of}
use analysis_memcached.Protocol.Tokens.Spelling.{Tokenized, tokenize_command-Tokenized}
use analysis_memcached.Protocol.Conn.{
  Conn, Sizes, Input, got, conn_new_cmd, conn_read, conn_parse_cmd, conn_swallow,
}
use analysis_memcached.Protocol.Read.{
  copy_leftovers, nread_plain, try_read_network, progress, write_value, read_item,
}
use analysis_memcached.Protocol.Commands.{Server, Calls, UpdateArgs, update_refused, get_item}
use analysis_memcached.Protocol.Machine.{Request, Event, turn, transmit_complete, count_before}
use analysis_memcached.Protocol.Framing.{Nreads, done, more, asks, unread, nread-data}
use analysis_memcached.Protocol.Buffer.{InBuffer}
use analysis_memcached.Protocol.Turns.{turn-InBuffer}
use analysis_memcached.Protocol.Enough.{try_read_network-returns}
use analysis_memcached.Protocol.Get.{
  GetCalls, Gets, broke, look_up, serve_key, answer_hit, answer_suffixed, add_iovs, get_loop,
}
use analysis_memcached.Protocol.Get.Keys.{null_token}
use analysis_memcached.Protocol.Get.Held.{Granted}
use analysis_memcached.Protocol.Get.Granted.{AllKeys, looked_up, IsAnswered, get_loop-IsAnswered}
use analysis_memcached.Protocol.Get.Stuck.{Unbroken, word_at, get_loop-again}
use analysis_memcached.Protocol.Refused.{update_refused-answer, refused-parsed}

-- Everything that a run computes with.
program : Unit {0}
unfolding look_up memcpy read copy_leftovers nread_plain write_value read_item serve_key answer_hit
    answer_suffixed add_iovs do_item_link cleared
program = tt

abbrev line : List ℕ
line = codes "get a  b"

abbrev memory : ℕ → ℕ
memory = memcpy (λ a. 0) 100 line

line-Text : Text memory 100 line
unfolding program
line-Text = record { bytes = refl; nul = ground arith }

tokenize_command-Tokenized_example :
    Tokenized 3 (tokenize_command 3 memory 100 (length line)) (words_of line)
tokenize_command-Tokenized_example =
    tokenize_command-Tokenized 3 memory 100 line (omega arith) (omega arith) line-Text

-- Three of five bytes of data are in the read buffer.
abbrev waiting : Conn
waiting = record {
  state = conn_new_cmd;
  write_and_go = conn_new_cmd;
  noreply = true;
  bytes = memory;
  rbuf = 100;
  rcurr = 105;
  rsize = 16;
  rbytes = 3;
  wline = [];
  wsize = 2048;
  item = 100;
  ritem = 0;
  rlbytes = 5;
  sbytes = 0;
  cmd = nread_add;
  cas = 0;
  last_cmd_time = 0;
  ilist = [];
}

abbrev line_end : List ℕ
line_end = 13 ∷ 10 ∷ []

abbrev finished : World × Conn
finished = let p = nread_plain (λ n. got line_end) one waiting in (p.0, p.1)

two_missing : length line_end ≤ (copy_leftovers one waiting).1.rlbytes
unfolding program
two_missing = omega arith

none_missing : finished.1.rlbytes ≡ 0
unfolding program
none_missing = refl

data_run :
    Nreads one waiting
      (if asks one waiting then line_end ++ [] else [])
      (finished.0)
      (finished.1)
      []
data_run = more line_end [] (ground arith) two_missing done

nread-data_example :
    let tape = if asks one waiting then line_end ++ [] else [] in
    (take 5 (item_at (finished.0) 100).value ≡ take 5 (unread waiting ++ tape))
    × (unread (finished.1) ++ [] ≡ drop 5 (unread waiting ++ tape))
nread-data_example = nread-data data_run refl none_missing

abbrev answers : Answers
answers = record {
  compat_lock = λ n. true;
  evict_lock = λ n. true;
  hot_lock = λ n. true;
  free = true;
  granted = true;
  given = 4096;
}

abbrev calls : Calls
calls = record {
  env = record {
    encode = encode;
    hash = λ k. 1;
    printed = λ flags n. 6;
    chunks = 0;
    walks = 6;
    copies = 0;
  };
  libc = record {
    strtoull = λ str. (5, 1, false);
    isspace = λ c. c == 13;
    decimal = λ n. (48 + n) ∷ [];
  };
  settings = default_settings;
  detail_enabled = false;
  prefix_hash = λ k. 1;
  prefix_delimiter = 58;
  prefix_allocated = true;
  safe_strtoul = λ str. some 0;
  safe_strtol = λ str. some (pos 3);
  realtime = λ t. 0;
  realtime_maxdelta = 2592000;
  msghdr_made = true;
  item_size_ok = λ nkey flags nbytes. true;
  answers = λ n. answers;
  grants = λ i n. answers;
}

abbrev server : Server
server = record {
  world = one;
  rebal = record { signal = 0; s_clsid = pos 0; d_clsid = pos 0; cur = 0 };
  thread = thread;
  prefixes = stats_prefix_init;
}

abbrev sizes : Sizes
sizes = record { data_buffer_size = 2048; read_buffer_highwat = 8192 }

abbrev others : Request → TokenScan → Server → Conn → Server × Conn
others r out s c = (s, c)

-- A socket that always gives as much as is asked for.
abbrev flood : ℕ → ℕ → Input
flood i n = got (read (λ a. 65) i n)

abbrev event : Event
event = record {
  updated = true;
  socket = flood;
  grown = λ k. some (1000 * (k + 1));
  resized = true;
  new_place = 9000;
  chunk_ends = true;
  chunked = λ w c. (w, c, progress);
  built = true;
  transmit = transmit_complete;
}

waiting-InBuffer : InBuffer waiting
waiting-InBuffer = record { start = omega arith; end = omega arith }

flood_fits : (i n : ℕ) → length (read (λ a. 65) i n) ≤ n
flood_fits i n = omega (arith, length-read (λ a. 65) i n)

turn-InBuffer_example : InBuffer (turn calls sizes others 6 event conn_read server waiting 20).conn
turn-InBuffer_example =
    turn-InBuffer calls sizes others
      (λ r out s c. record { rbuf = refl; rcurr = refl; rsize = refl; rbytes = refl }) event
      flood_fits (λ w c b. b) 6 conn_read server waiting 20 waiting-InBuffer

try_read_network-returns_example :
    try_read_network flood (λ k. some (1000 * (k + 1))) 6 waiting ≢ none
try_read_network-returns_example =
    try_read_network-returns flood (λ k. some (1000 * (k + 1))) 6 waiting (omega arith)
      waiting-InBuffer

abbrev args : UpdateArgs
args = record { flags = 0; exptime = pos 0; vlen = 5; req_cas_id = 0 }

update_refused-answer_example :
    let d = (update_refused calls nread_set args (7 ∷ []) server waiting).1 in
    (d.state ≡ conn_new_cmd)
    × (d.write_and_go ≡ conn_swallow)
    × (d.sbytes ≡ 5)
    × (d.noreply ≡ false)
update_refused-answer_example = update_refused-answer calls nread_set args (7 ∷ []) server waiting

refused-parsed_example :
    let r = update_refused calls nread_set args (7 ∷ []) server waiting in
    let t = turn calls sizes others 6 event r.1.state r.0 r.1 20 in
    (t.conn.state ≡ conn_parse_cmd) × (unread t.conn ≡ unread waiting) × (t.stop ≡ false)
refused-parsed_example =
    refused-parsed calls nread_set args (7 ∷ []) server waiting sizes others 6 19 event refl
      (omega arith)

-- Every key is found, and the list of the items of an answer cannot grow.
abbrev starved : GetCalls
starved = record {
  limited_get = λ s key t touch. (s, some 100);
  expanded = λ i. false;
  suffix_buf = λ i. true;
  iov_space = λ n. true;
  make_suffix = λ w it cas. [];
  item_suffix = λ w it. [];
  chunked_iovs = λ w it pieces. (pieces, true);
  strlen = λ buf a. count_before 0 (read buf a 16);
  inline_ascii_response = false;
}

abbrev asked : List ℕ
asked = codes "abc"

abbrev begun : Gets
begun = record { server = server; items = []; si = 0; pieces = [] }

fails :
    (st : Gets) → (after : Gets) × (serve_key calls starved false false 0 asked st ≡ broke after)
unfolding program
fails st = (_, refl)

abbrev key_memory : ℕ → ℕ
key_memory = memcpy (λ a. 0) 104 asked

key_here : read key_memory 104 3 ≡ asked
unfolding program
key_here = refl

key_Unbroken : Unbroken key_memory 104 3
unfolding program
key_Unbroken = ground arith

key_ends : key_memory 107 ≡ 0
unfolding program
key_ends = refl

key_length : starved.strlen key_memory 104 ≡ 3
unfolding program
key_length = refl

get_loop-again_example :
    get_loop calls starved false false 0 50 key_memory
      (record { value = 104; length = 3 } ∷ [])
      begun
    ≡ get_loop calls starved false false 0 49 key_memory (word_at 104 3) (fails begun).0
get_loop-again_example =
    get_loop-again calls starved false false 0 49 key_memory 104 3 [] begun (fails begun).0
      (omega arith) (omega arith) key_Unbroken key_ends key_length
      (ap (λ key. serve_key calls starved false false 0 key begun) key_here ∙ (fails begun).1)

-- The look-up is that of the item of a key, and there is memory for the answer.
abbrev plenty : GetCalls
plenty = record starved {
  limited_get = λ s key t touch. get_item calls s key;
  expanded = λ i. true;
}

abbrev two_keys : ℕ → ℕ
two_keys = memcpy (λ a. 0) 104 (7 ∷ 0 ∷ codes "d")

abbrev two_tokens : List Token
two_tokens = record { value = 104; length = 1 } ∷ record { value = 106; length = 1 } ∷ []

two_keys-Spelled : Spelled two_keys 108 two_tokens ((7 ∷ []) ∷ codes "d" ∷ [])
unfolding program
two_keys-Spelled = (refl, refl, omega arith, (refl, refl, omega arith, tt))

plenty-Granted : Granted plenty
plenty-Granted = record {
  expanded = λ i. refl;
  suffix_buf = λ i. refl;
  iov_space = λ n. refl;
  chunked = λ w it pieces. refl;
}

-- One of the two keys is found.
one_item :
    (looked_up calls plenty plenty-Granted false false 0 ((7 ∷ []) ∷ codes "d" ∷ []) server).1
    ≡ 100 ∷ []
unfolding program do_item_get assoc_find assoc_insert assoc_init bucket same_key memcmp_eq
one_item = refl

two_keys-AllKeys : AllKeys ((7 ∷ []) ∷ codes "d" ∷ [])
unfolding program
two_keys-AllKeys = (omega arith, omega arith, (omega arith, omega arith, tt))

get_loop-IsAnswered_example :
    IsAnswered calls plenty plenty-Granted false false 0
      ((7 ∷ []) ∷ codes "d" ∷ [])
      begun
      (get_loop calls plenty false false 0 1 two_keys (two_tokens ++ null_token ∷ []) begun)
get_loop-IsAnswered_example =
    get_loop-IsAnswered calls plenty plenty-Granted false false 0 0 two_keys 108 two_tokens
      ((7 ∷ []) ∷ codes "d" ∷ []) begun two_keys-Spelled two_keys-AllKeys
