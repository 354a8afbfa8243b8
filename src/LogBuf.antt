-- ===== src/LogBuf.antt =====
-- internal/sandbox/logbuf/logbuf.go: the bounded buffer of exec output of one sandbox.
-- Bytes are numbers. The clock is an argument of a write. The mutex makes each method one step.
pub mod Eviction
pub mod History
pub mod Subscribers
mod Tests
use kotakpasir.Base.{
  ℕ, suc, ◌+◌, ◌-◌, Bool, true, false, not, ◌||◌, List, [], ◌∷◌, ◌++◌, map, length, is_empty, ltb,
  if◌then◌else◌, ◌==◌, nat_eq,
}
use kotakpasir.Base.Int.{ℤ, is_pos, to_ℕ}

pub data Stream : Type 0 where
  stdout stderr : Stream

pub record Entry : Type 0 where
  pub stream : Stream
  pub bytes : List ℕ
  pub at : ℕ

-- A subscriber's channel, with what waits in it, the oldest entry first.
pub record Channel : Type 0 where
  pub id : ℕ
  pub queue : List Entry

-- `make(chan Entry, 64)`
abbrev pub channel_size : ℕ
channel_size = 64

-- `closed` are the channels that a cancel has closed: their readers may still drain them.
pub record Buffer : Type 0 where
  pub entries : List Entry
  pub bytes : ℕ
  pub max : ℤ
  pub subs : List Channel
  pub closed : List Channel
  pub next_id : ℕ

-- `New`
unfoldable pub new : ℤ → Buffer
new max_bytes = record {
  entries = [];
  bytes = 0;
  max = max_bytes;
  subs = [];
  closed = [];
  next_id = 0;
}

-- The loop `for b.bytes > b.max && len(b.entries) > 0` of `write`.
unfoldable pub evict : ℕ → ℕ → List Entry → ℕ × List Entry
evict max bytes [] = (bytes, [])
evict max bytes (e ∷ entries) =
    let rest = evict max (bytes - length e.bytes) entries in
    if ltb max bytes then rest else (bytes, e ∷ entries)

-- `select { case ch <- e: default: }`
offer : Entry → Channel → Channel
offer e c =
    if ltb (length c.queue) channel_size then record c { queue = c.queue ++ (e ∷ []) } else c

-- The body of `write` behind its guard.
append : Buffer → Entry → Buffer
append b e =
    let (left, kept) = evict (to_ℕ b.max) (b.bytes + length e.bytes) (b.entries ++ (e ∷ [])) in
    record b { entries = kept; bytes = left; subs = map (offer e) b.subs }

-- `(*Buffer).write`, and with it `AppendStdout`, `AppendStderr` and the two stream writers.
unfoldable pub write : Stream → List ℕ → ℕ → Buffer → Buffer
unfolding evict offer append
write s p now b =
    if not (is_pos b.max) || is_empty p
    then b
    else append b (record { stream = s; bytes = p; at = now })

-- `(*Buffer).Snapshot`
abbrev pub snapshot : Buffer → List Entry
snapshot b = b.entries

-- `(*Buffer).Subscribe`, which returns the channel; its id serves for the cancel function.
unfoldable pub subscribe : Buffer → ℕ × Buffer
subscribe b = (
  b.next_id,
  record b { subs = record { id = b.next_id; queue = [] } ∷ b.subs; next_id = suc b.next_id },
)

-- Takes a channel out of a list of channels.
remove_channel : ℕ → List Channel → List Channel
remove_channel id [] = []
remove_channel id (c ∷ cs) =
    let rest = remove_channel id cs in if c.id == id then rest else c ∷ rest

only_channel : ℕ → List Channel → List Channel
only_channel id [] = []
only_channel id (c ∷ cs) = let rest = only_channel id cs in if c.id == id then c ∷ rest else rest

-- The cancel function that `Subscribe` returns.
unfoldable pub cancel : ℕ → Buffer → Buffer
unfolding remove_channel only_channel
cancel id b = record b {
  subs = remove_channel id b.subs;
  closed = only_channel id b.subs ++ b.closed;
}
