-- ===== src/Frame/Io.antt =====
-- What read(2), poll(2) and write(2) do on a descriptor, as scripts: one entry for each call, in
-- order. The kernel chooses the entries, so the routines are theorems about every script. Where a
-- script has no further entry, the call has not returned yet.
use star_bridge.Base.{ℕ, suc, ◌+◌, ◌*◌, ◌/◌, ◌%◌, ◌^◌, ◌<◌, ◌≡◌, Bool, List, [], ◌∷◌, Bytes, arith}

-- One call of read(2): up to `suc n` bytes of what is pending (end of file if nothing is and
-- the peer has closed), EINTR, or another error.
pub data Read : Type 0 where
  chunk : ℕ → Read
  interrupted : Read
  failed : Read

-- One call of poll(2), with the read(2) that follows it where POLLIN is set. `hangup` is
-- POLLHUP, POLLERR or POLLNVAL without POLLIN.
pub data Poll : Type 0 where
  ready : Read → Poll
  no_data : Poll
  poll_interrupted : Poll
  hangup : Poll
  poll_failed : Poll

-- A readable descriptor: the bytes that the peer sends before it closes, and the two scripts.
pub record Source : Type 0 where
  pub wire : Bytes
  pub reads : List Read
  pub polls : List Poll

-- One call of write(2): up to `suc n` bytes are taken, EINTR, or another error.
pub data Write : Type 0 where
  taken : ℕ → Write
  write_interrupted : Write
  write_failed : Write

-- A writable descriptor: what the peer has been sent, and the script.
pub record Sink : Type 0 where
  pub sent : Bytes
  pub writes : List Write

-- How a routine that fills a buffer ends: with the bytes it got and `*timed_out`, with -1, or
-- not yet.
pub data Received : Type 0 where
  received : Bytes → Bool → Received
  read_failed : Received
  waiting : Received

-- The bytes of a `uint32_t` in memory, low byte first.
abbrev pub le32 : ℕ → Bytes
le32 n = (n % 256) ∷ (n / 256 % 256) ∷ (n / 65536 % 256) ∷ (n / 16777216 % 256) ∷ []

-- The `uint32_t` whose memory holds these bytes; only four bytes make one.
abbrev pub of_le32 : Bytes → ℕ
of_le32 (a ∷ b ∷ c ∷ d ∷ []) = a + 256 * b + 65536 * c + 16777216 * d
of_le32 _ = 0

pub of_le32-le32 : (n : ℕ) → n < 2 ^ 32 → of_le32 (le32 n) ≡ n
of_le32-le32 n h = omega arith

-- The read scripts in which no call fails, and the number of calls that deliver bytes.
abbrev pub IsSteady : List Read → Type 0
IsSteady [] = Unit {0}
IsSteady (chunk n ∷ r) = IsSteady r
IsSteady (interrupted ∷ r) = IsSteady r
IsSteady (failed ∷ r) = ⊥

abbrev pub chunks : List Read → ℕ
chunks [] = 0
chunks (chunk n ∷ r) = suc (chunks r)
chunks (interrupted ∷ r) = chunks r
chunks (failed ∷ r) = chunks r
