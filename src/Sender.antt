-- ===== src/Sender.antt =====
-- Network::Link, the sending side (Gamnet/Network/Link.cpp): the queue behind `AsyncSend` and the
-- loop of `SyncSend`. A buffer is the bytes between its cursors; `writing` counts the `async_write`
-- that have not called back, and `wire` has the buffers whose write ended well, in order. The
-- callbacks of a link run one at a time, on its strand.
pub mod Laws
mod Tests
use gamnet.Prelude.{
  ℕ, zero, suc, ◌+◌, ◌-◌, ◌==◌, ltb, if◌then◌else◌, Bool, true, false, ◌||◌, List, [], ◌∷◌, ◌++◌,
  Option, none, some, Outcome, ok, throw, fault, ◌>>=◌,
}
use gamnet.Buffer.{Buffer, append, read_bytes}

pub record Link : Type 0 where
  pub send_buffers : List (List ℕ)
  pub writing : ℕ
  pub wire : List (List ℕ)
  pub errors : ℕ

-- Link::FlushSend
unfoldable pub flush_send : Link → Link
flush_send l = elim l.send_buffers [ [] ↦ l | b ∷ bs ↦ record l { writing = l.writing + 1 } ]

abbrev pub is_empty : List (List ℕ) → Bool
is_empty [] = true
is_empty (b ∷ bs) = false

-- Link::AsyncSend(buffer)
unfoldable pub async_send : Link → List ℕ → Link
unfolding flush_send
async_send l bytes =
    let pushed = record l { send_buffers = l.send_buffers ++ (bytes ∷ []) } in
    if is_empty l.send_buffers then flush_send pushed else pushed

-- Link::AsyncSend(buf, len), with what `Buffer::Create` gives.
unfoldable pub async_send_copy : Link → Option Buffer → List ℕ → Outcome Link
unfolding async_send
async_send_copy l none bytes = ok l
async_send_copy l (some b) bytes = do
  b' ← append b bytes
  sent ← read_bytes b'
  ok (async_send l sent)

-- The callback of `async_write`, without and with an error. An error leaves the queue as it is.
unfoldable pub write_done : Link → Link
unfolding flush_send
write_done l = elim l.send_buffers [
  | [] ↦ record l { writing = l.writing - 1 }
  | b ∷ bs ↦
      flush_send
        (record l { send_buffers = bs; writing = l.writing - 1; wire = l.wire ++ (b ∷ []) })
]

unfoldable pub write_failed : Link → Link
write_failed l = record l { writing = l.writing - 1; errors = l.errors + 1 }

-- Link::SyncSend(buf, len). The k-th `write` of `r` bytes gives the count that was sent and whether
-- it failed; `none` stands for -1. With fuel; running out counts as a fault.
unfoldable pub sync_send : (ℕ → ℕ → ℕ × Bool) → ℕ → ℕ → ℕ → ℕ → Outcome (Option ℕ)
sync_send write zero k total len = fault
sync_send write (suc fuel) k total len =
    let (n, failed) = write k (len - total) in
    let rest = sync_send write fuel (suc k) (total + n) len in
    if ltb total len
    then (if failed then ok none else if n == 0 then ok none else rest)
    else ok (some total)
