-- ===== src/Sender/Tests.antt =====
-- Concrete inputs for the theorems on sending.
use gamnet.Prelude.{ℕ, ◌≤◌, ◌<◌, ◌≡◌, ◌⊎◌, arith, Bool, false, min, [], ◌∷◌, none, some, ok}
use gamnet.Sender.{Link, async_send, write_done, sync_send, flush_send}
use gamnet.Sender.Laws.{idle, sends, done, IsOrdered, Sending-IsOrdered, sync_send_lem}

abbrev new_link : Link
new_link = record { send_buffers = []; writing = 0; wire = []; errors = 0 }

abbrev two_sent : Link
two_sent = async_send (async_send new_link (1 ∷ [])) (2 ∷ [])

one_waits : 0 < two_sent.writing
unfolding async_send flush_send
one_waits = omega arith

Sending-IsOrdered_example : IsOrdered (write_done two_sent) ((1 ∷ []) ∷ (2 ∷ []) ∷ [])
Sending-IsOrdered_example = Sending-IsOrdered (write_done two_sent) ((1 ∷ []) ∷ (2 ∷ []) ∷ []) (
    done two_sent ((1 ∷ []) ∷ (2 ∷ []) ∷ [])
      (sends (async_send new_link (1 ∷ [])) ((1 ∷ []) ∷ []) (2 ∷ [])
        (sends new_link [] (1 ∷ []) idle))
      one_waits)

-- Three bytes at a time.
abbrev by_threes : ℕ → ℕ → ℕ × Bool
by_threes k r = (min 3 r, false)

by_threes_within : (k r : ℕ) → (by_threes k r).0 ≤ r
by_threes_within k r = omega arith

sync_send_lem_example :
    (sync_send by_threes 9 0 0 8 ≡ ok none) ⊎ (sync_send by_threes 9 0 0 8 ≡ ok (some 8))
sync_send_lem_example = sync_send_lem by_threes 9 0 0 8 by_threes_within (omega arith) (omega arith)
