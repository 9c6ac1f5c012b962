-- ===== src/Sender/Laws.antt =====
-- The order of the bytes on the wire, and what a synchronous send answers.
use gamnet.Prelude.{
  ℕ, zero, suc, ◌+◌, ◌-◌, ◌≤◌, ◌<◌, ◌≡◌, ◌⊎◌, refl, sym, ap, ◌∙◌, inl, inr, arith, ◌==◌, ltb,
  if◌then◌else◌, Bool, Bool-cases, List, [], ◌∷◌, ◌++◌, append-nil, append_assoc, none, some, ok,
  not-ltb→le, ltb→lt,
}
use gamnet.Sender.{Link, flush_send, async_send, write_done, sync_send, is_empty}

-- The states of a link that sent these buffers, in this order, while no write failed.
pub data Sending : Link → List (List ℕ) → Type 0 where
  idle : Sending (record { send_buffers = []; writing = 0; wire = []; errors = 0 }) []
  sends :
      (l : Link) (sent : List (List ℕ)) (bytes : List ℕ)
      → Sending l sent
      → Sending (async_send l bytes) (sent ++ (bytes ∷ []))
  done :
      (l : Link) (sent : List (List ℕ))
      → Sending l sent
      → 0 < l.writing
      → Sending (write_done l) sent

-- One write at a time, none when nothing is left, and every buffer is on the wire or in the queue.
pub record IsOrdered (l : Link) (sent : List (List ℕ)) : Type 0 where
  pub one_write : l.writing ≡ (if is_empty l.send_buffers then 0 else 1)
  pub in_order : l.wire ++ l.send_buffers ≡ sent

send-IsOrdered :
    (q w : List (List ℕ)) (n e : ℕ) (sent : List (List ℕ)) (bytes : List ℕ)
    → IsOrdered (record { send_buffers = q; writing = n; wire = w; errors = e }) sent
    → IsOrdered
        (async_send (record { send_buffers = q; writing = n; wire = w; errors = e }) bytes)
        (sent ++ (bytes ∷ []))
unfolding async_send flush_send
send-IsOrdered [] w n e sent bytes o = record {
  one_write = omega (arith, o.one_write);
  in_order = ap (λ l. l ++ (bytes ∷ [])) (sym (append-nil w) ∙ o.in_order);
}
send-IsOrdered (b ∷ q) w n e sent bytes o = record {
  one_write = o.one_write;
  in_order = sym (append_assoc w (b ∷ q) (bytes ∷ [])) ∙ ap (λ l. l ++ (bytes ∷ [])) o.in_order;
}

done-IsOrdered :
    (q w : List (List ℕ)) (n e : ℕ) (sent : List (List ℕ))
    → 0 < n
    → IsOrdered (record { send_buffers = q; writing = n; wire = w; errors = e }) sent
    → IsOrdered (write_done (record { send_buffers = q; writing = n; wire = w; errors = e })) sent
unfolding write_done flush_send
done-IsOrdered [] w n e sent h o = absurd (omega (arith, o.one_write))
done-IsOrdered (b ∷ []) w n e sent h o = record {
  one_write = omega (arith, o.one_write);
  in_order = append-nil (w ++ (b ∷ [])) ∙ o.in_order;
}
done-IsOrdered (b ∷ c ∷ q) w n e sent h o = record {
  one_write = omega (arith, o.one_write);
  in_order = append_assoc w (b ∷ []) (c ∷ q) ∙ o.in_order;
}

-- However sends and the callbacks of writes follow each other, while no write fails: at most one
-- write is under way and one is whenever a buffer waits, and the buffers on the wire followed by
-- those in the queue are the buffers sent, in the order of the sends.
pub Sending-IsOrdered : (l : Link) (sent : List (List ℕ)) → Sending l sent → IsOrdered l sent
Sending-IsOrdered l sent idle = record { one_write = refl; in_order = refl }
Sending-IsOrdered l sent (sends m before bytes s) =
    send-IsOrdered m.send_buffers m.wire m.writing m.errors before bytes
      (Sending-IsOrdered m before s)
Sending-IsOrdered l sent (done m before s h) =
    done-IsOrdered m.send_buffers m.wire m.writing m.errors before h (Sending-IsOrdered m before s)

-- Where no `write` claims more than it was given, `SyncSend` ends and answers -1 or the whole
-- length; the length of what is left to send and one more is fuel enough.
pub sync_send_lem :
    (write : ℕ → ℕ → ℕ × Bool) (fuel k total len : ℕ)
    → ((j r : ℕ) → (write j r).0 ≤ r)
    → total ≤ len
    → len - total < fuel
    → (sync_send write fuel k total len ≡ ok none)
      ⊎ (sync_send write fuel k total len ≡ ok (some len))
unfolding sync_send
sync_send_lem write zero k total len w h f = absurd (omega arith)
sync_send_lem write (suc fuel) k total len w h f = elim (Bool-cases (ltb total len)) [
  | inr over ↦
      let all : total ≡ len = omega (arith, not-ltb→le total len over) in
      inr (rw over (ap (λ n. ok (some n)) all))
  | inl more ↦ elim (Bool-cases (write k (len - total)).1) [
    | inl bad ↦ inl (rw (more, bad) refl)
    | inr fine ↦ elim (Bool-cases ((write k (len - total)).0 == 0)) [
      | inl nothing ↦ inl (rw (more, fine, nothing) refl)
      | inr some_sent ↦
          rw (more, fine, some_sent)
            (sync_send_lem write fuel (suc k) (total + (write k (len - total)).0) len w
              (ground (arith, w k (len - total), ltb→lt total len more))
              (ground (arith, w k (len - total), ltb→lt total len more, some_sent)))
    ]
  ]
]
