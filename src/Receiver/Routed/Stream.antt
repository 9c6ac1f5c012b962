-- ===== src/Receiver/Routed/Stream.antt =====
-- Between routers it does not matter either how the stream is cut into reads.
use gamnet.Prelude.{
  ℕ, suc, ◌+◌, ◌≤◌, ◌≡◌, refl, sym, ◌∙◌, arith, List, [], ◌∷◌, ◌++◌, Option, length, append-nil,
  append_assoc,
}
use mathlib.Core.Path.{ap₂}
use gamnet.Buffer.{Buffer, max_size}
use gamnet.Receiver.{Session}
use gamnet.Receiver.Framing.{IsPartial, flatten, AllMessages}
use gamnet.Receiver.Unread.{Ready}
use gamnet.Receiver.Loop.{Supply, delivered-append, overflows-append}
use gamnet.Receiver.Chunks.{AllWithin, Cut, cut, partial_no_message}
use gamnet.Receiver.Routed.{on_recv_msg, run}
use gamnet.Receiver.Routed.Whole.{Routed, on_recv_msg-Routed}

-- Every read leaves room for `m` bytes in the packet.
abbrev pub AllRoom : ℕ → List (List ℕ) → Type 0
AllRoom m [] = Unit {0}
AllRoom m (bytes ∷ reads) = (m + length bytes ≤ max_size) × AllRoom m reads

-- Messages of at most `m` bytes, with the beginning of one more behind them, come over a link
-- between routers in reads that each leave room for `m` bytes. However the reads cut the stream,
-- the dispatcher gets all the messages, whole, once and in order, whatever their numbers, without
-- an error, and the packet is left with the beginning of the last one.
pub run-Routed :
    (create : ℕ → ℕ → Option Buffer)
    → ((j : ℕ) → Supply (create j))
    → (reads : List (List ℕ)) (j m : ℕ) (s : Session) (unread : List ℕ) (fs : List (List ℕ))
      (t : List ℕ)
    → Ready s.recv_packet unread
    → IsPartial unread
    → length unread ≤ m
    → AllRoom m reads
    → AllMessages fs
    → AllWithin m fs
    → IsPartial t
    → length t ≤ m
    → unread ++ flatten reads ≡ flatten fs ++ t
    → Routed fs t (run create j s reads)
unfolding run
run-Routed create supply [] j m s unread [] t r pu lu room all within p lt e = record {
  session = s;
  events = [];
  returns = refl;
  ready = rw (sym (append-nil unread) ∙ e) at r;
  outs = refl;
  errors = refl;
}
run-Routed create supply [] j m s unread (f ∷ fs) t r pu lu room (im, all) within p lt e = absurd (
    partial_no_message f (flatten fs ++ t) im
      (rw (sym (append-nil unread) ∙ e ∙ append_assoc f (flatten fs) t) at pu))
run-Routed create supply (bytes ∷ reads) j m s unread fs t r pu lu (rm, room) all within p lt e =
    let c : Cut m (unread ++ bytes) (flatten reads) fs t =
      cut m (unread ++ bytes) (flatten reads) fs t all within p lt
        (append_assoc unread bytes (flatten reads) ∙ e) in
    let one : Routed c.before c.rest (on_recv_msg (create j) 0 s bytes) =
      on_recv_msg-Routed (create j) (supply j) 0 s unread bytes c.before c.rest r (omega arith)
        c.left c.all_before c.begins in
    let more : Routed c.behind t (run create (suc j) one.session reads) =
      run-Routed create supply reads (suc j) m one.session c.rest c.behind t one.ready c.begins
        c.short room c.all_behind c.within_behind p lt c.right in
    record {
      session = more.session;
      events = one.events ++ more.events;
      returns = rw (one.returns, more.returns);
      ready = more.ready;
      outs = delivered-append one.events more.events ∙ ap₂ ◌++◌ one.outs more.outs ∙ sym c.parts;
      errors = omega (arith, overflows-append one.events more.events, one.errors, more.errors);
    }
