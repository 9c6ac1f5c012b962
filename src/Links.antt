-- ===== src/Links.antt =====
-- Network::LinkManager (Gamnet/Network/LinkManager.{h,cpp}): the links of a server and the accept
-- that waits for the next one.
-- A link is the number of an object; the store gives the fields that the manager reads and writes.
-- `fresh` is the object that the factory of the link pool would make, and `accepting` counts the
-- `async_accept` that have not called back. The socket calls do not fail. The manager counts keys in
-- 64 bits, but a link keeps its key in 32.
pub mod Laws
mod Tests
use gamnet.Prelude.{
  ℕ, ◌+◌, ◌-◌, ◌%◌, ◌^◌, ◌==◌, ltb, if◌then◌else◌, Bool, true, false, not, List, [], ◌∷◌, Option,
  none, some, Outcome, ok, throw, fault, undefined_error, length, find, place, erase, retain,
  dropped,
}
use gamnet.Pool

pub record Link : Type 0 where
  pub link_key : ℕ
  pub expire_time : ℕ

pub record Manager : Type 0 where
  pub keepalive_time : ℕ
  pub links : List (ℕ × ℕ)
  pub link_pool : Pool.Pool ℕ
  pub is_acceptable : Bool
  pub accepting : ℕ
  pub next_key : ℕ
  pub store : ℕ → Link

-- The objects with one of them changed.
pub written : (ℕ → Link) → ℕ → Link → ℕ → Link
written store i l j = if i == j then l else store j

-- Link::Init as far as the fields go, then `LinkManager::Create` on the object.
keyed : Manager → ℕ → Pool.Pool ℕ → ℕ → Manager
unfolding written
keyed m now p i =
    let key = (m.next_key + 1) % 2 ^ 64 in
    record m {
      link_pool = p;
      next_key = key;
      store = written m.store i (record { link_key = key % 2 ^ 32; expire_time = now });
    }

-- LinkManager::Create
unfoldable pub create_link : Manager → ℕ → ℕ → Manager × Option ℕ
unfolding keyed
create_link m now fresh =
    let r = Pool.create (λ i. i) (ok (some fresh)) m.link_pool in
    elim r.1 [
      | ok (some i) ↦ (keyed m now r.0 i, some i)
      | _ ↦ (record m { link_pool = r.0 }, none)
    ]

-- LinkManager::Accept
unfoldable pub accept : Manager → ℕ → ℕ → Manager
accept m now fresh =
    let r = create_link m now fresh in
    elim r.1 [
      | none ↦ record r.0 { is_acceptable = false }
      | some i ↦ record r.0 { accepting = r.0.accepting + 1 }
    ]

-- LinkManager::Listen, from `_timer.SetTimer` on: the answer of the timer and the time to live.
unfoldable pub listen : Manager → ℕ → ℕ → ℕ → ℕ → Bool → Outcome Manager
listen m now fresh max_session seconds timer_set =
    let timed = if ltb 0 seconds then record m { keepalive_time = seconds } else m in
    let m' =
      accept (record timed { link_pool = Pool.set_capacity timed.link_pool max_session }) now
        fresh in
    if ltb 0 seconds then (if timer_set then ok m' else throw undefined_error) else ok m'

-- LinkManager::Callback_Accept: a link, which has no manager yet, that is accepted gets its time and its place in the table
-- (Link::AttachManager); the next accept starts whether this one failed or not.
pub attached : Manager → ℕ → ℕ → Manager
attached m now i =
    let m' = record m { store = written m.store i (record (m.store i) { expire_time = now }) } in
    let key = (m.store i).link_key in
    elim (find m'.links key) [ none ↦ record m' { links = place m'.links key i } | some j ↦ m' ]

unfoldable pub callback_accept : Manager → ℕ → ℕ → ℕ → Bool → Manager
callback_accept m fresh now i failed =
    let done = record m { accepting = m.accepting - 1 } in
    accept (if failed then done else attached done now i) now fresh

-- LinkManager::OnClose
unfoldable pub on_close : Manager → ℕ → ℕ → Manager
on_close m now fresh =
    let resumed = accept (record m { is_acceptable = true }) now fresh in
    if m.is_acceptable then m else if ltb 0 (Pool.available m.link_pool) then resumed else m

-- The last pointer to a link goes, and the link goes back to the pool.
pub released : Manager → ℕ → Manager
released m i = record m { link_pool = Pool.restitute m.link_pool (some i) }

-- LinkManager::Add
unfoldable pub add : Manager → ℕ → ℕ → Manager × Bool
add m key i = elim (find m.links key) [
  | none ↦ (record m { links = place m.links key i }, true)
  | some j ↦ (m, false)
]

-- LinkManager::Remove
unfoldable pub remove : Manager → ℕ → Manager
remove m key = if key == 0 then m else record m { links = erase m.links key }

-- LinkManager::Find
unfoldable pub find_link : Manager → ℕ → Option ℕ
find_link m key = find m.links key

-- LinkManager::Capacity(count)
unfoldable pub set_capacity : Manager → ℕ → Manager
set_capacity m n = record m { link_pool = Pool.set_capacity m.link_pool n }

-- LinkManager::Size
unfoldable pub size : Manager → ℕ
size m = length m.links

-- The timer's callback, with the links that get `OnError(ETIMEDOUT)`.
unfoldable pub sweep : Manager → ℕ → Manager × List ℕ
sweep m now =
    let stays = λ (i : ℕ). not (ltb ((m.store i).expire_time + m.keepalive_time) now) in
    (record m { links = retain stays m.links }, dropped stays m.links)
