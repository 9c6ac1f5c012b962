-- ===== src/Pool.antt =====
-- Gamnet/Library/Pool.h: a pool that makes objects up to a maximum and takes them back.
-- A pointer is an `Option`, `none` for NULL. What the factory gives comes with the call: an object,
-- NULL or an exception. `init` is the policy's `operator ()`; no policy but the one that does
-- nothing meets a factory that gives NULL.
pub mod Balance
mod Tests
use gamnet.Prelude.{
  ℕ, ◌+◌, ◌==◌, leb, ltb, if◌then◌else◌, ◌&&◌, Bool, List, [], ◌∷◌, Option, none, some, length,
  Outcome, ok, throw, fault, sub64, Error,
}

pub record Pool {ℓ} (T : Type ℓ) : Type ℓ where
  pub idle : List T
  pub cur_size : ℕ
  pub max_size : ℕ

-- Pool::Pool(nSize, factory)
unfoldable pub new_pool {ℓ} : {T : Type ℓ} → ℕ → Pool T
new_pool n = record { idle = []; cur_size = 0; max_size = n }

-- `cur_size_` counts an object before the factory is asked for it.
make {ℓ} : {T : Type ℓ} → (T → T) → Outcome (Option T) → Pool T → Pool T × Outcome (Option T)
make init (ok none) p = (record p { cur_size = p.cur_size + 1 }, ok none)
make init (ok (some t)) p = (record p { cur_size = p.cur_size + 1 }, ok (some (init t)))
make init (throw e) p = (record p { cur_size = p.cur_size + 1 }, throw e)
make init fault p = (record p { cur_size = p.cur_size + 1 }, fault)

-- `Create` behind the lock, with the idle objects as they are.
create_from {ℓ} :
    {T : Type ℓ} → (T → T) → Outcome (Option T) → Pool T → List T → Pool T × Outcome (Option T)
unfolding make
create_from init made p [] = if leb p.max_size p.cur_size then (p, ok none) else make init made p
create_from init made p (t ∷ rest) = (record p { idle = rest }, ok (some (init t)))

-- Pool::Create
unfoldable pub create {ℓ} :
    {T : Type ℓ} → (T → T) → Outcome (Option T) → Pool T → Pool T × Outcome (Option T)
unfolding create_from
create init made p = create_from init made p p.idle

-- Pool::Restitute, the deleter of the pointers that `Create` hands out.
unfoldable pub restitute {ℓ} : {T : Type ℓ} → Pool T → Option T → Pool T
restitute p none = p
restitute p (some t) = record p { idle = t ∷ p.idle }

unfoldable pub available {ℓ} : {T : Type ℓ} → Pool T → ℕ
available p = length p.idle + sub64 p.max_size p.cur_size

unfoldable pub size {ℓ} : {T : Type ℓ} → Pool T → ℕ
size p = p.cur_size

unfoldable pub capacity {ℓ} : {T : Type ℓ} → Pool T → ℕ
capacity p = p.max_size

-- Pool::Capacity(capacity)
unfoldable pub set_capacity {ℓ} : {T : Type ℓ} → Pool T → ℕ → Pool T
set_capacity p n = record p { max_size = n }
