-- ===== src/MsgRouter/Order.antt =====
-- `operator <` and `operator ==` on addresses: the order that std::map keys on.
use gamnet.Prelude.{ℕ, ◌^◌, ◌<◌, ◌≡◌, refl, ◌↔◌, arith, true, false, not, List, [], ◌∷◌}
use gamnet.MsgRouter.{Address, string_lt, string_eq, address_lt, address_eq, address_ne}

string_lt_irrefl : (xs : List ℕ) → string_lt xs xs ≡ false
unfolding string_lt
string_lt_irrefl [] = refl
string_lt_irrefl (x ∷ xs) = ground (arith, string_lt_irrefl xs)

string_lt_trans :
    (xs ys zs : List ℕ) → string_lt xs ys ≡ true → string_lt ys zs ≡ true → string_lt xs zs ≡ true
unfolding string_lt
string_lt_trans xs [] zs h k = cc
string_lt_trans xs (y ∷ ys) [] h k = cc
string_lt_trans [] (y ∷ ys) (z ∷ zs) h k = refl
string_lt_trans (x ∷ xs) (y ∷ ys) (z ∷ zs) h k = ground (arith, string_lt_trans xs ys zs)

string_connected : (xs ys : List ℕ) → string_lt xs ys ≡ false → string_lt ys xs ≡ false → xs ≡ ys
unfolding string_lt
string_connected [] [] h k = refl
string_connected [] (y ∷ ys) h k = cc
string_connected (x ∷ xs) [] h k = cc
string_connected (x ∷ xs) (y ∷ ys) h k = ground (arith, string_connected xs ys)

pub string_eq_iff : (xs ys : List ℕ) → (string_eq xs ys ≡ true) ↔ (xs ≡ ys)
unfolding string_eq
string_eq_iff [] [] = (λ h. refl, λ h. refl)
string_eq_iff [] (y ∷ ys) = (λ h. cc, λ h. cc)
string_eq_iff (x ∷ xs) [] = (λ h. cc, λ h. cc)
string_eq_iff (x ∷ xs) (y ∷ ys) = ground (arith, string_eq_iff xs ys)

-- The key of an address: the sequence number is not part of it.
pub record SameKey (a b : Address) : Type 0 where
  pub same_name : a.service_name ≡ b.service_name
  pub same_cast : a.cast_type ≡ b.cast_type
  pub same_id : a.id ≡ b.id

-- `==` holds exactly of the addresses with one key, and `!=` is its negation.
pub address_eq_iff :
    (a b : Address)
    → ((address_eq a b ≡ true) ↔ SameKey a b) × (address_ne a b ≡ not (address_eq a b))
unfolding address_eq address_ne
address_eq_iff a b = ground (arith, string_eq_iff a.service_name b.service_name)

-- The laws of an order that std::map keys on, at three addresses.
pub record StrictOrder (a b c : Address) : Type 0 where
  pub irreflexive : address_lt a a ≡ false
  pub transitive : address_lt a b ≡ true → address_lt b c ≡ true → address_lt a c ≡ true
  pub connected : address_lt a b ≡ false → address_lt b a ≡ false → address_eq a b ≡ true
  pub disjoint : address_eq a b ≡ true → address_lt a b ≡ false

-- On cast types of 32 bits `<` is a strict order, two addresses of which neither is less than the
-- other are `==`, and `==` addresses are not less than each other.
pub address_lt-StrictOrder :
    (a b c : Address)
    → a.cast_type < 2 ^ 32
    → b.cast_type < 2 ^ 32
    → c.cast_type < 2 ^ 32
    → StrictOrder a b c
unfolding address_lt address_eq
address_lt-StrictOrder a b c ha hb hc = record {
  irreflexive = ground (arith, string_lt_irrefl a.service_name);
  transitive = λ h k. ground (
    arith,
    string_lt_trans a.service_name b.service_name c.service_name,
    string_eq_iff a.service_name b.service_name,
    string_eq_iff b.service_name c.service_name,
    string_eq_iff a.service_name c.service_name,
  );
  connected = λ h k. ground (
    arith,
    string_connected a.service_name b.service_name,
    string_eq_iff a.service_name b.service_name,
    string_eq_iff b.service_name a.service_name,
  );
  disjoint = λ h.
      ground (arith, string_lt_irrefl a.service_name, string_eq_iff a.service_name b.service_name);
}
