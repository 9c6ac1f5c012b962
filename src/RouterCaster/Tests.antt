-- ===== src/RouterCaster/Tests.antt =====
-- Concrete inputs for the theorems on the route tables.
use gamnet.Prelude.{ℕ, ◌≡◌, refl, arith, ◌==◌, if◌then◌else◌, List, [], ◌∷◌, map, some, ok}
use gamnet.MsgRouter.{Address, no_address, address_eq, string_eq}
use gamnet.RouterCaster.{Router, Peer, Group, register, unregister, find_session}
use gamnet.RouterCaster.Tables.{
  IsFree, Registered, Unregistered, register-Registered, unregister-Unregistered,
}
use gamnet.RouterCaster.Sends.{any_sends, rotation, any_sends-rotation}

abbrev service : List ℕ
service = 103 ∷ 115 ∷ []

abbrev first : Address
first = record { service_name = service; cast_type = 0; id = 1; msg_seq = 0 }

abbrev second : Address
second = record first { id = 2 }

-- Session 1 is registered; session 2 has no address yet.
abbrev peers : ℕ → Peer
peers i = record { address = if i == 1 then first else no_address; waiting = [] }

abbrev group : Group
group = record { turn = 0; members = 1 ∷ [] }

abbrev one_route : Router
one_route = record {
  uni = (first, 1) ∷ [];
  multi = (service, 1 ∷ []) ∷ [];
  any = (service, group) ∷ [];
  msg_seq = 1;
  peers = peers;
}

second-IsFree : IsFree one_route second
unfolding find_session address_eq string_eq
second-IsFree = record { no_uni = refl; no_multi = refl; no_any = refl }

register-Registered_example :
    Registered one_route second 2 first service (register one_route second 2)
register-Registered_example = register-Registered one_route second 2 first service second-IsFree

-- The session of `first` is in the groups, but not in the uni-cast table.
abbrev half_route : Router
half_route = record one_route { uni = [] }

unregister-Unregistered_example :
    Unregistered one_route first second (1 ∷ []) group (unregister one_route first)
unfolding find_session address_eq string_eq
unregister-Unregistered_example =
    unregister-Unregistered one_route first second 1 (1 ∷ []) group refl refl refl refl refl

-- Session 1 has been given another address by its remote server.
abbrev renamed_route : Router
renamed_route = record one_route { peers = λ i. record { address = second; waiting = [] } }

abbrev two_members : Group
two_members = record { turn = 1; members = 1 ∷ 2 ∷ [] }

abbrev two_routes : Router
two_routes = record one_route {
  multi = (service, 1 ∷ 2 ∷ []) ∷ [];
  any = (service, two_members) ∷ [];
}

any_sends-rotation_example :
    (r : Router) × (out : List (ℕ × List ℕ)) × (any_sends 3 two_routes 0 7 (some 50) first (9 ∷ [])
      ≡ ok (r, out))
    × (map (λ p. some p.0) out ≡ rotation (1 ∷ 2 ∷ []) 1 3)
    × (map (λ p. p.1) out ≡ map (λ p. 9 ∷ []) out)
unfolding string_eq
any_sends-rotation_example =
    any_sends-rotation 3 two_routes 0 7 (some 50) first (9 ∷ []) two_members refl (omega arith)
      (omega arith)
