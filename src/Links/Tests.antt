-- ===== src/Links/Tests.antt =====
-- Concrete inputs for the theorems on the accept.
use gamnet.Prelude.{◌<◌, refl, arith, true, false, [], ◌∷◌}
use gamnet.Pool
use gamnet.Links.{Manager, create_link, accept, listen, callback_accept}
use gamnet.Links.Laws.{Reached, listened, called_back, IsListening, Reached-IsListening}

abbrev closed_manager : Manager
closed_manager = record {
  keepalive_time = 0;
  links = [];
  link_pool = record { idle = []; cur_size = 0; max_size = 65535 };
  is_acceptable = true;
  accepting = 0;
  next_key = 0;
  store = λ i. record { link_key = 0; expire_time = 0 };
}

-- The manager of a server for one link, of which all are in use.
abbrev full_manager : Manager
full_manager = record closed_manager {
  links = (1, 7) ∷ [];
  link_pool = record { idle = []; cur_size = 1; max_size = 1 };
  is_acceptable = false;
  next_key = 1;
}

abbrev listening : Manager
listening =
    accept (record closed_manager { link_pool = Pool.set_capacity closed_manager.link_pool 1 }) 5 7

listening-Reached : Reached listening
unfolding listen
listening-Reached = listened closed_manager listening 5 7 1 0 true refl refl refl

one_waits : 0 < listening.accepting
unfolding accept create_link Pool.create Pool.set_capacity
one_waits = omega arith

Reached-IsListening_example : IsListening (callback_accept listening 8 6 7 false)
Reached-IsListening_example =
    Reached-IsListening (callback_accept listening 8 6 7 false)
      (called_back listening 8 6 7 false listening-Reached one_waits)

abbrev half_manager : Manager
half_manager = record full_manager {
  link_pool = record { idle = 7 ∷ []; cur_size = 1; max_size = 1 };
}
