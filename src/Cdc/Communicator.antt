-- ===== src/Cdc/Communicator.antt =====
-- communicator_factory.cpp and the life of a `Communicator` in communicator.cpp: the socket, its owner,
-- and what the kernel has open. The kernel's choice of a number is a parameter.
use backend_common_component.Prelude.{
  ℕ, suc, Bool, true, false, Option, none, some, List, [], ◌∷◌, ◌++◌, ◌==◌, count, remove,
  get_elem?, set, if◌then◌else◌,
}

pub data Strategy : Type 0 where
  tcp udp : Strategy

-- The domains and the kinds of socket that the code tells apart, and any other.
pub data Domain : Type 0 where
  inet unix : Domain
  other_domain : ℕ → Domain

pub data Kind : Type 0 where
  stream dgram : Kind
  other_kind : ℕ → Kind

pub record Config : Type 0 where
  pub domain : Domain
  pub type : Kind
  pub protocol : ℕ

unfoldable pub tcp_ipv4 : Config
tcp_ipv4 = record { domain = inet; type = stream; protocol = 0 }

unfoldable pub udp_ipv4 : Config
udp_ipv4 = record { domain = inet; type = dgram; protocol = 0 }

unfoldable pub tcp_unix : Config
tcp_unix = record { domain = unix; type = stream; protocol = 0 }

unfoldable pub udp_unix : Config
udp_unix = record { domain = unix; type = dgram; protocol = 0 }

-- `fd_` below zero is none; zero for domain and type stands as an other one.
pub record Communicator : Type 0 where
  pub fd : Option ℕ
  pub domain : Domain
  pub type : Kind
  pub protocol : ℕ
  pub strategy : Option Strategy

unfoldable pub invalid : Communicator
invalid = record {
  fd = none;
  domain = other_domain 0;
  type = other_kind 0;
  protocol = 0;
  strategy = none;
}

-- The open descriptors, the communicators by their addresses, and how often `close` was
-- called on a number that was not open.
pub record World : Type 0 where
  pub descriptors : List ℕ
  pub comms : List Communicator
  pub bad_closes : ℕ

-- `SocketOps::close`.
unfoldable pub close_fd : ℕ → World → World
close_fd n w =
    if count n w.descriptors == 0
    then record w { bad_closes = suc w.bad_closes }
    else record w { descriptors = remove n w.descriptors }

unfoldable pub close_held : Option ℕ → World → World
unfolding close_fd
close_held none w = w
close_held (some n) w = close_fd n w

unfoldable pub closed : Communicator → Communicator
closed c = record c { fd = none; strategy = none }

unfoldable pub moved_from : Communicator → Communicator
unfolding invalid
moved_from c = invalid

abbrev pub append : Communicator → World → World
append c w = record w { comms = w.comms ++ (c ∷ []) }

-- `close`, and so the destructor, on the communicator at an address.
unfoldable pub close : ℕ → World → World
unfolding close_held closed
close i w = elim (get_elem? w.comms i) [
  | none ↦ w
  | some c ↦ let v = close_held c.fd w in record v { comms = set v.comms i (closed c) }
]

unfoldable pub move_construct : ℕ → World → World
unfolding moved_from
move_construct j w = elim (get_elem? w.comms j) [
  | none ↦ w
  | some c ↦ append c (record w { comms = set w.comms j (moved_from c) })
]

-- The move assignment behind its call of `close`.
unfoldable pub take_over : ℕ → ℕ → World → World
unfolding moved_from
take_over i j w = elim (get_elem? w.comms j) [
  | none ↦ w
  | some c ↦ record w { comms = set (set w.comms i c) j (moved_from c) }
]

unfoldable pub move_assign : ℕ → ℕ → World → World
unfolding close take_over
move_assign i j w = elim (get_elem? w.comms i) [
  | none ↦ w
  | some _ ↦ if i == j then w else take_over i j (close i w)
]

pub data Action : Type 0 where
  creates : Config → Bool → Action
  accepts : ℕ → Bool → Action
  closes moves : ℕ → Action
  assigns : ℕ → ℕ → Action

module _ (unused : List ℕ → ℕ) where
  unfoldable pub open_fd : World → World
  open_fd w = record w { descriptors = unused w.descriptors ∷ w.descriptors }

  -- The choice of `create` by the kind of socket.
  unfoldable pub assemble : Config → Kind → ℕ → World → World
  unfolding close_fd invalid
  assemble config stream n w =
      append
        (record {
          fd = some n;
          domain = config.domain;
          type = config.type;
          protocol = config.protocol;
          strategy = some tcp;
        })
        w
  assemble config dgram n w =
      append
        (record {
          fd = some n;
          domain = config.domain;
          type = config.type;
          protocol = config.protocol;
          strategy = some udp;
        })
        w
  assemble config (other_kind _) n w = append invalid (close_fd n w)

  -- `create`; the Boolean is whether `socket` succeeds.
  unfoldable pub create : Config → Bool → World → World
  unfolding open_fd assemble invalid
  create config true w = assemble config config.type (unused w.descriptors) (open_fd w)
  create config false w = append invalid w

  unfoldable pub accepted : ℕ → Communicator → Communicator
  accepted n c = record {
    fd = some n;
    domain = c.domain;
    type = c.type;
    protocol = 0;
    strategy = some tcp;
  }

  -- `accept` by the descriptor and the strategy; a null pointer leaves no communicator.
  unfoldable pub accept_on : Option ℕ → Option Strategy → Bool → Communicator → World → World
  unfolding open_fd accepted
  accept_on (some fd) (some tcp) true c w = append (accepted (unused w.descriptors) c) (open_fd w)
  accept_on _ _ _ c w = w

  unfoldable pub accept : ℕ → Bool → World → World
  unfolding accept_on
  accept i ok w = elim (get_elem? w.comms i) [
    | none ↦ w
    | some c ↦ accept_on c.fd c.strategy ok c w
  ]

  unfoldable pub act : Action → World → World
  unfolding create accept
  act (creates config ok) w = create config ok w
  act (accepts i ok) w = accept i ok w
  act (closes i) w = close i w
  act (moves j) w = move_construct j w
  act (assigns i j) w = move_assign i j w

  unfoldable pub run : List Action → World → World
  unfolding act
  run [] w = w
  run (x ∷ xs) w = run xs (act x w)

abbrev pub empty_world : World
empty_world = record { descriptors = []; comms = []; bad_closes = 0 }
