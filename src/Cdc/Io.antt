-- ===== src/Cdc/Io.antt =====
-- The calls of communicator.cpp, protocol_strategy.cpp and socket_ops.cpp that use a socket. The system
-- calls are a parameter over a world `W`, where none is an answer below zero.
use backend_common_component.Prelude.{
  ℕ, ◌+◌, ◌-◌, ◌/◌, ◌%◌, ◌^◌, Bool, false, Option, none, some, List, ◌==◌, if◌then◌else◌, ◌>>=◌,
}
use backend_common_component.Ini.Reader.{Text}
use backend_common_component.Cdc.Communicator.{Strategy, tcp, udp, Communicator}
use backend_common_component.Cdc.Address.{Address, SockAddr, get_sock_addr, address_of}

pub data Errno : Type 0 where
  ebadf eopnotsupp einval : Errno

pub data Syscall : Type 0 where
  sys_connect sys_bind : (fd : ℕ) (addr : SockAddr) → Syscall
  sys_listen : (fd backlog : ℕ) → Syscall
  sys_send : (fd : ℕ) (data_sent : List ℕ) → Syscall
  sys_recv : (fd len : ℕ) → Syscall
  sys_sendto : (fd : ℕ) (data_sent : List ℕ) (addr : SockAddr) → Syscall
  sys_recvfrom : (fd len : ℕ) → Syscall
  sys_getfl : (fd : ℕ) → Syscall
  sys_setfl : (fd flags : ℕ) → Syscall
  sys_setsockopt : (fd level optname : ℕ) (optval : List ℕ) → Syscall

-- The bit of `O_NONBLOCK` set and cleared in a word of flags.
unfoldable pub with_bit : ℕ → ℕ → ℕ
with_bit bit flags = if (flags / 2 ^ bit) % 2 == 1 then flags else flags + 2 ^ bit

unfoldable pub without_bit : ℕ → ℕ → ℕ
without_bit bit flags = if (flags / 2 ^ bit) % 2 == 1 then flags - 2 ^ bit else flags

unfoldable pub is_zero : Option ℕ → Bool
is_zero none = false
is_zero (some n) = n == 0

module _ {W : Type 0} where
  -- `== 0` on the answer.
  abbrev pub succeeded : Option ℕ × W → Bool × W
  succeeded r = (is_zero r.0, r.1)

  module _ (sys : Syscall → W → Option ℕ × W) (set_errno : Errno → W → W) where
    abbrev pub fail : Errno → W → Option ℕ × W
    fail e w = (none, set_errno e w)

    -- `connect` and `bind`, once the address is converted.
    unfoldable pub at_address : Option ℕ → Option SockAddr → (ℕ → SockAddr → Syscall) → W → Bool × W
    unfolding is_zero
    at_address (some fd) (some sa) request w = succeeded (sys (request fd sa) w)
    at_address _ _ request w = (false, w)

    unfoldable pub connect : (Text → Option ℕ) → Communicator → Address → W → Bool × W
    unfolding at_address get_sock_addr
    connect inet_pton c addr w = at_address c.fd (get_sock_addr inet_pton addr) sys_connect w

    unfoldable pub bind : (Text → Option ℕ) → Communicator → Address → W → Bool × W
    unfolding at_address get_sock_addr
    bind inet_pton c addr w = at_address c.fd (get_sock_addr inet_pton addr) sys_bind w

    unfoldable pub listen_on : Option ℕ → Option Strategy → ℕ → W → Bool × W
    unfolding is_zero
    listen_on (some fd) (some tcp) backlog w = succeeded (sys (sys_listen fd backlog) w)
    listen_on (some fd) (some udp) backlog w = (false, set_errno eopnotsupp w)
    listen_on _ _ backlog w = (false, w)

    unfoldable pub listen : Communicator → ℕ → W → Bool × W
    unfolding listen_on
    listen c backlog w = listen_on c.fd c.strategy backlog w

    unfoldable pub send_on : Option ℕ → Option Strategy → List ℕ → W → Option ℕ × W
    send_on (some fd) (some tcp) d w = sys (sys_send fd d) w
    send_on (some fd) (some udp) d w = sys (sys_send fd d) w
    send_on _ _ d w = fail ebadf w

    unfoldable pub send : Communicator → List ℕ → W → Option ℕ × W
    unfolding send_on
    send c d w = send_on c.fd c.strategy d w

    unfoldable pub recv_on : Option ℕ → Option Strategy → ℕ → W → Option ℕ × W
    recv_on (some fd) (some tcp) len w = sys (sys_recv fd len) w
    recv_on (some fd) (some udp) len w = sys (sys_recv fd len) w
    recv_on _ _ len w = fail ebadf w

    unfoldable pub recv : Communicator → ℕ → W → Option ℕ × W
    unfolding recv_on
    recv c len w = recv_on c.fd c.strategy len w

    unfoldable pub send_to_on :
        Option ℕ → Option Strategy → Option SockAddr → List ℕ → W → Option ℕ × W
    send_to_on (some fd) (some tcp) sa d w = fail eopnotsupp w
    send_to_on (some fd) (some udp) none d w = fail einval w
    send_to_on (some fd) (some udp) (some sa) d w = sys (sys_sendto fd d sa) w
    send_to_on _ _ sa d w = fail ebadf w

    unfoldable pub send_to : (Text → Option ℕ) → Communicator → Address → List ℕ → W → Option ℕ × W
    unfolding send_to_on get_sock_addr
    send_to inet_pton c addr d w = send_to_on c.fd c.strategy (get_sock_addr inet_pton addr) d w

    -- `recvFrom`. The sender's address is assigned through the reference to the base class, which
    -- has no member: the caller's address is given back as it was.
    unfoldable pub recv_from_on :
        Option ℕ → Option Strategy → Address → ℕ → W → Option ℕ × Address × W
    recv_from_on (some fd) (some tcp) addr len w = (none, addr, set_errno eopnotsupp w)
    recv_from_on (some fd) (some udp) addr len w =
        let (n, v) = sys (sys_recvfrom fd len) w in (n, addr, v)
    recv_from_on _ _ addr len w = (none, addr, set_errno ebadf w)

    unfoldable pub recv_from : Communicator → Address → ℕ → W → Option ℕ × Address × W
    unfolding recv_from_on
    recv_from c addr len w = recv_from_on c.fd c.strategy addr len w

    unfoldable pub set_flags : ℕ → ℕ → Bool → Option ℕ × W → Bool × W
    unfolding is_zero with_bit without_bit
    set_flags bit fd nonblock (none, w) = (false, w)
    set_flags bit fd nonblock (some flags, w) =
        succeeded
          (sys (sys_setfl fd (if nonblock then with_bit bit flags else without_bit bit flags)) w)

    unfoldable pub non_blocking_on : ℕ → Option ℕ → Bool → W → Bool × W
    unfolding set_flags
    non_blocking_on bit none nonblock w = (false, w)
    non_blocking_on bit (some fd) nonblock w = set_flags bit fd nonblock (sys (sys_getfl fd) w)

    -- `setNonBlocking`, where `O_NONBLOCK` is 2 to the power of `bit`.
    unfoldable pub set_non_blocking : ℕ → Communicator → Bool → W → Bool × W
    unfolding non_blocking_on
    set_non_blocking bit c nonblock w = non_blocking_on bit c.fd nonblock w

    unfoldable pub sock_opt_on : Option ℕ → ℕ → ℕ → List ℕ → W → Bool × W
    unfolding is_zero
    sock_opt_on none level optname optval w = (false, w)
    sock_opt_on (some fd) level optname optval w =
        succeeded (sys (sys_setsockopt fd level optname optval) w)

    unfoldable pub set_sock_opt : Communicator → ℕ → ℕ → List ℕ → W → Bool × W
    unfolding sock_opt_on
    set_sock_opt c level optname optval w = sock_opt_on c.fd level optname optval w

  -- `getLocalAddress` and `getPeerAddress`: `name` is `getsockname` or `getpeername` on a descriptor.
  unfoldable pub get_address :
      (ℕ → W → Option SockAddr) → (ℕ → Text) → Communicator → W → Option Address
  unfolding address_of
  get_address name inet_ntop c w = do fd ← c.fd; sa ← name fd w; address_of inet_ntop c.domain sa
