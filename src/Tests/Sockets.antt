-- ===== src/Tests/Sockets.antt =====
-- The communication library with a kernel that counts up.
use backend_common_component.Prelude.{
  ℕ, suc, ◌<◌, ◌≤◌, ◌≡◌, refl, true, false, Option, none, some, List, [], ◌∷◌, count, sum_by,
  length, get_elem?, arith,
}
use backend_common_component.Ini.Reader.{Text}
use backend_common_component.Strings.{first}
use backend_common_component.Cdc.Communicator.{
  tcp, tcp_ipv4, udp_ipv4, unix, inet, stream, Communicator, World, empty_world, invalid, closed,
  close, move_construct, Action, creates, accepts, closes, moves, assigns, run, create, accept,
  move_assign, act,
}
use backend_common_component.Cdc.Descriptors.{IsOwned, run-IsOwned}
use backend_common_component.Cdc.Address.{
  unix_address, unix_sock_addr, address_of, sock_len, unix_sock_addr-read,
}
use backend_common_component.Cdc.Io.{Errno, Syscall}
use backend_common_component.Cdc.Sealed.{Refuses, close-Refuses}

abbrev total : List ℕ → ℕ
total xs = sum_by (λ n. n) xs

count-over : (n : ℕ) (xs : List ℕ) → total xs < n → count n xs ≡ 0
count-over n [] h = refl
count-over n (x ∷ xs) h = ground (arith, count-over n xs (omega arith))

abbrev unused : List ℕ → ℕ
unused xs = suc (total xs)

unused_lem : (xs : List ℕ) → count (unused xs) xs ≡ 0
unused_lem xs = count-over (unused xs) xs (omega arith)

empty-IsOwned : IsOwned empty_world
empty-IsOwned = record { owned = λ n. refl; distinct = λ n. omega arith; sound = refl }

abbrev server_program : List Action
server_program =
    creates tcp_ipv4 true
    ∷ accepts 0 true
    ∷ creates udp_ipv4 false
    ∷ moves 1
    ∷ assigns 0 3
    ∷ closes 0
    ∷ closes 0
    ∷ []

run-IsOwned_example : IsOwned (run unused server_program empty_world)
run-IsOwned_example = run-IsOwned unused unused_lem server_program empty_world empty-IsOwned

server_program_closes : (run unused server_program empty_world).descriptors ≡ []
unfolding run act create accept move_construct move_assign close tcp_ipv4
server_program_closes = refl

abbrev listener : Communicator
listener = record { fd = some 3; domain = inet; type = stream; protocol = 0; strategy = some tcp }

abbrev two_sockets : World
two_sockets = record { descriptors = 3 ∷ []; comms = listener ∷ invalid ∷ []; bad_closes = 0 }

-- A kernel on which every call succeeds, over a world that is the value of `errno`.
abbrev willing : Syscall → Option Errno → Option ℕ × Option Errno
willing _ e = (some 0, e)

abbrev note_errno : Errno → Option Errno → Option Errno
note_errno e _ = some e

abbrev no_address : Text → Option ℕ
no_address _ = none

first_closed : get_elem? (close 0 two_sockets).comms 0 ≡ some (closed listener)
unfolding close
first_closed = refl

first_moved : get_elem? (move_construct 0 two_sockets).comms 0 ≡ some invalid
unfolding move_construct
first_moved = refl

first_assigned : get_elem? (move_assign 1 0 two_sockets).comms 0 ≡ some invalid
unfolding move_assign
first_assigned = refl

close-Refuses_example :
    Refuses willing note_errno no_address (closed listener)
    × Refuses willing note_errno no_address invalid
    × Refuses willing note_errno no_address invalid
close-Refuses_example =
    close-Refuses willing note_errno no_address 0 1 two_sockets invalid listener (closed listener)
      invalid invalid refl refl refl first_closed first_moved first_assigned

abbrev no_text : ℕ → Text
no_text _ = []

abbrev slash : Text
slash = b'/' ∷ b's' ∷ []

unix_sock_addr-read_example :
    (address_of no_text unix (unix_sock_addr slash) ≡ some (unix_address (first 107 slash)))
    × (length slash ≤ 107 → first 107 slash ≡ slash)
    × (sock_len (unix_sock_addr slash) ≤ 110)
unix_sock_addr-read_example = unix_sock_addr-read no_text slash refl

slash_len : sock_len (unix_sock_addr slash) ≡ 5
unfolding unix_sock_addr
slash_len = refl
