-- ===== src/Cdc/Sealed.antt =====
-- What a communicator without a socket answers.
use backend_common_component.Prelude.{
  ℕ, zero, suc, ◌≡◌, refl, sym, Bool, false, Option, none, some, List, get_elem?, set, set-get_self,
  set-get_ne, ◌==◌, ◌∙◌, ap, ◌++◌, [], ◌∷◌,
}
use backend_common_component.Ini.Reader.{Text}
use backend_common_component.Cdc.Communicator.{
  Communicator, closed, close, moved_from, invalid, move_construct, move_assign, take_over, World,
  accept_on,
}
use backend_common_component.Cdc.Descriptors.{close-get, close_held-comms}
use backend_common_component.Cdc.Address.{Address, SockAddr}
use backend_common_component.Cdc.Io.{
  Errno, ebadf, Syscall, at_address, connect, bind, listen_on, listen, send_on, send, recv_on, recv,
  send_to_on, send_to, recv_from_on, recv_from, non_blocking_on, set_non_blocking, sock_opt_on,
  set_sock_opt, get_address,
}

get-append :
    {A : Type 0} (xs ys : List A) (i : ℕ) (a : A)
    → get_elem? xs i ≡ some a
    → get_elem? (xs ++ ys) i ≡ some a
get-append [] ys i a e = cc
get-append (x ∷ xs) ys zero a e = e
get-append (x ∷ xs) ys (suc i) a e = get-append xs ys i a e

move-get :
    (j : ℕ) (v : World) (c : Communicator)
    → get_elem? v.comms j ≡ some c
    → get_elem? (move_construct j v).comms j ≡ some invalid
unfolding move_construct moved_from
move-get j v c e =
    rw (e, move_construct)
      (get-append (set v.comms j invalid) (c ∷ []) j invalid (set-get_self j v.comms c invalid e))

close-other :
    (k i : ℕ) (v : World) (b c : Communicator)
    → get_elem? v.comms k ≡ some b
    → get_elem? v.comms i ≡ some c
    → (k == i) ≡ false
    → get_elem? (close k v).comms i ≡ some c
unfolding close
close-other k i v b c f e differ =
    rw (f, close) rw (close_held-comms b.fd v) (set-get_ne k i v.comms (closed b) differ ∙ e)

take_over-get :
    (k i : ℕ) (v : World) (c : Communicator)
    → get_elem? v.comms i ≡ some c
    → (k == i) ≡ false
    → get_elem? (take_over k i v).comms i ≡ some invalid
unfolding take_over moved_from
take_over-get k i v c e differ =
    rw (e, take_over)
      (set-get_self i (set v.comms k c) c invalid (set-get_ne k i v.comms c differ ∙ e))

assign-get :
    (k i : ℕ) (v : World) (b c : Communicator)
    → get_elem? v.comms k ≡ some b
    → get_elem? v.comms i ≡ some c
    → (k == i) ≡ false
    → get_elem? (move_assign k i v).comms i ≡ some invalid
unfolding move_assign
assign-get k i v b c f e differ =
    rw (f, move_assign) rw differ
      (take_over-get k i (close k v) c (close-other k i v b c f e differ) differ)

abbrev fd_of : Option Communicator → Option ℕ
fd_of none = none
fd_of (some c) = c.fd

module _ {W : Type 0} (sys : Syscall → W → Option ℕ × W) (set_errno : Errno → W → W)
    (inet_pton : Text → Option ℕ) where
  -- Every use fails, and no address is told, without a system call; sending and receiving leave `EBADF`.
  pub record Refuses (c : Communicator) : Type 0 where
    pub connects : (a : Address) (w : W) → connect sys set_errno inet_pton c a w ≡ (false, w)
    pub binds : (a : Address) (w : W) → bind sys set_errno inet_pton c a w ≡ (false, w)
    pub listens : (n : ℕ) (w : W) → listen sys set_errno c n w ≡ (false, w)
    pub accepts :
        (unused : List ℕ → ℕ) (ok : Bool) (v : World) → accept_on unused c.fd c.strategy ok c v ≡ v
    pub addresses :
        (name : ℕ → W → Option SockAddr) (inet_ntop : ℕ → Text) (w : W)
        → get_address name inet_ntop c w ≡ none
    pub sends : (d : List ℕ) (w : W) → send sys set_errno c d w ≡ (none, set_errno ebadf w)
    pub receives : (n : ℕ) (w : W) → recv sys set_errno c n w ≡ (none, set_errno ebadf w)
    pub sends_to :
        (a : Address) (d : List ℕ) (w : W)
        → send_to sys set_errno inet_pton c a d w ≡ (none, set_errno ebadf w)
    pub receives_from :
        (a : Address) (n : ℕ) (w : W)
        → recv_from sys set_errno c a n w ≡ (none, a, set_errno ebadf w)
    pub blocks :
        (bit : ℕ) (b : Bool) (w : W) → set_non_blocking sys set_errno bit c b w ≡ (false, w)
    pub options : (l o : ℕ) (v : List ℕ) (w : W) → set_sock_opt sys set_errno c l o v w ≡ (false, w)

  none-Refuses : (c : Communicator) → c.fd ≡ none → Refuses c
  unfolding connect bind at_address listen listen_on send send_on recv recv_on send_to send_to_on
      recv_from recv_from_on set_non_blocking non_blocking_on set_sock_opt sock_opt_on accept_on
      get_address
  none-Refuses c e = record {
    connects = λ a w. rw e refl;
    binds = λ a w. rw e refl;
    listens = λ n w. rw e refl;
    accepts = λ unused ok v. rw e refl;
    addresses = λ name inet_ntop w. rw e refl;
    sends = λ d w. rw e refl;
    receives = λ n w. rw e refl;
    sends_to = λ a d w. rw e refl;
    receives_from = λ a n w. rw e refl;
    blocks = λ b f w. rw e refl;
    options = λ l o v w. rw e refl;
  }

  -- A communicator that was closed refuses every use, and so does one that another was constructed from
  -- or was assigned by a move: connecting, binding, listening, accepting, sending and receiving, asking
  -- for its two addresses and setting options fail without a system call, and sending and receiving
  -- leave `EBADF`.
  pub close-Refuses :
      (i k : ℕ) (v : World) (b c d m n : Communicator)
      → get_elem? v.comms i ≡ some c
      → get_elem? v.comms k ≡ some b
      → (k == i) ≡ false
      → get_elem? (close i v).comms i ≡ some d
      → get_elem? (move_construct i v).comms i ≡ some m
      → get_elem? (move_assign k i v).comms i ≡ some n
      → Refuses d × Refuses m × Refuses n
  unfolding closed invalid
  close-Refuses i k v b c d m n e l differ f g h = (
    none-Refuses d (ap fd_of (sym f ∙ close-get i v c e)),
    none-Refuses m (ap fd_of (sym g ∙ move-get i v c e)),
    none-Refuses n (ap fd_of (sym h ∙ assign-get k i v b c l e differ)),
  )
