-- ===== src/Cdc/Descriptors.antt =====
-- Who owns the descriptors that communicator.cpp opens.
use backend_common_component.Prelude.{
  ℕ, ◌+◌, ◌≤◌, ◌<◌, ◌≡◌, refl, Bool, true, false, Option, none, some, List, [], ◌∷◌, ◌==◌, arith,
  count, count-remove, get_elem?, set, sum_by, sum_by-append, sum_by-set, set-get_self, set-get_ne,
  if◌then◌else◌, Bool-cases, Option-cases, inl, inr, ◌∙◌,
}
use backend_common_component.Cdc.Communicator.{
  Config, Kind, stream, dgram, other_kind, Strategy, tcp, udp, Communicator, World, invalid,
  close_fd, close_held, closed, moved_from, close, move_construct, take_over, move_assign, open_fd,
  assemble, create, accepted, accept_on, accept, Action, creates, accepts, closes, moves, assigns,
  act, run, append,
}

abbrev holds_fd : ℕ → Option ℕ → ℕ
holds_fd n none = 0
holds_fd n (some m) = if m == n then 1 else 0

-- Whether a communicator owns a descriptor.
abbrev pub holds : ℕ → Communicator → ℕ
holds n c = holds_fd n c.fd

-- Each open descriptor is owned by exactly one communicator, nobody owns another number, and no
-- number was closed that was not open.
pub record IsOwned (w : World) : Type 0 where
  pub owned : (n : ℕ) → count n w.descriptors ≡ sum_by (holds n) w.comms
  pub distinct : (n : ℕ) → count n w.descriptors ≤ 1
  pub sound : w.bad_closes ≡ 0

holds-le :
    (n i : ℕ) (xs : List Communicator) (c : Communicator)
    → get_elem? xs i ≡ some c
    → holds n c ≤ sum_by (holds n) xs
unfolding invalid
holds-le n i xs c e = omega (arith, sum_by-set (holds n) i xs c invalid e)

append-IsOwned : (c : Communicator) (w : World) → c.fd ≡ none → IsOwned w → IsOwned (append c w)
append-IsOwned c w e v = record {
  owned = λ n. ground (arith, v.owned n, sum_by-append (holds n) w.comms (c ∷ []), e);
  distinct = v.distinct;
  sound = v.sound;
}

is_open :
    (m i : ℕ) (w : World) (c : Communicator)
    → IsOwned w
    → get_elem? w.comms i ≡ some c
    → c.fd ≡ some m
    → 0 < count m w.descriptors
is_open m i w c v e f = ground (arith, v.owned m, holds-le m i w.comms c e, f)

-- A communicator gives up its descriptor, which is closed.
give_up :
    (o : Option ℕ) (i : ℕ) (w : World) (c : Communicator)
    → IsOwned w
    → get_elem? w.comms i ≡ some c
    → c.fd ≡ o
    → IsOwned (record (close_held o w) { comms = set (close_held o w).comms i (closed c) })
unfolding close_held close_fd closed
give_up none i w c v e f = record {
  owned = λ n. ground (arith, v.owned n, sum_by-set (holds n) i w.comms c (closed c) e, f);
  distinct = v.distinct;
  sound = v.sound;
}
give_up (some m) i w c v e f =
    let o = is_open m i w c v e f in
    let test : (count m w.descriptors == 0) ≡ false = ground arith in
    rw test record {
      owned = λ n. ground (
        arith,
        v.owned n,
        sum_by-set (holds n) i w.comms c (closed c) e,
        f,
        count-remove m n w.descriptors o,
      );
      distinct = λ n. ground (arith, v.distinct n, count-remove m n w.descriptors o);
      sound = v.sound;
    }

close-IsOwned : (i : ℕ) (w : World) → IsOwned w → IsOwned (close i w)
unfolding close
close-IsOwned i w v = elim (Option-cases (get_elem? w.comms i)) [
  | inl e ↦ rw (e, close) v
  | inr (c, e) ↦ rw (e, close) (give_up c.fd i w c v e refl)
]

pub close_held-comms : (o : Option ℕ) (w : World) → (close_held o w).comms ≡ w.comms
unfolding close_held close_fd
close_held-comms none w = refl
close_held-comms (some m) w = ground arith

pub close-get :
    (i : ℕ) (w : World) (c : Communicator)
    → get_elem? w.comms i ≡ some c
    → get_elem? (close i w).comms i ≡ some (closed c)
unfolding close
close-get i w c e =
    rw (e, close) rw (close_held-comms c.fd w) (set-get_self i w.comms c (closed c) e)

move-IsOwned : (j : ℕ) (w : World) → IsOwned w → IsOwned (move_construct j w)
unfolding move_construct moved_from invalid
move-IsOwned j w v = elim (Option-cases (get_elem? w.comms j)) [
  | inl e ↦ rw (e, move_construct) v
  | inr (c, e) ↦
      rw (e, move_construct)
        record {
          owned = λ n. omega (
            arith,
            v.owned n,
            sum_by-set (holds n) j w.comms c (moved_from c) e,
            sum_by-append (holds n) (set w.comms j (moved_from c)) (c ∷ []),
          );
          distinct = v.distinct;
          sound = v.sound;
        }
]

-- On a communicator that owns nothing.
take_over-IsOwned :
    (i j : ℕ) (w : World) (c : Communicator)
    → get_elem? w.comms i ≡ some c
    → c.fd ≡ none
    → (i == j) ≡ false
    → IsOwned w
    → IsOwned (take_over i j w)
unfolding take_over moved_from invalid
take_over-IsOwned i j w c e f differ v = elim (Option-cases (get_elem? w.comms j)) [
  | inl o ↦ rw (o, take_over) v
  | inr (d, o) ↦
      rw (o, take_over)
        record {
          owned = λ n. ground (
            arith,
            v.owned n,
            f,
            sum_by-set (holds n) i w.comms c d e,
            sum_by-set (holds n) j (set w.comms i d) d (moved_from d)
                (set-get_ne i j w.comms d differ ∙ o),
          );
          distinct = v.distinct;
          sound = v.sound;
        }
]

assign-IsOwned : (i j : ℕ) (w : World) → IsOwned w → IsOwned (move_assign i j w)
unfolding move_assign closed
assign-IsOwned i j w v = elim (Option-cases (get_elem? w.comms i)) [
  | inl e ↦ rw (e, move_assign) v
  | inr (c, e) ↦ elim (Bool-cases (i == j)) [
    | inl same ↦ rw (e, move_assign) rw same v
    | inr differ ↦
        rw (e, move_assign) rw differ
          (take_over-IsOwned i j (close i w) (closed c) (close-get i w c e) refl differ
            (close-IsOwned i w v))
  ]
]

module _ (unused : List ℕ → ℕ) (fresh : (xs : List ℕ) → count (unused xs) xs ≡ 0) where
  -- A new descriptor with its communicator.
  open-IsOwned :
      (c : Communicator) (w : World)
      → c.fd ≡ some (unused w.descriptors)
      → IsOwned w
      → IsOwned (append c (open_fd unused w))
  unfolding open_fd
  open-IsOwned c w e v = record {
    owned = λ n. ground (arith, v.owned n, sum_by-append (holds n) w.comms (c ∷ []), e);
    distinct = λ n. ground (arith, v.distinct n, fresh w.descriptors);
    sound = v.sound;
  }

  -- Opening and closing at once.
  refused-IsOwned :
      (w : World) → IsOwned w → IsOwned (close_fd (unused w.descriptors) (open_fd unused w))
  unfolding open_fd close_fd
  refused-IsOwned w v =
      let u = unused w.descriptors in
      let self : (u == u) ≡ true = ground arith in
      let test : (1 + count u w.descriptors == 0) ≡ false = ground arith in rw self rw test v

  assemble-IsOwned :
      (config : Config) (k : Kind) (w : World)
      → IsOwned w
      → IsOwned (assemble unused config k (unused w.descriptors) (open_fd unused w))
  unfolding assemble invalid
  assemble-IsOwned config stream w v = open-IsOwned _ w refl v
  assemble-IsOwned config dgram w v = open-IsOwned _ w refl v
  assemble-IsOwned config (other_kind _) w v = append-IsOwned invalid _ refl (refused-IsOwned w v)

  create-IsOwned :
      (config : Config) (ok : Bool) (w : World) → IsOwned w → IsOwned (create unused config ok w)
  unfolding create invalid
  create-IsOwned config true w v = assemble-IsOwned config config.type w v
  create-IsOwned config false w v = append-IsOwned invalid w refl v

  accept_on-IsOwned :
      (o : Option ℕ) (s : Option Strategy) (ok : Bool) (c : Communicator) (w : World)
      → IsOwned w
      → IsOwned (accept_on unused o s ok c w)
  unfolding accept_on accepted
  accept_on-IsOwned (some m) (some tcp) true c w v = open-IsOwned _ w refl v
  accept_on-IsOwned (some m) (some tcp) false c w v = v
  accept_on-IsOwned (some m) (some udp) ok c w v = v
  accept_on-IsOwned (some m) none ok c w v = v
  accept_on-IsOwned none s ok c w v = v

  accept-IsOwned : (i : ℕ) (ok : Bool) (w : World) → IsOwned w → IsOwned (accept unused i ok w)
  unfolding accept
  accept-IsOwned i ok w v = elim (Option-cases (get_elem? w.comms i)) [
    | inl e ↦ rw (e, accept) v
    | inr (c, e) ↦ rw (e, accept) (accept_on-IsOwned c.fd c.strategy ok c w v)
  ]

  -- Where the kernel gives out numbers that are not open, any program of creations, acceptances,
  -- closings, moves and assignments keeps this: each open descriptor is owned by exactly one
  -- communicator, and nothing is closed that is not open.
  pub run-IsOwned : (xs : List Action) (w : World) → IsOwned w → IsOwned (run unused xs w)
  unfolding run act
  run-IsOwned [] w v = v
  run-IsOwned (creates config ok ∷ xs) w v =
      run-IsOwned xs (create unused config ok w) (create-IsOwned config ok w v)
  run-IsOwned (accepts i ok ∷ xs) w v =
      run-IsOwned xs (accept unused i ok w) (accept-IsOwned i ok w v)
  run-IsOwned (closes i ∷ xs) w v = run-IsOwned xs (close i w) (close-IsOwned i w v)
  run-IsOwned (moves j ∷ xs) w v = run-IsOwned xs (move_construct j w) (move-IsOwned j w v)
  run-IsOwned (assigns i j ∷ xs) w v = run-IsOwned xs (move_assign i j w) (assign-IsOwned i j w v)
