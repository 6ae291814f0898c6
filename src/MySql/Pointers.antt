-- ===== src/MySql/Pointers.antt =====
-- Which of the driver's objects the connections of MySQLConnection.cpp point to.
use backend_common_component.Prelude.{
  ℕ, ◌+◌, ◌≤◌, ◌≡◌, Bool, true, false, Option, none, some, List, [], ◌∷◌, ◌==◌, arith, count,
  count-remove, get_elem?, set, sum_by, sum_by-append, sum_by-set, set-get_self, set-get_ne,
  if◌then◌else◌, ◌&&◌, false≢true, Bool-cases, Option-cases, inl, inr, ◌∙◌, refl, ap, and_left,
  and_right,
}
use backend_common_component.Objects.{Heap, delete}
use backend_common_component.MySql.Connection.{
  Connection, World, allocate, Opening, no_connect, no_statement, no_schema, opened, opened_on,
  construct, drop, closed, close, move_construct, take_over, move_assign, prepared, prepare_on,
  when_set, prepare_statement, Call, constructs, closes, moves, assigns, prepares, call, calls,
}

abbrev at_pointer : ℕ → Option ℕ → ℕ
at_pointer a none = 0
at_pointer a (some n) = if n == a then 1 else 0

-- How many pointers of a connection hold an object.
abbrev pub points : ℕ → Connection → ℕ
points a c = at_pointer a c.conn + at_pointer a c.stmt + at_pointer a c.pstmt

-- As many pointers as `f` tells, each to an object of its own that exists; nothing was deleted twice.
pub record Covers (f : ℕ → ℕ) (h : Heap) : Type 0 where
  pub exist : (a : ℕ) → f a ≤ count a h.live
  pub distinct : (a : ℕ) → count a h.live ≤ 1
  pub fresh : (a : ℕ) → h.tries ≤ a → count a h.live ≡ 0
  pub sound : h.bad_free ≡ 0

less-Covers : (f g : ℕ → ℕ) (h : Heap) → ((a : ℕ) → g a ≤ f a) → Covers f h → Covers g h
less-Covers f g h l v = record {
  exist = λ a. omega (arith, l a, v.exist a);
  distinct = v.distinct;
  fresh = v.fresh;
  sound = v.sound;
}

drop-Covers :
    (o : Option ℕ) (g : ℕ → ℕ) (h : Heap)
    → Covers (λ a. g a + at_pointer a o) h
    → Covers g (drop o h)
unfolding drop delete
drop-Covers none g h v = less-Covers (λ a. g a + 0) g h (λ a. omega arith) v
drop-Covers (some n) g h v = record {
  exist = λ a. ground (arith, v.exist a, v.exist n, v.distinct n, count-remove n a h.live);
  distinct = λ a. ground (arith, v.distinct a, v.exist n, count-remove n a h.live);
  fresh = λ a l. ground (arith, v.fresh a, v.exist n, count-remove n a h.live);
  sound = ground (arith, v.sound, v.exist n);
}

allocate-Covers :
    (f : ℕ → ℕ) (h : Heap)
    → Covers f h
    → Covers (λ a. f a + at_pointer a (some h.tries)) (allocate h)
unfolding allocate
allocate-Covers f h v = record {
  exist = λ a. ground (arith, v.exist a);
  distinct = λ a. ground (arith, v.distinct a, v.fresh h.tries (omega arith));
  fresh = λ a l. ground (arith, v.fresh a, v.fresh h.tries (omega arith));
  sound = v.sound;
}

-- Every pointer of every connection is to an object of its own that exists.
abbrev pub IsPointing : World → Type 0
IsPointing w = Covers (λ a. sum_by (points a) w.connections) w.heap

construct-IsPointing : (o : Opening) (w : World) → IsPointing w → IsPointing (construct o w)
unfolding construct allocate opened_on
construct-IsPointing no_connect w v = v
construct-IsPointing no_statement w v =
    less-Covers _ _ (allocate w.heap) (λ a. omega arith) (allocate-Covers _ w.heap v)
construct-IsPointing no_schema w v =
    less-Covers _ _ (allocate (allocate w.heap)) (λ a. omega arith)
      (allocate-Covers _ (allocate w.heap) (allocate-Covers _ w.heap v))
construct-IsPointing opened w v =
    less-Covers _ _ (allocate (allocate w.heap))
      (λ a. omega (arith, sum_by-append (points a) w.connections (opened_on w.heap.tries ∷ [])))
      (allocate-Covers _ (allocate w.heap) (allocate-Covers _ w.heap v))

close-IsPointing : (i : ℕ) (w : World) → IsPointing w → IsPointing (close i w)
unfolding close closed
close-IsPointing i w v = elim (Option-cases (get_elem? w.connections i)) [
  | inl e ↦ rw (e, close) v
  | inr (c, e) ↦
      let rest : ℕ → ℕ = λ a. sum_by (points a) (set w.connections i closed) in
      rw (e, close)
        (drop-Covers c.conn rest (drop c.stmt (drop c.pstmt w.heap)) (
          drop-Covers c.stmt (λ a. rest a + at_pointer a c.conn) (drop c.pstmt w.heap)
            (drop-Covers c.pstmt (λ a. rest a + at_pointer a c.conn + at_pointer a c.stmt) w.heap
              (less-Covers _ _ w.heap
                (λ a. omega (arith, sum_by-set (points a) i w.connections c closed e)) v))))
]

close-get :
    (i : ℕ) (w : World) (c : Connection)
    → get_elem? w.connections i ≡ some c
    → get_elem? (close i w).connections i ≡ some closed
unfolding close
close-get i w c e = rw (e, close) (set-get_self i w.connections c closed e)

move-IsPointing : (j : ℕ) (w : World) → IsPointing w → IsPointing (move_construct j w)
unfolding move_construct closed
move-IsPointing j w v = elim (Option-cases (get_elem? w.connections j)) [
  | inl e ↦ rw (e, move_construct) v
  | inr (c, e) ↦
      rw (e, move_construct)
        (less-Covers _ _ w.heap
          (λ a. omega (
            arith,
            sum_by-set (points a) j w.connections c closed e,
            sum_by-append (points a) (set w.connections j closed) (c ∷ []),
          ))
          v)
]

-- On a closed connection.
take_over-IsPointing :
    (i j : ℕ) (w : World)
    → get_elem? w.connections i ≡ some closed
    → (i == j) ≡ false
    → IsPointing w
    → IsPointing (take_over i j w)
unfolding take_over closed
take_over-IsPointing i j w e differ v = elim (Option-cases (get_elem? w.connections j)) [
  | inl o ↦ rw (o, take_over) v
  | inr (d, o) ↦
      rw (o, take_over)
        (less-Covers _ _ w.heap
          (λ a. omega (
            arith,
            sum_by-set (points a) i w.connections closed d e,
            sum_by-set (points a) j (set w.connections i d) d closed
                (set-get_ne i j w.connections d differ ∙ o),
          ))
          v)
]

assign-IsPointing : (i j : ℕ) (w : World) → IsPointing w → IsPointing (move_assign i j w)
unfolding move_assign
assign-IsPointing i j w v = elim (Option-cases (get_elem? w.connections i)) [
  | inl e ↦ rw (e, move_assign) v
  | inr (c, e) ↦ elim (Bool-cases (i == j)) [
    | inl same ↦ rw (e, move_assign) rw same v
    | inr differ ↦
        rw (e, move_assign) rw differ
          (take_over-IsPointing i j (close i w) (close-get i w c e) differ (close-IsPointing i w v))
  ]
]

prepare_on-IsPointing :
    (i : ℕ) (c : Connection) (w : World)
    → get_elem? w.connections i ≡ some c
    → IsPointing w
    → IsPointing (prepare_on i true c w)
unfolding prepare_on prepared
prepare_on-IsPointing i c w e v =
    let bare : Connection = record c { pstmt = none } in
    let d : Connection = record c { pstmt = some (drop c.pstmt w.heap).tries; pre = true } in
    let rest : ℕ → ℕ = λ a. sum_by (points a) (set w.connections i bare) in
    less-Covers _ _ (allocate (drop c.pstmt w.heap))
      (λ a. omega (
        arith,
        sum_by-set (points a) i w.connections c bare e,
        sum_by-set (points a) i w.connections c d e,
      ))
      (allocate-Covers rest (drop c.pstmt w.heap) (
        drop-Covers c.pstmt rest w.heap (
          less-Covers _ _ w.heap
            (λ a. omega (arith, sum_by-set (points a) i w.connections c bare e)) v)))

abbrev is_some {ℓ} : {A : Type ℓ} → Option A → Bool
is_some none = false
is_some (some _) = true

-- The connection at an address, if there is one, is open.
abbrev pub is_open : ℕ → World → Bool
is_open i w = elim (get_elem? w.connections i) [ none ↦ true | some c ↦ is_some c.conn ]

-- A preparation is of an open connection, and `prepareStatement` does not throw.
abbrev pub allowed : Call → World → Bool
allowed (prepares i ok) w = ok && is_open i w
allowed (constructs _) w = true
allowed (closes _) w = true
allowed (moves _) w = true
allowed (assigns _ _) w = true

-- Every call of a program is allowed when it is made.
abbrev pub calm : List Call → World → Bool
calm [] w = true
calm (x ∷ xs) w = allowed x w && elim (call x w) [ none ↦ true | some v ↦ calm xs v ]

-- A call returns, and leaves every pointer on an object of its own.
abbrev Returns : Option World → Type 0
Returns o = (v : World) × (o ≡ some v) × IsPointing v

prepare-Returns :
    (i : ℕ) (w : World) → is_open i w ≡ true → IsPointing w → Returns (prepare_statement i true w)
unfolding prepare_statement when_set
prepare-Returns i w h v = elim (Option-cases (get_elem? w.connections i)) [
  | inl e ↦ (w, rw (e, prepare_statement) refl, v)
  | inr (c, e) ↦ elim (Option-cases c.conn) [
    | inl f ↦ absurd (ground (arith, e, f, h))
    | inr (n, f) ↦ (
      prepare_on i true c w,
      rw (e, prepare_statement) (ap (λ (o : Option ℕ). when_set o (prepare_on i true c w)) f),
      prepare_on-IsPointing i c w e v,
    )
  ]
]

call-Returns : (x : Call) (w : World) → allowed x w ≡ true → IsPointing w → Returns (call x w)
unfolding call
call-Returns (constructs o) w h v = (construct o w, refl, construct-IsPointing o w v)
call-Returns (closes i) w h v = (close i w, refl, close-IsPointing i w v)
call-Returns (moves j) w h v = (move_construct j w, refl, move-IsPointing j w v)
call-Returns (assigns i j) w h v = (move_assign i j w, refl, assign-IsPointing i j w v)
call-Returns (prepares i true) w h v = prepare-Returns i w h v
call-Returns (prepares i false) w h v = absurd (false≢true h)

-- Any program of constructions (which may throw), closings, moves, assignments and preparations, each
-- preparation of a connection that is open then and without an exception of `prepareStatement`, has a
-- defined end, where every pointer is on an object of its own that exists, and nothing was deleted
-- twice.
pub calls-IsPointing :
    (xs : List Call) (w : World)
    → calm xs w ≡ true
    → IsPointing w
    → (v : World) × (calls xs w ≡ some v) × IsPointing v
unfolding calls
calls-IsPointing [] w h v = (w, refl, v)
calls-IsPointing (x ∷ xs) w h v =
    let (w', e, v') = call-Returns x w (and_left (allowed x w) _ h) v in
    let later : calm xs w' ≡ true = rw e at (and_right (allowed x w) _ h) in
    rw (e, calls) (calls-IsPointing xs w' later v')
