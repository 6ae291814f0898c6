-- ===== src/Rabbit/Custody.antt =====
-- Where the channels of a pool are.
use backend_common_component.Prelude.{
  ℕ, zero, suc, ◌+◌, ◌≤◌, ◌≡◌, refl, Bool, true, false, not, ◌&&◌, Option, none, some, List, [],
  ◌∷◌, ◌==◌, arith, get_elem?, set, sum_by, sum_by-append, sum_by-set, set-get_self, set-get_ne,
  if◌then◌else◌, Bool-cases, Option-cases, inl, inr, ◌∙◌, ap, leb, ltb,
}
use backend_common_component.Rabbit.Connection.{Connection, connection}
use backend_common_component.Rabbit.Channel.{Channel, Command, opened_by, construct, open_channel}
use backend_common_component.Rabbit.ChannelPool.{
  Guard, Pool, open_all, make_pool, null_guard, guard_on, take_channel, acquire, or_null,
  try_acquire, give, emptied, release, moved_from, move_guard, take_over, assign_guard, Action,
  acquires, tries, releases, moves, assigns, act, run,
}

-- Channels are weighed by a function, such as the test for one number or the constant 1: the sum
-- over the queue and over what the guards hold does not change.
module _ (w : Channel → ℕ) where
  abbrev pub held : Option Channel → ℕ
  held none = 0
  held (some ch) = w ch

  abbrev pub load : Guard → ℕ
  load g = if not g.released && g.pool then held g.channel else 0

  abbrev pub weight : Pool → ℕ
  weight p = sum_by w p.channels + sum_by load p.guards

  take-weight :
      (q : List Channel) (p : Pool) → p.channels ≡ q → weight (take_channel q p) ≡ weight p
  unfolding take_channel guard_on
  take-weight [] p e = refl
  take-weight (ch ∷ rest) p e =
      ground (arith, sum_by-append load p.guards (guard_on ch ∷ []), ap (sum_by w) e)

  or_null-weight : (q : List Channel) (p : Pool) → p.channels ≡ q → weight (or_null q p) ≡ weight p
  or_null-weight [] p e = ground (arith, sum_by-append load p.guards (null_guard ∷ []))
  or_null-weight (ch ∷ rest) p e = take-weight (ch ∷ rest) p e

  give-weight :
      (b : Bool) (o : Option Channel) (q : List Channel)
      → sum_by w (give b o q) ≡ sum_by w q + (if b then held o else 0)
  unfolding give
  give-weight true (some ch) q = omega (arith, sum_by-append w q (ch ∷ []))
  give-weight true none q = omega arith
  give-weight false o q = omega arith

  emptied-load : (g : Guard) → load (emptied (not g.released && g.pool) g.channel g) ≡ 0
  unfolding emptied
  emptied-load g = ground arith

  release-weight : (i : ℕ) (p : Pool) → weight (release i p) ≡ weight p
  unfolding release
  release-weight i p = elim (Option-cases (get_elem? p.guards i)) [
    | inl e ↦ ground arith
    | inr (g, e) ↦ ground (
      arith,
      give-weight (not g.released && g.pool) g.channel p.channels,
      emptied-load g,
      sum_by-set load i p.guards g (emptied (not g.released && g.pool) g.channel g) e,
    )
  ]

  move-weight : (j : ℕ) (p : Pool) → weight (move_guard j p) ≡ weight p
  unfolding move_guard moved_from
  move-weight j p = elim (Option-cases (get_elem? p.guards j)) [
    | inl e ↦ ground arith
    | inr (g, e) ↦ ground (
      arith,
      sum_by-set load j p.guards g (moved_from g) e,
      sum_by-append load (set p.guards j (moved_from g)) (g ∷ []),
    )
  ]

  -- After `release` a guard holds nothing.
  release-load :
      (i : ℕ) (p : Pool) (g : Guard)
      → get_elem? p.guards i ≡ some g
      → (h : Guard) × (get_elem? (release i p).guards i ≡ some h) × (load h ≡ 0)
  unfolding release
  release-load i p g e = (
    emptied (not g.released && g.pool) g.channel g,
    ground (arith, set-get_self i p.guards g (emptied (not g.released && g.pool) g.channel g) e),
    emptied-load g,
  )

  take_over-weight :
      (i j : ℕ) (p : Pool) (g : Guard)
      → get_elem? p.guards i ≡ some g
      → load g ≡ 0
      → (i == j) ≡ false
      → weight (take_over i j p) ≡ weight p
  unfolding take_over moved_from
  take_over-weight i j p g e o n = elim (Option-cases (get_elem? p.guards j)) [
    | inl f ↦ ground arith
    | inr (h, f) ↦ ground (
      arith,
      sum_by-set load i p.guards g h e,
      sum_by-set load j (set p.guards i h) h (moved_from h) (set-get_ne i j p.guards h n ∙ f),
    )
  ]

  assign-weight : (i j : ℕ) (p : Pool) → weight (assign_guard i j p) ≡ weight p
  unfolding assign_guard
  assign-weight i j p = elim (Option-cases (get_elem? p.guards i)) [
    | inl e ↦ ground arith
    | inr (g, e) ↦ elim (Bool-cases (i == j)) [
      | inl same ↦ ground arith
      | inr differ ↦
          let (h, f, o) = release-load i p g e in
          ground (arith, take_over-weight i j (release i p) h f o differ, release-weight i p)
    ]
  ]

  pub run-weight : (xs : List Action) (p : Pool) → weight (run xs p) ≡ weight p
  unfolding run act acquire try_acquire
  run-weight [] p = refl
  run-weight (acquires ∷ xs) p = run-weight xs (acquire p) ∙ take-weight p.channels p refl
  run-weight (tries ∷ xs) p = run-weight xs (try_acquire p) ∙ or_null-weight p.channels p refl
  run-weight (releases i ∷ xs) p = run-weight xs (release i p) ∙ release-weight i p
  run-weight (moves j ∷ xs) p = run-weight xs (move_guard j p) ∙ move-weight j p
  run-weight (assigns i j ∷ xs) p = run-weight xs (assign_guard i j p) ∙ assign-weight i j p

-- The two weights of interest: the number of a channel, and how many there are.
abbrev pub is_channel : ℕ → Channel → ℕ
is_channel a ch = if ch.id == a then 1 else 0

abbrev pub one : Channel → ℕ
one ch = 1

-- Whether the constructor opens channel a.
abbrev pub answered : ℕ → (ℕ → Bool) → ℕ → ℕ
answered channel_max reply a = if leb 1 a && leb a channel_max && reply a then 1 else 0

open-answer :
    (s : ℕ) (c : Connection) (r : Bool) (ch : Channel)
    → connection c ≡ some s
    → (open_channel c r ch []).0 ≡ r
unfolding open_channel
open-answer s c r ch e = ground (arith, e)

by_answer :
    (o : Option ℕ) (r : Bool) (ch : Channel) (log : List Command)
    → (opened_by o r ch log).1.id ≡ ch.id
by_answer none r ch log = refl
by_answer (some _) true ch log = refl
by_answer (some _) false ch log = refl

open-id : (c : Connection) (r : Bool) (ch : Channel) → (open_channel c r ch []).1.id ≡ ch.id
unfolding open_channel
open-id c r ch = by_answer (connection c) r ch []

opened :
    (k i a s : ℕ) (reply : ℕ → Bool) (c : Connection)
    → connection c ≡ some s
    → sum_by (is_channel a) (open_all k i reply c)
      ≡ (if leb i a && ltb a (i + k) && reply a then 1 else 0)
unfolding open_all construct
opened zero i a s reply c e = ground arith
opened (suc k) i a s reply c e = ground (
  arith,
  opened k (i + 1) a s reply c e,
  open-answer s c (reply i) (construct i) e,
  open-id c (reply i) (construct i),
)

opened_size : (k i : ℕ) (reply : ℕ → Bool) (c : Connection) → sum_by one (open_all k i reply c) ≤ k
unfolding open_all
opened_size zero i reply c = omega arith
opened_size (suc k) i reply c = ground (arith, opened_size k (i + 1) reply c)

-- From a constructor over an initialised connection on, in any schedule of acquisitions, expired
-- waits, releases, moves and assignments of guards: a channel that the server opened stands exactly
-- once, in the queue or with a guard that will give it back, and any other number nowhere; all these
-- channels are at most `channel_max`.
pub run-custody :
    (channel_max a s : ℕ) (reply : ℕ → Bool) (c : Connection) (xs : List Action)
    → connection c ≡ some s
    → let p = run xs (make_pool channel_max reply c) in
      (weight (is_channel a) p ≡ answered channel_max reply a) × (weight one p ≤ channel_max)
unfolding make_pool
run-custody channel_max a s reply c xs e = (
  run-weight (is_channel a) xs (make_pool channel_max reply c)
      ∙ ground (arith, opened channel_max 1 a s reply c e),
  omega
      (arith, run-weight one xs (make_pool channel_max reply c), opened_size channel_max 1 reply c),
)
