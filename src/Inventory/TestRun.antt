-- ===== src/Inventory/TestRun.antt =====
-- The concurrent test while both servers answer.
use backend_common_component.Prelude.{
  ℕ, zero, suc, ◌+◌, ◌*◌, ◌<◌, ◌≤◌, ◌≡◌, refl, ap, true, false, Option, none, some, List, [], ◌∷◌,
  arith, ℤ, ltb_ℤ, ◌-ℤ◌, ◌*ℤ◌, pos, leb_ℤ, rounds, get_elem?, sum_by, length, Option-cases, inl,
  inr, ◌∙◌, length-set,
}
use backend_common_component.Inventory.Store.{Reply, ok, answers, get_stock}
use backend_common_component.Inventory.Service.{Item, DeductRequest, get_answers, get_redis_stock}
use backend_common_component.Inventory.Calls.{Stage, step}
use backend_common_component.Inventory.Concurrent.{
  Test, Move, works, rebuilds, act, run, threads, succeeded, failed, initial_stock, response,
  unless_threw, test_run, ConcurrentTestRequest, ConcurrentTestResponse,
}
use backend_common_component.Inventory.Steps.{sale}
use backend_common_component.Inventory.Balance.{AllUp, IsBalanced, held, stray, run-IsBalanced}
use backend_common_component.Inventory.Finishing.{turns, left_at, run_left}

threads_counts :
    (q n : ℕ)
    → (length (threads n) ≡ n)
      × (sum_by (held q) (threads n) ≡ 0)
      × (sum_by (sale (pos q)) (threads n) ≡ 0)
      × (sum_by stray (threads n) ≡ 0)
      × (sum_by failed (threads n) ≡ 0)
unfolding threads
threads_counts q zero = ground arith
threads_counts q (suc n) = ground (arith, threads_counts q n)

threads_left :
    (retry_times : ℤ) (n j : ℕ)
    → (left_at retry_times (get_elem? (threads n) j) ≤ rounds retry_times + 4)
      × (n ≤ j → left_at retry_times (get_elem? (threads n) j) ≡ 0)
unfolding threads
threads_left retry_times zero j = ground arith
threads_left retry_times (suc n) zero = ground arith
threads_left retry_times (suc n) (suc j) = ground (arith, threads_left retry_times n j)

answered :
    (row : Option ℤ) (r : ConcurrentTestResponse) → unless_threw (get_stock answers row) r ≡ ok r
unfolding get_stock
answered none r = refl
answered (some _) r = refl

-- When every call has replied, nothing is under way, and each call has succeeded or failed.
all_replied :
    (retry_times : ℤ) (q : ℕ) (calls : List Stage)
    → ((j : ℕ) → left_at retry_times (get_elem? calls j) ≡ 0)
    → sum_by stray calls ≡ 0
    → (sum_by (held q) calls ≡ 0)
      × (sum_by (sale (pos q)) calls ≡ sum_by succeeded calls * q)
      × (sum_by succeeded calls + sum_by failed calls ≡ length calls)
all_replied retry_times q [] h s = ground arith
all_replied retry_times q (stage ∷ calls) h s =
    ground (arith, h 0, all_replied retry_times q calls (λ j. h (suc j)) (omega (arith, s)))

length-act :
    (retry_times : ℤ) (req : DeductRequest) (x : Move) (t : Test)
    → length (act retry_times req x t).calls ≡ length t.calls
unfolding act
length-act retry_times req (rebuilds k reached) t = refl
length-act retry_times req (works i o) t = elim (Option-cases (get_elem? t.calls i)) [
  | inl out ↦ ground (arith, out)
  | inr (stage, e) ↦ ground (arith, e, length-set t.calls i (step retry_times o req stage t.item).0)
]

length-run :
    (retry_times : ℤ) (req : DeductRequest) (xs : List Move) (t : Test)
    → length (run retry_times req xs t).calls ≡ length t.calls
unfolding run
length-run retry_times req [] t = refl
length-run retry_times req (x ∷ xs) t =
    length-run retry_times req xs (act retry_times req x t) ∙ length-act retry_times req x t

-- The response of a test that passes.
abbrev pub passed : ConcurrentTestRequest → ℕ → ℕ → ℕ → ConcurrentTestResponse
passed req sold refused remain = record {
  total_requests = req.concurrency;
  success_count = pos sold;
  fail_count = pos refused;
  theoretical_remain = pos remain;
  actual_redis_stock = pos remain;
  actual_mysql_stock = pos remain;
  data_consistent = true;
}

-- What a test of n calls for q units each, from a given stock, has to respond.
pub record Passes (n q stock : ℕ) (req : ConcurrentTestRequest)
    (outcome : Reply ConcurrentTestResponse) : Type 0 where
  pub sold : ℕ
  pub refused : ℕ
  pub remain : ℕ
  pub responds : outcome ≡ ok (passed req sold refused remain)
  pub all_calls : sold + refused ≡ n
  pub all_units : remain + sold * q ≡ stock
  pub sold_out : 0 < refused → remain < q

mul_pos : (a b : ℕ) → pos a *ℤ pos b ≡ pos (a * b)
mul_pos a b = ground arith

abbrev pub test_request : ℤ → ℕ → ℕ → ConcurrentTestRequest
test_request item_id n q = record { item_id = item_id; quantity = pos q; concurrency = pos n }

-- Two stores that agree, and no rebuild under way.
abbrev pub agreed : ℕ → Item
agreed stock = record { redis = some (pos stock); mysql = some (pos stock); rebuilds = [] }

module _ (retry_times item_id : ℤ) (n q stock : ℕ) (positive : 0 < q)
    (named : leb_ℤ item_id (pos 0) ≡ false) where
  abbrev pub joined : List Move → Test
  joined xs =
      run retry_times (record { item_id = item_id; quantity = pos q }) xs
        (record { item = agreed stock; calls = threads n })

  finished :
      (xs : List Move)
      → ((i : ℕ) → i < n → rounds retry_times + 4 ≤ turns i xs)
      → (j : ℕ) → left_at retry_times (get_elem? (joined xs).calls j) ≡ 0
  finished xs fair j = ground (
    arith,
    threads_left retry_times n j,
    fair j,
    run_left retry_times (record { item_id = item_id; quantity = pos q }) j xs
        (record { item = agreed stock; calls = threads n }),
  )

  remaining : (sold key : ℕ) → key + sold * q ≡ stock → pos stock -ℤ (pos sold *ℤ pos q) ≡ pos key
  remaining sold key e = rw (mul_pos sold q) (ground (arith, e))

  response-passed :
      (t : Test) (key : ℕ)
      → t.item.redis ≡ some (pos key)
      → t.item.mysql ≡ some (pos key)
      → key + sum_by succeeded t.calls * q ≡ stock
      → response (test_request item_id n q) (pos stock) get_answers answers t
        ≡ passed (test_request item_id n q) (sum_by succeeded t.calls) (sum_by failed t.calls) key
  unfolding response get_redis_stock get_stock
  response-passed t key r m e =
      let theory : pos stock -ℤ (pos (sum_by succeeded t.calls) *ℤ pos q) ≡ pos key =
        remaining (sum_by succeeded t.calls) key e in
      ground (arith, r, m, theory)

  started-IsBalanced :
      IsBalanced retry_times item_id q positive named stock
        (record { item = agreed stock; calls = threads n })
  started-IsBalanced =
      let (_, none_held, none_sold, none_stray, none_failed) = threads_counts q n in
      record {
        key = stock;
        row = stock;
        key_is = refl;
        row_is = refl;
        no_rebuilds = refl;
        under_way = omega (arith, none_held);
        accounted = omega (arith, none_sold);
        straight = none_stray;
        refused = λ f. absurd (omega (arith, f, none_failed));
      }

  test_run_responds :
      (xs : List Move)
      → (test_run retry_times
          (get_answers, answers)
          (get_answers, answers)
          xs
          (test_request item_id n q)
          (agreed stock)).0
        ≡ ok (response (test_request item_id n q) (pos stock) get_answers answers (joined xs))
  unfolding test_run initial_stock get_redis_stock
  test_run_responds xs =
      let enough : ltb_ℤ (pos n) (pos 0) ≡ false = ground arith in
      rw (enough, test_run) (answered (joined xs).item.mysql _)

  -- The concurrent test of n calls, each for q > 0 units of a valid item, on stores that agree and with
  -- no rebuild under way, while both servers answer: in every interleaving in which each thread has
  -- as many turns as a call can need, all threads end and the test passes; each call has succeeded or
  -- was refused, the units that were sold and those that both stores still have are the stock there
  -- was, and calls were refused only when there was less than a call asks for.
  pub test_run-Passes :
      (xs : List Move)
      → AllUp xs
      → ((i : ℕ) → i < n → rounds retry_times + 4 ≤ turns i xs)
      → Passes n q stock
          (test_request item_id n q)
          (test_run retry_times
            (get_answers, answers)
            (get_answers, answers)
            xs
            (test_request item_id n q)
            (agreed stock)).0
  test_run-Passes xs up fair =
      let t = joined xs in
      let v =
        run-IsBalanced retry_times item_id q positive named stock xs _ up started-IsBalanced in
      let (none_held, sales, all) =
        all_replied retry_times q t.calls (finished xs fair) v.straight in
      let left : v.key + sum_by succeeded t.calls * q ≡ stock =
        omega (arith, v.under_way, v.accounted, none_held, sales) in
      let agree : t.item.mysql ≡ some (pos v.key) =
        ground (arith, v.row_is, v.under_way, none_held) in
      record {
        sold = sum_by succeeded t.calls;
        refused = sum_by failed t.calls;
        remain = v.key;
        responds = test_run_responds xs ∙ ap ok (response-passed t v.key v.key_is agree left);
        all_calls = omega (
          arith,
          all,
          length-run retry_times (record { item_id = item_id; quantity = pos q }) xs
              (record { item = agreed stock; calls = threads n }),
          threads_counts q n,
        );
        all_units = left;
        sold_out = v.refused;
      }
