-- ===== src/Inventory/Answers.antt =====
-- What the handler of deductions answers, and what the row has lost.
use backend_common_component.Prelude.{
  ℕ, ◌+◌, ◌≤◌, ◌≡◌, refl, true, ◌||◌, Option, none, some, ◌⊎◌, inl, inr, arith, ℤ, pos, negsuc,
  leb_ℤ, pos_part, if_rule,
}
use backend_common_component.Inventory.Store.{Reply, ok, err, threw, Db}
use backend_common_component.Inventory.Service.{Item, DeductRequest, Outside, deduct}
use backend_common_component.Inventory.Ledger.{units, IsStocked, reported, Booked, deduct-Booked}
use backend_common_component.Inventory.Controller.{
  Answer, make_error, answer_deduct, deduct_valid, deduct_handler, DeductBody, Message,
  invalid_parameters, invalid_json, is_insufficient, insufficient_stock, error_text,
}

-- The units that an answer to a request for a quantity confirms; none is an exception.
abbrev pub confirmed : Option ℤ → Option (Answer ℤ) → ℕ
confirmed qty none = 0
confirmed qty (some a) = elim a.payload [
  | none ↦ 0
  | some _ ↦ elim qty [ none ↦ 0 | some q ↦ pos_part q ]
]

-- An answer is a success with data, or a failure without.
abbrev pub Fits : Option (Answer ℤ) → Type 0
Fits none = Unit {0}
Fits (some a) =
    (a.status ≡ 200) × (a.code ≡ pos 0) × ((n : ℤ) × (a.payload ≡ some n))
    ⊎ (a.status ≡ 400) × (a.payload ≡ none)

-- The answer and the row behind a request.
pub record Honest (db : Db) (qty : Option ℤ) (a : Option (Answer ℤ)) (row row' : Option ℤ)
    : Type 0 where
  pub fits : Fits a
  pub stocked : IsStocked row'
  pub covered : confirmed qty a + units row' ≤ units row
  pub exact : reported db ≡ true → confirmed qty a + units row' ≡ units row

make_error-Honest :
    (db : Db) (qty : Option ℤ) (code : ℕ) (msg : Message) (row row' : Option ℤ)
    → IsStocked row'
    → units row' ≤ units row
    → (reported db ≡ true → units row' ≡ units row)
    → Honest db qty (some (make_error (negsuc code) msg)) row row'
unfolding make_error
make_error-Honest db qty code msg row row' v c f = record {
  fits = inr (ground arith);
  stocked = v;
  covered = omega (arith, c);
  exact = λ h. omega (arith, f h);
}

reply-Honest :
    (db : Db) (q : ℤ) (reply : Reply ℤ) (row row' : Option ℤ)
    → Booked db q row row' reply
    → Honest db (some q) (answer_deduct reply) row row'
unfolding answer_deduct make_error
reply-Honest db q (ok n) row row' b = record {
  fits = inl (refl, refl, (n, refl));
  stocked = b.stocked;
  covered = b.covered;
  exact = b.exact;
}
reply-Honest db q (err e) row row' b =
    let failed : (code : ℕ) (msg : Message)
        → Honest db (some q) (some (make_error (negsuc code) msg)) row row' =
      λ code msg.
        make_error-Honest db (some q) code msg row row' b.stocked (omega (arith, b.covered))
          (λ h. omega (arith, b.exact h)) in
    if_rule (λ (a : Answer ℤ). Honest db (some q) (some a) row row') (is_insufficient e) _ _
      (λ _. failed 0 insufficient_stock) (λ _. failed 499 (error_text e))
reply-Honest db q threw row row' b = record {
  fits = tt;
  stocked = b.stocked;
  covered = b.covered;
  exact = b.exact;
}

throw-Honest :
    (db : Db) (qty : Option ℤ) (row : Option ℤ) → IsStocked row → Honest db qty none row row
throw-Honest db qty row v = record {
  fits = tt;
  stocked = v;
  covered = omega arith;
  exact = λ h. omega arith;
}

refuse-Honest :
    (db : Db) (qty : Option ℤ) (msg : Message) (row : Option ℤ)
    → IsStocked row
    → Honest db qty (some (make_error (negsuc 0) msg)) row row
refuse-Honest db qty msg row v = make_error-Honest db qty 0 msg row row v (omega arith) (λ h. refl)

abbrev pub asked : Option DeductBody → Option ℤ
asked none = none
asked (some body) = body.quantity

module _ (retry_times : ℤ) (o : Outside) where
  valid-Honest :
      (req : DeductRequest) (s : Item)
      → IsStocked s.mysql
      → let (a, s') = deduct_valid retry_times o req s in
        Honest o.db (some req.quantity) a s.mysql s'.mysql
  unfolding deduct_valid
  valid-Honest req s v =
      if_rule
        (λ (x : Option (Answer ℤ) × Item). Honest o.db (some req.quantity) x.0 s.mysql x.1.mysql)
        (leb_ℤ req.item_id (pos 0) || leb_ℤ req.quantity (pos 0)) _ _
        (λ _. refuse-Honest o.db (some req.quantity) invalid_parameters s.mysql v)
        (λ _.
          reply-Honest o.db req.quantity (deduct retry_times o req s).0 s.mysql _
            (deduct-Booked retry_times o req s v))

  entries-Honest :
      (i q : Option ℤ) (s : Item)
      → IsStocked s.mysql
      → let (a, s') =
          deduct_handler retry_times o (some (record { item_id = i; quantity = q })) s in
        Honest o.db q a s.mysql s'.mysql
  unfolding deduct_handler
  entries-Honest none q s v = throw-Honest o.db q s.mysql v
  entries-Honest (some i) none s v = throw-Honest o.db none s.mysql v
  entries-Honest (some i) (some q) s v = valid-Honest (record { item_id = i; quantity = q }) s v

  -- On a row that is not negative, on a connection without an open transaction, whatever the body and
  -- the servers: the handler of deductions answers a success with data or a failure without, or an
  -- exception leaves it; the row stays not negative, the units that an answer confirms are covered by
  -- what the row has lost, and are exactly that unless a commit throws after it took effect.
  pub deduct_handler-Honest :
      (body : Option DeductBody) (s : Item)
      → IsStocked s.mysql
      → let (a, s') = deduct_handler retry_times o body s in
        Honest o.db (asked body) a s.mysql s'.mysql
  unfolding deduct_handler
  deduct_handler-Honest none s v = refuse-Honest o.db none invalid_json s.mysql v
  deduct_handler-Honest (some body) s v = entries-Honest body.item_id body.quantity s v
