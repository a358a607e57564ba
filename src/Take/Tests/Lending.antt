-- ===== src/Take/Tests/Lending.antt =====
-- Loans at concrete inputs: a reader that lends at most two samples, under the lowest address above
-- all that are lent (rmw_fastrtps_shared_cpp/src/rmw_take.cpp).
use rmw_fastrtps.Prelude.{
  ℕ, ◌+◌, ◌<◌, ◌≤◌, ◌≡◌, refl, sym, ap, subst, true, false, Option, none, some, List, [], ◌∷◌, ◌++◌,
  length, arith, ltb, leb, nat_eq, if◌then◌else◌,
}
use rmw_fastrtps.Prelude.Assoc.{contains, remove}
use rmw_fastrtps.Rmw.{ret_ok}
use rmw_fastrtps.Take.{SampleInfo}
use rmw_fastrtps.Take.Loan.{
  LoanReader, Loans, LoanArguments, loan_loop, take_loaned_message, return_loaned_message,
}
use rmw_fastrtps.Take.Accepted.{Returns}
use rmw_fastrtps.Take.Held.{LoanLaws, IsPushing}
use rmw_fastrtps.Take.Loaned.{
  IsHeldBy, IsLending, IsLoanedOut, Reach, here, took, gave_back, arrived, Reach-IsHeld,
  take_loaned_message-IsLoanedOut,
}
use rmw_fastrtps.Take.Tests.{near, far, info_from, settings, ignoring, rest_of}

-- A reader that lends under the lowest address above all that are lent.
record Lender : Type 0 where
  pending : List SampleInfo
  lent : List ℕ

abbrev above : List ℕ → ℕ
above [] = 1
above (x ∷ xs) = let n = above xs in if ltb x n then n else x + 1

above_fresh : (n : ℕ) (xs : List ℕ) → above xs ≤ n → contains n xs ≡ false
unfolding contains
above_fresh n [] h = refl
above_fresh n (x ∷ xs) h = ground (arith, above_fresh n xs)

abbrev lend : Lender → Lender
lend r = record { pending = rest_of r.pending; lent = r.lent ++ (above r.lent ∷ []) }

abbrev lend_first : Lender → List SampleInfo → Option (SampleInfo × ℕ × Lender)
lend_first r [] = none
lend_first r (i ∷ q) = some (i, above r.lent, lend r)

abbrev lender : LoanReader Lender
lender = record {
  take = λ r. if leb 2 (length r.lent) then none else lend_first r r.pending;
  return_loan = λ m r. (contains m r.lent, record r { lent = remove m r.lent });
  receive = λ i r. record r { pending = r.pending ++ (i ∷ []) };
}

lend_empty : (r : Lender) → r.pending ≡ [] → lender.take r ≡ none
lend_empty r e = ground (arith, e)

lend_full : (r : Lender) → 2 ≤ length r.lent → lender.take r ≡ none
lend_full r h = ground arith

lend_next :
    (r : Lender) (i : SampleInfo) (rest : List SampleInfo)
    → r.pending ≡ i ∷ rest
    → length r.lent < 2
    → lender.take r ≡ some (i, above r.lent, lend r)
lend_next r i rest e h =
    let room : leb 2 (length r.lent) ≡ false = ground arith in
    rw (room) (subst (λ q. lend_first r q ≡ some (i, above r.lent, lend r)) (sym e) refl)

abbrev lender_laws : LoanLaws lender 2
lender_laws = record {
  queue = λ r. r.pending;
  loaned = λ r. r.lent;
  address = λ r. above r.lent;
  advance = lend;
  empty = lend_empty;
  full = lend_full;
  next = lend_next;
  advanced = λ r i rest e. (ap rest_of e, refl);
  fresh = λ r. above_fresh (above r.lent) r.lent (omega arith);
  return_ok = λ m r h. h;
  returned = λ m r. (refl, refl);
  received = λ i r. refl;
}

abbrev push : ℕ → List ℕ → List ℕ
push m items = items ++ (m ∷ [])

pushing : IsPushing 2 push
pushing m items h = refl

abbrev start : Loans Lender
start = record {
  data_reader = record {
    pending = info_from false near ∷ info_from true near ∷ info_from true far ∷ [];
    lent = [];
  };
  items = [];
}

start-IsHeld : IsHeldBy lender_laws push pushing settings start
start-IsHeld = record { same = refl; distinct = tt }

lending : IsLending lender_laws push pushing settings (ignoring false)
lending = record { ours = refl; can_loan = refl }

abbrev loan_arguments : LoanArguments
loan_arguments = record { loaned_message = 0; message_info = none; taken = false }

take_loaned_message-IsLoanedOut_example :
    Returns (IsLoanedOut lender_laws push pushing settings loan_arguments start) (
      take_loaned_message lender push settings 4
        (some (ignoring false))
        (some loan_arguments)
        start)
take_loaned_message-IsLoanedOut_example =
    take_loaned_message-IsLoanedOut lender_laws push pushing settings 4 (ignoring false)
      loan_arguments start lending start-IsHeld (omega arith)

abbrev after_take : Loans Lender
after_take = record {
  data_reader = record { pending = info_from true far ∷ []; lent = 1 ∷ [] };
  items = 1 ∷ [];
}

taken_once :
    take_loaned_message lender push settings 4 (some (ignoring false)) (some loan_arguments) start
    ≡ some (
      ret_ok,
      some (record { loaned_message = 1; message_info = none; taken = true }),
      after_take,
    )
unfolding take_loaned_message loan_loop contains remove
taken_once = refl

reach : Reach lender_laws push pushing settings start after_take
reach =
    took 4 (ignoring false) loan_arguments start after_take ret_ok _ here lending (omega arith)
      taken_once

abbrev at_end : Loans Lender
at_end =
    (return_loaned_message lender push settings (some (ignoring false)) (some 1)
      (record after_take {
        data_reader = lender.receive (info_from true far) after_take.data_reader;
      })).1

Reach-IsHeld_example : IsHeldBy lender_laws push pushing settings at_end
Reach-IsHeld_example =
    Reach-IsHeld lender_laws push pushing settings start-IsHeld
      (gave_back (ignoring false) 1 _ (arrived (info_from true far) after_take reach) lending)

after_take-IsHeld : IsHeldBy lender_laws push pushing settings after_take
after_take-IsHeld = Reach-IsHeld lender_laws push pushing settings start-IsHeld reach
