-- ===== src/Take/Loan.antt =====
-- Loaned messages of a subscription: `LoanManager`, `__init_subscription_for_loans`,
-- `__rmw_take_loaned_message_internal` and `__rmw_return_loaned_message_from_subscription` of
-- rmw_fastrtps_shared_cpp/src/rmw_take.cpp. A loaned message is its address. An item of the manager
-- is the address in its sequence; `push_back` of the bounded vector of Fast DDS is a parameter.
use rmw_fastrtps.Prelude.{
  ℕ, zero, suc, Bool, true, false, not, Option, none, some, List, [], ◌∷◌, eqb, if◌then◌else◌,
}
use rmw_fastrtps.Rmw.{
  RmwRet, ret_ok, ret_error, ret_unsupported, ret_invalid_argument,
  ret_incorrect_rmw_implementation,
}
use rmw_fastrtps.Take.{SampleInfo, MessageInfo, Subscription, Settings}
use rmw_fastrtps.Take.Message.{info_of}

-- A reader whose takes lend the sample: `take` gives its info and its address, `return_loan` tells
-- whether its code is `RETCODE_OK`. `receive` is the arrival of a sample.
pub record LoanReader (R : Type 0) : Type 0 where
  pub take : R → Option (SampleInfo × ℕ × R)
  pub return_loan : ℕ → R → Bool × R
  pub receive : SampleInfo → R → R

-- The reader and the items of the loan manager.
pub record Loans (R : Type 0) : Type 0 where
  pub data_reader : R
  pub items : List ℕ

pub record LoanArguments : Type 0 where
  pub loaned_message : ℕ
  pub message_info : Option MessageInfo
  pub taken : Bool

-- Whether an item was erased, and the items left.
unfoldable pub erase_item : ℕ → List ℕ → Bool × List ℕ
erase_item m [] = (false, [])
erase_item m (x ∷ items) =
    let rest = erase_item m items in if eqb m x then (true, items) else (rest.0, x ∷ rest.1)

-- The subscription, and the items of the manager that is made if the type is plain.
unfoldable pub init_subscription_for_loans : Bool → Subscription → List ℕ → Subscription × List ℕ
init_subscription_for_loans is_plain s items =
    (record s { can_loan_messages = is_plain }, if is_plain then [] else items)

module _ {R : Type 0} (reader : LoanReader R) (push_back : ℕ → List ℕ → List ℕ) (c : Settings) where
  unfoldable pub loan_loop : ℕ → LoanArguments → Loans R → Option (RmwRet × LoanArguments × Loans R)
  loan_loop zero out l = none
  loan_loop (suc fuel) out l = elim (reader.take l.data_reader) [
    | none ↦ some (ret_ok, record out { taken = false }, l)
    | some (sinfo, m, r) ↦ elim sinfo.valid_data [
      | true ↦ some (
        ret_ok,
        record {
          loaned_message = m;
          message_info = info_of c sinfo out.message_info;
          taken = true;
        },
        record { data_reader = r; items = push_back m l.items },
      )
      | false ↦ loan_loop fuel out (record l { data_reader = (reader.return_loan m r).1 })
    ]
  ]

  -- The checks that both functions make first.
  abbrev pub loan_checks : Option Subscription → Option RmwRet
  loan_checks none = some ret_invalid_argument
  loan_checks (some s) =
      if not (eqb s.implementation_identifier c.identifier)
      then some ret_incorrect_rmw_implementation
      else if not s.can_loan_messages
      then some ret_unsupported
      else none

  -- `loaned_message` and `taken` are null together or not at all here.
  unfoldable pub take_loaned_message :
      ℕ
      → Option Subscription
      → Option LoanArguments
      → Loans R
      → Option (RmwRet × Option LoanArguments × Loans R)
  take_loaned_message fuel subscription arguments l = elim (loan_checks subscription) [
    | some code ↦ some (code, arguments, l)
    | none ↦ elim arguments [
      | none ↦ some (ret_invalid_argument, none, l)
      | some out ↦ elim (loan_loop fuel out l) [
        | none ↦ none
        | some (code, out', l') ↦ some (code, some out', l')
      ]
    ]
  ]

  abbrev pub give_back : ℕ → List ℕ → R → RmwRet × Loans R
  give_back m rest r =
      let (returned, r') = reader.return_loan m r in
      (if returned then ret_ok else ret_error, record { data_reader = r'; items = rest })

  -- The part behind the checks.
  unfoldable pub return_item : ℕ → Loans R → RmwRet × Loans R
  unfolding erase_item
  return_item m l =
      let (found, rest) = erase_item m l.items in
      if found then give_back m rest l.data_reader else (ret_error, l)

  unfoldable pub return_loaned_message : Option Subscription → Option ℕ → Loans R → RmwRet × Loans R
  unfolding return_item
  return_loaned_message subscription loaned_message l = elim (loan_checks subscription) [
    | some code ↦ (code, l)
    | none ↦ elim loaned_message [ none ↦ (ret_invalid_argument, l) | some m ↦ return_item m l ]
  ]
