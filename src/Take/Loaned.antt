-- ===== src/Take/Loaned.antt =====
-- The calls of a subscription that lends messages, one after the other
-- (rmw_fastrtps_shared_cpp/src/rmw_take.cpp).
use rmw_fastrtps.Prelude.{
  ℕ, ◌<◌, ◌≡◌, refl, sym, ap, subst, ◌∙◌, true, false, Option, none, some, List, [], ◌∷◌, length,
  arith, if◌then◌else◌, eqb, nat_eq, inl, inr, Bool-cases,
}
use rmw_fastrtps.Prelude.Assoc.{contains, remove}
use rmw_fastrtps.Rmw.{RmwRet, ret_ok, ret_error}
use rmw_fastrtps.Take.{SampleInfo, Subscription, Settings}
use rmw_fastrtps.Take.Loan.{
  LoanReader, Loans, LoanArguments, loan_loop, loan_checks, take_loaned_message, return_item,
  return_loaned_message,
}
use rmw_fastrtps.Take.Distinct.{
  contains-remove_same, remove-IsDistinct, erase_item-found, erase_item-remove,
}
use rmw_fastrtps.Take.Accepted.{Returns, Returns-then}
use rmw_fastrtps.Take.Held.{LoanLaws, IsPushing, IsHeld, IsLoaned, available, loan_loop-IsLoaned}

module _ {R : Type 0} {reader : LoanReader R} {maximum : ℕ} (laws : LoanLaws reader maximum)
    (push_back : ℕ → List ℕ → List ℕ) (pushing : IsPushing maximum push_back) (c : Settings) where
  abbrev pub IsHeldBy : Loans R → Type 0
  IsHeldBy = IsHeld laws push_back pushing c

  -- Returning a message that is held.
  pub record IsReturned (m : ℕ) (l : Loans R) (t : RmwRet × Loans R) : Type 0 where
    pub code_ok : t.0 ≡ ret_ok
    pub held : IsHeldBy t.1
    pub items_left : t.1.items ≡ remove m l.items
    pub gone : contains m t.1.items ≡ false

  return_item-IsReturned :
      (m : ℕ) (l : Loans R)
      → IsHeldBy l
      → contains m l.items ≡ true
      → IsReturned m l (return_item reader push_back c m l)
  unfolding return_item
  return_item-IsReturned m l v h =
      let found = erase_item-found m l.items ∙ h in
      let rest = erase_item-remove m l.items v.distinct in
      let back = laws.return_ok m l.data_reader (subst (λ xs. contains m xs ≡ true) v.same h) in
      rw (return_item, found, rest, back)
        (record {
          code_ok = refl;
          held = record {
            same = ap (remove m) v.same ∙ sym ((laws.returned m l.data_reader).1);
            distinct = remove-IsDistinct m l.items v.distinct;
          };
          items_left = refl;
          gone = contains-remove_same m l.items;
        })

  -- A subscription of this implementation that can loan messages.
  pub record IsLending (s : Subscription) : Type 0 where
    pub ours : s.implementation_identifier ≡ c.identifier
    pub can_loan : s.can_loan_messages ≡ true

  IsLending-checks :
      (s : Subscription) → IsLending s → loan_checks reader push_back c (some s) ≡ none
  IsLending-checks s h =
      let same : eqb s.implementation_identifier c.identifier ≡ true = ground (arith, h.ours) in
      rw (same, h.can_loan) refl

  -- A return of a message, for a subscription of this implementation that can loan and whose manager
  -- holds what the reader has lent: if the message is held, it returns RMW_RET_OK, the message is not
  -- held any more, so that returning it again is an error, and the manager holds all other loans;
  -- otherwise it returns RMW_RET_ERROR and changes nothing.
  pub return_loaned_message-IsReturned :
      (s : Subscription) (m : ℕ) (l : Loans R)
      → IsLending s
      → IsHeldBy l
      → (if contains m l.items
          then IsReturned m l (return_loaned_message reader push_back c (some s) (some m) l)
          else (return_loaned_message reader push_back c (some s) (some m) l ≡ (ret_error, l)))
  unfolding return_loaned_message return_item
  return_loaned_message-IsReturned s m l lending v = elim (Bool-cases (contains m l.items)) [
    | inl e ↦
        rw (e, return_loaned_message, IsLending-checks s lending) (return_item-IsReturned m l v e)
    | inr e ↦
        let missing = erase_item-found m l.items ∙ e in
        rw (e, return_loaned_message, IsLending-checks s lending, return_item, missing) refl
  ]

  abbrev pub IsLoanedOut :
      LoanArguments → Loans R → RmwRet × Option LoanArguments × Loans R → Type 0
  IsLoanedOut a l (code, none, l') = ⊥
  IsLoanedOut a l (code, some out, l') =
      IsLoaned laws push_back pushing c a l (available laws push_back pushing c l) (code, out, l')

  -- A take of a loaned message, for a subscription of this implementation that can loan, whose manager
  -- holds what the reader has lent, ends with fuel above the length of the reader's queue and returns
  -- RMW_RET_OK. If the reader's limit of loans is not reached and some sample has valid data, the
  -- first such sample is lent, with its message info: the manager holds it beside the other loans,
  -- under an address it did not hold, and the other samples with valid data are left. Otherwise
  -- nothing is taken. In both cases the manager holds what the reader has lent afterwards.
  pub take_loaned_message-IsLoanedOut :
      (fuel : ℕ) (s : Subscription) (a : LoanArguments) (l : Loans R)
      → IsLending s
      → IsHeldBy l
      → length (laws.queue l.data_reader) < fuel
      → Returns (IsLoanedOut a l) (take_loaned_message reader push_back c fuel (some s) (some a) l)
  unfolding take_loaned_message
  take_loaned_message-IsLoanedOut fuel s a l lending v h =
      rw (take_loaned_message, IsLending-checks s lending)
        (Returns-then _ _ _ (loan_loop reader push_back c fuel a l) (λ t p. p)
          (loan_loop-IsLoaned laws push_back pushing c fuel a l v h))

  IsLoaned-IsHeld :
      (a : LoanArguments) (l : Loans R) (is : List SampleInfo)
      (t : RmwRet × LoanArguments × Loans R)
      → IsLoaned laws push_back pushing c a l is t
      → IsHeldBy t.2
  IsLoaned-IsHeld a l [] t p = p.0
  IsLoaned-IsHeld a l (i ∷ is) t p = p.0

  -- The states that the calls of a subscription reach, samples arriving in between. A take has fuel
  -- above the length of the queue.
  pub data Reach (start : Loans R) : Loans R → Type 0 where
    here : Reach start start
    took :
        (fuel : ℕ) (s : Subscription) (a : LoanArguments) (l l' : Loans R) (code : RmwRet)
        (out : Option LoanArguments)
        → Reach start l
        → IsLending s
        → length (laws.queue l.data_reader) < fuel
        → take_loaned_message reader push_back c fuel (some s) (some a) l ≡ some (code, out, l')
        → Reach start l'
    gave_back :
        (s : Subscription) (m : ℕ) (l : Loans R)
        → Reach start l
        → IsLending s
        → Reach start (return_loaned_message reader push_back c (some s) (some m) l).1
    arrived :
        (i : SampleInfo) (l : Loans R)
        → Reach start l
        → Reach start (record l { data_reader = reader.receive i l.data_reader })

  IsLoanedOut-IsHeld :
      (a : LoanArguments) (l l' : Loans R) (code : RmwRet) (out : Option LoanArguments)
      → IsLoanedOut a l (code, out, l')
      → IsHeldBy l'
  IsLoanedOut-IsHeld a l l' code none p = absurd p
  IsLoanedOut-IsHeld a l l' code (some out) p = IsLoaned-IsHeld a l _ (code, out, l') p

  return-IsHeld :
      (s : Subscription) (m : ℕ) (l : Loans R)
      → IsLending s
      → IsHeldBy l
      → IsHeldBy (return_loaned_message reader push_back c (some s) (some m) l).1
  return-IsHeld s m l lending v =
      let p = return_loaned_message-IsReturned s m l lending v in
      elim (Bool-cases (contains m l.items)) [
        | inl e ↦
            let q : IsReturned m l (return_loaned_message reader push_back c (some s) (some m) l) =
              rw e at p in
            q.held
        | inr e ↦
            let q : return_loaned_message reader push_back c (some s) (some m) l ≡ (ret_error, l) =
              rw e at p in
            subst IsHeldBy (sym (ap (λ t. t.1) q)) v
      ]

  -- Whatever takes and returns of loaned messages follow each other, with samples arriving in between,
  -- the loan manager holds exactly the addresses that the reader has lent and not got back, each of
  -- them once, if it does at the start: no loan is lost and none is returned twice.
  pub Reach-IsHeld : {start l : Loans R} → IsHeldBy start → Reach start l → IsHeldBy l
  Reach-IsHeld v here = v
  Reach-IsHeld v (took fuel s a l l' code out before lending h e) =
      let p = take_loaned_message-IsLoanedOut fuel s a l lending (Reach-IsHeld v before) h in
      IsLoanedOut-IsHeld a l l' code out (subst (Returns (IsLoanedOut a l)) e p)
  Reach-IsHeld v (gave_back s m l before lending) =
      return-IsHeld s m l lending (Reach-IsHeld v before)
  Reach-IsHeld v (arrived i l before) =
      let h = Reach-IsHeld v before in
      record { same = h.same ∙ sym (laws.received i l.data_reader); distinct = h.distinct }
