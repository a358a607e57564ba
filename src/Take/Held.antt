-- ===== src/Take/Held.antt =====
-- The loans of a subscription and the items of its loan manager, against what the reader has lent
-- (rmw_fastrtps_shared_cpp/src/rmw_take.cpp).
use rmw_fastrtps.Prelude.{
  ℕ, zero, suc, ◌<◌, ◌≤◌, ◌≡◌, refl, sym, ap, ◌∙◌, true, false, none, some, List, [], ◌∷◌, ◌++◌,
  length, arith, leb, if◌then◌else◌, nat_eq, inl, inr, Bool-cases,
}
use rmw_fastrtps.Prelude.Assoc.{contains, remove}
use rmw_fastrtps.Rmw.{RmwRet, ret_ok}
use rmw_fastrtps.Take.{SampleInfo, Settings, assign_message_info}
use rmw_fastrtps.Take.Message.{info_of}
use rmw_fastrtps.Take.Loan.{LoanReader, Loans, LoanArguments, loan_loop}
use rmw_fastrtps.Take.Distinct.{IsDistinct, append-IsDistinct, remove-append}
use rmw_fastrtps.Take.Accepted.{Returns}

-- What is relied on of a reader that lends, where `loaned` are the addresses lent, `address` the next
-- one and `maximum` the limit of its outstanding reads: it lends the first sample of its queue, under
-- an address that is not lent already, unless the limit is reached; and it takes a loan back.
pub record LoanLaws {R : Type 0} (reader : LoanReader R) (maximum : ℕ) : Type 0 where
  pub queue : R → List SampleInfo
  pub loaned : R → List ℕ
  pub address : R → ℕ
  pub advance : R → R
  pub empty : (r : R) → queue r ≡ [] → reader.take r ≡ none
  pub full : (r : R) → maximum ≤ length (loaned r) → reader.take r ≡ none
  pub next :
      (r : R) (i : SampleInfo) (rest : List SampleInfo)
      → queue r ≡ i ∷ rest
      → length (loaned r) < maximum
      → reader.take r ≡ some (i, address r, advance r)
  pub advanced :
      (r : R) (i : SampleInfo) (rest : List SampleInfo)
      → queue r ≡ i ∷ rest
      → (queue (advance r) ≡ rest) × (loaned (advance r) ≡ loaned r ++ (address r ∷ []))
  pub fresh : (r : R) → contains (address r) (loaned r) ≡ false
  pub return_ok : (m : ℕ) (r : R) → contains m (loaned r) ≡ true → (reader.return_loan m r).0 ≡ true
  pub returned :
      (m : ℕ) (r : R)
      → (queue (reader.return_loan m r).1 ≡ queue r)
        × (loaned (reader.return_loan m r).1 ≡ remove m (loaned r))
  pub received : (i : SampleInfo) (r : R) → loaned (reader.receive i r) ≡ loaned r

-- `push_back` of a bounded vector that is not full.
abbrev pub IsPushing : ℕ → (ℕ → List ℕ → List ℕ) → Type 0
IsPushing maximum push_back =
    (m : ℕ) (items : List ℕ) → length items < maximum → push_back m items ≡ items ++ (m ∷ [])

abbrev pub valid : List SampleInfo → List SampleInfo
valid [] = []
valid (i ∷ q) = let rest = valid q in if i.valid_data then i ∷ rest else rest

module _ {R : Type 0} {reader : LoanReader R} {maximum : ℕ} (laws : LoanLaws reader maximum)
    (push_back : ℕ → List ℕ → List ℕ) (pushing : IsPushing maximum push_back) (c : Settings) where
  -- The items of the manager are what the reader has lent, each address once.
  pub record IsHeld (l : Loans R) : Type 0 where
    pub same : l.items ≡ laws.loaned l.data_reader
    pub distinct : IsDistinct l.items

  -- Which samples can be taken.
  abbrev pub available : Loans R → List SampleInfo
  available l = if leb maximum (length l.items) then [] else valid (laws.queue l.data_reader)

  abbrev pub IsLoaned :
      LoanArguments → Loans R → List SampleInfo → RmwRet × LoanArguments × Loans R → Type 0
  IsLoaned a l [] (code, out, l') =
      IsHeld l' × (code ≡ ret_ok) × (out ≡ record a { taken = false }) × (l'.items ≡ l.items)
  IsLoaned a l (i ∷ is) (code, out, l') =
      IsHeld l'
      × (code ≡ ret_ok)
      × (out.taken ≡ true)
      × (out.message_info ≡ info_of c i a.message_info)
      × (contains out.loaned_message l.items ≡ false)
      × (l'.items ≡ l.items ++ (out.loaned_message ∷ []))
      × (valid (laws.queue l'.data_reader) ≡ is)

  -- A loan that is returned at once leaves what is held as it was.
  skipped-IsHeld :
      (l : Loans R) (i : SampleInfo) (rest : List SampleInfo)
      → IsHeld l
      → laws.queue l.data_reader ≡ i ∷ rest
      → let r = (reader.return_loan (laws.address l.data_reader) (laws.advance l.data_reader)).1 in
        IsHeld (record l { data_reader = r }) × (laws.queue r ≡ rest)
  skipped-IsHeld l i rest v e =
      let m = laws.address l.data_reader in
      let (q, lent) = laws.advanced l.data_reader i rest e in
      let (q', lent') = laws.returned m (laws.advance l.data_reader) in
      let back : remove m (laws.loaned l.data_reader ++ (m ∷ [])) ≡ laws.loaned l.data_reader =
        remove-append m (laws.loaned l.data_reader) (laws.fresh l.data_reader) in
      (
        record { same = v.same ∙ sym (lent' ∙ ap (remove m) lent ∙ back); distinct = v.distinct },
        q' ∙ q,
      )

  lent-IsHeld :
      (l : Loans R) (i : SampleInfo) (rest : List SampleInfo)
      → IsHeld l
      → laws.queue l.data_reader ≡ i ∷ rest
      → IsHeld (record {
        data_reader = laws.advance l.data_reader;
        items = l.items ++ (laws.address l.data_reader ∷ []);
      })
  lent-IsHeld l i rest v e =
      let m = laws.address l.data_reader in
      let (q, lent) = laws.advanced l.data_reader i rest e in
      record {
        same = ap (λ items. items ++ (m ∷ [])) v.same ∙ sym lent;
        distinct = append-IsDistinct m l.items (rw (v.same) (laws.fresh l.data_reader)) v.distinct;
      }

  lend-IsLoaned :
      (fuel : ℕ) (a : LoanArguments) (l : Loans R) (q : List SampleInfo)
      → IsHeld l
      → laws.queue l.data_reader ≡ q
      → length q < fuel
      → length l.items < maximum
      → Returns (IsLoaned a l (valid q)) (loan_loop reader push_back c fuel a l)
  unfolding loan_loop assign_message_info
  lend-IsLoaned zero a l q v e h u = absurd (omega arith)
  lend-IsLoaned (suc fuel) a l [] v e h u =
      rw (loan_loop, laws.empty l.data_reader e) (v, refl, refl, refl)
  lend-IsLoaned (suc fuel) a l (i ∷ q) v e h u =
      let given = laws.next l.data_reader i q e (rw (← v.same) u) in
      let m = laws.address l.data_reader in
      let (skipped, rest) = skipped-IsHeld l i q v e in
      let l' = record l { data_reader = (reader.return_loan m (laws.advance l.data_reader)).1 } in
      elim (Bool-cases i.valid_data) [
        | inl ok ↦
            rw (loan_loop, given, ok, pushing m l.items u)
              (
                lent-IsHeld l i q v e,
                refl,
                refl,
                refl,
                rw (v.same) (laws.fresh l.data_reader),
                refl,
                ap valid (laws.advanced l.data_reader i q e).0,
              )
        | inr no_data ↦
            rw (loan_loop, given, no_data) (lend-IsLoaned fuel a l' q skipped rest (omega arith) u)
      ]

  pub loan_loop-IsLoaned :
      (fuel : ℕ) (a : LoanArguments) (l : Loans R)
      → IsHeld l
      → length (laws.queue l.data_reader) < fuel
      → Returns (IsLoaned a l (available l)) (loan_loop reader push_back c fuel a l)
  unfolding loan_loop
  loan_loop-IsLoaned zero a l v h = absurd (omega arith)
  loan_loop-IsLoaned (suc fuel) a l v h = elim (Bool-cases (leb maximum (length l.items))) [
    | inl f ↦
        let over : maximum ≤ length l.items = ground arith in
        rw (f, loan_loop, laws.full l.data_reader (rw (← v.same) over)) (v, refl, refl, refl)
    | inr f ↦
        let under : length l.items < maximum = ground arith in
        rw (f) (lend-IsLoaned (suc fuel) a l (laws.queue l.data_reader) v refl h under)
  ]
