-- ===== src/Take/Sequence.antt =====
-- `_take_sequence` and `__rmw_take_sequence` of rmw_fastrtps_shared_cpp/src/rmw_take.cpp. A write or
-- read out of an array's range has no result, as a loop without fuel has none.
use rmw_fastrtps.Prelude.{
  ℕ, zero, suc, ◌+◌, Bool, false, ◌||◌, Option, none, some, List, [], ◌∷◌, get_elem?, ltb, eqb,
  if◌then◌else◌,
}
use rmw_fastrtps.Rmw.{RmwRet, ret_ok, ret_invalid_argument}
use rmw_fastrtps.Take.{MessageInfo, DataReader, Subscription, TakeArguments, Settings}
use rmw_fastrtps.Take.Message.{take_message, with_info}

abbrev pub set {ℓ} : {A : Type ℓ} → List A → ℕ → A → List A
set [] i v = []
set (x ∷ xs) zero v = v ∷ xs
set (x ∷ xs) (suc i) v = x ∷ set xs i v

-- `rmw_message_sequence_t` and `rmw_message_info_sequence_t`.
pub record Sequence (A : Type 0) : Type 0 where
  pub entries : List A
  pub size : ℕ
  pub capacity : ℕ

-- The arguments of the call; `*taken` is what the call sets.
pub record SequenceArguments (Message : Type 0) : Type 0 where
  pub message_sequence : Sequence Message
  pub message_info_sequence : Sequence MessageInfo
  pub taken : ℕ

abbrev pub info_or : MessageInfo → Option MessageInfo → MessageInfo
info_or i none = i
info_or i (some i') = i'

abbrev pub with_entry : {A : Type 0} → Sequence A → ℕ → A → Sequence A
with_entry s i v = record s { entries = set s.entries i v }

abbrev pub with_size : {A : Type 0} → Sequence A → ℕ → Sequence A
with_size s n = record s { size = n }

module _ {Message R : Type 0} (reader : DataReader Message R) (c : Settings) (fuel : ℕ)
    (s : Subscription) where
  abbrev pub Result : Type 0
  Result = RmwRet × SequenceArguments Message × R

  -- What a take at the index `*taken` leaves.
  abbrev pub entry_taken :
      SequenceArguments Message → MessageInfo → TakeArguments Message → SequenceArguments Message
  entry_taken a i out = record {
    message_sequence = with_entry a.message_sequence a.taken out.message;
    message_info_sequence = with_entry a.message_info_sequence a.taken (info_or i out.message_info);
    taken = if out.taken then a.taken + 1 else a.taken;
  }

  abbrev pub take_entry : SequenceArguments Message → R → Option Result
  take_entry a r = elim (get_elem? a.message_sequence.entries a.taken) [
    | none ↦ none
    | some m ↦ elim (get_elem? a.message_info_sequence.entries a.taken) [
      | none ↦ none
      | some i ↦
          elim (take_message reader c fuel s
            (record { message = m; message_info = some i; taken = false }) r) [
              | none ↦ none
              | some (code, out, r') ↦ some (code, entry_taken a i out, r')
            ]
    ]
  ]

  -- The rounds that are left of the loop, which a code other than `RMW_RET_OK` breaks off.
  unfoldable pub sequence_loop : ℕ → SequenceArguments Message → R → Option Result
  sequence_loop zero a r = some (ret_ok, a, r)
  sequence_loop (suc rounds) a r = elim (take_entry a r) [
    | none ↦ none
    | some (ret_ok, a', r') ↦ sequence_loop rounds a' r'
    | some (code, a', r') ↦ some (code, a', r')
  ]

  abbrev pub with_sizes : SequenceArguments Message → SequenceArguments Message
  with_sizes a = record a {
    message_sequence = with_size a.message_sequence a.taken;
    message_info_sequence = with_size a.message_info_sequence a.taken;
  }

  unfoldable pub take_sequence : ℕ → SequenceArguments Message → R → Option Result
  unfolding sequence_loop
  take_sequence count arguments r =
      let a : SequenceArguments Message = record arguments { taken = 0 } in
      with_info c s a r λ info. elim (sequence_loop count a r) [
        | none ↦ none
        | some (code, a', r') ↦ some (code, with_sizes a', r')
      ]

  abbrev pub is_refused : ℕ → SequenceArguments Message → Bool
  is_refused count a =
      eqb count 0
      || ltb a.message_sequence.capacity count
      || ltb a.message_info_sequence.capacity count

  -- The checks of `__rmw_take_sequence` behind those of null pointers.
  unfoldable pub checked_sequence : ℕ → SequenceArguments Message → R → Option Result
  unfolding take_sequence
  checked_sequence count a r =
      if is_refused count a then some (ret_invalid_argument, a, r) else take_sequence count a r
