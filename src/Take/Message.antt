-- ===== src/Take/Message.antt =====
-- `_take`, `_take_dynamic_message` and `_take_serialized_message` of
-- rmw_fastrtps_shared_cpp/src/rmw_take.cpp, and the checks of the functions that call them.
use rmw_fastrtps.Prelude.{
  ℕ, Bool, true, false, not, Option, none, some, List, [], ◌++◌, length, drop, ltb, eqb,
  if◌then◌else◌,
}
use rmw_fastrtps.Rmw.{
  RmwRet, ret_ok, ret_error, ret_invalid_argument, ret_incorrect_rmw_implementation,
}
use rmw_fastrtps.Take.{
  SampleInfo, MessageInfo, DataReader, SubscriberInfo, Subscription, TakeArguments, Settings,
  assign_message_info, accepts_message, accepts_serialized, accepts_dynamic, take_until,
}

abbrev pub info_of : Settings → SampleInfo → Option MessageInfo → Option MessageInfo
info_of c sinfo none = none
info_of c sinfo (some i) = some (assign_message_info c sinfo)

-- What a loop leaves in the arguments.
abbrev pub after_loop :
    {Message R : Type 0}
    → Settings
    → TakeArguments Message
    → Option SampleInfo × Message × R
    → RmwRet × TakeArguments Message × R
after_loop c out (none, m, r) = (ret_ok, record out { message = m }, r)
after_loop c out (some sinfo, m, r) = (
  ret_ok,
  record { message = m; message_info = info_of c sinfo out.message_info; taken = true },
  r,
)

-- The checks that the takes of `_take` and of a dynamic message make before their loop.
abbrev pub with_info :
    {A R : Type 0}
    → Settings
    → Subscription
    → A
    → R
    → (SubscriberInfo → Option (RmwRet × A × R))
    → Option (RmwRet × A × R)
with_info c s out r loop =
    if not (eqb s.implementation_identifier c.identifier)
    then some (ret_incorrect_rmw_implementation, out, r)
    else elim s.subscriber_info [ none ↦ some (ret_error, out, r) | some info ↦ loop info ]

module _ {Message R : Type 0} (reader : DataReader Message R) (c : Settings) (fuel : ℕ) where
  abbrev pub take_accepted :
      (Subscription → SubscriberInfo → SampleInfo → Bool)
      → Subscription
      → TakeArguments Message
      → R
      → Option (RmwRet × TakeArguments Message × R)
  take_accepted accepts s arguments r =
      let out : TakeArguments Message = record arguments { taken = false } in
      with_info c s out r λ info.
        elim (take_until reader (accepts s info) fuel arguments.message r) [
          | none ↦ none
          | some stopped ↦ some (after_loop c out stopped)
        ]

  unfoldable pub take_message :
      Subscription → TakeArguments Message → R → Option (RmwRet × TakeArguments Message × R)
  take_message = take_accepted accepts_message

  unfoldable pub take_dynamic_message :
      Subscription → TakeArguments Message → R → Option (RmwRet × TakeArguments Message × R)
  take_dynamic_message = take_accepted accepts_dynamic

  -- `__rmw_take` and its variants refuse null pointers with one code. The pointers that a call may
  -- set are null together or not at all here.
  unfoldable pub rmw_take :
      Option Subscription
      → Option (TakeArguments Message)
      → R
      → Option (RmwRet × Option (TakeArguments Message) × R)
  unfolding take_message
  rmw_take subscription arguments r = elim subscription [
    | none ↦ some (ret_invalid_argument, arguments, r)
    | some s ↦ elim arguments [
      | none ↦ some (ret_invalid_argument, none, r)
      | some out ↦ elim (take_message s out r) [
        | none ↦ none
        | some (code, out', r') ↦ some (code, some out', r')
      ]
    ]
  ]

-- `rmw_serialized_message_t`: what is written at `buffer`, the length and the capacity.
pub record SerializedMessage : Type 0 where
  pub buffer : List ℕ
  pub buffer_length : ℕ
  pub buffer_capacity : ℕ

-- `rmw_serialized_message_resize` is a parameter.
module _ {R : Type 0} (reader : DataReader (List ℕ) R)
    (resize : ℕ → SerializedMessage → RmwRet × SerializedMessage) (c : Settings) (fuel : ℕ) where
  -- `memcpy` overwrites the first bytes.
  abbrev pub copy_into : List ℕ → SerializedMessage → SerializedMessage
  copy_into bytes m = record m {
    buffer_length = length bytes;
    buffer = bytes ++ drop (length bytes) m.buffer;
  }

  abbrev pub ensure_capacity : ℕ → SerializedMessage → RmwRet × SerializedMessage
  ensure_capacity buffer_size m =
      if ltb m.buffer_capacity buffer_size then resize buffer_size m else (ret_ok, m)

  -- The body for an accepted sample.
  abbrev pub copy_accepted :
      TakeArguments SerializedMessage
      → SampleInfo
      → List ℕ
      → RmwRet × SerializedMessage
      → RmwRet × TakeArguments SerializedMessage
  copy_accepted out sinfo bytes (ret_ok, m) = (
    ret_ok,
    record {
      message = copy_into bytes m;
      message_info = info_of c sinfo out.message_info;
      taken = true;
    },
  )
  copy_accepted out sinfo bytes (code, m) = (code, record out { message = m })

  abbrev pub after_serialized :
      TakeArguments SerializedMessage
      → Option SampleInfo × List ℕ × R
      → RmwRet × TakeArguments SerializedMessage × R
  after_serialized out (none, bytes, r) = (ret_ok, out, r)
  after_serialized out (some sinfo, bytes, r) =
      let (code, out') =
        copy_accepted out sinfo bytes (ensure_capacity (length bytes) out.message) in
      (code, out', r)

  -- The buffer of the loop is empty at first.
  unfoldable pub take_serialized_message :
      Subscription
      → TakeArguments SerializedMessage
      → R
      → Option (RmwRet × TakeArguments SerializedMessage × R)
  take_serialized_message s arguments r =
      let out : TakeArguments SerializedMessage = record arguments { taken = false } in
      with_info c s out r λ info. elim (take_until reader (accepts_serialized s info) fuel [] r) [
        | none ↦ none
        | some stopped ↦ some (after_serialized out stopped)
      ]
