-- ===== src/Take/Tests.antt =====
-- Takes at concrete inputs, of readers that are queues.
mod Lending
use rmw_fastrtps.Prelude.{
  ℕ, suc, ◌+◌, ◌<◌, ◌≤◌, ◌≡◌, refl, sym, ap, subst, ◌∙◌, Bool, true, false, ◌&&◌, ◌||◌, Option,
  none, some, List, [], ◌∷◌, ◌++◌, length, arith, ltb, leb, eqb, nat_eq, if◌then◌else◌, inl, inr,
}
use rmw_fastrtps.Prelude.Assoc.{contains, remove}
use rmw_fastrtps.Rmw.{RmwRet, ret_ok, ret_error, ret_bad_alloc, Guid}
use rmw_fastrtps.Take.{
  SampleInfo, MessageInfo, DataReader, SubscriberInfo, Subscription, TakeArguments, Settings,
  accepts_message, accepts_serialized,
}
use rmw_fastrtps.Take.Message.{
  SerializedMessage, take_message, take_dynamic_message, take_serialized_message,
}
use rmw_fastrtps.Take.Sequence.{Sequence, SequenceArguments, checked_sequence}
use rmw_fastrtps.Take.Loan.{
  LoanReader, Loans, LoanArguments, loan_loop, take_loaned_message, return_loaned_message,
}
use rmw_fastrtps.Take.Laws.{Sample, ReaderLaws, IsOverwriting}
use rmw_fastrtps.Take.Accepted.{is_wanted, Returns, wanted}
use rmw_fastrtps.Take.Filled.{IsOurs, IsTaken, take_message-IsTaken, take_dynamic_message-IsTaken}
use rmw_fastrtps.Take.Serialized.{IsSerialized, take_serialized_message-IsSerialized}
use rmw_fastrtps.Take.Prefix.{IsSequence, in_range, wanted_left, checked_sequence-IsSequence}
use rmw_fastrtps.Take.Held.{LoanLaws, IsPushing, IsHeld}
use rmw_fastrtps.Take.Loaned.{
  IsHeldBy, IsReturned, IsLending, IsLoanedOut, Reach, here, took, gave_back, arrived, Reach-IsHeld,
  return_loaned_message-IsReturned, take_loaned_message-IsLoanedOut,
}

abbrev near : Guid
near = record { guid_prefix = 1 ∷ []; entity_id = 1 ∷ [] }

abbrev far : Guid
far = record { guid_prefix = 2 ∷ []; entity_id = 1 ∷ [] }

abbrev info_from : Bool → Guid → SampleInfo
info_from valid_data guid = record {
  valid_data = valid_data;
  publication_guid = guid;
  sample_identity = record { writer_guid = guid; high = 0; low = 5 };
  source_timestamp = 10;
  reception_timestamp = 11;
}

abbrev settings : Settings
settings = record { storage_size = 16; unsupported = 0; identifier = 1 }

abbrev subscriber : SubscriberInfo
subscriber = record { reader_guid = near }

abbrev ignoring : Bool → Subscription
ignoring b = record {
  implementation_identifier = 1;
  ignore_local_publications = b;
  can_loan_messages = true;
  subscriber_info = some subscriber;
}

ours : (b : Bool) → IsOurs settings (ignoring b) subscriber
ours b = record { ours = refl; has_info = refl }

abbrev stored : {M : Type 0} → Sample M → M → M
stored s m = if s.info.valid_data then s.message else m

abbrev queue_reader : (M : Type 0) → DataReader M (List (Sample M))
queue_reader M = record {
  take = λ m r. elim r [ [] ↦ none | s ∷ q ↦ some (s.info, stored s m, q) ];
}

abbrev rest_of : {A : Type 0} → List A → List A
rest_of [] = []
rest_of (x ∷ xs) = xs

abbrev queue_laws : (M : Type 0) → ReaderLaws (queue_reader M)
queue_laws M = record {
  queue = λ r. r;
  advance = λ r. rest_of r;
  store = stored;
  empty = λ m r e. rw e refl;
  next = λ m r s rest e. rw e refl;
  advanced = λ r s rest e. rw e refl;
  no_data = λ s m e. rw e refl;
}

overwriting : (M : Type 0) → IsOverwriting (queue_laws M)
overwriting M s m e = rw e refl

abbrev samples : List (Sample ℕ)
samples =
    record { info = info_from true near; message = 7 }
    ∷ record { info = info_from false far; message = 0 }
    ∷ record { info = info_from true far; message = 8 }
    ∷ record { info = info_from true far; message = 9 }
    ∷ []

abbrev message_info : MessageInfo
message_info = record {
  source_timestamp = 0;
  received_timestamp = 0;
  publication_sequence_number = 0;
  reception_sequence_number = 0;
  publisher_gid = record { implementation_identifier = 0; bytes = [] };
}

abbrev arguments : TakeArguments ℕ
arguments = record { message = 0; message_info = some message_info; taken = true }

take_message-IsTaken_example :
    Returns
      (IsTaken
        (queue_laws ℕ)
        (overwriting ℕ)
        settings
        (is_wanted (ignoring true) subscriber)
        5
        (some message_info)
        (wanted (is_wanted (ignoring true) subscriber) samples))
      (take_message (queue_reader ℕ) settings 5 (ignoring true) arguments samples)
take_message-IsTaken_example =
    take_message-IsTaken (queue_laws ℕ) (overwriting ℕ) settings 5 (ignoring true) subscriber
      arguments samples (ours true) (omega arith)

take_dynamic_message-IsTaken_example :
    Returns
      (IsTaken
        (queue_laws ℕ)
        (overwriting ℕ)
        settings
        (λ sinfo. sinfo.valid_data)
        5
        (some message_info)
        (wanted (λ sinfo. sinfo.valid_data) samples))
      (take_dynamic_message (queue_reader ℕ) settings 5 (ignoring true) arguments samples)
take_dynamic_message-IsTaken_example =
    take_dynamic_message-IsTaken (queue_laws ℕ) (overwriting ℕ) settings 5 (ignoring true)
      subscriber arguments samples (ours true) (omega arith)

abbrev sequences : SequenceArguments ℕ
sequences = record {
  message_sequence = record { entries = 0 ∷ 0 ∷ 0 ∷ []; size = 0; capacity = 3 };
  message_info_sequence = record {
    entries = message_info ∷ message_info ∷ message_info ∷ [];
    size = 0;
    capacity = 3;
  };
  taken = 0;
}

checked_sequence-IsSequence_example :
    Returns
      (IsSequence
        (queue_laws ℕ)
        (overwriting ℕ)
        settings
        5
        (ignoring true)
        subscriber
        3
        (wanted_left (queue_laws ℕ) (overwriting ℕ) settings 5 (ignoring true) subscriber samples))
      (checked_sequence (queue_reader ℕ) settings 5 (ignoring true) 3 sequences samples)
checked_sequence-IsSequence_example =
    checked_sequence-IsSequence (queue_laws ℕ) (overwriting ℕ) settings 5 (ignoring true) subscriber
      3 sequences samples (ours true) refl refl (omega arith)

abbrev packets : List (Sample (List ℕ))
packets =
    record { info = info_from false near; message = [] }
    ∷ record { info = info_from true near; message = 1 ∷ 2 ∷ [] }
    ∷ []

abbrev no_memory : ℕ → SerializedMessage → RmwRet × SerializedMessage
no_memory n m = (ret_bad_alloc, m)

abbrev serialized : TakeArguments SerializedMessage
serialized = record {
  message = record { buffer = 0 ∷ 0 ∷ 0 ∷ []; buffer_length = 0; buffer_capacity = 3 };
  message_info = none;
  taken = false;
}

take_serialized_message-IsSerialized_example :
    Returns
      (IsSerialized
        (queue_laws (List ℕ))
        (λ s e. overwriting (List ℕ) s [] e)
        no_memory
        settings
        (is_wanted (ignoring false) subscriber)
        serialized
        (wanted (is_wanted (ignoring false) subscriber) packets))
      (take_serialized_message
        (queue_reader (List ℕ))
        no_memory
        settings
        3
        (ignoring false)
        serialized
        packets)
take_serialized_message-IsSerialized_example =
    take_serialized_message-IsSerialized (queue_laws (List ℕ)) (λ s e. overwriting (List ℕ) s [] e)
      no_memory settings 3 (ignoring false) subscriber serialized packets (ours false) refl
      (omega arith)
