-- ===== src/Take/Serialized.antt =====
-- `_take_serialized_message` of rmw_fastrtps_shared_cpp/src/rmw_take.cpp.
use rmw_fastrtps.Prelude.{
  subst, ℕ, ◌+◌, ◌<◌, ◌≡◌, refl, ap, ◌∙◌, Bool, true, false, Option, List, [], ◌∷◌, length, take,
  drop, take_append, arith, if◌then◌else◌,
}
use rmw_fastrtps.Rmw.{
  RmwRet, ret_ok, ret_error, ret_timeout, ret_unsupported, ret_bad_alloc, ret_invalid_argument,
  ret_incorrect_rmw_implementation,
}
use rmw_fastrtps.Take.{
  SampleInfo, DataReader, SubscriberInfo, Subscription, TakeArguments, Settings, accepts_serialized,
  take_until,
}
use rmw_fastrtps.Take.Message.{
  SerializedMessage, info_of, ensure_capacity, copy_accepted, after_serialized,
  take_serialized_message,
}
use rmw_fastrtps.Take.Laws.{Sample, ReaderLaws}
use rmw_fastrtps.Take.Accepted.{
  Returns, Returns-then, is_wanted, accepts_serialized_lem, wanted, IsStopped, take_until-IsStopped,
}
use rmw_fastrtps.Take.Filled.{IsOurs, with_info-Returns, wanted_valid}

module _ {R : Type 0} {reader : DataReader (List ℕ) R} (laws : ReaderLaws reader)
    (fills_empty : (s : Sample (List ℕ)) → s.info.valid_data ≡ true → laws.store s [] ≡ s.message)
    (resize : ℕ → SerializedMessage → RmwRet × SerializedMessage) (c : Settings) where
  -- Whether the message has room for `n` bytes, where needed after the resize.
  abbrev pub resized : ℕ → SerializedMessage → RmwRet × SerializedMessage
  resized = ensure_capacity reader resize c 0

  abbrev pub is_ok : RmwRet → Bool
  is_ok ret_ok = true
  is_ok code = false

  pub record IsCopied (a : TakeArguments SerializedMessage) (w : Sample (List ℕ))
      (t : RmwRet × TakeArguments SerializedMessage × R) : Type 0 where
    pub code_ok : t.0 ≡ ret_ok
    pub taken : t.1.taken ≡ true
    pub info : t.1.message_info ≡ info_of c w.info a.message_info
    pub size : t.1.message.buffer_length ≡ length w.message
    pub bytes : take t.1.message.buffer_length t.1.message.buffer ≡ w.message

  -- The outcome where the buffer has the capacity, or is resized, and where the resize fails.
  abbrev pub IsCopyOutcome :
      TakeArguments SerializedMessage
      → Sample (List ℕ)
      → RmwRet
      → RmwRet × TakeArguments SerializedMessage × R
      → Type 0
  IsCopyOutcome a w code t =
      if is_ok code then IsCopied a w t else ((t.0 ≡ code) × (t.1.taken ≡ false))

  -- The outcome by the samples that are wanted.
  abbrev pub IsSerialized :
      (SampleInfo → Bool)
      → TakeArguments SerializedMessage
      → List (Sample (List ℕ))
      → RmwRet × TakeArguments SerializedMessage × R
      → Type 0
  IsSerialized accept a [] t =
      (t.0 ≡ ret_ok) × (t.1 ≡ record a { taken = false }) × (laws.queue t.2 ≡ [])
  IsSerialized accept a (w ∷ ws) t =
      (wanted accept (laws.queue t.2) ≡ ws)
      × IsCopyOutcome a w (resized (length w.message) a.message).0 t

  abbrev copied :
      TakeArguments SerializedMessage
      → SampleInfo
      → List ℕ
      → RmwRet × SerializedMessage
      → R
      → RmwRet × TakeArguments SerializedMessage × R
  copied a sinfo bytes answer r =
      let (code, out) =
        copy_accepted reader resize c 0 (record a { taken = false }) sinfo bytes answer in
      (code, out, r)

  copied-IsCopyOutcome :
      (a : TakeArguments SerializedMessage) (w : Sample (List ℕ)) (r : R) (code : RmwRet)
      (m : SerializedMessage)
      → IsCopyOutcome a w code (copied a w.info w.message (code, m) r)
  copied-IsCopyOutcome a w r ret_ok m = record {
    code_ok = refl;
    taken = refl;
    info = refl;
    size = refl;
    bytes = take_append w.message (drop (length w.message) m.buffer);
  }
  copied-IsCopyOutcome a w r ret_error m = (refl, refl)
  copied-IsCopyOutcome a w r ret_timeout m = (refl, refl)
  copied-IsCopyOutcome a w r ret_unsupported m = (refl, refl)
  copied-IsCopyOutcome a w r ret_bad_alloc m = (refl, refl)
  copied-IsCopyOutcome a w r ret_invalid_argument m = (refl, refl)
  copied-IsCopyOutcome a w r ret_incorrect_rmw_implementation m = (refl, refl)

  module _ (accept : SampleInfo → Bool) (n : ℕ) (a : TakeArguments SerializedMessage) where
    stopped-IsSerialized :
        (ws : List (Sample (List ℕ))) (t : Option SampleInfo × List ℕ × R)
        → ((w : Sample (List ℕ)) (rest : List (Sample (List ℕ)))
            → ws ≡ w ∷ rest
            → w.info.valid_data ≡ true)
        → IsStopped laws accept (λ m. m ≡ []) n ws t
        → IsSerialized accept a ws
            (after_serialized reader resize c 0 (record a { taken = false }) t)
    stopped-IsSerialized [] t valid p = rw (p.0) (refl, refl, p.1)
    stopped-IsSerialized (w ∷ ws) t valid p =
        let filled : t.1 ≡ w.message =
          p.1.2 ∙ ap (laws.store w) p.1.1 ∙ fills_empty w (valid w ws refl) in
        rw (p.0, filled)
          (
            p.2,
            copied-IsCopyOutcome a w t.2 (resized (length w.message) a.message).0
                (resized (length w.message) a.message).1,
          )

  accepted-IsSerialized :
      (fuel : ℕ) (s : Subscription) (info : SubscriberInfo) (a : TakeArguments SerializedMessage)
      (r : R)
      → IsOurs c s info
      → s.ignore_local_publications ≡ false
      → length (laws.queue r) < fuel
      → Returns
          (IsSerialized
            (accepts_serialized s info)
            a
            (wanted (accepts_serialized s info) (laws.queue r)))
          (take_serialized_message reader resize c fuel s a r)
  unfolding take_serialized_message
  accepted-IsSerialized fuel s info a r o all h =
      let accept = accepts_serialized s info in
      with_info-Returns c s info _ r _ _ o (
        Returns-then _ _ _ (take_until reader accept fuel [] r)
          (λ t p.
            stopped-IsSerialized accept (length (laws.queue r) + 1) a (wanted accept (laws.queue r))
              t (wanted_valid accept (λ sinfo e. ground arith) (laws.queue r)) p)
          (take_until-IsStopped laws accept (λ m. m ≡ [])
            (λ w m e k. laws.no_data w m (ground (arith, all)) ∙ k) fuel [] r (laws.queue r) refl h
            refl))

  -- A take of a serialized message ends with fuel above the length of the reader's queue, for a
  -- subscription of this implementation that does not ignore local publications, a reader that hands
  -- out its queue in order and fills an empty buffer with the bytes of a sample. Where no sample has
  -- valid data, it returns RMW_RET_OK with nothing taken. Otherwise the first such sample is removed
  -- from the queue, and the others are left. If its bytes fit or the message is resized, it returns
  -- RMW_RET_OK with the message's bytes and length those of the sample, and its info; if the resize
  -- fails, its code is returned and nothing is taken, so that the sample is lost.
  pub take_serialized_message-IsSerialized :
      (fuel : ℕ) (s : Subscription) (info : SubscriberInfo) (a : TakeArguments SerializedMessage)
      (r : R)
      → IsOurs c s info
      → s.ignore_local_publications ≡ false
      → length (laws.queue r) < fuel
      → Returns
          (IsSerialized (is_wanted s info) a (wanted (is_wanted s info) (laws.queue r)))
          (take_serialized_message reader resize c fuel s a r)
  take_serialized_message-IsSerialized fuel s info a r o all h =
      subst
        (λ accept.
          Returns (IsSerialized accept a (wanted accept (laws.queue r)))
            (take_serialized_message reader resize c fuel s a r))
        (accepts_serialized_lem s info) (accepted-IsSerialized fuel s info a r o all h)
