-- ===== src/Take/Filled.antt =====
-- What a take leaves in its arguments, for `_take` and `_take_dynamic_message` of
-- rmw_fastrtps_shared_cpp/src/rmw_take.cpp.
use rmw_fastrtps.Prelude.{
  subst, ℕ, ◌+◌, ◌<◌, ◌≡◌, refl, ◌∙◌, Bool, true, false, Option, some, List, [], ◌∷◌, length, arith,
  eqb,
}
use rmw_fastrtps.Rmw.{RmwRet, ret_ok}
use rmw_fastrtps.Take.{
  SampleInfo, MessageInfo, DataReader, SubscriberInfo, Subscription, TakeArguments, Settings,
  accepts_message, accepts_dynamic, take_until,
}
use rmw_fastrtps.Take.Message.{
  info_of, after_loop, with_info, take_accepted, take_message, take_dynamic_message,
}
use rmw_fastrtps.Take.Laws.{Sample, ReaderLaws, IsOverwriting}
use rmw_fastrtps.Take.Accepted.{
  Returns, Returns-then, is_wanted, accepts_message_lem, wanted, IsStopped, take_until-IsStopped,
}

-- A subscription of this implementation with its custom information.
pub record IsOurs (c : Settings) (s : Subscription) (info : SubscriberInfo) : Type 0 where
  pub ours : s.implementation_identifier ≡ c.identifier
  pub has_info : s.subscriber_info ≡ some info

pub with_info-Returns :
    {A R : Type 0} (c : Settings) (s : Subscription) (info : SubscriberInfo) (out : A) (r : R)
    (loop : SubscriberInfo → Option (RmwRet × A × R)) (Q : RmwRet × A × R → Type 0)
    → IsOurs c s info
    → Returns Q (loop info)
    → Returns Q (with_info c s out r loop)
with_info-Returns c s info out r loop Q o p =
    let same : eqb s.implementation_identifier c.identifier ≡ true = ground (arith, o.ours) in
    rw (same, o.has_info) p

pub wanted_valid :
    {Message : Type 0} (accept : SampleInfo → Bool)
    → ((sinfo : SampleInfo) → accept sinfo ≡ true → sinfo.valid_data ≡ true)
    → (q : List (Sample Message)) (s : Sample Message) (ws : List (Sample Message))
    → wanted accept q ≡ s ∷ ws
    → s.info.valid_data ≡ true
wanted_valid accept valid [] s ws e = ground arith
wanted_valid accept valid (t ∷ q) s ws e =
    ground (arith, valid t.info, wanted_valid accept valid q s ws)

module _ {Message R : Type 0} {reader : DataReader Message R} (laws : ReaderLaws reader)
    (whole : IsOverwriting laws) (c : Settings) where
  -- The outcome of a take by the samples that are wanted: the arguments hold the first one and the
  -- others are left, or nothing is taken, `message_info` is as it was and the queue is empty. `n`
  -- bounds the length of the queue left.
  abbrev pub IsTaken :
      (SampleInfo → Bool)
      → ℕ
      → Option MessageInfo
      → List (Sample Message)
      → RmwRet × TakeArguments Message × R
      → Type 0
  IsTaken accept n i [] (code, out, r) =
      (code ≡ ret_ok) × (out.taken ≡ false) × (out.message_info ≡ i) × (laws.queue r ≡ [])
  IsTaken accept n i (s ∷ ws) (code, out, r) =
      (code ≡ ret_ok)
      × (out.taken ≡ true)
      × (out.message ≡ s.message)
      × (out.message_info ≡ info_of c s.info i)
      × (wanted accept (laws.queue r) ≡ ws)
      × (length (laws.queue r) < n)

  after_loop-IsTaken :
      (accept : SampleInfo → Bool) (n : ℕ) (out : TakeArguments Message)
      (ws : List (Sample Message))
      → out.taken ≡ false
      → ((s : Sample Message) (rest : List (Sample Message))
          → ws ≡ s ∷ rest
          → s.info.valid_data ≡ true)
      → (t : Option SampleInfo × Message × R) → IsStopped laws accept (λ m. Unit) n ws t
      → IsTaken accept n out.message_info ws (after_loop c out t)
  after_loop-IsTaken accept n out [] untaken valid t p = rw (p.0) (refl, untaken, refl, p.1)
  after_loop-IsTaken accept n out (s ∷ ws) untaken valid t p =
      rw (p.0) (refl, refl, p.1.2 ∙ whole s p.1.0 (valid s ws refl), refl, p.2, p.3)

  take_accepted-IsTaken :
      (accepts : Subscription → SubscriberInfo → SampleInfo → Bool) (fuel : ℕ) (s : Subscription)
      (info : SubscriberInfo) (out : TakeArguments Message) (r : R)
      → ((sinfo : SampleInfo) → accepts s info sinfo ≡ true → sinfo.valid_data ≡ true)
      → IsOurs c s info
      → length (laws.queue r) < fuel
      → Returns
          (IsTaken
            (accepts s info)
            (length (laws.queue r) + 1)
            out.message_info
            (wanted (accepts s info) (laws.queue r)))
          (take_accepted reader c fuel accepts s out r)
  take_accepted-IsTaken accepts fuel s info out r valid o h =
      let ws = wanted (accepts s info) (laws.queue r) in
      with_info-Returns c s info _ r _ _ o (
        Returns-then _ _ _ (take_until reader (accepts s info) fuel out.message r)
          (after_loop-IsTaken (accepts s info) (length (laws.queue r) + 1)
            (record out { taken = false }) ws refl
            (wanted_valid (accepts s info) valid (laws.queue r)))
          (take_until-IsStopped laws (accepts s info) (λ m. Unit) (λ w m e k. k) fuel out.message r
            (laws.queue r) refl h tt))

  -- A take by a subscription of this implementation ends with fuel above the length of the reader's
  -- queue, for a reader that hands out its queue in order and overwrites the message. It returns
  -- RMW_RET_OK. Where some sample has valid data and, if local publications are ignored, another
  -- participant's prefix, the first such sample is taken: the message and the message info are those
  -- of the sample, and the samples of this kind left are the others, in order. Otherwise nothing is
  -- taken, `message_info` is as it was and the queue is empty.
  pub take_message-IsTaken :
      (fuel : ℕ) (s : Subscription) (info : SubscriberInfo) (out : TakeArguments Message) (r : R)
      → IsOurs c s info
      → length (laws.queue r) < fuel
      → Returns
          (IsTaken
            (is_wanted s info)
            (length (laws.queue r) + 1)
            out.message_info
            (wanted (is_wanted s info) (laws.queue r)))
          (take_message reader c fuel s out r)
  unfolding take_message
  take_message-IsTaken fuel s info out r o h =
      let n = length (laws.queue r) + 1 in
      subst
        (λ accept.
          Returns (IsTaken accept n out.message_info (wanted accept (laws.queue r)))
            (take_message reader c fuel s out r))
        (accepts_message_lem s info)
        (take_accepted-IsTaken accepts_message fuel s info out r (λ sinfo e. ground arith) o h)

  -- The take of a dynamic message ends so too, but takes the first sample with valid data, be it a
  -- local publication or not: `ignore_local_publications` is not read.
  pub take_dynamic_message-IsTaken :
      (fuel : ℕ) (s : Subscription) (info : SubscriberInfo) (out : TakeArguments Message) (r : R)
      → IsOurs c s info
      → length (laws.queue r) < fuel
      → Returns
          (IsTaken
            (λ sinfo. sinfo.valid_data)
            (length (laws.queue r) + 1)
            out.message_info
            (wanted (λ sinfo. sinfo.valid_data) (laws.queue r)))
          (take_dynamic_message reader c fuel s out r)
  unfolding take_dynamic_message
  take_dynamic_message-IsTaken fuel s info out r o h =
      take_accepted-IsTaken accepts_dynamic fuel s info out r (λ sinfo e. e) o h
