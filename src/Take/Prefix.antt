-- ===== src/Take/Prefix.antt =====
-- What `_take_sequence` of rmw_fastrtps_shared_cpp/src/rmw_take.cpp leaves in its two arrays.
use Prim.Native.Nat.{min}
use rmw_fastrtps.Prelude.{
  ℕ, zero, suc, ◌+◌, ◌<◌, ◌≤◌, ◌≡◌, refl, sym, ap, subst, ◌∙◌, Bool, true, false, some, List, [],
  ◌∷◌, length, take, drop, take_nil, drop_nil, map, arith, inl, inr, Option-cases, Bool-cases, ◌&&◌,
  ltb, leb, if◌then◌else◌,
}
use rmw_fastrtps.Rmw.{RmwRet, ret_ok, ret_invalid_argument}
use rmw_fastrtps.Take.{
  MessageInfo, DataReader, SubscriberInfo, Subscription, TakeArguments, Settings,
  assign_message_info,
}
use rmw_fastrtps.Take.Message.{take_message}
use rmw_fastrtps.Take.Sequence.{
  SequenceArguments, Result, entry_taken, take_entry, sequence_loop, take_sequence, is_refused,
  with_sizes, checked_sequence,
}
use rmw_fastrtps.Take.Extended.{
  IsExtended, append_none, get_elem?-some, set-IsExtended, untaken-IsExtended, IsExtended-trans,
}
use rmw_fastrtps.Take.Laws.{Sample, ReaderLaws, IsOverwriting}
use rmw_fastrtps.Take.Accepted.{Returns, Returns-map, Returns-then, is_wanted, wanted}
use rmw_fastrtps.Take.Filled.{IsOurs, IsTaken, with_info-Returns, take_message-IsTaken}

module _ {Message R : Type 0} {reader : DataReader Message R} (laws : ReaderLaws reader)
    (whole : IsOverwriting laws) (c : Settings) (fuel : ℕ) (s : Subscription)
    (info : SubscriberInfo) where
  abbrev pub wanted_left : R → List (Sample Message)
  wanted_left r = wanted (is_wanted s info) (laws.queue r)

  -- What `n` rounds make of the arguments, where `ws` are the samples wanted.
  pub record IsFilled (n : ℕ) (a : SequenceArguments Message) (ws : List (Sample Message))
      (t : Result reader c fuel s) : Type 0 where
    pub code_ok : t.0 ≡ ret_ok
    pub counted : t.1.taken ≡ a.taken + min n (length ws)
    pub messages :
        IsExtended a.taken t.1.taken
          (take n (map (λ w. w.message) ws))
          a.message_sequence.entries
          t.1.message_sequence.entries
    pub infos :
        IsExtended a.taken t.1.taken
          (take n (map (λ w. assign_message_info c w.info) ws))
          a.message_info_sequence.entries
          t.1.message_info_sequence.entries
    pub left : wanted_left t.2 ≡ drop n ws
    pub fuel_left : length (laws.queue t.2) < fuel

  IsTaken-IsFilled :
      (a : SequenceArguments Message) (i : MessageInfo) (ws : List (Sample Message))
      (out : TakeArguments Message) (code : RmwRet) (r r' : R)
      → a.taken < length a.message_sequence.entries
      → a.taken < length a.message_info_sequence.entries
      → length (laws.queue r) < fuel
      → IsTaken laws whole c
          (is_wanted s info)
          (length (laws.queue r) + 1)
          (some i)
          ws
          (code, out, r')
      → IsFilled 1 a ws (code, entry_taken reader c fuel s a i out, r')
  IsTaken-IsFilled a i [] out code r r' h1 h2 h p = record {
    code_ok = p.0;
    counted = rw (p.1) (omega arith);
    messages = rw (p.1) (untaken-IsExtended _ _ _);
    infos = rw (p.1) (untaken-IsExtended _ _ _);
    left = ap (wanted (is_wanted s info)) (p.3);
    fuel_left = rw (p.3) (omega arith);
  }
  IsTaken-IsFilled a i (w ∷ ws) out code r r' h1 h2 h p = record {
    code_ok = p.0;
    counted = rw (p.1) (omega arith);
    messages = rw (p.1, p.2) (set-IsExtended _ _ _ h1);
    infos = rw (p.1, p.3) (set-IsExtended _ _ _ h2);
    left = p.4;
    fuel_left = omega (arith, p.5);
  }

  module _ (o : IsOurs c s info) where
    take_entry-IsFilled :
        (a : SequenceArguments Message) (r : R)
        → a.taken < length a.message_sequence.entries
        → a.taken < length a.message_info_sequence.entries
        → length (laws.queue r) < fuel
        → Returns (IsFilled 1 a (wanted_left r)) (take_entry reader c fuel s a r)
    take_entry-IsFilled a r h1 h2 h =
        let (m, em) = get_elem?-some a.message_sequence.entries a.taken h1 in
        let (i, ei) = get_elem?-some a.message_info_sequence.entries a.taken h2 in
        let args : TakeArguments Message = record {
          message = m;
          message_info = some i;
          taken = false;
        } in
        rw (take_entry, em, ei)
          (Returns-then _ _ _ (take_message reader c fuel s args r)
            (λ t p. IsTaken-IsFilled a i (wanted_left r) t.1 t.0 r t.2 h1 h2 h p)
            (take_message-IsTaken laws whole c fuel s info args r o h))

    IsFilled-trans :
        (n : ℕ) (a : SequenceArguments Message) (ws : List (Sample Message))
        (t u : Result reader c fuel s)
        → IsFilled 1 a ws t
        → IsFilled n t.1 (drop 1 ws) u
        → IsFilled (suc n) a ws u
    IsFilled-trans n a [] t u p q = record {
      code_ok = q.code_ok;
      counted = omega (arith, p.counted, q.counted);
      messages = IsExtended-trans a.taken _ _ _ _ _ [] _ p.messages (rw (take_nil n) at q.messages);
      infos = IsExtended-trans a.taken _ _ _ _ _ [] _ p.infos (rw (take_nil n) at q.infos);
      left = q.left ∙ drop_nil n;
      fuel_left = q.fuel_left;
    }
    IsFilled-trans n a (w ∷ ws) t u p q = record {
      code_ok = q.code_ok;
      counted = omega (arith, p.counted, q.counted);
      messages = IsExtended-trans _ _ _ _ _ _ _ _ p.messages q.messages;
      infos = IsExtended-trans _ _ _ _ _ _ _ _ p.infos q.infos;
      left = q.left;
      fuel_left = q.fuel_left;
    }

    sequence_loop-IsFilled :
        (n : ℕ) (a : SequenceArguments Message) (r : R)
        → a.taken + n ≤ length a.message_sequence.entries
        → a.taken + n ≤ length a.message_info_sequence.entries
        → length (laws.queue r) < fuel
        → Returns (IsFilled n a (wanted_left r)) (sequence_loop reader c fuel s n a r)
    unfolding sequence_loop
    sequence_loop-IsFilled zero a r h1 h2 h = record {
      code_ok = refl;
      counted = omega arith;
      messages = (sym (append_none _), refl);
      infos = (sym (append_none _), refl);
      left = refl;
      fuel_left = h;
    }
    sequence_loop-IsFilled (suc n) a r h1 h2 h =
        let first = take_entry-IsFilled a r (omega arith) (omega arith) h in
        elim (Option-cases (take_entry reader c fuel s a r)) [
          | inl e ↦ absurd (subst (Returns (IsFilled 1 a (wanted_left r))) e first)
          | inr (t, e) ↦
              let p = subst (Returns (IsFilled 1 a (wanted_left r))) e first in
              let rest =
                sequence_loop-IsFilled n t.1 t.2 (omega (arith, p.counted, p.messages.1))
                  (omega (arith, p.counted, p.infos.1)) p.fuel_left in
              rw (sequence_loop, e, p.code_ok)
                (Returns-map _ _ (sequence_loop reader c fuel s n t.1 t.2)
                  (λ u q. IsFilled-trans n a (wanted_left r) t u p q)
                  (subst
                    (λ ws. Returns (IsFilled n t.1 ws) (sequence_loop reader c fuel s n t.1 t.2))
                    p.left rest))
        ]

  -- The arguments that a call for `count` messages leaves, where `ws` are the samples wanted.
  pub record IsSequence (count : ℕ) (ws : List (Sample Message)) (t : Result reader c fuel s)
      : Type 0 where
    pub code_ok : t.0 ≡ ret_ok
    pub counted : t.1.taken ≡ min count (length ws)
    pub message_size : t.1.message_sequence.size ≡ t.1.taken
    pub info_size : t.1.message_info_sequence.size ≡ t.1.taken
    pub messages :
        take t.1.taken t.1.message_sequence.entries ≡ take count (map (λ w. w.message) ws)
    pub infos :
        take t.1.taken t.1.message_info_sequence.entries
        ≡ take count (map (λ w. assign_message_info c w.info) ws)
    pub left : wanted_left t.2 ≡ drop count ws

  sized-IsSequence :
      (count : ℕ) (a : SequenceArguments Message) (ws : List (Sample Message))
      (t : Result reader c fuel s)
      → a.taken ≡ 0
      → IsFilled count a ws t
      → IsSequence count ws (t.0, with_sizes reader c fuel s t.1, t.2)
  sized-IsSequence count a ws t e p = record {
    code_ok = p.code_ok;
    counted = omega (arith, p.counted, e);
    message_size = refl;
    info_size = refl;
    messages = rw e at (p.messages.0);
    infos = rw e at (p.infos.0);
    left = p.left;
  }

  abbrev pub in_range : ℕ → SequenceArguments Message → Bool
  in_range count a =
      ltb 0 count
      && leb count a.message_sequence.capacity
      && leb count a.message_info_sequence.capacity

  -- A call of `__rmw_take_sequence` for `count` messages returns RMW_RET_INVALID_ARGUMENT and sets
  -- nothing if `count` is zero or above a capacity. Otherwise, for a subscription of this
  -- implementation, arrays with as many entries as their capacities and fuel above the length of the
  -- reader's queue, it returns RMW_RET_OK and accesses no entry out of range: the first `count` of
  -- the samples that the subscription wants, or all if they are fewer, are in the first entries of
  -- the two arrays, in order; their number is `*taken` and both sizes; the others are left.
  pub checked_sequence-IsSequence :
      (count : ℕ) (a : SequenceArguments Message) (r : R)
      → IsOurs c s info
      → a.message_sequence.capacity ≡ length a.message_sequence.entries
      → a.message_info_sequence.capacity ≡ length a.message_info_sequence.entries
      → length (laws.queue r) < fuel
      → (if in_range count a
          then Returns
              (IsSequence count (wanted_left r))
              (checked_sequence reader c fuel s count a r)
          else (checked_sequence reader c fuel s count a r ≡ some (ret_invalid_argument, a, r)))
  unfolding checked_sequence take_sequence
  checked_sequence-IsSequence count a r o e1 e2 h = elim (Bool-cases (in_range count a)) [
    | inl e ↦
        let start : SequenceArguments Message = record a { taken = 0 } in
        let good : is_refused reader c fuel s count a ≡ false = ground arith in
        rw (e, checked_sequence, good)
          (with_info-Returns c s info start r _ _ o (
            Returns-then _ _ _ (sequence_loop reader c fuel s count start r)
              (λ t p. sized-IsSequence count start _ t refl p)
              (sequence_loop-IsFilled o count start r (ground arith) (ground arith) h)))
    | inr e ↦
        let bad : is_refused reader c fuel s count a ≡ true = ground arith in
        rw (e, checked_sequence, bad) refl
  ]
