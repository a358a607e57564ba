-- ===== src/Client/Unread/Told.antt =====
-- What the callback for new responses is told (custom_client_info.hpp).
use rmw_fastrtps.Prelude.{
  ℕ, zero, suc, ◌<◌, ◌≤◌, ◌+◌, ◌-◌, ◌≡◌, refl, Bool-cases, Bool, true, false, Option, none, some,
  List, [], ◌∷◌, arith, ltb, if◌then◌else◌, inl, inr,
}
use rmw_fastrtps.Event.{Callback}
use rmw_fastrtps.Client.Unread.{
  Reader, ReaderLaws, ClientListener, call_if_unread, ListenerCall, response_arrives,
  data_available, set_callback, mutex_locked, told, arrivals, with_first, pick, on_data_available,
  set_on_new_response_callback, install_callback, install_one, listen, listen_all,
}

module _ {R : Type 0} (reader : Reader R) where
  abbrev pub unread : ClientListener R → ℕ
  unread l = (reader.get_unread_count l.response_reader).0

  abbrev pub has_callback : Option Callback → Bool
  has_callback none = false
  has_callback (some c) = true

  abbrev pub after_delivery : ClientListener R → ℕ → ℕ
  after_delivery l n =
      let heard = if has_callback l.on_new_response_cb then 0 else n + 1 in
      if ltb 0 l.notifications then heard else n

  -- How often, since the unread responses were last counted, one arrived that Fast DDS does not notify
  -- the listener of, or a notification was delivered that no callback heard.
  abbrev pub unheard : List ListenerCall → ClientListener R → ℕ
  unheard [] l = 0
  unheard (response_arrives ∷ ops) l =
      let n = unheard ops l in if (listen_all reader ops l).data_available_enabled then n else n + 1
  unheard (data_available ∷ ops) l = after_delivery (listen_all reader ops l) (unheard ops l)
  unheard (set_callback none ∷ ops) l = unheard ops l
  unheard (set_callback (some c) ∷ ops) l = 0
  unheard (mutex_locked k ∷ ops) l = unheard ops l

  -- The mask follows the callback; every response has been told once, is counted by a thread that is
  -- about to tell it, or is unread; and there is a notification for each unread one, but for the
  -- number of those that are not heard of.
  pub record IsTold (arrived not_heard : ℕ) (l : ClientListener R) : Type 0 where
    pub mask : l.data_available_enabled ≡ has_callback l.on_new_response_cb
    pub total : told l.calls + told l.setting + unread l ≡ arrived
    pub few_unread : unread l ≤ l.notifications + not_heard

  module _ (law : ReaderLaws reader) where
    told_lem :
        (c : Callback) (n : ℕ) (calls : List (Callback × ℕ))
        → told (call_if_unread c n calls) ≡ n + told calls
    told_lem c n calls = ground arith

    available-IsTold :
        (arrived n : ℕ) (l : ClientListener R) (o : Option Callback)
        → l.on_new_response_cb ≡ o
        → 0 < l.notifications
        → IsTold arrived n l
        → IsTold arrived
            (if has_callback o then 0 else n + 1)
            (on_data_available reader (record l { notifications = l.notifications - 1 }))
    unfolding on_data_available
    available-IsTold arrived n l none e pos h =
        rw (on_data_available, e)
          (record { mask = h.mask; total = h.total; few_unread = omega (arith, h.few_unread, pos) })
    available-IsTold arrived n l (some c) e pos h =
        rw (on_data_available, e)
          (record {
            mask = h.mask;
            total =
                omega (arith, told_lem c (unread l) l.calls, law.marked l.response_reader, h.total);
            few_unread = omega (arith, law.marked l.response_reader);
          })

    delivered-IsTold :
        (arrived n : ℕ) (l : ClientListener R)
        → IsTold arrived n l
        → IsTold arrived (after_delivery l n) (listen reader data_available l)
    unfolding listen
    delivered-IsTold arrived n l h = elim (Bool-cases (ltb 0 l.notifications)) [
      | inl e ↦
          rw (listen, e)
            (available-IsTold arrived n l l.on_new_response_cb refl (ground (arith, e)) h)
      | inr e ↦ rw (listen, e) h
    ]

    set-IsTold :
        (arrived n : ℕ) (l : ClientListener R) (c : Callback)
        → IsTold arrived n l
        → IsTold arrived 0 (listen reader (set_callback (some c)) l)
    unfolding listen set_on_new_response_callback
    set-IsTold arrived n l c h = record {
      mask = h.mask;
      total = omega (arith, law.marked l.response_reader, h.total);
      few_unread = omega (arith, law.marked l.response_reader);
    }

    clear-IsTold :
        (arrived n : ℕ) (l : ClientListener R)
        → IsTold arrived n l
        → IsTold arrived n (listen reader (set_callback none) l)
    unfolding listen set_on_new_response_callback
    clear-IsTold arrived n l h = record { mask = refl; total = h.total; few_unread = h.few_unread }

    received-IsTold :
        (arrived n : ℕ) (l : ClientListener R)
        → IsTold arrived n l
        → IsTold
            (arrived + 1)
            (if l.data_available_enabled then n else n + 1)
            (listen reader response_arrives l)
    unfolding listen
    received-IsTold arrived n l h = record {
      mask = h.mask;
      total = omega (arith, h.total, law.received l.response_reader);
      few_unread = ground (arith, h.few_unread, law.received l.response_reader);
    }

    abbrev IsPicked : List (Callback × ℕ) → Option ((Callback × ℕ) × List (Callback × ℕ)) → Type 0
    IsPicked setting none = Unit
    IsPicked setting (some ((c, n), others)) = told setting ≡ n + told others

    IsPicked-cons :
        (x : Callback × ℕ) (xs : List (Callback × ℕ))
        (o : Option ((Callback × ℕ) × List (Callback × ℕ)))
        → IsPicked xs o
        → IsPicked (x ∷ xs) (with_first x o)
    IsPicked-cons x xs none h = tt
    IsPicked-cons (d, m) xs (some ((c, n), others)) h = omega (arith, h)

    pick-IsPicked : (k : ℕ) (setting : List (Callback × ℕ)) → IsPicked setting (pick k setting)
    pick-IsPicked k [] = tt
    pick-IsPicked zero ((c, n) ∷ setting) = refl
    pick-IsPicked (suc k) (x ∷ setting) =
        IsPicked-cons x setting (pick k setting) (pick-IsPicked k setting)

    install-IsTold :
        (arrived n : ℕ) (l : ClientListener R) (o : Option ((Callback × ℕ) × List (Callback × ℕ)))
        → IsPicked l.setting o
        → IsTold arrived n l
        → IsTold arrived n (install_one reader o l)
    unfolding install_callback
    install-IsTold arrived n l none split h = h
    install-IsTold arrived n l (some ((c, m), others)) split h = record {
      mask = refl;
      total = omega (arith, told_lem c m l.calls, split, h.total);
      few_unread = h.few_unread;
    }

    -- Whatever order responses arrive, notifications are delivered, and callbacks are set and cleared
    -- in by any number of threads, each response is told to a callback once, or counted by a thread
    -- that has yet to install its callback and tell it, or unread: the numbers that the callbacks were
    -- called with, the counts of those threads and the number of unread responses add up to the
    -- responses that have arrived. No more are unread than there are notifications due, but for those
    -- that no notification is made for or none is heard of, since the unread ones were last counted.
    -- The status is enabled exactly while a callback is set. This is for a listener that starts so,
    -- and a reader that counts each sample as unread until the count is asked for.
    pub listen_all-IsTold :
        (ops : List ListenerCall) (l : ClientListener R)
        → IsTold 0 0 l
        → IsTold (arrivals ops) (unheard ops l) (listen_all reader ops l)
    unfolding listen_all listen
    listen_all-IsTold [] l h = h
    listen_all-IsTold (response_arrives ∷ ops) l h =
        received-IsTold (arrivals ops) (unheard ops l) (listen_all reader ops l)
          (listen_all-IsTold ops l h)
    listen_all-IsTold (data_available ∷ ops) l h =
        delivered-IsTold (arrivals ops) (unheard ops l) (listen_all reader ops l)
          (listen_all-IsTold ops l h)
    listen_all-IsTold (set_callback none ∷ ops) l h =
        clear-IsTold (arrivals ops) (unheard ops l) (listen_all reader ops l)
          (listen_all-IsTold ops l h)
    listen_all-IsTold (set_callback (some c) ∷ ops) l h =
        set-IsTold (arrivals ops) (unheard ops l) (listen_all reader ops l) c
          (listen_all-IsTold ops l h)
    listen_all-IsTold (mutex_locked k ∷ ops) l h =
        let before = listen_all reader ops l in
        install-IsTold (arrivals ops) (unheard ops l) before (pick k before.setting)
          (pick-IsPicked k before.setting) (listen_all-IsTold ops l h)

    -- A response that arrives while a first callback is being set, after the count and before the
    -- mutex, is unread with the callback set, and no notification of it is due.
    response_missed :
        (c : Callback) (l : ClientListener R)
        → l.data_available_enabled ≡ false
        → let l' =
            listen_all reader (mutex_locked 0 ∷ response_arrives ∷ set_callback (some c) ∷ []) l in
          (l'.on_new_response_cb ≡ some c)
          × (unread l' ≡ 1)
          × (l'.notifications ≡ l.notifications)
          × (told l'.calls ≡ unread l + told l.calls)
    unfolding listen_all listen set_on_new_response_callback install_callback
    response_missed c l off = (
      refl,
      omega (
        arith,
        law.marked l.response_reader,
        law.received (reader.get_unread_count l.response_reader).1,
      ),
      rw (off) refl,
      told_lem c (unread l) l.calls,
    )
