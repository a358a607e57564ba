-- ===== src/Client/Unread.antt =====
-- The responses that a client's callback is told of:
-- rmw_fastrtps_shared_cpp/include/rmw_fastrtps_shared_cpp/custom_client_info.hpp,
-- `ClientListener::on_data_available` and `set_on_new_response_callback`. What runs under the mutex
-- is one step; the unread count that setting a callback asks for before it locks the mutex is a step
-- of its own, so that anything may happen between the two. Any number of threads may stand there.
pub mod Told
use rmw_fastrtps.Prelude.{
  ℕ, ◌<◌, ◌≤◌, zero, suc, ◌+◌, ◌-◌, ◌≡◌, refl, Bool-cases, Bool, true, false, Option, none, some,
  List, [], ◌∷◌, arith, ltb, if◌then◌else◌, inl, inr,
}
use rmw_fastrtps.Event.{Callback}

-- The calls of a data reader: `get_unread_count(true)` gives the number of samples not yet counted
-- by it or taken, and marks them as read.
pub record Reader (R : Type 0) : Type 0 where
  pub get_unread_count : R → ℕ × R
  pub receive : R → R

pub record ReaderLaws {R : Type 0} (reader : Reader R) : Type 0 where
  pub received :
      (r : R) → (reader.get_unread_count (reader.receive r)).0 ≡ (reader.get_unread_count r).0 + 1
  pub marked : (r : R) → (reader.get_unread_count (reader.get_unread_count r).1).0 ≡ 0

-- `setting` has the threads that have the unread count and not yet the mutex, with their callbacks,
-- and `notifications` is how many calls of `on_data_available` are due. The calls of the callback have
-- the last one first.
pub record ClientListener (R : Type 0) : Type 0 where
  pub response_reader : R
  pub on_new_response_cb : Option Callback
  pub data_available_enabled : Bool
  pub setting : List (Callback × ℕ)
  pub notifications : ℕ
  pub calls : List (Callback × ℕ)

abbrev pub call_if_unread : Callback → ℕ → List (Callback × ℕ) → List (Callback × ℕ)
call_if_unread c unread_responses calls =
    if ltb 0 unread_responses then (c, unread_responses) ∷ calls else calls

-- A response; the delivery of a notification; the call that sets or clears the callback, up to the
-- mutex where it sets one; and what one of the threads that set a callback does under the mutex.
pub data ListenerCall : Type 0 where
  response_arrives : ListenerCall
  data_available : ListenerCall
  set_callback : Option Callback → ListenerCall
  mutex_locked : ℕ → ListenerCall

abbrev pub told : List (Callback × ℕ) → ℕ
told [] = 0
told ((c, n) ∷ calls) = n + told calls

abbrev pub arrivals : List ListenerCall → ℕ
arrivals [] = 0
arrivals (response_arrives ∷ ops) = arrivals ops + 1
arrivals (data_available ∷ ops) = arrivals ops
arrivals (set_callback c ∷ ops) = arrivals ops
arrivals (mutex_locked k ∷ ops) = arrivals ops

abbrev pub with_first : {A : Type 0} → A → Option (A × List A) → Option (A × List A)
with_first x none = none
with_first x (some (y, ys)) = some (y, x ∷ ys)

-- One element of a list, and the others.
abbrev pub pick : {A : Type 0} → ℕ → List A → Option (A × List A)
pick n [] = none
pick zero (x ∷ xs) = some (x, xs)
pick (suc n) (x ∷ xs) = with_first x (pick n xs)

module _ {R : Type 0} (reader : Reader R) where
  abbrev pub report_unread : Callback → ClientListener R → ClientListener R
  report_unread c l =
      let (unread_responses, r) = reader.get_unread_count l.response_reader in
      record l { response_reader = r; calls = call_if_unread c unread_responses l.calls }

  unfoldable pub on_data_available : ClientListener R → ClientListener R
  on_data_available l = elim l.on_new_response_cb [ none ↦ l | some c ↦ report_unread c l ]

  -- Up to the mutex, or all of it where there is no callback.
  unfoldable pub set_on_new_response_callback :
      Option Callback → ClientListener R → ClientListener R
  set_on_new_response_callback none l = record l {
    data_available_enabled = false;
    on_new_response_cb = none;
  }
  set_on_new_response_callback (some c) l =
      let (unread_responses, r) = reader.get_unread_count l.response_reader in
      record l { response_reader = r; setting = (c, unread_responses) ∷ l.setting }

  -- The rest of it, behind the mutex.
  unfoldable pub install_callback : Callback → ℕ → ClientListener R → ClientListener R
  install_callback c unread_responses l = record l {
    calls = call_if_unread c unread_responses l.calls;
    on_new_response_cb = some c;
    data_available_enabled = true;
  }

  abbrev pub install_one :
      Option ((Callback × ℕ) × List (Callback × ℕ)) → ClientListener R → ClientListener R
  install_one none l = l
  install_one (some ((c, n), others)) l = install_callback c n (record l { setting = others })

  -- A response makes Fast DDS notify the listener where the mask enables it.
  abbrev pub receive : ClientListener R → ClientListener R
  receive l = record l {
    response_reader = reader.receive l.response_reader;
    notifications = if l.data_available_enabled then l.notifications + 1 else l.notifications;
  }

  unfoldable pub listen : ListenerCall → ClientListener R → ClientListener R
  unfolding on_data_available set_on_new_response_callback install_callback
  listen response_arrives l = receive l
  listen data_available l =
      if ltb 0 l.notifications
      then on_data_available (record l { notifications = l.notifications - 1 })
      else l
  listen (set_callback c) l = set_on_new_response_callback c l
  listen (mutex_locked k) l = install_one (pick k l.setting) l

  -- The calls, the last one first.
  unfoldable pub listen_all : List ListenerCall → ClientListener R → ClientListener R
  unfolding listen
  listen_all [] l = l
  listen_all (op ∷ ops) l = listen op (listen_all ops l)
