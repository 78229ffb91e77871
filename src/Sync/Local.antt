-- ===== src/Sync/Local.antt =====
-- `LocalProvider::drain` of src/sync/localprovider.cpp: the mutations of local calendars are
-- acknowledged without a server.
mod Settled
mod Tests
use omacalendar.Base.{
  ℕ, suc, ◌+◌, String, Bool, false, not, ◌&&◌, ◌||◌, none, some, List, [], ◌∷◌, ◌++◌, if◌then◌else◌,
  select, str_eq, is_empty,
}
use omacalendar.Database.{
  AccountRow, sending, retry_wait, OutboxItem, Store, Result, ok, failed, Sql,
}
use omacalendar.Database.Outbox.{ready_outbox, Change, update_outbox_state, EventWriter}
use omacalendar.Database.Outbox.Complete.{acknowledged, complete_outbox}
use omacalendar.Sync.Coordinator.{local, find_account}

-- The signals, of a failed status its account and error code.
pub data Signal : Type 0 where
  status_error : String → String → Signal
  operation_state_changed : Signal
  events_changed : List String → Signal

-- What the database and the clock do in a drain: whether the reads and the statements of each call
-- run, and the time at each mutation; QString's comparison without case.
pub record Surroundings : Type 0 where
  pub writer : EventWriter
  pub left512 : String → String
  pub same_text : String → String → Bool
  pub is_open : Bool
  pub lists : Bool
  pub finds : OutboxItem → Bool
  pub sends : OutboxItem → Sql
  pub completes : OutboxItem → Sql
  pub waits : OutboxItem → Sql
  pub now : ℕ
  pub time_of : OutboxItem → ℕ

pub record Drained : Type 0 where
  pub store : Store
  pub changed_calendars : List String
  pub signals : List Signal

abbrev pub belongs : Surroundings → String → Result AccountRow → OutboxItem → Bool
belongs d account_id (failed f) item = false
belongs d account_id (ok account) item =
    d.same_text account.provider "local"
    && (is_empty account_id || str_eq item.account_id account_id)

abbrev pub to_sending : OutboxItem → ℕ → Change
to_sending item now = record {
  state = sending;
  attempts = item.attempts;
  next_attempt_at = some now;
  error_code = "";
  error_message = "";
}

abbrev pub to_retry : OutboxItem → ℕ → Change
to_retry item now = record {
  state = retry_wait;
  attempts = suc item.attempts;
  next_attempt_at = some (now + 1000);
  error_code = "local_acknowledgment_failed";
  error_message = "The local mutation could not be acknowledged";
}

unfoldable pub after_complete :
    Surroundings → OutboxItem → Drained → Store × Result (Unit {0}) → Drained
after_complete d item out (s, ok u) = record {
  store = s;
  changed_calendars = out.changed_calendars ++ (item.calendar_id ∷ []);
  signals = out.signals ++ (operation_state_changed ∷ []);
}
after_complete d item out (s, failed f) = record out {
  store =
      (update_outbox_state d.left512 (d.waits item) s item.id (to_retry item (d.time_of item))
        (some (d.time_of item))).0;
  signals = out.signals ++ (operation_state_changed ∷ []);
}

unfoldable pub after_send :
    Surroundings → OutboxItem → Drained → Store × Result (Unit {0}) → Drained
unfolding after_complete
after_send d item out (s, failed f) = record out { store = s }
after_send d item out (s, ok u) =
    after_complete d item out
      (complete_outbox d.writer (d.completes item) item.id none (some (d.time_of item)) s)

unfoldable pub drain_item : Surroundings → String → OutboxItem → Drained → Drained
unfolding after_send
drain_item d account_id item out =
    if belongs d account_id (find_account (d.finds item) out.store item.account_id) item
    then after_send d item out (
        update_outbox_state d.left512 (d.sends item) out.store item.id
          (to_sending item (d.time_of item)) (some (d.time_of item)))
    else out

unfoldable pub drain_all : Surroundings → String → List OutboxItem → Drained → Drained
unfolding drain_item
drain_all d account_id [] out = out
drain_all d account_id (item ∷ items) out =
    drain_all d account_id items (drain_item d account_id item out)

-- `QStringList::removeDuplicates`.
unfoldable pub remove_duplicates : List String → List String
remove_duplicates [] = []
remove_duplicates (x ∷ xs) = x ∷ select (λ y. not (str_eq y x)) (remove_duplicates xs)

abbrev pub announce : List String → List Signal
announce [] = []
announce (c ∷ cs) = events_changed (c ∷ cs) ∷ []

unfoldable pub drain_ready :
    Surroundings → String → Store → Result (List OutboxItem) → Store × List Signal
unfolding drain_all remove_duplicates
drain_ready d account_id s (failed f) = (s, status_error account_id "database_error" ∷ [])
drain_ready d account_id s (ok items) =
    let out =
      drain_all d account_id items (record { store = s; changed_calendars = []; signals = [] }) in
    (out.store, out.signals ++ announce (remove_duplicates out.changed_calendars))

unfoldable pub drain : Surroundings → String → Store → Store × List Signal
unfolding drain_ready
drain d account_id s =
    if d.is_open
    then drain_ready d account_id s (ready_outbox d.lists s (some d.now) 100)
    else (s, status_error account_id "database_unavailable" ∷ [])
