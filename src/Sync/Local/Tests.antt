-- ===== src/Sync/Local/Tests.antt =====
-- Tests of the local provider, and its theorem at a concrete input.
use omacalendar.Base.{
  sort_by, ℕ, ◌+◌, String, ◌≡◌, refl, sym, ap, true, none, some, List, [], ◌∷◌, map, ◌==◌, All,
  str_eq, Stamp,
}
use omacalendar.Database.{
  pending, empty_event, update, OutboxState, retry_wait, done, OutboxItem, Store, empty_store,
  Result, ok, failed,
}
use omacalendar.Database.Outbox.{ready_outbox, update_outbox_state, EventWriter}
use omacalendar.Database.Outbox.Complete.{complete_outbox}
use omacalendar.Sync.Local.{operation_state_changed, events_changed, Surroundings, drain}
use omacalendar.Sync.Local.Settled.{IsSettled, WasSending, drain-IsSettled}

abbrev outbox_of : Result Store → List OutboxItem
outbox_of (ok s) = s.outbox
outbox_of (failed f) = []

abbrev writer : EventWriter
writer = record {
  source_event = λ payload. record empty_event { id = payload };
  upsert = λ e s. ok s;
  remove_orphans = λ calendar s. ok s;
  outbox-upsert = λ e s s' h. ap outbox_of (sym h);
  outbox-remove_orphans = λ calendar s s' h. ap outbox_of (sym h);
}

abbrev mutation : ℕ → String → OutboxItem
mutation id account_id = record {
  id = id;
  account_id = account_id;
  calendar_id = "home";
  event_id = "e";
  operation = update;
  state = pending;
  dependency_id = none;
  expected_revision = "";
  recurrence_scope = "";
  payload_json = "";
  attempts = 0;
  next_attempt_at = none;
  not_before = none;
  lease_until = none;
  error_code = "";
  error_message = "";
  updated_at = none;
}

-- Two mutations of a local account, and one of another.
abbrev queue : Store
queue = record empty_store {
  accounts =
      record { id = "here"; provider = "local" } ∷ record { id = "away"; provider = "google" } ∷ [];
  outbox = mutation 1 "here" ∷ mutation 2 "away" ∷ mutation 3 "here" ∷ [];
}

-- The acknowledgement of the third mutation fails at its first statement.
abbrev around : Surroundings
around = record {
  writer = writer;
  left512 = λ m. m;
  same_text = str_eq;
  is_open = true;
  lists = true;
  finds = λ item. true;
  sends = λ item k. true;
  completes = λ item k. item.id == 1;
  waits = λ item k. true;
  now = 5000;
  time_of = λ item. 5000 + item.id;
}

abbrev summary : OutboxItem → ℕ × OutboxState × Stamp
summary r = (r.attempts, r.state, r.next_attempt_at)

drained :
    map summary (drain around "" queue).0.outbox
    ≡ (0, done, some 5001) ∷ (0, pending, none) ∷ (1, retry_wait, some 6003) ∷ []
unfolding drain ready_outbox complete_outbox sort_by update_outbox_state
drained = refl

signalled :
    (drain around "" queue).1
    ≡ operation_state_changed ∷ operation_state_changed ∷ events_changed ("home" ∷ []) ∷ []
unfolding drain ready_outbox complete_outbox sort_by update_outbox_state
signalled = refl

drain-IsSettled_example : All (IsSettled (WasSending queue)) (drain around "" queue).0.outbox
drain-IsSettled_example =
    drain-IsSettled around "" queue (λ item. (refl, refl)) (λ item. (refl, refl))
