-- ===== src/Database/Outbox/Tests.antt =====
-- A queue of two mutations of one event, the second depending on the first.
use omacalendar.Base.{
  sort_by, ℕ, ◌≡◌, refl, sym, ap, true, false, Option, none, some, List, [], ◌∷◌, map, All,
}
use omacalendar.Database.{
  pending, empty_event, update, OutboxState, OutboxItem, Store, empty_store, Result, ok, failed,
  Sql,
}
use omacalendar.Database.Transactions.{Ended}
use omacalendar.Database.Outbox.{is_held_up, ready_outbox, outbox_items, EventWriter}
use omacalendar.Database.Outbox.Discard.{depends_on, discard_outbox}
use omacalendar.Database.Outbox.Complete.{complete_outbox}
use omacalendar.Database.Outbox.Ready.{IsDiscarded, discard_outbox-Ended, discard_outbox-held}
use omacalendar.Database.Outbox.Steps.{recover_expired, call_outbox}
use omacalendar.Database.Outbox.Leases.{AllLeased, call_outbox-AllLeased}
use omacalendar.Database.Outbox.Finish.{complete_outbox-releases, edit_of, complete_outbox-HasEdits}

abbrev outbox_of : Result Store → List OutboxItem
outbox_of (ok s) = s.outbox
outbox_of (failed f) = []

-- A writer that adds the event in front.
abbrev writer : EventWriter
writer = record {
  source_event = λ payload. record empty_event { id = payload; calendar_id = "home" };
  upsert = λ e s. ok (record s { events = e ∷ s.events });
  remove_orphans = λ calendar s. ok s;
  outbox-upsert = λ e s s' h. ap outbox_of (sym h);
  outbox-remove_orphans = λ calendar s s' h. ap outbox_of (sym h);
}

abbrev mutation : ℕ → OutboxState → Option ℕ → OutboxItem
mutation id state dependency_id = record {
  id = id;
  account_id = "a";
  calendar_id = "home";
  event_id = "e";
  operation = update;
  state = state;
  dependency_id = dependency_id;
  expected_revision = "";
  recurrence_scope = "";
  payload_json = "";
  attempts = 0;
  next_attempt_at = none;
  not_before = none;
  lease_until = none;
  error_code = "";
  error_message = "";
  updated_at = none;
}

abbrev queue : Store
queue = record empty_store {
  events = record empty_event { id = "e"; calendar_id = "home"; dirty = true } ∷ [];
  outbox = mutation 1 pending none ∷ mutation 2 pending (some 1) ∷ [];
}

abbrev runs : Sql
runs k = true

discard_outbox-Ended_example :
    Ended
      (IsDiscarded writer runs queue 1 (some 5))
      queue
      (discard_outbox writer runs 1 (some 5) queue)
discard_outbox-Ended_example = discard_outbox-Ended writer runs 1 (some 5) queue

discard_outbox-held_example : All (λ r. depends_on 1 r ≡ false) []
unfolding discard_outbox ready_outbox sort_by
discard_outbox-held_example =
    discard_outbox-held writer runs 1 (some 5) queue refl (some 9) 100 [] refl

call_outbox-AllLeased_example :
    AllLeased (call_outbox writer (λ m. m) recover_expired runs (some 5) queue).0
call_outbox-AllLeased_example =
    call_outbox-AllLeased writer (λ m. m) recover_expired runs (some 5) queue
      ((λ _ _. refl), ((λ _ _. refl), tt))

complete_outbox-releases_example :
    is_held_up (complete_outbox writer runs 1 none (some 5) queue).0.outbox (some 1) ≡ false
unfolding complete_outbox
complete_outbox-releases_example = complete_outbox-releases writer runs 1 none (some 5) queue refl

complete_outbox-HasEdits_example :
    map edit_of (complete_outbox writer runs 1 (some empty_event) (some 5) queue).0.events
    ≡ map edit_of queue.events
complete_outbox-HasEdits_example =
    complete_outbox-HasEdits writer runs 1 (some empty_event) (some 5) queue
      (mutation 1 pending none) refl refl

ready_test : ready_outbox true queue (some 5) 10 ≡ ok (mutation 1 pending none ∷ [])
unfolding ready_outbox sort_by
ready_test = refl

items_test : outbox_items true queue 1 ≡ ok (mutation 2 pending (some 1) ∷ [])
unfolding outbox_items sort_by
items_test = refl
