-- ===== src/Sync/Chunks.antt =====
-- The application of a calendar's changes in chunks, src/sync/chunkedsyncapply.h and
-- chunkedsyncapply.cpp. Events and provider resources are type parameters, of which the code reads the
-- remote id and the key. What the database and the owner do in a turn is an argument: a `Turn`.
pub mod Parts
pub mod Turns
mod Tests
use Prim.Native.Char.{code}
use omacalendar.Base.{
  ℕ, ◌+◌, ◌-◌, min, String, Bool, ◌&&◌, Option, none, some, List, [], ◌∷◌, ◌++◌, map, ◌==◌,
  if◌then◌else◌, length, take, drop, any, str_eq,
}

pub record Request (E R : Type 0) : Type 0 where
  pub events : List E
  pub deleted_remote_ids : List String
  pub pruned_remote_ids : List String
  pub resources : List R

-- The four indices of a `ChunkedSyncApply`.
pub record Position : Type 0 where
  pub event_index : ℕ
  pub deleted_index : ℕ
  pub pruned_index : ℕ
  pub resource_index : ℕ

-- What one turn cuts off and hands to the database. `applyIcsFeedReplacement`, for the final chunk of a
-- feed, takes no deletions and no resources; a feed's request has none (`IcsService` fills in neither).
pub record Chunk (E R : Type 0) : Type 0 where
  pub events : List E
  pub deleted : List String
  pub pruned : List String
  pub resources : List R
  pub is_final : Bool

abbrev pub changes_per_turn : ℕ
changes_per_turn = 32

abbrev pub take_count : ℕ → ℕ → ℕ
take_count size index = min changes_per_turn (size - index)

-- `mid(index, takeCount(size, index))`.
unfoldable pub slice : {A : Type 0} → List A → ℕ → List A
slice xs index = take (take_count (length xs) index) (drop index xs)

-- What happens in a turn: whether `cancel` was called before it, why the calendar or the batch is
-- refused, if it is, and whether `cancel` is called by a listener of the commit.
pub record Turn : Type 0 where
  pub cancelled : Bool
  pub refusal : Option String
  pub cancelled_by_listener : Bool

-- How a run ends: by `cancel`, by a failure, when the final chunk is applied, or it still waits for
-- its next turn.
pub data End : Type 0 where
  is_cancelled is_completed is_waiting : End
  has_failed : String → End

module _ {E R : Type 0} (resource_of_event : E → String) (canonical_key : R → String) where
  -- The resources of the events that the slice does not hold yet, as `m_resourcesByKey` has them: the
  -- last one with the key.
  find_resource : String → List R → Option R
  find_resource key [] = none
  find_resource key (r ∷ rs) =
      let rest = find_resource key rs in
      elim rest [
        | some later ↦ some later
        | none ↦ if str_eq (canonical_key r) key then some r else none
      ]

  unfoldable pub event_resources : List R → List String → List E → List R
  unfolding find_resource
  event_resources all included [] = []
  event_resources all included (e ∷ es) =
      let key = resource_of_event e in
      let skipped = event_resources all included es in
      let included' = event_resources all (key ∷ included) es in
      if any (str_eq key) included
      then skipped
      else elim (find_resource key all) [ none ↦ skipped | some r ↦ r ∷ included' ]

  unfoldable pub next_position : Request E R → Position → Position
  next_position q p = record {
    event_index = p.event_index + take_count (length q.events) p.event_index;
    deleted_index = p.deleted_index + take_count (length q.deleted_remote_ids) p.deleted_index;
    pruned_index = p.pruned_index + take_count (length q.pruned_remote_ids) p.pruned_index;
    resource_index = p.resource_index + take_count (length q.resources) p.resource_index;
  }

  unfoldable pub is_at_end : Request E R → Position → Bool
  is_at_end q p =
      (p.event_index == length q.events)
      && (p.deleted_index == length q.deleted_remote_ids)
      && (p.pruned_index == length q.pruned_remote_ids)
      && (p.resource_index == length q.resources)

  unfoldable pub next_chunk : Request E R → Position → Chunk E R
  unfolding slice event_resources next_position is_at_end
  next_chunk q p =
      let own = slice q.resources p.resource_index in
      record {
        events = slice q.events p.event_index;
        deleted = slice q.deleted_remote_ids p.deleted_index;
        pruned = slice q.pruned_remote_ids p.pruned_index;
        resources =
            own
            ++ event_resources q.resources (map canonical_key own) (slice q.events p.event_index);
        is_final = is_at_end q (next_position q p);
      }

  -- The chunks that were applied, and how the run ended.
  unfoldable pub run : Request E R → Position → List Turn → List (Chunk E R) × End
  unfolding next_chunk next_position
  run q p [] = ([], is_waiting)
  run q p (t ∷ ts) =
      let c = next_chunk q p in
      let (more, end) = run q (next_position q p) ts in
      if t.cancelled then ([], is_cancelled) else elim t.refusal [
        | some error ↦ ([], has_failed error)
        | none ↦
            if t.cancelled_by_listener
            then (c ∷ [], is_cancelled)
            else if c.is_final
            then (c ∷ [], is_completed)
            else (c ∷ more, end)
      ]
