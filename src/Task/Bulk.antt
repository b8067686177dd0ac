-- ===== src/Task/Bulk.antt =====
-- internal/task/bulk_handlers.go: handleBulkParent, which enqueues the children of a bulk task and
-- polls their rows until all have ended. What a round of the poll sees is an argument. Go visits the
-- keys of a map in any order: here in that of the list. The percentage of done children is computed
-- in float64, and is a parameter.
pub mod Poll
pub mod Enqueue
use vm_orbit.Base.{
  ℕ, suc, ◌+◌, String, ◌⊎◌, inl, inr, Bool, true, false, not, ◌&&◌, Option, some, List, [], ◌∷◌,
  ◌++◌, if◌then◌else◌, nat_eq, string_eq, length, ℤ,
}
use vm_orbit.Task.Model.{Task, TaskStatus}

-- What the handler asks for: reports of progress, entries of the queue, and statuses of children.
pub data BulkWrite : Type 0 where
  progress : ℕ → BulkWrite
  enqueue_child : ℕ → ℤ → BulkWrite
  child_queued : ℕ → BulkWrite

pub data BulkEnd : Type 0 where
  finished : List ℕ → BulkEnd
  was_cancelled nothing_to_do still_waiting : BulkEnd
  loading_failed : String → BulkEnd

-- A round: whether the task is seen to be cancelled before it, the children's rows (`none` when a row
-- cannot be read), and whether the context ends during the pause after it.
pub record Round : Type 0 where
  pub is_cancelled : Bool
  pub row : ℕ → Option TaskStatus
  pub context_done : Bool

pub data ChildEnd : Type 0 where
  under_way succeeded failed : ChildEnd

unfoldable pub child_end : Option TaskStatus → ChildEnd
child_end (some TaskStatus.completed) = succeeded
child_end (some TaskStatus.failed) = failed
child_end (some TaskStatus.cancelled) = failed
child_end (some TaskStatus.timed_out) = failed
child_end _ = under_way

-- The children that are left after a round, and the failed ones.
pub record Children : Type 0 where
  pub remaining : List ℕ
  pub failed : List ℕ
  pub completed : ℕ

unfoldable pub check_child : ChildEnd → ℕ → Children → Children
check_child under_way child c = record c { remaining = c.remaining ++ (child ∷ []) }
check_child succeeded child c = record c { completed = suc c.completed }
check_child failed child c = record {
  remaining = c.remaining;
  failed = c.failed ++ (child ∷ []);
  completed = suc c.completed;
}

-- Each remaining child in turn; `c.remaining` gathers those that are kept.
unfoldable pub check_children : (ℕ → Option TaskStatus) → List ℕ → Children → Children
check_children row [] c = c
check_children row (child ∷ children) c =
    check_children row children (check_child (child_end (row child)) child c)

unfoldable pub child_ids : List Task → List ℕ
child_ids [] = []
child_ids (t ∷ ts) = t.id ∷ child_ids ts

-- `enqueues` is whether the queue takes a child; the others are left to the poller. The status of a
-- child is not looked at.
unfoldable pub enqueue_children : (ℕ → Bool) → List Task → List BulkWrite
enqueue_children enqueues [] = []
enqueue_children enqueues (t ∷ ts) =
    enqueue_child t.id t.priority
    ∷ (if enqueues t.id
        then child_queued t.id ∷ enqueue_children enqueues ts
        else enqueue_children enqueues ts)

abbrev pub is_nil : List ℕ → Bool
is_nil [] = true
is_nil (_ ∷ _) = false

unfoldable pub check_round : Round → Children → Children
check_round q c =
    check_children q.row c.remaining
      (record { remaining = []; failed = c.failed; completed = c.completed })

-- `share done total` is int(float64(done)/float64(total)*85).
module _ (share : ℕ → ℕ → ℕ) (total : ℕ) where
  -- The rounds of the poll; when they are over and children remain, the handler still waits.
  unfoldable pub poll : List Round → Children → List BulkWrite × BulkEnd
  poll [] c =
      if is_nil c.remaining then (progress 100 ∷ [], finished c.failed) else ([], still_waiting)
  poll (q ∷ rounds) c =
      let next = check_round q c in
      let rest = poll rounds next in
      let report = progress (10 + share next.completed total) in
      if is_nil c.remaining
      then (progress 100 ∷ [], finished c.failed)
      else if q.is_cancelled
      then ([], was_cancelled)
      else if not (is_nil next.remaining) && q.context_done
      then (report ∷ [], was_cancelled)
      else (report ∷ rest.0, rest.1)

unfoldable pub children_loaded :
    (ℕ → ℕ → ℕ) → (ℕ → Bool) → List Round → String ⊎ List Task → List BulkWrite × BulkEnd
children_loaded share enqueues rounds (inl e) = ([], loading_failed e)
children_loaded share enqueues rounds (inr []) = ([], nothing_to_do)
children_loaded share enqueues rounds (inr (t ∷ ts)) =
    let children = t ∷ ts in
    let ended =
      poll share (length children) rounds
        (record { remaining = child_ids children; failed = []; completed = 0 }) in
    (enqueue_children enqueues children ++ (progress 10 ∷ ended.0), ended.1)

-- `cancelled_at_start` is the check before the children are loaded. A parent with failed children
-- ends without an error.
unfoldable pub handle_bulk_parent :
    (ℕ → ℕ → ℕ) → (ℕ → Bool) → Bool → List Round → String ⊎ List Task → List BulkWrite × BulkEnd
handle_bulk_parent share enqueues cancelled_at_start rounds children =
    let ended = children_loaded share enqueues rounds children in
    if cancelled_at_start then (progress 5 ∷ [], was_cancelled) else (progress 5 ∷ ended.0, ended.1)
