-- ===== src/Task/Repository.antt =====
-- internal/infrastructure/repository/task_repo.go over the database, as the engine and the task
-- service use it: an interface with the effect of each query. The database is not under this
-- repository. `none` is a query that failed, and left the rows as they were.
use vm_orbit.Base.{
  ℕ, String, ◌≡◌, true, Option, none, some, List, if◌then◌else◌, is_some, ◌==◌, nat_eq,
}
use vm_orbit.Task.Model.{Task, TaskStatus, with_status, with_progress}

abbrev pub map_option {ℓ κ} : {A : Type ℓ} {B : Type κ} → (A → B) → Option A → Option B
map_option f none = none
map_option f (some a) = some (f a)

pub record TaskRepository : Type 1 where
  pub Db : Type 0
  pub get_by_id : ℕ → Db → Option Task
  -- UPDATE of the columns status and error_message, and of progress.
  pub update_status : ℕ → TaskStatus → String → Db → Option Db
  pub update_progress : ℕ → ℕ → Db → Option Db
  -- At most so many rows whose status is pending.
  pub list_pending : ℕ → Db → Option (List Task)
  pub get-update_status :
      (i j : ℕ) (s : TaskStatus) (m : String) (d d' : Db)
      → update_status i s m d ≡ some d'
      → get_by_id j d'
        ≡ (if i == j then map_option (with_status s m) (get_by_id j d) else get_by_id j d)
  pub get-update_progress :
      (i j p : ℕ) (d d' : Db)
      → update_progress i p d ≡ some d'
      → get_by_id j d'
        ≡ (if i == j then map_option (with_progress p) (get_by_id j d) else get_by_id j d)

-- A database that answers every update.
pub record Answers (repo : TaskRepository) : Type 0 where
  pub status_answers :
      (i : ℕ) (s : TaskStatus) (m : String) (d : repo.Db)
      → is_some (repo.update_status i s m d) ≡ true
  pub progress_answers : (i p : ℕ) (d : repo.Db) → is_some (repo.update_progress i p d) ≡ true
