-- ===== src/Scheduling/Tasks.antt =====
-- src/lib/task-scheduler.ts, class `TaskScheduler`: a task that runs again after a delay. The logger is
-- left out.
use verified_paraswap.Prelude.{ℕ, ◌≡◌, refl, Bool, true, false, Option, none, some, if◌then◌else◌}

-- The timer that is set, with its delay, and `preventNewTimer`.
pub record TaskScheduler : Type 0 where
  pub timer : Option ℕ
  pub prevent_new_timer : Bool

abbrev pub idle : TaskScheduler
idle = record { timer = none; prevent_new_timer = false }

unfoldable pub reinitialize_task_scheduler : TaskScheduler → TaskScheduler
reinitialize_task_scheduler t = record t { prevent_new_timer = false }

unfoldable pub clear_timer : TaskScheduler → TaskScheduler
clear_timer t = record t { timer = none }

unfoldable pub set_timer : ℕ → TaskScheduler → TaskScheduler
unfolding clear_timer
set_timer delay t =
    let cleared = clear_timer t in
    if cleared.prevent_new_timer then cleared else record cleared { timer = some delay }

unfoldable pub release_resources : TaskScheduler → TaskScheduler
unfolding clear_timer
release_resources t = clear_timer (record t { prevent_new_timer = true })

module _ (update_period_ms update_retry_period_ms : ℕ) where
  -- `executeTask` waits for the task: what it does before, and what it does once the task has ended or
  -- thrown.
  unfoldable pub start_task : TaskScheduler → TaskScheduler
  unfolding clear_timer
  start_task t = clear_timer t

  unfoldable pub end_task : Bool → TaskScheduler → TaskScheduler
  unfolding set_timer
  end_task succeeded t =
      set_timer (if succeeded then update_period_ms else update_retry_period_ms) t

  -- What may happen to a scheduler that is not initialized again; other calls may fall while a task is
  -- awaited.
  pub data Step (t : TaskScheduler) : TaskScheduler → Type 0 where
    starts : Step t (start_task t)
    ends : (succeeded : Bool) → Step t (end_task succeeded t)
    sets : (delay : ℕ) → Step t (set_timer delay t)
    clears : Step t (clear_timer t)
    releases : Step t (release_resources t)

  pub data Steps (t : TaskScheduler) : TaskScheduler → Type 0 where
    none_yet : Steps t t
    more : {u v : TaskScheduler} → Steps t u → Step u v → Steps t v

  abbrev pub Released : TaskScheduler → Type 0
  Released t = (t.timer ≡ none) × (t.prevent_new_timer ≡ true)

  set_timer-Released : (delay : ℕ) (t : TaskScheduler) → Released t → Released (set_timer delay t)
  unfolding set_timer clear_timer
  set_timer-Released delay t (e, p) = rw p (refl, refl)

  Step-Released : {t u : TaskScheduler} → Step t u → Released t → Released u
  unfolding clear_timer release_resources start_task end_task
  Step-Released starts (e, p) = (refl, p)
  Step-Released {t} (ends succeeded) r =
      set_timer-Released (if succeeded then update_period_ms else update_retry_period_ms) t r
  Step-Released {t} (sets delay) r = set_timer-Released delay t r
  Step-Released clears (e, p) = (refl, p)
  Step-Released releases r = (refl, refl)

  -- After releaseResources no timer is set and none can be, whatever tasks start, end, set or clear
  -- the timer, as long as the scheduler is not initialized again.
  pub release_resources-Released :
      (t : TaskScheduler) {u : TaskScheduler} → Steps (release_resources t) u → Released u
  unfolding release_resources clear_timer
  release_resources-Released t none_yet = (refl, refl)
  release_resources-Released t (more steps step) =
      Step-Released step (release_resources-Released t steps)
