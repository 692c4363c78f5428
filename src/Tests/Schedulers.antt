-- ===== src/Tests/Schedulers.antt =====
-- Runs of the schedulers and of the log suppressor.
use verified_paraswap.Prelude.{ℕ, List, map, inl, ◌≤◌, ◌≡◌, refl, true, false, some, [], ◌∷◌, arith}
use verified_paraswap.Prelude.Text.{Text}
use verified_paraswap.Scheduling.Tasks.{
  TaskScheduler, set_timer, release_resources, end_task, none_yet, more, sets, ends, Released,
  release_resources-Released,
}
use verified_paraswap.Scheduling.Promises
use verified_paraswap.Scheduling.Promises.{
  PromiseScheduler, initial, add_promise, run, settle, Live, Step, Steps, adds, fires, settles,
  Steps-Live,
}
use verified_paraswap.Scheduling.Promises.Retries.{held, Steps-held}
use verified_paraswap.Scheduling.LogMessages.{
  MessageInfo, MessageData, Line, log_data, clear_message_data, format_log_message,
}
use verified_paraswap.Scheduling.LogMessages.Throttle.{Call, Apart, log_times, log_times-Apart}

abbrev waiting : TaskScheduler
waiting = record { timer = some 500; prevent_new_timer = false }

release_resources-Released_example :
    Released 1000 100 (end_task 1000 100 false (set_timer 7 (release_resources waiting)))
release_resources-Released_example =
    release_resources-Released 1000 100 waiting (more (more none_yet (sets 7)) (ends false))

-- Promises 7 and 8 are added and run; 8 returns true, and 7 does not.
abbrev started : PromiseScheduler
started = run (record (add_promise 8 (add_promise 7 initial)) { timer = false })

steps : Steps initial (settle 0 7 false (settle 1 8 true started))
unfolding add_promise run settle
steps =
    Promises.more
      (Promises.more
        (Promises.more (Promises.more (Promises.more Promises.none_yet (adds 7)) (adds 8))
          (fires refl))
        (settles 1 8 true refl))
      (settles 0 7 false refl)

initial-Live : Live initial
initial-Live = (omega arith, inl (refl, refl))

promises-run : (settle 0 7 false (settle 1 8 true started)).promises ≡ 7 ∷ []
unfolding add_promise run settle
promises-run = refl

Steps-Live_example : Live (settle 0 7 false (settle 1 8 true started))
Steps-Live_example = Steps-Live steps initial-Live

Steps-held_example : held 7 initial ≤ held 7 (settle 0 7 false (settle 1 8 true started))
unfolding steps
Steps-held_example = Steps-held 7 steps initial-Live (tt, (omega arith, (tt, (tt, (tt, tt)))))

abbrev info : MessageInfo
info = record { message = b'm' ∷ []; log_level = 1 }

abbrev seen_before : MessageData
seen_before = record { counter = 0; last_logged_at_ms = 100_000; identification_infos = [] }

abbrev early_call : Call
early_call = record {
  identity = b'p' ∷ [];
  args = [];
  now = 170_000;
  discarded = 170_000;
  published = 170_001;
}

abbrev second_call : Call
second_call = record {
  identity = b'q' ∷ [];
  args = (b'x' ∷ []) ∷ [];
  now = 200_000;
  discarded = 200_000;
  published = 200_000;
}

abbrev late_call : Call
late_call = record early_call { now = 230_002; discarded = 230_002; published = 230_002 }

-- The second call is too early, and counted by the line of the third.
log-run :
    map {B = ℕ × ℕ × List Text}
      (λ (l : Call × Line). (l.0.now, l.1.occurrences, l.1.identities))
      (log_times info seen_before (early_call ∷ second_call ∷ late_call ∷ []))
    ≡ (170_000, 0, []) ∷ (230_002, 1, (b'q' ∷ []) ∷ []) ∷ []
unfolding log_times log_data clear_message_data format_log_message
log-run = refl

log_times-Apart_example :
    Apart info 100_000 (log_times info seen_before (early_call ∷ second_call ∷ late_call ∷ []))
log_times-Apart_example =
    log_times-Apart info seen_before (early_call ∷ second_call ∷ late_call ∷ [])
