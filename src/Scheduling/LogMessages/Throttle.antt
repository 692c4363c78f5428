-- ===== src/Scheduling/LogMessages/Throttle.antt =====
-- The times at which src/lib/log-messages-suppressor.ts logs the lines of one message.
use verified_paraswap.Prelude.{
  ℕ, ◌+◌, ◌<◌, ◌≡◌, refl, Bool, true, false, Option, none, some, List, [], ◌∷◌, ltb, Bool-cases,
  inl, inr, ltb→lt,
}
use verified_paraswap.Prelude.Text.{Text}
use verified_paraswap.Scheduling.LogMessages.{
  MessageInfo, MessageData, Line, default_log_publish_period_ms, clear_message_data, log_data,
}

-- A call of one message: what it says of itself, its arguments, and the clock at the call, when the
-- data are cleared for their age, and when they are cleared after the line.
pub record Call : Type 0 where
  pub identity : Text
  pub args : List Text
  pub now : ℕ
  pub discarded : ℕ
  pub published : ℕ

module _ (info : MessageInfo) where
  -- The call, on the data of its message.
  abbrev called : Call → MessageData → MessageData × Option Line
  called c d = log_data info c.identity c.args c.now c.discarded c.published d

  -- The lines of a run of calls: the call of each, and the line.
  abbrev noted : Call → Option Line → List (Call × Line) → List (Call × Line)
  noted c none rest = rest
  noted c (some l) rest = (c, l) ∷ rest

  unfoldable pub log_times : MessageData → List Call → List (Call × Line)
  unfolding log_data
  log_times d [] = []
  log_times d (c ∷ cs) = noted c (called c d).1 (log_times (called c d).0 cs)

  -- Each line comes more than a period after `last`, the end of the one before.
  abbrev pub Apart : ℕ → List (Call × Line) → Type 0
  Apart last [] = Unit
  Apart last ((c, l) ∷ ls) = (last + default_log_publish_period_ms < c.now) × Apart c.published ls

  abbrev due : Call → MessageData → Bool
  due c d = ltb (d.last_logged_at_ms + default_log_publish_period_ms) c.now

  log_data-quiet :
      (c : Call) (d : MessageData)
      → due c d ≡ false
      → ((called c d).1 ≡ none) × ((called c d).0.last_logged_at_ms ≡ d.last_logged_at_ms)
  unfolding log_data
  log_data-quiet c d e = rw e (refl, refl)

  log_data-due :
      (c : Call) (d : MessageData)
      → due c d ≡ true
      → (l : Line) × ((called c d).1 ≡ some l) × ((called c d).0.last_logged_at_ms ≡ c.published)
  unfolding log_data clear_message_data
  log_data-due c d e = rw e (_, refl, refl)

  -- Of a run of calls with one message, each with identification and arguments of its own, each
  -- line is logged more than the publishing period after the one before was out, and the first more
  -- than that after the time in the data.
  pub log_times-Apart :
      (d : MessageData) (cs : List Call) → Apart d.last_logged_at_ms (log_times d cs)
  unfolding log_times
  log_times-Apart d [] = tt
  log_times-Apart d (c ∷ cs) =
      let rest = log_times-Apart (called c d).0 cs in
      elim (Bool-cases (due c d)) [
        | inr quiet ↦ let (l, last) = log_data-quiet c d quiet in rw l (rw last at rest)
        | inl is_due ↦
            let (line, l, last) = log_data-due c d is_due in
            rw l (ltb→lt _ _ is_due, rw last at rest)
      ]
