-- ===== src/Scheduling/LogMessages.antt =====
-- src/lib/log-messages-suppressor.ts, class `LogMessagesSuppressor`: a message is logged at most once in
-- a period, with a count of those in between. Times are in milliseconds; the texts of a line are kept
-- apart instead of being joined.
pub mod Throttle
use verified_paraswap.Prelude.{
  ℕ, zero, suc, ◌+◌, Bool, true, false, Option, none, some, List, [], ◌∷◌, ◌++◌, length, drop, ltb,
  leb, if◌then◌else◌,
}
use verified_paraswap.Prelude.Result.{Result, ok, err, assertion, ◌>>=◌}
use verified_paraswap.Prelude.Text.{Text, Dict, lookup, insert}

abbrev pub default_log_publish_period_ms : ℕ
default_log_publish_period_ms = 60_000

abbrev pub default_log_discard_period_ms : ℕ
default_log_discard_period_ms = 900_000

abbrev pub default_log_max_identities_to_show : ℕ
default_log_max_identities_to_show = 10

-- The level is a number.
pub record MessageInfo : Type 0 where
  pub message : Text
  pub log_level : ℕ

pub record MessageData : Type 0 where
  pub counter : ℕ
  pub last_logged_at_ms : ℕ
  pub identification_infos : List Text

-- What is logged: the identities that are shown, and how many there are if some are not.
pub record Line : Type 0 where
  pub level : ℕ
  pub occurrences : ℕ
  pub text : Text
  pub identities : List Text
  pub total : Option ℕ
  pub args : List Text

abbrev pub is_empty : Text → Bool
is_empty [] = true
is_empty (c ∷ t) = false

-- `_clearMessageData`, which reads the clock.
unfoldable pub clear_message_data : ℕ → MessageData → MessageData
clear_message_data now d = record d {
  counter = 0;
  identification_infos = [];
  last_logged_at_ms = now;
}

unfoldable pub format_log_message : MessageData → MessageInfo → List Text → Line
format_log_message d info args =
    let many = ltb default_log_max_identities_to_show (length d.identification_infos) in
    record {
      level = info.log_level;
      occurrences = d.counter;
      text = info.message;
      identities =
          if many
          then drop default_log_max_identities_to_show d.identification_infos
          else d.identification_infos;
      total = if many then some (length d.identification_infos) else none;
      args = args;
    }

-- The data of a message that has not been seen.
abbrev pub first_data : Text → MessageData
first_data identity = record {
  counter = 0;
  last_logged_at_ms = 0;
  identification_infos = if is_empty identity then [] else identity ∷ [];
}

abbrev pub old_data : Text → Option MessageData → MessageData
old_data identity none = first_data identity
old_data identity (some d) = d

-- `logMessage` on the data of its message, with the clock at the call, and when the data are cleared
-- before and after the line.
unfoldable pub log_data :
    MessageInfo → Text → List Text → ℕ → ℕ → ℕ → MessageData → MessageData × Option Line
unfolding clear_message_data format_log_message
log_data info identity args now discarded published d =
    if ltb (d.last_logged_at_ms + default_log_publish_period_ms) now
    then (let kept =
          if ltb (d.last_logged_at_ms + default_log_discard_period_ms) now
          then clear_message_data discarded d
          else d in
        (clear_message_data published kept, some (format_log_message kept info args)))
    else (
      record d {
        counter = suc d.counter;
        identification_infos =
            if is_empty identity
            then d.identification_infos
            else d.identification_infos ++ identity ∷ [];
      },
      none,
    )

-- The whole call, which throws on a key without a message.
unfoldable pub log_message :
    Dict MessageInfo
    → Text
    → Text
    → List Text
    → ℕ
    → ℕ
    → ℕ
    → Dict MessageData
    → Result (Dict MessageData × Option Line)
unfolding log_data
log_message messages key identity args now discarded published logs = elim (lookup key messages) [
  | none ↦ err (assertion 2)
  | some info ↦
      (let (d, line) =
          log_data info identity args now discarded published
            (old_data identity (lookup key logs)) in
        ok (insert key d logs, line))
]
