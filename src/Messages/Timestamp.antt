-- ===== src/Messages/Timestamp.antt =====
-- The timestamps of messages (src/common/messages/message.rs).
use head_end_system_tpp.Prelude.{ℕ, ◌+◌, ◌*◌, ◌/◌, ◌%◌, ◌<◌, ◌≡◌, ap, arith, Option, some}
use head_end_system_tpp.Messages.{ok, ◌>>=◌, get_timestamp, MsgType, MessagePayload}
use head_end_system_tpp.Messages.Create.{new_message}

module _ (from_timestamp : ℕ → ℕ → Option ℕ) where
  -- What the documentation of `chrono` says, for times as nanoseconds since the epoch.
  abbrev pub IsFromTimestamp : Type 0
  IsFromTimestamp = (s n : ℕ) → n < 1000000000 → from_timestamp s n ≡ some (s * 1000000000 + n)

  -- A message that is created at the second `t` of the epoch is read at the millisecond `t`:
  -- get_timestamp takes the seconds that the constructors write for milliseconds. Messages that are
  -- created `d` seconds apart are read `d` milliseconds apart.
  pub get_timestamp-new_message :
      (t d id seq : ℕ) (type : MsgType) (payload : MessagePayload)
      → IsFromTimestamp
      → ((new_message (some t) type id seq payload >>= get_timestamp from_timestamp)
          ≡ ok (t * 1000000))
        × ((new_message (some (t + d)) type id seq payload >>= get_timestamp from_timestamp)
            ≡ ok (t * 1000000 + d * 1000000))
  unfolding get_timestamp new_message
  get_timestamp-new_message t d id seq type payload law = (
    rw (law (t / 1000) (t % 1000 * 1000000) (omega arith)) (ap ok (omega arith)),
    rw (law ((t + d) / 1000) ((t + d) % 1000 * 1000000) (omega arith)) (ap ok (omega arith)),
  )
