-- ===== src/Timestamps.antt =====
-- yeetbox-server/src/utils.rs, `system_time_to_grpc_timestamp`.
use yeetbox.Common.{◌/◌, ◌%◌}
use yeetbox.Common.Int.{ℤ, pos, negsuc, as_i64}
use yeetbox.Status.{Result, ok, panicked}
use yeetbox.Time64.{Timestamp}

-- A `SystemTime` is the number of nanoseconds from the Unix epoch; `duration_since` fails, and
-- `unwrap` panics, at a time before it. The nanoseconds of a second fit in an i32.
unfoldable pub system_time_to_grpc_timestamp : ℤ → Result Timestamp
system_time_to_grpc_timestamp (pos nanos) =
    ok (record { seconds = as_i64 (nanos / 1_000_000_000); nanos = pos (nanos % 1_000_000_000) })
system_time_to_grpc_timestamp (negsuc n) = panicked
