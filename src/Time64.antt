-- ===== src/Time64.antt =====
-- yeetbox-server/src/time64.rs: a time stamp in one 64-bit word, 44 bits of seconds and 20 bits of
-- nanoseconds. A `Time64` is its word; a protobuf timestamp has signed fields.
pub mod RoundTrip
use yeetbox.Common.{
  ℕ, ◌+◌, ◌*◌, ◌/◌, ◌%◌, ◌^◌, ◌<◌, bit_and, bit_or, Bool, Option, none, some, ◌==◌, if◌then◌else◌,
}
use yeetbox.Common.Int.{ℤ, pos, negsuc, as_u64, as_i64}
use yeetbox.Status.{Result, ok, panicked}

abbrev pub Time64 : Type 0
Time64 = ℕ

abbrev pub time64_sec_mask : ℕ
time64_sec_mask = 0xffff_ffff_fff0_0000

abbrev pub time64_nanosec_mask : ℕ
time64_nanosec_mask = 0xf_ffff

abbrev pub time64_unknown_time : Time64
time64_unknown_time = 0

-- `prost_types::Timestamp`: an i64 and an i32.
pub record Timestamp : Type 0 where
  pub seconds : ℤ
  pub nanos : ℤ

unfoldable pub is_unknown : Time64 → Bool
is_unknown t = t == time64_unknown_time

unfoldable pub known : Time64 → Option Time64
unfolding is_unknown
known t = if is_unknown t then none else some t

-- `ret <<= 20` on a u64 drops what leaves the word; `ns as u64` extends the sign.
unfoldable pub from_parts : ℕ → ℤ → Time64
from_parts secs ns =
    let ret = bit_or 0 secs in let shifted = (ret * 2 ^ 20) % 2 ^ 64 in bit_or shifted (as_u64 ns)

-- `now`, at a system time that is given in nanoseconds from the Unix epoch; `duration_since` fails,
-- and `unwrap` panics, at a time before it. `as_secs` and `as_nanos` are the standard library's.
unfoldable pub now : ℤ → Result Time64
unfolding from_parts
now (pos nanos) = ok (from_parts (nanos / 1_000_000_000) (pos (nanos % 1_000_000)))
now (negsuc n) = panicked

unfoldable pub from_timestamp : Timestamp → Time64
unfolding from_parts
from_timestamp value = from_parts (as_u64 value.seconds) value.nanos

-- The nanoseconds are below 2 ^ 20, so the cast to i32 keeps them.
unfoldable pub into_timestamp : Time64 → Timestamp
into_timestamp t = record {
  seconds = as_i64 (bit_and t time64_sec_mask / 2 ^ 20);
  nanos = pos (bit_and t time64_nanosec_mask);
}

unfoldable pub default_time : Time64
default_time = 0
