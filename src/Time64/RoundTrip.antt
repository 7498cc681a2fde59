-- ===== src/Time64/RoundTrip.antt =====
-- What survives a conversion between `Time64` and a timestamp (yeetbox-server/src/time64.rs).
use yeetbox.Status.{ok}
use yeetbox.Common.{
  ℕ, refl, ◌+◌, ◌*◌, ◌/◌, ◌%◌, ◌^◌, ◌<◌, ◌≡◌, ap, ◌↔◌, arith, zero-bit_or, or_low20, and_low20,
  and_high44,
}
use yeetbox.Common.Int.{pos}
use yeetbox.Time64.{Time64, Timestamp, from_parts, now, from_timestamp, into_timestamp}

-- In range, the two parts lie side by side in the word.
from_parts-eq :
    (secs ns : ℕ) → secs < 2 ^ 44 → ns < 2 ^ 20 → from_parts secs (pos ns) ≡ secs * 1048576 + ns
unfolding from_parts
from_parts-eq secs ns h k = rw zero-bit_or (rw small (or_low20 secs ns (omega arith)))
  where
    small : (secs * 2 ^ 20) % 2 ^ 64 ≡ secs * 1048576
    small = omega arith

into_timestamp-eq :
    (t : ℕ)
    → t < 2 ^ 64
    → into_timestamp t ≡ record { seconds = pos (t / 1048576); nanos = pos (t % 1048576) }
unfolding into_timestamp
into_timestamp-eq t h = rw (and_low20 t, and_high44 t h) (ground arith)

into_timestamp-parts :
    (secs ns : ℕ)
    → secs < 2 ^ 44
    → ns < 2 ^ 20
    → into_timestamp (secs * 1048576 + ns) ≡ record { seconds = pos secs; nanos = pos ns }
into_timestamp-parts secs ns h k =
    rw (into_timestamp-eq (secs * 1048576 + ns) (omega arith)) (rw (high, low_part))
  where
    high : (secs * 1048576 + ns) / 1048576 ≡ secs
    high = omega arith

    low_part : (secs * 1048576 + ns) % 1048576 ≡ ns
    low_part = omega arith

-- Seconds below 2 ^ 44 and nanoseconds below 2 ^ 20 come back from the word as they were.
pub into_timestamp-from_parts :
    (secs ns : ℕ)
    → secs < 2 ^ 44
    → ns < 2 ^ 20
    → into_timestamp (from_parts secs (pos ns)) ≡ record { seconds = pos secs; nanos = pos ns }
into_timestamp-from_parts secs ns h k =
    rw (from_parts-eq secs ns h k) (into_timestamp-parts secs ns h k)

-- The nanoseconds that any word gives are below 2 ^ 20.
nanos-into_timestamp : (t : ℕ) (n : ℕ) → (into_timestamp t).nanos ≡ pos n → n < 2 ^ 20
unfolding into_timestamp
nanos-into_timestamp t n e = ground (arith, and_low20 t)

-- A timestamp whose seconds are below 2 ^ 44 and whose nanoseconds are not negative survives the
-- conversion to `Time64` and back exactly when its nanoseconds are below 2 ^ 20 = 1048576; the
-- protobuf type allows them up to 999999999.
pub timestamp_survives_iff :
    (secs ns : ℕ)
    → secs < 2 ^ 44
    → let t : Timestamp = record { seconds = pos secs; nanos = pos ns } in
      (into_timestamp (from_timestamp t) ≡ t) ↔ (ns < 2 ^ 20)
unfolding from_timestamp
timestamp_survives_iff secs ns h = (
  λ e. nanos-into_timestamp _ ns (ap (λ (t : Timestamp). t.nanos) e),
  λ k. into_timestamp-from_parts secs ns h k,
)

-- The time stamp of a system time keeps its whole seconds, while they are below 2 ^ 44, and of the
-- rest keeps the nanoseconds within the millisecond.
pub into_timestamp-now :
    (t : ℕ)
    → t / 1_000_000_000 < 2 ^ 44
    → (stamp : Time64) × (now (pos t) ≡ ok stamp)
      × (into_timestamp stamp
          ≡ record { seconds = pos (t / 1_000_000_000); nanos = pos (t % 1_000_000) })
unfolding now
into_timestamp-now t h =
    (_, refl, into_timestamp-from_parts (t / 1_000_000_000) (t % 1_000_000) h (omega arith))

-- Time stamps can run backwards: the millisecond is not kept, so in every second the time stamp of
-- its first full millisecond is below that of the nanosecond before.
pub now_runs_back :
    (s : ℕ)
    → s < 2 ^ 44
    → (later : Time64) × (earlier : Time64) × (now (pos (s * 1_000_000_000 + 1_000_000)) ≡ ok later)
      × (now (pos (s * 1_000_000_000 + 999_999)) ≡ ok earlier)
      × (later < earlier)
unfolding now
now_runs_back s h = (
  _,
  _,
  refl,
  refl,
  rw (secs, rest, secs', rest')
      (rw (from_parts-eq s 0 h (omega arith), from_parts-eq s 999_999 h (omega arith))
        (omega arith)),
)
  where
    secs : (s * 1_000_000_000 + 1_000_000) / 1_000_000_000 ≡ s
    secs = omega arith

    rest : (s * 1_000_000_000 + 1_000_000) % 1_000_000 ≡ 0
    rest = omega arith

    secs' : (s * 1_000_000_000 + 999_999) / 1_000_000_000 ≡ s
    secs' = omega arith

    rest' : (s * 1_000_000_000 + 999_999) % 1_000_000 ≡ 999_999
    rest' = omega arith
