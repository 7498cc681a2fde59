-- ===== src/Storage/Sequence.antt =====
-- `get_next_id` and the tables of a write transaction (yeetbox-server/src/storage/database.rs).
pub mod Effect
use yeetbox.Common.{ℕ, Option, none, some, Bytes, String}
use yeetbox.Status.{internal, or_refuse}
use yeetbox.Env.{Env, open_seq}
use yeetbox.Words.{add64}
use yeetbox.Storage.State.{Db, Action, pure, lift, ◌>>=◌, ◌>>◌, call, codes}

abbrev pub fs_table_name : Bytes
fs_table_name = codes "fs_table"

-- `unwrap_or(0)`
abbrev pub or_zero : Option ℕ → ℕ
or_zero none = 0
or_zero (some n) = n

module _ ⦃E : Env⦄ where
  -- The last id of the sequence, increased and written back; `message` is what the caller makes of
  -- an error.
  unfoldable pub get_next_id : String → Db → Action (Db × ℕ)
  get_next_id message w = do
    call open_seq message
    last_id ← lift (or_refuse (E.sequences.get w.seq fs_table_name) (internal message))
    let next_id = add64 (or_zero last_id) 1
    (seq, _) ← lift (or_refuse (E.sequences.insert w.seq fs_table_name next_id) (internal message))
    pure (record w { seq = seq }, next_id)

  -- A write transaction that opens a missing table creates it.
  abbrev pub version_table : Db → E.tables.Table
  version_table w = elim w.ver [ none ↦ E.tables.empty | some t ↦ t ]
