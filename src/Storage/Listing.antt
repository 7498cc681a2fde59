-- ===== src/Storage/Listing.antt =====
-- `DatabaseStorage::list` (yeetbox-server/src/storage/database.rs).
pub mod Effect
use yeetbox.Common.{
  Bool, true, false, Option, none, some, List, [], ◌∷◌, Bytes, length, drop, ltb, if◌then◌else◌,
}
use yeetbox.Status.{Result, ok, err, panicked, internal, or_refuse}
use yeetbox.Env.{Env, begin_read, open_fs}
use yeetbox.Words.{add64, to_be_bytes}
use yeetbox.Time64.{Time64, Timestamp, known, into_timestamp}
use yeetbox.Records.{FsRecordValue, ObjectType, size_of_record, obj_type, read_record}
use yeetbox.Storage.State.{Action, lift, gets, ◌>>=◌, ◌>>◌, call}
use yeetbox.Storage.Path.{Text, descend_nfkc}
use yeetbox.Storage.Request.{ListArg, require_target}

-- `FsAttributes` and `ListEntry` of remotefs.proto, as far as `list` fills them.
pub record FsAttributes : Type 0 where
  pub type : Option ObjectType
  pub create_time : Option Timestamp
  pub modify_time : Option Timestamp
  pub access_time : Option Timestamp
  pub change_time : Option Timestamp
  pub delete_time : Option Timestamp

pub record ListEntry : Type 0 where
  pub relative_name : Text
  pub attrs : FsAttributes

-- `time.known().map(|t| t.into())`
unfoldable pub known_timestamp : Time64 → Option Timestamp
unfolding known into_timestamp
known_timestamp t = elim (known t) [ none ↦ none | some u ↦ some (into_timestamp u) ]

unfoldable pub attributes_of : FsRecordValue → FsAttributes
unfolding known_timestamp obj_type
attributes_of r = record {
  type = obj_type r;
  create_time = known_timestamp r.create_time;
  modify_time = known_timestamp r.modify_time;
  access_time = known_timestamp r.access_time;
  change_time = known_timestamp r.change_time;
  delete_time = known_timestamp r.delete_time;
}

-- The body of the loop over the entries of the range.
unfoldable pub list_entry : Bytes × Bytes → Result ListEntry
unfolding attributes_of read_record
list_entry (key, value) =
    if ltb (length key) 8
    then err (internal "corrupted fs record")
    else if ltb (length value) size_of_record
    then err (internal "corrupted fs record")
    else ok (record {
      relative_name = drop size_of_record value;
      attrs = attributes_of (read_record value);
    })

abbrev pub prepend : Result ListEntry → Result (List ListEntry) → Result (List ListEntry)
prepend (ok e) (ok es) = ok (e ∷ es)
prepend (ok e) (err s) = err s
prepend (ok e) panicked = panicked
prepend (err s) rest = err s
prepend panicked rest = panicked

-- The loop: `clean` is whether the iterator ends without an error.
unfoldable pub list_entries : Bool → List (Bytes × Bytes) → Result (List ListEntry)
unfolding list_entry
list_entries true [] = ok []
list_entries false [] = err (internal "failed to continue listing entries")
list_entries clean (e ∷ es) = prepend (list_entry e) (list_entries clean es)

module _ ⦃E : Env⦄ where
  unfoldable pub list : ListArg → Action (List ListEntry)
  list req = do
    target ← lift (require_target req.target)
    call begin_read "could not read from database"
    call open_fs "could not read from fs table"
    snapshot ← gets (λ s. s.db)
    parent_id ← lift (descend_nfkc target.path snapshot.fs)
    let next_id = add64 parent_id 1
    (entries, clean) ← lift (
        or_refuse (E.tables.range snapshot.fs (to_be_bytes 8 parent_id) (to_be_bytes 8 next_id))
          (internal "error trying to list subordinate entries"))
    lift (list_entries clean entries)
