-- ===== src/Storage/Path/Keys.antt =====
-- Keys of the file system table tell parents apart, and stored ids name the same parent again.
use yeetbox.Common.{
  ℕ, ◌^◌, ◌<◌, ◌≡◌, sym, ap, ◌∙◌, ◌++◌, Bytes, take, drop, take-append, drop-append,
}
use yeetbox.Env.{Env}
use yeetbox.Words.{to_be_bytes, from_be_bytes, to_le_bytes, byte_bound}
use yeetbox.Words.RoundTrip.{
  from_be_bytes-to_be_bytes, to_be_bytes-from_be_bytes, length-to_be_bytes, to_le_bytes-AllBytes,
}
use yeetbox.Records.{FileSystemId, FsRecordValue, bytes_of_record}
use yeetbox.Storage.Path.{Text, child_id, make_key}

-- A prefix of eight bytes is read back from a key, and so is the rest.
take-key : (n : ℕ) (name : Bytes) → take 8 (to_be_bytes 8 n ++ name) ≡ to_be_bytes 8 n
take-key n name = rw (length-to_be_bytes 8 n) at (take-append (to_be_bytes 8 n) name)

drop-key : (n : ℕ) (name : Bytes) → drop 8 (to_be_bytes 8 n ++ name) ≡ name
drop-key n name = rw (length-to_be_bytes 8 n) at (drop-append (to_be_bytes 8 n) name)

be_round : (n : ℕ) → n < 2 ^ 64 → from_be_bytes (to_be_bytes 8 n) ≡ n
unfolding byte_bound
be_round n h = from_be_bytes-to_be_bytes 8 n h

module _ ⦃E : Env⦄ where
  -- Keys with parents below 2 ^ 64 are equal only if the parents are and the names have the same
  -- normal form.
  pub make_key-injective :
      (p q : FileSystemId) (n m : Text)
      → p < 2 ^ 64
      → q < 2 ^ 64
      → make_key p n ≡ make_key q m
      → (p ≡ q) × (E.nfkd n ≡ E.nfkd m)
  unfolding make_key
  make_key-injective p q n m hp hq e = (
    sym (be_round p hp)
        ∙ ap from_be_bytes (sym (take-key p (E.nfkd n)) ∙ ap (take 8) e ∙ take-key q (E.nfkd m))
        ∙ be_round q hq,
    sym (drop-key p (E.nfkd n)) ∙ ap (drop 8) e ∙ drop-key q (E.nfkd m),
  )

-- The prefix that the children of a stored record have in their keys is the id of the record in
-- the byte order in which it is stored.
pub to_be_bytes-child_id :
    (r : FsRecordValue) (name : Text)
    → to_be_bytes 8 (child_id (bytes_of_record r ++ name)) ≡ to_le_bytes 8 r.id
unfolding child_id bytes_of_record
to_be_bytes-child_id r name =
    to_be_bytes-from_be_bytes (to_le_bytes 8 r.id) (to_le_bytes-AllBytes 8 r.id)
