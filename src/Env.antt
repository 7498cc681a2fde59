-- ===== src/Env.antt =====
-- What the server calls and does not implement, as a parameter of the model: the database (crate
-- redb), the files (tokio and the operating system), Unicode normalisation (unicode-normalization),
-- ULIDs (ulid) and the system clock. Each interface is a record of operations, with the laws that
-- their documentation states and the proofs use. Every operation may fail.
pub mod Sample
use yeetbox.Common.{
  ℕ, ◌^◌, ◌≤◌, ◌<◌, ◌≡◌, ◌≢◌, Bool, true, false, ◌&&◌, not, Option, none, some, List, [], ◌∷◌, ◌++◌,
  Bytes, bytes_eq, length, take, drop, ltb, ◌==◌, if◌then◌else◌,
}
use yeetbox.Common.Int.{ℤ, pos}
use yeetbox.Time64

-- The lexicographic order of byte strings, in which redb keeps keys of type `&[u8]`.
abbrev pub bytes_lt : Bytes → Bytes → Bool
bytes_lt [] [] = false
bytes_lt [] (y ∷ ys) = true
bytes_lt (x ∷ xs) [] = false
bytes_lt (x ∷ xs) (y ∷ ys) = if ltb x y then true else x == y && bytes_lt xs ys

-- Whether a key lies in the half-open range `lo..hi`.
abbrev pub in_range : Bytes → Bytes → Bytes → Bool
in_range lo hi k = not (bytes_lt k lo) && bytes_lt k hi

-- The value that a list of entries has for a key, and the number of its entries for the key.
module _ {V : Type 0} where
  abbrev pub assoc : Bytes → List (Bytes × V) → Option V
  assoc k [] = none
  assoc k ((j, v) ∷ es) = if bytes_eq j k then some v else assoc k es

  abbrev pub has_key : Bytes → List (Bytes × V) → Bool
  has_key k [] = false
  has_key k ((j, v) ∷ es) = if bytes_eq j k then true else has_key k es

  abbrev pub IsDistinct : List (Bytes × V) → Type 0
  IsDistinct [] = Unit
  IsDistinct ((j, v) ∷ es) = (has_key j es ≡ false) × IsDistinct es

-- A redb table in a transaction. `none` is a storage error; `find` is the contents.
pub record TableOps (V : Type 0) : Type 1 where
  pub Table : Type 0
  pub empty : Table
  pub find : Table → Bytes → Option V
  pub get : Table → Bytes → Option (Option V)
  pub insert : Table → Bytes → V → Option (Table × Option V)
  pub remove : Table → Bytes → Option (Table × Option V)
  -- The entries that the iterator gives, and whether it came to its end without an error.
  pub range : Table → Bytes → Bytes → Option (List (Bytes × V) × Bool)
  pub find-empty : (k : Bytes) → find empty k ≡ none
  pub get-find : (t : Table) (k : Bytes) {r : Option V} → get t k ≡ some r → r ≡ find t k
  pub insert_old :
      (t : Table) (k : Bytes) (v : V) {t' : Table} {old : Option V}
      → insert t k v ≡ some (t', old)
      → old ≡ find t k
  pub find-insert :
      (t : Table) (k : Bytes) (v : V) {t' : Table} {old : Option V}
      → insert t k v ≡ some (t', old)
      → (j : Bytes) → find t' j ≡ (if bytes_eq k j then some v else find t j)
  pub remove_old :
      (t : Table) (k : Bytes) {t' : Table} {old : Option V}
      → remove t k ≡ some (t', old)
      → old ≡ find t k
  pub find-remove :
      (t : Table) (k : Bytes) {t' : Table} {old : Option V}
      → remove t k ≡ some (t', old)
      → (j : Bytes) → find t' j ≡ (if bytes_eq k j then none else find t j)
  pub assoc-range :
      (t : Table) (lo hi : Bytes) {es : List (Bytes × V)}
      → range t lo hi ≡ some (es, true)
      → (k : Bytes) → assoc k es ≡ (if in_range lo hi k then find t k else none)
  pub range-IsDistinct :
      (t : Table) (lo hi : Bytes) {es : List (Bytes × V)} {clean : Bool}
      → range t lo hi ≡ some (es, clean)
      → IsDistinct es

-- How a file operation ends: `failed k` is an `std::io::Error` of kind `k`.
pub data IoResult (A : Type 0) : Type 0 where
  done : A → IoResult A
  failed : ℕ → IoResult A

-- What `OpenOptions::new().append(true).create(c).open(path)` leaves in a file.
abbrev pub or_empty : Option Bytes → Bytes
or_empty none = []
or_empty (some bs) = bs

pub record FileOps : Type 1 where
  pub Disk : Type 0
  pub content : Disk → Bytes → Option Bytes
  pub open_append : Bool → Disk → Bytes → IoResult Disk
  pub open_read : Disk → Bytes → IoResult Unit
  -- `seek` to an offset of an open file; it is no error that the file ends before, but it may be that
  -- the offset is no signed number of 64 bits.
  pub seek : Disk → Bytes → ℕ → IoResult Unit
  -- `write` may take a part of the data only: it says how many bytes it took.
  pub write : Disk → Bytes → Bytes → IoResult (Disk × ℕ)
  pub read : Disk → Bytes → ℕ → ℕ → IoResult Bytes
  pub size : Disk → Bytes → IoResult ℕ
  pub rename : Disk → Bytes → Bytes → IoResult Disk
  pub copy : Disk → Bytes → Bytes → IoResult Disk
  pub remove_file : Disk → Bytes → IoResult Disk
  pub content-open_append :
      (c : Bool) (d : Disk) (p : Bytes) {d' : Disk}
      → open_append c d p ≡ done d'
      → (q : Bytes)
      → content d' q ≡ (if bytes_eq p q then some (or_empty (content d p)) else content d q)
  pub content-write :
      (d : Disk) (p bs : Bytes) {d' : Disk} {n : ℕ}
      → write d p bs ≡ done (d', n)
      → (q : Bytes)
      → content d' q
        ≡ (if bytes_eq p q then some (or_empty (content d p) ++ take n bs) else content d q)
  pub read_part :
      (d : Disk) (p : Bytes) (offset n : ℕ) {bs : Bytes}
      → read d p offset n ≡ done bs
      → (length bs ≤ n) × (bs ≡ take (length bs) (drop offset (or_empty (content d p))))
  pub content-remove_file :
      (d : Disk) (p : Bytes) {d' : Disk}
      → remove_file d p ≡ done d'
      → (q : Bytes) → content d' q ≡ (if bytes_eq p q then none else content d q)
  pub content-rename :
      (d : Disk) (p q : Bytes) {d' : Disk} → rename d p q ≡ done d' → content d' q ≡ content d p
  -- What is renamed to a free name leaves its own.
  pub rename_leaves :
      (d : Disk) (p q : Bytes) {d' : Disk}
      → rename d p q ≡ done d'
      → content d q ≡ none
      → bytes_eq p q ≡ false
      → content d' p ≡ none
  pub open_read_there : (d : Disk) (p : Bytes) → open_read d p ≡ done tt → content d p ≢ none
  -- A file that is copied onto itself may be cut.
  pub content-copy :
      (d : Disk) (p q : Bytes) {d' : Disk}
      → bytes_eq p q ≡ false
      → copy d p q ≡ done d'
      → content d' q ≡ content d p

-- What a caller may hope for: a write takes all of its data.
pub record WritesWhole (F : FileOps) : Type 0 where
  pub whole :
      (d : F.Disk) (p bs : Bytes) {d' : F.Disk} {n : ℕ}
      → F.write d p bs ≡ done (d', n)
      → n ≡ length bs

-- The calls on the database as a whole.
pub data DbCall : Type 0 where
  begin_read begin_write open_fs open_seq open_ver commit : DbCall

pub record Env : Type 1 where
  pub tables : TableOps Bytes
  pub sequences : TableOps ℕ
  pub files : FileOps
  -- Whether a call on the database goes through, by the time of the call.
  pub allows : DbCall → ℕ → Bool
  pub nfkd : Bytes → Bytes
  pub nfkc : Bytes → Bytes
  -- `Display for Ulid`, `Ulid::to_bytes`, `From<[u8; 16]> for Ulid`: a ULID is its u128.
  pub ulid_text : ℕ → Bytes
  pub ulid_to_bytes : ℕ → Bytes
  pub ulid_from_bytes : Bytes → ℕ
  -- `Ulid::new` and `SystemTime::now`, by the time of the call; the latter in nanoseconds from the
  -- Unix epoch.
  pub new_ulid : ℕ → ℕ
  pub system_time : ℕ → ℤ
  -- Whether the build checks sums of machine integers, as the dev profile does and release does not.
  pub overflow_checks : Bool
  pub ulid_to_bytes_length : (u : ℕ) → length (ulid_to_bytes u) ≡ 16
  pub ulid_from_bytes-to_bytes : (u : ℕ) → u < 2 ^ 128 → ulid_from_bytes (ulid_to_bytes u) ≡ u

-- The clock is never before the Unix epoch.
pub record HasClock (E : Env) : Type 0 where
  pub since_epoch : (tick : ℕ) → (nanos : ℕ) × (E.system_time tick ≡ pos nanos)
