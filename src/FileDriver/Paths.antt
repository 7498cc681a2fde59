-- ===== src/FileDriver/Paths.antt =====
-- `strs_to_path` of yeetbox-server/src/storage/file.rs, and `PathBuf` of the standard library on
-- Unix. A path is the list of its components, as `Path::components` gives them and as paths are
-- compared: the root is the component `/`, empty parts and inner `.` are not kept.
pub mod Confined
pub mod Names
use yeetbox.Common.{
  ℕ, Bool, true, false, not, ◌&&◌, ◌||◌, Option, none, some, List, [], ◌∷◌, ◌++◌, Bytes, bytes_eq,
  ◌==◌, if◌then◌else◌,
}
use yeetbox.Status.{Result, panicked, ok, ◌>>=◌}
use yeetbox.Authn.{from_utf8}

abbrev pub FilePath : Type 0
FilePath = List Bytes

abbrev pub root_dir : Bytes
root_dir = b'/' ∷ []

abbrev pub cur_dir : Bytes
cur_dir = b'.' ∷ []

abbrev pub parent_dir : Bytes
parent_dir = b'.' ∷ b'.' ∷ []

abbrev pub is_absolute : Bytes → Bool
is_absolute [] = false
is_absolute (c ∷ s) = c == b'/'

-- The text has a slash.
abbrev pub has_slash : Bytes → Bool
has_slash [] = false
has_slash (c ∷ s) = if c == b'/' then true else has_slash s

-- One of the components leads up.
abbrev pub leads_up : FilePath → Bool
leads_up [] = false
leads_up (c ∷ p) = if bytes_eq c parent_dir then true else leads_up p

-- The parts of a text between its slashes: the first, which there always is, and the others.
abbrev cut : Bool → ℕ → Bytes × List Bytes → Bytes × List Bytes
cut true c (part, parts) = ([], part ∷ parts)
cut false c (part, parts) = (c ∷ part, parts)

abbrev pub split_slash : Bytes → Bytes × List Bytes
split_slash [] = ([], [])
split_slash (c ∷ cs) = cut (c == b'/') c (split_slash cs)

-- The parts that are components wherever they stand: not the empty ones, and not `.`.
abbrev pub is_kept : Bytes → Bool
is_kept part = not (bytes_eq part []) && not (bytes_eq part cur_dir)

abbrev pub kept : List Bytes → FilePath
kept [] = []
kept (part ∷ parts) = let rest = kept parts in if is_kept part then part ∷ rest else rest

abbrev pub parts_of : Bytes × List Bytes → List Bytes
parts_of (part, parts) = part ∷ parts

abbrev relative : Bytes × List Bytes → FilePath
relative (part, parts) = if bytes_eq part cur_dir then part ∷ kept parts else kept (part ∷ parts)

-- `Path::components`. A relative path may begin with `.`.
unfoldable pub components : Bytes → FilePath
components s =
    if is_absolute s then root_dir ∷ kept (parts_of (split_slash s)) else relative (split_slash s)

abbrev without_cur_dir : FilePath → FilePath
without_cur_dir [] = []
without_cur_dir (c ∷ p) = if bytes_eq c cur_dir then p else c ∷ p

abbrev pub is_rooted : FilePath → Bool
is_rooted [] = false
is_rooted (c ∷ p) = bytes_eq c root_dir

-- `self.join(p)`, and `PathBuf::push` for what it leaves: an absolute path replaces the one before.
unfoldable pub join : FilePath → FilePath → FilePath
join [] p = p
join (c ∷ base) p = if is_rooted p then p else (c ∷ base) ++ without_cur_dir p

unfoldable pub push : FilePath → Bytes → FilePath
unfolding components join
push base s = join base (components s)

abbrev but_last : FilePath → FilePath
but_last [] = []
but_last (c ∷ []) = if bytes_eq c root_dir then c ∷ [] else []
but_last (c ∷ d ∷ p) = c ∷ but_last (d ∷ p)

-- `PathBuf::pop`, which leaves the root alone.
unfoldable pub pop : FilePath → FilePath
pop = but_last

unfoldable pub strs_onto : FilePath → List Bytes → Result FilePath
strs_onto path [] = ok path
strs_onto path (s ∷ strs) =
    let rest = strs_onto (push path s) strs in if from_utf8 s then rest else panicked

-- `unwrap` of text that is not UTF-8 panics.
unfoldable pub strs_to_path : List Bytes → Result FilePath
unfolding strs_onto
strs_to_path strs = strs_onto [] strs

-- `self.path.join(strs_to_path(&relpath))`
unfoldable pub target_path : FilePath → List Bytes → Result FilePath
unfolding strs_to_path join
target_path base strs = strs_to_path strs >>= λ path. ok (join base path)
