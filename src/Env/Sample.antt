-- ===== src/Env/Sample.antt =====
-- An implementation of the environment's interfaces by association lists, at which the theorems
-- that take an environment are evaluated.
use yeetbox.Common.{
  ltb, ℕ, zero, suc, ◌+◌, ◌≤◌, ◌<◌, ◌^◌, ◌≡◌, ◌≢◌, refl, Bool, true, false, Option, none, some,
  List, [], ◌∷◌, ◌++◌, Bytes, bytes_eq, bytes_eq_iff, bytes_eq_refl, length, take, drop,
  length-take, arith, Option-cases, inl, inr, if◌then◌else◌,
}
use yeetbox.Common.Int.{pos}
use yeetbox.Env.{
  Env, TableOps, FileOps, IoResult, done, failed, assoc, has_key, IsDistinct, in_range, or_empty,
}
use yeetbox.Words.{to_be_bytes, from_be_bytes, byte_bound}
use yeetbox.Words.RoundTrip.{length-to_be_bytes, from_be_bytes-to_be_bytes}

module _ {V : Type 0} where
  abbrev without : Bytes → List (Bytes × V) → List (Bytes × V)
  without k [] = []
  without k ((j, v) ∷ es) = let rest = without k es in if bytes_eq k j then rest else (j, v) ∷ rest

  -- The last entry for each key of the range.
  abbrev entries : (Bytes → Bool) → List (Bytes × V) → List (Bytes × V)
  entries p [] = []
  entries p ((k, v) ∷ es) =
      let rest = without k (entries p es) in if p k then (k, v) ∷ rest else rest

  pub assoc-without :
      (k j : Bytes) (es : List (Bytes × V))
      → assoc j (without k es) ≡ (if bytes_eq k j then none else assoc j es)
  assoc-without k j [] = ground arith
  assoc-without k j ((i, v) ∷ es) =
      ground (arith, assoc-without k j es, bytes_eq_iff k i, bytes_eq_iff i j, bytes_eq_iff k j)

  has_key-without :
      (k j : Bytes) (es : List (Bytes × V))
      → has_key j (without k es) ≡ (if bytes_eq k j then false else has_key j es)
  has_key-without k j [] = ground arith
  has_key-without k j ((i, v) ∷ es) =
      ground (arith, has_key-without k j es, bytes_eq_iff k i, bytes_eq_iff i j, bytes_eq_iff k j)

  without-IsDistinct :
      (k : Bytes) (es : List (Bytes × V)) → IsDistinct es → IsDistinct (without k es)
  without-IsDistinct k [] h = tt
  without-IsDistinct k ((i, v) ∷ es) h =
      ground (arith, without-IsDistinct k es h.1, has_key-without k i es)

  pub entries-IsDistinct : (p : Bytes → Bool) (es : List (Bytes × V)) → IsDistinct (entries p es)
  entries-IsDistinct p [] = tt
  entries-IsDistinct p ((k, v) ∷ es) = ground (
    arith,
    without-IsDistinct k (entries p es) (entries-IsDistinct p es),
    has_key-without k k (entries p es),
    bytes_eq_refl k,
  )

  pub assoc-entries :
      (p : Bytes → Bool) (k : Bytes) (es : List (Bytes × V))
      → assoc k (entries p es) ≡ (if p k then assoc k es else none)
  assoc-entries p k [] = ground arith
  assoc-entries p k ((j, v) ∷ es) =
      ground (arith, assoc-without j k (entries p es), assoc-entries p k es, bytes_eq_iff j k)

module _ {V : Type 0} where
  abbrev with_old : List (Bytes × V) → Option V → Option (List (Bytes × V) × Option V)
  with_old t old = some (t, old)

  abbrev with_end : List (Bytes × V) → Bool → Option (List (Bytes × V) × Bool)
  with_end es clean = some (es, clean)

  pub found_value : {a r : Option V} → some a ≡ some r → r ≡ a
  found_value e = cc

  pub replaced_value :
      {t t' : List (Bytes × V)} {a r : Option V} → with_old t' a ≡ some (t, r) → r ≡ a
  replaced_value e = cc

  pub inserted_value :
      (t : List (Bytes × V)) (k : Bytes) (v : V) {t' : List (Bytes × V)} {old : Option V}
      → with_old ((k, v) ∷ t) (assoc k t) ≡ some (t', old)
      → (j : Bytes) → assoc j t' ≡ (if bytes_eq k j then some v else assoc j t)
  inserted_value t k v e j = ground arith

  pub removed_value :
      (t : List (Bytes × V)) (k : Bytes) {t' : List (Bytes × V)} {old : Option V}
      → with_old (without k t) (assoc k t) ≡ some (t', old)
      → (j : Bytes) → assoc j t' ≡ (if bytes_eq k j then none else assoc j t)
  removed_value t k e j = ground (arith, assoc-without k j t)

  pub ranged_value :
      (t : List (Bytes × V)) (lo hi : Bytes) {es : List (Bytes × V)}
      → with_end (entries (in_range lo hi) t) true ≡ some (es, true)
      → (k : Bytes) → assoc k es ≡ (if in_range lo hi k then assoc k t else none)
  ranged_value t lo hi e k = ground (arith, assoc-entries (in_range lo hi) k t)

  pub ranged-IsDistinct :
      (t : List (Bytes × V)) (lo hi : Bytes) {es : List (Bytes × V)} {clean : Bool}
      → with_end (entries (in_range lo hi) t) true ≡ some (es, clean)
      → IsDistinct es
  ranged-IsDistinct t lo hi e = ground (arith, entries-IsDistinct (in_range lo hi) t)

-- A table is the list of what was inserted, the last first.
abbrev pub list_table : (V : Type 0) → TableOps V
list_table V = record {
  Table = List (Bytes × V);
  empty = [];
  find = λ t k. assoc k t;
  get = λ t k. some (assoc k t);
  insert = λ t k v. some ((k, v) ∷ t, assoc k t);
  remove = λ t k. some (without k t, assoc k t);
  range = λ t lo hi. some (entries (in_range lo hi) t, true);
  find-empty = λ k. refl;
  get-find = λ t k e. found_value e;
  insert_old = λ t k v e. replaced_value e;
  find-insert = λ t k v e. inserted_value t k v e;
  remove_old = λ t k e. replaced_value e;
  find-remove = λ t k e. removed_value t k e;
  assoc-range = λ t lo hi e. ranged_value t lo hi e;
  range-IsDistinct = λ t lo hi e. ranged-IsDistinct t lo hi e;
}

-- The files are an association list too; reads and writes are never cut short.
abbrev Files : Type 0
Files = List (Bytes × Bytes)

abbrev or_missing : Files → Bytes → (Bytes → Files) → IoResult Files
or_missing d p f = elim (assoc p d) [ none ↦ failed 2 | some bs ↦ done (f bs) ]

abbrev or_missing_value : {A : Type 0} → Files → Bytes → (Bytes → A) → IoResult A
or_missing_value d p f = elim (assoc p d) [ none ↦ failed 2 | some bs ↦ done (f bs) ]

abbrev opened : Bool → Files → Bytes → IoResult Files
opened true d p = done ((p, or_empty (assoc p d)) ∷ d)
opened false d p = or_missing d p (λ bs. d)

pub take-length_take : (n : ℕ) (xs : Bytes) → take (length (take n xs)) xs ≡ take n xs
take-length_take zero xs = refl
take-length_take (suc n) [] = refl
take-length_take (suc n) (x ∷ xs) = rw (take-length_take n xs)

pub take-length : (xs : Bytes) → take (length xs) xs ≡ xs
take-length [] = refl
take-length (x ∷ xs) = rw (take-length xs)

pub opened_content :
    (c : Bool) (d : Files) (p : Bytes) {d' : Files}
    → opened c d p ≡ done d'
    → (q : Bytes) → assoc q d' ≡ (if bytes_eq p q then some (or_empty (assoc p d)) else assoc q d)
opened_content true d p e q = ground arith
opened_content false d p e q = ground (arith, bytes_eq_iff p q)

abbrev pub written : Files → Bytes → Bytes → IoResult (Files × ℕ)
written d p bs = done ((p, or_empty (assoc p d) ++ bs) ∷ d, length bs)

pub written_content :
    (d : Files) (p bs : Bytes) {d' : Files} {n : ℕ}
    → written d p bs ≡ done (d', n)
    → (q : Bytes)
    → assoc q d' ≡ (if bytes_eq p q then some (or_empty (assoc p d) ++ take n bs) else assoc q d)
written_content d p bs e q = ground (arith, take-length bs)

abbrev pub part : Files → Bytes → ℕ → ℕ → IoResult Bytes
part d p offset n = or_missing_value d p (λ bs. take n (drop offset bs))

pub part_of_content :
    (d : Files) (p : Bytes) (offset n : ℕ) {bs : Bytes}
    → part d p offset n ≡ done bs
    → (length bs ≤ n) × (bs ≡ take (length bs) (drop offset (or_empty (assoc p d))))
part_of_content d p offset n e = elim (Option-cases (assoc p d)) [
  | inl missing ↦ absurd (ground arith)
  | inr (c, found) ↦
      ground (arith, length-take n (drop offset c), take-length_take n (drop offset c))
]

abbrev pub removed : Files → Bytes → IoResult Files
removed d p = or_missing d p (λ bs. without p d)

pub removed_content :
    (d : Files) (p : Bytes) {d' : Files}
    → removed d p ≡ done d'
    → (q : Bytes) → assoc q d' ≡ (if bytes_eq p q then none else assoc q d)
removed_content d p e q = ground (arith, assoc-without p q d)

abbrev pub renamed : Files → Bytes → Bytes → IoResult Files
renamed d p q = or_missing d p (λ bs. (q, bs) ∷ without p d)

pub renamed_content :
    (d : Files) (p q : Bytes) {d' : Files} → renamed d p q ≡ done d' → assoc q d' ≡ assoc p d
renamed_content d p q e = ground (arith, bytes_eq_refl q)

pub renamed_leaves :
    (d : Files) (p q : Bytes) {d' : Files}
    → renamed d p q ≡ done d'
    → assoc q d ≡ none
    → bytes_eq p q ≡ false
    → assoc p d' ≡ none
renamed_leaves d p q e free other =
    ground (arith, bytes_eq_refl p, bytes_eq_iff p q, bytes_eq_iff q p, assoc-without p p d)

abbrev pub opened_to_read : Files → Bytes → IoResult Unit
opened_to_read d p = or_missing_value d p (λ bs. tt)

abbrev pub sought : Files → Bytes → ℕ → IoResult Unit
sought d p offset = if ltb offset (2 ^ 63) then done tt else failed 22

pub opened_there : (d : Files) (p : Bytes) → opened_to_read d p ≡ done tt → assoc p d ≢ none
opened_there d p e gone = absurd (ground arith)

abbrev pub copied : Files → Bytes → Bytes → IoResult Files
copied d p q = or_missing d p (λ bs. (q, bs) ∷ d)

pub copied_content :
    (d : Files) (p q : Bytes) {d' : Files}
    → bytes_eq p q ≡ false
    → copied d p q ≡ done d'
    → assoc q d' ≡ assoc p d
copied_content d p q other e = ground (arith, bytes_eq_refl q)

abbrev pub list_files : FileOps
list_files = record {
  Disk = Files;
  content = λ d p. assoc p d;
  open_append = opened;
  open_read = opened_to_read;
  seek = sought;
  write = written;
  read = part;
  size = λ d p. or_missing_value d p length;
  rename = renamed;
  copy = copied;
  remove_file = removed;
  content-open_append = opened_content;
  content-write = written_content;
  read_part = part_of_content;
  content-remove_file = removed_content;
  content-rename = renamed_content;
  rename_leaves = renamed_leaves;
  open_read_there = opened_there;
  content-copy = copied_content;
}

pub ulid_bytes_length : (u : ℕ) → length (to_be_bytes 16 u) ≡ 16
ulid_bytes_length u = length-to_be_bytes 16 u

pub ulid_bytes_round : (u : ℕ) → u < 2 ^ 128 → from_be_bytes (to_be_bytes 16 u) ≡ u
unfolding byte_bound
ulid_bytes_round u h = from_be_bytes-to_be_bytes 16 u h

-- No call fails; text is in normal form; the name of a ULID is its bytes, and a clock counts
-- nanoseconds from a time in November 2023.
instance abbrev pub sample_env : Env
sample_env = record {
  tables = list_table Bytes;
  sequences = list_table ℕ;
  files = list_files;
  allows = λ c tick. true;
  nfkd = λ s. s;
  nfkc = λ s. s;
  ulid_text = to_be_bytes 16;
  ulid_to_bytes = to_be_bytes 16;
  ulid_from_bytes = from_be_bytes;
  new_ulid = λ tick. tick + 1000;
  system_time = λ tick. pos (1_700_000_000_000_000_000 + tick);
  overflow_checks = false;
  ulid_to_bytes_length = ulid_bytes_length;
  ulid_from_bytes-to_bytes = ulid_bytes_round;
}
