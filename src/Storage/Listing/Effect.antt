-- ===== src/Storage/Listing/Effect.antt =====
-- What a successful `list` gives (yeetbox-server/src/storage/database.rs).
use yeetbox.Common.{
  ℕ, ◌+◌, ◌%◌, ◌^◌, ◌≡◌, refl, ap, ◌∙◌, ◌&&◌, ◌==◌, ltb, Bool, true, false, none, some, List, [],
  ◌∷◌, Bytes, drop, map, arith, if◌then◌else◌,
}
use yeetbox.Status.{Result, ok, err, panicked}
use yeetbox.Env.{Env, assoc, in_range, IsDistinct}
use yeetbox.Words.{add64, to_be_bytes}
use yeetbox.Words.Order.{in_range-next}
use yeetbox.Records.{root_fsid, size_of_record, read_record}
use yeetbox.Storage.State.{World, lift}
use yeetbox.Storage.Path.{Text, make_key, nfkc_key, descend_nfkc}
use yeetbox.Storage.Path.Resolve.{Resolves, walk-Resolves}
use yeetbox.Storage.Request.{ListArg, RequestedFileId}
use yeetbox.Storage.Listing.{ListEntry, attributes_of, list_entry, prepend, list_entries, list}
use yeetbox.Storage.Inversion.{after_require, after_lift, after_call, after_gets}

-- The entry that is shown for a stored value.
abbrev pub shown : Bytes × Bytes → ListEntry
shown (key, value) = record {
  relative_name = drop size_of_record value;
  attrs = attributes_of (read_record value);
}

-- The end of a listing is reached only by an iterator that had no error, and nothing was left out.
prepend_ok :
    (e : Result ListEntry) (es : Result (List ListEntry)) {entries : List ListEntry}
    → prepend e es ≡ ok entries
    → (x : ListEntry) × (xs : List ListEntry) × (e ≡ ok x) × (es ≡ ok xs) × (entries ≡ x ∷ xs)
prepend_ok (ok e) (ok es) h = (e, es, refl, refl, cc)
prepend_ok (ok e) (err x) h = absurd (cc h)
prepend_ok (ok e) panicked h = absurd (cc h)
prepend_ok (err x) es h = absurd (cc h)
prepend_ok panicked es h = absurd (cc h)

list_entry-shown : (e : Bytes × Bytes) {x : ListEntry} → list_entry e ≡ ok x → x ≡ shown e
unfolding list_entry
list_entry-shown (key, value) h = ground arith

list_entries-shown :
    (clean : Bool) (es : List (Bytes × Bytes)) {entries : List ListEntry}
    → list_entries clean es ≡ ok entries
    → (clean ≡ true) × (entries ≡ map shown es)
unfolding list_entries
list_entries-shown true [] h = (refl, cc)
list_entries-shown false [] h = absurd (cc h)
list_entries-shown clean (e ∷ es) h =
    let (x, xs, first, rest, same) = prepend_ok (list_entry e) (list_entries clean es) h in
    let (no_error, shown_rest) = list_entries-shown clean es rest in
    (no_error, cc (same, list_entry-shown e first, shown_rest))

module _ ⦃E : Env⦄ where
  lifted_ok :
      {A : Type 0} (r : Result A) {a : A} (s : World) {s' : World}
      → lift r s ≡ (ok a, s')
      → r ≡ ok a
  unfolding lift
  lifted_ok r s h = ap (λ (x : Result _ × World). x.0) h

  -- The key of a child lies in the range of a listing if the parents are the same u64, and this has
  -- a next one.
  child_in_range :
      (n p : ℕ) (name : Text)
      → in_range (to_be_bytes 8 n) (to_be_bytes 8 (add64 n 1)) (make_key p name)
        ≡ (p % 2 ^ 64 == n % 2 ^ 64 && ltb (n % 2 ^ 64 + 1) (2 ^ 64))
  unfolding make_key
  child_in_range n p name = in_range-next n p (E.nfkd name)

  -- The path leads to a folder; the answer shows the entries of the table, each key once, whose
  -- keys lie from the id of the folder up to the next id.
  pub record Listed (req : ListArg) (s : World) (answer : List ListEntry) : Type 0 where
    pub target : RequestedFileId
    pub parent_id : ℕ
    pub entries : List (Bytes × Bytes)
    pub target_given : req.target ≡ some target
    pub parent_found : Resolves nfkc_key s.db.fs root_fsid target.path parent_id
    pub all_entries :
        (key : Bytes)
        → assoc key entries ≡ (
            if in_range (to_be_bytes 8 parent_id) (to_be_bytes 8 (add64 parent_id 1)) key
            then E.tables.find s.db.fs key
            else none)
    pub children :
        (p : ℕ) (name : Text)
        → assoc (make_key p name) entries ≡ (
            if p % 2 ^ 64 == parent_id % 2 ^ 64 && ltb (parent_id % 2 ^ 64 + 1) (2 ^ 64)
            then E.tables.find s.db.fs (make_key p name)
            else none)
    pub once : IsDistinct entries
    pub same_answer : answer ≡ map shown entries

  -- If `list` succeeds, the path leads to a folder, and the answer shows exactly the entries of the
  -- file system table whose keys lie between the eight bytes of the folder's id and those of the
  -- next id, each once, with the stored name and the attributes of the stored record. Of the keys of
  -- a parent and a name, these are the ones with the folder as their parent, if there is a next id,
  -- and otherwise none. This holds whatever else the request asks for: the fields `attrs`, `limit`,
  -- `skip` and `folders` that remotefs.proto gives a meaning to do not matter.
  pub list_effect :
      (req : ListArg) (s s' : World) (answer : List ListEntry)
      → list req s ≡ (ok answer, s')
      → Listed req s answer
  unfolding list descend_nfkc
  list_effect req s s' answer = after_require _ _ req.target _ λ target e1. after_call _ _ _ _ (
      after_call _ _ _ _ (
        after_gets _ _ _ (
          after_lift _ _ _ λ parent_id e2. after_require _ _ _ _ λ ranged e3. λ h.
            let (no_error, same) = list_entries-shown ranged.1 ranged.0 (lifted_ok _ _ h) in
            record {
              target = target;
              parent_id = parent_id;
              entries = ranged.0;
              target_given = e1;
              parent_found = walk-Resolves nfkc_key _ s.db.fs root_fsid target.path e2;
              all_entries = E.tables.assoc-range _ _ _ (rw no_error at e3);
              children = λ p name.
                  E.tables.assoc-range _ _ _ (rw no_error at e3) (make_key p name)
                  ∙ rw (child_in_range parent_id p name) refl;
              once = E.tables.range-IsDistinct _ _ _ e3;
              same_answer = same;
            })))
