-- ===== src/Storage/Path/Resolve.antt =====
-- The descent along a path against the folders of the table.
use yeetbox.Common.{
  ◌≤◌, ◌≡◌, ◌≢◌, refl, sym, ◌∙◌, none, some, List, [], ◌∷◌, Bytes, String, length, arith,
  Option-cases, inl, inr, ap,
}
use yeetbox.Status.{ok, panicked, >>=-eq-ok, >>=-not_panicked}
use yeetbox.Env.{Env}
use yeetbox.Records.{FileSystemId, size_of_record, obj_type_folder, read_record}
use yeetbox.Storage.Path.{Text, child_id, enter, walk}

module _ ⦃E : Env⦄ (key_of : FileSystemId → Text → Bytes) (fs : E.tables.Table) where
  -- From a parent a path leads to an id by entries that are folders.
  pub data Resolves : FileSystemId → List Text → FileSystemId → Type 0 where
    here : {p : FileSystemId} → Resolves p [] p
    down :
        {p q : FileSystemId} {pc : Text} {path : List Text} (value : Bytes)
        → E.tables.find fs (key_of p pc) ≡ some value
        → size_of_record ≤ length value
        → (read_record value).type ≡ obj_type_folder
        → Resolves (child_id value) path q
        → Resolves p (pc ∷ path) q

-- No read of a table fails.
pub record IsReadable (E : Env) : Type 0 where
  pub reads : (t : E.tables.Table) (k : Bytes) → E.tables.get t k ≢ none

module _ ⦃E : Env⦄ where
  pub get-eq-find :
      IsReadable E → (t : E.tables.Table) (k : Bytes) → E.tables.get t k ≡ some (E.tables.find t k)
  get-eq-find h t k = elim (Option-cases (E.tables.get t k)) [
    | inl e ↦ absurd (h.reads t k e)
    | inr (r, e) ↦ e ∙ ap some (E.tables.get-find t k e)
  ]

  module _ (key_of : FileSystemId → Text → Bytes) (message : String) (fs : E.tables.Table) where
    -- A folder that was entered is stored under its key.
    enter_sound :
        (p : FileSystemId) (pc : Text) {q : FileSystemId}
        → enter key_of message p pc fs ≡ ok q
        → (value : Bytes) × (E.tables.find fs (key_of p pc) ≡ some value)
          × (size_of_record ≤ length value)
          × ((read_record value).type ≡ obj_type_folder)
          × (q ≡ child_id value)
    unfolding enter
    enter_sound p pc h = elim (Option-cases (E.tables.get fs (key_of p pc))) [
      | inl e ↦ absurd (cc (rw e at h))
      | inr (none, e) ↦ absurd (ground arith)
      | inr (some value, e) ↦ (
        value,
        sym (E.tables.get-find fs (key_of p pc) e),
        ground arith,
        ground arith,
        ground arith,
      )
    ]

    enter_complete :
        IsReadable E
        → (p : FileSystemId) (pc : Text) (value : Bytes)
        → E.tables.find fs (key_of p pc) ≡ some value
        → size_of_record ≤ length value
        → (read_record value).type ≡ obj_type_folder
        → enter key_of message p pc fs ≡ ok (child_id value)
    unfolding enter
    enter_complete readable p pc value found long folder =
        ground (arith, get-eq-find readable fs (key_of p pc))

    -- A descent that succeeds has followed stored folders, component by component, to its result.
    pub walk-Resolves :
        (p : FileSystemId) (path : List Text) {q : FileSystemId}
        → walk key_of message p path fs ≡ ok q
        → Resolves key_of fs p path q
    unfolding walk
    walk-Resolves p [] {q} h = let e : p ≡ q = cc in rw (← e) here
    walk-Resolves p (pc ∷ path) {q} h =
        let (id, entered, rest) = >>=-eq-ok (enter key_of message p pc fs) _ h in
        let (value, found, long, folder, same) = enter_sound p pc entered in
        down value found long folder (rw (← same) (walk-Resolves id path rest))

    -- Where no read of a table fails, the descent along a path of stored folders succeeds with its
    -- end.
    pub Resolves-walk :
        IsReadable E
        → {p q : FileSystemId} {path : List Text} → Resolves key_of fs p path q
        → walk key_of message p path fs ≡ ok q
    unfolding walk
    Resolves-walk readable here = refl
    Resolves-walk readable (down {p} {q} {pc} {path} value found long folder rest) =
        rw (enter_complete readable p pc value found long folder) (Resolves-walk readable rest)

  -- No descent panics.
  enter_calm :
      (key_of : FileSystemId → Text → Bytes) (message : String) (p : FileSystemId) (pc : Text)
      (fs : E.tables.Table)
      → enter key_of message p pc fs ≢ panicked
  unfolding enter
  enter_calm key_of message p pc fs = ground arith

  pub walk_calm :
      (key_of : FileSystemId → Text → Bytes) (message : String) (p : FileSystemId)
      (path : List Text) (fs : E.tables.Table)
      → walk key_of message p path fs ≢ panicked
  unfolding walk
  walk_calm key_of message p [] fs = λ h. cc h
  walk_calm key_of message p (pc ∷ path) fs =
      >>=-not_panicked _ _ (enter_calm key_of message p pc fs)
        λ id. walk_calm key_of message id path fs

  -- A path leads to one place at most.
  pub Resolves-unique :
      {key_of : FileSystemId → Text → Bytes} {fs : E.tables.Table} {p q r : FileSystemId}
      {path : List Text}
      → Resolves key_of fs p path q
      → Resolves key_of fs p path r
      → q ≡ r
  Resolves-unique here here = refl
  Resolves-unique (down v1 f1 l1 t1 d1) (down v2 f2 l2 t2 d2) =
      let same : v1 ≡ v2 = cc in Resolves-unique d1 (rw (← same) at d2)
