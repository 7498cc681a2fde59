-- ===== src/Storage/Delete/Blobs.antt =====
-- Which files the loop of `delete` over the versions of a file removes
-- (yeetbox-server/src/storage/database.rs).
use yeetbox.Common.{
  ℕ, zero, suc, ◌≡◌, refl, sym, ap, ◌∙◌, Bool, false, ◌||◌, ◌&&◌, Option, none, some, Bytes,
  bytes_eq, bytes_eq_iff, length, drop, ltb, Bool-cases, inl, inr, if◌then◌else◌,
}
use yeetbox.Status.{ok}
use yeetbox.Env.{Env}
use yeetbox.Records.{size_of_version, bytes_of_version_key}
use yeetbox.Storage.State.{World, push}
use yeetbox.Storage.Delete.{remove_blob, delete_version, delete_versions}
use yeetbox.Storage.Delete.Versions.{delete_version_effect, then_none}
use yeetbox.Storage.Inversion.{
  after_bind, after_require, at_return, at_change_files, after_when, after_unless,
}

-- Whether the record of a version names the path.
abbrev pub is_named_by : Bytes → Option Bytes → Bytes → Bool
is_named_by base none q = false
is_named_by base (some d) q =
    ltb size_of_version (length d) && bytes_eq (push base (drop size_of_version d)) q

module _ ⦃E : Env⦄ where
  abbrev names_blob : Bytes → E.tables.Table → ℕ → ℕ → Bytes → Bool
  names_blob base v id n q =
      is_named_by base
        (E.tables.find v (bytes_of_version_key (record { file_id = id; version = n }))) q

  -- Whether the record of a version of the file, from 0 up to a number, names the path.
  abbrev pub is_blob_up_to : Bytes → E.tables.Table → ℕ → ℕ → Bytes → Bool
  is_blob_up_to base v id zero q = names_blob base v id 0 q
  is_blob_up_to base v id (suc n) q = names_blob base v id (suc n) q || is_blob_up_to base v id n q

  remove_blob_effect :
      (base : Bytes) (o : Option Bytes) (s s' : World)
      → remove_blob base o s ≡ (ok tt, s')
      → (q : Bytes)
      → E.files.content s'.disk q
        ≡ (if is_named_by base o q then none else E.files.content s.disk q)
  unfolding remove_blob
  remove_blob_effect base none s s' h q =
      at_return _ _ (λ _ e. ap (λ (w : World). E.files.content w.disk q) (sym e)) h
  remove_blob_effect base (some d) s s' h q = elim (Bool-cases (ltb size_of_version (length d))) [
    | inl long ↦
        let (disk, removed, e) = at_change_files _ s s' (after_when _ _ _ _ long (λ k. k) h) in
        rw (e, long) (E.files.content-remove_file _ _ removed q)
    | inr short ↦
        let e = at_return _ _ (λ _ e. e) (after_unless _ _ _ _ short (λ k. k) h) in
        rw (← e, short) refl
  ]

  remove_blob_content :
      {o : Option Bytes} (base : Bytes) (o' : Option Bytes) (s t s' : World)
      → o ≡ o'
      → remove_blob base o s ≡ (ok tt, t)
      → t ≡ s'
      → (q : Bytes)
      → E.files.content s'.disk q
        ≡ (if is_named_by base o' q then none else E.files.content s.disk q)
  remove_blob_content {o} base o' s t s' e1 e2 e3 q =
      rw (← e3, ← e1) (remove_blob_effect base o s t e2 q)

  delete_version_blob :
      (base : Bytes) (id n : ℕ) (v v' : E.tables.Table) (s s' : World)
      → delete_version base id n v s ≡ (ok v', s')
      → (q : Bytes)
      → E.files.content s'.disk q
        ≡ (if names_blob base v id n q then none else E.files.content s.disk q)
  unfolding delete_version
  delete_version_blob base id n v v' s s' h q =
      after_require _ _ _ _
        (λ removed e1. after_bind _ _ _ λ u t e2.
          at_return _ _
            λ _ e3. remove_blob_content base _ s t s' (E.tables.remove_old _ _ e1) e2 e3 q)
        h

  -- A removed record does not count any more, but its own path is gone already.
  module _ (base key q : Bytes) (v v' : E.tables.Table)
      (removed : (j : Bytes)
        → E.tables.find v' j ≡ (if bytes_eq key j then none else E.tables.find v j))
      (other : is_named_by base (E.tables.find v key) q ≡ false) where
    is_named_by-removed :
        (j : Bytes)
        → is_named_by base (E.tables.find v' j) q ≡ is_named_by base (E.tables.find v j) q
    is_named_by-removed j = elim (Bool-cases (bytes_eq key j)) [
      | inl here ↦
          let e : key ≡ j = (bytes_eq_iff key j).0 here in
          rw (removed j, here) (sym (rw e at other))
      | inr there ↦ rw (removed j, there) refl
    ]

    is_blob_up_to-removed : (id n : ℕ) → is_blob_up_to base v' id n q ≡ is_blob_up_to base v id n q
    is_blob_up_to-removed id zero = is_named_by-removed _
    is_blob_up_to-removed id (suc n) = rw (is_named_by-removed _, is_blob_up_to-removed id n) refl

  still_named :
      (base key q : Bytes) (v v' : E.tables.Table) (id n : ℕ)
      → ((j : Bytes) → E.tables.find v' j ≡ (if bytes_eq key j then none else E.tables.find v j))
      → (is_named_by base (E.tables.find v key) q || is_blob_up_to base v' id n q)
        ≡ (is_named_by base (E.tables.find v key) q || is_blob_up_to base v id n q)
  still_named base key q v v' id n removed =
      elim (Bool-cases (is_named_by base (E.tables.find v key) q)) [
        | inl named ↦ rw (named) refl
        | inr other ↦ rw (is_blob_up_to-removed base key q v v' removed other id n) refl
      ]

  -- The files that the records of the versions name are gone, and every other is as before.
  pub delete_versions_blobs :
      (base : Bytes) (id latest : ℕ) (v v' : E.tables.Table) (s s' : World)
      → delete_versions base id latest v s ≡ (ok v', s')
      → (q : Bytes)
      → E.files.content s'.disk q
        ≡ (if is_blob_up_to base v id latest q then none else E.files.content s.disk q)
  unfolding delete_versions
  delete_versions_blobs base id zero v v' s s' h q = delete_version_blob base id zero v v' s s' h q
  delete_versions_blobs base id (suc n) v v' s s' h q =
      after_bind _ _ (delete_version base id (suc n) v)
        (λ v1 t e1 h'.
          let first = delete_version_blob base id (suc n) v v1 s t e1 q in
          let removed = delete_version_effect base id (suc n) v v1 s t e1 in
          delete_versions_blobs base id n v1 v' t s' h' q
          ∙ ap (λ x. if is_blob_up_to base v1 id n q then none else x) first
          ∙ then_none _ (is_blob_up_to base v1 id n q) (E.files.content s.disk q)
          ∙ ap (λ (b : Bool). if b then none else E.files.content s.disk q)
              (still_named base _ q v v1 id n removed))
        h
