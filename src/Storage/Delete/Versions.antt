-- ===== src/Storage/Delete/Versions.antt =====
-- What the loop of `delete` over the versions of a file takes out of the table of the transaction
-- (yeetbox-server/src/storage/database.rs).
use yeetbox.Common.{
  ℕ, zero, suc, ◌≡◌, refl, ap, ◌∙◌, Bool, true, false, ◌||◌, Option, none, Bytes, bytes_eq,
  if◌then◌else◌,
}
use yeetbox.Status.{ok}
use yeetbox.Env.{Env}
use yeetbox.Records.{bytes_of_version_key}
use yeetbox.Storage.State.{World}
use yeetbox.Storage.Delete.{delete_version, delete_versions}
use yeetbox.Storage.Inversion.{after_bind, after_require, at_return}

-- Whether a key is that of a version of the file, from 0 up to a number.
abbrev pub is_version_up_to : ℕ → ℕ → Bytes → Bool
is_version_up_to id zero j =
    bytes_eq (bytes_of_version_key (record { file_id = id; version = 0 })) j
is_version_up_to id (suc n) j =
    bytes_eq (bytes_of_version_key (record { file_id = id; version = suc n })) j
    || is_version_up_to id n j

pub then_none :
    (a b : Bool) (x : Option Bytes)
    → (if b then none else (if a then none else x)) ≡ (if a || b then none else x)
then_none true true x = refl
then_none true false x = refl
then_none false true x = refl
then_none false false x = refl

module _ ⦃E : Env⦄ where
  pub delete_version_effect :
      (base : Bytes) (id version : ℕ) (v v' : E.tables.Table) (s s' : World)
      → delete_version base id version v s ≡ (ok v', s')
      → (j : Bytes)
      → E.tables.find v' j ≡ (
          if bytes_eq (bytes_of_version_key (record { file_id = id; version = version })) j
          then none
          else E.tables.find v j)
  unfolding delete_version
  delete_version_effect base id version v v' s s' h j =
      after_require _ _ _ _
        (λ removed e1.
          after_bind _ _ _
            λ u t e2. at_return _ _ λ e3 _. rw (← e3) (E.tables.find-remove _ _ e1 j))
        h

  -- If the loop succeeds, the table of the transaction has no entry left under the key of any
  -- version of the file from 0 up to the latest, and every other entry is as before.
  pub delete_versions_effect :
      (base : Bytes) (id latest : ℕ) (v v' : E.tables.Table) (s s' : World)
      → delete_versions base id latest v s ≡ (ok v', s')
      → (j : Bytes)
      → E.tables.find v' j ≡ (if is_version_up_to id latest j then none else E.tables.find v j)
  unfolding delete_versions
  delete_versions_effect base id zero v v' s s' h j =
      delete_version_effect base id zero v v' s s' h j
  delete_versions_effect base id (suc n) v v' s s' h j =
      after_bind _ _ (delete_version base id (suc n) v)
        (λ v1 t e1 h'.
          let first = delete_version_effect base id (suc n) v v1 s t e1 j in
          delete_versions_effect base id n v1 v' t s' h' j
          ∙ ap (λ x. if is_version_up_to id n j then none else x) first
          ∙ then_none _ (is_version_up_to id n j) (E.tables.find v j))
        h
