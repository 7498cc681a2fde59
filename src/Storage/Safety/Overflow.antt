-- ===== src/Storage/Safety/Overflow.antt =====
-- The sum of offset and length in a download, and the panic of a build that checks it
-- (yeetbox-server/src/storage/database.rs).
use yeetbox.Common.{
  ℕ, ◌+◌, ◌^◌, ◌<◌, ◌≤◌, ◌≡◌, ◌≢◌, ◌↔◌, refl, Bool, true, false, ◌&&◌, Bytes, drop, Bool-cases, inl,
  inr, arith, ltb, if◌then◌else◌,
}
use yeetbox.Status.{ok, panicked, panic_if}
use yeetbox.Env.{Env, done}
use yeetbox.Records.{VersionRecordValue, size_of_version, version_value_from_bytes}
use yeetbox.Storage.State.{World, lift, push, ◌>>=◌, read_files}
use yeetbox.Storage.Request.{DownloadArg}
use yeetbox.Storage.Download.{known_size, is_beyond_end, sum_overflows, read_version_blob}
use yeetbox.Storage.Safety.{IsCalm, calm_rules, calm_lift_rest}

sum_overflows_iff :
    (checked : Bool) (version : VersionRecordValue) (offset asked : ℕ)
    → offset < 2 ^ 64
    → asked < 2 ^ 64
    → ((checked && sum_overflows version offset asked) ≡ true)
      ↔ ((checked ≡ true) × (known_size version ≡ true) × (2 ^ 64 ≤ offset + asked))
unfolding sum_overflows
sum_overflows_iff checked version offset asked h k =
    (λ e. ground arith, λ (c, known, e). ground arith)

module _ ⦃E : Env⦄ where
  IsCalm-panic_if : (b : Bool) → b ≡ false → IsCalm (lift (panic_if b))
  unfolding lift
  IsCalm-panic_if b e = rw e (record { at = λ s h. cc h })

  pub read_version_blob_calm :
      (req : DownloadArg) (base bytes : Bytes) (s : World)
      → ((version : VersionRecordValue)
          → version_value_from_bytes bytes ≡ ok version
          → (E.overflow_checks && sum_overflows version req.offset req.length) ≡ false)
      → version_value_from_bytes bytes ≢ panicked
      → (read_version_blob req base bytes s).0 ≢ panicked
  unfolding read_version_blob
  read_version_blob_calm req base bytes s fits read =
      calm_lift_rest _ _ _ read
        λ version e1. let fit = fits version e1 in search (calm_rules, IsCalm-panic_if) depth 20

  if_sought :
      (offset : ℕ) (d : E.files.Disk) (p : Bytes)
      → E.files.seek d p offset ≡ done tt
      → (if ltb 0 offset then E.files.seek d p offset else done tt) ≡ done tt
  if_sought offset d p sought = elim (Bool-cases (ltb 0 offset)) [
    | inl past ↦ rw past sought
    | inr start ↦ rw start refl
  ]

  overflow_panics :
      (req : DownloadArg) (base bytes : Bytes) (version : VersionRecordValue) (s : World)
      → version_value_from_bytes bytes ≡ ok version
      → is_beyond_end version req.offset ≡ false
      → E.files.open_read s.disk (push base (drop size_of_version bytes)) ≡ done tt
      → E.files.seek s.disk (push base (drop size_of_version bytes)) req.offset ≡ done tt
      → (E.overflow_checks && sum_overflows version req.offset req.length) ≡ true
      → (read_version_blob req base bytes s).0 ≡ panicked
  unfolding read_version_blob ◌>>=◌ lift read_files
  overflow_panics req base bytes version s read within opened sought over =
      rw read (rw within (rw opened (rw (if_sought req.offset s.disk _ sought) (rw over refl))))

  -- Where the record of the version is as it should be, the offset is not beyond its end, and the
  -- blob can be opened and sought, the read of a download panics exactly if the build checks for
  -- overflow, the length of the version is known, and the offset and length of the request, of 64
  -- bits each, add up to 2 ^ 64 or more.
  pub read_version_blob-panicked_iff :
      (req : DownloadArg) (base bytes : Bytes) (version : VersionRecordValue) (s : World)
      → req.offset < 2 ^ 64
      → req.length < 2 ^ 64
      → version_value_from_bytes bytes ≡ ok version
      → is_beyond_end version req.offset ≡ false
      → E.files.open_read s.disk (push base (drop size_of_version bytes)) ≡ done tt
      → E.files.seek s.disk (push base (drop size_of_version bytes)) req.offset ≡ done tt
      → ((read_version_blob req base bytes s).0 ≡ panicked) ↔ (
          (E.overflow_checks ≡ true)
          × (known_size version ≡ true)
          × (2 ^ 64 ≤ req.offset + req.length))
  read_version_blob-panicked_iff req base bytes version s h k read within opened sought =
      let checks = sum_overflows_iff E.overflow_checks version req.offset req.length h k in
      elim (Bool-cases (E.overflow_checks && sum_overflows version req.offset req.length)) [
        | inl over ↦ (
          λ _. checks.0 over,
          λ _. overflow_panics req base bytes version s read within opened sought over,
        )
        | inr fits ↦ (
          λ p. absurd (
              read_version_blob_calm req base bytes s
                (λ v e. let same : version ≡ v = cc (read, e) in rw same at fits)
                (λ e. cc (read, e)) p),
          λ c. absurd (cc (checks.1 c, fits)),
        )
      ]
