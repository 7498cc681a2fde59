-- ===== src/Storage.antt =====
-- yeetbox-server/src/storage/database.rs: the storage driver over a redb database and a folder of
-- blobs. Each operation has a module of its own, with its proofs below it.
pub mod State
pub mod WellFormed
pub mod Safety
pub mod RoundTrip
pub mod Progress
pub mod Keeps
pub mod Path
pub mod Request
pub mod Sequence
pub mod MakeDirectory
pub mod Upload
pub mod Append
pub mod Download
pub mod Delete
pub mod Listing
pub mod Move
pub mod Copy
pub mod Atomicity
pub mod Inversion
