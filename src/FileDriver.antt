-- ===== src/FileDriver.antt =====
-- `FileStorage` (yeetbox-server/src/storage/file.rs): the storage driver that keeps each file as a
-- directory, with a link to its latest version.
pub mod Paths
pub mod Host
pub mod State
pub mod Numbers
pub mod Upload
pub mod MakeDirectory
pub mod Append
pub mod Download
pub mod Delete
pub mod Entries
pub mod Listing
pub mod Inversion
pub mod RoundTrip
pub mod Requests
