-- ===== src/Lib.antt =====
-- The storage server of yeetbox, a network file system that keeps its directory in an embedded
-- database (redb) and its files as blobs on disk.
--
-- Parts and files:
--   * Time64, Time64/: time stamps in one word (yeetbox-server/src/time64.rs).
--   * Perms, Perms/: permission flags and mode bits (yeetbox-server/src/utils.rs, and the way back
--     in yeetbox-server/src/storage/file.rs).
--   * Records, Records/: the records of the database and their bytes
--     (yeetbox-server/src/storage/database.rs, as the rest of this list up to Storage).
--   * Env, Env/Sample: the database, the files, Unicode normalisation, ULIDs and the clock as
--     parameters, and a concrete choice of them for tests.
--   * Storage/State: the state of DatabaseStorage and the monad of its operations.
--     Storage/Inversion, Storage/Keeps and Storage/Safety have the rules by which proofs go through
--     a chain of steps.
--   * Storage/Path, Storage/Sequence: keys, the descent along a path, the sequence of ids.
--   * Storage/MakeDirectory, Upload, Append, Download, Delete, Listing, Move, Copy: one operation
--     each, named as in the source; a child Effect says what a success has done. Upload/Blob follows
--     the blob of an upload, Upload/Recorded its write transaction, Upload/Messages an upload in
--     several messages; Upload/Disk has the steps that leave the disk alone. Storage/Request has the
--     arguments.
--   * Storage/Atomicity, Storage/WellFormed, Storage/Safety: what holds of all the operations;
--     Safety/Overflow is about the one sum that a client can make too large. Storage/RoundTrip: an
--     upload, in one message or several, and a download together. Storage/Progress: operations
--     succeed where no call of the environment fails.
--   * FileDriver, FileDriver/: the storage driver that keeps files as directories
--     (yeetbox-server/src/storage/file.rs). Paths has the paths of requests, Host the tree of files
--     and its laws, State the monad, Inversion the rules of proofs; MakeDirectory, Upload, Append,
--     Download, Delete and Listing (with Entries) are one operation each, and Requests is all of
--     them. Upload/Received, Publish, Reserve and Again follow an upload through its steps.
--   * Timestamps: system times (yeetbox-server/src/utils.rs).
--   * Client: the script of the command line client (yeetbox-cli/src/main.rs) and its run at the
--     service, as definitions only.
--   * Service, Service/: the methods of the service and runs of requests
--     (yeetbox-server/src/service.rs, yeetbox-server/src/storage/mod.rs).
--   * Authn, Authn/: the authenticator (yeetbox-server/src/authn.rs).
--   * Authz, Authz/: the authorizer (yeetbox-server/src/authz/mod.rs,
--     yeetbox-server/src/authz/simple.rs).
--   * Common, Status, Words, Text: lists, bits and tests; results of requests; numbers as bytes;
--     trimming and decimal digits, as the standard library does them.
--   * Tests, Tests/: runs at concrete inputs.
--
-- How the state corresponds. World is DatabaseStorage with the disk and a counter of calls: Db
-- holds FS_TABLE, SEQ_TABLE and VER_TABLE, the last missing until a write transaction has created
-- it. The service takes one lock for a whole request, so a request is a function of the state and
-- requests run one after the other (Service.serve). The changes of a write transaction are passed
-- on as a Db and reach the state only by commit_db; a transaction that is dropped changes nothing.
-- Changes of files happen at once. Every call of the database and of the files may fail, at the
-- choice of the environment. An early return is err with the source's message, a panic is
-- panicked.
--
-- Numbers are natural numbers. Sums of u64 wrap as in a build without overflow checks
-- (Words.add64, Words.sub64). The one sum of two numbers that a client chooses, offset and length
-- of a download, panics on overflow if `Env.overflow_checks` says that the build checks it, as
-- `cargo run` does; the other sums leave a u64 only after 2^64 ids, versions or bytes, and stay as
-- they wrap. A clock before the Unix epoch panics as in the source, and `Env.HasClock` says that
-- there is none such. Loops are structural: the descent over the components of a path, the
-- deletion over the versions, the listing over the entries that the iterator gave. There is fuel
-- in the loop of the file driver for a free version, where 1000 rounds are enough since the
-- counter of the source ends it (FileDriver.Upload.Reserve), in Text.decimal, where 39 digits are
-- enough for a u128, and in Text.trim, where the length of the text is.
--
-- A String is its UTF-8 bytes. The fields of a request that no driver reads are left out, but for
-- those of MoveArg, CopyArg and ListArg that remotefs.proto gives a meaning to; the field `data`
-- is called contents here. The descents of make_directory, upload and list, which the source
-- writes out in each, are one loop at three ways to normalise a component.
--
-- The state of the file driver is FileWorld: FileStorage with the tree of files, on which every
-- call works at once and may fail. A path is its components. The driver is not compiled (its `mod`
-- line in yeetbox-server/src/storage/mod.rs is a comment), so its messages are read as it uses
-- them, with the token and the end mark of an append that the protocol no longer has. The laws of
-- the tree are those of a POSIX file system on which no other process works during a request, and
-- speak of `lstat`: a link is not followed.
--
-- Not modelled: the start of the server, its configuration and logging, generated code, and in
-- yeetbox-server/src/utils.rs the conversion of a time stamp by the crate chrono, which nothing
-- uses.
pub mod Common
pub mod Time64
pub mod Perms
pub mod Timestamps
pub mod Status
pub mod Words
pub mod Records
pub mod Env
pub mod Storage
pub mod Text
pub mod Service
pub mod Client
pub mod Authn
pub mod Authz
pub mod FileDriver
pub mod Tests
