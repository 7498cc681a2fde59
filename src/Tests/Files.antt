-- ===== src/Tests/Files.antt =====
-- A file is uploaded to the file driver in two messages, and then downloaded.
use yeetbox.Common.{
  ◌^◌, ◌<◌, ◌≡◌, refl, Bool, true, false, none, some, List, [], ◌∷◌, ◌++◌, Bytes, take, drop,
  length, arith,
}
use yeetbox.Status.{ok}
use yeetbox.Words.{to_be_bytes, from_be_bytes}
use yeetbox.Authn.{from_utf8}
use yeetbox.Storage.State.{codes}
use yeetbox.Storage.Request.{UploadArg, DownloadArg, DownloadResult}
use yeetbox.FileDriver.Paths.{FilePath, push, target_path}
use yeetbox.FileDriver.Host.{WritesWhole}
use yeetbox.FileDriver.Host.Sample.{sample_host, sample_tree}
use yeetbox.FileDriver.State.{FileWorld, ◌>>=◌, change, write, look, new_ulid, new_file_storage}
use yeetbox.FileDriver.Upload.{upload, choose_ulid, finish_upload, first_version, publish}
use yeetbox.FileDriver.Upload.Received.{blob_path_of}
use yeetbox.FileDriver.Download.{download}
use yeetbox.FileDriver.RoundTrip.{start, message, download-uploads}

abbrev pub empty_world : FileWorld
empty_world = new_file_storage []

abbrev pub strs : List Bytes
strs = codes "foo" ∷ codes "bar" ∷ []

-- /tmp/yeetbox/foo/bar
abbrev pub bar_path : FilePath
bar_path = codes "/" ∷ codes "tmp" ∷ codes "yeetbox" ∷ codes "foo" ∷ codes "bar" ∷ []

abbrev pub piece : Bytes → Bytes → Bool → UploadArg
piece contents continuation incomplete = record {
  target = some (record { path = strs; version = none });
  uid = 1;
  gid = 2;
  perms = none;
  contents = contents;
  next = false;
  incomplete = incomplete;
  reserve = 0;
  continuation = continuation;
}

abbrev token : Bytes
token = to_be_bytes 16 1000

abbrev begun : FileWorld
begun = (upload (piece (7 ∷ 8 ∷ []) [] true) empty_world).1

abbrev pub stored : FileWorld
stored = (upload (piece (9 ∷ []) token false) begun).1

abbrev pub download_bar : DownloadArg
download_bar = record {
  target = some (record { path = strs; version = none });
  offset = 1;
  length = 5;
}

abbrev answer : DownloadResult
answer = record { contents = 8 ∷ 9 ∷ []; more = false }

abbrev downloaded : FileWorld
downloaded = (download download_bar stored).1

begun_ok : upload (piece (7 ∷ 8 ∷ []) [] true) empty_world ≡ (ok token, begun)
unfolding from_utf8 upload new_file_storage ◌>>=◌ change write choose_ulid new_ulid to_be_bytes
begun_ok = refl

stored_ok : upload (piece (9 ∷ []) token false) begun ≡ (ok [], stored)
unfolding from_utf8 upload new_file_storage ◌>>=◌ change write choose_ulid new_ulid to_be_bytes
    from_be_bytes finish_upload first_version publish
stored_ok = refl

downloaded_ok : download download_bar stored ≡ (ok answer, downloaded)
unfolding from_utf8 upload new_file_storage ◌>>=◌ change write choose_ulid new_ulid to_be_bytes look
    from_be_bytes finish_upload first_version publish download
downloaded_ok = refl

to_bar : target_path empty_world.path strs ≡ ok bar_path
unfolding from_utf8 new_file_storage target_path push
to_bar = refl

no_blob : sample_tree.entry empty_world.disk (blob_path_of bar_path 1000) ≡ none
unfolding new_file_storage
no_blob = refl

tick_small : sample_host.new_ulid empty_world.tick < 2 ^ 128
unfolding new_file_storage
tick_small = omega arith

sample-WritesWhole : WritesWhole sample_host
sample-WritesWhole = record { whole = λ p bs d e. ground arith }

download-uploads_example :
    answer.contents ≡ take (length answer.contents) (drop 1 ((7 ∷ 8 ∷ []) ++ (9 ∷ [])))
unfolding new_file_storage
download-uploads_example =
    download-uploads sample-WritesWhole strs bar_path empty_world begun stored downloaded
      (7 ∷ 8 ∷ []) token [] (piece (9 ∷ []) token false) none download_bar answer refl refl to_bar
      tick_small no_blob (message (piece (7 ∷ 8 ∷ []) [] true) none start refl refl refl begun_ok)
      refl refl refl refl stored_ok refl downloaded_ok
