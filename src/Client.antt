-- ===== src/Client.antt =====
-- The command line client (yeetbox-cli/src/main.rs): a fixed script of requests, which ends at the
-- first that fails.
use yeetbox.Common.{false, true, none, some, List, [], ◌∷◌, Bytes}
use yeetbox.Env.{Env}
use yeetbox.Storage.State.{Action, pure, ◌>>=◌, codes}
use yeetbox.Storage.Request.{
  MakeDirectoryArg, UploadArg, DownloadArg, AppendArg, MoveArg, CopyArg, ListArg,
}
use yeetbox.Service
use yeetbox.Service.{Request, Response, handle}

abbrev foo : Bytes
foo = codes "foo"

abbrev bar_txt : Bytes
bar_txt = codes "bar.txt"

abbrev quux_txt : Bytes
quux_txt = codes "quux.txt"

abbrev quux2_txt : Bytes
quux2_txt = codes "quux2.txt"

abbrev make_directory_request : MakeDirectoryArg
make_directory_request = record {
  target = some (record { path = foo ∷ []; version = none });
  uid = 100;
  gid = 100;
  perms = none;
}

abbrev upload_request : UploadArg
upload_request = record {
  target = some (record { path = foo ∷ bar_txt ∷ []; version = none });
  uid = 100;
  gid = 100;
  perms = none;
  contents = codes "Hello, world!";
  next = false;
  incomplete = false;
  reserve = 0;
  continuation = [];
}

abbrev download_request : DownloadArg
download_request = record {
  target = some (record { path = foo ∷ bar_txt ∷ []; version = none });
  offset = 3;
  length = 5;
}

abbrev append_request : AppendArg
append_request = record {
  target = some (record { path = foo ∷ bar_txt ∷ []; version = none });
  contents = codes " I am going to bed.";
}

abbrev move_request : MoveArg
move_request = record {
  target = some (record { path = foo ∷ bar_txt ∷ []; version = none });
  destination = foo ∷ quux_txt ∷ [];
  next = false;
}

abbrev copy_request : CopyArg
copy_request = record {
  target = some (record { path = foo ∷ quux_txt ∷ []; version = none });
  destination = foo ∷ quux2_txt ∷ [];
  next = false;
}

abbrev list_request : ListArg
list_request = record {
  target = some (record { path = foo ∷ []; version = none });
  attrs = true;
  limit = 0;
  skip = 0;
  folders = false;
  thumbnails = false;
}

-- The requests of `main` in their order.
abbrev pub script : List Request
script =
    Service.make_directory make_directory_request
    ∷ Service.upload upload_request
    ∷ Service.download download_request
    ∷ Service.append append_request
    ∷ Service.move move_request
    ∷ Service.copy copy_request
    ∷ Service.list list_request
    ∷ []

module _ ⦃E : Env⦄ where
  -- `client.x(request).await?`, one after the other, with the answers that are printed.
  unfoldable pub run : List Request → Action (List Response)
  run [] = pure []
  run (request ∷ requests) = do
    response ← handle request
    responses ← run requests
    pure (response ∷ responses)
