-- ===== src/Storage/Sequence/Effect.antt =====
-- What `get_next_id` does to the sequences (yeetbox-server/src/storage/database.rs).
use yeetbox.Common.{ℕ, ◌≡◌, refl, ap, some, Bytes, bytes_eq, String, if◌then◌else◌}
use yeetbox.Status.{ok}
use yeetbox.Env.{Env}
use yeetbox.Words.{add64}
use yeetbox.Storage.State.{World, Db}
use yeetbox.Storage.Sequence.{fs_table_name, or_zero, get_next_id}
use yeetbox.Storage.Inversion.{after_call, after_require, at_return}

module _ ⦃E : Env⦄ where
  pub record NextId (w : Db) (next : Db × ℕ) : Type 0 where
    pub same_fs : next.0.fs ≡ w.fs
    pub same_ver : next.0.ver ≡ w.ver
    pub id_next : next.1 ≡ add64 (or_zero (E.sequences.find w.seq fs_table_name)) 1
    pub seq_next :
        (j : Bytes)
        → E.sequences.find next.0.seq j
          ≡ (if bytes_eq fs_table_name j then some next.1 else E.sequences.find w.seq j)

  pub get_next_id_effect :
      (message : String) (w : Db) (s s' : World) (next : Db × ℕ)
      → get_next_id message w s ≡ (ok next, s')
      → NextId w next
  unfolding get_next_id
  get_next_id_effect message w s s' next = after_call _ _ _ _ (
      after_require _ _ _ _ λ last e1. after_require _ _ _ _ λ inserted e2. at_return _ _ λ e3 e4.
        rw (← e3) (record {
          same_fs = refl;
          same_ver = refl;
          id_next = ap (λ o. add64 (or_zero o) 1) (E.sequences.get-find _ _ e1);
          seq_next = E.sequences.find-insert _ _ _ e2;
        }))
