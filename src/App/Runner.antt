-- ===== src/App/Runner.antt =====
-- modules/gitea/src/runner.cpp.
use gar_virt.Prelude.{
  ◌==◌, if◌then◌else◌, Bytes, ok, err, Result, ℕ, Option, none, some, List, [], ◌∷◌,
}
use gar_virt.Programs.{ret, request, and_then, ◌>>=◌}
use gar_virt.App.{
  failed_to_ping, failed_to_register, failed_to_declare, failed_to_fetch, failed_to_encode, Error,
  get_registration_token, post_ping, post_register, post_declare, post_fetch_task, post_update_task,
  Registered, FetchedTask, Prog,
}

-- `RunnerOptions`.
pub record RunnerOptions : Type 0 where
  pub forge_uri : Bytes
  pub name : Bytes
  pub labels : List Bytes
  pub version : Bytes

-- A runner that `connect` gives.
pub record Runner : Type 0 where
  pub id : ℕ
  pub labels : List Bytes
  pub forge_uri : Bytes
  pub uuid : Bytes
  pub token : Bytes

pub record TaskParcel : Type 0 where
  pub id : ℕ
  pub data_ : Bytes

-- A label up to its first colon.
unfoldable pub label_name : Bytes → Bytes
label_name [] = []
label_name (c ∷ label) = let rest = label_name label in if c == 58 then [] else c ∷ rest

unfoldable pub get_label_names : List Bytes → List Bytes
unfolding label_name
get_label_names [] = []
get_label_names (label ∷ labels) = label_name label ∷ get_label_names labels

abbrev pub wrap_error : {A : Type 0} → (Error → Error) → Result Error A → Result Error A
wrap_error f (ok a) = ok a
wrap_error f (err e) = err (f e)

abbrev pub ping_internal : RunnerOptions → Prog (Result Error (Unit {0}))
ping_internal options = do r ← request (post_ping options.name); ret (wrap_error failed_to_ping r)

abbrev pub register_internal : RunnerOptions → Bytes → Prog (Result Error Registered)
register_internal options reg_token = do
  r ←
      request
        (post_register options.name reg_token options.version (get_label_names options.labels))
  ret (wrap_error failed_to_register r)

abbrev pub declare_internal : RunnerOptions → ℕ → Prog (Result Error (Unit {0}))
declare_internal options runner = do
  r ← request (post_declare runner options.version (get_label_names options.labels))
  ret (wrap_error failed_to_declare r)

unfoldable pub connect : RunnerOptions → Prog (Result Error Runner)
connect options = and_then (request get_registration_token) λ reg_token.
    and_then (ping_internal options) λ _. and_then (register_internal options reg_token) λ runner.
      and_then (declare_internal options runner.id) λ _. ret (
        ok record {
          id = runner.id;
          labels = options.labels;
          forge_uri = options.forge_uri;
          uuid = runner.uuid;
          token = runner.token;
        })

-- The rest of `fetch_task_internal`, by the answer.
abbrev pub to_parcel : Result Error (Option FetchedTask) → Result Error (Option TaskParcel)
to_parcel (err e) = err (failed_to_fetch e)
to_parcel (ok none) = ok none
to_parcel (ok (some task)) = elim task.serialized [
  | none ↦ err failed_to_encode
  | some encoded ↦ ok (some record { id = task.id; data_ = encoded })
]

abbrev pub fetch_task_internal : Runner → Prog (Result Error (Option TaskParcel))
fetch_task_internal runner = do r ← request (post_fetch_task runner.id); ret (to_parcel r)

-- The result of the update is ignored.
abbrev pub set_task_failed : Runner → TaskParcel → Prog (Unit {0})
set_task_failed runner task = do _ ← request (post_update_task runner.id task.id); ret tt
