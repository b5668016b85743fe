-- ===== src/Errors.antt =====
-- Error values. The code makes them by the library errs and by the standard package errors; they
-- are kept as terms, so that a theorem says exactly which error is returned. `CodeError` holds
-- the two predefined errors of errs that the code names, and those that
-- pkg/common/servererrs/predefine.go makes with the codes of pkg/common/servererrs/code.go.
use Prim.Native.Nat.{ℕ}
use Prim.Native.String.{String}
use mathlib.Core.List.{List}

pub data CodeError : Type 0 where
  err_args : CodeError
  err_record_not_found : CodeError
  new_code_error : ℕ → String → CodeError

pub data Error : Type 0 where
  -- `ErrX.WrapMsg(msg)`
  coded : CodeError → String → Error
  -- `errors.New(msg)`, `errs.New(msg)`, `fmt.Errorf(msg)`
  new : String → Error
  -- `errs.New(msg, key, value, ...)`
  new_kv : String → List (String × String) → Error
  -- `errs.Wrap(err)`
  wrap : Error → Error
  -- `errs.WrapMsg(err, msg)`
  wrap_msg : Error → String → Error
  -- `errs.WrapMsg(err, msg, key, value, ...)`
  wrap_kv : Error → String → List (String × String) → Error
  -- an error that a library returned
  foreign : String → Error

abbrev database_error : ℕ
database_error = 90002

abbrev network_error : ℕ
network_error = 90004

abbrev server_internal_error : ℕ
server_internal_error = 500

abbrev args_error : ℕ
args_error = 1001

abbrev pub user_id_not_found_error : ℕ
user_id_not_found_error = 1101

abbrev registered_already_error : ℕ
registered_already_error = 1102

abbrev pub group_id_not_found_error : ℕ
group_id_not_found_error = 1201

abbrev pub group_id_existed : ℕ
group_id_existed = 1202

abbrev pub err_user_id_not_found : CodeError
err_user_id_not_found = new_code_error user_id_not_found_error "UserIDNotFoundError"
