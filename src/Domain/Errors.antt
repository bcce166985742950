-- ===== src/Domain/Errors.antt =====
-- internal/domain/errors.go: the errors that callers tell apart.
use nauth.Common.{
  String, Bool, false, ◌||◌, Option, none, some, Error, errorf, wrapf, joined, sentinel, caused,
  ◌==◌,
}

abbrev pub err_unknown_error : String
err_unknown_error = "UnknownError"

abbrev pub err_bad_request : String
err_bad_request = "BadRequest"

abbrev pub err_account_not_found : String
err_account_not_found = "AccountNotFound"

abbrev pub err_account_not_ready : String
err_account_not_ready = "AccountNotReady"

abbrev pub err_config_map_not_found : String
err_config_map_not_found = "ConfigMapNotFound"

unfoldable pub with_cause : String → Option Error → Error
with_cause e none = sentinel e
with_cause e (some cause) = caused e cause

-- `errors.Is(err, target)`, for formats that wrap their last argument by `%w`.
unfoldable pub is : Error → String → Bool
is (sentinel e) target = e == target
is (caused e cause) target = e == target || is cause target
is (errorf _ _) target = false
is (wrapf _ _ e) target = is e target
is (joined d e) target = is d target || is e target
