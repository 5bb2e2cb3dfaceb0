-- ===== src/Admin/Commands.antt =====
-- How the command for deleting an account is read (`AdminAction::from_str` of src/impls/admin_action.rs).
use scherzo.Prelude.{ℕ, ◌<◌, ◌≡◌, arith, some, ◌++◌, ascii, bytes_eq}
use scherzo.Db.Ids.{u64_mod}
use scherzo.Text.{strip_prefix, show_u64}
use scherzo.Text.Numbers.{parse_u64-show_u64}
use scherzo.Text.Trim.{show_u64-Digits, trim-Digits}
use scherzo.Admin.{delete_user, from_str}

-- The command `/delete user` with a blank and the number of an account, as it is shown in decimal, is read as the
-- command to delete that account; for a number of 64 bits.
pub from_str-delete_user :
    (n : ℕ) → n < u64_mod → from_str (ascii "/delete user " ++ show_u64 n) ≡ some (delete_user n)
unfolding from_str strip_prefix bytes_eq
from_str-delete_user n h =
    ground (arith, trim-Digits (show_u64 n) (show_u64-Digits n), parse_u64-show_u64 n h)
