-- ===== src/Error.antt =====
-- src/error.rs and the errno class of src/kernel.rs. An error keeps what its text says as data:
-- one constructor for each message of the code, with the values that the text shows.
use addrsyncd.Base.{ℕ, Bool, ◌||◌, ◌==◌, if◌then◌else◌, Option, none, some}

pub data AckWaitErrorKind : Type 0 where
  timeout seq_mismatch non_ack : AckWaitErrorKind

pub data NetlinkError : Type 0 where
  short_nlmsghdr invalid_nlmsg_len invalid_nlmsg_step : NetlinkError
  short_nlmsg_error : NetlinkError
  invalid_nla_len invalid_nla_step trailing_nla_bytes : NetlinkError
  invalid_fra_dst invalid_ifa_address missing_ifa_address : NetlinkError
  dump_ack_errno : ℕ → NetlinkError
  dump_wait_timeout pbr_ack_timeout pbr_failed : NetlinkError
  ack_wait_failed : AckWaitErrorKind → ℕ → ℕ → ℕ → NetlinkError
  -- No error of the code: a loop of the model ran out of its fuel.
  out_of_fuel : NetlinkError

pub data Message : Type 0 where
  unsupported_kernel loopback_missing : Message

-- An `io::Error` is its `raw_os_error`.
pub data AppError : Type 0 where
  message : Message → AppError
  io : Option ℕ → AppError
  netlink : NetlinkError → AppError

abbrev pub enosys : ℕ
enosys = 38

abbrev pub eprotonosupport : ℕ
eprotonosupport = 93

abbrev pub eopnotsupp : ℕ
eopnotsupp = 95

unfoldable pub is_required_syscall_errno : ℕ → Bool
is_required_syscall_errno code = code == enosys || (code == eopnotsupp || code == eprotonosupport)

unfoldable pub from_required_syscall_io : Option ℕ → AppError
unfolding is_required_syscall_errno
from_required_syscall_io none = io none
from_required_syscall_io (some code) =
    if is_required_syscall_errno code then message unsupported_kernel else io (some code)
