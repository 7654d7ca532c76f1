-- ===== src/Fs/Errors.antt =====
-- The error codes of kernel/fs/errors.h and kernel/errno.h, and fs/errors.c, which turns the ones
-- into the others for a system call. `long` is an integer of the 64 bits, all of whose values that
-- arise are far from the ends.
use os_pi_is_cool.Base.{ℕ, List, [], ◌∷◌, get_or}

-- `err_t` where it is not SUCCESS.
pub data FsError : Type 0 where
  file_write_error file_open_error file_read_error file_seek_error fs_already_mounted : FsError
  fs_not_mounted no_free_blocks inode_full invalid_args f_only_one_writer : FsError
  oft_fd_does_not_exist fat_no_space_remaining file_not_found illegal_block_no : FsError
  end_dir_not_found invalid_permissions invalid_file_name pid_not_found file_not_created : FsError
  cat_same_input_output fs_invalid file_already_exists not_a_directory is_a_directory : FsError

-- How a call returns: SUCCESS with what it stores through its pointers, or an error.
pub data Result (A : Type 0) : Type 0 where
  success : A → Result A
  error : FsError → Result A

-- A number, or the negation of its successor.
pub data ℤ : Type 0 where
  pos : ℕ → ℤ
  negsuc : ℕ → ℤ

-- The values of errors.h.
unfoldable pub err_code : FsError → ℤ
err_code file_write_error = negsuc 0
err_code file_open_error = negsuc 1
err_code file_read_error = negsuc 2
err_code file_seek_error = negsuc 3
err_code fs_already_mounted = negsuc 4
err_code fs_not_mounted = negsuc 5
err_code no_free_blocks = negsuc 6
err_code inode_full = negsuc 7
err_code invalid_args = negsuc 8
err_code f_only_one_writer = negsuc 9
err_code oft_fd_does_not_exist = negsuc 10
err_code fat_no_space_remaining = negsuc 11
err_code file_not_found = negsuc 12
err_code illegal_block_no = negsuc 13
err_code end_dir_not_found = negsuc 14
err_code invalid_permissions = negsuc 15
err_code invalid_file_name = negsuc 16
err_code pid_not_found = negsuc 17
err_code file_not_created = negsuc 18
err_code cat_same_input_output = negsuc 19
err_code fs_invalid = negsuc 20
err_code file_already_exists = negsuc 21
err_code not_a_directory = negsuc 22
err_code is_a_directory = negsuc 23

-- The values of errno.h that the switch names.
abbrev pub sys_enoent : ℤ
sys_enoent = negsuc 1

abbrev pub sys_esrch : ℤ
sys_esrch = negsuc 2

abbrev pub sys_eio : ℤ
sys_eio = negsuc 4

abbrev pub sys_ebadf : ℤ
sys_ebadf = negsuc 8

abbrev pub sys_eacces : ℤ
sys_eacces = negsuc 12

abbrev pub sys_ebusy : ℤ
sys_ebusy = negsuc 15

abbrev pub sys_eexist : ℤ
sys_eexist = negsuc 16

abbrev pub sys_enodev : ℤ
sys_enodev = negsuc 18

abbrev pub sys_enotdir : ℤ
sys_enotdir = negsuc 19

abbrev pub sys_eisdir : ℤ
sys_eisdir = negsuc 20

abbrev pub sys_einval : ℤ
sys_einval = negsuc 21

abbrev pub sys_enospc : ℤ
sys_enospc = negsuc 27

abbrev pub sys_espipe : ℤ
sys_espipe = negsuc 28

abbrev pub sys_enametoolong : ℤ
sys_enametoolong = negsuc 35

-- The switch on a negative argument: its cases by the value of the code, then `default`.
abbrev pub switch_cases : List ℤ
switch_cases =
    sys_eio ∷ sys_eio ∷ sys_eio ∷ sys_espipe ∷ sys_ebusy ∷ sys_enodev ∷ sys_enospc ∷ sys_enospc
    ∷ sys_einval ∷ sys_ebusy ∷ sys_ebadf ∷ sys_enospc ∷ sys_enoent ∷ sys_einval ∷ sys_enoent
    ∷ sys_eacces ∷ sys_enametoolong ∷ sys_esrch ∷ sys_enoent ∷ sys_einval ∷ sys_enodev ∷ sys_eexist
    ∷ sys_enotdir ∷ sys_eisdir ∷ []

unfoldable pub switch_errno : ℕ → ℤ
switch_errno n = get_or switch_cases n sys_eio

unfoldable pub fs_err_to_sys_errno : ℤ → ℤ
fs_err_to_sys_errno (pos n) = pos n
fs_err_to_sys_errno (negsuc n) = switch_errno n
