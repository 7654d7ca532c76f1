-- ===== src/Tests/Descriptors.antt =====
-- An open file table of three descriptors, the second of which is free.
use os_pi_is_cool.Base.{refl, arith, true, [], ◌∷◌, Ends}
use os_pi_is_cool.Vec.Holds.{Holds}
use os_pi_is_cool.Fs.Oft.{Oft, oft_close_file}
use os_pi_is_cool.Fs.Oft.Close.{Closed, oft_close_file_lem}

abbrev open_files : Oft
open_files = record {
  table = record {
    data_cells = 5 ∷ 0 ∷ 7 ∷ [];
    length = 3;
    capacity = 3;
    dtor = true;
    dropped = [];
  };
  initialized = true;
  entries = λ e. record { mode = 1; cursor = 0; ref_count = 1; ino_id = 4; inode = 9 };
  freed = [];
  put_inodes = [];
  removed_refs = [];
}

open_files-Holds : Holds open_files.table (5 ∷ 0 ∷ 7 ∷ [])
open_files-Holds = record {
  spare = [];
  stored = refl;
  counted = refl;
  room = omega arith;
  fits = omega arith;
  small = omega arith;
}

-- The last descriptor is closed.
oft_close_file_lem_example :
    Ends (Closed open_files (5 ∷ 0 ∷ 7 ∷ []) 7) ⊥ (oft_close_file 7 open_files)
oft_close_file_lem_example =
    oft_close_file_lem open_files (5 ∷ 0 ∷ 7 ∷ []) 7 open_files-Holds (ground arith) (omega arith)
      (omega arith)
