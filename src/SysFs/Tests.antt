-- ===== src/SysFs/Tests.antt =====
-- A formatted RAM disk of 16 blocks, with the root as the only vnode, and a process in the root.
use chanux.Common.{true, some, [], ◌∷◌, arith, ◌==◌, if◌then◌else◌}
use chanux.Memory.{Mem}
use chanux.Vnode.{fresh_vnode}
use chanux.FileTable.{blank_file, empty_table}
use chanux.Ramfs.{Ramfs, no_inode, format, new_inode}
use chanux.Vfs.{Vfs}
use chanux.SysFs.{SysState, sys_chdir}
use chanux.SysFs.Chdir.{HasPermissions, IsRefused, sys_chdir-IsRefused}

abbrev disk : Ramfs
disk = format (λ a. 0) 16 (λ i. no_inode) 5

abbrev vfs : Vfs
vfs = record {
  files = record {
    files = λ f. blank_file;
    vnodes = record {
      table = λ v. record fresh_vnode {
        type = 2;
        ref_count = if v == 0 then 1 else 0;
        inode = some 0;
        ops = some 0;
      };
      root = some 0;
    };
    initialized = true;
  };
  fs = disk;
  initialized = true;
}

abbrev state : SysState
state = record { vfs = vfs; caller = some (record { fd_table = some empty_table; cwd = 47 ∷ [] }) }

-- The path "/" at address 4096.
abbrev user : Mem
user a = if a == 4096 then 47 else 0

permissions : HasPermissions disk
unfolding format new_inode
permissions = record { low = λ i. ground arith; some_set = λ i dir. ground arith }

sys_chdir-IsRefused_example : IsRefused state (sys_chdir state user 4096)
sys_chdir-IsRefused_example = sys_chdir-IsRefused state user 4096 permissions
