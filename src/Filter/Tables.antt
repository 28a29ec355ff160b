-- ===== src/Filter/Tables.antt =====
-- The tables of src/monitor/seccomp.c, src/monitor/blocklist.c and src/monitor/tty.c.
use fake_chroot_ng.Prelude.{ℕ, List, [], ◌∷◌}
use fake_chroot_ng.Filter.Numbers.{
  nr_setxattr, nr_lsetxattr, nr_fsetxattr, nr_getxattr, nr_lgetxattr, nr_listxattr, nr_llistxattr,
  nr_removexattr, nr_lremovexattr, nr_fremovexattr, nr_getcwd, nr_inotify_add_watch, nr_mknodat,
  nr_mkdirat, nr_unlinkat, nr_symlinkat, nr_linkat, nr_renameat, nr_umount2, nr_mount,
  nr_pivot_root, nr_statfs, nr_truncate, nr_faccessat, nr_chdir, nr_fchdir, nr_chroot, nr_fchmod,
  nr_fchmodat, nr_fchownat, nr_fchown, nr_openat, nr_quotactl, nr_read, nr_readv, nr_pread64,
  nr_preadv, nr_signalfd4, nr_readlinkat, nr_newfstatat, nr_utimensat, nr_acct, nr_capget,
  nr_capset, nr_waitid, nr_timer_create, nr_timer_delete, nr_ptrace, nr_kill, nr_tkill, nr_tgkill,
  nr_rt_sigsuspend, nr_rt_sigaction, nr_rt_sigprocmask, nr_rt_sigtimedwait, nr_setregid, nr_setgid,
  nr_setreuid, nr_setuid, nr_setresuid, nr_getresuid, nr_setresgid, nr_getresgid, nr_setfsuid,
  nr_setfsgid, nr_getgroups, nr_setgroups, nr_uname, nr_getuid, nr_geteuid, nr_getgid, nr_getegid,
  nr_mq_open, nr_mq_unlink, nr_mq_timedsend, nr_mq_timedreceive, nr_mq_notify, nr_mq_getsetattr,
  nr_msgget, nr_msgctl, nr_msgrcv, nr_msgsnd, nr_semget, nr_semctl, nr_semtimedop, nr_semop,
  nr_shmget, nr_shmctl, nr_shmat, nr_shmdt, nr_socket, nr_bind, nr_accept, nr_connect,
  nr_getsockname, nr_getpeername, nr_sendto, nr_recvfrom, nr_getsockopt, nr_sendmsg, nr_recvmsg,
  nr_execve, nr_swapon, nr_swapoff, nr_accept4, nr_recvmmsg, nr_wait4, nr_fanotify_mark,
  nr_name_to_handle_at, nr_open_by_handle_at, nr_sendmmsg, nr_process_vm_readv,
  nr_process_vm_writev, nr_renameat2, nr_seccomp, nr_execveat, nr_preadv2, nr_statx, nr_rseq,
  nr_io_uring_setup, nr_io_uring_enter, nr_io_uring_register, nr_open_tree, nr_move_mount,
  nr_fsopen, nr_fsconfig, nr_fsmount, nr_fspick, nr_clone3, nr_openat2, nr_pidfd_getfd,
  nr_faccessat2, nr_mount_setattr, nr_quotactl_fd, nr_fchmodat2, nr_statmount, nr_listmount,
  nr_setxattrat, nr_getxattrat, nr_listxattrat, nr_removexattrat, nr_open_tree_attr,
  nr_file_getattr, nr_file_setattr,
}

-- The calls that carry a path, and those whose answer has to be corrected.
abbrev pub path_syscalls : List ℕ
path_syscalls =
    nr_openat ∷ nr_openat2 ∷ nr_newfstatat ∷ nr_statx ∷ nr_faccessat ∷ nr_faccessat2 ∷ nr_readlinkat
    ∷ nr_mkdirat ∷ nr_mknodat ∷ nr_unlinkat ∷ nr_fchownat ∷ nr_fchmodat ∷ nr_utimensat
    ∷ nr_symlinkat ∷ nr_linkat ∷ nr_renameat ∷ nr_renameat2 ∷ nr_truncate ∷ nr_statfs ∷ nr_chdir
    ∷ nr_fchdir ∷ nr_getcwd ∷ nr_chroot ∷ nr_rt_sigprocmask ∷ nr_rt_sigaction ∷ nr_execve
    ∷ nr_execveat ∷ nr_name_to_handle_at ∷ nr_setxattr ∷ nr_lsetxattr ∷ nr_getxattr ∷ nr_lgetxattr
    ∷ nr_listxattr ∷ nr_llistxattr ∷ nr_removexattr ∷ nr_lremovexattr ∷ nr_setxattrat
    ∷ nr_getxattrat ∷ nr_listxattrat ∷ nr_removexattrat ∷ nr_file_getattr ∷ nr_file_setattr
    ∷ nr_inotify_add_watch ∷ nr_bind ∷ nr_connect ∷ nr_sendto ∷ nr_sendmsg ∷ nr_getsockname
    ∷ nr_getpeername ∷ nr_accept ∷ nr_accept4 ∷ nr_recvfrom ∷ nr_recvmsg ∷ nr_sendmmsg ∷ nr_recvmmsg
    ∷ nr_fchmodat2 ∷ nr_socket ∷ nr_rt_sigsuspend ∷ nr_rt_sigtimedwait ∷ nr_signalfd4
    ∷ nr_timer_create ∷ nr_timer_delete ∷ nr_rseq ∷ nr_uname ∷ nr_ptrace ∷ nr_pidfd_getfd ∷ []

-- The credential calls.
abbrev pub id_syscalls : List ℕ
id_syscalls =
    nr_getuid ∷ nr_geteuid ∷ nr_getgid ∷ nr_getegid ∷ nr_getresuid ∷ nr_getresgid ∷ nr_getgroups
    ∷ nr_setuid ∷ nr_setgid ∷ nr_setresuid ∷ nr_setresgid ∷ nr_setreuid ∷ nr_setregid ∷ nr_setgroups
    ∷ nr_setfsuid ∷ nr_setfsgid ∷ nr_fchown ∷ nr_fchmod ∷ nr_capget ∷ nr_capset ∷ nr_getsockopt ∷ []

-- System V IPC.
abbrev pub ipc_syscalls : List ℕ
ipc_syscalls =
    nr_shmget ∷ nr_shmat ∷ nr_shmdt ∷ nr_shmctl ∷ nr_semget ∷ nr_semop ∷ nr_semctl ∷ nr_semtimedop
    ∷ nr_msgget ∷ nr_msgsnd ∷ nr_msgrcv ∷ nr_msgctl ∷ []

-- The calls that are refused by design.
abbrev pub enosys_syscalls : List ℕ
enosys_syscalls =
    nr_io_uring_setup ∷ nr_io_uring_enter ∷ nr_io_uring_register ∷ nr_clone3 ∷ nr_mount ∷ nr_umount2
    ∷ nr_pivot_root ∷ nr_mount_setattr ∷ nr_acct ∷ nr_quotactl ∷ nr_quotactl_fd ∷ nr_swapon
    ∷ nr_swapoff ∷ nr_open_tree ∷ nr_open_tree_attr ∷ nr_move_mount ∷ nr_fsopen ∷ nr_fsconfig
    ∷ nr_fsmount ∷ nr_fspick ∷ nr_open_by_handle_at ∷ nr_fanotify_mark ∷ nr_statmount ∷ nr_listmount
    ∷ nr_seccomp ∷ nr_mq_open ∷ nr_mq_unlink ∷ nr_mq_timedsend ∷ nr_mq_timedreceive ∷ nr_mq_notify
    ∷ nr_mq_getsetattr ∷ []

-- What a read-only bind refuses on a descriptor.
abbrev pub ro_fd_syscalls : List ℕ
ro_fd_syscalls = nr_fchmod ∷ nr_fchown ∷ nr_fsetxattr ∷ nr_fremovexattr ∷ []

-- `cng_setid_deny_nrs` of src/monitor/blocklist.c
abbrev pub setid_deny_nrs : List ℕ
setid_deny_nrs =
    nr_setuid ∷ nr_setgid ∷ nr_setreuid ∷ nr_setregid ∷ nr_setresgid ∷ nr_setfsuid ∷ nr_setfsgid
    ∷ nr_setgroups ∷ []

-- The reads that a synthesized file has to see.
abbrev pub read_family : List ℕ
read_family = nr_read ∷ nr_pread64 ∷ nr_readv ∷ nr_preadv ∷ nr_preadv2 ∷ []

-- The calls of a tracer.
abbrev pub tracer_nrs : List ℕ
tracer_nrs =
    nr_wait4 ∷ nr_waitid ∷ nr_kill ∷ nr_tkill ∷ nr_tgkill ∷ nr_process_vm_readv
    ∷ nr_process_vm_writev ∷ []

-- `cng_ioctl_tty`: the terminal requests.
abbrev pub ioctl_tty : List ℕ
ioctl_tty = 0x802c542a ∷ 0x402c542b ∷ 0x402c542c ∷ 0x402c542d ∷ 0x5429 ∷ 0x5404 ∷ []

-- `cng_ioctl_mnt_write`: the requests that write the mount.
abbrev pub ioctl_mnt_write : List ℕ
ioctl_mnt_write =
    0x40086602 ∷ 0x401c5820 ∷ 0x40087602 ∷ 0x800c6613 ∷ 0x40806685 ∷ 0x00006609 ∷ 0x0000660c
    ∷ 0x50009401 ∷ 0x50009417 ∷ 0x5000940e ∷ 0x50009418 ∷ 0x5000940f ∷ 0x5000943f ∷ 0x50009402
    ∷ 0x40309410 ∷ 0x4008941a ∷ 0xc0c89425 ∷ 0x4004f50d ∷ 0xc0189436 ∷ []
