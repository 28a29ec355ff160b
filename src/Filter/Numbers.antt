-- ===== src/Filter/Numbers.antt =====
-- The system call numbers of include/cng/unistd.h that the filters name.
use fake_chroot_ng.Prelude.{ℕ}

abbrev pub nr_setxattr : ℕ
nr_setxattr = 5

abbrev pub nr_lsetxattr : ℕ
nr_lsetxattr = 6

abbrev pub nr_fsetxattr : ℕ
nr_fsetxattr = 7

abbrev pub nr_getxattr : ℕ
nr_getxattr = 8

abbrev pub nr_lgetxattr : ℕ
nr_lgetxattr = 9

abbrev pub nr_listxattr : ℕ
nr_listxattr = 11

abbrev pub nr_llistxattr : ℕ
nr_llistxattr = 12

abbrev pub nr_removexattr : ℕ
nr_removexattr = 14

abbrev pub nr_lremovexattr : ℕ
nr_lremovexattr = 15

abbrev pub nr_fremovexattr : ℕ
nr_fremovexattr = 16

abbrev pub nr_getcwd : ℕ
nr_getcwd = 17

abbrev pub nr_epoll_pwait : ℕ
nr_epoll_pwait = 22

abbrev pub nr_inotify_add_watch : ℕ
nr_inotify_add_watch = 27

abbrev pub nr_ioctl : ℕ
nr_ioctl = 29

abbrev pub nr_mknodat : ℕ
nr_mknodat = 33

abbrev pub nr_mkdirat : ℕ
nr_mkdirat = 34

abbrev pub nr_unlinkat : ℕ
nr_unlinkat = 35

abbrev pub nr_symlinkat : ℕ
nr_symlinkat = 36

abbrev pub nr_linkat : ℕ
nr_linkat = 37

abbrev pub nr_renameat : ℕ
nr_renameat = 38

abbrev pub nr_umount2 : ℕ
nr_umount2 = 39

abbrev pub nr_mount : ℕ
nr_mount = 40

abbrev pub nr_pivot_root : ℕ
nr_pivot_root = 41

abbrev pub nr_statfs : ℕ
nr_statfs = 43

abbrev pub nr_fstatfs : ℕ
nr_fstatfs = 44

abbrev pub nr_truncate : ℕ
nr_truncate = 45

abbrev pub nr_faccessat : ℕ
nr_faccessat = 48

abbrev pub nr_chdir : ℕ
nr_chdir = 49

abbrev pub nr_fchdir : ℕ
nr_fchdir = 50

abbrev pub nr_chroot : ℕ
nr_chroot = 51

abbrev pub nr_fchmod : ℕ
nr_fchmod = 52

abbrev pub nr_fchmodat : ℕ
nr_fchmodat = 53

abbrev pub nr_fchownat : ℕ
nr_fchownat = 54

abbrev pub nr_fchown : ℕ
nr_fchown = 55

abbrev pub nr_openat : ℕ
nr_openat = 56

abbrev pub nr_quotactl : ℕ
nr_quotactl = 60

abbrev pub nr_getdents64 : ℕ
nr_getdents64 = 61

abbrev pub nr_read : ℕ
nr_read = 63

abbrev pub nr_readv : ℕ
nr_readv = 65

abbrev pub nr_pread64 : ℕ
nr_pread64 = 67

abbrev pub nr_preadv : ℕ
nr_preadv = 69

abbrev pub nr_pselect6 : ℕ
nr_pselect6 = 72

abbrev pub nr_ppoll : ℕ
nr_ppoll = 73

abbrev pub nr_signalfd4 : ℕ
nr_signalfd4 = 74

abbrev pub nr_readlinkat : ℕ
nr_readlinkat = 78

abbrev pub nr_newfstatat : ℕ
nr_newfstatat = 79

abbrev pub nr_fstat : ℕ
nr_fstat = 80

abbrev pub nr_utimensat : ℕ
nr_utimensat = 88

abbrev pub nr_acct : ℕ
nr_acct = 89

abbrev pub nr_capget : ℕ
nr_capget = 90

abbrev pub nr_capset : ℕ
nr_capset = 91

abbrev pub nr_waitid : ℕ
nr_waitid = 95

abbrev pub nr_timer_create : ℕ
nr_timer_create = 107

abbrev pub nr_timer_delete : ℕ
nr_timer_delete = 111

abbrev pub nr_ptrace : ℕ
nr_ptrace = 117

abbrev pub nr_kill : ℕ
nr_kill = 129

abbrev pub nr_tkill : ℕ
nr_tkill = 130

abbrev pub nr_tgkill : ℕ
nr_tgkill = 131

abbrev pub nr_rt_sigsuspend : ℕ
nr_rt_sigsuspend = 133

abbrev pub nr_rt_sigaction : ℕ
nr_rt_sigaction = 134

abbrev pub nr_rt_sigprocmask : ℕ
nr_rt_sigprocmask = 135

abbrev pub nr_rt_sigtimedwait : ℕ
nr_rt_sigtimedwait = 137

abbrev pub nr_rt_sigqueueinfo : ℕ
nr_rt_sigqueueinfo = 138

abbrev pub nr_rt_sigreturn : ℕ
nr_rt_sigreturn = 139

abbrev pub nr_setregid : ℕ
nr_setregid = 143

abbrev pub nr_setgid : ℕ
nr_setgid = 144

abbrev pub nr_setreuid : ℕ
nr_setreuid = 145

abbrev pub nr_setuid : ℕ
nr_setuid = 146

abbrev pub nr_setresuid : ℕ
nr_setresuid = 147

abbrev pub nr_getresuid : ℕ
nr_getresuid = 148

abbrev pub nr_setresgid : ℕ
nr_setresgid = 149

abbrev pub nr_getresgid : ℕ
nr_getresgid = 150

abbrev pub nr_setfsuid : ℕ
nr_setfsuid = 151

abbrev pub nr_setfsgid : ℕ
nr_setfsgid = 152

abbrev pub nr_getgroups : ℕ
nr_getgroups = 158

abbrev pub nr_setgroups : ℕ
nr_setgroups = 159

abbrev pub nr_uname : ℕ
nr_uname = 160

abbrev pub nr_prctl : ℕ
nr_prctl = 167

abbrev pub nr_getuid : ℕ
nr_getuid = 174

abbrev pub nr_geteuid : ℕ
nr_geteuid = 175

abbrev pub nr_getgid : ℕ
nr_getgid = 176

abbrev pub nr_getegid : ℕ
nr_getegid = 177

abbrev pub nr_mq_open : ℕ
nr_mq_open = 180

abbrev pub nr_mq_unlink : ℕ
nr_mq_unlink = 181

abbrev pub nr_mq_timedsend : ℕ
nr_mq_timedsend = 182

abbrev pub nr_mq_timedreceive : ℕ
nr_mq_timedreceive = 183

abbrev pub nr_mq_notify : ℕ
nr_mq_notify = 184

abbrev pub nr_mq_getsetattr : ℕ
nr_mq_getsetattr = 185

abbrev pub nr_msgget : ℕ
nr_msgget = 186

abbrev pub nr_msgctl : ℕ
nr_msgctl = 187

abbrev pub nr_msgrcv : ℕ
nr_msgrcv = 188

abbrev pub nr_msgsnd : ℕ
nr_msgsnd = 189

abbrev pub nr_semget : ℕ
nr_semget = 190

abbrev pub nr_semctl : ℕ
nr_semctl = 191

abbrev pub nr_semtimedop : ℕ
nr_semtimedop = 192

abbrev pub nr_semop : ℕ
nr_semop = 193

abbrev pub nr_shmget : ℕ
nr_shmget = 194

abbrev pub nr_shmctl : ℕ
nr_shmctl = 195

abbrev pub nr_shmat : ℕ
nr_shmat = 196

abbrev pub nr_shmdt : ℕ
nr_shmdt = 197

abbrev pub nr_socket : ℕ
nr_socket = 198

abbrev pub nr_bind : ℕ
nr_bind = 200

abbrev pub nr_accept : ℕ
nr_accept = 202

abbrev pub nr_connect : ℕ
nr_connect = 203

abbrev pub nr_getsockname : ℕ
nr_getsockname = 204

abbrev pub nr_getpeername : ℕ
nr_getpeername = 205

abbrev pub nr_sendto : ℕ
nr_sendto = 206

abbrev pub nr_recvfrom : ℕ
nr_recvfrom = 207

abbrev pub nr_getsockopt : ℕ
nr_getsockopt = 209

abbrev pub nr_sendmsg : ℕ
nr_sendmsg = 211

abbrev pub nr_recvmsg : ℕ
nr_recvmsg = 212

abbrev pub nr_mremap : ℕ
nr_mremap = 216

abbrev pub nr_clone : ℕ
nr_clone = 220

abbrev pub nr_execve : ℕ
nr_execve = 221

abbrev pub nr_mmap : ℕ
nr_mmap = 222

abbrev pub nr_swapon : ℕ
nr_swapon = 224

abbrev pub nr_swapoff : ℕ
nr_swapoff = 225

abbrev pub nr_mprotect : ℕ
nr_mprotect = 226

abbrev pub nr_rt_tgsigqueueinfo : ℕ
nr_rt_tgsigqueueinfo = 240

abbrev pub nr_accept4 : ℕ
nr_accept4 = 242

abbrev pub nr_recvmmsg : ℕ
nr_recvmmsg = 243

abbrev pub nr_wait4 : ℕ
nr_wait4 = 260

abbrev pub nr_fanotify_mark : ℕ
nr_fanotify_mark = 263

abbrev pub nr_name_to_handle_at : ℕ
nr_name_to_handle_at = 264

abbrev pub nr_open_by_handle_at : ℕ
nr_open_by_handle_at = 265

abbrev pub nr_sendmmsg : ℕ
nr_sendmmsg = 269

abbrev pub nr_process_vm_readv : ℕ
nr_process_vm_readv = 270

abbrev pub nr_process_vm_writev : ℕ
nr_process_vm_writev = 271

abbrev pub nr_renameat2 : ℕ
nr_renameat2 = 276

abbrev pub nr_seccomp : ℕ
nr_seccomp = 277

abbrev pub nr_execveat : ℕ
nr_execveat = 281

abbrev pub nr_preadv2 : ℕ
nr_preadv2 = 286

abbrev pub nr_statx : ℕ
nr_statx = 291

abbrev pub nr_rseq : ℕ
nr_rseq = 293

abbrev pub nr_io_uring_setup : ℕ
nr_io_uring_setup = 425

abbrev pub nr_io_uring_enter : ℕ
nr_io_uring_enter = 426

abbrev pub nr_io_uring_register : ℕ
nr_io_uring_register = 427

abbrev pub nr_open_tree : ℕ
nr_open_tree = 428

abbrev pub nr_move_mount : ℕ
nr_move_mount = 429

abbrev pub nr_fsopen : ℕ
nr_fsopen = 430

abbrev pub nr_fsconfig : ℕ
nr_fsconfig = 431

abbrev pub nr_fsmount : ℕ
nr_fsmount = 432

abbrev pub nr_fspick : ℕ
nr_fspick = 433

abbrev pub nr_pidfd_open : ℕ
nr_pidfd_open = 434

abbrev pub nr_clone3 : ℕ
nr_clone3 = 435

abbrev pub nr_openat2 : ℕ
nr_openat2 = 437

abbrev pub nr_pidfd_getfd : ℕ
nr_pidfd_getfd = 438

abbrev pub nr_faccessat2 : ℕ
nr_faccessat2 = 439

abbrev pub nr_epoll_pwait2 : ℕ
nr_epoll_pwait2 = 441

abbrev pub nr_mount_setattr : ℕ
nr_mount_setattr = 442

abbrev pub nr_quotactl_fd : ℕ
nr_quotactl_fd = 443

abbrev pub nr_fchmodat2 : ℕ
nr_fchmodat2 = 452

abbrev pub nr_statmount : ℕ
nr_statmount = 457

abbrev pub nr_listmount : ℕ
nr_listmount = 458

abbrev pub nr_setxattrat : ℕ
nr_setxattrat = 463

abbrev pub nr_getxattrat : ℕ
nr_getxattrat = 464

abbrev pub nr_listxattrat : ℕ
nr_listxattrat = 465

abbrev pub nr_removexattrat : ℕ
nr_removexattrat = 466

abbrev pub nr_open_tree_attr : ℕ
nr_open_tree_attr = 467

abbrev pub nr_file_getattr : ℕ
nr_file_getattr = 468

abbrev pub nr_file_setattr : ℕ
nr_file_setattr = 469
