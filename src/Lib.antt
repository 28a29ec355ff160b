-- ===== src/Lib.antt =====
-- chroot-ng: a rootless chroot whose monitor emulates the system calls of a guest process.
--
-- The monitor runs in the guest's process. A trapped call is dispatched to handlers that translate
-- the guest's paths (src/path/path.c), answer for the guest's identity (src/monitor/cred.c) or
-- send an operation on semaphores to the broker (src/monitor/ipcreg.c), which parks those that have
-- to wait. Where the host makes no hard links, they are emulated by symbolic links to a store
-- (src/monitor/l2s.c). Path view and identity are
-- read by every thread and changed by few, so both are published through two buffers, a pointer and
-- a sequence number. Which calls trap is decided by a seccomp filter (src/monitor/seccomp.c), or the
-- calls in the guest's code are rewritten to branches into the monitor (src/monitor/rewrite.c) as
-- the loader (src/loader/elf.c) places it.
--
-- What models which part, with the names of the C functions:
--   Cred          src/monitor/cred.c and the inline functions of include/cng/monitor.h: the set as
--                 a record, do_setuid to do_setgroups as functions to an answer and a set.
--                 Cred.Setter: CRED_SET, a setter on a copy. Cred.Caps: do_capget, do_capset.
--                 Cred.Exec: cng_cred_seed, cng_cred_setup, cng_cred_exec. Cred.Real: real_ids,
--                 same_set, real_set, for a host that refuses. Cred.Handle: cng_cred_handle.
--   Publish       the write_begin, write_end, read_begin and read_retry of cred.c and path.c as steps
--                 of one reader and any number of writers, with forks between reads; the reader's
--                 loads may come after its second look at the sequence.
--   Bytes         src/rt/rt.c: C strings as the bytes before the terminator, and checked copies.
--   Path          src/path/path.c: cng_path_canon and cng_path_wants_dir. Path.View: the view,
--                 mount_of_1, translate_mnt_1, untranslate_1, host_ro_1 and the two zones.
--                 Path.Change: cng_fs_init, cng_fs_add_bind, chroot_1 and set_cwd_1.
--   Ipc           src/monitor/ipcreg.c: sem_try_op. Ipc.Undo: sem_undo_apply. Ipc.Queue: msg_pick,
--                 msg_unlink, msg_fits and msg_enqueue, on a queue as the list of its messages.
--                 Ipc.Table: ids, permissions and msg_do_get, on a table as a list of slots.
--                 Ipc.SemGet: sem_do_get. Ipc.Waiters: cng_ipc_rescan, with sem_undo_find, on one
--                 registry. Ipc.Parked: waiter_park, cng_ipc_expire, waiters_eidrm.
--   Filter        src/monitor/seccomp.c: struct sock_filter and cng_bpf_run. Filter.Numbers,
--                 Filter.Tables: the numbers and the tables. Filter.Build: the three builders, block
--                 by block. Filter.Denied: cng_denied_syscall. Filter.Traps: cng_seccomp_traps.
--                 Filter.Policy: what the filters are to answer, said of the call.
--   Loader        src/loader/elf.c: elf_read_headers and cng_elf_plan_fd, with the page arithmetic of
--                 include/cng/loader.h. Loader.Protect: of map_anon the reads and the protections.
--   Rewrite       src/monitor/rewrite.c: cng_rewrite_seg, on memory as the words at multiples of 4.
--                 Rewrite.Branch: where an encoded branch goes.
--   Links         src/monitor/l2s.c: the names of a group of emulated hard links. Links.Place: l2s_locate
--                 and find_marker, with host_dir_guest of src/monitor/dispatch.c.
--   Guest         the guest's memory as the copies of src/monitor/uaccess.c reach it.
--   Prelude       Boolean tests, lists and the answers of system calls.
-- The other modules below these hold the theorems and, named Tests, runs at concrete inputs.
--
-- Numbers: an unsigned int, a short and a u64 are natural numbers with the wrap-around written out; a
-- signed number is its bit pattern, as in Ipc. A path is a list of bytes that are not 0, and a
-- fixed buffer is the number of bytes that it has.
--
-- Fuel: the loop of cng_path_canon has the path's length and one more, and each round takes a byte
-- at least; cng_bpf_run has a round for each instruction, and a jump only goes forward;
-- msg_alloc_id stops after four tries for each slot, as the code does; the inner loop of cng_ipc_rescan has a round for each waiter
-- and one more, and each round takes one that came later, as has the outer one, where each pass with
-- progress frees a waiter; a number has at most as many digits as its value and one; l2s_canonical
-- takes a byte a round.
--
-- Parameters: the kernel's answers, among them the host's ids, its groups, the set of capabilities
-- that it knows and the name that it gives a descriptor; the guest's memory; the process registry
-- (cng_procreg_has); the clock; what read_exact gives and cng_hits_monitor says; the template of
-- src/monitor/tramp.S; the bounds of the gate of src/rt/gate.S and the calls that an ambient filter
-- refuses; whether a new set's or row's arrays can be had; the row that sem_undo_find answers to a single
-- vector; what l2s_lstat and getdents64 find in the host's
-- directories; the start time of a process. Of the row an
-- operation vector keeps the adjustments aside, where the code writes through a pointer to it, which
-- nothing else reads while the vector runs.
--
-- Not modelled: the handlers of src/monitor/dispatch.c around the parts above, ptrace, procfs,
-- netlink, sockets, the mapping calls of the loader and its stack, the rewriting of running code and
-- the assembly, which act on live processes or are mostly host calls; the set-up of directories in
-- path.c; the making and dropping of emulated links, which is a protocol of renames on the host; a
-- fork in the middle of a read of a published view; the copy by words in cng_strlcpy, of which Bytes
-- has the result; the rest of the broker.
pub mod Prelude
pub mod Guest
pub mod Cred
pub mod Publish
pub mod Rewrite
pub mod Bytes
pub mod Path
pub mod Ipc
pub mod Filter
pub mod Loader
pub mod Links
