-- ===== src/Ipc/Queue.antt =====
-- The message queues of src/monitor/ipcreg.c. The linked list is the list of its messages, the
-- oldest first; a long is its bit pattern.
use fake_chroot_ng.Prelude.{
  ℕ, zero, suc, ◌+◌, ◌-◌, ◌%◌, ◌^◌, Bool, true, not, ◌&&◌, Option, none, some, List, [], ◌∷◌, ◌++◌,
  ltb, leb, ◌==◌, ◌!=◌, bit_and, if◌then◌else◌,
}

-- `struct gmsg`, with the bytes behind it.
pub record Gmsg : Type 0 where
  pub mtype : ℕ
  pub size : ℕ
  pub text : List ℕ

-- `struct msg_q`
pub record MsgQ : Type 0 where
  pub msqid : ℕ
  pub key : ℕ
  pub mode : ℕ
  pub uid : ℕ
  pub gid : ℕ
  pub cuid : ℕ
  pub cgid : ℕ
  pub stime : ℕ
  pub rtime : ℕ
  pub ctime : ℕ
  pub cbytes : ℕ
  pub qnum : ℕ
  pub qbytes : ℕ
  pub lspid : ℕ
  pub lrpid : ℕ
  pub cpid : ℕ
  pub tpid : ℕ
  pub msgs : List Gmsg

-- A long below 0, and the order of longs.
abbrev pub neg64 : ℕ → Bool
neg64 n = leb (2 ^ 63) n

abbrev pub biased : ℕ → ℕ
biased n = (n + 2 ^ 63) % 2 ^ 64

abbrev pub except : ℕ → Bool
except flg = bit_and flg 0o20000 != 0

unfoldable pub msg_matches : Gmsg → ℕ → ℕ → Bool
msg_matches m msgtyp msgflg =
    if msgtyp == 0
    then true
    else if not (neg64 msgtyp)
    then (if except msgflg then m.mtype != msgtyp else m.mtype == msgtyp)
    else leb (biased m.mtype) (biased (if msgtyp == 2 ^ 63 then 2 ^ 63 - 1 else 2 ^ 64 - msgtyp))

-- `!best || m->mtype < best->mtype`
abbrev pub lower : Gmsg → Option (ℕ × Gmsg) → Bool
lower m none = true
lower m (some (j, b)) = ltb (biased m.mtype) (biased b.mtype)

-- The loop of `msg_pick` from message `i` on: which message, counted from the head.
unfoldable pub pick_loop : ℕ → ℕ → List Gmsg → ℕ → Option (ℕ × Gmsg) → Option (ℕ × Gmsg)
pick_loop msgtyp msgflg [] i best = best
pick_loop msgtyp msgflg (m ∷ ms) i best =
    let matched = msg_matches m msgtyp msgflg in
    let rest =
      pick_loop msgtyp msgflg ms (i + 1) (if matched && lower m best then some (i, m) else best) in
    if matched && not (neg64 msgtyp) then some (i, m) else rest

unfoldable pub msg_pick : MsgQ → ℕ → ℕ → Option (ℕ × Gmsg)
unfolding pick_loop
msg_pick q msgtyp msgflg = pick_loop msgtyp msgflg q.msgs 0 none

abbrev pub remove : ℕ → List Gmsg → List Gmsg
remove i [] = []
remove zero (m ∷ ms) = ms
remove (suc i) (m ∷ ms) = m ∷ remove i ms

-- `msg_unlink` of message `i`, which is `m`
unfoldable pub msg_unlink : MsgQ → ℕ → Gmsg → MsgQ
msg_unlink q i m = record q {
  msgs = remove i q.msgs;
  cbytes = (q.cbytes + (2 ^ 64 - m.size)) % 2 ^ 64;
  qnum = (q.qnum + (2 ^ 64 - 1)) % 2 ^ 64;
}

unfoldable pub msg_fits : MsgQ → ℕ → Bool
msg_fits q size = leb ((q.cbytes + size) % 2 ^ 64) q.qbytes && leb ((q.qnum + 1) % 2 ^ 64) q.qbytes

unfoldable pub msg_enqueue : MsgQ → Gmsg → ℕ → ℕ → MsgQ
msg_enqueue q m pid now = record q {
  msgs = q.msgs ++ m ∷ [];
  cbytes = (q.cbytes + m.size) % 2 ^ 64;
  qnum = (q.qnum + 1) % 2 ^ 64;
  lspid = pid;
  stime = now;
  tpid = pid;
}
