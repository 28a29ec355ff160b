-- ===== src/Ipc/Counts.antt =====
-- The byte and message counts of the queues of src/monitor/ipcreg.c.
use mathlib.Core.Path.{subst}
use fake_chroot_ng.Prelude.{
  ℕ, zero, suc, ◌+◌, ◌^◌, ◌<◌, ◌≤◌, ◌≡◌, ap, true, some, List, [], ◌∷◌, ◌++◌, arith, length,
  length-append, get_elem?,
}
use fake_chroot_ng.Ipc.Queue.{Gmsg, MsgQ, msg_pick, remove, msg_unlink, msg_fits, msg_enqueue}
use fake_chroot_ng.Ipc.Pick.{Picked, msg_pick-Picked, Picked-get_elem?}

abbrev pub total : List Gmsg → ℕ
total [] = 0
total (m ∷ ms) = m.size + total ms

-- The counts are those of the messages, and within the limit.
pub record IsCounted (q : MsgQ) : Type 0 where
  pub bytes_counted : q.cbytes ≡ total q.msgs
  pub number_counted : q.qnum ≡ length q.msgs
  pub bytes_within : q.cbytes ≤ q.qbytes
  pub number_within : q.qnum ≤ q.qbytes
  pub limit : q.qbytes < 2 ^ 63

-- The traffic of a queue from its creation on, under one limit: messages that fit, of at most
-- MSGMAX bytes, and messages that are picked and taken.
pub data Traffic (first : MsgQ) : MsgQ → Type 0 where
  created : Traffic first first
  sent :
      (q : MsgQ) (m : Gmsg) (pid now : ℕ)
      → Traffic first q
      → m.size ≤ 8192
      → msg_fits q m.size ≡ true
      → Traffic first (msg_enqueue q m pid now)
  received :
      (q : MsgQ) (msgtyp msgflg i : ℕ) (m : Gmsg)
      → Traffic first q
      → msg_pick q msgtyp msgflg ≡ some (i, m)
      → Traffic first (msg_unlink q i m)

total-append : (ms : List Gmsg) (m : Gmsg) → total (ms ++ m ∷ []) ≡ total ms + m.size
total-append [] m = omega arith
total-append (x ∷ ms) m = omega (arith, total-append ms m)

total-remove :
    (ms : List Gmsg) (i : ℕ) (m : Gmsg)
    → get_elem? ms i ≡ some m
    → total (remove i ms) + m.size ≡ total ms
total-remove [] i m e = absurd (cc)
total-remove (x ∷ ms) zero m e = omega (arith, ap (λ m. m.size) (same e))
  where
    same : some x ≡ some m → x ≡ m
    same e = cc
total-remove (x ∷ ms) (suc i) m e = omega (arith, total-remove ms i m e)

length-remove :
    (ms : List Gmsg) (i : ℕ) (m : Gmsg)
    → get_elem? ms i ≡ some m
    → length (remove i ms) + 1 ≡ length ms
length-remove [] i m e = absurd (cc)
length-remove (x ∷ ms) zero m e = omega arith
length-remove (x ∷ ms) (suc i) m e = omega (arith, length-remove ms i m e)

enqueue-IsCounted :
    (q : MsgQ) (m : Gmsg) (pid now : ℕ)
    → IsCounted q
    → m.size ≤ 8192
    → msg_fits q m.size ≡ true
    → IsCounted (msg_enqueue q m pid now)
unfolding msg_fits msg_enqueue
enqueue-IsCounted q m pid now c h e = record {
  bytes_counted = omega (arith, c.bytes_counted, c.bytes_within, c.limit, total-append q.msgs m, h);
  number_counted =
      omega (arith, c.number_counted, c.number_within, c.limit, length-append q.msgs (m ∷ []));
  bytes_within = ground (arith, e);
  number_within = ground (arith, e);
  limit = c.limit;
}

unlink-IsCounted :
    (q : MsgQ) (i : ℕ) (m : Gmsg)
    → IsCounted q
    → get_elem? q.msgs i ≡ some m
    → IsCounted (msg_unlink q i m)
unfolding msg_unlink
unlink-IsCounted q i m c e = record {
  bytes_counted =
      omega (arith, c.bytes_counted, c.bytes_within, c.limit, total-remove q.msgs i m e);
  number_counted =
      omega (arith, c.number_counted, c.number_within, c.limit, length-remove q.msgs i m e);
  bytes_within = omega (arith, c.bytes_counted, c.bytes_within, c.limit, total-remove q.msgs i m e);
  number_within =
      omega (arith, c.number_counted, c.number_within, c.limit, length-remove q.msgs i m e);
  limit = c.limit;
}

-- Through any traffic, of messages of at most MSGMAX bytes that fit and of messages that are
-- picked and taken, the byte and message counts of a queue that starts right are those of its
-- messages, and neither is over the limit. The limit is less than 2^63.
pub Traffic-IsCounted : (first q : MsgQ) → IsCounted first → Traffic first q → IsCounted q
Traffic-IsCounted first _ c created = c
Traffic-IsCounted first _ c (sent q m pid now t h e) =
    enqueue-IsCounted q m pid now (Traffic-IsCounted first q c t) h e
Traffic-IsCounted first _ c (received q msgtyp msgflg i m t e) =
    unlink-IsCounted q i m (Traffic-IsCounted first q c t) (
      Picked-get_elem? msgtyp msgflg i q.msgs m
        (subst (Picked msgtyp msgflg q.msgs) e (msg_pick-Picked q msgtyp msgflg)))
