-- ===== src/Com/Reply/Sending.antt =====
-- The bytes that `send_batch` of src/com/socket_server.cpp sends and keeps.
use testbed.Prelude.{
  ℕ, ◌+◌, ◌-◌, ◌≤◌, ◌≡◌, inl, inr, refl, subst, ap, sym, ◌∙◌, List, [], ◌∷◌, ◌++◌, Option, none,
  some, arith, Bytes, length, take, drop, length-take, length-drop, ◌==◌, Bool-cases, append_assoc,
  append-nil, take-append-drop, drop-drop, drop-take, take_of_length_le, ltb, ==_iff,
}
use testbed.Com.Conn.{Connection, Socket, Batchbuf, WriteAnswer, Written, write, answer_write}
use testbed.Com.Reply.{
  OnSocket, unsent, send_batch, send_front, batch_sent, after_batch, next_buffer, count_batch_bytes,
}

-- All that is left to send, oldest first.
abbrev pub pending : List Batchbuf → Bytes
pending [] = []
pending (b ∷ bs) = unsent b ++ pending bs

-- A buffer holds what it counts.
abbrev IsFilled : Batchbuf → Type 0
IsFilled b = (length b.buf ≡ b.datalen) × (b.offset ≤ b.datalen)

abbrev pub AreFilled : List Batchbuf → Type 0
AreFilled [] = Unit
AreFilled (b ∷ bs) = IsFilled b × AreFilled bs

-- `write` takes a first part of the bytes and sends it.
write_part :
    (k : Socket) (bs : Bytes)
    → ((write k bs).ret ≤ length bs)
      × ((write k bs).socket.sent ≡ k.sent ++ take (write k bs).ret bs)
unfolding write
write_part k bs = answered k.writes
  where
    answered :
        (answers : List WriteAnswer)
        → ((answer_write answers k bs).ret ≤ length bs)
          × ((answer_write answers k bs).socket.sent
              ≡ k.sent ++ take (answer_write answers k bs).ret bs)
    answered [] = unfold answer_write in (omega arith, sym (append-nil k.sent))
    answered (a ∷ rest) = unfold answer_write in (omega arith, refl)

length-unsent : (b : Batchbuf) → IsFilled b → length (unsent b) ≡ b.datalen - b.offset
length-unsent b f = omega (
  arith,
  length-take (b.datalen - b.offset) (drop b.offset b.buf),
  length-drop b.offset b.buf,
  f.0,
)

-- What is left of a buffer of which `n` more bytes have been sent.
unsent_rest :
    (b : Batchbuf) (n : ℕ) → unsent (record b { offset = b.offset + n }) ≡ drop n (unsent b)
unsent_rest b n =
    let e : b.datalen - (b.offset + n) ≡ b.datalen - b.offset - n = omega arith in
    rw (drop-take n (b.datalen - b.offset) (drop b.offset b.buf), drop-drop b.offset n b.buf, e)

regroup : (s u p : Bytes) (n : ℕ) → (s ++ take n u) ++ (drop n u ++ p) ≡ s ++ (u ++ p)
regroup s u p n = rw append_assoc (
    ap (λ x. s ++ x)
      (sym (append_assoc (take n u) (drop n u) p) ∙ ap (λ x. x ++ p) (take-append-drop n u)))

next_vector : (c : Connection) (rest : List Batchbuf) → (next_buffer c rest).batch_ret_vector ≡ rest
unfolding next_buffer after_batch
next_vector c [] = refl
next_vector c (x ∷ xs) = refl

-- No byte is lost, sent twice or out of order when `write` has answered.
module _ (c : Connection) (b : Batchbuf) (s : Bytes) (w : Written) (f : IsFilled b)
    (part : w.ret ≤ b.datalen - b.offset) (sent : w.socket.sent ≡ s ++ take w.ret (unsent b)) where
  none_left :
      (rest : List Batchbuf)
      → c.batch_ret_vector ≡ b ∷ rest
      → w.ret ≡ 0
      → w.socket.sent ++ pending c.batch_ret_vector ≡ s ++ (unsent b ++ pending rest)
  none_left rest v z = rw (v, sent, z, append-nil)

  all_left :
      (rest : List Batchbuf)
      → w.ret ≡ b.datalen - b.offset
      → w.socket.sent ++ pending (next_buffer c rest).batch_ret_vector
        ≡ s ++ (unsent b ++ pending rest)
  all_left rest z =
      let whole = take_of_length_le w.ret (unsent b) (omega (arith, length-unsent b f)) in
      rw (next_vector c rest, sent, whole) (append_assoc s (unsent b) (pending rest))

  sent_front :
      (rest : List Batchbuf)
      → c.batch_ret_vector ≡ b ∷ rest
      → (batch_sent c b rest w).1.sent ++ pending (batch_sent c b rest w).0.batch_ret_vector
        ≡ s ++ (unsent b ++ pending rest)
  unfolding batch_sent after_batch
  sent_front rest v = elim (Bool-cases (w.ret == 0)) [
    | inl none_sent ↦ rw none_sent (none_left rest v ((==_iff w.ret 0).0 none_sent))
    | inr some_sent ↦ elim (Bool-cases (w.ret == b.datalen - b.offset)) [
      | inl all_sent ↦
          rw (some_sent, all_sent)
            (all_left rest ((==_iff w.ret (b.datalen - b.offset)).0 all_sent))
      | inr left ↦
          rw (some_sent, left, unsent_rest b w.ret, sent)
            (regroup s (unsent b) (pending rest) w.ret)
    ]
  ]

-- A result whose stream is `total`.
abbrev Streams : Bytes → Option OnSocket → Type 0
Streams total none = Unit
Streams total (some (c, k)) = k.sent ++ pending c.batch_ret_vector ≡ total

front-Streams :
    (c : Connection) (k : Socket) (bufs : List Batchbuf)
    → c.batch_ret_vector ≡ bufs
    → AreFilled bufs
    → Streams (k.sent ++ pending bufs) (send_front c k bufs)
unfolding send_front
front-Streams c k [] v fs = tt
front-Streams c k (b ∷ rest) v fs =
    let wrote = write_part k (unsent b) in
    sent_front c b k.sent (write k (unsent b)) fs.0 (omega (arith, wrote.0, length-unsent b fs.0))
      wrote.1 rest v

batch-Streams :
    (c : Connection) (k : Socket)
    → AreFilled c.batch_ret_vector
    → Streams (k.sent ++ pending c.batch_ret_vector) (send_batch c k)
unfolding send_batch count_batch_bytes
batch-Streams c k fs =
    let front = front-Streams (count_batch_bytes c) k c.batch_ret_vector refl fs in
    elim (Bool-cases (ltb c.batch_count c.batch_num)) [
      | inl e ↦ rw e refl
      | inr e ↦ elim (Bool-cases (c.batch_count == c.batch_num)) [
        | inl f ↦ rw (e, f) front
        | inr f ↦ rw (e, f) refl
      ]
    ]

-- `send_batch` neither loses nor repeats nor reorders a byte, whatever `write` answers: what has been
-- sent and what is still pending make up the same stream before and behind the call.
pub send_batch-conserves :
    (c c' : Connection) (k k' : Socket)
    → AreFilled c.batch_ret_vector
    → send_batch c k ≡ some (c', k')
    → k'.sent ++ pending c'.batch_ret_vector ≡ k.sent ++ pending c.batch_ret_vector
send_batch-conserves c c' k k' fs e =
    subst (Streams (k.sent ++ pending c.batch_ret_vector)) e (batch-Streams c k fs)
