-- ===== src/Com/Network/Framing.antt =====
-- What a read leaves before the parser of src/com/socket_server.cpp.
use testbed.Prelude.{
  ℕ, ◌+◌, ◌≤◌, ◌≡◌, ◌≢◌, refl, subst, ap, sym, ◌∙◌, List, [], ◌∷◌, arith, Bytes, length, take, drop,
  length-append, length-take, length-drop, take-length_append,
}
use testbed.Com.Conn.{Connection, Socket, ReadAnswer, got}
use testbed.Com.Parse.{unparsed}
use testbed.Com.Network.{move_to_front, received, read_answered, try_read_network}

-- The buffer has its size, and the bytes to parse lie inside it.
pub record IsBuffered (c : Connection) : Type 0 where
  pub sized : length c.read_buf ≡ c.read_buf_size
  pub inside : c.working_buf + c.remaining_bytes ≤ c.read_buf_size

move_to_front-IsBuffered :
    (c : Connection)
    → IsBuffered c
    → (length (move_to_front c).read_buf ≡ c.read_buf_size)
      × ((move_to_front c).working_buf ≡ 0)
      × ((move_to_front c).read_buf_size ≡ c.read_buf_size)
unfolding move_to_front
move_to_front-IsBuffered c ok =
    let kept = unparsed c in
    ground (
      arith,
      length-append kept (drop (length kept) c.read_buf),
      length-drop (length kept) c.read_buf,
      length-take c.remaining_bytes (drop c.working_buf c.read_buf),
      length-drop c.working_buf c.read_buf,
      ok.sized,
      ok.inside,
    )

received-new :
    (c : Connection) (bs : Bytes)
    → bs ≢ []
    → c.working_buf ≡ 0
    → length c.read_buf ≡ c.read_buf_size
    → length bs ≤ c.read_buf_size
    → (unparsed (received c bs).1 ≡ bs) × IsBuffered (received c bs).1
unfolding received
received-new c [] ne at_ sized fits = absurd (ne refl)
received-new c (b ∷ bs) ne at_ sized fits = (
  rw at_ (take-length_append (b ∷ bs) (drop (length (b ∷ bs)) c.read_buf)),
  record {
    sized = omega (
      arith,
      length-append (b ∷ bs) (drop (length (b ∷ bs)) c.read_buf),
      length-drop (length (b ∷ bs)) c.read_buf,
    );
    inside = omega arith;
  },
)

read_got :
    (c : Connection) (k : Socket) (bs : Bytes) (answers more : List ReadAnswer)
    → answers ≡ got bs ∷ more
    → (read_answered c k answers).1 ≡ (received c (take c.read_buf_size bs)).1
unfolding read_answered
read_got c k bs answers more e = rw (e, read_answered)

-- After a read of at least one byte the parser has the bytes of that read before it, as many as the
-- buffer holds, and no others: what was left to parse before is dropped. The buffer keeps its bounds.
pub try_read_network-unparsed :
    (c : Connection) (k : Socket) (bs : Bytes) (more : List ReadAnswer)
    → IsBuffered c
    → k.reads ≡ got bs ∷ more
    → take c.read_buf_size bs ≢ []
    → (unparsed (try_read_network c k).1 ≡ take c.read_buf_size bs)
      × IsBuffered (try_read_network c k).1
unfolding try_read_network
try_read_network-unparsed c k bs more ok e ne =
    let moved = move_to_front-IsBuffered c ok in
    let emptied : Connection = record (move_to_front c) { remaining_bytes = 0 } in
    let same : take emptied.read_buf_size bs ≡ take c.read_buf_size bs =
      ap (λ (n : ℕ). take n bs) moved.2 in
    let r =
      received-new emptied (take emptied.read_buf_size bs) (λ z. ne (sym same ∙ z)) moved.1
        (moved.0 ∙ sym moved.2) (omega (arith, length-take emptied.read_buf_size bs)) in
    subst (λ (x : Connection). (unparsed x ≡ take c.read_buf_size bs) × IsBuffered x)
      (sym (read_got emptied k bs k.reads more e)) (r.0 ∙ same, r.1)
