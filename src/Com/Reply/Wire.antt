-- ===== src/Com/Reply/Wire.antt =====
-- What `con_ret_buf` of src/com/socket_server.cpp puts into the return buffer, on a hit and on a miss.
use testbed.Prelude.{
  ℕ, ◌+◌, ◌*◌, ◌%◌, ◌≤◌, ◌<◌, ◌≡◌, refl, ap, ◌∙◌, true, false, ◌++◌, some, none, arith, Bytes,
  length, take, drop, le→leb, length-append,
}
use testbed.Com.Header.{ProtocolBinaryRequestHeader, header_size}
use testbed.Com.Header.ByteOrder.{IsHeader, wire_header, header_image-htons}
use testbed.Com.Conn.{Connection, write_bcak}
use testbed.Com.Reply.{
  answer, resp_head, reply_image, memcpy, count_miss, plain_reply, con_ret_buf, notfound_ans,
}

-- The header of a reply outside a batch, whose body has `body` bytes.
abbrev pub reply_header : Bytes → ℕ → ProtocolBinaryRequestHeader
reply_header key body = record {
  magic = 0x81;
  opcode = 0x01;
  keylen = length key;
  batchnum = 1;
  prehash = 0;
  reserved = 0;
  totalbodylen = body;
}

abbrev pub hit_reply : Bytes → Bytes → Bytes
hit_reply key value = wire_header (reply_header key (length key + length value)) ++ (key ++ value)

-- The header counts the value that is stored in the connection, also where the answer is another.
pub reply_image-plain :
    (c : Connection)
    → c.in_batch_get ≡ false
    → IsHeader (reply_header c.key (length c.key + length c.value))
    → reply_image c
      ≡ wire_header (reply_header c.key (length c.key + length c.value)) ++ (c.key ++ answer c)
unfolding reply_image resp_head
reply_image-plain c plain fits =
    let k : length c.key % 65536 ≡ length c.key = omega arith in
    let t : (length c.key + length c.value) % 4294967296 ≡ length c.key + length c.value =
      omega arith in
    simp (plain, k, t)
      (ap (λ (h : Bytes). h ++ (c.key ++ answer c))
        (header_image-htons (reply_header c.key (length c.key + length c.value)) fits))

-- Copying leaves the bytes before and behind the copy as they were.
abbrev pub spliced : Bytes → ℕ → Bytes → Bytes
spliced buf at_ src = take at_ buf ++ (src ++ drop (at_ + length src) buf)

memcpy_fits :
    (buf : Bytes) (at_ : ℕ) (src : Bytes)
    → at_ + length src ≤ length buf
    → memcpy buf at_ src ≡ some (spliced buf at_ src)
unfolding memcpy
memcpy_fits buf at_ src h = rw (le→leb _ _ h)

con_ret_buf-plain :
    (c : Connection)
    → c.in_batch_get ≡ false
    → con_ret_buf c ≡ plain_reply c (memcpy c.ret_buf c.ret_buf_offset (reply_image c))
unfolding con_ret_buf
con_ret_buf-plain c plain = ground arith

plain_reply-hit :
    (c : Connection) (buf : Bytes)
    → c.query_hit ≡ true
    → plain_reply c (some buf)
      ≡ some (record c {
        ret_buf = buf;
        ret_bytes = c.ret_bytes + (header_size + length c.key + length c.value);
        work_state = write_bcak;
      })
unfolding plain_reply count_miss answer
plain_reply-hit c buf hit = ground arith

plain_reply-miss :
    (c : Connection) (buf : Bytes)
    → c.query_hit ≡ false
    → plain_reply c (some buf)
      ≡ some (record c {
        ret_buf = buf;
        ret_bytes = c.ret_bytes + 2 * (header_size + length c.key + 8);
        work_state = write_bcak;
      })
unfolding plain_reply count_miss answer
plain_reply-miss c buf miss = ground arith

-- Outside a batch, a hit whose lengths fit the header and whose reply fits the buffer writes the header,
-- the key and the value at the buffer's offset, counts them once in `ret_bytes`, and goes to write_bcak.
pub con_ret_buf-hit :
    (c : Connection)
    → c.in_batch_get ≡ false
    → c.query_hit ≡ true
    → IsHeader (reply_header c.key (length c.key + length c.value))
    → c.ret_buf_offset + (header_size + (length c.key + length c.value)) ≤ length c.ret_buf
    → con_ret_buf c
      ≡ some (record c {
        ret_buf = spliced c.ret_buf c.ret_buf_offset (hit_reply c.key c.value);
        ret_bytes = c.ret_bytes + (header_size + length c.key + length c.value);
        work_state = write_bcak;
      })
con_ret_buf-hit c plain hit fits room =
    let image : reply_image c ≡ hit_reply c.key c.value =
      reply_image-plain c plain fits ∙ (unfold answer in simp hit) in
    let n : length (hit_reply c.key c.value) ≡ header_size + (length c.key + length c.value) =
      omega (arith, length-append c.key c.value) in
    let copied = memcpy_fits c.ret_buf c.ret_buf_offset (hit_reply c.key c.value) (omega arith) in
    con_ret_buf-plain c plain
    ∙ ap (plain_reply c) (ap (memcpy c.ret_buf c.ret_buf_offset) image ∙ copied)
    ∙ plain_reply-hit c _ hit

abbrev pub miss_reply : Bytes → Bytes → Bytes
miss_reply key value =
    wire_header (reply_header key (length key + length value)) ++ (key ++ notfound_ans)

-- Outside a batch, a miss whose reply fits the buffer writes the header, the key and NOTFOUND at the
-- buffer's offset, with the length of the value that an earlier request left in the header, counts the
-- reply twice in `ret_bytes`, and goes to write_bcak.
pub con_ret_buf-miss :
    (c : Connection)
    → c.in_batch_get ≡ false
    → c.query_hit ≡ false
    → IsHeader (reply_header c.key (length c.key + length c.value))
    → c.ret_buf_offset + (header_size + (length c.key + 8)) ≤ length c.ret_buf
    → con_ret_buf c
      ≡ some (record c {
        ret_buf = spliced c.ret_buf c.ret_buf_offset (miss_reply c.key c.value);
        ret_bytes = c.ret_bytes + 2 * (header_size + length c.key + 8);
        work_state = write_bcak;
      })
con_ret_buf-miss c plain miss fits room =
    let image : reply_image c ≡ miss_reply c.key c.value =
      reply_image-plain c plain fits ∙ (unfold answer in simp miss) in
    let n : length (miss_reply c.key c.value) ≡ header_size + (length c.key + 8) =
      omega (arith, length-append c.key notfound_ans) in
    let copied = memcpy_fits c.ret_buf c.ret_buf_offset (miss_reply c.key c.value) (omega arith) in
    con_ret_buf-plain c plain
    ∙ ap (plain_reply c) (ap (memcpy c.ret_buf c.ret_buf_offset) image ∙ copied)
    ∙ plain_reply-miss c _ miss

-- Outside a batch, a reply that does not fit between the offset and the end of the buffer is copied past
-- its end.
pub con_ret_buf-overflow :
    (c : Connection)
    → c.in_batch_get ≡ false
    → IsHeader (reply_header c.key (length c.key + length c.value))
    → length c.ret_buf < c.ret_buf_offset + (header_size + (length c.key + length (answer c)))
    → con_ret_buf c ≡ none
con_ret_buf-overflow c plain fits small =
    let n = length-append c.key (answer c) in
    let past : memcpy c.ret_buf c.ret_buf_offset (reply_image c) ≡ none =
      rw (reply_image-plain c plain fits) (unfold memcpy in ground arith) in
    con_ret_buf-plain c plain ∙ ap (plain_reply c) past ∙ (unfold plain_reply in refl)
