-- ===== src/Com/Header/ByteOrder.antt =====
-- The exchanges of bytes of src/com/server_define.h's header, and the header on the wire.
use testbed.Prelude.{ℕ, ◌+◌, ◌*◌, ◌/◌, ◌%◌, ◌<◌, ◌≡◌, ◌∙◌, [], ◌∷◌, ◌++◌, some, arith, Bytes}
use testbed.Com.Header.{
  ProtocolBinaryRequestHeader, header_image, header_at, htons, htonl, ntohs, ntohl,
}

-- The fields fit their widths.
pub record IsHeader (h : ProtocolBinaryRequestHeader) : Type 0 where
  pub magic_fits : h.magic < 256
  pub opcode_fits : h.opcode < 256
  pub keylen_fits : h.keylen < 65536
  pub batchnum_fits : h.batchnum < 65536
  pub prehash_fits : h.prehash < 256
  pub reserved_fits : h.reserved < 256
  pub totalbodylen_fits : h.totalbodylen < 4294967296

pub ntohs-htons : (x : ℕ) → x < 65536 → ntohs (htons x) ≡ x
unfolding htons
ntohs-htons x h = omega arith

htonl_parts :
    (x : ℕ)
    → x < 4294967296
    → (htonl x % 256 ≡ x / 16777216)
      × (htonl x / 256 % 256 ≡ x / 65536 % 256)
      × (htonl x / 65536 % 256 ≡ x / 256 % 256)
      × (htonl x / 16777216 % 256 ≡ x % 256)
unfolding htonl
htonl_parts x h = (omega arith, omega arith, omega arith, omega arith)

of_parts :
    (x a b c d : ℕ)
    → x % 256 ≡ a
    → x / 256 % 256 ≡ b
    → x / 65536 % 256 ≡ c
    → x / 16777216 % 256 ≡ d
    → htonl x ≡ a * 16777216 + b * 65536 + c * 256 + d
unfolding htonl
of_parts x a b c d ha hb hc hd = omega arith

join_parts :
    (x : ℕ) → x / 16777216 * 16777216 + x / 65536 % 256 * 65536 + x / 256 % 256 * 256 + x % 256 ≡ x
join_parts x = omega arith

pub ntohl-htonl : (x : ℕ) → x < 4294967296 → ntohl (htonl x) ≡ x
ntohl-htonl x h =
    let p = htonl_parts x h in of_parts (htonl x) _ _ _ _ p.0 p.1 p.2 p.3 ∙ join_parts x

-- The image of a struct in memory reads back as the struct.
pub header_at-header_image :
    (h : ProtocolBinaryRequestHeader) (rest : Bytes)
    → IsHeader h
    → header_at (header_image h ++ rest) ≡ some h
unfolding header_at header_image
header_at-header_image h rest fits = ground arith

-- The header in network byte order, as a client sends it.
abbrev pub wire_header : ProtocolBinaryRequestHeader → Bytes
wire_header h =
    h.magic
    ∷ h.opcode
    ∷ (h.keylen / 256)
    ∷ (h.keylen % 256)
    ∷ (h.batchnum / 256)
    ∷ (h.batchnum % 256)
    ∷ h.prehash
    ∷ h.reserved
    ∷ (h.totalbodylen / 16777216)
    ∷ (h.totalbodylen / 65536 % 256)
    ∷ (h.totalbodylen / 256 % 256)
    ∷ (h.totalbodylen % 256)
    ∷ []

htons_bytes : (x : ℕ) → x < 65536 → (htons x % 256 ≡ x / 256) × (htons x / 256 % 256 ≡ x % 256)
unfolding htons
htons_bytes x h = (omega arith, omega arith)

-- What `htons` and `htonl` make of the fields is kept in memory in network byte order.
pub header_image-htons :
    (h : ProtocolBinaryRequestHeader)
    → IsHeader h
    → header_image (record h {
      keylen = htons h.keylen;
      batchnum = htons h.batchnum;
      totalbodylen = htonl h.totalbodylen;
    })
      ≡ wire_header h
unfolding header_image
header_image-htons h fits =
    let k = htons_bytes h.keylen fits.keylen_fits in
    let b = htons_bytes h.batchnum fits.batchnum_fits in
    let t = htonl_parts h.totalbodylen fits.totalbodylen_fits in
    cc (k.0, k.1, b.0, b.1, t.0, t.1, t.2, t.3)

-- Reading a wire header leaves the fields for `ntohs` and `ntohl` to exchange.
abbrev pub exchanged : ProtocolBinaryRequestHeader → ProtocolBinaryRequestHeader
exchanged h = record h {
  keylen = htons h.keylen;
  batchnum = htons h.batchnum;
  totalbodylen = htonl h.totalbodylen;
}

-- A header that is put on the wire with its multi-byte fields in network order, and is read back from
-- the front of any bytes as the code reads it, has its fields with the bytes exchanged: the reader's
-- ntohs and ntohl give the values back.
pub header_at-wire_header :
    (h : ProtocolBinaryRequestHeader) (rest : Bytes)
    → IsHeader h
    → header_at (wire_header h ++ rest) ≡ some (exchanged h)
unfolding header_at htons htonl
header_at-wire_header h rest fits = ground arith
