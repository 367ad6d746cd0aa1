-- ===== src/Com/Header.antt =====
-- The request header of src/com/server_define.h, as the bytes that a little-endian host keeps it in,
-- with `ntohs`, `htons`, `ntohl` and `htonl` as exchanges of bytes.
pub mod ByteOrder
use testbed.Prelude.{ℕ, ◌+◌, ◌*◌, ◌/◌, ◌%◌, [], ◌∷◌, Option, none, some, Bytes}

-- Field values as the host reads them.
pub record ProtocolBinaryRequestHeader : Type 0 where
  pub magic : ℕ
  pub opcode : ℕ
  pub keylen : ℕ
  pub batchnum : ℕ
  pub prehash : ℕ
  pub reserved : ℕ
  pub totalbodylen : ℕ

abbrev pub header_size : ℕ
header_size = 12

unfoldable pub htons : ℕ → ℕ
htons x = x % 256 * 256 + x / 256 % 256

unfoldable pub htonl : ℕ → ℕ
htonl x = x % 256 * 16777216 + x / 256 % 256 * 65536 + x / 65536 % 256 * 256 + x / 16777216 % 256

-- `ntohs` and `ntohl` exchange the same bytes.
abbrev pub ntohs : ℕ → ℕ
ntohs = htons

abbrev pub ntohl : ℕ → ℕ
ntohl = htonl

-- The struct in memory: 12 bytes, with no padding.
unfoldable pub header_image : ProtocolBinaryRequestHeader → Bytes
header_image h =
    h.magic
    ∷ h.opcode
    ∷ (h.keylen % 256)
    ∷ (h.keylen / 256 % 256)
    ∷ (h.batchnum % 256)
    ∷ (h.batchnum / 256 % 256)
    ∷ h.prehash
    ∷ h.reserved
    ∷ (h.totalbodylen % 256)
    ∷ (h.totalbodylen / 256 % 256)
    ∷ (h.totalbodylen / 65536 % 256)
    ∷ (h.totalbodylen / 16777216 % 256)
    ∷ []

-- The cast `(protocol_binary_request_header *) buf`, where 12 bytes are there to be read.
unfoldable pub header_at : Bytes → Option ProtocolBinaryRequestHeader
header_at (m ∷ o ∷ k0 ∷ k1 ∷ b0 ∷ b1 ∷ p ∷ r ∷ t0 ∷ t1 ∷ t2 ∷ t3 ∷ rest) = some (record {
  magic = m;
  opcode = o;
  keylen = k0 + 256 * k1;
  batchnum = b0 + 256 * b1;
  prehash = p;
  reserved = r;
  totalbodylen = t0 + 256 * t1 + 65536 * t2 + 16777216 * t3;
})
header_at _ = none
