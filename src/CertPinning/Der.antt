-- ===== src/CertPinning/Der.antt =====
-- `read_tlv` and `spki_der` of cert_pinning.rs, the walk through a certificate, as a release build
-- compiles it.
use Prim.Native.Nat.{bit_and, bit_or}
use beanstream.CertPinning.Walk.{Walk, panicked, refused, found, ◌>>=◌}
use beanstream.Prelude.{
  ℕ, zero, suc, ◌+◌, ◌-◌, ◌*◌, ◌^◌, not, ◌||◌, List, [], ◌∷◌, ltb, leb, ◌==◌, if◌then◌else◌, length,
}

-- `buf[i]`
unfoldable pub byte_at : List ℕ → ℕ → Walk ℕ
byte_at [] i = panicked
byte_at (b ∷ buf) zero = found b
byte_at (b ∷ buf) (suc i) = byte_at buf i

-- `length = (length << 8) | buf[i]`, for each of the bytes that follow
unfoldable pub read_length : ℕ → List ℕ → ℕ → ℕ → Walk ℕ
unfolding byte_at
read_length zero buf i len = found len
read_length (suc n) buf i len = do
  b ← byte_at buf i
  read_length n buf (i + 1) (bit_or (len * 256) b)

-- `(tag, content_start, end)`
pub record Tlv : Type 0 where
  pub tag : ℕ
  pub content : ℕ
  pub end : ℕ

-- The end of a content of `len` bytes: `checked_add`, and a test against the buffer.
unfoldable pub close_tlv : List ℕ → ℕ → ℕ → ℕ → Walk Tlv
close_tlv buf tag content len =
    if leb (2 ^ 64) (content + len)
    then refused
    else if ltb (length buf) (content + len)
    then refused
    else found (record { tag = tag; content = content; end = content + len })

-- The long form of a length, in `n` bytes.
unfoldable pub long_tlv : List ℕ → ℕ → ℕ → ℕ → Walk Tlv
unfolding read_length close_tlv
long_tlv buf tag i n =
    if n == 0 || ltb 4 n || ltb (length buf) (i + n)
    then refused
    else do len ← read_length n buf i 0; close_tlv buf tag (i + n) len

unfoldable pub read_tlv : List ℕ → ℕ → Walk Tlv
unfolding long_tlv close_tlv byte_at
read_tlv buf pos = if ltb (length buf) (pos + 2) then refused else do
  tag ← byte_at buf pos
  first ← byte_at buf (pos + 1)
  if bit_and first 0x80 == 0
      then close_tlv buf tag (pos + 2) first
      else long_tlv buf tag (pos + 2) (bit_and first 0x7f)

-- `let (_, _, end) = read_tlv(cert, pos)?; pos = end;`, some times
unfoldable pub skip_fields : ℕ → List ℕ → ℕ → Walk ℕ
unfolding read_tlv
skip_fields zero cert pos = found pos
skip_fields (suc n) cert pos = do field ← read_tlv cert pos; skip_fields n cert field.end

-- The optional version ahead of the fields.
unfoldable pub skip_version : List ℕ → ℕ → Walk ℕ
skip_version cert pos = elim (read_tlv cert pos) [
  | panicked ↦ panicked
  | refused ↦ found pos
  | found field ↦ found (if field.tag == 0xa0 then field.end else pos)
]

unfoldable pub drop_bytes : ℕ → List ℕ → List ℕ
drop_bytes zero buf = buf
drop_bytes (suc n) [] = []
drop_bytes (suc n) (b ∷ buf) = drop_bytes n buf

unfoldable pub take_bytes : ℕ → List ℕ → List ℕ
take_bytes zero buf = []
take_bytes (suc n) [] = []
take_bytes (suc n) (b ∷ buf) = b ∷ take_bytes n buf

-- `&cert[start..end]`, which panics where the range is reversed or ends behind the buffer
unfoldable pub slice : List ℕ → ℕ → ℕ → Walk (List ℕ)
slice cert start end =
    if ltb end start || ltb (length cert) end
    then panicked
    else found (take_bytes (end - start) (drop_bytes start cert))

-- The test of the key's tag does nothing in a release build.
unfoldable pub spki_der : List ℕ → Walk (List ℕ)
unfolding slice skip_fields skip_version
spki_der cert = do
  outer ← read_tlv cert 0
  tbs ← read_tlv cert outer.content
  if not (tbs.tag == 0x30) then refused else do
    fields ← skip_version cert tbs.content
    start ← skip_fields 5 cert fields
    spki ← read_tlv cert start
    slice cert start spki.end
