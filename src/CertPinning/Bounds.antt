-- ===== src/CertPinning/Bounds.antt =====
-- The walk through a certificate reads nothing outside of it.
use Prim.Native.Nat.{bit_and, bit_or}
use beanstream.Prelude.{
  ℕ, zero, suc, ◌+◌, ◌-◌, ◌*◌, ◌^◌, ◌≤◌, ◌<◌, ◌≡◌, refl, sym, ap, ◌∙◌, inl, inr, false, ◌||◌, List,
  [], ◌∷◌, ◌++◌, arith, ltb, leb, ◌==◌, if◌then◌else◌, Bool-cases, length,
}
use beanstream.CertPinning.Walk.{panicked, refused, found, Finds, Finds-bind}
use beanstream.CertPinning.Der.{
  byte_at, read_length, Tlv, close_tlv, long_tlv, read_tlv, skip_fields, drop_bytes, take_bytes,
  slice, spki_der, skip_version,
}

byte_at-Finds : (buf : List ℕ) (i : ℕ) → i < length buf → Finds (λ b. Unit) (byte_at buf i)
unfolding byte_at
byte_at-Finds [] i h = absurd (omega (arith, h))
byte_at-Finds (b ∷ buf) zero h = tt
byte_at-Finds (b ∷ buf) (suc i) h = byte_at-Finds buf i (omega (arith, h))

read_length-Finds :
    (n : ℕ) (buf : List ℕ) (i len : ℕ)
    → i + n ≤ length buf
    → Finds (λ len. Unit) (read_length n buf i len)
unfolding read_length
read_length-Finds zero buf i len h = tt
read_length-Finds (suc n) buf i len h =
    Finds-bind (λ b. Unit) (λ b. Unit) (byte_at buf i) _ (byte_at-Finds buf i (omega (arith, h)))
      λ b _. read_length-Finds n buf (i + 1) (bit_or (len * 256) b) (omega (arith, h))

-- An element behind `pos` that ends in the buffer: its header has at least two bytes.
abbrev LiesBehind : ℕ → List ℕ → Tlv → Type 0
LiesBehind pos buf t = (pos + 2 ≤ t.content) × (t.content ≤ t.end) × (t.end ≤ length buf)

close_tlv-Finds :
    (buf : List ℕ) (tag content len pos : ℕ)
    → pos + 2 ≤ content
    → Finds (LiesBehind pos buf) (close_tlv buf tag content len)
unfolding close_tlv
close_tlv-Finds buf tag content len pos h = elim (Bool-cases (leb (2 ^ 64) (content + len))) [
  | inl e ↦ rw e tt
  | inr e ↦ elim (Bool-cases (ltb (length buf) (content + len))) [
    | inl k ↦ rw (e, k) tt
    | inr k ↦ rw (e, k) (h, omega arith, ground arith)
  ]
]

long_tlv-Finds :
    (buf : List ℕ) (tag n pos : ℕ) → Finds (LiesBehind pos buf) (long_tlv buf tag (pos + 2) n)
unfolding long_tlv
long_tlv-Finds buf tag n pos =
    elim (Bool-cases (n == 0 || ltb 4 n || ltb (length buf) (pos + 2 + n))) [
      | inl e ↦ rw e tt
      | inr e ↦ rw e (
          Finds-bind (λ len. Unit) (LiesBehind pos buf) (read_length n buf (pos + 2) 0) _
            (read_length-Finds n buf (pos + 2) 0 (ground arith))
            λ len _. close_tlv-Finds buf tag (pos + 2 + n) len pos (omega arith))
    ]

read_tlv-Finds : (buf : List ℕ) (pos : ℕ) → Finds (LiesBehind pos buf) (read_tlv buf pos)
unfolding read_tlv
read_tlv-Finds buf pos = elim (Bool-cases (ltb (length buf) (pos + 2))) [
  | inl e ↦ rw e tt
  | inr e ↦ rw e (
      Finds-bind (λ b. Unit) (LiesBehind pos buf) (byte_at buf pos) _
        (byte_at-Finds buf pos (ground arith))
        λ tag _.
          Finds-bind (λ b. Unit) (LiesBehind pos buf) (byte_at buf (pos + 1)) _
            (byte_at-Finds buf (pos + 1) (ground arith))
            λ first _. elim (Bool-cases (bit_and first 0x80 == 0)) [
              | inl s ↦ rw s (close_tlv-Finds buf tag (pos + 2) first pos (omega arith))
              | inr l ↦ rw l (long_tlv-Finds buf tag (bit_and first 0x7f) pos)
            ])
]

skip_fields-Finds : (n : ℕ) (cert : List ℕ) (pos : ℕ) → Finds (λ p. Unit) (skip_fields n cert pos)
unfolding skip_fields
skip_fields-Finds zero cert pos = tt
skip_fields-Finds (suc n) cert pos =
    Finds-bind (LiesBehind pos cert) (λ p. Unit) (read_tlv cert pos) _ (read_tlv-Finds cert pos)
      λ field _. skip_fields-Finds n cert field.end

skip_version-Finds : (cert : List ℕ) (pos : ℕ) → Finds (λ p. Unit) (skip_version cert pos)
unfolding skip_version
skip_version-Finds cert pos =
    elim (read_tlv cert pos)
        as (λ t.
          Finds (LiesBehind pos cert) t
          → Finds (λ p. Unit)
              (elim t [
                | panicked ↦ panicked
                | refused ↦ found pos
                | found field ↦ found (if field.tag == 0xa0 then field.end else pos)
              ])) [ panicked ↦ λ h. absurd h | refused ↦ λ h. tt | found field ↦ λ h. tt ]
      (read_tlv-Finds cert pos)

take-drop : (n : ℕ) (buf : List ℕ) → take_bytes n buf ++ drop_bytes n buf ≡ buf
unfolding take_bytes drop_bytes
take-drop zero buf = refl
take-drop (suc n) [] = refl
take-drop (suc n) (b ∷ buf) = ap (λ rest. b ∷ rest) (take-drop n buf)

length-drop_bytes : (n : ℕ) (buf : List ℕ) → length (drop_bytes n buf) ≡ length buf - n
unfolding drop_bytes
length-drop_bytes zero buf = omega arith
length-drop_bytes (suc n) [] = omega arith
length-drop_bytes (suc n) (b ∷ buf) = omega (arith, length-drop_bytes n buf)

length-take_bytes : (n : ℕ) (buf : List ℕ) → n ≤ length buf → length (take_bytes n buf) ≡ n
unfolding take_bytes
length-take_bytes zero buf h = refl
length-take_bytes (suc n) [] h = absurd (omega arith)
length-take_bytes (suc n) (b ∷ buf) h = omega (arith, length-take_bytes n buf (omega arith))

-- A part of the certificate, of at least two bytes.
abbrev pub IsPart : List ℕ → List ℕ → Type 0
IsPart cert key = (before after : List ℕ) × (cert ≡ before ++ (key ++ after)) × (2 ≤ length key)

slice-Finds :
    (cert : List ℕ) (start end : ℕ)
    → start + 2 ≤ end
    → end ≤ length cert
    → Finds (IsPart cert) (slice cert start end)
unfolding slice
slice-Finds cert start end h k =
    let fine : (ltb end start || ltb (length cert) end) ≡ false = ground arith in
    let size = end - start in
    let behind = drop_bytes start cert in
    rw fine (
      take_bytes start cert,
      drop_bytes size behind,
      sym (
          ap (λ rest. take_bytes start cert ++ rest) (take-drop size behind)
          ∙ take-drop start cert),
      omega (
        arith,
        h,
        length-take_bytes size behind (omega (arith, h, k, length-drop_bytes start cert)),
      ),
    )

-- Whatever the bytes of a certificate are, the walk does not panic: no byte outside of it is read,
-- and the range that is taken for the key lies in it. A key that is found is a part of the
-- certificate, of at least two bytes.
pub spki_der-IsPart : (cert : List ℕ) → Finds (IsPart cert) (spki_der cert)
unfolding spki_der
spki_der-IsPart cert =
    Finds-bind (LiesBehind 0 cert) (IsPart cert) (read_tlv cert 0) _ (read_tlv-Finds cert 0)
      λ outer _.
        Finds-bind (LiesBehind outer.content cert) (IsPart cert) (read_tlv cert outer.content) _
          (read_tlv-Finds cert outer.content)
          λ tbs _. elim (Bool-cases (tbs.tag == 0x30)) [
            | inr e ↦ rw e tt
            | inl e ↦ rw e (
                Finds-bind (λ p. Unit) (IsPart cert) (skip_version cert tbs.content) _
                  (skip_version-Finds cert tbs.content)
                  λ fields _.
                    Finds-bind (λ p. Unit) (IsPart cert) (skip_fields 5 cert fields) _
                      (skip_fields-Finds 5 cert fields)
                      λ start _.
                        Finds-bind (LiesBehind start cert) (IsPart cert) (read_tlv cert start) _
                          (read_tlv-Finds cert start)
                          λ spki b. slice-Finds cert start spki.end (omega (arith, b.0, b.1)) b.2)
          ]
