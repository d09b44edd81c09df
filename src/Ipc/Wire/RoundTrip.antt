-- ===== src/Ipc/Wire/RoundTrip.antt =====
-- The writers of `IpcSerializer` against its readers (src/common/ipc/ipc_serialization.h).
use sms_relay.Base.{
  ℕ, zero, suc, ◌+◌, ◌-◌, ◌*◌, ◌/◌, ◌%◌, ◌^◌, ◌≤◌, ◌<◌, bit_and, bit_or, ◌≡◌, ap, ◌∙◌, sym, some,
  [], ◌∷◌, ◌++◌, Bytes, IsByte, length, length-append, length-drop, take, drop, append_assoc,
  take-append_length, drop-append_length, get_or, arith,
}
use sms_relay.Base.Bits.{bit_or_disjoint, bit_and_low}
use sms_relay.Ipc.Wire.{
  serialize_u32, serialize_u8, size_u32, serialize_str, serialize_vec, add_size, join_u32,
  deserialize_u32, deserialize_u8, deserialize_bytes, deserialize_str, deserialize_vec,
}

-- A buffer that a process can hold.
abbrev pub Fits : Bytes → Type 0
Fits buffer = length buffer < 2 ^ 63

join_u32-sum :
    (a b c d : ℕ)
    → IsByte b
    → IsByte c
    → IsByte d
    → join_u32 a b c d ≡ a * 2 ^ 24 + b * 2 ^ 16 + c * 2 ^ 8 + d
unfolding join_u32
join_u32-sum a b c d hb hc hd =
    ap (λ t. bit_or (bit_or t (c * 2 ^ 8)) d) (bit_or_disjoint 24 a (b * 2 ^ 16) (omega arith))
    ∙ ap (λ t. bit_or t d)
        (ap (λ t. bit_or t (c * 2 ^ 8)) high
          ∙ bit_or_disjoint 16 (a * 2 ^ 8 + b) (c * 2 ^ 8) (omega arith))
    ∙ ap (λ t. bit_or t d) middle
    ∙ bit_or_disjoint 8 (a * 2 ^ 16 + b * 2 ^ 8 + c) d hd
    ∙ omega arith
  where
    high : a * 2 ^ 24 + b * 2 ^ 16 ≡ (a * 2 ^ 8 + b) * 2 ^ 16
    high = omega arith

    middle : (a * 2 ^ 8 + b) * 2 ^ 16 + c * 2 ^ 8 ≡ (a * 2 ^ 16 + b * 2 ^ 8 + c) * 2 ^ 8
    middle = omega arith

-- Byte `k` of a number read back from its four bytes.
join-serialize :
    (v : ℕ)
    → v < 2 ^ 32
    → join_u32
        (bit_and (v / 2 ^ 24) 255)
        (bit_and (v / 2 ^ 16) 255)
        (bit_and (v / 2 ^ 8) 255)
        (bit_and v 255)
      ≡ v
join-serialize v h =
    let a : bit_and (v / 2 ^ 24) 255 ≡ v / 2 ^ 24 % 256 = bit_and_low 8 (v / 2 ^ 24) in
    let b : bit_and (v / 2 ^ 16) 255 ≡ v / 2 ^ 16 % 256 = bit_and_low 8 (v / 2 ^ 16) in
    let c : bit_and (v / 2 ^ 8) 255 ≡ v / 2 ^ 8 % 256 = bit_and_low 8 (v / 2 ^ 8) in
    let d : bit_and v 255 ≡ v % 256 = bit_and_low 8 v in
    join_u32-sum _ _ _ _ (omega arith) (omega arith) (omega arith) ∙ omega arith

-- What stands at an offset: the byte there, and what follows it.
pub drop-head :
    (buffer : Bytes) (offset x : ℕ) (rest : Bytes)
    → drop offset buffer ≡ x ∷ rest
    → (get_or buffer offset 0 ≡ x) × (offset < length buffer) × (drop (suc offset) buffer ≡ rest)
drop-head [] zero x rest e = absurd (cc e)
drop-head [] (suc offset) x rest e = absurd (cc e)
drop-head (y ∷ buffer) zero x rest e = (cc e, omega arith, cc e)
drop-head (y ∷ buffer) (suc offset) x rest e =
    let (a, b, c) = drop-head buffer offset x rest e in (a, omega arith, c)

drop-drop : (n m : ℕ) (xs : Bytes) → drop n (drop m xs) ≡ drop (m + n) xs
drop-drop n zero xs = ap (λ k. drop k xs) (omega arith)
drop-drop zero (suc m) [] = let e : suc m + 0 ≡ suc m = omega arith in rw e
drop-drop (suc n) (suc m) [] = let e : suc m + suc n ≡ suc (m + suc n) = omega arith in rw e
drop-drop n (suc m) (x ∷ xs) =
    let e : suc m + n ≡ suc (m + n) = omega arith in rw e (drop-drop n m xs)

-- A serialised byte at an offset is read back, and the new offset stands behind it.
pub deserialize-serialize_u8 :
    (buffer : Bytes) (offset v : ℕ) (rest : Bytes)
    → Fits buffer
    → drop offset buffer ≡ serialize_u8 v ++ rest
    → (deserialize_u8 buffer offset ≡ some (v, offset + 1)) × (drop (offset + 1) buffer ≡ rest)
unfolding deserialize_u8 serialize_u8
deserialize-serialize_u8 buffer offset v rest f e =
    let (a, b, c) = drop-head buffer offset v rest e in
    let plain : add_size offset 1 ≡ offset + 1 = omega arith in
    let next : offset + 1 ≡ suc offset = omega arith in
    (ground (arith, a, b, plain), ap (λ k. drop k buffer) next ∙ c)

-- A number below 2 ^ 32 serialised at an offset is read back, with the offset behind it.
pub deserialize-serialize_u32 :
    (buffer : Bytes) (offset v : ℕ) (rest : Bytes)
    → Fits buffer
    → v < 2 ^ 32
    → drop offset buffer ≡ serialize_u32 v ++ rest
    → (deserialize_u32 buffer offset ≡ some (v, offset + 4))
      × (drop (offset + 4) buffer ≡ rest)
      × (offset + 4 ≤ length buffer)
unfolding deserialize_u32 serialize_u32
deserialize-serialize_u32 buffer offset v rest f h e =
    let (a₀, b₀, c₀) = drop-head buffer offset _ _ e in
    let (a₁, b₁, c₁) = drop-head buffer (suc offset) _ _ c₀ in
    let (a₂, b₂, c₂) = drop-head buffer (suc (suc offset)) _ _ c₁ in
    let (a₃, b₃, c₃) = drop-head buffer (suc (suc (suc offset))) _ _ c₂ in
    let p₁ : add_size offset 1 ≡ suc offset = omega arith in
    let p₂ : add_size offset 2 ≡ suc (suc offset) = omega arith in
    let p₃ : add_size offset 3 ≡ suc (suc (suc offset)) = omega arith in
    let p₄ : add_size offset 4 ≡ offset + 4 = omega arith in
    let next : offset + 4 ≡ suc (suc (suc (suc offset))) = omega arith in
    (
      ground (arith, a₀, a₁, a₂, a₃, b₃, p₁, p₂, p₃, p₄, join-serialize v h),
      ap (λ k. drop k buffer) next ∙ c₃,
      omega arith,
    )

-- A length prefix followed by as many bytes.
bytes_back :
    (buffer : Bytes) (offset : ℕ) (s rest : Bytes)
    → Fits buffer
    → offset ≤ length buffer
    → drop offset buffer ≡ s ++ rest
    → (deserialize_bytes buffer (length s, offset) ≡ some (s, offset + length s))
      × (drop (offset + length s) buffer ≡ rest)
unfolding deserialize_bytes
bytes_back buffer offset s rest f inside e =
    let size : length buffer - offset ≡ length s + length rest =
      sym (length-drop offset buffer) ∙ ap length e ∙ length-append s rest in
    let plain : add_size offset (length s) ≡ offset + length s = omega arith in
    let enough : offset + length s ≤ length buffer = omega arith in
    (
      ground (arith, plain, enough, ap (take (length s)) e ∙ take-append_length s rest),
      sym (drop-drop (length s) offset buffer) ∙ ap (drop (length s)) e ∙ drop-append_length s rest,
    )

-- A string shorter than 2 ^ 32, serialised at any offset of a buffer shorter than 2 ^ 63 with any
-- bytes behind it, is read back there, and the new offset stands behind it.
pub deserialize-serialize_str :
    (buffer : Bytes) (offset : ℕ) (s rest : Bytes)
    → Fits buffer
    → length s < 2 ^ 32
    → drop offset buffer ≡ serialize_str s ++ rest
    → (deserialize_str buffer offset ≡ some (s, offset + 4 + length s))
      × (drop (offset + 4 + length s) buffer ≡ rest)
unfolding deserialize_str serialize_str
deserialize-serialize_str buffer offset s rest f h e =
    let (a, b, inside) =
      deserialize-serialize_u32 buffer offset (size_u32 s) (s ++ rest) f (omega arith)
        (e ∙ append_assoc (serialize_u32 (size_u32 s)) s rest) in
    let n : size_u32 s ≡ length s = omega arith in
    let (c, d) = bytes_back buffer (offset + 4) s rest f inside b in (ground (arith, a, c, n), d)

-- A vector shorter than 2 ^ 32 is read back likewise.
pub deserialize-serialize_vec :
    (buffer : Bytes) (offset : ℕ) (v rest : Bytes)
    → Fits buffer
    → length v < 2 ^ 32
    → drop offset buffer ≡ serialize_vec v ++ rest
    → (deserialize_vec buffer offset ≡ some (v, offset + 4 + length v))
      × (drop (offset + 4 + length v) buffer ≡ rest)
unfolding deserialize_vec serialize_vec
deserialize-serialize_vec buffer offset v rest f h e =
    let (a, b, inside) =
      deserialize-serialize_u32 buffer offset (size_u32 v) (v ++ rest) f (omega arith)
        (e ∙ append_assoc (serialize_u32 (size_u32 v)) v rest) in
    let n : size_u32 v ≡ length v = omega arith in
    let (c, d) = bytes_back buffer (offset + 4) v rest f inside b in (ground (arith, a, c, n), d)
