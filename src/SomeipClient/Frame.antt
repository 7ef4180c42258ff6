-- ===== src/SomeipClient/Frame.antt =====
-- src/SomeipClient/someip_client.cpp: the frame of a payload, a packed `SomeipHeader` copied by
-- `memcpy` in the byte order of the machine, and the payload behind it.
use connected_vehicle_platfo.Prelude.{
  ℕ, suc, ◌+◌, ◌*◌, ◌/◌, ◌%◌, ◌^◌, ◌<◌, ◌≡◌, refl, [], ◌∷◌, ◌++◌, Text, length, take, drop, arith,
}

pub data ByteOrder : Type 0 where
  little big : ByteOrder

pub record SomeipHeader : Type 0 where
  pub service_id : ℕ  -- uint16_t
  pub method_id : ℕ  -- uint16_t
  pub length : ℕ  -- uint32_t

-- The bytes of a uint16_t and of a uint32_t in memory.
unfoldable pub bytes16 : ByteOrder → ℕ → Text
bytes16 little n = (n % 256) ∷ (n / 256 % 256) ∷ []
bytes16 big n = (n / 256 % 256) ∷ (n % 256) ∷ []

unfoldable pub bytes32 : ByteOrder → ℕ → Text
bytes32 little n = (n % 256) ∷ (n / 256 % 256) ∷ (n / 65536 % 256) ∷ (n / 16777216 % 256) ∷ []
bytes32 big n = (n / 16777216 % 256) ∷ (n / 65536 % 256) ∷ (n / 256 % 256) ∷ (n % 256) ∷ []

unfoldable pub header_bytes : ByteOrder → SomeipHeader → Text
unfolding bytes16 bytes32
header_bytes order h =
    bytes16 order h.service_id ++ bytes16 order h.method_id ++ bytes32 order h.length

-- The header and the frame that `publish` builds; `static_cast<std::uint32_t>` wraps.
abbrev pub header_of : ℕ → ℕ → Text → SomeipHeader
header_of service_id method_id payload = record {
  service_id = service_id;
  method_id = method_id;
  length = length payload % 2 ^ 32;
}

unfoldable pub frame_of : ByteOrder → ℕ → ℕ → Text → Text
unfolding header_bytes
frame_of order service_id method_id payload =
    header_bytes order (header_of service_id method_id payload) ++ payload

-- The number that bytes in memory stand for.
abbrev pub value_little : Text → ℕ
value_little [] = 0
value_little (b ∷ bs) = b + 256 * value_little bs

abbrev pub value_big : ℕ → Text → ℕ
value_big acc [] = acc
value_big acc (b ∷ bs) = value_big (acc * 256 + b) bs

abbrev pub value : ByteOrder → Text → ℕ
value little bytes = value_little bytes
value big bytes = value_big 0 bytes

-- For a service id and a method id below 2^16, a reader on a machine of the same byte order finds
-- in the frame the service id at offset 0, the method id at offset 2, the payload's length modulo
-- 2^32 at offset 4 and the payload at offset 8.
pub frame_fields :
    (order : ByteOrder) (service_id method_id : ℕ) (payload : Text)
    → service_id < 2 ^ 16
    → method_id < 2 ^ 16
    → let frame = frame_of order service_id method_id payload in
      (value order (take 2 frame) ≡ service_id)
      × (value order (take 2 (drop 2 frame)) ≡ method_id)
      × (value order (take 4 (drop 4 frame)) ≡ length payload % 2 ^ 32)
      × (drop 8 frame ≡ payload)
unfolding frame_of
frame_fields little service_id method_id payload s m = (omega arith, omega arith, omega arith, refl)
frame_fields big service_id method_id payload s m = (omega arith, omega arith, omega arith, refl)

pub length-frame_of :
    (order : ByteOrder) (service_id method_id : ℕ) (payload : Text)
    → length (frame_of order service_id method_id payload) ≡ 8 + length payload
unfolding frame_of
length-frame_of little service_id method_id payload = omega arith
length-frame_of big service_id method_id payload = omega arith

pub drop-frame_of :
    (order : ByteOrder) (service_id method_id n : ℕ) (payload : Text)
    → drop 8 (
        take
          (suc (suc (suc (suc (suc (suc (suc (suc n))))))))
          (frame_of order service_id method_id payload))
      ≡ take n payload
unfolding frame_of
drop-frame_of little service_id method_id n payload = refl
drop-frame_of big service_id method_id n payload = refl
