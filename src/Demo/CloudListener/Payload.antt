-- ===== src/Demo/CloudListener/Payload.antt =====
-- src/main.cpp against src/SomeipClient/someip_client.cpp: what the listener prints of a frame.
use connected_vehicle_platfo.Prelude.{
  ℕ, zero, suc, ◌+◌, ◌-◌, ◌≤◌, ◌<◌, ◌≡◌, refl, sym, ◌∙◌, ap, ◌⊎◌, inl, inr, [], ◌∷◌, Bool-cases,
  ltb, min, Text, length, take, drop, length-take, length-drop, dec_lt, arith,
}
use connected_vehicle_platfo.SomeipClient.Frame.{ByteOrder, frame_of, drop-frame_of}
use connected_vehicle_platfo.Demo.CloudListener.{payload_of}

take_all : (n : ℕ) (xs : Text) → length xs ≤ n → take n xs ≡ xs
take_all zero [] h = refl
take_all zero (x ∷ xs) h = absurd (omega arith)
take_all (suc n) [] h = refl
take_all (suc n) (x ∷ xs) h = ap (◌∷◌ x) (take_all n xs (omega arith))

abbrev eight_more : ℕ → ℕ
eight_more n = suc (suc (suc (suc (suc (suc (suc (suc n)))))))

drop_all : (n : ℕ) (xs : Text) → length xs ≤ n → drop n xs ≡ []
drop_all zero [] h = refl
drop_all zero (x ∷ xs) h = absurd (omega arith)
drop_all (suc n) [] h = refl
drop_all (suc n) (x ∷ xs) h = drop_all n xs (omega arith)

-- The offset arithmetic of the listener drops the header.
payload_of-drop : (xs : Text) → payload_of xs ≡ drop 8 xs
unfolding payload_of
payload_of-drop xs = elim (Bool-cases (ltb 0 (length xs - 8))) [
  | inr short ↦ rw short (sym (drop_all 8 xs (ground arith)))
  | inl long ↦
      let offset : min 8 (length xs) ≡ 8 = ground arith in
      rw (long, offset) (take_all (length xs - 8) (drop 8 xs) (omega (arith, length-drop 8 xs)))
]

-- Of the first n bytes of a frame that the SOME/IP client builds, on whatever byte order, the
-- listener prints the whole payload, if its length and the 8 bytes of the header are at most n, and
-- else its first n - 8 bytes.
pub payload_of-frame_of :
    (order : ByteOrder) (service_id method_id n : ℕ) (payload : Text)
    → let printed = payload_of (take n (frame_of order service_id method_id payload)) in
      ((8 + length payload ≤ n) × (printed ≡ payload))
      ⊎ ((n < 8 + length payload) × (printed ≡ take (n - 8) payload))
payload_of-frame_of order service_id method_id n payload =
    let printed = payload_of-drop (take n frame) ∙ dropped (dec_lt n 8) in
    elim (dec_lt n (8 + length payload)) [
      | yes longer ↦ inr (longer, printed)
      | no fits ↦ inl (omega arith, printed ∙ take_all (n - 8) payload (omega arith))
    ]
  where
    frame : Text
    frame = frame_of order service_id method_id payload

    dropped : Dec (n < 8) → drop 8 (take n frame) ≡ take (n - 8) payload
    dropped (yes short) =
        let none_left : n - 8 ≡ 0 = omega arith in
        rw (none_left, drop_all 8 (take n frame) (omega (arith, length-take n frame)))
    dropped (no long) =
        let split : n ≡ eight_more (n - 8) = omega arith in
        ap (λ (m : ℕ). drop 8 (take m frame)) split
        ∙ drop-frame_of order service_id method_id (n - 8) payload
