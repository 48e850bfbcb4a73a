-- ===== src/Csp/Response.antt =====
-- Responses of src/csd/csp.c: what is packed is what is unpacked, and when the packet fits the buffer
-- of CSP_MAXPACKET_SIZE bytes that the callers give.
use dkmp.Base.{
  ℕ, ◌+◌, ◌-◌, ◌<◌, ◌≤◌, ◌≡◌, refl, inl, inr, some, [], ◌∷◌, ◌++◌, append-nil, append_assoc, arith,
  ◌==◌, Bool-cases, length, length-append, length-take, length-replicate, take, take_all, replicate,
  Text, Bytes, le16, IsCString, read16-le16, split_at-append, c_string-append,
}
use dkmp.Csp.{
  resp_wdata, max_packet_size, strncpy, resp_data_len, pack_resp_packet, unpack_resp_packet,
}

pub length-strncpy : (t : Text) (n : ℕ) → length (strncpy t n) ≡ n
unfolding strncpy
length-strncpy t n = omega (
  arith,
  length-append (take n t) (replicate (n - length t) 0),
  length-take n t,
  length-replicate {A = ℕ} (n - length t) 0,
)

resp_data_len_short : (t : Text) → length t < 65532 → resp_data_len t ≡ length t
unfolding resp_data_len
resp_data_len_short t h = ground arith

pub strncpy_self : (t : Text) → strncpy t (length t) ≡ t
unfolding strncpy
strncpy_self t = let e : length t - length t ≡ 0 = omega arith in rw (take_all t, e) (append-nil t)

-- The returned length is the number of bytes written.
pub length-pack_resp :
    (type err : ℕ) (t : Text)
    → length (pack_resp_packet type err t).1 ≡ (pack_resp_packet type err t).0
unfolding pack_resp_packet le16
length-pack_resp type err t = elim (Bool-cases (type == resp_wdata)) [
  | inl data' ↦ rw data' (omega (arith, length-strncpy t (resp_data_len t)))
  | inr other ↦ rw other refl
]

-- A response with a text of at most 65530 bytes fits the buffer of 65535 bytes; one with 65531 to
-- 65535 bytes is written past its end, also where the length is cut back.
pub pack_resp_fits :
    (err : ℕ) (t : Text)
    → length t < 65536
    → (length t ≤ 65530 → (pack_resp_packet resp_wdata err t).0 ≤ max_packet_size)
      × (65530 < length t → max_packet_size < (pack_resp_packet resp_wdata err t).0)
unfolding pack_resp_packet resp_data_len
pack_resp_fits err t h = (λ k. ground arith, λ k. ground arith)

pub length-pack_text :
    (err : ℕ) (t : Text)
    → length t < 65532
    → length (pack_resp_packet resp_wdata err t).1 ≡ length t + 5
unfolding pack_resp_packet le16
length-pack_text err t h = rw (resp_data_len_short t h) (omega (arith, length-strncpy t (length t)))

-- A response with data is unpacked to its type, error and text, if the text is a C string of at most
-- 65531 bytes and there is memory behind the packet for the closing 0.
pub unpack-pack_resp :
    (err : ℕ) (t : Text) (b : ℕ) (behind : Bytes)
    → length t < 65532
    → IsCString t
    → unpack_resp_packet ((pack_resp_packet resp_wdata err t).1 ++ b ∷ behind)
      ≡ some (resp_wdata, err, some t)
unfolding unpack_resp_packet pack_resp_packet
unpack-pack_resp err t b behind h clean =
    rw (resp_data_len_short t h, strncpy_self t)
      (simp append_assoc (
        rw
          (
            read16-le16 (length t) (t ++ b ∷ behind) (omega arith),
            split_at-append t (b ∷ behind),
            c_string-append t [] clean,
          )
          refl))
