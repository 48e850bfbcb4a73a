-- ===== src/Csd/Buffer.antt =====
-- Packets that fit the buffers of MAXLINE bytes of src/csd/csd.c.
use dkmp.Base.{
  ℕ, zero, suc, ◌-◌, ◌≤◌, ◌<◌, ◌≡◌, refl, ◌∙◌, sym, ap, ◌++◌, ◌∷◌, [], arith, length, length-append,
  take, take-append, append-nil, Bytes, Text,
}
use dkmp.Csp.{resp_wdata, pack_resp_packet}
use dkmp.Csp.Response.{length-pack_text}
use dkmp.Csd.{buffer}

abbrev pub room_behind : Bytes → Bytes → Bytes
room_behind p behind = take (4096 - length p) behind

pub buffer-append :
    (p behind : Bytes) → length p ≤ 4096 → buffer (p ++ behind) ≡ p ++ room_behind p behind
unfolding buffer
buffer-append p behind h = take-append 4096 p behind h

take_nil : (n : ℕ) → take {A = ℕ} n [] ≡ []
take_nil zero = refl
take_nil (suc n) = refl

pub buffer_short : (m : Bytes) → length m ≤ 4096 → buffer m ≡ m
buffer_short m h =
    ap buffer (sym (append-nil m))
    ∙ buffer-append m [] h
    ∙ ap (λ t. m ++ t) (take_nil (4096 - length m))
    ∙ append-nil m

-- A response with a text that fits, and the 0 behind it.
pub buffer-response :
    (err : ℕ) (t : Text)
    → length t < 4091
    → buffer ((pack_resp_packet resp_wdata err t).1 ++ 0 ∷ [])
      ≡ (pack_resp_packet resp_wdata err t).1 ++ 0 ∷ []
buffer-response err t h = buffer_short ((pack_resp_packet resp_wdata err t).1 ++ 0 ∷ []) (
    omega (
      arith,
      length-append (pack_resp_packet resp_wdata err t).1 (0 ∷ []),
      length-pack_text err t (omega (arith, h)),
      h,
    ))
