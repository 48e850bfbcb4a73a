-- ===== src/Csp/Request.antt =====
-- Requests of src/csd/csp.c: what is packed is what is unpacked, and how many bytes are written.
use dkmp.Base.{
  ℕ, ◌<◌, ◌≡◌, refl, Bool, true, false, ◌&&◌, Option, none, some, [], ◌∷◌, ◌++◌, append_assoc,
  arith, ◌==◌, ltb, length, take_all, Text, Bytes, u16, le16, IsCString, read16-le16,
  split_at-append, c_string-append, drop,
}
use dkmp.Csp.{cs_set, pack_dbreq_packet, dbreq_value, unpack_dbreq_request}

-- A text that a request can carry: not empty, short enough for a `short`, and a C string.
pub record Fits (t : Text) : Type 0 where
  pub filled : 0 < length t
  pub short : length t < 65536
  pub clean : IsCString t

pub u16_short : (t : Text) → length t < 65536 → u16 (length t) ≡ length t
u16_short t h = omega arith

ltb_filled : (t : Text) → 0 < length t → ltb 0 (length t) ≡ true
ltb_filled t h = ground arith

-- What stands from the request's length field on: key and value, each behind its length.
pub dbreq_set :
    (key value : Text)
    → Fits key
    → Fits value
    → (pack_dbreq_packet (some key) (some value) cs_set).1
      ≡ 1 ∷ 2 ∷ cs_set ∷ (le16 (length key) ++ (key ++ (le16 (length value) ++ (value ++ 0 ∷ []))))
unfolding pack_dbreq_packet
dbreq_set key value k v =
    rw
      (
        u16_short key k.short,
        u16_short value v.short,
        ltb_filled key k.filled,
        ltb_filled value v.filled,
        take_all key,
        take_all value,
      )
      refl

and_false : (b : Bool) → (b && false) ≡ false
and_false true = refl
and_false false = refl

pub dbreq_get :
    (key : Text) (value : Option Text) (type : ℕ)
    → Fits key
    → (type == cs_set) ≡ false
    → (pack_dbreq_packet (some key) value type).1
      ≡ 1 ∷ 2 ∷ type ∷ (le16 (length key) ++ (key ++ 0 ∷ []))
unfolding pack_dbreq_packet dbreq_value
dbreq_get key none type k h = rw (u16_short key k.short, ltb_filled key k.filled, take_all key) refl
dbreq_get key (some v) type k h =
    rw
      (
        u16_short key k.short,
        ltb_filled key k.filled,
        take_all key,
        h,
        and_false (ltb 0 (u16 (length v))),
      )
      refl

pub unpack_set_lem :
    (key value : Text) (rest : Bytes)
    → Fits key
    → Fits value
    → unpack_dbreq_request
        (le16 (length key) ++ (key ++ (le16 (length value) ++ (value ++ 0 ∷ rest))))
        cs_set
      ≡ some (key, some value)
unfolding unpack_dbreq_request
unpack_set_lem key value rest k v =
    let after = le16 (length value) ++ (value ++ 0 ∷ rest) in
    rw
      (
        read16-le16 (length key) (key ++ after) k.short,
        split_at-append key after,
        read16-le16 (length value) (value ++ 0 ∷ rest) v.short,
        split_at-append value (0 ∷ rest),
        c_string-append key [] k.clean,
        c_string-append value [] v.clean,
      )
      refl

pub unpack_get_lem :
    (key : Text) (type : ℕ) (behind : Bytes)
    → Fits key
    → (type == cs_set) ≡ false
    → unpack_dbreq_request (le16 (length key) ++ (key ++ 0 ∷ behind)) type ≡ some (key, none)
unfolding unpack_dbreq_request
unpack_get_lem key type behind k h =
    rw (read16-le16 (length key) (key ++ 0 ∷ behind) k.short, h, c_string-append key behind k.clean)

-- A SET request is unpacked to the key and the value that were packed, whatever follows the packet
-- in memory, provided that both are C strings of 1 to 65535 bytes.
pub unpack-pack_set :
    (key value : Text) (behind : Bytes)
    → Fits key
    → Fits value
    → unpack_dbreq_request
        (drop 3 ((pack_dbreq_packet (some key) (some value) cs_set).1 ++ behind))
        cs_set
      ≡ some (key, some value)
unpack-pack_set key value behind k v =
    rw (dbreq_set key value k v) (simp append_assoc (unpack_set_lem key value behind k v))

-- A request of any other type is unpacked to its key alone, if the key is a C string of 1 to 65535
-- bytes, whatever follows the packet in memory.
pub unpack-pack_get :
    (key : Text) (value : Option Text) (type : ℕ) (behind : Bytes)
    → Fits key
    → (type == cs_set) ≡ false
    → unpack_dbreq_request (drop 3 ((pack_dbreq_packet (some key) value type).1 ++ behind)) type
      ≡ some (key, none)
unpack-pack_get key value type behind k h =
    rw (dbreq_get key value type k h) (simp append_assoc (unpack_get_lem key type behind k h))
