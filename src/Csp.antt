-- ===== src/Csp.antt =====
-- src/csd/csp.c (and its copy src/csm/csp.c): the packets of the capability and system information
-- protocol. A pack function gives the length that it returns and the bytes that it writes from the
-- start of the buffer; an unpack function reads memory from the packet on, and has no result where
-- the code reads or writes past the end of that memory.
pub mod Request
pub mod Response
use dkmp.Base.{
  ℕ, suc, ◌+◌, ◌*◌, Bool, true, false, not, ◌&&◌, ◌||◌, Option, none, some, List, [], ◌∷◌, ◌++◌,
  ◌==◌, ltb, leb, if◌then◌else◌, length, take, replicate, ◌-◌, Text, ℤ, pos, negsuc, Bytes, u16,
  le16, read16, split_at, c_string,
}
use dkmp.Base.Chain.{◌>>=◌}

-- Of src/include/cs.h.
abbrev pub cs_ver : ℕ
cs_ver = 1

abbrev pub cs_hello : ℕ
cs_hello = 1

abbrev pub cs_req : ℕ
cs_req = 2

abbrev pub cs_cap : ℕ
cs_cap = 3

abbrev pub cs_set : ℕ
cs_set = 1

abbrev pub cs_get : ℕ
cs_get = 2

abbrev pub cs_del : ℕ
cs_del = 3

abbrev pub cs_ls : ℕ
cs_ls = 4

abbrev pub cs_capexec : ℕ
cs_capexec = 6

abbrev pub resp_succ : ℕ
resp_succ = 1

abbrev pub resp_err : ℕ
resp_err = 2

abbrev pub resp_wdata : ℕ
resp_wdata = 3

abbrev pub resp_ndata : ℕ
resp_ndata = 4

abbrev pub max_packet_size : ℕ
max_packet_size = 65535

-- One field of a hello packet: its length in a byte, and its bytes. The length is a `char`, so the
-- caller's texts must be shorter than 128 bytes.
unfoldable pub hello_field : Text → Bytes
hello_field t = length t ∷ t

-- `none` for a load that is NULL. The length counts the fields, their length bytes and the header,
-- not the closing 0.
unfoldable pub pack_hello_packet :
    (hostname : Text) (loadavg1 loadavg5 loadavg15 : Option Text) → ℤ × Bytes
pack_hello_packet h (some a) (some b) (some c) = (
  pos (2 + length h + length a + length b + length c + 4),
  1 ∷ cs_hello ∷ (hello_field h ++ (hello_field a ++ (hello_field b ++ (hello_field c ++ 0 ∷ [])))),
)
pack_hello_packet h _ _ _ = (negsuc 0, 1 ∷ cs_hello ∷ [])

-- `strncpy(dst, t, n)`: the text, cut off at `n` bytes or filled up with 0.
unfoldable pub strncpy : Text → ℕ → Bytes
strncpy t n = take n t ++ replicate (n - length t) 0

-- The length field of a response.
unfoldable pub resp_data_len : Text → ℕ
resp_data_len t =
    if leb (max_packet_size - 3) (u16 (length t)) then max_packet_size else u16 (length t)

unfoldable pub pack_resp_packet : (type err : ℕ) → Text → ℕ × Bytes
unfolding resp_data_len strncpy
pack_resp_packet type err t =
    let n = resp_data_len t in
    if type == resp_wdata
    then (3 + n + 2, 1 ∷ type ∷ err ∷ (le16 n ++ strncpy t n))
    else (3, 1 ∷ type ∷ err ∷ [])

unfoldable pub pack_capreq_packet : (type : ℕ) → Text → ℕ × Bytes
unfolding strncpy
pack_capreq_packet type t =
    let n = u16 (length t) in (3 + n + 2, 1 ∷ cs_cap ∷ type ∷ (le16 n ++ strncpy t n))

-- The data of a response, with the 0 that the code writes behind it. `none` inside means that
-- `resp_data` is left as it was.
unfoldable pub unpack_resp_data : ℕ → Bytes → Option (Option Text)
unpack_resp_data type m =
    if type == resp_wdata
    then (do
      (n, rest) ← read16 m
      (t, after) ← split_at n rest
      elim after [ [] ↦ none | _ ∷ _ ↦ (do s ← c_string (t ++ 0 ∷ []); some (some s)) ])
    else some none

-- Type, error and data.
unfoldable pub unpack_resp_packet : Bytes → Option (ℕ × ℕ × Option Text)
unfolding unpack_resp_data
unpack_resp_packet (version ∷ type ∷ err ∷ m) = do t ← unpack_resp_data type m; some (type, err, t)
unpack_resp_packet _ = none

-- Version and type.
unfoldable pub det_packet_type : Bytes → Option (ℕ × ℕ)
det_packet_type (version ∷ type ∷ m) = some (version, type)
det_packet_type _ = none

-- Key and value of a request, read from behind its type byte. Only a SET request has a value, and
-- only for it is the key cut off at its length.
unfoldable pub unpack_dbreq_request : Bytes → (req_type : ℕ) → Option (Text × Option Text)
unpack_dbreq_request m req_type = do
  (key_len, key_data) ← read16 m
  if req_type == cs_set
      then (do
        (key, after) ← split_at key_len key_data
        (val_len, val_data) ← read16 after
        (value, rest) ← split_at val_len val_data
        k ← c_string (key ++ 0 ∷ [])
        v ← c_string (value ++ 0 ∷ [])
        elim rest [ [] ↦ none | _ ∷ _ ↦ some (k, some v) ])
      else (do k ← c_string key_data; some (k, none))

-- The value part of a request; `after_key` is what stands behind the key otherwise.
unfoldable pub dbreq_value : (type : ℕ) → Option Text → (after_key : Bytes) → Bytes
dbreq_value type none after_key = after_key
dbreq_value type (some v) after_key =
    let n = u16 (length v) in
    if ltb 0 n && type == cs_set then le16 n ++ (take n v ++ 0 ∷ []) else after_key

abbrev value_len : Option Text → ℕ
value_len none = 0
value_len (some v) = u16 (length v)

-- The 0 behind the key is overwritten by the value's length, if there is a value.
unfoldable pub pack_dbreq_packet : Option Text → Option Text → (type : ℕ) → ℤ × Bytes
unfolding dbreq_value
pack_dbreq_packet none value type = (negsuc 0, [])
pack_dbreq_packet (some key) value type =
    let n = u16 (length key) in
    (
      pos (u16 (3 + n + value_len value + 3 * 2)),
      cs_ver
          ∷ cs_req
          ∷ type
          ∷ (if ltb 0 n
              then le16 n ++ (take n key ++ dbreq_value type value (0 ∷ []))
              else dbreq_value type value []),
    )
