-- ===== src/Ikc/Packet.antt =====
-- The packets of src/ikcd/ikcp.c. A pack function gives the length that it returns and the bytes of
-- the packet that it allocates; an unpack function reads memory from the packet on, and has no result
-- where it reads past the end of that memory. A `pid_t` is its 32-bit pattern.
pub mod RoundTrip
use dkmp.Base.{
  ℕ, ◌+◌, ◌*◌, Option, none, some, List, [], ◌∷◌, ◌++◌, length, take, Text, ℤ, pos, negsuc, Bytes,
  u16, le16, le32, read16, read32, split_at, c_string,
}
use dkmp.Base.Chain.{◌>>=◌}

abbrev pub ikc_version : ℕ
ikc_version = 1

abbrev pub proc_creat_req : ℕ
proc_creat_req = 10

abbrev pub syscall_req : ℕ
syscall_req = 11

abbrev pub proc_creat_resp : ℕ
proc_creat_resp = 30

-- Version and type; `none` in place of the packet is NULL, and a status of -1.
unfoldable pub det_packet_type : Option Bytes → Option (ℤ × Option (ℕ × ℕ))
det_packet_type none = some (negsuc 0, none)
det_packet_type (some (version ∷ type ∷ m)) = some (pos 0, some (version, type))
det_packet_type (some _) = none

-- A text behind its length.
unfoldable pub packed_text : Text → Bytes
packed_text t = le16 (u16 (length t)) ++ take (u16 (length t)) t

unfoldable pub pack_proc_creat_req :
    (seq o_pid : ℕ) (o_hostname o_filename o_argv : Text) → ℕ × Bytes
pack_proc_creat_req seq o_pid host file argv = (
  u16 (1 + 1 + 2 + 4 + u16 (length host) + u16 (length file) + u16 (length argv) + 3 * 2),
  ikc_version
      ∷ proc_creat_req
      ∷ (le16 seq ++ (le32 o_pid ++ (packed_text host ++ (packed_text file ++ packed_text argv)))),
)

pub record ProcCreat : Type 0 where
  pub seq : ℕ
  pub o_pid : ℕ
  pub o_hostname : Text
  pub o_filename : Text
  pub o_argv : Text

-- A text behind its length, with the 0 that the code puts behind its copy, and the memory that follows.
unfoldable pub unpack_text : Bytes → Option (Text × Bytes)
unpack_text m = do
  (n, data') ← read16 m
  (t, rest) ← split_at n data'
  s ← c_string (t ++ 0 ∷ [])
  some (s, rest)

unfoldable pub unpack_body : Bytes → Option ProcCreat
unpack_body m = do
  (seq, m) ← read16 m
  (o_pid, m) ← read32 m
  (host, m) ← unpack_text m
  (file, m) ← unpack_text m
  (argv, m) ← unpack_text m
  some (record { seq = seq; o_pid = o_pid; o_hostname = host; o_filename = file; o_argv = argv })

unfoldable pub unpack_proc_creat_req : Bytes → Option ProcCreat
unfolding unpack_body
unpack_proc_creat_req (version ∷ type ∷ m) = unpack_body m
unpack_proc_creat_req _ = none

unfoldable pub pack_proc_creat_resp : (seq r_pid : ℕ) → ℕ × Bytes
pack_proc_creat_resp seq r_pid =
    (2 + 2 + 4, ikc_version ∷ proc_creat_resp ∷ (le16 seq ++ le32 r_pid))

-- The sequence number and the pid.
unfoldable pub unpack_proc_creat_resp : Bytes → Option (ℕ × ℕ)
unpack_proc_creat_resp (version ∷ type ∷ m) = do
  (seq, m) ← read16 m
  (r_pid, m) ← read32 m
  some (seq, r_pid)
unpack_proc_creat_resp _ = none
