-- ===== src/Ikc/Packet/RoundTrip.antt =====
-- What src/ikcd/ikcp.c packs is what it unpacks, and the lengths that it returns.
use dkmp.Base.{
  ℕ, ◌+◌, ◌<◌, ◌≡◌, refl, some, [], ◌++◌, append_assoc, arith, length, length-append, take_all,
  Text, Bytes, u16, le16, le32, IsCString, read16-le16, read32-le32, split_at-append,
  c_string-append,
}
use dkmp.Ikc.Packet.{
  packed_text, pack_proc_creat_req, unpack_text, unpack_body, unpack_proc_creat_req,
  pack_proc_creat_resp, unpack_proc_creat_resp,
}

-- What a packet can carry in one of its texts.
pub record Fits (t : Text) : Type 0 where
  pub short : length t < 65536
  pub clean : IsCString t

pub packed_text_lem : (t : Text) → Fits t → packed_text t ≡ le16 (length t) ++ t
unfolding packed_text
packed_text_lem t f = let e : u16 (length t) ≡ length t = omega arith in rw (e, take_all t) refl

unpack-packed_text :
    (t : Text) (rest : Bytes) → Fits t → unpack_text (packed_text t ++ rest) ≡ some (t, rest)
unfolding unpack_text
unpack-packed_text t rest f = rw (packed_text_lem t f) (
    simp append_assoc (
      rw
        (
          read16-le16 (length t) (t ++ rest) f.short,
          split_at-append t rest,
          c_string-append t [] f.clean,
        )
        refl))

length-packed_text : (t : Text) → length t < 65536 → length (packed_text t) ≡ length t + 2
unfolding packed_text le16
length-packed_text t h =
    let e : u16 (length t) ≡ length t = omega arith in rw (e, take_all t) (omega arith)

-- A process creation request is unpacked to what was packed, whatever follows it in memory, if the
-- id fits 16 bits, the pid 32 bits, and the texts are C strings of less than 65536 bytes.
pub unpack-pack_req :
    (seq pid : ℕ) (host file argv : Text) (behind : Bytes)
    → seq < 65536
    → pid < 4294967296
    → Fits host
    → Fits file
    → Fits argv
    → unpack_proc_creat_req ((pack_proc_creat_req seq pid host file argv).1 ++ behind)
      ≡ some
          (record { seq = seq; o_pid = pid; o_hostname = host; o_filename = file; o_argv = argv })
unfolding unpack_proc_creat_req unpack_body pack_proc_creat_req
unpack-pack_req seq pid host file argv behind s p h f a =
    let texts = packed_text host ++ (packed_text file ++ (packed_text argv ++ behind)) in
    simp append_assoc (
      rw
        (
          read16-le16 seq (le32 pid ++ texts) s,
          read32-le32 pid texts p,
          unpack-packed_text host (packed_text file ++ (packed_text argv ++ behind)) h,
          unpack-packed_text file (packed_text argv ++ behind) f,
          unpack-packed_text argv behind a,
        )
        refl)

-- The returned length of a request is the number of its bytes, as long as that fits a `short`.
pub length-pack_req :
    (seq pid : ℕ) (host file argv : Text)
    → length host + length file + length argv < 65522
    → (pack_proc_creat_req seq pid host file argv).0
      ≡ length (pack_proc_creat_req seq pid host file argv).1
unfolding pack_proc_creat_req le16 le32
length-pack_req seq pid host file argv h = omega (
  arith,
  length-append (packed_text host) (packed_text file ++ packed_text argv),
  length-append (packed_text file) (packed_text argv),
  length-packed_text host (omega arith),
  length-packed_text file (omega arith),
  length-packed_text argv (omega arith),
)

-- A process creation response is unpacked to the id and the pid that were packed, if they fit 16
-- and 32 bits, and its length is the one that is returned.
pub unpack-pack_creat_resp :
    (seq pid : ℕ) (behind : Bytes)
    → seq < 65536
    → pid < 4294967296
    → (unpack_proc_creat_resp ((pack_proc_creat_resp seq pid).1 ++ behind) ≡ some (seq, pid))
      × (length (pack_proc_creat_resp seq pid).1 ≡ (pack_proc_creat_resp seq pid).0)
unfolding unpack_proc_creat_resp pack_proc_creat_resp
unpack-pack_creat_resp seq pid behind s p = (
  simp append_assoc (rw (read16-le16 seq (le32 pid ++ behind) s, read32-le32 pid behind p) refl),
  unfold le16 le32 in refl,
)
