-- ===== src/Ikcd/Collect.antt =====
-- A process creation request from the packet that one node sends, src/ikcd/ikcp.c, to the request that
-- another one queues, src/ikcd/ikcd.c and src/ikcd/ikcr.c.
use dkmp.Base.{
  ℕ, ◌%◌, ◌<◌, ◌≤◌, ◌≡◌, refl, ◌∙◌, true, false, ◌∷◌, ◌++◌, append_assoc, arith, leb, length, drop,
  take, take_all, ap, ◌+◌, IsCString, Text, Bytes, le16, le32, read16-le16,
}
use dkmp.Ikc.Numbers.{pack_request_number, pack_request_id, unpack-pack_number, id_fits}
use dkmp.Ikc.Packet.{packed_text, pack_proc_creat_req, unpack_proc_creat_req, proc_creat_req}
use dkmp.Ikc.Packet.RoundTrip.{Fits, packed_text_lem, unpack-pack_req, length-pack_req}
use dkmp.Ikcd.{
  Address, Request, numbered, queue_it, request_for, node_fits, process_creation_request, queued,
  overruns, collect,
}

drop_head : (seq pid : ℕ) (m : Bytes) → drop 8 (1 ∷ 10 ∷ (le16 seq ++ (le32 pid ++ m))) ≡ m
unfolding le16 le32
drop_head seq pid m = refl

abbrev pub sent_packet : (thread seq pid : ℕ) (host file argv : Text) → Bytes
sent_packet thread seq pid host file argv =
    (pack_proc_creat_req (pack_request_id thread seq) pid host file argv).1

fits_lem :
    (id pid : ℕ) (host file argv : Text) (behind : Bytes)
    → Fits host
    → node_fits ((pack_proc_creat_req id pid host file argv).1 ++ behind) ≡ leb (length host) 64
unfolding node_fits pack_proc_creat_req
fits_lem id pid host file argv behind h =
    let texts = host ++ (packed_text file ++ (packed_text argv ++ behind)) in
    rw (packed_text_lem host h) (
      simp append_assoc (
        rw (drop_head id pid (le16 (length host) ++ texts), read16-le16 (length host) texts h.short)
          refl))

-- Version and type lead to the request.
head_lem :
    (from : Address) (garbage id pid : ℕ) (host file argv : Text) (behind : Bytes)
    → let m = (pack_proc_creat_req id pid host file argv).1 ++ behind in
      collect from garbage m
      ≡ queue_it (request_for from garbage (node_fits m) (unpack_proc_creat_req m))
unfolding collect process_creation_request pack_proc_creat_req
head_lem from garbage id pid host file argv behind = refl

-- What the receiver queues for a request that thread `thread` of another node has packed.
pub record Arrived (from : Address) (thread seq pid : ℕ) (host file argv : Text) (r : Request)
    : Type 0 where
  pub origin : (r.o_node ≡ host) × (r.o_pid ≡ pid)
  pub program : (r.filename ≡ file) × (r.argv ≡ argv)
  pub sender : (r.host_id ≡ from.addr % 65536) × (r.thread_id ≡ thread) × (r.seq_nbr ≡ seq % 1024)
  pub number : r.request_nbr ≡ pack_request_number from.addr (pack_request_id thread seq)
  pub kind : r.req ≡ proc_creat_req

-- What the receiver does with all bytes that were packed.
pub collect-packed :
    (from : Address) (garbage thread seq pid : ℕ) (host file argv : Text) (behind : Bytes)
    → thread < 64
    → pid < 4294967296
    → Fits host
    → Fits file
    → Fits argv
    → (length host ≤ 64
        → (r : Request) × (collect from garbage
              (sent_packet thread seq pid host file argv ++ behind)
            ≡ queued r)
          × Arrived from thread seq pid host file argv r)
      × (64 < length host
          → collect from garbage (sent_packet thread seq pid host file argv ++ behind) ≡ overruns)
collect-packed from garbage thread seq pid host file argv behind t p h f a =
    let id = pack_request_id thread seq in
    let whole = unpack-pack_req id pid host file argv behind (id_fits thread seq) p h f a in
    let fits = fits_lem id pid host file argv behind h in
    let (host', thread', seq', id', small) = unpack-pack_number from.addr thread seq t in
    (
      λ short. (
        numbered from garbage (pack_request_number from.addr id)
            (record { seq = id; o_pid = pid; o_hostname = host; o_filename = file; o_argv = argv }),
        head_lem from garbage id pid host file argv behind
            ∙ rw (fits, leb_true (length host) short, whole) refl,
        record {
          origin = (refl, refl);
          program = (refl, refl);
          sender = (host', thread', seq');
          number = refl;
          kind = refl;
        },
      ),
      λ long.
          head_lem from garbage id pid host file argv behind
          ∙ rw (fits, leb_false (length host) long, whole) refl,
    )
  where
    leb_true : (n : ℕ) → n ≤ 64 → leb n 64 ≡ true
    leb_true n h = ground arith

    leb_false : (n : ℕ) → 64 < n → leb n 64 ≡ false
    leb_false n h = ground arith

-- What is sent of the packet: as many bytes as the returned length says.
abbrev pub sent_bytes : (thread seq pid : ℕ) (host file argv : Text) → Bytes
sent_bytes thread seq pid host file argv =
    take ((pack_proc_creat_req (pack_request_id thread seq) pid host file argv).0)
      (sent_packet thread seq pid host file argv)

sent_whole :
    (thread seq pid : ℕ) (host file argv : Text)
    → length host + length file + length argv < 65522
    → sent_bytes thread seq pid host file argv ≡ sent_packet thread seq pid host file argv
sent_whole thread seq pid host file argv h =
    let m = sent_packet thread seq pid host file argv in
    ap (λ n. take n m) (length-pack_req (pack_request_id thread seq) pid host file argv h)
    ∙ take_all m

-- A process creation request is sent with all the bytes that its packing returns, and the receiver queues
-- it with what the sender packed and with the sender's thread and sequence number, if its node name has
-- at most 64 bytes; one with a longer node name is copied past the end of its buffer. The thread id
-- is below 64, the pid fits 32 bits, and the texts are C strings of less than 65522 bytes together.
pub collect-pack :
    (from : Address) (garbage thread seq pid : ℕ) (host file argv : Text) (behind : Bytes)
    → thread < 64
    → pid < 4294967296
    → IsCString host
    → IsCString file
    → IsCString argv
    → length host + length file + length argv < 65522
    → (length host ≤ 64
        → (r : Request) × (collect from garbage (sent_bytes thread seq pid host file argv ++ behind)
            ≡ queued r)
          × Arrived from thread seq pid host file argv r)
      × (64 < length host
          → collect from garbage (sent_bytes thread seq pid host file argv ++ behind) ≡ overruns)
collect-pack from garbage thread seq pid host file argv behind t p h f a short =
    rw (sent_whole thread seq pid host file argv short) (
      collect-packed from garbage thread seq pid host file argv behind t p
        (record { short = omega arith; clean = h }) (record { short = omega arith; clean = f })
        (record { short = omega arith; clean = a }))
