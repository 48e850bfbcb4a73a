-- ===== src/Tests/Packets.antt =====
-- The theorems on packets on small packets.
use dkmp.Base.{◌≡◌, ◌≤◌, ◌<◌, ◌%◌, ◌↔◌, length, arith}
use dkmp.Csp.{resp_succ, resp_wdata, max_packet_size, pack_resp_packet}
use dkmp.Csp.Response.{pack_resp_fits}
use dkmp.Ikc.Numbers.{pack_request_id, seq_after, id-repeats_iff}
use dkmp.Tests.{t_1}

pack_resp_fits_example :
    (length t_1 ≤ 65530 → (pack_resp_packet resp_wdata resp_succ t_1).0 ≤ max_packet_size)
    × (65530 < length t_1 → max_packet_size < (pack_resp_packet resp_wdata resp_succ t_1).0)
pack_resp_fits_example = pack_resp_fits resp_succ t_1 (omega arith)

id-repeats_iff_example :
    (pack_request_id 1 (seq_after 1025) ≡ pack_request_id 1 (seq_after 1026)) ↔ (1024 % 1025 ≡ 1024)
id-repeats_iff_example = id-repeats_iff 1 1024 (omega arith)
