-- ===== src/Ikcq/Remove.antt =====
-- `ikcq_remove_request` of src/ikcd/ikcq.c on a request that is in the queue.
use dkmp.Ikcq.Chain.{Chain}
