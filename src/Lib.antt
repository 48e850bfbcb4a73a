-- ===== src/Lib.antt =====
-- dkm, a distributed kernel for Linux 2.2: several nodes share the processes that they start.
--
-- The program has three parts. On each node the daemon csd (src/csd) keeps a database of keys and
-- values: which nodes are alive, their load, the libraries and applications they have. It exchanges
-- hello, database and capability packets with the other nodes. The daemon ikcd (src/ikcd) carries
-- requests between kernels: it takes the requests of its own kernel, sends them to other nodes, and
-- serves those that come in. The kernel (src/dkmke) asks ikcd, through the system call dkmctl, on which
-- node a program is to run and for a process on that node. The command line client csm (src/csm) sends
-- a user's requests to a csd.
--
-- Files and what they model:
--   Base, Base/*        shared names, the lemmas on lists, tests, C strings and bytes in memory.
--   Csdb/Key            src/csd/csdb.c: csdb_is_valid_key, csdb_check_key, csdb_parse_key (`scan` is its
--                       loop; a NULL result and a loop that never ends are values of `Parsed`).
--   Csdb/Entry          `Csdbe` is struct csdbe with its childs and its next entry; the functions of
--                       csdb.c on entries.
--   Csdb/Store          `Db` is csdb_root and csdb_root_mutex; the operations csdb_* by their names. An
--                       operation ends with a value, or in `deadlock`, `diverges` or `crashes`.
--   Csdb/Paths, Csdb/Unique, Csdb/Values, Csdb/Written, Csdb/Stored, Csdb/Appending, Csdb/Contract,
--   Csdb/Reach
--                       the database as a map from paths to what they hold, and what its operations do
--                       to that map.
--   Csp                 src/csd/csp.c: the packets between the csd daemons.
--   Csc, Csc/*          src/csd/csc.c: what is written to the database, and capabilities; Csc/System is
--                       what is read from /proc, Csc/Dump the file that a database is dumped to,
--                       Csc/Listing the listing of ldconfig that csc_scan_libs reads, and Csc/Mapped
--                       the files that are mapped to memory.
--   Csd, Csd/*          src/csd/csd.c: what the daemon does with a packet, and what it asks of others;
--                       Csd/Update is a round of cs_update_db with csc_do_def_req_for_alive_nodes,
--                       Csd/Startup what main does before its threads, and Csd/Buffer the packets
--                       that fit a buffer of MAXLINE bytes.
--   Csda, Csda/*        src/csd/csda.c: the best node for an application.
--   Csm, Csm/*          src/csm/csm.c: the command line client, and a session of it with the daemon;
--                       Csm/Typed is what fgets makes of the lines that are typed. Its csm/csp.c is the
--                       same as csd/csp.c but for a return, and Csp stands for both.
--   Ikc/Packet          src/ikcd/ikcp.c: the packets between the ikcd daemons.
--   Ikc/Numbers         src/ikcd/ikcr.c: request numbers, and the counter of a worker of ikcd.c.
--   Ikcq, Ikcq/*        src/ikcd/ikcq.c: the request queues, as cells in memory.
--   Ikcd, Ikcd/Backlog, Ikcd/Collect
--                       src/ikcd/ikcd.c, ikcr.c and ikcbl.c: the way of a request that comes in.
--   Ikcd/Fetch, Ikcd/Fetch/*
--                       ikc_get_request_from_kernel of ikcd.c, on the model of dkmctl.
--   Ikcd/BestNode, Ikcd/BestNode/*
--                       ikcr_best_node_for_app of ikcr.c, and its meeting with csd over the message
--                       queues; Csda/Server is the other end.
--   Ikcd/Outgoing, Ikcd/Outgoing/*
--                       ikcr_proceed_outgoing_request of ikcr.c, ikc_out_request_worker and
--                       ikc_respond_to_kernel of ikcd.c. Ikcd/Outgoing/Lossy is a network between two
--                       nodes that loses datagrams, with the model of the receiving node at its end.
--   Dkmctl, Dkmctl/*    src/dkmke/dkmctl.c: do_dkmctl, command by command, and dkm_execve.
--   Tests, Tests/*      the theorems on concrete inputs.
--
-- How the parts meet: Csc and Csd are written over the operations of Csdb/Store, Csd over the packets of
-- Csp, Csda over Csc, Ikcd over Ikc/Packet, Ikc/Numbers and Dkmctl. In Ikcd a queue is the list of its
-- requests, which Ikcq/Order shows the cells of Ikcq to be.
--
-- Bounds and fuel: `scan` has 2 * length + 2 rounds, which is enough for every key on which the
-- loop ends, and no number is enough for the others. The search of ikcq_remove_request has as many
-- rounds as its caller gives, and used up rounds are a result of their own; one more than the
-- number of cells before the request is enough, and one more than that of all cells for a request
-- that is not there. The loop of ikc_get_request_from_kernel needs one round more than tasks ask.
-- All other recursion is structural. Lengths in packets are 16-bit and pids 32-bit numbers,
-- little-endian in memory, with the wrap-around written out. What recvfrom and fgets read is cut
-- off at MAXLINE (4096) bytes, in csd.c and csm.c. A file that is mapped has zeros behind it up to
-- the end of its last page of 4096 bytes; to read past them is a crash, and so is a line or a word
-- of ldconfig's listing that is longer than its buffer of 256 bytes.
--
-- Not modelled: sockets, threads and signals (a network is a function from a packet to what comes
-- of it, and `during` is what runs while a process sleeps or waits), malloc that fails except in
-- ikcq, free, the sizes of buffers for keys, of those for the fields of /proc and the numbers of
-- processors, and of those for the names of nodes in csda.c, the variant of csdb.c with binary
-- search, how sscanf takes the files of /proc apart, the floating point numbers of src/csd/csda.c,
-- and the Linux files in src/dkmke.
pub mod Base
pub mod Csc
pub mod Csd
pub mod Csda
pub mod Csdb
pub mod Csm
pub mod Csp
pub mod Dkmctl
pub mod Ikc
pub mod Ikcd
pub mod Ikcq
pub mod Tests
