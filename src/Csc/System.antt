-- ===== src/Csc/System.antt =====
-- src/csd/csc.c: the functions that copy what /proc says of this node to the database. What `sscanf` reads
-- there is given, and taken to fit its buffers: `none` is a file that cannot be read.
pub mod Loads
pub mod OwnNode
use dkmp.Base.{
  zero, suc, ◌+◌, ◌%◌, ◌/◌, ◌==◌, leb, if◌then◌else◌, length, ℕ, Option, none, some, List, [], ◌∷◌,
  ◌++◌, Text, ℤ, pos, negsuc,
}
use dkmp.Csdb.Store.{Op, crashes, ◌>>=◌, ◌>>◌, pure, set_value_for_key}
use dkmp.Csc.Names.{
  cpu_name, user_name, nice_name, sys_name, nrcpu_name, all_cpus_name, node_name, load_name,
  avg1_name, avg5_name, avg15_name, nop_name, active_name, lastpid_name, uptime_name, sreboot_name,
  idle_name, mem_name, total_name, used_name, free_name, shared_name, buffers_name, cached_name,
  swaptotal_name, swapused_name, swapfree_name,
}

-- `.node.<hostname>.<group>.<name>`.
abbrev pub node_key : (hostname group name : Text) → Text
node_key h g n = b'.' ∷ (node_name ++ b'.' ∷ (h ++ b'.' ∷ (g ++ b'.' ∷ n)))

unfoldable pub set_node : (hostname group name value : Text) (now : ℕ) → Op ℤ
set_node h g n v now = set_value_for_key (node_key h g n) (some v) now

-- The fields of /proc/loadavg.
pub record LoadAvg : Type 0 where
  pub avg1 : Text
  pub avg5 : Text
  pub avg15 : Text
  pub run : Text
  pub nop : Text
  pub pid : Text

unfoldable pub set_load : (hostname : Text) → Option LoadAvg → (now : ℕ) → Op ℤ
set_load h none now = pure (negsuc 0)
set_load h (some l) now = do
  set_node h load_name avg1_name l.avg1 now
  set_node h load_name avg5_name l.avg5 now
  set_node h load_name avg15_name l.avg15 now
  set_node h load_name nop_name l.nop now
  set_node h load_name active_name l.run now
  set_node h load_name lastpid_name l.pid now
  pure (pos 0)

-- The fields of /proc/uptime: since the last boot, and idle since then.
unfoldable pub set_uptime : (hostname : Text) → Option (Text × Text) → (now : ℕ) → Op ℤ
set_uptime h none now = pure (negsuc 0)
set_uptime h (some (sreboot, idle)) now = do
  set_node h uptime_name sreboot_name sreboot now
  set_node h uptime_name idle_name idle now
  pure (pos 0)

-- The fields of /proc/meminfo.
pub record MemInfo : Type 0 where
  pub total : Text
  pub used : Text
  pub free_mem : Text
  pub shared : Text
  pub buffers : Text
  pub cached : Text
  pub swaptotal : Text
  pub swapused : Text
  pub swapfree : Text

unfoldable pub set_mem : (hostname : Text) → Option MemInfo → (now : ℕ) → Op ℤ
set_mem h none now = pure (negsuc 0)
set_mem h (some i) now = do
  set_node h mem_name total_name i.total now
  set_node h mem_name used_name i.used now
  set_node h mem_name free_name i.free_mem now
  set_node h mem_name shared_name i.shared now
  set_node h mem_name buffers_name i.buffers now
  set_node h mem_name cached_name i.cached now
  set_node h mem_name swaptotal_name i.swaptotal now
  set_node h mem_name swapused_name i.swapused now
  set_node h mem_name swapfree_name i.swapfree now
  pure (pos 0)

-- `sprintf` of an `unsigned` with "%d"; ten digits hold every number below 2 ^ 32.
unfoldable pub digits : (rounds : ℕ) → ℕ → Text → Text
digits zero n behind = behind
digits (suc r) n behind =
    let d = (b'0' + n % 10) ∷ behind in
    let rest = digits r (n / 10) d in if n / 10 == 0 then d else rest

abbrev pub decimal : ℕ → Text
decimal n = digits 10 n []

-- What stands from a "cpu" in /proc/stat to the end of its line.
pub record CpuLine : Type 0 where
  pub cpuname : Text
  pub user : Text
  pub nice : Text
  pub sys : Text
  pub idle : Text

abbrev pub cpu_string : CpuLine → (nr_cpu : ℕ) → Text
cpu_string c nr = if leb (length c.cpuname) 3 then all_cpus_name else decimal nr

abbrev pub cpu_count : CpuLine → (nr_cpu : ℕ) → ℕ
cpu_count c nr = if leb (length c.cpuname) 3 then nr else nr + 1

abbrev pub cpu_part : (cpu name : Text) → Text
cpu_part s n = s ++ b'.' ∷ n

-- The loop over the "cpu"s in the file, which ends with the number of processors that it has counted.
-- `none` is a "cpu" with no newline behind it: the end of its line is written through NULL.
unfoldable pub set_cpus :
    (hostname : Text) → List (Option CpuLine) → (nr_cpu : ℕ) → (now : ℕ) → Op ℕ
set_cpus h [] nr now = pure nr
set_cpus h (none ∷ cs) nr now = λ db. crashes
set_cpus h (some c ∷ cs) nr now = do
  set_node h cpu_name (cpu_part (cpu_string c nr) user_name) c.user now
  set_node h cpu_name (cpu_part (cpu_string c nr) nice_name) c.nice now
  set_node h cpu_name (cpu_part (cpu_string c nr) sys_name) c.sys now
  set_node h cpu_name (cpu_part (cpu_string c nr) idle_name) c.idle now
  set_cpus h cs (cpu_count c nr) now

unfoldable pub set_cpu : (hostname : Text) → Option (List (Option CpuLine)) → (now : ℕ) → Op ℤ
set_cpu h none now = pure (negsuc 0)
set_cpu h (some lines) now = do
  nr ← set_cpus h lines 0 now
  set_node h cpu_name nrcpu_name (decimal (if nr == 0 then 1 else nr)) now
  pure (pos 0)

-- What /proc says of this node.
pub record Proc : Type 0 where
  pub loadavg : Option LoadAvg
  pub uptime : Option (Text × Text)
  pub meminfo : Option MemInfo
  pub stat : Option (List (Option CpuLine))

unfoldable pub set_dynamic_values : (hostname : Text) → Proc → (now : ℕ) → Op (Unit {0})
set_dynamic_values h p now = do
  set_load h p.loadavg now
  set_uptime h p.uptime now
  set_mem h p.meminfo now
  set_cpu h p.stat now
  pure tt
