-- ===== src/Csc/Names.antt =====
-- The names that the keys of src/csd/csc.c and src/csd/csd.c are made of.
use dkmp.Base.{[], ◌∷◌, Text}

abbrev pub alive_name : Text
alive_name = b'a' ∷ b'l' ∷ b'i' ∷ b'v' ∷ b'e' ∷ []

abbrev pub app_name : Text
app_name = b'a' ∷ b'p' ∷ b'p' ∷ []

abbrev pub lib_name : Text
lib_name = b'l' ∷ b'i' ∷ b'b' ∷ []

abbrev pub node_name : Text
node_name = b'n' ∷ b'o' ∷ b'd' ∷ b'e' ∷ []

abbrev pub config_name : Text
config_name = b'c' ∷ b'o' ∷ b'n' ∷ b'f' ∷ b'i' ∷ b'g' ∷ []

abbrev pub def_db_req_name : Text
def_db_req_name = b'd' ∷ b'e' ∷ b'f' ∷ b'_' ∷ b'd' ∷ b'b' ∷ b'_' ∷ b'r' ∷ b'e' ∷ b'q' ∷ []

abbrev pub capnodes_name : Text
capnodes_name = b'c' ∷ b'a' ∷ b'p' ∷ b'n' ∷ b'o' ∷ b'd' ∷ b'e' ∷ b's' ∷ []

abbrev pub loadavg1_name : Text
loadavg1_name = b'l' ∷ b'o' ∷ b'a' ∷ b'd' ∷ b'a' ∷ b'v' ∷ b'g' ∷ b'1' ∷ []

abbrev pub loadavg5_name : Text
loadavg5_name = b'l' ∷ b'o' ∷ b'a' ∷ b'd' ∷ b'a' ∷ b'v' ∷ b'g' ∷ b'5' ∷ []

abbrev pub loadavg15_name : Text
loadavg15_name = b'l' ∷ b'o' ∷ b'a' ∷ b'd' ∷ b'a' ∷ b'v' ∷ b'g' ∷ b'1' ∷ b'5' ∷ []

abbrev pub load_name : Text
load_name = b'l' ∷ b'o' ∷ b'a' ∷ b'd' ∷ []

abbrev pub avg1_name : Text
avg1_name = b'a' ∷ b'v' ∷ b'g' ∷ b'1' ∷ []

abbrev pub avg5_name : Text
avg5_name = b'a' ∷ b'v' ∷ b'g' ∷ b'5' ∷ []

abbrev pub avg15_name : Text
avg15_name = b'a' ∷ b'v' ∷ b'g' ∷ b'1' ∷ b'5' ∷ []

abbrev pub nop_name : Text
nop_name = b'n' ∷ b'o' ∷ b'p' ∷ []

abbrev pub active_name : Text
active_name = b'a' ∷ b'c' ∷ b't' ∷ b'i' ∷ b'v' ∷ b'e' ∷ []

abbrev pub lastpid_name : Text
lastpid_name = b'l' ∷ b'a' ∷ b's' ∷ b't' ∷ b'p' ∷ b'i' ∷ b'd' ∷ []

abbrev pub uptime_name : Text
uptime_name = b'u' ∷ b'p' ∷ b't' ∷ b'i' ∷ b'm' ∷ b'e' ∷ []

abbrev pub sreboot_name : Text
sreboot_name = b's' ∷ b'r' ∷ b'e' ∷ b'b' ∷ b'o' ∷ b'o' ∷ b't' ∷ []

abbrev pub idle_name : Text
idle_name = b'i' ∷ b'd' ∷ b'l' ∷ b'e' ∷ []

abbrev pub cpu_name : Text
cpu_name = b'c' ∷ b'p' ∷ b'u' ∷ []

abbrev pub user_name : Text
user_name = b'u' ∷ b's' ∷ b'e' ∷ b'r' ∷ []

abbrev pub nice_name : Text
nice_name = b'n' ∷ b'i' ∷ b'c' ∷ b'e' ∷ []

abbrev pub sys_name : Text
sys_name = b's' ∷ b'y' ∷ b's' ∷ []

abbrev pub nrcpu_name : Text
nrcpu_name = b'n' ∷ b'r' ∷ b'c' ∷ b'p' ∷ b'u' ∷ []

abbrev pub all_cpus_name : Text
all_cpus_name = b'a' ∷ b'l' ∷ b'l' ∷ []

abbrev pub mem_name : Text
mem_name = b'm' ∷ b'e' ∷ b'm' ∷ []

abbrev pub total_name : Text
total_name = b't' ∷ b'o' ∷ b't' ∷ b'a' ∷ b'l' ∷ []

abbrev pub used_name : Text
used_name = b'u' ∷ b's' ∷ b'e' ∷ b'd' ∷ []

abbrev pub free_name : Text
free_name = b'f' ∷ b'r' ∷ b'e' ∷ b'e' ∷ []

abbrev pub shared_name : Text
shared_name = b's' ∷ b'h' ∷ b'a' ∷ b'r' ∷ b'e' ∷ b'd' ∷ []

abbrev pub buffers_name : Text
buffers_name = b'b' ∷ b'u' ∷ b'f' ∷ b'f' ∷ b'e' ∷ b'r' ∷ b's' ∷ []

abbrev pub cached_name : Text
cached_name = b'c' ∷ b'a' ∷ b'c' ∷ b'h' ∷ b'e' ∷ b'd' ∷ []

abbrev pub swaptotal_name : Text
swaptotal_name = b's' ∷ b'w' ∷ b'a' ∷ b'p' ∷ b't' ∷ b'o' ∷ b't' ∷ b'a' ∷ b'l' ∷ []

abbrev pub swapused_name : Text
swapused_name = b's' ∷ b'w' ∷ b'a' ∷ b'p' ∷ b'u' ∷ b's' ∷ b'e' ∷ b'd' ∷ []

abbrev pub swapfree_name : Text
swapfree_name = b's' ∷ b'w' ∷ b'a' ∷ b'p' ∷ b'f' ∷ b'r' ∷ b'e' ∷ b'e' ∷ []
