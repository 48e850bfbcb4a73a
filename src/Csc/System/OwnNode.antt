-- ===== src/Csc/System/OwnNode.antt =====
-- What `csc_set_dynamic_values` of src/csd/csc.c changes: values under the keys of this node alone.
use dkmp.Base.{
  ℕ, zero, suc, ◌+◌, ◌%◌, ◌/◌, ◌≡◌, ◌≢◌, refl, ap, ◌∙◌, inl, inr, false, not, Option, none, some,
  List, [], ◌∷◌, append-nil, ◌==◌, leb, if◌then◌else◌, Bool-cases, length, Text, pos, negsuc, arith,
}
use dkmp.Csdb.Key.{count_delims}
use dkmp.Csdb.Key.Names.{IsName, is_nil, join_key}
use dkmp.Csdb.Stored.{stored, set_value-stored, same_path→eq}
use dkmp.Csdb.Appending.{same_path}
use dkmp.Csdb.Store.{Db, done, Op, ◌>>=◌, ◌>>◌, pure, set_value_for_key}
use dkmp.Csdb.Values.{IsPath, Ready}
use dkmp.Csc.Names.{
  node_name, load_name, avg1_name, avg5_name, avg15_name, nop_name, active_name, lastpid_name,
  cpu_name, user_name, nice_name, sys_name, nrcpu_name, uptime_name, sreboot_name, idle_name,
  mem_name, total_name, used_name, free_name, shared_name, buffers_name, cached_name,
  swaptotal_name, swapused_name, swapfree_name,
}
use dkmp.Csc.System.{
  set_node, LoadAvg, set_load, set_uptime, MemInfo, set_mem, digits, decimal, CpuLine, cpu_string,
  cpu_count, cpu_part, set_cpus, set_cpu, Proc, set_dynamic_values,
}

-- The digits of a number are no part of a path by themselves.
digit_lem : (n : ℕ) (behind : Text) → IsName behind → IsName ((b'0' + n % 10) ∷ behind)
unfolding count_delims
digit_lem n behind k = let no : ((b'0' + n % 10) == b'.') ≡ false = ground arith in rw (no, k) refl

digits-IsName : (r n : ℕ) (behind : Text) → IsName behind → IsName (digits r n behind)
unfolding digits
digits-IsName zero n behind k = k
digits-IsName (suc r) n behind k = elim (Bool-cases (n / 10 == 0)) [
  | inl last ↦ rw last (digit_lem n behind k)
  | inr more ↦ rw more (digits-IsName r (n / 10) ((b'0' + n % 10) ∷ behind) (digit_lem n behind k))
]

cpu_string-IsName : (c : CpuLine) (nr : ℕ) → IsName (cpu_string c nr)
cpu_string-IsName c nr = elim (Bool-cases (leb (length c.cpuname) 3)) [
  | inl short ↦ rw short (unfold count_delims in refl)
  | inr long ↦ rw long (digits-IsName 10 nr [] (unfold count_delims in refl))
]

-- A newline stands behind every "cpu" of /proc/stat.
abbrev pub AllEnded : List (Option CpuLine) → Type 0
AllEnded [] = Unit
AllEnded (none ∷ cs) = ⊥
AllEnded (some c ∷ cs) = AllEnded cs

abbrev pub IsStat : Option (List (Option CpuLine)) → Type 0
IsStat none = Unit
IsStat (some lines) = AllEnded lines

module _ (h : Text) (named : IsName h) where
  -- Only values under the node's keys may differ.
  pub record OnlyNode (db db' : Db) : Type 0 where
    pub ready : Ready db'
    pub others :
        (path : List Text)
        → ((r : List Text) → path ≢ node_name ∷ h ∷ r)
        → stored db' path ≡ stored db path

  -- An operation that ends, and does no more than that.
  pub record Within {A : Type 0} (op : Op A) : Type 0 where
    pub runs : (db : Db) → Ready db → (a : A) × (db' : Db) × (op db ≡ done a db') × OnlyNode db db'

  Within-pure : {A : Type 0} → (a : A) → Within (pure a)
  Within-pure a = record {
    runs = λ db r. (a, db, refl, record { ready = r; others = λ path away. refl });
  }

  Within-bind :
      {A B : Type 0}
      → {m : Op A} → {f : A → Op B} → Within m
      → ((a : A) → Within (f a))
      → Within (m >>= f)
  Within-bind {m = m} {f = f} w k = record {
    runs = λ db r.
        let (a, db1, e, o) = w.runs db r in
        let (b, db2, e2, o2) = (k a).runs db1 o.ready in
        (
          b,
          db2,
          rw (e, e2) refl,
          record {
            ready = o2.ready;
            others = λ path away. o2.others path away ∙ o.others path away;
          },
        );
  }

  Within-then : {A B : Type 0} → {m : Op A} → {k : Op B} → Within m → Within k → Within (m >> k)
  Within-then w k = Within-bind w (λ a. k)

  set_path-Within :
      (ks : List Text) (v : Text) (now : ℕ)
      → IsPath (node_name ∷ h ∷ ks)
      → Within (set_value_for_key (join_key (node_name ∷ h ∷ ks)) (some v) now)
  set_path-Within ks v now p = record {
    runs = λ db r.
        let (db', e, r', s) = set_value-stored db (node_name ∷ h ∷ ks) v now r p in
        (
          pos 0,
          db',
          e,
          record {
            ready = r';
            others = λ path away. s path ∙ elim (Bool-cases (same_path path (node_name ∷ h ∷ ks))) [
              | inl same ↦ absurd (away ks (same_path→eq path (node_name ∷ h ∷ ks) same))
              | inr other ↦ rw other refl
            ];
          },
        );
  }

  set_node-Within :
      (g n v : Text) (now : ℕ)
      → IsName g
      → IsName n
      → is_nil n ≡ false
      → Within (set_node h g n v now)
  unfolding set_node
  set_node-Within g n v now p q filled = rw append-nil at (
      set_path-Within (g ∷ n ∷ []) v now (record {
        all_names = ((unfold count_delims in refl), (named, (p, (q, tt))));
        filled = ap not filled;
      }))

  -- A value of a processor, whose number is a part of the path of its own.
  set_cpu_value-Within :
      (s n v : Text) (now : ℕ)
      → IsName s
      → IsName n
      → is_nil n ≡ false
      → Within (set_node h cpu_name (cpu_part s n) v now)
  unfolding set_node
  set_cpu_value-Within s n v now p q filled = rw append-nil at (
      set_path-Within (cpu_name ∷ s ∷ n ∷ []) v now (record {
        all_names =
            ((unfold count_delims in refl), (named, ((unfold count_delims in refl), (p, (q, tt)))));
        filled = ap not filled;
      }))

  set_load-Within : (l : Option LoadAvg) (now : ℕ) → Within (set_load h l now)
  unfolding set_load count_delims
  set_load-Within none now = Within-pure (negsuc 0)
  set_load-Within (some l) now =
      Within-then (set_node-Within load_name avg1_name l.avg1 now refl refl refl) (
        Within-then (set_node-Within load_name avg5_name l.avg5 now refl refl refl) (
          Within-then (set_node-Within load_name avg15_name l.avg15 now refl refl refl) (
            Within-then (set_node-Within load_name nop_name l.nop now refl refl refl) (
              Within-then (set_node-Within load_name active_name l.run now refl refl refl) (
                Within-then (set_node-Within load_name lastpid_name l.pid now refl refl refl)
                  (Within-pure (pos 0)))))))

  set_uptime-Within : (u : Option (Text × Text)) (now : ℕ) → Within (set_uptime h u now)
  unfolding set_uptime count_delims
  set_uptime-Within none now = Within-pure (negsuc 0)
  set_uptime-Within (some (a, b)) now =
      Within-then (set_node-Within uptime_name sreboot_name a now refl refl refl) (
        Within-then (set_node-Within uptime_name idle_name b now refl refl refl)
          (Within-pure (pos 0)))

  set_mem-Within : (i : Option MemInfo) (now : ℕ) → Within (set_mem h i now)
  unfolding set_mem count_delims
  set_mem-Within none now = Within-pure (negsuc 0)
  set_mem-Within (some i) now =
      Within-then (set_node-Within mem_name total_name i.total now refl refl refl) (
        Within-then (set_node-Within mem_name used_name i.used now refl refl refl) (
          Within-then (set_node-Within mem_name free_name i.free_mem now refl refl refl) (
            Within-then (set_node-Within mem_name shared_name i.shared now refl refl refl) (
              Within-then (set_node-Within mem_name buffers_name i.buffers now refl refl refl) (
                Within-then (set_node-Within mem_name cached_name i.cached now refl refl refl) (
                  Within-then
                    (set_node-Within mem_name swaptotal_name i.swaptotal now refl refl refl)
                    (Within-then
                      (set_node-Within mem_name swapused_name i.swapused now refl refl refl)
                      (Within-then
                        (set_node-Within mem_name swapfree_name i.swapfree now refl refl refl)
                        (Within-pure (pos 0))))))))))

  set_cpus-Within :
      (cs : List (Option CpuLine)) (nr now : ℕ) → AllEnded cs → Within (set_cpus h cs nr now)
  unfolding set_cpus count_delims
  set_cpus-Within [] nr now k = Within-pure nr
  set_cpus-Within (none ∷ cs) nr now k = absurd k
  set_cpus-Within (some c ∷ cs) nr now k =
      let part = cpu_string-IsName c nr in
      Within-then (set_cpu_value-Within (cpu_string c nr) user_name c.user now part refl refl) (
        Within-then (set_cpu_value-Within (cpu_string c nr) nice_name c.nice now part refl refl) (
          Within-then (set_cpu_value-Within (cpu_string c nr) sys_name c.sys now part refl refl) (
            Within-then (set_cpu_value-Within (cpu_string c nr) idle_name c.idle now part refl refl)
              (set_cpus-Within cs (cpu_count c nr) now k))))

  set_cpu-Within :
      (lines : Option (List (Option CpuLine))) (now : ℕ)
      → IsStat lines
      → Within (set_cpu h lines now)
  unfolding set_cpu count_delims
  set_cpu-Within none now k = Within-pure (negsuc 0)
  set_cpu-Within (some lines) now k = Within-bind (set_cpus-Within lines 0 now k) (λ nr.
      Within-then
        (set_node-Within cpu_name nrcpu_name (decimal (if nr == 0 then 1 else nr)) now refl refl
          refl)
        (Within-pure (pos 0)))

  -- Copying what /proc says to the database ends, whatever fields were read there and whichever of
  -- its files cannot be read, and leaves every value outside the keys of this node as it is, so that
  -- nothing that is known of other nodes, applications and libraries is lost. A newline stands behind
  -- every "cpu" of /proc/stat; the database has a root, its mutex is free and no entry has two childs
  -- of one name, also afterwards; the node's name holds no '.'.
  pub set_dynamic_values-OnlyNode :
      (db : Db) (p : Proc) (now : ℕ)
      → Ready db
      → IsStat p.stat
      → (db' : Db) × (set_dynamic_values h p now db ≡ done tt db') × OnlyNode db db'
  unfolding set_dynamic_values
  set_dynamic_values-OnlyNode db p now r k =
      let all : Within (set_dynamic_values h p now) = Within-then (set_load-Within p.loadavg now) (
        Within-then (set_uptime-Within p.uptime now) (
          Within-then (set_mem-Within p.meminfo now)
            (Within-then (set_cpu-Within p.stat now k) (Within-pure tt)))) in
      let (a, db', e, o) = all.runs db r in (db', e, o)
