-- ===== src/PartitionedHeap/Tables/Entries.antt =====
-- Reading and changing an entry of the tables.
use motoko.Prelude.{
  ℕ, zero, suc, ◌+◌, ◌-◌, ◌*◌, ◌/◌, ◌%◌, ◌≤◌, ◌<◌, ◌≡◌, ◌≢◌, refl, sym, ap, ◌∙◌, subst, List, [],
  ◌∷◌, ◌++◌, length, get_or, set, length-set, length-append, get_or-set_self, get_or-set_ne,
  get_or-append_left, get_or-append_right, ℕ_discrete, arith,
}
use motoko.PartitionedHeap.{Partition}
use motoko.PartitionedHeap.Tables.{
  PartitionTable, uninitialized_partition, from_fn, new_partition, new_partition_table,
  get_extension_table, get_partition_table, entry, change_entry,
}

-- The tables of `n` partitions, each full.
pub record AreTables (tables : List PartitionTable) (n : ℕ) : Type 0 where
  pub count : n ≡ length tables * 128
  pub full : (t : ℕ) → t < length tables → length (get_or tables t []) ≡ 128

get_extension_table-eq : (fuel i : ℕ) → i ≤ fuel → get_extension_table fuel i ≡ 1 + i / 128
unfolding get_extension_table
get_extension_table-eq zero i h = ground arith
get_extension_table-eq (suc fuel) i h = ground (arith, get_extension_table-eq fuel (i - 128))

-- The walk through the list of tables ends at the table of the partition.
pub get_partition_table-eq : (i : ℕ) → get_partition_table i ≡ i / 128
unfolding get_partition_table
get_partition_table-eq i = ground (arith, get_extension_table-eq i (i - 128))

pub entry-get_or :
    (j : ℕ) (tables : List PartitionTable)
    → entry j tables ≡ get_or (get_or tables (j / 128) []) (j % 128) uninitialized_partition
unfolding entry
entry-get_or j tables = rw (get_partition_table-eq j) refl

module _ (tables : List PartitionTable) (n : ℕ) (are : AreTables tables n) (i : ℕ) (i_lt : i < n)
    (f : Partition → Partition) where
  table_lt : i / 128 < length tables
  table_lt = omega (arith, are.count)

  abbrev changed_table : PartitionTable
  changed_table = set (get_or tables (i / 128) []) (i % 128) (f (entry i tables))

  change_entry-eq : change_entry i f tables ≡ set tables (i / 128) changed_table
  unfolding change_entry
  change_entry-eq = rw (get_partition_table-eq i) refl

  entry-eq :
      (j : ℕ)
      → entry j (change_entry i f tables)
        ≡ get_or
            (get_or (set tables (i / 128) changed_table) (j / 128) [])
            (j % 128)
            uninitialized_partition
  unfolding entry
  entry-eq j = rw (change_entry-eq, get_partition_table-eq j) refl

  pub entry-change_self : entry i (change_entry i f tables) ≡ f (entry i tables)
  entry-change_self =
      entry-eq i
      ∙ ap (λ t. get_or t (i % 128) uninitialized_partition)
          (get_or-set_self tables (i / 128) changed_table [] table_lt)
      ∙ get_or-set_self (get_or tables (i / 128) []) (i % 128) (f (entry i tables))
          uninitialized_partition (omega (arith, are.full (i / 128) table_lt))

  pub entry-change_ne : (j : ℕ) → i ≢ j → entry j (change_entry i f tables) ≡ entry j tables
  entry-change_ne j ne = elim (ℕ_discrete (i / 128) (j / 128)) [
    | no other ↦
        entry-eq j
        ∙ ap (λ t. get_or t (j % 128) uninitialized_partition)
            (get_or-set_ne tables (i / 128) (j / 128) changed_table [] other)
        ∙ sym (entry-get_or j tables)
    | yes same ↦
        entry-eq j
        ∙ ap
            (λ q.
              get_or (get_or (set tables (i / 128) changed_table) q []) (j % 128)
                uninitialized_partition)
            (sym same)
        ∙ ap (λ t. get_or t (j % 128) uninitialized_partition)
            (get_or-set_self tables (i / 128) changed_table [] table_lt)
        ∙ get_or-set_ne (get_or tables (i / 128) []) (i % 128) (j % 128) (f (entry i tables))
            uninitialized_partition (λ e. ne (omega arith))
        ∙ ap (λ q. get_or (get_or tables q []) (j % 128) uninitialized_partition) same
        ∙ sym (entry-get_or j tables)
  ]

  -- What the change keeps of the partition, it keeps of each.
  pub change_field {ℓ} :
      {B : Type ℓ} (g : Partition → B)
      → g (f (entry i tables)) ≡ g (entry i tables)
      → (j : ℕ) → g (entry j (change_entry i f tables)) ≡ g (entry j tables)
  change_field g same j = elim (ℕ_discrete i j) [
    | no ne ↦ ap g (entry-change_ne j ne)
    | yes e ↦
        subst (λ m. g (entry m (change_entry i f tables)) ≡ g (entry m tables)) e
          (ap g entry-change_self ∙ same)
  ]

  pub change-AreTables : AreTables (change_entry i f tables) n
  change-AreTables = rw (change_entry-eq) (record {
    count = omega (arith, are.count, length-set tables (i / 128) changed_table);
    full = λ t h. elim (ℕ_discrete (i / 128) t) [
      | yes e ↦ rw (← e) (
          ap length (get_or-set_self tables (i / 128) changed_table [] table_lt)
          ∙ length-set (get_or tables (i / 128) []) (i % 128) (f (entry i tables))
          ∙ are.full (i / 128) table_lt)
      | no e ↦
          ap length (get_or-set_ne tables (i / 128) t changed_table [] e)
          ∙ are.full t (omega (arith, length-set tables (i / 128) changed_table))
    ];
  })

pub length-from_fn {ℓ} : {A : Type ℓ} (f : ℕ → A) (i n : ℕ) → length (from_fn f i n) ≡ n
unfolding from_fn
length-from_fn f i zero = refl
length-from_fn f i (suc n) = ap suc (length-from_fn f (i + 1) n)

pub get_or-from_fn {ℓ} :
    {A : Type ℓ} (f : ℕ → A) (i n k : ℕ) (d : A) → k < n → get_or (from_fn f i n) k d ≡ f (i + k)
unfolding from_fn
get_or-from_fn f i zero k d h = absurd (omega arith)
get_or-from_fn f i (suc n) zero d h = ap f (omega arith)
get_or-from_fn f i (suc n) (suc k) d h =
    get_or-from_fn f (i + 1) n k d (omega arith) ∙ ap f (omega arith)

-- A table behind the last one has room for as many partitions more.
module _ (tables : List PartitionTable) (n : ℕ) (are : AreTables tables n) (static_space : ℕ) where
  abbrev added : PartitionTable
  added = new_partition_table n static_space

  length-added : length added ≡ 128
  unfolding new_partition_table
  length-added = length-from_fn (new_partition n static_space) 0 128

  pub append-AreTables : AreTables (tables ++ added ∷ []) (n + 128)
  append-AreTables = record {
    count = omega (arith, are.count, length-append tables (added ∷ []));
    full = λ t h. elim (ℕ_discrete t (length tables)) [
      | no ne ↦
          let lt : t < length tables = ground (arith, ne, length-append tables (added ∷ [])) in
          ap length (get_or-append_left tables (added ∷ []) t [] lt) ∙ are.full t lt
      | yes e ↦
          ap (λ k. length (get_or (tables ++ added ∷ []) k [])) (omega (arith, e))
          ∙ ap length (get_or-append_right tables (added ∷ []) 0 [])
          ∙ length-added
    ];
  }

  pub entry-append_left : (j : ℕ) → j < n → entry j (tables ++ added ∷ []) ≡ entry j tables
  unfolding entry
  entry-append_left j h = rw (get_partition_table-eq j) (
      ap (λ t. get_or t (j % 128) uninitialized_partition)
        (get_or-append_left tables (added ∷ []) (j / 128) [] (omega (arith, are.count))))

  pub entry-append_right :
      (k : ℕ) → k < 128 → entry (n + k) (tables ++ added ∷ []) ≡ new_partition n static_space k
  unfolding entry new_partition_table
  entry-append_right k h =
      let q : (n + k) / 128 ≡ length tables + 0 = omega (arith, are.count) in
      let r : (n + k) % 128 ≡ k = omega (arith, are.count) in
      rw (get_partition_table-eq (n + k), q, r)
        (ap (λ t. get_or t k uninitialized_partition) (get_or-append_right tables (added ∷ []) 0 [])
          ∙ get_or-from_fn (new_partition n static_space) 0 128 k uninitialized_partition h
          ∙ ap (new_partition n static_space) (omega arith))
