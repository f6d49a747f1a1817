-- ===== src/Fat/Entries.antt =====
-- The entries that the routines read are those that the table on the volume packs.
use native.Mathlib.Nat.{div-add-mod', mod-eq_of_lt, le-mul_of_pos_right}
use helix_os.Common.{
  ℕ, ◌+◌, ◌*◌, ◌/◌, ◌%◌, ◌^◌, ◌<◌, ◌≡◌, refl, sym, ap, ◌∙◌, ◌==◌, arith, ◌+w◌, ◌*w◌, Bool-cases,
  inl, inr,
}
use helix_os.Fat.{
  FatDevice, cluster_size, fat_table, ent_offset, fatfs_get_next_cluster_fat12,
  fatfs_get_next_cluster_fat16, fatfs_get_next_cluster_fat32,
}

-- A read leaves the bytes of the volume in the buffer.
abbrev pub Reads : FatDevice → (ℕ → ℕ) → Type 0
Reads dev disk = (length offset i : ℕ) → i < length → dev.read length offset i ≡ disk (offset + i)

-- The byte `i` of the first table on the volume.
abbrev pub fat_byte : FatDevice → (ℕ → ℕ) → ℕ → ℕ
fat_byte dev disk i = disk (dev.bpb.reserved_sects * dev.bpb.bytes_per_sect + i)

-- The first byte of the sector in which the byte `i` of the table lies has a number below 2 ^ 32.
abbrev pub Reachable : FatDevice → ℕ → Type 0
Reachable dev i =
    (dev.bpb.reserved_sects + i / dev.bpb.bytes_per_sect) * dev.bpb.bytes_per_sect < 2 ^ 32

-- How the tables pack their entries: two of 12 bits in three bytes, one of 16 bits in two, one of
-- 32 bits in four, lowest byte first.
abbrev pub Packs12 : (ℕ → ℕ) → (ℕ → ℕ) → Type 0
Packs12 table entry =
    (k : ℕ)
    → (entry k < 4096)
      × (table (3 * k) ≡ entry (2 * k) % 256)
      × (table (3 * k + 1) ≡ entry (2 * k) / 256 + 16 * (entry (2 * k + 1) % 16))
      × (table (3 * k + 2) ≡ entry (2 * k + 1) / 16)

abbrev pub Packs16 : (ℕ → ℕ) → (ℕ → ℕ) → Type 0
Packs16 table entry =
    (k : ℕ) → (table (2 * k) ≡ entry k % 256) × (table (2 * k + 1) ≡ entry k / 256)

abbrev pub Packs32 : (ℕ → ℕ) → (ℕ → ℕ) → Type 0
Packs32 table entry =
    (k : ℕ)
    → (table (4 * k) ≡ entry k % 256)
      × (table (4 * k + 1) ≡ entry k / 256 % 256)
      × (table (4 * k + 2) ≡ entry k / 65536 % 256)
      × (table (4 * k + 3) ≡ entry k / 16777216)

wrap-sum : (r q b : ℕ) → 0 < b → (r + q) * b < 2 ^ 32 → (r +w q) *w b ≡ r * b + q * b
wrap-sum r q b pos small =
    let below : r + q < 2 ^ 32 = omega (arith, le-mul_of_pos_right (r + q) pos) in
    let inner : r +w q ≡ r + q = mod-eq_of_lt below in
    ap (λ x. x *w b) inner ∙ mod-eq_of_lt small ∙ omega arith

even_entry :
    {e a b : ℕ} (f : ℕ)
    → e < 4096
    → a ≡ e % 256
    → b ≡ e / 256 + 16 * (f % 16)
    → (a + 256 * b) % 4096 ≡ e
even_entry f small lo hi = omega arith

odd_entry :
    {f a b : ℕ} (e : ℕ)
    → e < 4096
    → a ≡ e / 256 + 16 * (f % 16)
    → b ≡ f / 16
    → (a + 256 * b) / 16 ≡ f
odd_entry e small lo hi = omega arith

module _ (dev : FatDevice) (disk : ℕ → ℕ) (reads : Reads dev disk) (one : dev.bpb.sect_per_clus ≡ 1)
    (pos : 0 < dev.bpb.bytes_per_sect) where
  size : cluster_size dev ≡ dev.bpb.bytes_per_sect
  unfolding cluster_size
  size = rw one (omega arith)

  fat_table-read :
      (off i : ℕ)
      → fat_table dev off i
        ≡ dev.read
            (cluster_size dev)
            ((dev.bpb.reserved_sects +w off / cluster_size dev) *w dev.bpb.bytes_per_sect)
            i
  unfolding fat_table
  fat_table-read off i = refl

  table-byte :
      (off k : ℕ)
      → off % dev.bpb.bytes_per_sect + k < dev.bpb.bytes_per_sect
      → Reachable dev off
      → fat_table dev off (ent_offset dev off + k) ≡ fat_byte dev disk (off + k)
  unfolding ent_offset
  table-byte off k inside small =
      let b = dev.bpb.bytes_per_sect in
      let e = div-add-mod' off b in
      let w = wrap-sum dev.bpb.reserved_sects (off / b) b pos small in
      rw (fat_table-read off, size) (reads b _ (off % b + k) inside ∙ ap disk (omega (arith, w, e)))

  -- A byte of the buffer is the byte `j` of the table.
  table-at :
      (off k : ℕ) {j : ℕ}
      → j ≡ off + k
      → off % dev.bpb.bytes_per_sect + k < dev.bpb.bytes_per_sect
      → Reachable dev off
      → fat_table dev off (ent_offset dev off + k) ≡ fat_byte dev disk j
  table-at off k number inside small =
      table-byte off k inside small ∙ ap (fat_byte dev disk) (sym number)

  table-first :
      (off : ℕ) {j : ℕ}
      → j ≡ off
      → off % dev.bpb.bytes_per_sect < dev.bpb.bytes_per_sect
      → Reachable dev off
      → fat_table dev off (ent_offset dev off) ≡ fat_byte dev disk j
  table-first off number inside small =
      let at : ent_offset dev off ≡ ent_offset dev off + 0 = omega arith in
      ap (fat_table dev off) at
      ∙ table-at off 0 (omega (arith, number)) (omega (arith, inside)) small

  -- The routine for FAT12 returns the entry that the table packs, for a cluster below 2 ^ 31 whose
  -- entry does not cross the end of a sector, if clusters have one sector and that sector
  -- begins below 2 ^ 32.
  pub fatfs_get_next_cluster_fat12-entry :
      (entry : ℕ → ℕ) (cluster : ℕ)
      → Packs12 (fat_byte dev disk) entry
      → cluster < 2 ^ 31
      → (cluster + cluster / 2) % dev.bpb.bytes_per_sect + 1 < dev.bpb.bytes_per_sect
      → Reachable dev (cluster + cluster / 2)
      → fatfs_get_next_cluster_fat12 dev cluster ≡ entry cluster
  unfolding fatfs_get_next_cluster_fat12
  fatfs_get_next_cluster_fat12-entry entry cluster packs low inside small =
      let m = cluster / 2 in
      let wrap : cluster +w m ≡ cluster + m = omega arith in
      let (bound, b0, b1, b2) = packs m in
      let even = (packs (2 * m)).0 in
      elim (Bool-cases (cluster % 2 == 1)) [
        | inl odd ↦
            let c : 2 * m + 1 ≡ cluster = ground arith in
            let lo = table-first (cluster + m) {j = 3 * m + 1} (omega arith) (omega arith) small in
            let hi = table-at (cluster + m) 1 {j = 3 * m + 2} (omega arith) inside small in
            rw (wrap, odd) (odd_entry (entry (2 * m)) even (lo ∙ b1) (hi ∙ b2) ∙ ap entry c)
        | inr ev ↦
            let c : 2 * m ≡ cluster = ground arith in
            let lo = table-first (cluster + m) {j = 3 * m} (omega arith) (omega arith) small in
            let hi = table-at (cluster + m) 1 {j = 3 * m + 1} (omega arith) inside small in
            rw (wrap, ev) (even_entry (entry (2 * m + 1)) even (lo ∙ b0) (hi ∙ b1) ∙ ap entry c)
      ]

  -- The routine for FAT16 returns the entry that the table packs, for a cluster below 2 ^ 31 whose
  -- entry does not cross the end of a sector, if clusters have one sector and that sector
  -- begins below 2 ^ 32.
  pub fatfs_get_next_cluster_fat16-entry :
      (entry : ℕ → ℕ) (cluster : ℕ)
      → Packs16 (fat_byte dev disk) entry
      → cluster < 2 ^ 31
      → cluster * 2 % dev.bpb.bytes_per_sect + 1 < dev.bpb.bytes_per_sect
      → Reachable dev (cluster * 2)
      → fatfs_get_next_cluster_fat16 dev cluster ≡ entry cluster
  unfolding fatfs_get_next_cluster_fat16
  fatfs_get_next_cluster_fat16-entry entry cluster packs low inside small =
      let wrap : cluster *w 2 ≡ cluster * 2 = omega arith in
      let (b0, b1) = packs cluster in
      let lo = table-first (cluster * 2) {j = 2 * cluster} (omega arith) (omega arith) small in
      let hi = table-at (cluster * 2) 1 {j = 2 * cluster + 1} (omega arith) inside small in
      rw wrap (omega (arith, lo, hi, b0, b1))

  -- The routine for FAT32 returns the low 16 bits of the entry that the table packs, for a cluster
  -- below 2 ^ 30 whose entry does not cross the end of a sector, if clusters have one sector and that
  -- sector begins below 2 ^ 32: an entry of 2 ^ 16 or more is cut.
  pub fatfs_get_next_cluster_fat32-entry :
      (entry : ℕ → ℕ) (cluster : ℕ)
      → Packs32 (fat_byte dev disk) entry
      → cluster < 2 ^ 30
      → cluster * 4 % dev.bpb.bytes_per_sect + 3 < dev.bpb.bytes_per_sect
      → Reachable dev (cluster * 4)
      → fatfs_get_next_cluster_fat32 dev cluster ≡ entry cluster % 65536
  unfolding fatfs_get_next_cluster_fat32
  fatfs_get_next_cluster_fat32-entry entry cluster packs low inside small =
      let wrap : cluster *w 4 ≡ cluster * 4 = omega arith in
      let (b0, b1, b2, b3) = packs cluster in
      let lo = table-first (cluster * 4) {j = 4 * cluster} (omega arith) (omega arith) small in
      let hi = table-at (cluster * 4) 1 {j = 4 * cluster + 1} (omega arith) (omega arith) small in
      rw wrap (omega (arith, lo, hi, b0, b1))
