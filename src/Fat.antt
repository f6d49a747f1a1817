-- ===== src/Fat.antt =====
-- The cluster arithmetic of kernel/modules/fatfs/clusters.c. The volume is read through the
-- device's `read`, which belongs to the driver of the device and enters as a field.
pub mod Entries
pub mod Sectors
mod Tests
use helix_os.Common.{
  ℕ, ◌+◌, ◌-◌, ◌*◌, ◌/◌, ◌%◌, ◌^◌, Bool, true, leb, ltb, ◌==◌, if◌then◌else◌, ◌+w◌, ◌-w◌, ◌*w◌,
}

pub data FatType : Type 0 where
  fat_type_null fat_type_12 fat_type_16 fat_type_32 : FatType

-- The fields of `fatfs_bpb_t` that clusters are computed from.
pub record Bpb : Type 0 where
  pub bytes_per_sect : ℕ
  pub sect_per_clus : ℕ
  pub reserved_sects : ℕ
  pub fats : ℕ
  pub dirents : ℕ
  pub sects_per_fat : ℕ

-- `fatfs_device_t`; `sects_per_fat32` and `root_clus` are the fields of `fat32`. `read length
-- offset` is the buffer that a read leaves, with whatever stands behind it.
pub record FatDevice : Type 0 where
  pub fat_type : FatType
  pub bpb : Bpb
  pub sects_per_fat32 : ℕ
  pub root_clus : ℕ
  pub read : ℕ → ℕ → ℕ → ℕ

pub fatfs_relclus_to_sect_fat32 : FatDevice → ℕ → ℕ
fatfs_relclus_to_sect_fat32 dev cluster =
    let first_sect = dev.bpb.reserved_sects +w dev.bpb.fats *w dev.sects_per_fat32 in
    (cluster -w dev.root_clus) *w dev.bpb.sect_per_clus +w first_sect

pub fatfs_relclus_to_sect_fat12_16 : FatDevice → ℕ → ℕ
fatfs_relclus_to_sect_fat12_16 dev cluster =
    let first_data_sector = dev.bpb.reserved_sects +w dev.bpb.fats *w dev.bpb.sects_per_fat in
    if ltb 2 cluster
    then (cluster -w 2) *w dev.bpb.sect_per_clus
      +w first_data_sector
      +w dev.bpb.dirents * 32 / dev.bpb.bytes_per_sect
    else first_data_sector

pub fatfs_relclus_to_sect : FatDevice → ℕ → ℕ
fatfs_relclus_to_sect dev cluster = elim dev.fat_type [
  | fat_type_null ↦ fatfs_relclus_to_sect_fat12_16 dev cluster
  | fat_type_12 ↦ fatfs_relclus_to_sect_fat12_16 dev cluster
  | fat_type_16 ↦ fatfs_relclus_to_sect_fat12_16 dev cluster
  | fat_type_32 ↦ fatfs_relclus_to_sect_fat32 dev cluster
]

pub cluster_size : FatDevice → ℕ
cluster_size dev = dev.bpb.bytes_per_sect * dev.bpb.sect_per_clus

-- The buffer `fat_table` for the byte `fat_offset` of the table, and the byte's place in it.
pub fat_table : FatDevice → ℕ → ℕ → ℕ
fat_table dev fat_offset =
    let fat_sector = dev.bpb.reserved_sects +w fat_offset / cluster_size dev in
    dev.read (cluster_size dev) (fat_sector *w dev.bpb.bytes_per_sect)

pub ent_offset : FatDevice → ℕ → ℕ
ent_offset dev fat_offset = fat_offset % cluster_size dev

-- A little-endian `uint16_t`, and the low half of a `uint32_t`.
abbrev pub half_at : (ℕ → ℕ) → ℕ → ℕ
half_at buf i = buf i + 256 * buf (i + 1)

abbrev pub word_at : (ℕ → ℕ) → ℕ → ℕ
word_at buf i = half_at buf i + 65536 * half_at buf (i + 2)

-- `x & 1`, `x & 0xfff` and `x & 0x0fffffff` are remainders, `x >> 4` a quotient.
pub fatfs_get_next_cluster_fat12 : FatDevice → ℕ → ℕ
fatfs_get_next_cluster_fat12 dev cluster =
    let fat_offset = cluster +w cluster / 2 in
    let table_value = half_at (fat_table dev fat_offset) (ent_offset dev fat_offset) in
    if cluster % 2 == 1 then table_value / 16 else table_value % 0x1000

pub fatfs_get_next_cluster_fat16 : FatDevice → ℕ → ℕ
fatfs_get_next_cluster_fat16 dev cluster =
    let fat_offset = cluster *w 2 in half_at (fat_table dev fat_offset) (ent_offset dev fat_offset)

-- `table_value` is a `uint16_t` here too.
pub fatfs_get_next_cluster_fat32 : FatDevice → ℕ → ℕ
fatfs_get_next_cluster_fat32 dev cluster =
    let fat_offset = cluster *w 4 in
    word_at (fat_table dev fat_offset) (ent_offset dev fat_offset) % 0x10000000 % 0x10000

pub fatfs_get_next_cluster : FatDevice → ℕ → ℕ
fatfs_get_next_cluster dev cluster = elim dev.fat_type [
  | fat_type_null ↦ 0xffffffff
  | fat_type_12 ↦ fatfs_get_next_cluster_fat12 dev cluster
  | fat_type_16 ↦ fatfs_get_next_cluster_fat16 dev cluster
  | fat_type_32 ↦ fatfs_get_next_cluster_fat32 dev cluster
]

pub is_last_cluster : FatDevice → ℕ → Bool
is_last_cluster dev cluster = elim dev.fat_type [
  | fat_type_null ↦ true
  | fat_type_12 ↦ leb 0xff7 cluster
  | fat_type_16 ↦ leb 0xfff7 cluster
  | fat_type_32 ↦ leb 0x0ffffff7 cluster
]
