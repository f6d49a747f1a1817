-- ===== src/Fat/Tests.antt =====
-- Runs of the cluster arithmetic of kernel/modules/fatfs/clusters.c, and its theorems at small volumes.
use helix_os.Common.{◌≤◌, ℕ, ◌+◌, ◌-◌, ◌*◌, ◌/◌, ◌%◌, ◌≡◌, refl, arith, ◌==◌, if◌then◌else◌}
use helix_os.Fat.{
  FatType, fat_type_12, fat_type_16, fat_type_32, FatDevice, cluster_size, fat_table, ent_offset,
  fatfs_relclus_to_sect, fatfs_relclus_to_sect_fat12_16, fatfs_get_next_cluster_fat12,
  fatfs_get_next_cluster_fat16,
}
use helix_os.Fat.Sectors.{front, fatfs_relclus_to_sect_fat12_16-apart}
use helix_os.Fat.Entries.{Packs12, Packs16, Packs32, fat_byte, fatfs_get_next_cluster_fat12-entry}

-- A volume of sectors of 512 bytes, the first of them reserved, that is read as it stands.
abbrev volume : FatType → ℕ → (ℕ → ℕ) → FatDevice
volume fat_type sect_per_clus disk = record {
  fat_type = fat_type;
  bpb = record {
    bytes_per_sect = 512;
    sect_per_clus = sect_per_clus;
    reserved_sects = 1;
    fats = 2;
    dirents = 224;
    sects_per_fat = 9;
  };
  sects_per_fat32 = 9;
  root_clus = 2;
  read = λ length offset i. disk (offset + i);
}

-- Tables in which every cluster leads to the next.
abbrev next12 : ℕ → ℕ
next12 k = (k + 1) % 4096

packed12 : ℕ → ℕ
packed12 j =
    if j % 3 == 0
    then next12 (2 * (j / 3)) % 256
    else (if j % 3 == 1
        then next12 (2 * (j / 3)) / 256 + 16 * (next12 (2 * (j / 3) + 1) % 16)
        else next12 (2 * (j / 3) + 1) / 16)

abbrev floppy : FatDevice
floppy = volume fat_type_12 1 (λ i. packed12 (i - 512))

floppy-Packs12 : Packs12 (fat_byte floppy (λ i. packed12 (i - 512))) next12
unfolding packed12
floppy-Packs12 k = (ground arith, ground arith, ground arith, ground arith)

packed16 : ℕ → ℕ
packed16 j = if j % 2 == 0 then (j / 2 + 1) % 256 else (j / 2 + 1) / 256

abbrev disk16 : FatDevice
disk16 = volume fat_type_16 1 (λ i. packed16 (i - 512))

disk16-Packs16 : Packs16 (fat_byte disk16 (λ i. packed16 (i - 512))) (λ k. k + 1)
unfolding packed16
disk16-Packs16 k = (ground arith, ground arith)

packed32 : ℕ → ℕ
packed32 j =
    let next = j / 4 + 70000 in
    if j % 4 == 0
    then next % 256
    else (if j % 4 == 1
        then next / 256 % 256
        else (if j % 4 == 2 then next / 65536 % 256 else next / 16777216))

abbrev disk32 : FatDevice
disk32 = volume fat_type_32 1 (λ i. packed32 (i - 512))

disk32-Packs32 : Packs32 (fat_byte disk32 (λ i. packed32 (i - 512))) (λ k. k + 70000)
unfolding packed32
disk32-Packs32 k = (ground arith, ground arith, ground arith, ground arith)

-- The first data cluster of a floppy disk is taken for the root directory.
root_sector : fatfs_relclus_to_sect floppy 2 ≡ 19
unfolding fatfs_relclus_to_sect fatfs_relclus_to_sect_fat12_16
root_sector = refl

data_sector : fatfs_relclus_to_sect floppy 3 ≡ 34
unfolding fatfs_relclus_to_sect fatfs_relclus_to_sect_fat12_16
data_sector = refl

-- With two sectors to a cluster the second half of a table of 2048 bytes is read from the wrong place.
two_sectors :
    fatfs_get_next_cluster_fat16 (volume fat_type_16 2 (λ i. packed16 (i - 512))) 600 ≡ 345
unfolding fatfs_get_next_cluster_fat16 fat_table ent_offset cluster_size packed16
two_sectors = refl

fatfs_get_next_cluster_fat12-entry_example : fatfs_get_next_cluster_fat12 floppy 77 ≡ 78
fatfs_get_next_cluster_fat12-entry_example =
    fatfs_get_next_cluster_fat12-entry floppy (λ i. packed12 (i - 512)) (λ length offset i h. refl)
      refl (omega arith) next12 77 floppy-Packs12 (omega arith) (omega arith) (omega arith)

fatfs_relclus_to_sect_fat12_16-apart_example :
    (fatfs_relclus_to_sect_fat12_16 floppy 3 ≡ front floppy + 1)
    × (front floppy ≤ fatfs_relclus_to_sect_fat12_16 floppy 3)
    × (fatfs_relclus_to_sect_fat12_16 floppy 3 + 1 ≤ fatfs_relclus_to_sect_fat12_16 floppy 9)
fatfs_relclus_to_sect_fat12_16-apart_example =
    fatfs_relclus_to_sect_fat12_16-apart floppy 3 9 (omega arith) (omega arith) (omega arith)
      (omega arith)
