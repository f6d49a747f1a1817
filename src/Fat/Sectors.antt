-- ===== src/Fat/Sectors.antt =====
-- Where the clusters of a volume lie.
use native.Mathlib.Nat.{mul-le-mul_right}
use helix_os.Common.{
  ℕ, ◌+◌, ◌-◌, ◌*◌, ◌/◌, ◌^◌, ◌≤◌, ◌<◌, ◌≡◌, ap, ◌∙◌, arith, ltb, ◌+w◌, ◌-w◌, ◌*w◌, u32, true,
}
use helix_os.Fat.{FatDevice, fatfs_relclus_to_sect_fat12_16}

-- The sectors in front of the data: reserved sectors, tables and the root directory.
abbrev pub front : FatDevice → ℕ
front dev =
    dev.bpb.reserved_sects
    + dev.bpb.fats * dev.bpb.sects_per_fat
    + dev.bpb.dirents * 32 / dev.bpb.bytes_per_sect

no_wrap :
    (c s r t d : ℕ)
    → 2 < c
    → c < 2 ^ 32
    → (c - 2) * s + (r + t + d) < 2 ^ 32
    → (c -w 2) *w s +w (r +w u32 t) +w d ≡ (c - 2) * s + (r + t + d)
no_wrap c s r t d lo hi small =
    let sub : c -w 2 ≡ c - 2 = omega arith in
    ap (λ x. x *w s +w (r +w u32 t) +w d) sub ∙ omega arith

module _ (dev : FatDevice) where
  sector :
      (cluster : ℕ)
      → 2 < cluster
      → cluster < 2 ^ 32
      → (cluster - 2) * dev.bpb.sect_per_clus + front dev < 2 ^ 32
      → fatfs_relclus_to_sect_fat12_16 dev cluster
        ≡ (cluster - 2) * dev.bpb.sect_per_clus + front dev
  unfolding fatfs_relclus_to_sect_fat12_16
  sector cluster lo hi small =
      let test : ltb 2 cluster ≡ true = ground arith in
      rw test (no_wrap cluster dev.bpb.sect_per_clus dev.bpb.reserved_sects _ _ lo hi small)

  -- For FAT12 and FAT16, the first sector of a cluster above 2 is that of the format: as many clusters
  -- behind the reserved sectors, the tables and the root directory as its number is above 2. It lies
  -- behind these, and the cluster's sectors end before those of any later cluster begin, if the later
  -- cluster's sector has a number below 2 ^ 32.
  pub fatfs_relclus_to_sect_fat12_16-apart :
      (c c' : ℕ)
      → 2 < c
      → c < c'
      → c' < 2 ^ 32
      → (c' - 2) * dev.bpb.sect_per_clus + front dev < 2 ^ 32
      → (fatfs_relclus_to_sect_fat12_16 dev c ≡ front dev + (c - 2) * dev.bpb.sect_per_clus)
        × (front dev ≤ fatfs_relclus_to_sect_fat12_16 dev c)
        × (fatfs_relclus_to_sect_fat12_16 dev c + dev.bpb.sect_per_clus
            ≤ fatfs_relclus_to_sect_fat12_16 dev c')
  fatfs_relclus_to_sect_fat12_16-apart c c' lo lt hi small =
      let step =
        mul-le-mul_right {m = c - 2 + 1} {n = c' - 2} dev.bpb.sect_per_clus (omega arith) in
      let first = sector c lo (omega arith) (omega (arith, step)) in
      let later = sector c' (omega arith) hi small in
      (omega (arith, first), omega (arith, first), omega (arith, first, later, step))
