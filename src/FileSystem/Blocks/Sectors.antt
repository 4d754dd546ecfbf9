-- ===== src/FileSystem/Blocks/Sectors.antt =====
-- Runs of sectors.
use chud_os.Base.{ℕ, zero, suc, ◌+◌, ◌*◌, ◌≤◌, ◌<◌, ◌≡◌, refl, ap, ◌∙◌, arith, ◌⊎◌, inl, inr}
use chud_os.FileSystem.{Sector, Disk, Fs, Location}
use chud_os.FileSystem.Blocks.{write_sectors}

module _ {d : Disk} where
  -- A run of sectors that is written changes the disk alone.
  pub write_sectors-disk :
      (l : Location) (lba n : ℕ) (buffer : Sector) (fs : Fs d)
      → write_sectors l lba n buffer fs
        ≡ record fs { disk = (write_sectors l lba n buffer fs).disk }
  unfolding write_sectors
  write_sectors-disk l lba zero buffer fs = refl
  write_sectors-disk l lba (suc n) buffer fs =
      write_sectors-disk l (suc lba) n (λ p. buffer (512 + p))
        (record fs { disk = d.write l.drive lba buffer fs.disk })

  pub write_sectors-outside :
      (l : Location) (lba n : ℕ) (buffer : Sector) (fs : Fs d) (other : ℕ)
      → lba + n ≤ d.capacity
      → other < d.capacity
      → (other < lba) ⊎ (lba + n ≤ other)
      → d.read ((write_sectors l lba n buffer fs).disk) l.drive other ≡ d.read fs.disk l.drive other
  unfolding write_sectors
  write_sectors-outside l lba zero buffer fs other fits hother out = refl
  write_sectors-outside l lba (suc n) buffer fs other fits hother out =
      write_sectors-outside l (suc lba) n (λ p. buffer (512 + p))
        (record fs { disk = d.write l.drive lba buffer fs.disk }) other (omega arith) hother
        (elim out [ inl below ↦ inl (omega arith) | inr above ↦ inr (omega arith) ])
      ∙ d.read-write_ne fs.disk l.drive lba other buffer (omega arith) hother
          (elim out [ inl below ↦ omega arith | inr above ↦ omega arith ])

  pub write_sectors-inside :
      (l : Location) (lba n : ℕ) (buffer : Sector) (fs : Fs d) (i p : ℕ)
      → i < n
      → p < d.delivered
      → lba + n ≤ d.capacity
      → d.read ((write_sectors l lba n buffer fs).disk) l.drive (lba + i) p ≡ buffer (512 * i + p)
  unfolding write_sectors
  write_sectors-inside l lba zero buffer fs i p hi hp fits = absurd (omega arith)
  write_sectors-inside l lba (suc n) buffer fs zero p hi hp fits =
      let here : lba + 0 ≡ lba = omega arith in
      let outside =
        write_sectors-outside l (suc lba) n (λ p. buffer (512 + p))
          (record fs { disk = d.write l.drive lba buffer fs.disk }) lba (omega arith) (omega arith)
          (inl (omega arith)) in
      rw here (
        ap (λ (f : Sector). f p) outside
        ∙ d.read-write_self fs.disk l.drive lba buffer p (omega arith) hp
        ∙ ap buffer (omega arith))
  write_sectors-inside l lba (suc n) buffer fs (suc i) p hi hp fits =
      let here : lba + suc i ≡ suc lba + i = omega arith in
      rw here (
        write_sectors-inside l (suc lba) n (λ p. buffer (512 + p))
          (record fs { disk = d.write l.drive lba buffer fs.disk }) i p (omega arith) hp
          (omega arith)
        ∙ ap buffer (omega arith))
