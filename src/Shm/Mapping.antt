-- ===== src/Shm/Mapping.antt =====
-- utils.c: `utils_shm_init`, `utils_shm_attach`, `utils_shm_destroy` and `utils_shm_unlink_all`. The
-- operating system's calls are an interface, with their documented effect on the names as its laws;
-- `malloc` and `free` are a count of the blocks that are held.
use jmpxrds.Base.{
  ℕ, ◌+◌, ◌-◌, ◌^◌, Option, none, some, Bool, true, false, not, if◌then◌else◌, ◌≡◌, ◌≢◌,
}
use jmpxrds.Base.Int.{ℤ, is_neg}

-- The `mem` of a mapping: NULL, MAP_FAILED, or an address.
pub data Mem : Type 0 where
  null : Mem
  map_failed : Mem
  at : ℕ → Mem

-- The calls of the operating system, on its state `W`. A name is a number.
pub record Posix (W : Type 0) : Type 0 where
  pub is_linked : W → ℕ → Bool
  -- `shm_open` with O_CREAT and O_EXCL, and without
  pub create : W → ℕ → W × ℤ
  pub open_existing : W → ℕ → W × ℤ
  pub ftruncate : W → ℤ → ℕ → W × ℤ
  pub mmap : W → ℤ → ℕ → W × Mem
  pub munmap : W → ℕ → ℕ → W
  pub close : W → ℤ → W
  pub shm_unlink : W → ℕ → W
  -- `memset` to 0 of a mapping
  pub clear : W → ℕ → ℕ → W
  pub create_linked : (w : W) (n : ℕ) → is_linked w n ≡ true → is_neg (create w n).1 ≡ true
  pub create_links :
      (w : W) (n : ℕ) → is_neg (create w n).1 ≡ false → is_linked (create w n).0 n ≡ true
  pub create_fails :
      (w : W) (n k : ℕ) → is_neg (create w n).1 ≡ true → is_linked (create w n).0 k ≡ is_linked w k
  pub create_other : (w : W) (n k : ℕ) → k ≢ n → is_linked (create w n).0 k ≡ is_linked w k
  pub open_same : (w : W) (n k : ℕ) → is_linked (open_existing w n).0 k ≡ is_linked w k
  pub ftruncate_linked :
      (w : W) (fd : ℤ) (s k : ℕ) → is_linked (ftruncate w fd s).0 k ≡ is_linked w k
  pub mmap_linked : (w : W) (fd : ℤ) (s k : ℕ) → is_linked (mmap w fd s).0 k ≡ is_linked w k
  pub munmap_linked : (w : W) (a s k : ℕ) → is_linked (munmap w a s) k ≡ is_linked w k
  pub close_linked : (w : W) (fd : ℤ) (k : ℕ) → is_linked (close w fd) k ≡ is_linked w k
  pub clear_linked : (w : W) (a s k : ℕ) → is_linked (clear w a s) k ≡ is_linked w k
  pub shm_unlink_gone : (w : W) (n : ℕ) → is_linked (shm_unlink w n) n ≡ false
  pub shm_unlink_other : (w : W) (n k : ℕ) → k ≢ n → is_linked (shm_unlink w n) k ≡ is_linked w k

-- `struct shm_mapping`.
pub record ShmMapping : Type 0 where
  pub name : ℕ
  pub size : ℕ
  pub fd : ℤ
  pub mem : Mem

-- The operating system's state, and how many mappings are allocated.
pub record World (W : Type 0) : Type 0 where
  pub os : W
  pub blocks : ℕ

-- FMMOD_CTL_SHM_NAME, RDS_ENC_SHM_NAME and RTP_SRV_SHM_NAME.
abbrev pub fmmod_ctl_shm_name : ℕ
fmmod_ctl_shm_name = 0

abbrev pub rds_enc_shm_name : ℕ
rds_enc_shm_name = 1

abbrev pub rtp_srv_shm_name : ℕ
rtp_srv_shm_name = 2

module _ {W : Type 0} (posix : Posix W) where
  -- Where `mmap` has failed: the name is unlinked and the block freed.
  unfoldable pub give_up : ShmMapping → World W → Option ShmMapping × World W
  give_up m w = (none, record { os = posix.shm_unlink w.os m.name; blocks = w.blocks - 1 })

  -- The end of `utils_shm_init`, by what `mem` is.
  unfoldable pub init_result : Mem → ShmMapping → World W → Option ShmMapping × World W
  unfolding give_up
  init_result map_failed m w = give_up m w
  init_result null m w = (some m, w)
  init_result (at a) m w = (some m, record w { os = posix.clear w.os a m.size })

  -- `utils_shm_init` from its label.
  unfoldable pub init_cleanup : ShmMapping → World W → Option ShmMapping × World W
  unfolding init_result
  init_cleanup m w =
      if is_neg m.fd
      then (none, w)
      else init_result m.mem m (record w { os = posix.close w.os m.fd })

  -- The Boolean is whether `malloc` succeeds.
  unfoldable pub shm_init : Bool → ℕ → ℕ → World W → Option ShmMapping × World W
  unfolding init_cleanup
  shm_init malloc_ok name size w =
      let (opened, fd) = posix.create w.os name in
      let shmem : ShmMapping = record { name = name; size = size; fd = fd; mem = null } in
      let (sized, ret) = posix.ftruncate opened fd size in
      let (mapped, mem) = posix.mmap sized fd size in
      if not malloc_ok
      then (none, w)
      else if is_neg fd
      then init_cleanup shmem (record { os = opened; blocks = w.blocks + 1 })
      else if is_neg ret
      then init_cleanup shmem (record { os = sized; blocks = w.blocks + 1 })
      else init_cleanup (record shmem { mem = mem }) (record { os = mapped; blocks = w.blocks + 1 })

  -- The end of `utils_shm_attach`, by what `mem` is.
  unfoldable pub attach_result : Mem → ShmMapping → World W → Option ShmMapping × World W
  unfolding give_up
  attach_result map_failed m w = give_up m w
  attach_result null m w = (some m, w)
  attach_result (at a) m w = (some m, w)

  unfoldable pub shm_attach : Bool → ℕ → ℕ → World W → Option ShmMapping × World W
  unfolding attach_result
  shm_attach malloc_ok name size w =
      let (opened, fd) = posix.open_existing w.os name in
      let (mapped, mem) = posix.mmap opened fd size in
      if not malloc_ok
      then (none, w)
      else if is_neg fd
      then (none, record { os = opened; blocks = w.blocks })
      else attach_result mem (record { name = name; size = size; fd = fd; mem = mem })
          (record { os = posix.close mapped fd; blocks = w.blocks + 1 })

  -- Unmapped, unlinked if asked for, and freed.
  unfoldable pub drop_at : ShmMapping → ℕ → Bool → World W → Option ShmMapping × World W
  drop_at m a unlink w =
      let unmapped = posix.munmap w.os a m.size in
      (
        none,
        record {
          os = if unlink then posix.shm_unlink unmapped m.name else unmapped;
          blocks = w.blocks - 1;
        },
      )

  -- What the caller's pointer points to after the call: `none` is freed, or NULL from the start.
  -- MAP_FAILED is the last address.
  unfoldable pub shm_destroy : Option ShmMapping → Bool → World W → Option ShmMapping × World W
  unfolding drop_at
  shm_destroy none unlink w = (none, w)
  shm_destroy (some m) unlink w = elim (m.mem) [
    | null ↦ (some m, w)
    | map_failed ↦ drop_at m (2 ^ 64 - 1) unlink w
    | at a ↦ drop_at m a unlink w
  ]

  unfoldable pub shm_unlink_all : World W → World W
  shm_unlink_all w = record w {
    os =
        posix.shm_unlink
          (posix.shm_unlink (posix.shm_unlink w.os fmmod_ctl_shm_name) rds_enc_shm_name)
          rtp_srv_shm_name;
  }
