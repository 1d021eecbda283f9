-- ===== src/Tests/Sharing.antt =====
-- The shared memory on a table of names.
use jmpxrds.Base.{ℕ, ◌==◌, none, some, Bool, true, false, if◌then◌else◌, ◌≡◌, ◌≢◌, refl, arith}
use jmpxrds.Base.Int.{ℤ, pos, minus, is_neg}
use jmpxrds.Shm.Mapping.{Posix, ShmMapping, World, at, shm_init, shm_destroy}
use jmpxrds.Shm.Life.{Meanwhile, Outcome, Undone, shm_init-Outcome, shm_init-Life}

abbrev pub Names : Type 0
Names = ℕ → Bool

abbrev pub linking : Bool → ℕ → Names → Names
linking b n w k = if k == n then b else w k

-- A new name is linked, one that is there is refused.
abbrev pub creating : Bool → Names → ℕ → Names × ℤ
creating true w n = (w, minus 1)
creating false w n = (linking true n w, pos 3)

pub eq_self : (n : ℕ) → (n == n) ≡ true
eq_self n = ground arith

pub ne-eq : (k n : ℕ) → k ≢ n → (k == n) ≡ false
ne-eq k n h = ground (arith, h)

pub creating-links :
    (b : Bool) (w : Names) (n : ℕ) → is_neg (creating b w n).1 ≡ false → (creating b w n).0 n ≡ true
creating-links true w n h = absurd (ground (arith, h))
creating-links false w n h = rw (eq_self n) refl

pub creating-fails :
    (b : Bool) (w : Names) (n k : ℕ) → is_neg (creating b w n).1 ≡ true → (creating b w n).0 k ≡ w k
creating-fails true w n k h = refl
creating-fails false w n k h = absurd (ground (arith, h))

pub creating-other : (b : Bool) (w : Names) (n k : ℕ) → k ≢ n → (creating b w n).0 k ≡ w k
creating-other true w n k h = refl
creating-other false w n k h = rw (ne-eq k n h) refl

abbrev pub table : Posix Names
table = record {
  is_linked = λ w n. w n;
  create = λ w n. creating (w n) w n;
  open_existing = λ w n. (w, if w n then pos 3 else minus 1);
  ftruncate = λ w fd s. (w, pos 0);
  mmap = λ w fd s. (w, at 4096);
  munmap = λ w a s. w;
  close = λ w fd. w;
  shm_unlink = λ w n. linking false n w;
  clear = λ w a s. w;
  create_linked = λ w n h. rw h refl;
  create_links = λ w n h. creating-links (w n) w n h;
  create_fails = λ w n k h. creating-fails (w n) w n k h;
  create_other = λ w n k h. creating-other (w n) w n k h;
  open_same = λ w n k. refl;
  ftruncate_linked = λ w fd s k. refl;
  mmap_linked = λ w fd s k. refl;
  munmap_linked = λ w a s k. refl;
  close_linked = λ w fd k. refl;
  clear_linked = λ w a s k. refl;
  shm_unlink_gone = λ w n. rw (eq_self n) refl;
  shm_unlink_other = λ w n k h. rw (ne-eq k n h) refl;
}

abbrev world_1 : World Names
world_1 = record { os = λ k. k == 0; blocks = 1 }

abbrev world_2 : World Names
world_2 = record { os = linking true 1 world_1.os; blocks = 2 }

abbrev mapping_1 : ShmMapping
mapping_1 = record { name = 1; size = 128; fd = pos 3; mem = at 4096 }

shm_init-Outcome_example :
    Outcome table true false 1 128 world_1 (shm_init table true 1 128 world_1)
shm_init-Outcome_example = shm_init-Outcome table true 1 128 world_1

shm_init-Life_example :
    ((v : World Names)
      → Meanwhile table 1 world_2 v
      → (ok : Bool) (t : ℕ) → (shm_init table ok 1 t v).0 ≡ none)
    × Undone table 1 world_1 (shm_destroy table (some mapping_1) true world_2)
unfolding shm_init
shm_init-Life_example = shm_init-Life table true 1 128 world_1 world_2 mapping_1 4096 refl refl
