-- ===== src/Shm/Life.antt =====
-- What becomes of the names and of the allocated blocks of the shared memory.
use jmpxrds.Base.{
  ℕ, ◌==◌, ==_iff, ◌^◌, ◌-◌, ◌+◌, Option, none, some, Bool, Bool-cases, true, false, not, ◌&&◌,
  if◌then◌else◌, ◌≡◌, ◌≢◌, ◌∙◌, inl, inr, refl, sym, subst, ap, arith,
}
use jmpxrds.Base.Int.{ℤ, is_neg}
use jmpxrds.Shm.Mapping.{
  Mem, null, map_failed, at, Posix, ShmMapping, World, give_up, init_result, attach_result,
  init_cleanup, shm_init, shm_attach, drop_at, shm_destroy,
}

abbrev pub is_map_failed : Mem → Bool
is_map_failed map_failed = true
is_map_failed null = false
is_map_failed (at a) = false

module _ {W : Type 0} (posix : Posix W) where
  -- The names other than `n` are linked in `w'` as in `w`.
  abbrev pub SameOthers : ℕ → W → W → Type 0
  SameOthers n w w' = (k : ℕ) → k ≢ n → posix.is_linked w' k ≡ posix.is_linked w k

  -- What an initialisation gives for the name `n` and the size `s`: `refused` is whether the name
  -- could not be created, `w` the state before.
  abbrev pub Given :
      (malloc_ok refused : Bool) → ℕ → ℕ → World W → Option ShmMapping × World W → Type 0
  Given malloc_ok refused n s w (some m, w') =
      (m.name ≡ n)
      × (m.size ≡ s)
      × (is_map_failed m.mem ≡ false)
      × (posix.is_linked w'.os n ≡ true)
      × (w'.blocks ≡ w.blocks + 1)
  Given malloc_ok refused n s w (none, w') =
      (w'.blocks ≡ (if malloc_ok && refused then w.blocks + 1 else w.blocks))
      × (posix.is_linked w'.os n
          ≡ (if malloc_ok && not refused then false else posix.is_linked w.os n))

  abbrev pub Outcome :
      (malloc_ok refused : Bool) → ℕ → ℕ → World W → Option ShmMapping × World W → Type 0
  Outcome malloc_ok refused n s w r = Given malloc_ok refused n s w r × SameOthers n w.os (r.1).os

  init_result-Outcome :
      (m : Mem) (r : ShmMapping) (w w1 : World W)
      → r.mem ≡ m
      → posix.is_linked w1.os r.name ≡ true
      → SameOthers r.name w.os w1.os
      → w1.blocks ≡ w.blocks + 1
      → Outcome true false r.name r.size w (init_result posix m r w1)
  unfolding init_result give_up
  init_result-Outcome null r w w1 e l o b = ((refl, refl, ap is_map_failed e, l, b), o)
  init_result-Outcome map_failed r w w1 e l o b = (
    (omega (arith, b), posix.shm_unlink_gone w1.os r.name),
    λ k ne. posix.shm_unlink_other w1.os r.name k ne ∙ o k ne,
  )
  init_result-Outcome (at a) r w w1 e l o b = (
    (refl, refl, ap is_map_failed e, posix.clear_linked w1.os a r.size r.name ∙ l, b),
    λ k ne. posix.clear_linked w1.os a r.size k ∙ o k ne,
  )

  -- Of an initialisation of the name `n`, whether `malloc` succeeds or not: it gives a mapping, not
  -- MAP_FAILED, exactly with a new block and with the name linked; or it gives NULL, and holds no new
  -- block, but one where the name could not be created, and has the name unlinked again if it was
  -- created. No other name is touched.
  pub shm_init-Outcome :
      (malloc_ok : Bool) (n s : ℕ) (w : World W)
      → Outcome malloc_ok (is_neg (posix.create w.os n).1) n s w (shm_init posix malloc_ok n s w)
  unfolding shm_init init_cleanup
  shm_init-Outcome false n s w = ((refl, refl), λ k ne. refl)
  shm_init-Outcome true n s w = elim (Bool-cases (is_neg (posix.create w.os n).1)) [
    | inl refused ↦
        rw refused
          ((refl, posix.create_fails w.os n n refused), λ k ne. posix.create_other w.os n k ne)
    | inr created ↦ rw created (
        of_size (is_neg (posix.ftruncate (posix.create w.os n).0 (posix.create w.os n).1 s).1)
          created)
  ]
    where
      opened : W
      opened = (posix.create w.os n).0

      fd : ℤ
      fd = (posix.create w.os n).1

      sized : W
      sized = (posix.ftruncate opened fd s).0

      shmem : Mem → ShmMapping
      shmem m = record { name = n; size = s; fd = fd; mem = m }

      by_mem :
          (m : Mem) (v : W)
          → ((k : ℕ) → posix.is_linked v k ≡ posix.is_linked opened k)
          → is_neg fd ≡ false
          → Outcome true false n s w (
              init_result posix m
                (shmem m)
                (record { os = posix.close v fd; blocks = w.blocks + 1 }))
      by_mem m v same created =
          init_result-Outcome m (shmem m) w _ refl
            (posix.close_linked v fd n ∙ same n ∙ posix.create_links w.os n created)
            (λ k ne. posix.close_linked v fd k ∙ same k ∙ posix.create_other w.os n k ne) refl

      of_size :
          (b : Bool)
          → is_neg fd ≡ false
          → Outcome true false n s w (
              if b
              then init_result posix null
                  (shmem null)
                  (record { os = posix.close sized fd; blocks = w.blocks + 1 })
              else init_result posix
                  (posix.mmap sized fd s).1
                  (shmem (posix.mmap sized fd s).1)
                  (record { os = posix.close (posix.mmap sized fd s).0 fd; blocks = w.blocks + 1 }))
      of_size true created = by_mem null sized (posix.ftruncate_linked opened fd s) created
      of_size false created =
          by_mem (posix.mmap sized fd s).1 (posix.mmap sized fd s).0
            (λ k. posix.mmap_linked sized fd s k ∙ posix.ftruncate_linked opened fd s k) created

  shm_init-taken :
      (malloc_ok : Bool) (n s : ℕ) (w : World W)
      → posix.is_linked w.os n ≡ true
      → (shm_init posix malloc_ok n s w).0 ≡ none
  unfolding shm_init init_cleanup
  shm_init-taken false n s w l = refl
  shm_init-taken true n s w l = rw (posix.create_linked w.os n l) refl

  -- After the destruction of the mapping of the name `n` with `unlink`: nothing is left of it.
  pub record Undone (n : ℕ) (w : World W) (r : Option ShmMapping × World W) : Type 0 where
    pub gone : r.0 ≡ none
    pub unlinked : posix.is_linked (r.1).os n ≡ false
    pub freed : (r.1).blocks ≡ w.blocks
    pub others : SameOthers n w.os (r.1).os

  shm_destroy-Undone :
      (w w' : World W) (m : ShmMapping) (a : ℕ)
      → m.mem ≡ at a
      → w'.blocks ≡ w.blocks + 1
      → SameOthers m.name w.os w'.os
      → Undone m.name w (shm_destroy posix (some m) true w')
  unfolding shm_destroy drop_at
  shm_destroy-Undone w w' m a e b o = rw e (record {
    gone = refl;
    unlinked = posix.shm_unlink_gone _ m.name;
    freed = omega (arith, b);
    others = λ k ne.
        posix.shm_unlink_other _ m.name k ne ∙ posix.munmap_linked w'.os a m.size k ∙ o k ne;
  })

  -- What a process may do in the meantime: initialise any name, and destroy a mapping, with `unlink`
  -- only if it is of another name than `n`. An attaching whose mmap fails, which unlinks the name,
  -- and `utils_shm_unlink_all` are not among these.
  pub data Meanwhile (n : ℕ) (w : World W) : World W → Type 0 where
    here : Meanwhile n w w
    initialised :
        {v : World W}
        → Meanwhile n w v
        → (ok : Bool) (k t : ℕ) → Meanwhile n w (shm_init posix ok k t v).1
    destroyed :
        {v : World W}
        → Meanwhile n w v
        → (m : Option ShmMapping) → Meanwhile n w (shm_destroy posix m false v).1
    unlinked :
        {v : World W}
        → Meanwhile n w v
        → (m : ShmMapping) → n ≢ m.name
        → Meanwhile n w (shm_destroy posix (some m) true v).1

  linked-shm_init_self :
      (ok : Bool) (n t : ℕ) (w : World W)
      → posix.is_linked w.os n ≡ true
      → posix.is_linked (shm_init posix ok n t w).1.os n ≡ true
  unfolding shm_init init_cleanup
  linked-shm_init_self false n t w l = l
  linked-shm_init_self true n t w l =
      rw (posix.create_linked w.os n l)
        (posix.create_fails w.os n n (posix.create_linked w.os n l) ∙ l)

  linked-shm_init :
      (ok : Bool) (n k t : ℕ) (w : World W)
      → posix.is_linked w.os n ≡ true
      → posix.is_linked (shm_init posix ok k t w).1.os n ≡ true
  linked-shm_init ok n k t w l = elim (Bool-cases (n == k)) [
    | inl e ↦
        subst (λ j. posix.is_linked (shm_init posix ok j t w).1.os n ≡ true) ((==_iff n k).0 e)
          (linked-shm_init_self ok n t w l)
    | inr e ↦ (shm_init-Outcome ok k t w).1 n (λ p. absurd (ground (arith, p, e))) ∙ l
  ]

  linked-shm_destroy :
      (m : Option ShmMapping) (n : ℕ) (w : World W)
      → posix.is_linked w.os n ≡ true
      → posix.is_linked (shm_destroy posix m false w).1.os n ≡ true
  unfolding shm_destroy drop_at
  linked-shm_destroy none n w l = l
  linked-shm_destroy (some m) n w l = by_mem m.mem
    where
      by_mem :
          (x : Mem)
          → posix.is_linked (shm_destroy posix (some (record m { mem = x })) false w).1.os n ≡ true
      by_mem null = l
      by_mem map_failed = posix.munmap_linked w.os (2 ^ 64 - 1) m.size n ∙ l
      by_mem (at a) = posix.munmap_linked w.os a m.size n ∙ l

  linked-unlinked :
      (m : ShmMapping) (n : ℕ) (w : World W)
      → n ≢ m.name
      → posix.is_linked w.os n ≡ true
      → posix.is_linked (shm_destroy posix (some m) true w).1.os n ≡ true
  unfolding shm_destroy drop_at
  linked-unlinked m n w ne l = by_mem m.mem
    where
      by_mem :
          (x : Mem)
          → posix.is_linked (shm_destroy posix (some (record m { mem = x })) true w).1.os n ≡ true
      by_mem null = l
      by_mem map_failed =
          posix.shm_unlink_other _ m.name n ne ∙ posix.munmap_linked w.os (2 ^ 64 - 1) m.size n ∙ l
      by_mem (at a) = posix.shm_unlink_other _ m.name n ne ∙ posix.munmap_linked w.os a m.size n ∙ l

  Meanwhile-linked :
      {n : ℕ} {w v : World W}
      → Meanwhile n w v
      → posix.is_linked w.os n ≡ true
      → posix.is_linked v.os n ≡ true
  Meanwhile-linked here l = l
  Meanwhile-linked (initialised r ok k t) l = linked-shm_init ok _ k t _ (Meanwhile-linked r l)
  Meanwhile-linked (destroyed r m) l = linked-shm_destroy m _ _ (Meanwhile-linked r l)
  Meanwhile-linked (unlinked r m ne) l = linked-unlinked m _ _ ne (Meanwhile-linked r l)

  -- Of a mapping that an initialisation gave: after any sequence of initialisations of any names,
  -- of destructions without `unlink`, and of destructions of other names with it, no initialisation of
  -- its name gets a mapping, whatever its size. And a destruction with `unlink` right after its
  -- initialisation leaves the name free, no block held that was not before, and no other name changed.
  pub shm_init-Life :
      (malloc_ok : Bool) (n s : ℕ) (w w' : World W) (m : ShmMapping) (a : ℕ)
      → shm_init posix malloc_ok n s w ≡ (some m, w')
      → m.mem ≡ at a
      → ((v : World W)
          → Meanwhile n w' v
          → (ok : Bool) (t : ℕ) → (shm_init posix ok n t v).0 ≡ none)
        × Undone n w (shm_destroy posix (some m) true w')
  shm_init-Life malloc_ok n s w w' m a e mapped =
      let made : Outcome malloc_ok (is_neg (posix.create w.os n).1) n s w (some m, w') =
        subst (Outcome malloc_ok (is_neg (posix.create w.os n).1) n s w) e
          (shm_init-Outcome malloc_ok n s w) in
      let ((named, sized, ok, linked, block), others) = made in
      (
        λ v r ok t. shm_init-taken ok n t v (Meanwhile-linked r linked),
        subst (λ k. Undone k w (shm_destroy posix (some m) true w')) named
            (shm_destroy-Undone w w' m a mapped block (λ k ne. others k (λ x. ne (x ∙ sym named)))),
      )

  -- A mapping that is given holds one block more.
  HoldsOne : World W → Option ShmMapping × World W → Type 0
  HoldsOne w (none, w') = Unit
  HoldsOne w (some m, w') = w'.blocks ≡ w.blocks + 1

  attach_result-HoldsOne :
      (mem : Mem) (m : ShmMapping) (w w1 : World W)
      → w1.blocks ≡ w.blocks + 1
      → HoldsOne w (attach_result posix mem m w1)
  unfolding attach_result give_up HoldsOne
  attach_result-HoldsOne null m w w1 e = e
  attach_result-HoldsOne map_failed m w w1 e = tt
  attach_result-HoldsOne (at a) m w w1 e = e

  shm_attach-HoldsOne :
      (malloc_ok : Bool) (n s : ℕ) (w : World W) → HoldsOne w (shm_attach posix malloc_ok n s w)
  unfolding shm_attach HoldsOne
  shm_attach-HoldsOne false n s w = tt
  shm_attach-HoldsOne true n s w = elim (Bool-cases (is_neg (posix.open_existing w.os n).1)) [
    | inl e ↦ rw (e, shm_attach) tt
    | inr e ↦ rw (e, shm_attach) (attach_result-HoldsOne _ _ w _ refl)
  ]

  -- While a name is attached, one block more is held, and after the end none.
  pub shm_attach-destroy :
      (malloc_ok unlink : Bool) (n s : ℕ) (w w' : World W) (m : ShmMapping) (a : ℕ)
      → shm_attach posix malloc_ok n s w ≡ (some m, w')
      → m.mem ≡ at a
      → (shm_destroy posix (some m) unlink w').1.blocks ≡ w.blocks
  unfolding shm_destroy drop_at HoldsOne
  shm_attach-destroy malloc_ok unlink n s w w' m a e mapped =
      let one : HoldsOne w (some m, w') =
        subst (HoldsOne w) e (shm_attach-HoldsOne malloc_ok n s w) in
      rw mapped (omega (arith, one))
