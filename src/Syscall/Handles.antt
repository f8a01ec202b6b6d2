-- ===== src/Syscall/Handles.antt =====
-- The open files under the system calls: which handle a file gets, and the table's invariant.
use binbows.Base.{
  update_self, ℕ, zero, suc, ◌+◌, ◌%◌, ◌^◌, ◌≤◌, ◌<◌, ◌≡◌, ◌≢◌, refl, ap, ◌∙◌, ◌⊎◌, inl, inr, true,
  false, none, some, [], ◌∷◌, ◌||◌, if◌then◌else◌, All, arith, leb, ◌==◌, update, Bool-cases,
  Option-cases, ==_iff, ==→ne, eq→==, ne→==,
}
use binbows.Shell.Text.{Buffer}
use binbows.Syscall.Files.{
  failed, closed, find_handle, copy_name, opened, sys_open_file, sys_close_file,
}
use binbows.Syscall.Handler.{Ranges, read_ranges, free_ranges, overwritten_all, syscall_handler_c}
use binbows.Syscall.Kernel.{Kernel, FileHandle, Handles, Apart}

-- Each open file has a drive, a buffer and a name that ends within its 13 bytes.
pub record IsOpen (fh : FileHandle) : Type 0 where
  pub drive_lt : fh.drive < 256
  pub some_buffer : fh.buffer ≢ 0
  pub name_length : ℕ
  pub name_fits : name_length ≤ 12
  pub name_ended : fh.filename name_length ≡ 0

abbrev pub IsValid : Handles → Type 0
IsValid files = (i : ℕ) → i < 16 → (files i).in_use ≡ true → IsOpen (files i)

-- The first free handle at `i` or behind it
find_handle-first :
    (n i : ℕ) (files : Handles)
    → ((find_handle n i files ≡ none) × ((j : ℕ) → i ≤ j → j < i + n → (files j).in_use ≡ true))
      ⊎ ((h : ℕ) × (find_handle n i files ≡ some h)
          × (i ≤ h)
          × (h < i + n)
          × ((files h).in_use ≡ false)
          × ((j : ℕ) → i ≤ j → j < h → (files j).in_use ≡ true))
unfolding find_handle
find_handle-first zero i files = inl (refl, (λ j a b. absurd (omega (arith, a, b))))
find_handle-first (suc n) i files = elim (Bool-cases (files i).in_use) [
  | inr free ↦
      rw free
        (inr (i, refl, omega arith, omega arith, free, (λ j a b. absurd (omega (arith, a, b)))))
  | inl used ↦
      let used_at : (j : ℕ)
          → i ≤ j
          → ((suc i ≤ j) → (files j).in_use ≡ true)
          → (files j).in_use ≡ true =
        λ j a rest. elim (Bool-cases (j == i)) [
          | inl q ↦ ap (λ x. (files x).in_use) ((==_iff j i).0 q) ∙ used
          | inr q ↦ rest (omega (arith, a, ==→ne j i q))
        ] in
      rw used (elim (find_handle-first n (suc i) files) [
        | inl (e, all) ↦ inl (e, (λ j a b. used_at j a (λ c. all j c (omega (arith, b)))))
        | inr (h, e, lo, hi, free, all) ↦
            inr (h, e, omega arith, omega arith, free, (λ j a b. used_at j a (λ c. all j c b)))
      ])
]

module _ (k : Kernel) where
  open k use {World, kfree, fat12_read_file}

  copy_name_le :
      (n i file_name : ℕ) (w : World) (name : Buffer) → (copy_name k n i file_name w name).0 ≤ i + n
  unfolding copy_name
  copy_name_le zero i file_name w name = omega arith
  copy_name_le (suc n) i file_name w name = elim (Bool-cases (k.load8 (file_name + i) w == 0)) [
    | inl e ↦ rw e (omega arith)
    | inr e ↦
        let rest = copy_name_le n (suc i) file_name w (update name i (k.load8 (file_name + i) w)) in
        rw e (omega (arith, rest))
  ]

  opened-IsOpen :
      (fh : FileHandle) (drive file_name buffer size : ℕ) (w : World)
      → drive < 256
      → buffer ≢ 0
      → IsOpen (opened k fh drive file_name buffer size w)
  opened-IsOpen fh drive file_name buffer size w lt ne =
      let n = (copy_name k 12 0 file_name w fh.filename).0 in
      record {
        drive_lt = lt;
        some_buffer = ne;
        name_length = n;
        name_fits = omega (arith, copy_name_le 12 0 file_name w fh.filename);
        name_ended = rw (eq→== n n refl) refl;
      }

  -- What `sys_open_file` does: no handle is free, the file is not read, or it gets the first free one.
  pub data OpenResult (drive file_name : ℕ) (files : Handles) (w : World) (r : ℕ × Handles × World)
      : Type 0 where
    no_handle :
        ((j : ℕ) → j < 16 → (files j).in_use ≡ true)
        → r ≡ (failed, files, w)
        → OpenResult drive file_name files w r
    not_read :
        (fat12_read_file drive file_name w).0 ≡ 0
        → r ≡ (failed, files, (fat12_read_file drive file_name w).2)
        → OpenResult drive file_name files w r
    first_free :
        (h : ℕ)
        → h < 16
        → (files h).in_use ≡ false
        → ((j : ℕ) → j < h → (files j).in_use ≡ true)
        → r.0 ≡ h
        → (r.1 h).in_use ≡ true
        → (r.1 h).buffer ≡ (fat12_read_file drive file_name w).0
        → (r.1 h).size ≡ (fat12_read_file drive file_name w).1
        → (r.1 h).position ≡ 0
        → ((j : ℕ) → j ≢ h → r.1 j ≡ files j)
        → OpenResult drive file_name files w r

  sys_open_file-IsValid :
      (drive file_name : ℕ) (files : Handles) (w : World)
      → drive < 256
      → IsValid files
      → IsValid (sys_open_file k drive file_name files w).1
  unfolding sys_open_file
  sys_open_file-IsValid drive file_name files w lt v =
      elim (Option-cases (find_handle 16 0 files)) [
        | inl e ↦ rw (e, sys_open_file) v
        | inr (h, e) ↦
            let (buffer, size, w') = fat12_read_file drive file_name w in
            elim (Bool-cases (buffer == 0)) [
              | inl z ↦ rw (e, sys_open_file, z) v
              | inr z ↦
                  let fh = opened k (files h) drive file_name buffer size w' in
                  let ok : IsOpen fh =
                    opened-IsOpen (files h) drive file_name buffer size w' lt (==→ne buffer 0 z) in
                  rw (e, sys_open_file, z)
                    (λ i hi used. elim (Bool-cases (i == h)) [
                      | inl q ↦ rw q ok
                      | inr q ↦ rw q (v i hi (rw q at used))
                    ])
            ]
      ]

  sys_close_file-IsValid :
      (handle : ℕ) (files : Handles) (w : World)
      → IsValid files
      → IsValid (sys_close_file k handle files w).1
  unfolding sys_close_file
  sys_close_file-IsValid handle files w v = elim (Bool-cases (leb 16 handle)) [
    | inl e ↦ rw e v
    | inr e ↦ elim (Bool-cases (files handle).in_use) [
      | inr f ↦ rw (e, f) v
      | inl f ↦
          rw (e, f)
            (λ i hi used. elim (Bool-cases (i == handle)) [
              | inl q ↦ absurd (ground (arith, rw q at used))
              | inr q ↦ rw q (v i hi (rw q at used))
            ])
    ]
  ]

  -- The places that a call writes through its pointers
  abbrev pub written : (n arg1 arg2 arg3 arg4 : ℕ) → World → Ranges
  written n arg1 arg2 arg3 arg4 w =
      if n == 2
      then read_ranges k (arg1 % 2 ^ 8) arg2 arg3 arg4 w
      else (if n == 7
          then free_ranges k arg1
          else (if n == 8 || n == 10 then (arg1, arg3 % 2 ^ 32) ∷ [] else []))

  overwritten_all-Apart :
      (ranges : Ranges) (w : World) (files : Handles)
      → All (λ r. Apart k.open_files r.0 r.1) ranges
      → overwritten_all k ranges w files ≡ files
  unfolding overwritten_all
  overwritten_all-Apart [] w files apart = refl
  overwritten_all-Apart ((at, len) ∷ ranges) w files (here, rest) =
      overwritten_all-Apart ranges w (k.overwritten at len w files) rest
      ∙ k.overwritten_apart at len w files here

  -- A call that is not about handles leaves the table as its writes leave it.
  syscall_handler_c-written :
      (vm_memory vm_size n arg1 arg2 arg3 arg4 : ℕ) (files : Handles) (w : World)
      → (n == 4) ≡ false
      → (n == 5) ≡ false
      → let r = syscall_handler_c k vm_memory vm_size n arg1 arg2 arg3 arg4 files w in
        r.1 ≡ overwritten_all k (written n arg1 arg2 arg3 arg4 w) r.2 files
  unfolding syscall_handler_c overwritten_all
  syscall_handler_c-written vm_memory vm_size n arg1 arg2 arg3 arg4 files w e4 e5 =
      ground (arith, e4, e5)

  -- A system call, whatever its number, leaves the table of open files well-formed, if the bytes
  -- that the call writes through its pointers lie outside the table: those of `SYS_MEMCPY` and
  -- `SYS_MEMSET`, the file and the two results of `SYS_READ_FILE`, and the header in front of what
  -- `SYS_KFREE` is given. The free list of the heap is taken to lie outside of it as well. Well-
  -- formed is a table in which each open file has a drive below 256, a buffer, and a name that ends
  -- within its 13 bytes.
  pub syscall_handler_c-IsValid :
      (vm_memory vm_size n arg1 arg2 arg3 arg4 : ℕ) (files : Handles) (w : World)
      → IsValid files
      → All (λ r. Apart k.open_files r.0 r.1) (written n arg1 arg2 arg3 arg4 w)
      → IsValid (syscall_handler_c k vm_memory vm_size n arg1 arg2 arg3 arg4 files w).1
  unfolding syscall_handler_c
  syscall_handler_c-IsValid vm_memory vm_size n arg1 arg2 arg3 arg4 files w v apart =
      elim (Bool-cases (n == 4)) [
        | inl e ↦
            let at = (==_iff n 4).0 e in
            rw (at, syscall_handler_c)
              (sys_open_file-IsValid (arg1 % 2 ^ 8) arg2 files w (omega arith) v)
        | inr e4 ↦ elim (Bool-cases (n == 5)) [
          | inl e ↦
              let at = (==_iff n 5).0 e in
              rw (at, syscall_handler_c) (sys_close_file-IsValid arg1 files w v)
          | inr e5 ↦
              let r = syscall_handler_c k vm_memory vm_size n arg1 arg2 arg3 arg4 files w in
              rw
                (syscall_handler_c-written vm_memory vm_size n arg1 arg2 arg3 arg4 files w e4 e5
                  ∙ overwritten_all-Apart (written n arg1 arg2 arg3 arg4 w) r.2 files apart)
                v
        ]
      ]

  -- `sys_open_file` and then `sys_close_file` of what it returned: either both fail, and the
  -- closing changes no handle, or the handle is below 16 and free and empty again, every other is
  -- as it was before, and the buffer of the file is given back.
  pub close-open :
      (drive file_name : ℕ) (files : Handles) (w : World)
      → let (handle, files1, w1) = sys_open_file k drive file_name files w in
        let (ok, files2, w2) = sys_close_file k handle files1 w1 in
        ((handle ≡ failed) × (ok ≡ false) × (files2 ≡ files1))
        ⊎ ((ok ≡ true)
            × (handle < 16)
            × (files2 handle ≡ closed)
            × ((j : ℕ) → j ≢ handle → files2 j ≡ files j)
            × (w2
                ≡ kfree
                    (fat12_read_file drive file_name w).0
                    (fat12_read_file drive file_name w).2))
  unfolding sys_open_file sys_close_file
  close-open drive file_name files w = elim (find_handle-first 16 0 files) [
    | inl (e, all) ↦ rw (e, sys_open_file) (inl (refl, refl, refl))
    | inr (h, e, lo, hi, free, all) ↦
        let (buffer, size, w') = fat12_read_file drive file_name w in
        elim (Bool-cases (buffer == 0)) [
          | inl z ↦ rw (e, sys_open_file, z) (inl (refl, refl, refl))
          | inr z ↦
              let here : (h == h) ≡ true = eq→== h h refl in
              let low : leb 16 h ≡ false = ground (arith, hi) in
              rw (e, sys_open_file, z, here, low, z)
                (inr (
                  refl,
                  hi,
                  update_self (update files h (opened k (files h) drive file_name buffer size w')) h
                      closed,
                  (λ j ne. rw (ne→== j h ne) refl),
                  refl,
                ))
        ]
  ]
