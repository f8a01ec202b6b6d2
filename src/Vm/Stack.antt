-- ===== src/Vm/Stack.antt =====
-- The stack of the virtual machine: `push` and `pop` of bexe.c, and the words that they store.
use binbows.Base.{
  ℕ, ◌+◌, ◌-◌, ◌*◌, ◌%◌, ◌^◌, ◌≤◌, ◌<◌, ◌≡◌, ◌≢◌, refl, ◌⊎◌, inl, inr, true, false, none, some,
  arith, ltb, leb, if◌then◌else◌, lt→ltb, not-ltb, eq→==, ne→==,
}
use binbows.Vm.State.{Vm, w64, rsp, set_rsp, byte_at, load64, store64, push, pop}
use binbows.Vm.Run.{FileBuffer, bexe_load, bexe_magic, u16_at}

distance : (a k : ℕ) → a < w64 → k < 8 → ((a + k) % w64 + w64 - a) % w64 ≡ k
distance a k ha hk = omega arith

store64-at : (m : ℕ → ℕ) (a v k : ℕ) → a < w64 → k < 8 → store64 m a v ((a + k) % w64) ≡ byte_at k v
unfolding store64
store64-at m a v k ha hk = rw (distance a k ha hk, lt→ltb k 8 hk)

store64-first : (m : ℕ → ℕ) (a v : ℕ) → a < w64 → store64 m a v a ≡ byte_at 0 v
unfolding store64
store64-first m a v ha = let e : (a + w64 - a) % w64 ≡ 0 = omega arith in rw e

-- The eight bytes of a word make it up again.
bytes_word :
    (v : ℕ)
    → v < w64
    → byte_at 0 v
        + 2 ^ 8 * byte_at 1 v
        + 2 ^ 16 * byte_at 2 v
        + 2 ^ 24 * byte_at 3 v
        + 2 ^ 32 * byte_at 4 v
        + 2 ^ 40 * byte_at 5 v
        + 2 ^ 48 * byte_at 6 v
        + 2 ^ 56 * byte_at 7 v
      ≡ v
bytes_word v hv = omega arith

-- A stored word is read back.
pub load64-store64 : (m : ℕ → ℕ) (a v : ℕ) → a < w64 → v < w64 → load64 (store64 m a v) a ≡ v
unfolding load64
load64-store64 m a v ha hv =
    rw
      (
        store64-first m a v ha,
        store64-at m a v 1 ha (omega arith),
        store64-at m a v 2 ha (omega arith),
        store64-at m a v 3 ha (omega arith),
        store64-at m a v 4 ha (omega arith),
        store64-at m a v 5 ha (omega arith),
        store64-at m a v 6 ha (omega arith),
        store64-at m a v 7 ha (omega arith),
      )
      (bytes_word v hv)

-- A store leaves the bytes below its address alone, if it does not wrap around.
pub store64-below : (m : ℕ → ℕ) (a v j : ℕ) → j < a → a + 8 ≤ w64 → store64 m a v j ≡ m j
unfolding store64
store64-below m a v j lt room = rw (not-ltb ((j + w64 - a) % w64) 8 (omega arith))

top_lem : (r : ℕ) → 8 ≤ r → r < w64 → (r + w64 - 8) % w64 ≡ r - 8
top_lem r lo hi = omega arith

-- A push that finds room below the stack pointer.
pub push-ok :
    (vm : Vm) (v : ℕ)
    → 8 ≤ rsp vm
    → rsp vm < w64
    → vm.code_size + vm.data_size + 8 ≤ rsp vm
    → push vm v ≡ record (set_rsp vm (rsp vm - 8)) { memory = store64 vm.memory (rsp vm - 8) v }
unfolding push
push-ok vm v lo hi room =
    rw (top_lem (rsp vm) lo hi, not-ltb (rsp vm - 8) (vm.code_size + vm.data_size) (omega arith))

-- While the stack pointer is below the end of the memory, with eight bytes free above the data, and
-- the word pushed and the memory's size are below 2 ^ 64, `pop` after `push` returns the pushed
-- word and restores the stack pointer; the machine goes on, and of the memory only the pushed word
-- has changed.
pub pop-push :
    (vm : Vm) (v : ℕ)
    → vm.code_size + vm.data_size + 8 ≤ rsp vm
    → rsp vm < vm.memory_size
    → vm.memory_size < w64
    → v < w64
    → (pop (push vm v)).0 ≡ v
      × (rsp (pop (push vm v)).1 ≡ rsp vm)
      × ((pop (push vm v)).1.running ≡ vm.running)
      × ((pop (push vm v)).1.memory ≡ store64 vm.memory (rsp vm - 8) v)
unfolding pop
pop-push vm v room below small hv =
    let back : (rsp vm - 8 + 8) % w64 ≡ rsp vm = omega arith in
    let inside : leb (vm.memory_size - 8) (rsp vm - 8) ≡ false = ground arith in
    rw (push-ok vm v (omega arith) (omega arith) room, inside)
      (load64-store64 vm.memory (rsp vm - 8) v (omega arith) hv, back, refl, refl)

pop-push_top :
    (vm : Vm) (v : ℕ)
    → rsp vm ≡ vm.memory_size
    → vm.code_size + vm.data_size + 8 ≤ vm.memory_size
    → vm.memory_size < w64
    → ((pop (push vm v)).0 ≡ 0) × ((pop (push vm v)).1.running ≡ false)
unfolding pop
pop-push_top vm v top room small =
    let outside : leb (vm.memory_size - 8) (rsp vm - 8) ≡ true = ground arith in
    rw (push-ok vm v (omega arith) (omega arith) (omega arith), outside) (refl, refl)

-- What `bexe_load` leaves in the registers and sizes.
pub record Loaded (file : FileBuffer) (vm : Vm) : Type 0 where
  pub stack_top : rsp vm ≡ vm.memory_size
  pub sizes : vm.memory_size ≡ vm.code_size + vm.data_size + vm.bss_size + 65536
  pub starts : (vm.ip ≡ 0) × (vm.running ≡ true) × (vm.instruction_count ≡ 0)
  pub header :
      (vm.code_size ≡ u16_at file.byte 4)
      × (vm.data_size ≡ u16_at file.byte 6)
      × (vm.bss_size ≡ u16_at file.byte 8)
  pub sections :
      (a : ℕ)
      → vm.memory a ≡ (if ltb a (vm.code_size + vm.data_size) then file.byte (10 + a) else 0)

-- `bexe_load` accepts a file of at least ten bytes that begins with the magic number, and what it
-- makes of one has the sizes of the header, the code and the data at the bottom of a memory that is
-- zero behind them, and rsp at its end.
pub bexe_load-Loaded :
    (file : FileBuffer)
    → 10 ≤ file.size
    → u16_at file.byte 0 + 0x10000 * u16_at file.byte 2 ≡ bexe_magic
    → (vm : Vm) × (bexe_load (some file) ≡ some vm) × Loaded file vm
unfolding bexe_load
bexe_load-Loaded file size magic =
    rw (not-ltb file.size 10 size, eq→== _ _ magic)
      (
        _,
        refl,
        record {
          stack_top = refl;
          sizes = refl;
          starts = (refl, refl, refl);
          header = (refl, refl, refl);
          sections = λ a. refl;
        },
      )

-- A file that is shorter than a header or without the magic number is refused.
pub bexe_load-none :
    (file : FileBuffer)
    → (file.size < 10) ⊎ (u16_at file.byte 0 + 0x10000 * u16_at file.byte 2 ≢ bexe_magic)
    → bexe_load (some file) ≡ none
unfolding bexe_load
bexe_load-none file (inl short) = rw (lt→ltb file.size 10 short)
bexe_load-none file (inr other) = rw (ne→== _ _ other) (ground arith)

-- The first word pushed onto the empty stack of a machine as it is loaded from a file of bytes
-- cannot be popped: `pop` takes it for a stack underflow, returns 0 and stops the machine.
pub pop-push-Loaded :
    (file : FileBuffer) (vm : Vm) (v : ℕ)
    → Loaded file vm
    → ((a : ℕ) → file.byte a < 256)
    → ((pop (push vm v)).0 ≡ 0) × ((pop (push vm v)).1.running ≡ false)
pop-push-Loaded file vm v l bytes =
    let (c, d, b) = l.header in
    pop-push_top vm v l.stack_top (omega (arith, l.sizes)) (
      omega (
        arith,
        l.sizes,
        c,
        d,
        b,
        bytes 4,
        bytes (4 + 1),
        bytes 6,
        bytes (6 + 1),
        bytes 8,
        bytes (8 + 1),
      ))

-- `push` does not see that the stack pointer wraps around: from below 8, in a machine whose code
-- and data fit into its memory and whose memory is below 2 ^ 64 - 8, it goes on running, the stack
-- pointer is behind the end of the memory, and the word is stored there.
pub push_wraps :
    (vm : Vm) (v : ℕ)
    → rsp vm < 8
    → vm.code_size + vm.data_size ≤ vm.memory_size
    → vm.memory_size + 8 ≤ w64
    → ((push vm v).running ≡ vm.running)
      × (vm.memory_size ≤ rsp (push vm v))
      × ((push vm v).memory ≡ store64 vm.memory (rsp (push vm v)) v)
unfolding push
push_wraps vm v low sizes small =
    let room : ltb ((rsp vm + w64 - 8) % w64) (vm.code_size + vm.data_size) ≡ false =
      ground arith in
    rw (push, room) (refl, omega arith, refl)
