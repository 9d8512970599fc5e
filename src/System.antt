-- ===== src/System.antt =====
-- `_arena_reserve`, `_arena_commit` and `_arena_release` of src/vmbumppool.c, on Linux over the
-- system calls and on Windows over the calls of its kernel, and the page size that they run on.
pub mod Commit
use patricia_c.Base.{
  ℕ, ◌+◌, ◌-◌, ◌^◌, bit_or, Bool, true, false, not, ◌&&◌, ◌||◌, ◌==◌, if◌then◌else◌,
}
use patricia_c.Heap.{Ptr, null}
use patricia_c.Pool.{Os, enomem, einval}

-- The values of `sys/mman.h` on Linux.
abbrev pub prot_none : ℕ
prot_none = 0

abbrev pub prot_read : ℕ
prot_read = 1

abbrev pub prot_write : ℕ
prot_write = 2

abbrev pub map_private : ℕ
map_private = 0x2

abbrev pub map_fixed : ℕ
map_fixed = 0x10

abbrev pub map_anonymous : ℕ
map_anonymous = 0x20

abbrev pub map_noreserve : ℕ
map_noreserve = 0x4000

abbrev pub madv_populate_write : ℕ
madv_populate_write = 23

-- `MAP_FAILED`
abbrev pub map_failed : Ptr
map_failed = 2 ^ 64 - 1

-- The system calls of Linux on the state of the process: each returns its value, `errno` and the
-- state. `mmap` takes the address, the length, the protection and the flags.
pub record Linux : Type 1 where
  pub State : Type 0
  pub page : ℕ
  pub mmap : State → Ptr → ℕ → ℕ → ℕ → Ptr × ℕ × State
  pub mprotect : State → Ptr → ℕ → ℕ → Bool × ℕ × State
  pub madvise : State → Ptr → ℕ → ℕ → Bool × ℕ × State
  pub munmap : State → Ptr → ℕ → Bool × ℕ × State

-- `_arena_reserve`: the error number and the address.
unfoldable pub arena_reserve : (sys : Linux) → sys.State → ℕ → ℕ × Ptr × sys.State
arena_reserve sys w len =
    let (addr, errno, w1) =
      sys.mmap w null len prot_none (bit_or (bit_or map_private map_anonymous) map_noreserve) in
    if addr == map_failed then (errno, null, w1) else (0, addr, w1)

-- The end of `_arena_commit`, which replaces the pages.
unfoldable pub remap : (sys : Linux) → sys.State → Ptr → ℕ → ℕ × sys.State
remap sys w p l =
    let (addr, errno, w1) =
      sys.mmap w p l (bit_or prot_read prot_write)
        (bit_or (bit_or map_private map_anonymous) map_fixed) in
    if not (p == addr) then (errno, w1) else (0, w1)

-- `_arena_commit` as it is built with VMEMARENA_USE_MADVISE; the flag is the static variable
-- `use_madvise`. The first two calls return true for success.
unfoldable pub arena_commit : (sys : Linux) → Bool → sys.State → Ptr → ℕ → ℕ × Bool × sys.State
arena_commit sys use_madvise w p l =
    let (protected, perr, w1) = sys.mprotect w p l (bit_or prot_read prot_write) in
    let (advised, aerr, w2) = sys.madvise w1 p l madv_populate_write in
    let (code, w3) = remap sys w p l in
    let (late, w4) = remap sys w2 p l in
    if not use_madvise
    then (code, false, w3)
    else if not protected
    then (perr, true, w1)
    else if advised
    then (0, true, w2)
    else if aerr == enomem
    then (aerr, true, w2)
    else (late, false, w4)

-- `_arena_release`
unfoldable pub arena_release : (sys : Linux) → sys.State → Ptr → ℕ → ℕ × sys.State
arena_release sys w p l =
    let (released, errno, w1) = sys.munmap w p l in if released then (0, w1) else (errno, w1)

-- The system that the pool runs on, with the static variable beside the state.
abbrev pub linux_os : Linux → Os
linux_os sys = record {
  State = Bool × sys.State;
  page = sys.page;
  reserve = λ (flag, w) len. let (e, at, w1) = arena_reserve sys w len in (e, at, (flag, w1));
  commit =
      λ (flag, w) at len. let (e, flag1, w1) = arena_commit sys flag w at len in (e, (flag1, w1));
  release = λ (flag, w) at len. let (e, w1) = arena_release sys w at len in (flag, w1);
}

-- The calls of the Windows kernel: `VirtualAlloc` and `VirtualFree` return their value, what
-- `GetLastError` then says, and the state.
pub record Windows : Type 1 where
  pub State : Type 0
  pub page : ℕ
  pub virtual_alloc : State → Ptr → ℕ → ℕ → ℕ → Ptr × ℕ × State
  pub virtual_free : State → Ptr → ℕ → ℕ → Bool × ℕ × State

-- The values of the Windows headers.
abbrev pub mem_commit : ℕ
mem_commit = 0x1000

abbrev pub mem_reserve : ℕ
mem_reserve = 0x2000

abbrev pub mem_release : ℕ
mem_release = 0x8000

abbrev pub page_noaccess : ℕ
page_noaccess = 1

abbrev pub page_readwrite : ℕ
page_readwrite = 4

abbrev pub eperm : ℕ
eperm = 1

abbrev pub efault : ℕ
efault = 14

-- `winerr_as_errno`
unfoldable pub winerr_as_errno : ℕ → ℕ
winerr_as_errno e =
    if (e == 8) || (e == 14) || (e == 1453)
    then enomem
    else if e == 487
    then efault
    else if e == 5
    then eperm
    else einval

-- The three functions on Windows.
unfoldable pub win_reserve : (sys : Windows) → sys.State → ℕ → ℕ × Ptr × sys.State
win_reserve sys w len =
    let (addr, e, w1) = sys.virtual_alloc w null len mem_reserve page_noaccess in
    (if not (addr == null) then 0 else winerr_as_errno e, addr, w1)

unfoldable pub win_commit : (sys : Windows) → sys.State → Ptr → ℕ → ℕ × sys.State
win_commit sys w p l =
    let (addr, e, w1) = sys.virtual_alloc w p l mem_commit page_readwrite in
    (if p == addr then 0 else winerr_as_errno e, w1)

unfoldable pub win_release : (sys : Windows) → sys.State → Ptr → ℕ → ℕ × sys.State
win_release sys w p l =
    let (released, e, w1) = sys.virtual_free w p 0 mem_release in
    (if released then 0 else winerr_as_errno e, w1)

abbrev pub windows_os : Windows → Os
windows_os sys = record {
  State = sys.State;
  page = sys.page;
  reserve = λ w len. win_reserve sys w len;
  commit = λ w at len. win_commit sys w at len;
  release = λ w at len. (win_release sys w at len).1;
}
