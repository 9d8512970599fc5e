-- ===== src/System/Commit.antt =====
-- When `_arena_commit` of src/vmbumppool.c reports success.
use patricia_c.Base.{
  ℕ, bit_and, bit_or, Bool, true, false, ◌≡◌, ◌≢◌, ◌⊎◌, inl, inr, refl, ◌==◌, Bool-cases, arith,
}
use patricia_c.Key.{to_bool}
use patricia_c.Heap.{Ptr}
use patricia_c.Pool.{enomem}
use patricia_c.System.{
  Linux, prot_read, prot_write, map_private, map_anonymous, map_fixed, map_failed,
  madv_populate_write, remap, arena_commit,
}

-- What the manual says: a system call that fails sets `errno` to a number that is not 0, where
-- `mmap` fails with MAP_FAILED, and a successful `mmap` with MAP_FIXED returns the given address.
pub record SetsErrno (sys : Linux) : Type 0 where
  pub protect :
      (w : sys.State) (p : Ptr) (l prot : ℕ)
      → (sys.mprotect w p l prot).0 ≡ false
      → (sys.mprotect w p l prot).1 ≢ 0
  pub advise :
      (w : sys.State) (p : Ptr) (l how : ℕ)
      → (sys.madvise w p l how).0 ≡ false
      → (sys.madvise w p l how).1 ≢ 0
  pub map :
      (w : sys.State) (p : Ptr) (l prot flags : ℕ)
      → (sys.mmap w p l prot flags).0 ≡ map_failed
      → (sys.mmap w p l prot flags).1 ≢ 0
  pub fixed :
      (w : sys.State) (p : Ptr) (l prot flags : ℕ)
      → to_bool (bit_and flags map_fixed) ≡ true
      → ((sys.mmap w p l prot flags).0 ≡ p) ⊎ ((sys.mmap w p l prot flags).0 ≡ map_failed)

-- The pages were mapped anew at their address in the state `w`.
abbrev pub Mapped : (sys : Linux) → sys.State → Ptr → ℕ → Type 0
Mapped sys w p l =
    (sys.mmap w p l (bit_or prot_read prot_write)
      (bit_or (bit_or map_private map_anonymous) map_fixed)).0
    ≡ p

-- The pages were made accessible and populated, from the state `w`.
abbrev pub Populated : (sys : Linux) → sys.State → Ptr → ℕ → Type 0
Populated sys w p l =
    ((sys.mprotect w p l (bit_or prot_read prot_write)).0 ≡ true)
    × ((sys.madvise (sys.mprotect w p l (bit_or prot_read prot_write)).2 p l madv_populate_write).0
        ≡ true)

remap-Mapped :
    (sys : Linux)
    → SetsErrno sys
    → (w : sys.State) (p : Ptr) (l : ℕ) → (remap sys w p l).0 ≡ 0
    → Mapped sys w p l
unfolding remap
remap-Mapped sys doc w p l e =
    let replace : ℕ = bit_or (bit_or map_private map_anonymous) map_fixed in
    let addr = sys.mmap w p l (bit_or prot_read prot_write) replace in
    elim (Bool-cases (p == addr.0)) [
      | inl same ↦ ground arith
      | inr apart ↦
          let errno : addr.1 ≡ 0 = rw apart at e in
          elim (doc.fixed w p l (bit_or prot_read prot_write) replace refl) [
            | inl there ↦ there
            | inr failed ↦ absurd (doc.map w p l _ _ failed errno)
          ]
    ]

-- Assume that a call of mprotect or madvise that fails, and a call of mmap that returns
-- MAP_FAILED, sets errno to a number other than 0, and that mmap with MAP_FIXED returns the given
-- address or MAP_FAILED. When the commit of pages returns 0, then either madvise was in use and
-- stays in use, and mprotect and madvise both succeeded, or it is in use no more and mmap put the
-- pages at their address.
pub arena_commit-zero :
    (sys : Linux) (flag : Bool) (w : sys.State) (p : Ptr) (l : ℕ)
    → SetsErrno sys
    → (arena_commit sys flag w p l).0 ≡ 0
    → ((flag ≡ true) × ((arena_commit sys flag w p l).1 ≡ true) × Populated sys w p l)
      ⊎ (((arena_commit sys flag w p l).1 ≡ false) × ((w' : sys.State) × Mapped sys w' p l))
unfolding arena_commit
arena_commit-zero sys false w p l doc e = inr (refl, (w, remap-Mapped sys doc w p l e))
arena_commit-zero sys true w p l doc e =
    let first = sys.mprotect w p l (bit_or prot_read prot_write) in
    let second = sys.madvise first.2 p l madv_populate_write in
    elim (Bool-cases first.0) [
      | inr locked ↦
          absurd (doc.protect w p l (bit_or prot_read prot_write) locked (rw locked at e))
      | inl opened ↦ elim (Bool-cases second.0) [
        | inl there ↦ inl (refl, rw (opened, there) refl, (opened, there))
        | inr missing ↦ elim (Bool-cases (second.1 == enomem)) [
          | inl full ↦
              absurd (
                doc.advise first.2 p l madv_populate_write missing
                  (rw (opened, missing, full) at e))
          | inr other ↦ inr (
            rw (opened, missing, other) refl,
            (second.2, remap-Mapped sys doc second.2 p l (rw (opened, missing, other) at e)),
          )
        ]
      ]
    ]
