-- ===== src/Store/Retain/Cut.antt =====
-- What the block-aligned cut promises.
use timberfs.Prelude.{
  ℕ, zero, suc, ◌+◌, ◌-◌, ◌*◌, ◌/◌, ◌≤◌, ◌<◌, ◌≡◌, ◌∙◌, some, arith, inl, inr, ◌⊎◌,
}
use native.Mathlib.Nat.{div-add-mod}
use timberfs.Store.Retain.{collapse_alignment, cut_blocks}

-- One block fewer than `q` blocks.
one_fewer : (q bsize : ℕ) → (blocks : ℕ) × (q * bsize - bsize ≡ blocks * bsize)
one_fewer zero bsize = (0, omega arith)
one_fewer (suc q) bsize = (q, omega arith)

-- The two ways to cut, by the whole blocks.
cases :
    (whole comp_cut bsize aligned sliver : ℕ)
    → 8 ≤ bsize
    → whole ≤ comp_cut
    → cut_blocks whole comp_cut bsize ≡ some (aligned, sliver)
    → (aligned + sliver ≡ comp_cut)
      × (0 < aligned)
      × ((aligned ≡ whole) ⊎ (aligned ≡ whole - bsize))
      × ((sliver ≡ 0) ⊎ (8 ≤ sliver))
unfolding cut_blocks
cases whole comp_cut bsize aligned sliver h k e = ground arith

-- On a file system with blocks of at least eight bytes, an aligned cut is a positive number of whole
-- blocks, the sliver is the rest of what is to be cut, and is empty or has room for the eight bytes of
-- a skippable frame's header.
pub collapse_alignment-sliver :
    (comp_cut bsize aligned sliver : ℕ)
    → 8 ≤ bsize
    → collapse_alignment comp_cut bsize ≡ some (aligned, sliver)
    → (aligned + sliver ≡ comp_cut)
      × (0 < aligned)
      × ((blocks : ℕ) × (aligned ≡ blocks * bsize))
      × ((sliver ≡ 0) ⊎ (8 ≤ sliver))
unfolding collapse_alignment
collapse_alignment-sliver comp_cut bsize aligned sliver h e =
    let (sum, pos, which, room) =
      cases (comp_cut / bsize * bsize) comp_cut bsize aligned sliver h below e in
    (sum, pos, blocks which, room)
  where
    below : comp_cut / bsize * bsize ≤ comp_cut
    below = omega (arith, div-add-mod comp_cut bsize)

    blocks :
        (aligned ≡ comp_cut / bsize * bsize) ⊎ (aligned ≡ comp_cut / bsize * bsize - bsize)
        → (n : ℕ) × (aligned ≡ n * bsize)
    blocks (inl same) = (comp_cut / bsize, same)
    blocks (inr less) =
        ((one_fewer (comp_cut / bsize) bsize).0, less ∙ (one_fewer (comp_cut / bsize) bsize).1)
