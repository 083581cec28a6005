-- ===== src/Store/Retain.antt =====
-- How many of the oldest chunks `enforce_retention` of src/store.rs drops, and the block-aligned cut
-- of `collapse_alignment`.
pub mod Cut
pub mod Partition
pub mod Order
pub mod Survivors
use timberfs.Prelude.{
  ℕ, zero, suc, ◌+◌, ◌-◌, ◌*◌, ◌/◌, ◌%◌, ◌^◌, max, min, List, Option, none, some, length, get_elem?,
  Bool, true, false,
}
use timberfs.Prelude.{ltb, leb, ◌==◌, ◌||◌, if◌then◌else◌}
use timberfs.Format.{ChunkRecord, comp_end}
use timberfs.Store.{FileStore, partition_point}
use timberfs.Store.Read.{sub_u64}
use timberfs.Store.Head.{rotation_split}

-- `chunks[kt - 1].comp_end() * 10 >= comp_size`: the drop is worth a tenth of the store at least.
abbrev is_worth_it : Option ChunkRecord → ℕ → Bool
is_worth_it none comp_size = false
is_worth_it (some c) comp_size = leb comp_size ((comp_end c * 10) % 2 ^ 64)

-- The chunks that are too old; `saturating_sub` is the subtraction here.
unfoldable pub age_cut : ℕ → Option ℕ → FileStore → ℕ
unfolding rotation_split comp_end
age_cut now none s = 0
age_cut now (some age) s =
    let kt = rotation_split (now - age) s in
    if ltb 0 kt
    then (if is_worth_it (get_elem? s.chunks (kt - 1)) s.comp_size then kt else 0)
    else 0

-- The chunks over the budget: down to a low-water mark, less two file-system blocks.
unfoldable pub size_cut : ℕ → Option ℕ → FileStore → ℕ
unfolding partition_point
size_cut bsize none s = 0
size_cut bsize (some budget) s =
    let target = budget - budget / 20 - bsize * 2 in
    if ltb budget s.comp_size
    then partition_point (λ (c : ChunkRecord). ltb target (sub_u64 s.comp_size c.comp_start))
        s.chunks
    else 0

-- The chunks whose numbers are below the floor of interest.
unfoldable pub interest_cut : Option ℕ → FileStore → ℕ
unfolding partition_point
interest_cut none s = 0
interest_cut (some floor) s = partition_point (λ (c : ChunkRecord). ltb c.seq floor) s.chunks

-- The number of chunks that go; 0 is the code's `None`. The clock and the block size are arguments.
unfoldable pub retention_cut : ℕ → ℕ → Option ℕ → Option ℕ → Option ℕ → FileStore → ℕ
unfolding age_cut size_cut interest_cut
retention_cut now bsize max_age max_comp floor s =
    min (max (max (age_cut now max_age s) (size_cut bsize max_comp s)) (interest_cut floor s))
      (length s.chunks)

-- The cut and the sliver of dead bytes that stays in front of it, where `aligned` is the whole blocks
-- of what is to be cut; one block fewer where the sliver has no room for a header.
unfoldable pub cut_blocks : ℕ → ℕ → ℕ → Option (ℕ × ℕ)
cut_blocks aligned comp_cut bsize =
    let sliver = comp_cut - aligned in
    if aligned == 0
    then none
    else if (sliver == 0) || leb 8 sliver
    then some (aligned, sliver)
    else if aligned - bsize == 0
    then none
    else some (aligned - bsize, comp_cut - (aligned - bsize))

unfoldable pub collapse_alignment : ℕ → ℕ → Option (ℕ × ℕ)
unfolding cut_blocks
collapse_alignment comp_cut bsize = cut_blocks (comp_cut / bsize * bsize) comp_cut bsize
