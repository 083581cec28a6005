-- ===== src/Store/Retain/Survivors.antt =====
-- What `enforce_retention` of src/store.rs drops and what it keeps, where the chunks are numbered in
-- order.
use timberfs.Prelude.{ℕ, ◌-◌, ◌*◌, ◌/◌, ◌<◌}
use timberfs.Format.{ChunkRecord}
use timberfs.Store.{FileStore}
use timberfs.Store.Inv.{Inv}

-- The store is over the budget, and from this chunk's start on it holds more than the low-water mark:
-- 95 of 100 parts of the budget, less two blocks.
abbrev pub IsOver : ℕ → ℕ → FileStore → ChunkRecord → Type 0
IsOver bsize budget s c =
    (budget < s.comp_size) × (budget - budget / 20 - bsize * 2 < s.comp_size - c.comp_start)
