-- ===== src/Index/Layout.antt =====
-- Where the chunks of an index lie in the blob.
use desync.Common.{ℕ, ◌+◌, ◌%◌, ◌^◌, ◌≤◌, ◌<◌, ◌≡◌, ◌≢◌, refl, List, [], ◌∷◌, All, arith}
use desync.Common.Outcome.{ok}
use desync.Format.Elements.{FormatTableItem}
use desync.Index.Defs.{IndexChunk, chunks_from_items, last_end}

-- The chunks follow one another without a gap from `start` on, and end at `finish`.
abbrev pub Tiles : ℕ → List IndexChunk → ℕ → Type 0
Tiles start [] finish = start ≡ finish
Tiles start (c ∷ chunks) finish = (c.start ≡ start) × Tiles (start + c.size) chunks finish

-- The same for offsets that wrap at 2 ^ 64.
abbrev pub TilesMod : ℕ → List IndexChunk → Type 0
TilesMod start [] = Unit
TilesMod start (c ∷ chunks) = (c.start ≡ start) × TilesMod ((start + c.size) % 2 ^ 64) chunks

pub Tiles-le :
    (start : ℕ) (chunks : List IndexChunk) (finish : ℕ) → Tiles start chunks finish → start ≤ finish
Tiles-le start [] finish t = omega arith
Tiles-le start (c ∷ chunks) finish (e, t) = omega (arith, Tiles-le (start + c.size) chunks finish t)

-- If the loop over the table's items, from the offset `last` on, gives chunks, these follow one
-- another without a gap, up to 64 bits, and none is larger than the maximum.
chunks_from_items-TilesMod :
    (max last : ℕ) (items : List FormatTableItem) (chunks : List IndexChunk)
    → All (λ (r : FormatTableItem). r.offset < 2 ^ 64) items
    → last < 2 ^ 64
    → chunks_from_items max last items ≡ ok chunks
    → TilesMod last chunks × All (λ (c : IndexChunk). c.size ≤ max) chunks
unfolding chunks_from_items
chunks_from_items-TilesMod max last [] [] hs h e = (tt, tt)
chunks_from_items-TilesMod max last (r ∷ items) [] hs h e = (tt, tt)
chunks_from_items-TilesMod max last [] (c ∷ chunks) hs h e = cc
chunks_from_items-TilesMod max last (r ∷ items) (c ∷ chunks) (h1, hs) h e =
    ground (arith, chunks_from_items-TilesMod max r.offset items chunks hs)

-- The length is where the last chunk ends.
pub last_end-Tiles :
    (start finish : ℕ) (chunks : List IndexChunk)
    → Tiles start chunks finish
    → chunks ≢ []
    → finish < 2 ^ 64
    → last_end chunks ≡ finish
unfolding last_end
last_end-Tiles start finish [] t ne h = absurd (ne refl)
last_end-Tiles start finish (c ∷ []) t ne h = omega arith
last_end-Tiles start finish (c ∷ d ∷ chunks) (e, t) ne h =
    last_end-Tiles (start + c.size) finish (d ∷ chunks) t (λ p. cc) h

pub last_end_lem :
    (total : ℕ) (chunks : List IndexChunk)
    → Tiles 0 chunks total
    → total < 2 ^ 64
    → last_end chunks ≡ total
unfolding last_end
last_end_lem total [] t h = t
last_end_lem total (c ∷ chunks) t h = last_end-Tiles 0 total (c ∷ chunks) t (λ p. cc) h
