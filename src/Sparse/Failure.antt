-- ===== src/Sparse/Failure.antt =====
-- About a chunk that could not be loaded in sparse-file.go.
use desync.Common.{ℕ, ◌≡◌, refl, ==_refl, get_elem?, false, some}
use desync.Common.Outcome.{ok, err}
use desync.Chunk.Defs.{Convert, StoreError}
use desync.Index.Defs.{IndexChunk}
use desync.Sparse.Defs.{Bitmap, Loader, used, fetch, load_chunk}
use desync.Store.Defs.{Store}

module _ {B W : Type 0} (bits : Bitmap B) (compress decompress : Convert) (s t : Store W) where
  -- A chunk that is neither loaded nor tried, and that the store `s` does not give, is reported
  -- once. From then on loading it succeeds, with any store `t`, without asking that store and
  -- without writing anything; the bitmap does not have it.
  pub load_chunk_lost :
      (l : Loader B) (i : ℕ) (c : IndexChunk) (e : StoreError) (w w' v : W)
      → get_elem? l.chunks i ≡ some c
      → l.once i ≡ false
      → bits.get l.done i ≡ false
      → s.get_chunk c.id w ≡ (err e, w')
      → (l' : Loader B) × (load_chunk bits compress decompress s i l w ≡ (err e, l', w'))
        × (load_chunk bits compress decompress t i l' v ≡ (ok tt, l', v))
        × (bits.get l'.done i ≡ false)
        × (l'.file ≡ l.file)
  unfolding load_chunk fetch
  load_chunk_lost l i c e w w' v at fresh missing fails = (
    used bits compress decompress s i l,
    rw (load_chunk, at, fresh, fetch, fails) (rw fails refl),
    rw (load_chunk, at, ==_refl i) refl,
    missing,
    refl,
  )
