-- ===== src/ReadSeeker/Reading.antt =====
-- `loadChunk` and `Read` of readseeker.go.
use desync.Common.{
  ℕ, zero, suc, ◌-◌, List, [], ◌++◌, length, take, drop, ltb, ◌==◌, ◌&&◌, if◌then◌else◌,
}
use desync.Common.Outcome.{Outcome, ok, err, panic, out_of_fuel}
use desync.Chunk.Defs.{Chunk, Convert, NullChunk, StoreError, id_equal, data_of}
use desync.ReadSeeker.Defs.{IndexPos, SeekError, forward, seek, seek_current}
use desync.Store.Defs.{Store}

pub data ReadError : Type 0 where
  at_end : ReadError
  loading : StoreError → ReadError
  seeking : SeekError → ReadError

-- What `Read` copies, its error, and the seeker behind it.
pub record Read (W : Type 0) : Type 0 where
  pub bytes : List ℕ
  pub error : Outcome ReadError (Unit {0})
  pub ip : IndexPos
  pub world : W

module _ {W : Type 0} (compress decompress : Convert) (s : Store W) (nc : NullChunk) where
  unfoldable pub load_data :
      IndexPos → Outcome StoreError Chunk × W → Outcome StoreError (Unit {0}) × IndexPos × W
  load_data ip (ok c, w) = elim (data_of compress decompress c).0 [
    | ok b ↦ (ok tt, record ip { cur_chunk = b }, w)
    | err e ↦ (err e, ip, w)
    | panic ↦ (panic, ip, w)
    | out_of_fuel ↦ (out_of_fuel, ip, w)
  ]
  load_data ip (err e, w) = (err e, ip, w)
  load_data ip (panic, w) = (panic, ip, w)
  load_data ip (out_of_fuel, w) = (out_of_fuel, ip, w)

  unfoldable pub load_chunk : IndexPos → W → Outcome StoreError (Unit {0}) × IndexPos × W
  unfolding load_data
  load_chunk ip w =
      if id_equal ip.cur_chunk_id nc.id
      then (ok tt, record ip { cur_chunk = nc.content }, w)
      else load_data ip (s.get_chunk ip.cur_chunk_id w)

  -- Behind the copy: the rest of the loop, unless the seek failed.
  unfoldable pub behind_copy :
      (ℕ → IndexPos → W → Read W) → ℕ → List ℕ → W → Outcome SeekError ℕ × IndexPos → Read W
  behind_copy next n b w (ok p, ip) =
      let more = next (n - length b) ip w in record more { bytes = b ++ more.bytes }
  behind_copy next n b w (err e, ip) = record {
    bytes = b;
    error = err (seeking e);
    ip = ip;
    world = w;
  }
  behind_copy next n b w (panic, ip) = record { bytes = b; error = panic; ip = ip; world = w }
  behind_copy next n b w (out_of_fuel, ip) = record {
    bytes = b;
    error = out_of_fuel;
    ip = ip;
    world = w;
  }

  -- A round of the loop behind `loadChunk`, where `n` bytes are still to be filled. A slice from
  -- behind the end of the data panics.
  unfoldable pub behind_load :
      (ℕ → IndexPos → W → Read W) → ℕ → Outcome StoreError (Unit {0}) × IndexPos × W → Read W
  unfolding behind_copy
  behind_load next n (ok x, ip, w) =
      let rest = drop ip.cur_chunk_offset ip.cur_chunk in
      let b = take n rest in
      if ltb (length ip.cur_chunk) ip.cur_chunk_offset
      then record { bytes = []; error = panic; ip = ip; world = w }
      else if (length rest == 0) && (ip.cur_chunk_idx == length ip.chunks - 1)
      then record { bytes = []; error = ok tt; ip = ip; world = w }
      else behind_copy next n b w (seek ip (forward (length b)) seek_current)
  behind_load next n (err e, ip, w) = record {
    bytes = [];
    error = err (loading e);
    ip = ip;
    world = w;
  }
  behind_load next n (panic, ip, w) = record { bytes = []; error = panic; ip = ip; world = w }
  behind_load next n (out_of_fuel, ip, w) = record {
    bytes = [];
    error = out_of_fuel;
    ip = ip;
    world = w;
  }

  -- The data of the current chunk, loaded unless there is some.
  unfoldable pub with_data : IndexPos → W → Outcome StoreError (Unit {0}) × IndexPos × W
  with_data ip w = if length ip.cur_chunk == 0 then load_chunk ip w else (ok tt, ip, w)

  -- The loop of `Read`.
  unfoldable pub read_loop : ℕ → ℕ → IndexPos → W → Read W
  unfolding behind_load
  read_loop zero n ip w = record { bytes = []; error = out_of_fuel; ip = ip; world = w }
  read_loop (suc fuel) n ip w =
      let round = behind_load (read_loop fuel) n (with_data ip w) in
      if n == 0 then record { bytes = []; error = ok tt; ip = ip; world = w } else round

  unfoldable pub read : ℕ → ℕ → IndexPos → W → Read W
  read fuel n ip w =
      if ip.pos == ip.length
      then record { bytes = []; error = err at_end; ip = ip; world = w }
      else read_loop fuel n ip w
