-- ===== src/ReadSeeker/Contents.antt =====
-- About the bytes that `Read` of readseeker.go gives.
use desync.Common.{
  ℕ, zero, suc, ◌+◌, ◌-◌, ◌<◌, ◌≡◌, ◌≢◌, refl, sym, ap, subst, ◌∙◌, inl, inr, List, [], ◌++◌,
  length, take, drop, get_elem?, min, ltb, ◌==◌, ◌&&◌, Bool-cases, some, true, false, arith,
}
use desync.Common.Outcome.{ok}
use desync.Chunk.Defs.{Convert, NullChunk, id_equal}
use desync.Files.{bytes_from}
use desync.Index.Defs.{IndexChunk}
use desync.ReadSeeker.Defs.{IndexPos, forward, seek_current, seek}
use desync.ReadSeeker.Reading.{
  load_data, load_chunk, with_data, behind_copy, behind_load, read_loop, read,
}
use desync.Sparse.Bytes.{length-bytes_from, Tiles-get_elem?}
use desync.Sparse.Load.{Serves}
use desync.Store.Defs.{Store}
use desync.ReadSeeker.Moves.{SameData, IsReading, seek-Moves}
use desync.ReadSeeker.Ranges.{
  range_cong, drop-bytes_from, take-bytes_from, no_bytes, append-bytes_from,
}

module _ {W : Type 0} (compress decompress : Convert) (s : Store W) (nc : NullChunk) (blob : ℕ → ℕ)
    (chunks : List IndexChunk) (same : SameData blob chunks)
    (serves : Serves compress decompress s blob chunks nc.id)
    (nulls : (i : ℕ) (c : IndexChunk)
      → get_elem? chunks i ≡ some c
      → id_equal c.id nc.id ≡ true
      → nc.content ≡ bytes_from blob c.size c.start) where
  -- Loading gives the data of the current chunk.
  load_chunk-data :
      (ip : IndexPos) (c : IndexChunk) (w : W)
      → IsReading blob ip c
      → ip.chunks ≡ chunks
      → (w' : W) × (load_chunk compress decompress s nc ip w
          ≡ (ok tt, record ip { cur_chunk = bytes_from blob c.size c.start }, w'))
  unfolding load_chunk load_data
  load_chunk-data ip c w r e =
      let at_c : get_elem? chunks ip.cur_chunk_idx ≡ some c =
        subst (λ l. get_elem? l ip.cur_chunk_idx ≡ some c) e r.positioned.current in
      elim (Bool-cases (id_equal c.id nc.id)) [
        | inl null ↦
            let null' : id_equal ip.cur_chunk_id nc.id ≡ true = rw r.id null in
            (
              w,
              rw (load_chunk, null')
                  (ap (λ b. (ok tt, record ip { cur_chunk = b }, w))
                    (nulls ip.cur_chunk_idx c at_c null)),
            )
        | inr other ↦
            let other' : id_equal ip.cur_chunk_id nc.id ≡ false = rw r.id other in
            let (ch, w', got, has) = serves ip.cur_chunk_idx c w at_c other in
            let got' : s.get_chunk ip.cur_chunk_id w ≡ (ok ch, w') =
              ap (λ i. s.get_chunk i w) r.id ∙ got in
            (w', rw (load_chunk, other', got', load_data, has) refl)
      ]

  -- Behind the test in the loop the data of the current chunk is there.
  loaded-data :
      (ip : IndexPos) (c : IndexChunk) (w : W)
      → IsReading blob ip c
      → ip.chunks ≡ chunks
      → (w' : W) × (with_data compress decompress s nc ip w
          ≡ (ok tt, record ip { cur_chunk = bytes_from blob c.size c.start }, w'))
  unfolding with_data
  loaded-data ip c w r e = elim (Bool-cases (length ip.cur_chunk == 0)) [
    | inl none_yet ↦ rw (with_data, none_yet) (load_chunk-data ip c w r e)
    | inr some_data ↦ elim r.loaded [
      | inl nothing ↦ absurd (let z = ap length nothing in ground arith)
      | inr there ↦
          (w, rw (with_data, some_data) (ap (λ b. (ok tt, record ip { cur_chunk = b }, w)) there))
    ]
  ]

  read_loop-bytes_from :
      (fuel n : ℕ) (ip : IndexPos) (c : IndexChunk) (w : W)
      → IsReading blob ip c
      → ip.chunks ≡ chunks
      → n < fuel
      → ((read_loop compress decompress s nc fuel n ip w).bytes
          ≡ bytes_from blob (min n (ip.length - ip.pos)) ip.pos)
        × ((read_loop compress decompress s nc fuel n ip w).error ≡ ok tt)
  unfolding read_loop behind_load behind_copy
  read_loop-bytes_from zero n ip c w r e h = absurd (omega arith)
  read_loop-bytes_from (suc fuel) n ip c w r e h = elim (Bool-cases (n == 0)) [
    | inl full ↦
        let nothing : min n (ip.length - ip.pos) ≡ 0 = ground arith in
        rw (read_loop, full) (sym (no_bytes blob (min n (ip.length - ip.pos)) ip.pos nothing), refl)
    | inr room ↦
        let (w', loaded) = loaded-data ip c w r e in
        let ip1 : IndexPos = record ip { cur_chunk = bytes_from blob c.size c.start } in
        let p = r.positioned in
        let long = length-bytes_from blob c.size c.start in
        let no_panic : ltb (length ip1.cur_chunk) ip1.cur_chunk_offset ≡ false =
          let q = p.within in ground arith in
        elim (Bool-cases (ip.pos == ip.length)) [
          | inl at_last ↦
              let fits =
                Tiles-get_elem? 0 ip.length ip.chunks ip.cur_chunk_idx c p.tiles p.current in
              let at_last' : ip.pos ≡ ip.length = ground arith in
              let used_up : c.size - ip.cur_chunk_offset ≡ 0 =
                omega (arith, fits, p.at, at_last') in
              let rest_empty : drop ip1.cur_chunk_offset ip1.cur_chunk ≡ [] =
                drop-bytes_from blob ip.cur_chunk_offset c.size c.start p.within
                ∙ no_bytes blob (c.size - ip.cur_chunk_offset) (c.start + ip.cur_chunk_offset)
                    used_up in
              let is_last = r.last at_last' in
              let over : ((length (drop ip1.cur_chunk_offset ip1.cur_chunk) == 0)
                    && (ip1.cur_chunk_idx == length ip1.chunks - 1))
                  ≡ true =
                rw rest_empty (ground arith) in
              let nothing : min n (ip.length - ip.pos) ≡ 0 = omega (arith, at_last') in
              rw (read_loop, room, loaded, behind_load, no_panic, over)
                (sym (no_bytes blob (min n (ip.length - ip.pos)) ip.pos nothing), refl)
          | inr before ↦
              let fits =
                Tiles-get_elem? 0 ip.length ip.chunks ip.cur_chunk_idx c p.tiles p.current in
              let differs : ip.pos < ip.length = let a = p.at in let l = p.within in ground arith in
              let within = r.inside differs in
              let rest = drop ip1.cur_chunk_offset ip1.cur_chunk in
              let left : ℕ = c.size - ip.cur_chunk_offset in
              let rest_is : rest ≡ bytes_from blob left ip.pos =
                drop-bytes_from blob ip.cur_chunk_offset c.size c.start p.within
                ∙ range_cong blob left left (c.start + ip.cur_chunk_offset) ip.pos refl
                    (sym p.at) in
              let rest_long : length rest ≡ left =
                ap length rest_is ∙ length-bytes_from blob left ip.pos in
              let b = take n rest in
              let b_is : b ≡ bytes_from blob (min n left) ip.pos =
                ap (take n) rest_is ∙ take-bytes_from blob n left ip.pos in
              let b_long : length b ≡ min n left =
                ap length b_is ∙ length-bytes_from blob (min n left) ip.pos in
              let not_over : ((length rest == 0) && (ip1.cur_chunk_idx == length ip1.chunks - 1))
                  ≡ false =
                ground (arith, rest_long, within) in
              let r1 : IsReading blob ip1 c = record {
                positioned = record {
                  tiles = p.tiles;
                  current = p.current;
                  at = p.at;
                  within = p.within;
                };
                id = r.id;
                inside = r.inside;
                last = r.last;
                loaded = inr refl;
              } in
              let (result, (d, at, long', chunks', r')) =
                seek-Moves blob ip1 c (length b) r1 (rw e same)
                  (omega (arith, b_long, within, fits, p.at)) in
              let ip2 = (seek ip1 (forward (length b)) seek_current).1 in
              let moved : seek ip1 (forward (length b)) seek_current
                  ≡ (ok (ip.pos + length b), ip2) =
                ap (λ o. (o, ip2)) result in
              let some_left : n ≢ 0 = λ z. ground arith in
              let (more, fine) =
                read_loop-bytes_from fuel (n - length b) ip2 d w' r' (chunks' ∙ e)
                  (omega (arith, b_long, within, h, some_left)) in
              let m : ℕ = min (n - length b) (ip2.length - ip2.pos) in
              let whole : b ++ (read_loop compress decompress s nc fuel (n - length b) ip2 w').bytes
                  ≡ bytes_from blob (min n (ip.length - ip.pos)) ip.pos =
                ap (λ l. b ++ l)
                  (more
                    ∙ range_cong blob m m ip2.pos (ip.pos + min n left) refl
                        (omega (arith, at, b_long)))
                ∙ ap (λ l. l ++ bytes_from blob m (ip.pos + min n left)) b_is
                ∙ append-bytes_from blob (min n left) m ip.pos
                ∙ range_cong blob (min n left + m) (min n (ip.length - ip.pos)) ip.pos ip.pos
                    (omega (arith, at, b_long, long', within, fits, p.at)) refl in
              rw (read_loop, room, loaded, behind_load, no_panic, not_over, moved, behind_copy)
                (whole, fine)
        ]
  ]

  -- The store has the chunks of the blob, except for null chunks, whose content is that of the
  -- null chunk, and chunks with the same id have the same data. In a seeker that stands in front
  -- of the end of the blob, in the chunk `c` that is said to be the current one, with nothing or
  -- the data of that chunk loaded, a read into `n` bytes ends for fuel above `n`, without an
  -- error, and gives the bytes of the blob from the position on, `n` of them or as many as there
  -- are.
  pub read-bytes_from :
      (fuel n : ℕ) (ip : IndexPos) (c : IndexChunk) (w : W)
      → IsReading blob ip c
      → ip.chunks ≡ chunks
      → ip.pos < ip.length
      → n < fuel
      → ((read compress decompress s nc fuel n ip w).bytes
          ≡ bytes_from blob (min n (ip.length - ip.pos)) ip.pos)
        × ((read compress decompress s nc fuel n ip w).error ≡ ok tt)
  unfolding read
  read-bytes_from fuel n ip c w r e b h =
      let more : (ip.pos == ip.length) ≡ false = ground arith in
      rw (read, more) (read_loop-bytes_from fuel n ip c w r e h)
