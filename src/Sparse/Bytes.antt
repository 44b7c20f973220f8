-- ===== src/Sparse/Bytes.antt =====
-- About the bytes of ranges, and about chunks that tile a blob.
use desync.Common.{
  ℕ, zero, suc, ◌+◌, ◌-◌, ◌≤◌, ◌<◌, ◌≡◌, refl, ap, subst, ◌∙◌, ◌⊎◌, inl, inr, List, [], ◌∷◌, length,
  get_elem?, true, Bool-cases, some_inj, some, arith,
}
use desync.Files.{File, between, bytes_from, get_or, write_at}
use desync.Index.Defs.{IndexChunk}
use desync.Index.Layout.{Tiles, Tiles-le}

pub length-bytes_from : (at : ℕ → ℕ) (n off : ℕ) → length (bytes_from at n off) ≡ n
unfolding bytes_from
length-bytes_from at zero off = refl
length-bytes_from at (suc n) off = ap suc (length-bytes_from at n (off + 1))

get_or-bytes_from :
    (at : ℕ → ℕ) (n off k : ℕ) → k < n → get_or 0 (bytes_from at n off) k ≡ at (off + k)
unfolding bytes_from get_or
get_or-bytes_from at zero off k h = let bad : ⊥ = omega arith in elim bad [ ]
get_or-bytes_from at (suc n) off zero h = ap at (omega arith)
get_or-bytes_from at (suc n) off (suc k) h =
    get_or-bytes_from at n (off + 1) k (omega arith) ∙ ap at (omega arith)

-- What is written of the blob agrees with the blob.
pub write_at-bytes_from :
    (f : File) (blob : ℕ → ℕ) (n off j : ℕ)
    → (between off n j ≡ true) ⊎ (f.at j ≡ blob j)
    → (write_at f (bytes_from blob n off) off).at j ≡ blob j
unfolding write_at
write_at-bytes_from f blob n off j h = elim (Bool-cases (between off n j)) [
  | inl within ↦
      rw (length-bytes_from blob n off, within)
        (get_or-bytes_from blob n off (j - off) (ground (arith, within))
          ∙ ap blob (ground (arith, within)))
  | inr outside ↦
      rw (length-bytes_from blob n off, outside) (elim h [ inl within ↦ cc | inr same ↦ same ])
]

pub Tiles-get_elem? :
    (start finish : ℕ) (chunks : List IndexChunk) (i : ℕ) (c : IndexChunk)
    → Tiles start chunks finish
    → get_elem? chunks i ≡ some c
    → c.start + c.size ≤ finish
Tiles-get_elem? start finish [] i c t h = cc
Tiles-get_elem? start finish (d ∷ chunks) zero c (e, t) h =
    subst (λ (x : IndexChunk). x.start + x.size ≤ finish) (some_inj h)
      (omega (arith, e, Tiles-le (start + d.size) chunks finish t))
Tiles-get_elem? start finish (d ∷ chunks) (suc i) c (e, t) h =
    Tiles-get_elem? (start + d.size) finish chunks i c t h

pub bytes_from-eq :
    (f g : ℕ → ℕ) (n off : ℕ)
    → ((j : ℕ) → off ≤ j → j < off + n → f j ≡ g j)
    → bytes_from f n off ≡ bytes_from g n off
unfolding bytes_from
bytes_from-eq f g zero off h = refl
bytes_from-eq f g (suc n) off h = rw (h off (omega arith) (omega arith)) (
    ap (λ l. g off ∷ l)
      (bytes_from-eq f g n (off + 1) (λ j lo hi. h j (omega arith) (omega arith))))

pub size-write_at :
    (f : File) (blob : ℕ → ℕ) (n off : ℕ)
    → off + n ≤ f.size
    → (write_at f (bytes_from blob n off) off).size ≡ f.size
unfolding write_at
size-write_at f blob n off h = ground (arith, length-bytes_from blob n off)
