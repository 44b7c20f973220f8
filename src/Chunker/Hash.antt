-- ===== src/Chunker/Hash.antt =====
-- `Hash` of chunker.go: the rolling hash that looks for boundaries, one byte at a time.
use desync.Common.{
  ℕ, suc, ◌+◌, ◌-◌, ◌/◌, ◌%◌, List, [], ◌∷◌, length, get_elem?, set, replicate, take, drop, ◌++◌,
  Option, none, some, Bool, ◌==◌, bit_xor,
}
use desync.Chunker.Table.{hash_table}
use desync.Chunker.Words.{rotate_left32}

-- `xs[i]`, where the index is known to be in range.
at_or : {A : Type 0} → A → Option A → A
at_or d none = d
at_or d (some a) = a

unfoldable pub byte_at : List ℕ → ℕ → ℕ
unfolding at_or
byte_at xs i = at_or 0 (get_elem? xs i)

-- `hashTable[b]`
unfoldable pub hash_of : ℕ → ℕ
unfolding at_or byte_at hash_table
hash_of b = byte_at (at_or [] (get_elem? hash_table (b / 32))) (b % 32)

pub record Hash : Type 0 where
  pub value : ℕ
  pub window : List ℕ
  pub size : ℕ
  pub idx : ℕ
  pub discriminator : ℕ

unfoldable pub new_hash : ℕ → ℕ → Hash
new_hash size discriminator = record {
  value = 0;
  window = replicate size 0;
  size = size;
  idx = 0;
  discriminator = discriminator;
}

unfoldable pub roll : Hash → ℕ → Hash
roll h b =
    let ob : ℕ = byte_at h.window h.idx in
    record h {
      window = set h.window h.idx b;
      idx = (h.idx + 1) % h.size;
      value =
          bit_xor (bit_xor (rotate_left32 h.value 1) (rotate_left32 (hash_of ob) (length h.window)))
            (hash_of b);
    }

-- The value of the bytes from position `i` of the window on, xored into `value`.
unfoldable pub mix_window : ℕ → ℕ → ℕ → List ℕ → ℕ
mix_window size i value [] = value
mix_window size i value (c ∷ b) =
    mix_window size (suc i) (bit_xor value (rotate_left32 (hash_of c) (size - i - 1))) b

-- `copy(h.window, b)` overwrites the front of the window.
unfoldable pub initialize : Hash → List ℕ → Hash
initialize h b = record h {
  value = mix_window h.size 0 h.value b;
  window = take (length h.window) b ++ drop (length b) h.window;
}

unfoldable pub is_boundary : Hash → Bool
is_boundary h = h.value % h.discriminator == h.discriminator - 1

unfoldable pub reset : Hash → Hash
reset h = record h { idx = 0; value = 0 }
