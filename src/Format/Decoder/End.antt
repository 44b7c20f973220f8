-- ===== src/Format/Decoder/End.antt =====
-- When `Next` returns nil, and when a string makes it panic.
use desync.Common.{
  ℕ, zero, suc, ◌≤◌, ◌≡◌, ◌⊎◌, ◌↔◌, List, [], ◌∷◌, length, drop, length-drop, none, arith, refl,
}
use desync.Common.Outcome.{ok, err, panic}
use desync.Format.Bodies.{read_text, strip_zero}
use desync.Format.Decoder.{FormatDecoder, header_error, next_from, next, skip_advance}
use desync.Stream.Defs.{max_alloc, read_full, read_n, read_uint64, read_header, eof, eof_error}

eof_error-eof : (s : List ℕ) → (eof_error s ≡ eof) ↔ (length s ≡ 0)
unfolding eof_error
eof_error-eof [] = (λ h. refl, λ h. refl)
eof_error-eof (b ∷ bs) = (λ h. cc, λ h. absurd (omega arith))

-- The header ends the stream without an error at its first or at its second number.
read_header-eof : (s : List ℕ) → (read_header s ≡ err eof) ↔ ((length s ≡ 0) ⊎ (length s ≡ 8))
unfolding read_header read_uint64 read_full
read_header-eof s = (
  λ h. ground (arith, eof_error-eof s, eof_error-eof (drop 8 s), length-drop 8 s),
  λ h. ground (arith, eof_error-eof s, eof_error-eof (drop 8 s), length-drop 8 s),
)

header_is_eof :
    (s : List ℕ) (d : FormatDecoder) → next_from s ≡ ok (none, d) → read_header s ≡ err eof
unfolding next_from header_error
header_is_eof s d h = ground arith

-- For a size that `make` accepts, reading a string panics if, and only if, there is no room for
-- its zero byte.
pub read_text_panics : (n : ℕ) (s : List ℕ) → n ≤ max_alloc → (read_text n s ≡ panic) ↔ (n ≡ 0)
unfolding read_text read_n read_full strip_zero
read_text_panics zero s h = (λ e. refl, λ e. ground arith)
read_text_panics (suc n) [] h = (λ e. ground arith, λ e. absurd (omega arith))
read_text_panics (suc n) (b ∷ s) h = (λ e. ground arith, λ e. absurd (omega arith))

-- `Next` returns nil without an error if, and only if, the stream ends behind the element before,
-- or eight bytes later, in the middle of a header.
pub next_nil_iff :
    (d : FormatDecoder)
    → ((d' : FormatDecoder) × (next d ≡ ok (none, d')))
      ↔ ((length (skip_advance d) ≡ 0) ⊎ (length (skip_advance d) ≡ 8))
unfolding next next_from header_error
next_nil_iff d = (
  λ (d', h). (read_header-eof (skip_advance d)).0 (header_is_eof (skip_advance d) d' h),
  λ h. (
    record { rest = []; advance = none },
    rw (next, next_from, (read_header-eof (skip_advance d)).1 h) refl,
  ),
)
