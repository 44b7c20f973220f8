-- ===== src/Format/Mode/RoundTrip.antt =====
-- About `StatModeToFilemode` followed by `FilemodeToStatMode` of filesystem.go.
use desync.Common.{
  ℕ, ◌+◌, ◌*◌, ◌/◌, ◌%◌, ◌^◌, ◌<◌, ◌≡◌, refl, ap, ◌∙◌, Bool, true, ◌==◌, ==_iff, ◌⊎◌, inl, inr,
  arith,
}
use desync.Common.Tables.{holds_below, holds_below_sound}
use desync.Format.Mode.{stat_mode_to_filemode, filemode_to_stat_mode}

survives : ℕ → ℕ → Bool
survives type p = filemode_to_stat_mode (stat_mode_to_filemode (type * 4096 + p)) == type * 4096 + p

-- The seven types: pipe, character device, directory, block device, file, link and socket.
abbrev pub IsStatType : ℕ → Type 0
IsStatType t = (t ≡ 1) ⊎ ((t ≡ 2) ⊎ ((t ≡ 4) ⊎ ((t ≡ 6) ⊎ ((t ≡ 8) ⊎ ((t ≡ 10) ⊎ (t ≡ 12))))))

module _ (p : ℕ) (h : p < 4096) where
  pipe : survives 1 p ≡ true
  unfolding survives holds_below stat_mode_to_filemode filemode_to_stat_mode
  pipe = holds_below_sound (survives 1) 4096 refl h

  char_device : survives 2 p ≡ true
  unfolding survives holds_below stat_mode_to_filemode filemode_to_stat_mode
  char_device = holds_below_sound (survives 2) 4096 refl h

  dir : survives 4 p ≡ true
  unfolding survives holds_below stat_mode_to_filemode filemode_to_stat_mode
  dir = holds_below_sound (survives 4) 4096 refl h

  block_device : survives 6 p ≡ true
  unfolding survives holds_below stat_mode_to_filemode filemode_to_stat_mode
  block_device = holds_below_sound (survives 6) 4096 refl h

  regular : survives 8 p ≡ true
  unfolding survives holds_below stat_mode_to_filemode filemode_to_stat_mode
  regular = holds_below_sound (survives 8) 4096 refl h

  link : survives 10 p ≡ true
  unfolding survives holds_below stat_mode_to_filemode filemode_to_stat_mode
  link = holds_below_sound (survives 10) 4096 refl h

  socket : survives 12 p ≡ true
  unfolding survives holds_below stat_mode_to_filemode filemode_to_stat_mode
  socket = holds_below_sound (survives 12) 4096 refl h

  every_type : (t : ℕ) → IsStatType t → survives t p ≡ true
  every_type t (inl e) = ap (λ k. survives k p) e ∙ pipe
  every_type t (inr (inl e)) = ap (λ k. survives k p) e ∙ char_device
  every_type t (inr (inr (inl e))) = ap (λ k. survives k p) e ∙ dir
  every_type t (inr (inr (inr (inl e)))) = ap (λ k. survives k p) e ∙ block_device
  every_type t (inr (inr (inr (inr (inl e))))) = ap (λ k. survives k p) e ∙ regular
  every_type t (inr (inr (inr (inr (inr (inl e)))))) = ap (λ k. survives k p) e ∙ link
  every_type t (inr (inr (inr (inr (inr (inr e)))))) = ap (λ k. survives k p) e ∙ socket

abbrev pub IsStatMode : ℕ → Type 0
IsStatMode s = IsStatType (s / 4096)

pub IsStatMode-lt : (s : ℕ) → IsStatMode s → s < 2 ^ 32
IsStatMode-lt s known = omega arith

survives→eq :
    (t p : ℕ)
    → survives t p ≡ true
    → filemode_to_stat_mode (stat_mode_to_filemode (t * 4096 + p)) ≡ t * 4096 + p
unfolding survives
survives→eq t p h = (==_iff _ _).0 h

-- A Unix mode of any of the seven types and with any permission, setuid, setgid and sticky bits
-- comes back from Go's file mode.
pub filemode_to_stat_mode-stat_mode_to_filemode :
    (s : ℕ) → IsStatMode s → filemode_to_stat_mode (stat_mode_to_filemode s) ≡ s
filemode_to_stat_mode-stat_mode_to_filemode s known =
    let e : s / 4096 * 4096 + s % 4096 ≡ s = omega arith in
    rw e at (survives→eq (s / 4096) (s % 4096) (every_type (s % 4096) (omega arith) _ known))
